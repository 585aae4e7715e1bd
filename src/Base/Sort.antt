-- ===== src/Base/Sort.antt =====
-- `Array.prototype.sort`, which the language makes stable: insertion from the right, before the
-- first element that does not come strictly earlier.
use mathlib.Core.Path.{◌≡◌, refl, subst}
use mathlib.Core.Logic.{◌⊎◌, inl, inr}
use mathlib.Core.Bool.{Bool, true, false, ◌&&◌}
use mathlib.Core.List.{List, [], ◌∷◌, Perm}
use mathlib.Core.List.Perm
use native.Mathlib.Omega.{arith}
use zaw.Base.Tests.{if◌then◌else◌, Bool-cases}
use mathlib.Core.Option.{none, some}
use zaw.Base.Lists.{All, All-keep, keep, find}

module _ {ℓ} {A : Type ℓ} (le : A → A → Bool) where
  unfoldable pub insert : A → List A → List A
  insert x [] = x ∷ []
  insert x (y ∷ ys) = if le x y then x ∷ y ∷ ys else y ∷ insert x ys

  unfoldable pub sort : List A → List A
  unfolding insert
  sort [] = []
  sort (x ∷ xs) = insert x (sort xs)

  abbrev pub IsSorted : List A → Type ℓ
  IsSorted [] = Unit
  IsSorted (x ∷ xs) = All (λ y. le x y ≡ true) xs × IsSorted xs

  pub insert-perm : (x : A) (xs : List A) → Perm (insert x xs) (x ∷ xs)
  unfolding insert
  insert-perm x [] = Perm.refl _
  insert-perm x (y ∷ ys) = ground (
    arith,
    Perm.refl (x ∷ y ∷ ys),
    Perm.trans (Perm.cons y (insert-perm x ys)) (Perm.swap x y ys),
  )

  pub sort-perm : (xs : List A) → Perm (sort xs) xs
  unfolding sort
  sort-perm [] = Perm.refl _
  sort-perm (x ∷ xs) = Perm.trans (insert-perm x (sort xs)) (Perm.cons x (sort-perm xs))

  -- A total preorder, as the comparators of the program are.
  pub record IsPreorder : Type ℓ where
    pub total : (a b : A) → (le a b ≡ true) ⊎ (le b a ≡ true)
    pub trans : (a b c : A) → le a b ≡ true → le b c ≡ true → le a c ≡ true

  abbrev pub ties : A → A → Bool
  ties a x = le a x && le x a

  module _ (o : IsPreorder) where
    All-le :
        (x y : A) (ys : List A)
        → le x y ≡ true
        → All (λ z. le y z ≡ true) ys
        → All (λ z. le x z ≡ true) ys
    All-le x y [] h k = tt
    All-le x y (z ∷ zs) h k = (o.trans x y z h k.0, All-le x y zs h k.1)

    All-insert {κ} : (P : A → Type κ) (x : A) (ys : List A) → P x → All P ys → All P (insert x ys)
    unfolding insert
    All-insert P x [] h k = (h, tt)
    All-insert P x (y ∷ ys) h k = ground (arith, All-insert P x ys h k.1)

    insert-IsSorted : (x : A) (ys : List A) → IsSorted ys → IsSorted (insert x ys)
    unfolding insert
    insert-IsSorted x [] s = (tt, tt)
    insert-IsSorted x (y ∷ ys) s = elim (Bool-cases (le x y)) [
      | inl first ↦ rw first ((first, All-le x y ys first s.0), s)
      | inr later ↦ rw later (
        All-insert (λ z. le y z ≡ true) x ys (ground (arith, o.total x y)) s.0,
        insert-IsSorted x ys s.1,
      )
    ]

    pub sort-IsSorted : (xs : List A) → IsSorted (sort xs)
    unfolding sort
    sort-IsSorted [] = tt
    sort-IsSorted (x ∷ xs) = insert-IsSorted x (sort xs) (sort-IsSorted xs)

    insert-stable : (a x : A) (ys : List A) → keep (ties a) (insert x ys) ≡ keep (ties a) (x ∷ ys)
    unfolding insert keep
    insert-stable a x [] = refl
    insert-stable a x (y ∷ ys) = ground (arith, insert-stable a x ys, o.trans x a y)

    -- Elements that tie with each other keep their order.
    pub sort-stable : (a : A) (xs : List A) → keep (ties a) (sort xs) ≡ keep (ties a) xs
    unfolding sort keep
    sort-stable a [] = refl
    sort-stable a (x ∷ xs) = ground (arith, insert-stable a x (sort xs), sort-stable a xs)

    insert_least : (x : A) (ys : List A) → All (λ y. le x y ≡ true) ys → insert x ys ≡ x ∷ ys
    unfolding insert
    insert_least x [] h = refl
    insert_least x (y ∷ ys) h = rw h.0

    keep-insert :
        (p : A → Bool) (x : A) (ys : List A)
        → IsSorted ys
        → keep p (insert x ys) ≡ (if p x then insert x (keep p ys) else keep p ys)
    unfolding insert keep
    keep-insert p x [] s = ground arith
    keep-insert p x (y ∷ ys) s = elim (Bool-cases (le x y)) [
      | inl first ↦
          let all : All (λ z. le x z ≡ true) (y ∷ ys) = (first, All-le x y ys first s.0) in
          rw first (
            ground (
              arith,
              insert_least x (y ∷ keep p ys) (first, All-keep (λ z. le x z ≡ true) p ys all.1),
              insert_least x (keep p ys) (All-keep (λ z. le x z ≡ true) p ys all.1),
            ))
      | inr later ↦ rw later (ground (arith, keep-insert p x ys s.1))
    ]

    -- Filtering before or after sorting comes to the same.
    pub keep-sort : (p : A → Bool) (xs : List A) → keep p (sort xs) ≡ sort (keep p xs)
    unfolding sort keep
    keep-sort p [] = refl
    keep-sort p (x ∷ xs) =
        ground (arith, keep-insert p x (sort xs) (sort-IsSorted xs), keep-sort p xs)

    le_refl : (a : A) → le a a ≡ true
    le_refl a = ground (arith, o.total a a)

    All-weaken :
        (p : A → Bool) (x : A) (ys : List A)
        → All (λ y. le x y ≡ true) ys
        → All (λ y. p y ≡ true → le x y ≡ true) ys
    All-weaken p x [] h = tt
    All-weaken p x (y ∷ ys) h = ((λ _. h.0), All-weaken p x ys h.1)

    find_sorted :
        (p : A → Bool) (xs : List A) (x : A)
        → IsSorted xs
        → find p xs ≡ some x
        → (p x ≡ true) × All (λ y. p y ≡ true → le x y ≡ true) xs
    unfolding find
    find_sorted p [] x s e = cc
    find_sorted p (y ∷ ys) x s e = elim (Bool-cases (p y)) [
      | inl hit ↦
          subst (λ z. (p z ≡ true) × All (λ w. p w ≡ true → le z w ≡ true) (y ∷ ys)) (ground arith)
            (hit, ((λ _. le_refl y), All-weaken p y ys s.0))
      | inr miss ↦
          let (good, least) = find_sorted p ys x s.1 (ground arith) in (good, ((λ h. cc), least))
    ]

All-of_insert {ℓ κ} :
    {A : Type ℓ} (le : A → A → Bool) (P : A → Type κ) (x : A) (ys : List A)
    → All P (insert le x ys)
    → P x × All P ys
unfolding insert
All-of_insert le P x [] h = (h.0, tt)
All-of_insert le P x (y ∷ ys) h = ground (arith, All-of_insert le P x ys)

All-of_sort {ℓ κ} :
    {A : Type ℓ} (le : A → A → Bool) (P : A → Type κ) (xs : List A) → All P (sort le xs) → All P xs
unfolding sort
All-of_sort le P [] h = tt
All-of_sort le P (x ∷ xs) h =
    let (first, rest) = All-of_insert le P x (sort le xs) h in (first, All-of_sort le P xs rest)

-- The first match in sorted order is a least match.
pub find-sort {ℓ} :
    {A : Type ℓ} (le : A → A → Bool) (p : A → Bool) (xs : List A) (x : A)
    → IsPreorder le
    → find p (sort le xs) ≡ some x
    → (p x ≡ true) × All (λ y. p y ≡ true → le x y ≡ true) xs
find-sort le p xs x o e =
    let (good, least) = find_sorted le o p (sort le xs) x (sort-IsSorted le o xs) e in
    (good, All-of_sort le _ xs least)

find-none {ℓ} :
    {A : Type ℓ} (p : A → Bool) (xs : List A) → find p xs ≡ none → All (λ y. p y ≡ false) xs
unfolding find
find-none p [] e = tt
find-none p (x ∷ xs) e = ground (arith, find-none p xs)

pub find-sort-none {ℓ} :
    {A : Type ℓ} (le : A → A → Bool) (p : A → Bool) (xs : List A)
    → find p (sort le xs) ≡ none
    → All (λ y. p y ≡ false) xs
find-sort-none le p xs e = All-of_sort le _ xs (find-none p (sort le xs) e)

All-of_inserted {ℓ κ} :
    {A : Type ℓ} (le : A → A → Bool) (P : A → Type κ) (x : A) (ys : List A)
    → P x
    → All P ys
    → All P (insert le x ys)
unfolding insert
All-of_inserted le P x [] h k = (h, tt)
All-of_inserted le P x (y ∷ ys) h k = ground (arith, All-of_inserted le P x ys h k.1)

pub All-sort {ℓ κ} :
    {A : Type ℓ} (le : A → A → Bool) (P : A → Type κ) (xs : List A) → All P xs → All P (sort le xs)
unfolding sort
All-sort le P [] h = tt
All-sort le P (x ∷ xs) h = All-of_inserted le P x (sort le xs) h.0 (All-sort le P xs h.1)
