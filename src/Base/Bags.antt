-- ===== src/Base/Bags.antt =====
-- Lists up to order: totals over a list, and the quotient that forgets the order.
use Prim.Native.Nat.{ℕ, ◌+◌}
use mathlib.Core.Path.{◌≡◌, refl, ap}
use mathlib.Core.Bool.{Bool, not}
use mathlib.Core.List.{List, [], ◌∷◌, ◌++◌, map}
use mathlib.Core.Quot
use mathlib.Core.Quot.{Quot}
use native.Mathlib.Omega.{arith}
use zaw.Base.Tests.{if◌then◌else◌}
use zaw.Base.Lists.{keep}
use zaw.Base.Sort.{insert, sort}

module _ {ℓ} {A : Type ℓ} where
  abbrev pub total : (A → ℕ) → List A → ℕ
  total f [] = 0
  total f (x ∷ xs) = f x + total f xs

  abbrev pub count : (A → Bool) → List A → ℕ
  count p xs = total (λ x. if p x then 1 else 0) xs

  pub total-append : (f : A → ℕ) (xs ys : List A) → total f (xs ++ ys) ≡ total f xs + total f ys
  total-append f [] ys = omega arith
  total-append f (x ∷ xs) ys = omega (arith, total-append f xs ys)

  -- What a test keeps and what it drops are together the whole.
  pub total-keep :
      (f : A → ℕ) (p : A → Bool) (xs : List A)
      → total f xs ≡ total f (keep p xs) + total f (keep (λ x. not (p x)) xs)
  unfolding keep
  total-keep f p [] = refl
  total-keep f p (x ∷ xs) = ground (arith, total-keep f p xs)

  total-insert :
      (f : A → ℕ) (le : A → A → Bool) (x : A) (xs : List A)
      → total f (insert le x xs) ≡ f x + total f xs
  unfolding insert
  total-insert f le x [] = refl
  total-insert f le x (y ∷ ys) = ground (arith, total-insert f le x ys)

  pub total-sort : (f : A → ℕ) (le : A → A → Bool) (xs : List A) → total f (sort le xs) ≡ total f xs
  unfolding sort
  total-sort f le [] = refl
  total-sort f le (x ∷ xs) = omega (arith, total-insert f le x (sort le xs), total-sort f le xs)

  -- Every test holds equally often.
  abbrev pub SameItems : List A → List A → Type ℓ
  SameItems xs ys = (p : A → Bool) → count p xs ≡ count p ys

abbrev pub Bag {ℓ} : Type ℓ → Type ℓ
Bag A = Quot (SameItems {A = A})

module _ {ℓ} {A : Type ℓ} where
  abbrev pub bag : List A → Bag A
  bag = Quot.mk

  pub same_bag : (xs ys : List A) → SameItems xs ys → bag xs ≡ bag ys
  same_bag xs ys h = Quot.sound h

  -- How often a test holds can be told from the bag alone.
  unfoldable pub tally : (A → Bool) → Bag A → ℕ
  tally p = Quot.lift (hlevel) (count p) λ xs ys h. h p

pub total-map {ℓ κ} :
    {A : Type ℓ} {B : Type κ} (f : B → ℕ) (g : A → B) (xs : List A)
    → total f (map g xs) ≡ total (λ x. f (g x)) xs
total-map f g [] = refl
total-map f g (x ∷ xs) = ap (◌+◌ (f (g x))) (total-map f g xs)
