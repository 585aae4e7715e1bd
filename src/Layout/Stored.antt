-- ===== src/Layout/Stored.antt =====
-- packages/workbench/src/workbench/layout/layout-service.ts: the stored layout, and the sources that
-- hide a part.
use zaw.Base.{
  ℕ, max, ◌≤◌, String, ◌≡◌, refl, ap, ◌∙◌, Bool, true, false, ◌&&◌, ◌||◌, List, [], ◌∷◌, ◌++◌, none,
  some, ◌==◌, if◌then◌else◌, any, keep, arith, eq_iff, Bool-cases, inl, inr,
}
use zaw.Layout.Shown.{same_part-eq}
use zaw.Layout.{
  Part, LayoutService, same_part, at, is_visible, set_auto_hidden, same_bool, set_add, set_delete,
  persist, restore, update_part_visibility,
}

max_of : (low n : ℕ) → low ≤ n → max low n ≡ n
max_of low n h = omega (arith, h)

-- A layout whose sizes are no smaller than the smallest ones is restored as it was stored, whatever the
-- new window starts with; the parts that were hidden automatically are not part of it.
pub restore_lem :
    (s t : LayoutService)
    → 270 ≤ s.sidebar_width
    → 270 ≤ s.auxiliary_bar_width
    → 77 ≤ s.panel_height
    → restore (some (persist s)) t ≡ record s {
      part_roots = t.part_roots;
      auto_hidden = t.auto_hidden;
      editor_visible = t.editor_visible;
    }
unfolding restore persist
restore_lem s t a b c =
    rw
      (max_of 270 s.sidebar_width a, max_of 270 s.auxiliary_bar_width b, max_of 77 s.panel_height c)
      refl

any-append :
    (a c : String) (xs : List String)
    → any (λ x. x == c) (xs ++ a ∷ []) ≡ any (λ x. x == c) xs || (a == c)
unfolding any
any-append a c [] = ground arith
any-append a c (x ∷ xs) = ground (arith, any-append a c xs)

any-same :
    (a c : String) (xs : List String)
    → (a == c) ≡ true
    → any (λ x. x == a) xs ≡ any (λ x. x == c) xs
any-same a c xs h = ap (λ d. any (λ x. x == d) xs) ((eq_iff a c).0 h)

any-set_add :
    (a c : String) (xs : List String)
    → any (λ x. x == c) (set_add a xs) ≡ (if a == c then true else any (λ x. x == c) xs)
any-set_add a c xs = ground (arith, any-append a c xs, any-same a c xs)

any-set_delete :
    (a c : String) (xs : List String)
    → any (λ x. x == c) (set_delete a xs) ≡ (if a == c then false else any (λ x. x == c) xs)
unfolding any keep
any-set_delete a c [] = ground arith
any-set_delete a c (x ∷ xs) =
    ground (arith, any-set_delete a c xs, eq_iff x a, eq_iff x c, eq_iff a c)

either :
    (c : Bool) (q p : Part) (v : Bool) (next : LayoutService)
    → ((if c then (next, none) else update_part_visibility q v next).0.visibility p
        ≡ next.visibility p)
      × ((if c then (next, none) else update_part_visibility q v next).0.auto_hidden p
          ≡ next.auto_hidden p)
unfolding update_part_visibility
either true q p v next = (refl, refl)
either false q p v next = (refl, refl)

hidden_sources :
    (q p : Part) (b : Bool) (a : String) (s : LayoutService)
    → ((set_auto_hidden q b a s).0.visibility p ≡ s.visibility p)
      × ((set_auto_hidden q b a s).0.auto_hidden p ≡ (
          if same_part q p
          then (if b then set_add a (s.auto_hidden q) else set_delete a (s.auto_hidden q))
          else s.auto_hidden p))
unfolding set_auto_hidden update_part_visibility
hidden_sources q p b a s =
    either (same_bool (is_visible q s) (is_visible q next)) q p (is_visible q next) next
  where
    next : LayoutService
    next = record s {
      auto_hidden =
          at q (if b then set_add a (s.auto_hidden q) else set_delete a (s.auto_hidden q))
            s.auto_hidden;
    }

-- `setAutoHidden` for one source: the user's own choice is kept, the part is hidden for this source or
-- not as asked, and for every other source, and every other part, it is hidden as before.
pub set_auto_hidden_lem :
    (q p : Part) (b : Bool) (a c : String) (s : LayoutService)
    → ((set_auto_hidden q b a s).0.visibility p ≡ s.visibility p)
      × (any (λ x. x == c) ((set_auto_hidden q b a s).0.auto_hidden p)
          ≡ (if same_part q p && (a == c) then b else any (λ x. x == c) (s.auto_hidden p)))
set_auto_hidden_lem q p b a c s = (
  (hidden_sources q p b a s).0,
  ap (λ xs. any (λ x. x == c) xs) (hidden_sources q p b a s).1
      ∙ (elim (Bool-cases (same_part q p)) [
        | inl here ↦ rw here (
            asked b
            ∙ ap (λ x. if a == c then b else any (λ y. y == c) (s.auto_hidden x))
                (same_part-eq q p here))
        | inr other ↦ rw other refl
      ]),
)
  where
    asked :
        (b : Bool)
        → any
            (λ x. x == c)
            (if b then set_add a (s.auto_hidden q) else set_delete a (s.auto_hidden q))
          ≡ (if a == c then b else any (λ x. x == c) (s.auto_hidden q))
    asked true = any-set_add a c (s.auto_hidden q)
    asked false = any-set_delete a c (s.auto_hidden q)
