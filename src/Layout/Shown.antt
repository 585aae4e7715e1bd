-- ===== src/Layout/Shown.antt =====
-- packages/workbench/src/workbench/layout/layout-service.ts: what is shown of the parts.
use zaw.Base.{
  ℕ, zero, suc, String, ◌≡◌, refl, sym, ap, ◌∙◌, Bool, true, false, ◌&&◌, List, [], ◌∷◌, Option,
  none, some, if◌then◌else◌, arith, nat_eq_iff, subst, Bool-cases, inl, inr,
}
use zaw.Layout.{
  Part, titlebar, sidebar, primary, auxiliary_bar, panel, overlay, rank, LayoutService, same_part,
  at, is_visible, get_part_root, or_shown, displayed, update_part_visibility, set_visible,
  set_auto_hidden, same_bool, set_add, set_delete, set_sidebar_width, set_auxiliary_bar_width,
  set_panel_height, set_editor_visible,
}

pub data Op : Type 0 where
  makes_root : Part → Op
  shows : Part → Bool → Op
  hides : Part → Bool → String → Op
  sizes_sidebar : ℕ → Op
  sizes_auxiliary_bar : ℕ → Op
  sizes_panel : ℕ → Op
  shows_editor : Bool → Op

unfoldable pub step : Op → LayoutService → LayoutService
step (makes_root p) s = get_part_root p s
step (shows p b) s = (set_visible p b s).0
step (hides p b a) s = (set_auto_hidden p b a s).0
step (sizes_sidebar w) s = (set_sidebar_width w s).0
step (sizes_auxiliary_bar w) s = (set_auxiliary_bar_width w s).0
step (sizes_panel h) s = (set_panel_height h s).0
step (shows_editor b) s = (set_editor_visible b s).0

unfoldable pub run : List Op → LayoutService → LayoutService
unfolding step
run [] s = s
run (op ∷ ops) s = run ops (step op s)

-- The root of a part, if there is one, is displayed just if the part is visible.
abbrev pub agrees : Option Bool → Bool → Bool
agrees none b = true
agrees (some shown) b = same_bool shown b

same_bool_refl : (b : Bool) → same_bool b b ≡ true
same_bool_refl true = refl
same_bool_refl false = refl

shown : Part → LayoutService → Bool
shown p s = agrees (s.part_roots p) (is_visible p s)

part_of : ℕ → Part
part_of zero = titlebar
part_of (suc zero) = sidebar
part_of (suc (suc zero)) = primary
part_of (suc (suc (suc zero))) = auxiliary_bar
part_of (suc (suc (suc (suc zero)))) = panel
part_of (suc (suc (suc (suc (suc n))))) = overlay

part_of-rank : (p : Part) → part_of (rank p) ≡ p
unfolding part_of
part_of-rank titlebar = refl
part_of-rank sidebar = refl
part_of-rank primary = refl
part_of-rank auxiliary_bar = refl
part_of-rank panel = refl
part_of-rank overlay = refl

pub same_part-eq : (p q : Part) → same_part p q ≡ true → p ≡ q
same_part-eq p q h =
    sym (part_of-rank p) ∙ ap part_of ((nat_eq_iff (rank p) (rank q)).0 h) ∙ part_of-rank q

agrees-displayed : (o : Option Bool) (b : Bool) → agrees (displayed o b) b ≡ true
agrees-displayed none b = refl
agrees-displayed (some shown) b = same_bool_refl b

agrees-or_shown : (o : Option Bool) (b : Bool) → agrees o b ≡ true → agrees (or_shown o b) b ≡ true
agrees-or_shown none b h = same_bool_refl b
agrees-or_shown (some shown) b h = h

carried :
    (p : Part) (s next : LayoutService)
    → next.part_roots p ≡ s.part_roots p
    → is_visible p next ≡ is_visible p s
    → shown p s ≡ true
    → shown p next ≡ true
unfolding shown
carried p s next r v h =
    ap (λ o. agrees o (is_visible p next)) r ∙ ap (agrees (s.part_roots p)) v ∙ h

-- A part's visibility is changed, and shown unless it is the same as before.
settled :
    (q p : Part) (same : Bool) (s next : LayoutService)
    → next.part_roots p ≡ s.part_roots p
    → (same ≡ true → is_visible q s ≡ is_visible q next)
    → (same_part q p ≡ false → is_visible p next ≡ is_visible p s)
    → shown p s ≡ true
    → shown p (if same then (next, none) else update_part_visibility q (is_visible q next) next).0
      ≡ true
unfolding shown update_part_visibility is_visible
settled q p true s next r v o h = elim (Bool-cases (same_part q p)) [
  | inl here ↦
      carried p s next r
        (subst (λ x. is_visible x next ≡ is_visible x s) (same_part-eq q p here) (sym (v refl))) h
  | inr other ↦ carried p s next r (o other) h
]
settled q p false s next r v o h = elim (Bool-cases (same_part q p)) [
  | inl here ↦ rw here (
      subst
        (λ x. agrees (displayed (next.part_roots q) (is_visible q next)) (is_visible x next) ≡ true)
        (same_part-eq q p here) (agrees-displayed (next.part_roots q) (is_visible q next)))
  | inr other ↦ rw other (carried p s next r (o other) h)
]

same_bool-eq : (a b : Bool) → same_bool a b ≡ true → a ≡ b
same_bool-eq a b h = ground arith

shown-step :
    (op : Op) (p : Part) (s : LayoutService) → shown p s ≡ true → shown p (step op s) ≡ true
unfolding step set_visible set_auto_hidden is_visible get_part_root shown set_sidebar_width
    set_auxiliary_bar_width set_panel_height set_editor_visible
shown-step (makes_root q) p s h = elim (Bool-cases (same_part q p)) [
  | inl here ↦ rw here (
      subst (λ x. agrees (or_shown (s.part_roots q) (is_visible q s)) (is_visible x s) ≡ true)
        (same_part-eq q p here)
        (agrees-or_shown (s.part_roots q) (is_visible q s) (
          subst (λ x. agrees (s.part_roots x) (is_visible x s) ≡ true) (sym (same_part-eq q p here))
            h)))
  | inr other ↦ rw other h
]
shown-step (shows q b) p s h =
    settled q p (same_bool (s.visibility q) b && same_bool (is_visible q s) (is_visible q next)) s
      next refl (λ e. same_bool-eq _ _ (ground arith)) (λ other. rw other refl) h
  where
    next : LayoutService
    next = record s { visibility = at q b s.visibility; auto_hidden = at q [] s.auto_hidden }
shown-step (hides q b a) p s h =
    settled q p (same_bool (is_visible q s) (is_visible q next)) s next refl
      (λ e. same_bool-eq _ _ e) (λ other. rw other refl) h
  where
    next : LayoutService
    next = record s {
      auto_hidden =
          at q (if b then set_add a (s.auto_hidden q) else set_delete a (s.auto_hidden q))
            s.auto_hidden;
    }
shown-step (sizes_sidebar w) p s h = ground arith
shown-step (sizes_auxiliary_bar w) p s h = ground arith
shown-step (sizes_panel w) p s h = ground arith
shown-step (shows_editor b) p s h = ground arith

-- From a state in which the root of a part, if there is one, is displayed as `isVisible` says:
-- whatever is then shown, hidden by any source or resized, and whenever the root is first asked
-- for, the root, if there is one, is displayed exactly if `isVisible` says so.
pub run_shown :
    (ops : List Op) (p : Part) (s : LayoutService)
    → agrees (s.part_roots p) (is_visible p s) ≡ true
    → agrees ((run ops s).part_roots p) (is_visible p (run ops s)) ≡ true
unfolding run shown
run_shown [] p s h = h
run_shown (op ∷ ops) p s h = run_shown ops p (step op s) (shown-step op p s h)
