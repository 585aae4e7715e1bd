-- ===== src/Layout/Tests.antt =====
-- Runs of the layout service, and the theorems at concrete inputs.
use zaw.Base.{◌≡◌, refl, true, false, List, [], ◌∷◌, some, any}
use zaw.Layout.{
  sidebar, panel, initial, is_visible, get_part_root, set_visible, set_auto_hidden,
  update_part_visibility,
}
use zaw.Layout.Shown.{Op, makes_root, shows, hides, run, step, agrees, run_shown}

abbrev ops : List Op
ops =
    makes_root sidebar
    ∷ hides sidebar true "narrow"
    ∷ hides sidebar true "editor"
    ∷ hides sidebar false "narrow"
    ∷ shows panel true
    ∷ []

ops_tests :
    (is_visible sidebar (run ops initial) ≡ false)
    × ((run ops initial).part_roots sidebar ≡ some false)
    × (is_visible panel (run ops initial) ≡ true)
unfolding run step is_visible get_part_root set_visible set_auto_hidden update_part_visibility any
ops_tests = (refl, refl, refl)

run_shown_example :
    agrees ((run ops initial).part_roots sidebar) (is_visible sidebar (run ops initial)) ≡ true
run_shown_example = run_shown ops sidebar initial refl
