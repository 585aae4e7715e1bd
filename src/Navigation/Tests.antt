-- ===== src/Navigation/Tests.antt =====
-- Runs of the navigation history, and the theorems at concrete histories.
use zaw.Base.{
  ℕ, String, ◌≡◌, refl, Bool, true, false, [], ◌∷◌, Option, none, some, arith, get_elem?, ◌-◌,
}
use zaw.Navigation.{
  Navigation, Entry, back, go, fail, record_entry, sync_context, can_go_back, can_go_forward,
  construct,
}
use zaw.Navigation.History.{IsHistory, Step, Reach, starts, more, records, fails, Reach-IsHistory}
use zaw.Navigation.Selection.{record_entry_new}
use zaw.Navigation.Roundtrip.{navigated, turn, go-turn, go-fail}

abbrev session : String → Entry
session r = some (record { workspace_id = "w"; resource = r })

abbrev at : ℕ → Option Entry → Bool → Bool → Navigation
at i x b f = record {
  entries = session "a" ∷ session "b" ∷ session "c" ∷ [];
  index = i;
  expected_navigation = x;
  can_back_context = b;
  can_forward_context = f;
}

abbrev newest : Navigation
newest = at 2 none true false

abbrev middle : Navigation
middle = at 1 (some (session "b")) true true

abbrev oldest : Navigation
oldest = at 0 (some (session "a")) false true

newest-IsHistory : IsHistory newest
unfolding can_go_back can_go_forward
newest-IsHistory = record {
  positive = omega arith;
  bound = omega arith;
  inside = omega arith;
  back_key = refl;
  forward_key = refl;
}

go_back_tests :
    (go back newest ≡ some (middle, session "b")) × (go back middle ≡ some (oldest, session "a"))
unfolding go sync_context can_go_back can_go_forward
go_back_tests = (refl, refl)

-- A session is opened from the start page, and `back` fails.
abbrev opened : Navigation
opened = record_entry (session "a") (construct none)

leaves : Navigation
unfolding record_entry construct sync_context can_go_back can_go_forward
leaves = sync_context (record opened { index = 0; expected_navigation = some none })

failed_run : Reach none (fail 1 leaves)
unfolding leaves go sync_context can_go_back can_go_forward
failed_run =
    more (some 1) none leaves (fail 1 leaves)
      (more none (some 1) opened leaves
        (more none none (construct none) opened (starts none)
          (records none (construct none) (session "a")))
        (Step.goes opened leaves back none leaves_back))
      (fails 1 leaves)
  where
    leaves_back : go back opened ≡ some (leaves, none)
    leaves_back = refl

Reach-IsHistory_example : IsHistory (fail 1 leaves)
Reach-IsHistory_example = Reach-IsHistory failed_run

go-turn_example :
    (u : Navigation) × (go (turn back) (navigated middle (session "b")) ≡ some (u, session "c"))
    × (navigated u (session "c") ≡ record newest { expected_navigation = none })
go-turn_example =
    go-turn back newest middle (session "b") (session "c") newest-IsHistory refl go_back_tests.0

go-fail_example : fail 2 middle ≡ record newest { expected_navigation = none }
go-fail_example = go-fail back newest middle (session "b") newest-IsHistory go_back_tests.0

record_entry_new_example :
    (get_elem? (record_entry (session "d") newest).entries (record_entry (session "d") newest).index
      ≡ some (session "d"))
    × (can_go_forward (record_entry (session "d") newest) ≡ false)
    × (get_elem?
          (record_entry (session "d") newest).entries
          ((record_entry (session "d") newest).index - 1)
        ≡ some (session "c"))
record_entry_new_example = record_entry_new (session "d") newest newest-IsHistory refl refl
