-- ===== src/Navigation.antt =====
-- packages/workbench/src/services/navigation.ts: `WorkbenchNavigationService`. Identities are
-- compared by `sessionIdentityKey`, which is injective (ActiveSession/Key), hence by their fields
-- here. `go` waits for a command: `go` is the half before the wait, `succeed` and `fail` follow it,
-- and `record` is the listener of the active session, which may run in between.
pub mod History
pub mod Selection
pub mod Roundtrip
pub mod Race
pub mod Tests
use zaw.Base.{
  ℕ, zero, suc, ◌+◌, ◌-◌, String, Bool, true, false, ◌&&◌, List, [], ◌∷◌, ◌++◌, Option, none, some,
  ltb, nat_eq, ◌==◌, if◌then◌else◌, get_elem?, length, take, drop,
}
use zaw.ActiveSession.{SessionIdentity, same_session}

-- The key of an entry: `null` for no session.
abbrev pub Entry : Type 0
Entry = Option SessionIdentity

abbrev pub same_entry : Entry → Entry → Bool
same_entry none none = true
same_entry (some a) (some b) = same_session a b
same_entry _ _ = false

pub record Navigation : Type 0 where
  pub entries : List Entry
  pub index : ℕ
  -- `undefined`, or the key that the navigation in flight waits for
  pub expected_navigation : Option Entry
  pub can_back_context : Bool
  pub can_forward_context : Bool

unfoldable pub can_go_back : Navigation → Bool
can_go_back s = ltb 0 s.index

unfoldable pub can_go_forward : Navigation → Bool
can_go_forward s = ltb (s.index + 1) (length s.entries)

unfoldable pub sync_context : Navigation → Navigation
unfolding can_go_back can_go_forward
sync_context s = record s {
  can_back_context = can_go_back s;
  can_forward_context = can_go_forward s;
}

unfoldable pub construct : Entry → Navigation
unfolding sync_context
construct current = sync_context (record {
  entries = current ∷ [];
  index = 0;
  expected_navigation = none;
  can_back_context = false;
  can_forward_context = false;
})

pub data Offset : Type 0 where
  back forward : Offset

abbrev pub next_index : Offset → ℕ → Option ℕ
next_index back zero = none
next_index back (suc i) = some i
next_index forward i = some (suc i)

abbrev pub aim : ℕ → Option Entry → Navigation → Option (Navigation × Entry)
aim i none s = none
aim i (some target) s =
    some (sync_context (record s { index = i; expected_navigation = some target }), target)

abbrev pub go_to : Option ℕ → Navigation → Option (Navigation × Entry)
go_to none s = none
go_to (some i) s = aim i (get_elem? s.entries i) s

-- `none`: there is nothing to go to, and the call returns. Otherwise the target, which the command
-- opens, or which is cleared if it is no session.
unfoldable pub go : Offset → Navigation → Option (Navigation × Entry)
unfolding sync_context
go offset s = go_to (next_index offset s.index) s

unfoldable pub succeed : Navigation → Navigation
succeed s = record s { expected_navigation = none }

-- The command has failed: the index from before the call is put back.
unfoldable pub fail : ℕ → Navigation → Navigation
unfolding sync_context
fail previous s = sync_context (record s { index = previous; expected_navigation = none })

abbrev pub expects : Entry → Option Entry → Bool
expects e none = false
expects e (some k) = same_entry e k

-- `this.key(this.entries[this.index])`: past the end it is the key of no session.
abbrev pub entry_at : ℕ → List Entry → Entry
entry_at i es = elim (get_elem? es i) [ none ↦ none | some e ↦ e ]

abbrev pub capped : List Entry → List Entry
capped es = if ltb 50 (length es) then drop 1 es else es

-- `splice(index + 1)`, `push`, and `shift` past 50 entries.
abbrev pub pushed : Entry → Navigation → List Entry
pushed e s = capped (take (s.index + 1) s.entries ++ e ∷ [])

unfoldable pub record_entry : Entry → Navigation → Navigation
unfolding sync_context
record_entry e s =
    if expects e s.expected_navigation
    then sync_context (record s { expected_navigation = none })
    else if same_entry (entry_at s.index s.entries) e
    then s
    else sync_context (record s {
      entries = pushed e s;
      index = length (pushed e s) - 1;
      expected_navigation = none;
    })
