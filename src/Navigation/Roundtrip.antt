-- ===== src/Navigation/Roundtrip.antt =====
-- packages/workbench/src/services/navigation.ts: what the calls do to the place in the history.
use zaw.Base.{
  ℕ, zero, suc, ◌+◌, ◌<◌, ◌≡◌, refl, sym, ap, ◌∙◌, true, none, some, ltb, get_elem?, length,
  get_elem?_lt, get_elem?_ge, Bool-cases, arith, inl, inr, subst, eq_iff, is_some,
}
use zaw.Navigation.{
  Navigation, Entry, Offset, back, forward, go, go_to, aim, next_index, succeed, fail, record_entry,
  sync_context, can_go_back, can_go_forward, same_entry,
}
use zaw.Navigation.History.{IsHistory, go-aims}

same_entry_refl : (e : Entry) → same_entry e e ≡ true
same_entry_refl none = refl
same_entry_refl (some a) =
    ground (arith, eq_iff a.workspace_id a.workspace_id, eq_iff a.resource a.resource)

-- The navigation's own selection event only ends the wait.
record-awaited :
    (e : Entry) (s : Navigation)
    → s.expected_navigation ≡ some e
    → record_entry e s ≡ sync_context (record s { expected_navigation = none })
unfolding record_entry
record-awaited e s h = rw (h, same_entry_refl e) refl

pub turn : Offset → Offset
turn back = forward
turn forward = back

-- The whole of a navigation whose command succeeds: the call, the selection event of its target,
-- and the command's return.
pub navigated : Navigation → Entry → Navigation
navigated t e = succeed (record_entry e t)

next_index-turn : (o : Offset) (n i : ℕ) → next_index o n ≡ some i → next_index (turn o) i ≡ some n
unfolding turn
next_index-turn back zero i h = cc
next_index-turn back (suc n) i h = ground arith
next_index-turn forward n i h = subst (λ j. next_index back j ≡ some n) (shown h) refl
  where
    shown : some (suc n) ≡ some i → suc n ≡ i
    shown e = cc

landed :
    (s t : Navigation) (e : Entry) (i : ℕ)
    → t ≡ sync_context (record s { index = i; expected_navigation = some e })
    → navigated t e ≡ sync_context (record s { index = i; expected_navigation = none })
unfolding navigated sync_context succeed can_go_back can_go_forward
landed s t e i h =
    subst (λ u. navigated u e ≡ sync_context (record s { index = i; expected_navigation = none }))
      (sym h)
      (ap succeed (
        record-awaited e (sync_context (record s { index = i; expected_navigation = some e }))
          refl))

returned :
    (o : Offset) (s : Navigation) (i : ℕ) (d : Entry)
    → next_index o i ≡ some s.index
    → get_elem? s.entries s.index ≡ some d
    → go o (sync_context (record s { index = i; expected_navigation = none }))
      ≡ some (sync_context (record s { expected_navigation = some d }), d)
unfolding go sync_context
returned o s i d n g = rw (n, g) refl

there_and_back :
    (o : Offset) (s t : Navigation) (e d : Entry)
    → get_elem? s.entries s.index ≡ some d
    → (i : ℕ) × (next_index o s.index ≡ some i)
      × (get_elem? s.entries i ≡ some e)
      × (t ≡ sync_context (record s { index = i; expected_navigation = some e }))
    → go (turn o) (navigated t e)
      ≡ some (sync_context (record s { expected_navigation = some d }), d)
there_and_back o s t e d g (i, near, found, same) =
    subst (λ u. go (turn o) u ≡ some (sync_context (record s { expected_navigation = some d }), d))
      (sym (landed s t e i same)) (returned (turn o) s i d (next_index-turn o s.index i near) g)

synced :
    (s : Navigation)
    → IsHistory s
    → sync_context (record s { expected_navigation = none })
      ≡ record s { expected_navigation = none }
unfolding sync_context
synced s inv =
    ap
      (λ b. record s {
        expected_navigation = none;
        can_back_context = b;
        can_forward_context = can_go_forward s;
      })
      (sym inv.back_key)
    ∙ ap (λ b. record s { expected_navigation = none; can_forward_context = b })
        (sym inv.forward_key)

-- From a well-formed history, going back and then forward (or forward and then back), each
-- navigation with the selection event of its target and a command that succeeds, ends at the entry
-- one came from, with the history, the index and both context keys as they were and no navigation
-- awaited.
pub go-turn :
    (o : Offset) (s t : Navigation) (e d : Entry)
    → IsHistory s
    → get_elem? s.entries s.index ≡ some d
    → go o s ≡ some (t, e)
    → (u : Navigation) × (go (turn o) (navigated t e) ≡ some (u, d))
      × (navigated u d ≡ record s { expected_navigation = none })
unfolding sync_context
go-turn o s t e d inv g h = (
  sync_context (record s { expected_navigation = some d }),
  there_and_back o s t e d g (go-aims o s t e h),
  landed s (sync_context (record s { expected_navigation = some d })) d s.index refl ∙ synced s inv,
)

-- From a well-formed history, a navigation whose command fails before anything else happens leaves
-- no trace: history, index and context keys are as before the call, and no navigation is awaited.
pub go-fail :
    (o : Offset) (s t : Navigation) (e : Entry)
    → IsHistory s
    → go o s ≡ some (t, e)
    → fail s.index t ≡ record s { expected_navigation = none }
unfolding fail sync_context
go-fail o s t e inv h = failed (go-aims o s t e h)
  where
    failed :
        (i : ℕ) × (next_index o s.index ≡ some i)
          × (get_elem? s.entries i ≡ some e)
          × (t ≡ sync_context (record s { index = i; expected_navigation = some e }))
        → fail s.index t ≡ record s { expected_navigation = none }
    failed (i, near, found, same) = ap (fail s.index) same ∙ synced s inv

back_some :
    (n : ℕ) (s : Navigation)
    → n < length s.entries
    → is_some (go_to (next_index back n) s) ≡ ltb 0 n
back_some zero s h = refl
back_some (suc n) s h = reach (get_elem?_lt s.entries n (omega arith)) ∙ sym positive
  where
    positive : ltb 0 (suc n) ≡ true
    positive = ground arith

    reach : (a : Entry) × (get_elem? s.entries n ≡ some a) → is_some (go_to (some n) s) ≡ true
    reach (a, found) = ground (arith, found)

forward_some :
    (s : Navigation)
    → is_some (aim (suc s.index) (get_elem? s.entries (suc s.index)) s) ≡ can_go_forward s
unfolding can_go_forward
forward_some s = elim (Bool-cases (ltb (s.index + 1) (length s.entries))) [
  | inl more ↦ ahead more (get_elem?_lt s.entries (suc s.index) (ground arith))
  | inr last ↦ rw (get_elem?_ge s.entries (suc s.index) (ground arith), last) refl
]
  where
    ahead :
        ltb (s.index + 1) (length s.entries) ≡ true
        → (a : Entry) × (get_elem? s.entries (suc s.index) ≡ some a)
        → is_some (aim (suc s.index) (get_elem? s.entries (suc s.index)) s)
          ≡ ltb (s.index + 1) (length s.entries)
    ahead more (a, found) = rw (found, more) refl

-- A call goes somewhere exactly if its context key is set.
pub go-is_some :
    (s : Navigation)
    → IsHistory s
    → (is_some (go back s) ≡ s.can_back_context) × (is_some (go forward s) ≡ s.can_forward_context)
unfolding go can_go_back can_go_forward
go-is_some s inv =
    (back_some s.index s inv.inside ∙ sym inv.back_key, forward_some s ∙ sym inv.forward_key)
