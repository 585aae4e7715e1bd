-- ===== src/Navigation/Race.antt =====
-- packages/workbench/src/services/navigation.ts: a navigation that starts before the one in flight
-- has ended.
use zaw.Base.{ℕ, zero, suc, ◌+◌, ◌≡◌, sym, ap, ◌∙◌, false, some, get_elem?, length, arith, subst}
use zaw.Navigation.{
  Navigation, Entry, back, go, next_index, fail, record_entry, sync_context, expects, same_entry,
  entry_at,
}
use zaw.Navigation.History.{IsHistory, go-aims, length-pushed}
use zaw.Navigation.Selection.{record_entry-pushed}

next_index-back : (n i : ℕ) → next_index back n ≡ some i → n ≡ i + 1
next_index-back zero i h = cc
next_index-back (suc n) i h = ground arith

-- From a well-formed history two calls of `back` overlap, a session that is neither awaited nor
-- shown is selected, and the first call's command fails: the index is then past the end of the
-- history.
pub overlap :
    (s t u : Navigation) (d e n : Entry)
    → IsHistory s
    → go back s ≡ some (t, d)
    → go back t ≡ some (u, e)
    → expects n u.expected_navigation ≡ false
    → same_entry (entry_at u.index u.entries) n ≡ false
    → (fail s.index (record_entry n u)).index ≡ length (record_entry n u).entries
unfolding sync_context fail
overlap s t u d e n inv h k nx ny = ran (go-aims back s t d h) (go-aims back t u e k)
  where
    ran :
        (i : ℕ) × (next_index back s.index ≡ some i)
          × (get_elem? s.entries i ≡ some d)
          × (t ≡ sync_context (record s { index = i; expected_navigation = some d }))
        → (j : ℕ) × (next_index back t.index ≡ some j)
          × (get_elem? t.entries j ≡ some e)
          × (u ≡ sync_context (record t { index = j; expected_navigation = some e }))
        → (fail s.index (record_entry n u)).index ≡ length (record_entry n u).entries
    ran (i, near, found, same) (j, near1, found1, same1) =
        let size = ap (λ v. length v.entries) same1 ∙ ap (λ v. length v.entries) same in
        let place = ap (λ v. v.index) same1 in
        let one = next_index-back s.index i near in
        let two = next_index-back t.index j near1 in
        let between = ap (λ v. v.index) same in
        subst (λ v. s.index ≡ length v.entries) (sym (record_entry-pushed n u nx ny))
          (sym (
            length-pushed n u (omega (arith, size, place, one, two, between, inv.inside))
              (omega (arith, size, place, one, two, between, inv.inside, inv.bound))
            ∙ omega (arith, size, place, one, two, between, inv.inside, inv.bound)))
