-- ===== src/Navigation/Selection.antt =====
-- packages/workbench/src/services/navigation.ts: what `record` makes of a new selection.
use zaw.Base.{
  subst, ℕ, zero, suc, ◌+◌, ◌-◌, ◌<◌, ◌≡◌, refl, sym, ap, ◌∙◌, true, false, List, [], ◌∷◌, ◌++◌,
  none, some, ltb, get_elem?, length, take, drop, length-append, length-take, length-drop,
  Bool-cases, arith, inl, inr,
}
use zaw.Navigation.{
  Navigation, Entry, record_entry, sync_context, can_go_forward, expects, same_entry, entry_at,
  capped, pushed,
}
use zaw.Navigation.History.{IsHistory, length-pushed}

pub record_entry-pushed :
    (e : Entry) (s : Navigation)
    → expects e s.expected_navigation ≡ false
    → same_entry (entry_at s.index s.entries) e ≡ false
    → record_entry e s
      ≡ sync_context (record s {
        entries = pushed e s;
        index = length (pushed e s) - 1;
        expected_navigation = none;
      })
unfolding record_entry
record_entry-pushed e s h k = rw (h, k) refl

get_elem?-last : (es : List Entry) (e : Entry) → get_elem? (es ++ e ∷ []) (length es) ≡ some e
get_elem?-last [] e = refl
get_elem?-last (x ∷ es) e = get_elem?-last es e

get_elem?-drop : (i : ℕ) (es : List Entry) → get_elem? (drop 1 es) i ≡ get_elem? es (suc i)
get_elem?-drop i [] = refl
get_elem?-drop i (x ∷ es) = refl

get_elem?-take_append :
    (n : ℕ) (i : ℕ) (es fs : List Entry)
    → i < n
    → i < length es
    → get_elem? (take n es ++ fs) i ≡ get_elem? es i
get_elem?-take_append zero i es fs h k = absurd (omega arith)
get_elem?-take_append (suc n) i [] fs h k = absurd (omega arith)
get_elem?-take_append (suc n) zero (x ∷ es) fs h k = refl
get_elem?-take_append (suc n) (suc i) (x ∷ es) fs h k =
    get_elem?-take_append n i es fs (omega arith) (omega arith)

-- A shift moves the last two of more than 50 entries down by one, and leaves them in place otherwise.
get_elem?-capped :
    (es : List Entry) (n : ℕ)
    → length es ≡ n + 2
    → (get_elem? (capped es) (length (capped es) - 1) ≡ get_elem? es (suc n))
      × (get_elem? (capped es) (length (capped es) - 1 - 1) ≡ get_elem? es n)
get_elem?-capped es n h = elim (Bool-cases (ltb 50 (length es))) [
  | inl over ↦ subst Agrees (shifted over) (moved over)
  | inr within ↦
      subst Agrees (kept_all within)
        (ap (get_elem? es) (omega (arith, h)), ap (get_elem? es) (omega (arith, h)))
]
  where
    Agrees : List Entry → Type 0
    Agrees cs =
        (get_elem? cs (length cs - 1) ≡ get_elem? es (suc n))
        × (get_elem? cs (length cs - 1 - 1) ≡ get_elem? es n)

    shifted : ltb 50 (length es) ≡ true → drop 1 es ≡ capped es
    shifted over = rw over refl

    kept_all : ltb 50 (length es) ≡ false → es ≡ capped es
    kept_all within = rw within refl

    moved : ltb 50 (length es) ≡ true → Agrees (drop 1 es)
    moved over =
        let size = length-drop 1 es in
        let many : 50 < length es = ground arith in
        (
          ap (get_elem? (drop 1 es)) (omega (arith, h, size, many)) ∙ get_elem?-drop n es,
          ap (get_elem? (drop 1 es)) {y = n - 1} (omega (arith, h, size, many))
              ∙ get_elem?-drop (n - 1) es
              ∙ ap (get_elem? es) (omega (arith, h, many)),
        )

-- In a well-formed history a selection that is neither the awaited one nor the current entry
-- becomes the last entry and the current one, with nothing to go forward to; what was current is
-- the entry before it, so that going back returns there, also when the oldest of 50 entries has
-- been dropped.
pub record_entry_new :
    (e : Entry) (s : Navigation)
    → IsHistory s
    → expects e s.expected_navigation ≡ false
    → same_entry (entry_at s.index s.entries) e ≡ false
    → (get_elem? (record_entry e s).entries (record_entry e s).index ≡ some e)
      × (can_go_forward (record_entry e s) ≡ false)
      × (get_elem? (record_entry e s).entries ((record_entry e s).index - 1)
          ≡ get_elem? s.entries s.index)
unfolding sync_context can_go_forward
record_entry_new e s inv h k =
    subst
      (λ t.
        (get_elem? t.entries t.index ≡ some e)
        × (can_go_forward t ≡ false)
        × (get_elem? t.entries (t.index - 1) ≡ get_elem? s.entries s.index))
      (sym (record_entry-pushed e s h k))
      (
        agree.0
            ∙ ap (get_elem? (joined e s)) (omega (arith, short))
            ∙ get_elem?-last (take (s.index + 1) s.entries) e,
        ground (arith, length-pushed e s inv.inside (omega (arith, inv.inside, inv.bound))),
        agree.1
            ∙ get_elem?-take_append (s.index + 1) s.index s.entries (e ∷ []) (omega arith)
                inv.inside,
      )
  where
    joined : Entry → Navigation → List Entry
    joined e s = take (s.index + 1) s.entries ++ e ∷ []

    short : length (take (s.index + 1) s.entries) ≡ s.index + 1
    short = omega (arith, length-take (s.index + 1) s.entries, inv.inside)

    agree :
        (get_elem? (pushed e s) (length (pushed e s) - 1) ≡ get_elem? (joined e s) (suc s.index))
        × (get_elem? (pushed e s) (length (pushed e s) - 1 - 1) ≡ get_elem? (joined e s) s.index)
    agree =
        get_elem?-capped (joined e s) s.index
          (omega (arith, short, length-append (take (s.index + 1) s.entries) (e ∷ [])))
