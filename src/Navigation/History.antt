-- ===== src/Navigation/History.antt =====
-- packages/workbench/src/services/navigation.ts: the history and its place in it, over runs in which
-- a navigation ends before the next one starts.
use zaw.Base.{
  subst, ℕ, zero, suc, ◌+◌, ◌-◌, ◌≤◌, ◌<◌, min, ◌≡◌, refl, sym, ap, ◌∙◌, false, List, [], ◌∷◌, ◌++◌,
  Option, none, some, ltb, if◌then◌else◌, get_elem?, length, take, length-append, length-take,
  length-drop, Bool-cases, Option-cases, arith, ◌⊎◌, inl, inr,
}
use zaw.Navigation.{
  Navigation, Entry, Offset, back, forward, go, next_index, succeed, fail, record_entry,
  sync_context, can_go_back, can_go_forward, construct, expects, same_entry, entry_at, capped,
  pushed,
}

-- Between 1 and 50 entries, a place among them, and both context keys up to date.
pub record IsHistory (s : Navigation) : Type 0 where
  pub positive : 0 < length s.entries
  pub bound : length s.entries ≤ 50
  pub inside : s.index < length s.entries
  pub back_key : s.can_back_context ≡ can_go_back s
  pub forward_key : s.can_forward_context ≡ can_go_forward s

-- The index that a navigation in flight goes back to if it fails.
abbrev pub Flight : Type 0
Flight = Option ℕ

abbrev pub Fits : Flight → Navigation → Type 0
Fits none s = Unit
Fits (some p) s = (p < length s.entries) × (p ≤ s.index + 1)

pub data Step : Flight → Navigation → Flight → Navigation → Type 0 where
  goes :
      (s t : Navigation) (o : Offset) (e : Entry)
      → go o s ≡ some (t, e)
      → Step none s (some s.index) t
  records : (f : Flight) (s : Navigation) (e : Entry) → Step f s f (record_entry e s)
  succeeds : (p : ℕ) (s : Navigation) → Step (some p) s none (succeed s)
  fails : (p : ℕ) (s : Navigation) → Step (some p) s none (fail p s)

pub data Reach : Flight → Navigation → Type 0 where
  starts : (e : Entry) → Reach none (construct e)
  more : (f g : Flight) (s t : Navigation) → Reach f s → Step f s g t → Reach g t

pub length-capped :
    (es : List Entry)
    → length (capped es) ≡ (if ltb 50 (length es) then length es - 1 else length es)
length-capped es = ground (arith, length-drop 1 es)

pub length-pushed :
    (e : Entry) (s : Navigation)
    → s.index < length s.entries
    → s.index < 50
    → length (pushed e s) ≡ min 50 (s.index + 2)
length-pushed e s h k = ground (
  arith,
  length-capped (take (s.index + 1) s.entries ++ e ∷ []),
  length-append (take (s.index + 1) s.entries) (e ∷ []),
  length-take (s.index + 1) s.entries,
)

sync-IsHistory :
    (s : Navigation)
    → length s.entries ≤ 50
    → s.index < length s.entries
    → IsHistory (sync_context s)
unfolding sync_context can_go_back can_go_forward
sync-IsHistory s b i = record {
  positive = omega arith;
  bound = b;
  inside = i;
  back_key = refl;
  forward_key = refl;
}

construct-IsHistory : (e : Entry) → IsHistory (construct e)
unfolding construct
construct-IsHistory e =
    sync-IsHistory
      (record {
        entries = e ∷ [];
        index = 0;
        expected_navigation = none;
        can_back_context = false;
        can_forward_context = false;
      })
      (omega arith) (omega arith)

-- What a navigation leaves: another place of the same history, one away from the place before.
pub go-aims :
    (o : Offset) (s t : Navigation) (e : Entry)
    → go o s ≡ some (t, e)
    → (i : ℕ) × (next_index o s.index ≡ some i)
      × (get_elem? s.entries i ≡ some e)
      × (t ≡ sync_context (record s { index = i; expected_navigation = some e }))
unfolding go
go-aims o s t e h = elim (Option-cases (next_index o s.index)) [
  | inl nowhere ↦ ground (arith, nowhere)
  | inr (i, there) ↦ elim (Option-cases (get_elem? s.entries i)) [
    | inl past ↦ ground (arith, there, past)
    | inr (target, found) ↦ ground (arith, there, found)
  ]
]

pub next_index-near : (o : Offset) (n i : ℕ) → next_index o n ≡ some i → (i ≤ n + 1) × (n ≤ i + 1)
next_index-near back zero i h = cc
next_index-near back (suc n) i h = ground arith
next_index-near forward n i h = ground arith

get_elem?-inside : (es : List Entry) (i : ℕ) (e : Entry) → get_elem? es i ≡ some e → i < length es
get_elem?-inside [] i e h = cc
get_elem?-inside (x ∷ es) zero e h = omega arith
get_elem?-inside (x ∷ es) (suc i) e h = omega (arith, get_elem?-inside es i e h)

record-cases :
    (e : Entry) (s : Navigation)
    → (record_entry e s ≡ sync_context (record s { expected_navigation = none }))
      ⊎ (record_entry e s ≡ s)
      ⊎ (record_entry e s
          ≡ sync_context (record s {
            entries = pushed e s;
            index = length (pushed e s) - 1;
            expected_navigation = none;
          }))
unfolding record_entry
record-cases e s = elim (Bool-cases (expects e s.expected_navigation)) [
  | inl awaited ↦ inl (rw awaited refl)
  | inr other ↦ elim (Bool-cases (same_entry (entry_at s.index s.entries) e)) [
    | inl same ↦ inr (inl (rw (other, same) refl))
    | inr new ↦ inr (inr (rw (other, new) refl))
  ]
]

Keeps : Flight → Navigation → Type 0
Keeps f s = IsHistory s × Fits f s

kept-go :
    (o : Offset) (s t : Navigation) (e : Entry)
    → IsHistory s
    → go o s ≡ some (t, e)
    → Keeps (some s.index) t
unfolding Keeps sync_context
kept-go o s t e inv h = leave (go-aims o s t e h)
  where
    leave :
        (i : ℕ) × (next_index o s.index ≡ some i)
          × (get_elem? s.entries i ≡ some e)
          × (t ≡ sync_context (record s { index = i; expected_navigation = some e }))
        → IsHistory t × Fits (some s.index) t
    leave (i, near, found, same) =
        subst (λ u. IsHistory u × Fits (some s.index) u) (sym same)
          (
            sync-IsHistory (record s { index = i; expected_navigation = some e }) inv.bound
                (get_elem?-inside s.entries i e found),
            (inv.inside, (next_index-near o s.index i near).1),
          )

Fits-same :
    (f : Flight) (s t : Navigation)
    → length s.entries ≡ length t.entries
    → s.index ≡ t.index
    → Fits f s
    → Fits f t
Fits-same none s t l i h = tt
Fits-same (some p) s t l i h = (omega arith, omega arith)

Fits-pushed :
    (f : Flight) (s t : Navigation)
    → length s.entries ≤ 50
    → length t.entries ≡ min 50 (s.index + 2)
    → t.index ≡ length t.entries - 1
    → Fits f s
    → Fits f t
Fits-pushed none s t b l i h = tt
Fits-pushed (some p) s t b l i h = (omega arith, omega arith)

kept-pushed :
    (f : Flight) (s t : Navigation) (e : Entry)
    → Keeps f s
    → t ≡ record s {
      entries = pushed e s;
      index = length (pushed e s) - 1;
      expected_navigation = none;
    }
    → Keeps f (sync_context t)
unfolding Keeps sync_context
kept-pushed f s t e (inv, fits) h =
    let size = length-pushed e s inv.inside (omega (arith, inv.inside, inv.bound)) in
    let long = ap (λ u. length u.entries) h ∙ size in
    let last = ap (λ u. u.index) h ∙ ap (λ u. length u.entries - 1) (sym h) in
    (
      sync-IsHistory t (omega (arith, long)) (omega (arith, long, last)),
      Fits-pushed f s (sync_context t) inv.bound long last fits,
    )

kept-record : (f : Flight) (s : Navigation) (e : Entry) → Keeps f s → Keeps f (record_entry e s)
unfolding Keeps sync_context
kept-record f s e k = elim (record-cases e s) [
  | inl h ↦ subst (Keeps f) (sym h) (
    sync-IsHistory (record s { expected_navigation = none }) k.0.bound k.0.inside,
    Fits-same f s (sync_context (record s { expected_navigation = none })) refl refl k.1,
  )
  | inr (inl h) ↦ subst (Keeps f) (sym h) k
  | inr (inr h) ↦ subst (Keeps f) (sym h) (kept-pushed f s _ e k refl)
]

kept : (f g : Flight) (s t : Navigation) → Step f s g t → Keeps f s → Keeps g t
unfolding Keeps succeed fail
kept _ _ _ _ (Step.goes s t o e h) k = kept-go o s t e k.0 h
kept _ _ _ _ (records f s e) k = kept-record f s e k
kept _ _ _ _ (succeeds p s) k = (
  record {
    positive = k.0.positive;
    bound = k.0.bound;
    inside = k.0.inside;
    back_key = k.0.back_key;
    forward_key = k.0.forward_key;
  },
  tt,
)
kept _ _ _ _ (fails p s) k =
    (sync-IsHistory (record s { index = p; expected_navigation = none }) k.0.bound k.1.0, tt)

Reach-Keeps : (f : Flight) (s : Navigation) → Reach f s → Keeps f s
unfolding Keeps
Reach-Keeps _ _ (starts e) = (construct-IsHistory e, tt)
Reach-Keeps _ _ (more f g s t r h) = kept f g s t h (Reach-Keeps f s r)

-- As long as no navigation starts before the one in flight has ended, and whatever selections come
-- in between and whether navigations succeed or fail: the history has between 1 and 50 entries, the
-- index is one of them, and the two context keys say whether there is something to go back or
-- forward to.
pub Reach-IsHistory : {f : Flight} {s : Navigation} → Reach f s → IsHistory s
unfolding Keeps
Reach-IsHistory {f} {s} r = (Reach-Keeps f s r).0
