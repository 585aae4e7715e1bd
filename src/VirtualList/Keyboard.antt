-- ===== src/VirtualList/Keyboard.antt =====
-- packages/ui/src/widgets/virtual-list.ts: `onKeyDown`, the keys that move through the rows of a plain
-- list. `findIndex` gives -1 for a key that no row has, `none` here; a negative result of the source,
-- on an empty list, is `none` too, and is not followed.
use zaw.Base.{
  ℕ, zero, suc, ◌+◌, ◌-◌, ◌<◌, String, ◌≡◌, refl, List, [], ◌∷◌, Option, none, some, nat_eq,
  if◌then◌else◌, min, get_elem?, get_elem?_lt, length, arith, ◌==◌, Option-cases, inl, inr,
}
use zaw.VirtualList.{Row, VirtualList, reveal}

pub data Key : Type 0 where
  arrow_down arrow_up home end : Key

unfoldable pub find_index : String → List Row → Option ℕ
find_index k [] = none
find_index k (r ∷ rs) =
    if r.key == k then some 0 else elim (find_index k rs) [ none ↦ none | some i ↦ some (suc i) ]

abbrev pub last_index : ℕ → Option ℕ
last_index zero = none
last_index (suc n) = some n

-- `Math.min(rows.length - 1, Math.max(0, current + 1))`, and so on.
unfoldable pub next_index : Key → ℕ → Option ℕ → Option ℕ
next_index arrow_down zero current = none
next_index arrow_down (suc n) none = some (min n 0)
next_index arrow_down (suc n) (some i) = some (min n (i + 1))
next_index arrow_up n none = some 0
next_index arrow_up n (some i) = some (if nat_eq i 0 then 0 else i - 1)
next_index home n current = some 0
next_index end n current = last_index n

abbrev pub focus_row : ℕ → VirtualList → Option Row → VirtualList
focus_row i l none = l
focus_row i l (some r) = reveal i (record l { active_key = some r.key })

unfoldable pub focus_index : ℕ → VirtualList → VirtualList
focus_index i l = focus_row i l (get_elem? l.rows i)

abbrev pub follow : Option ℕ → VirtualList → VirtualList
follow none l = l
follow (some i) l = focus_index i l

abbrev pub current_of : Option String → List Row → Option ℕ
current_of none rows = none
current_of (some k) rows = find_index k rows

-- The key pressed with the focus on no other row than the active one.
unfoldable pub on_key_down : Key → VirtualList → VirtualList
on_key_down key l = follow (next_index key (length l.rows) (current_of l.active_key l.rows)) l

find_index-lt :
    (k : String) (rows : List Row) (i : ℕ) → find_index k rows ≡ some i → i < length rows
unfolding find_index
find_index-lt k [] i e = cc
find_index-lt k (r ∷ rs) i e = elim (Option-cases (find_index k rs)) [
  | inl n ↦ ground arith
  | inr (j, f) ↦ ground (arith, find_index-lt k rs j f)
]

next_index-lt :
    (key : Key) (n : ℕ) (current : Option ℕ) (i : ℕ)
    → 0 < n
    → ((j : ℕ) → current ≡ some j → j < n)
    → next_index key n current ≡ some i
    → i < n
unfolding next_index
next_index-lt arrow_down (suc n) none i p b e = ground arith
next_index-lt arrow_down (suc n) (some j) i p b e = ground arith
next_index-lt arrow_up n none i p b e = ground arith
next_index-lt arrow_up n (some j) i p b e = ground (arith, b j)
next_index-lt home n current i p b e = ground arith
next_index-lt end (suc n) current i p b e = ground arith
next_index-lt _ zero current i p b e = absurd (omega arith)

-- The active key is the key of some row.
abbrev pub IsActive : VirtualList → Type 0
IsActive l = (i : ℕ) × (r : Row) × (get_elem? l.rows i ≡ some r) × (l.active_key ≡ some r.key)

reveal-active_key :
    (i : ℕ) (l : VirtualList)
    → ((reveal i l).active_key ≡ l.active_key) × ((reveal i l).rows ≡ l.rows)
unfolding reveal
reveal-active_key i l = ground arith

focus_index-IsActive : (i : ℕ) (l : VirtualList) → i < length l.rows → IsActive (focus_index i l)
unfolding focus_index
focus_index-IsActive i l h =
    let (r, e) = get_elem?_lt l.rows i h in
    let same = reveal-active_key i (record l { active_key = some r.key }) in
    rw e (i, r, rw same.1 e, same.0)

next_index-IsSome :
    (key : Key) (n : ℕ) (current : Option ℕ) → 0 < n → (i : ℕ) × (next_index key n current ≡ some i)
unfolding next_index
next_index-IsSome arrow_down (suc n) none p = (min n 0, refl)
next_index-IsSome arrow_down (suc n) (some j) p = (min n (j + 1), refl)
next_index-IsSome arrow_up n none p = (0, refl)
next_index-IsSome arrow_up n (some j) p = ((if nat_eq j 0 then 0 else j - 1), refl)
next_index-IsSome home n current p = (0, refl)
next_index-IsSome end (suc n) current p = (n, refl)
next_index-IsSome _ zero current p = absurd (omega arith)

-- On a list with a row each of the four keys makes a row of the list the active one, whatever the
-- active key was before.
pub on_key_down-IsActive :
    (key : Key) (l : VirtualList) → 0 < length l.rows → IsActive (on_key_down key l)
unfolding on_key_down
on_key_down-IsActive key l h =
    let current = current_of l.active_key l.rows in
    let (i, e) = next_index-IsSome key (length l.rows) current h in
    rw e (
      focus_index-IsActive i l
        (next_index-lt key (length l.rows) current i h (bound l.active_key) e))
  where
    bound : (k : Option String) (j : ℕ) → current_of k l.rows ≡ some j → j < length l.rows
    bound none j f = cc
    bound (some k) j f = find_index-lt k l.rows j f
