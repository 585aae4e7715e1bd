-- ===== src/VirtualList/Search.antt =====
-- The binary search: it ends within its fuel at the first row that reaches down to the offset.
use zaw.Base.{
  ℕ, zero, suc, ◌+◌, ◌-◌, ◌^◌, ◌≤◌, ◌<◌, ◌≡◌, refl, List, [], ◌∷◌, ltb, length, arith, Bool-cases,
  inl, inr,
}
use zaw.VirtualList.{Row, Item, rows_from, bottom_at, middle_of, search_loop, first_visible_index}

-- Rows lie one below the other.
abbrev pub IsAscending : List Row → Type 0
IsAscending rows = (i j : ℕ) → i ≤ j → j < length rows → bottom_at i rows ≤ bottom_at j rows

-- All rows before the index end above the offset, and none from it on does.
abbrev pub Splits : ℕ → List Row → ℕ → Type 0
Splits offset rows i =
    (i ≤ length rows)
    × ((j : ℕ) → j < i → bottom_at j rows < offset)
    × ((j : ℕ) → i ≤ j → j < length rows → offset ≤ bottom_at j rows)

middle_bounds :
    (low high : ℕ)
    → low < high
    → high < 2 ^ 31
    → (low ≤ middle_of low high) × (middle_of low high < high)
middle_bounds low high h k = omega arith

search_loop-Splits :
    (fuel low high offset : ℕ) (rows : List Row)
    → IsAscending rows
    → length rows < 2 ^ 31
    → high ≤ length rows
    → low ≤ high
    → high - low ≤ fuel
    → ((j : ℕ) → j < low → bottom_at j rows < offset)
    → ((j : ℕ) → high ≤ j → j < length rows → offset ≤ bottom_at j rows)
    → Splits offset rows (search_loop fuel low high offset rows)
unfolding search_loop
search_loop-Splits zero low high offset rows up small top order enough left right =
    (omega arith, left, λ j h k. right j (omega arith) k)
search_loop-Splits (suc fuel) low high offset rows up small top order enough left right =
    elim (Bool-cases (ltb low high)) [
      | inl more ↦
          let mid = middle_bounds low high (ground arith) (omega arith) in
          rw more (elim (Bool-cases (ltb (bottom_at (middle_of low high) rows) offset)) [
            | inl above ↦ rw above (
                search_loop-Splits fuel (middle_of low high + 1) high offset rows up small top
                  (omega (arith, mid)) (omega (arith, mid))
                  (λ j h. above_left j h (ground arith) (omega (arith, mid))) right)
            | inr below ↦ rw below (
                search_loop-Splits fuel low (middle_of low high) offset rows up small
                  (omega (arith, mid)) (omega (arith, mid)) (omega (arith, mid)) left
                  (λ j h k. below_right j h k (ground arith)))
          ])
      | inr done ↦ rw done (omega arith, left, λ j h k. right j (ground arith) k)
    ]
  where
    above_left :
        (j : ℕ)
        → j < middle_of low high + 1
        → bottom_at (middle_of low high) rows < offset
        → middle_of low high < length rows
        → bottom_at j rows < offset
    above_left j h b k = omega (arith, up j (middle_of low high) (omega arith) k)

    below_right :
        (j : ℕ)
        → middle_of low high ≤ j
        → j < length rows
        → offset ≤ bottom_at (middle_of low high) rows
        → offset ≤ bottom_at j rows
    below_right j h k b = omega (arith, up (middle_of low high) j h k)

-- Rows stacked from `top` on, each of them starting where the one before it ends.
abbrev pub Stacked : ℕ → List Row → Type 0
Stacked top [] = Unit
Stacked top (r ∷ rs) = (r.top ≡ top) × (top ≤ r.bottom) × Stacked r.bottom rs

-- `setItems` lays the rows out so.
pub rows_from-Stacked : (top : ℕ) (items : List Item) → Stacked top (rows_from top items)
unfolding rows_from
rows_from-Stacked top [] = tt
rows_from-Stacked top (item ∷ items) =
    (refl, omega arith, rows_from-Stacked (top + item.height) items)

Stacked-ge :
    (top : ℕ) (rs : List Row) (j : ℕ) → Stacked top rs → j < length rs → top ≤ bottom_at j rs
Stacked-ge top [] j s h = absurd (omega arith)
Stacked-ge top (r ∷ rs) zero s h = s.1
Stacked-ge top (r ∷ rs) (suc j) s h = omega (arith, Stacked-ge r.bottom rs j s.2 (omega arith))

pub Stacked-IsAscending : (top : ℕ) (rs : List Row) → Stacked top rs → IsAscending rs
Stacked-IsAscending top [] s i j h k = absurd (omega arith)
Stacked-IsAscending top (r ∷ rs) s zero zero h k = omega arith
Stacked-IsAscending top (r ∷ rs) s zero (suc j) h k = Stacked-ge r.bottom rs j s.2 (omega arith)
Stacked-IsAscending top (r ∷ rs) s (suc i) zero h k = absurd (omega arith)
Stacked-IsAscending top (r ∷ rs) s (suc i) (suc j) h k =
    Stacked-IsAscending r.bottom rs s.2 i j (omega arith) (omega arith)

-- For rows whose bottoms ascend, as those of `setItems` do, the search ends at the one index that
-- parts the rows: all before it end above the offset, and none from it on does. The rows are fewer
-- than 2 ^ 31, so that the middle does not wrap around.
pub first_visible_index-Splits :
    (offset : ℕ) (rows : List Row)
    → IsAscending rows
    → length rows < 2 ^ 31
    → Splits offset rows (first_visible_index offset rows)
unfolding first_visible_index
first_visible_index-Splits offset rows up small =
    search_loop-Splits (length rows) 0 (length rows) offset rows up small (omega arith)
      (omega arith) (omega arith) (λ j h. absurd (omega arith)) (λ j h k. absurd (omega arith))
