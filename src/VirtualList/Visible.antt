-- ===== src/VirtualList/Visible.antt =====
-- What is rendered, and what `reveal` achieves.
use zaw.Base.{
  ℕ, zero, suc, ◌+◌, ◌-◌, ◌^◌, ◌≤◌, ◌<◌, ◌≡◌, refl, Bool, ◌&&◌, List, [], ◌∷◌, some, ltb, leb,
  get_elem?, length, length-drop, drop, keep, arith, Bool-cases, inl, inr, sym, ◌∙◌, ap,
}
use zaw.VirtualList.{
  Row, Item, VirtualList, bottom_at, first_visible_index, rows_until, visible_rows,
  effective_viewport_height, reveal, reveal_row, set_items,
}
use zaw.VirtualList.Search.{
  Stacked, Stacked-IsAscending, rows_from-Stacked, first_visible_index-Splits,
}

-- A row meets the interval.
abbrev pub meets : ℕ → ℕ → Row → Bool
meets start end r = leb start r.bottom && leb r.top end

none_below :
    (top start end : ℕ) (rs : List Row)
    → Stacked top rs
    → end < top
    → keep (meets start end) rs ≡ []
unfolding keep
none_below top start end [] s h = refl
none_below top start end (r ∷ rs) s h = ground (arith, none_below r.bottom start end rs s.2)

rows_until_lem :
    (top start end : ℕ) (rs : List Row)
    → Stacked top rs
    → ((j : ℕ) → j < length rs → start ≤ bottom_at j rs)
    → rows_until end rs ≡ keep (meets start end) rs
unfolding rows_until keep
rows_until_lem top start end [] s h = refl
rows_until_lem top start end (r ∷ rs) s h = elim (Bool-cases (ltb end r.top)) [
  | inl past ↦ ground (arith, none_below r.bottom start end rs s.2)
  | inr inside ↦
      ground (arith, h 0, rows_until_lem r.bottom start end rs s.2 (λ j b. h (suc j) (omega arith)))
]

drop_before :
    (top start end i : ℕ) (rs : List Row)
    → Stacked top rs
    → ((j : ℕ) → j < i → bottom_at j rs < start)
    → i ≤ length rs
    → keep (meets start end) rs ≡ keep (meets start end) (drop i rs)
unfolding keep
drop_before top start end zero rs s h k = refl
drop_before top start end (suc i) [] s h k = refl
drop_before top start end (suc i) (r ∷ rs) s h k =
    ground (arith, h 0, drop_before r.bottom start end i rs s.2 (λ j b. h (suc j) (omega arith)))

bottom_at-drop : (i j : ℕ) (rs : List Row) → bottom_at j (drop i rs) ≡ bottom_at (i + j) rs
bottom_at-drop zero j rs = ap (λ k. bottom_at k rs) (omega arith)
bottom_at-drop (suc i) j [] = refl
bottom_at-drop (suc i) j (r ∷ rs) =
    let e : suc (i + j) ≡ suc i + j = omega arith in
    bottom_at-drop i j rs ∙ ap (λ k. bottom_at k (r ∷ rs)) e

Stacked-drop : (top i : ℕ) (rs : List Row) → Stacked top rs → (t : ℕ) × Stacked t (drop i rs)
Stacked-drop top zero rs s = (top, s)
Stacked-drop top (suc i) [] s = (top, tt)
Stacked-drop top (suc i) (r ∷ rs) s = Stacked-drop r.bottom i rs s.2

-- Exactly the rows that meet the viewport, widened by the overscan on both sides, are rendered, in
-- their order; the list's rows are stacked from 0, as `setItems` leaves them, and fewer than 2 ^ 31.
pub visible_rows_lem :
    (l : VirtualList)
    → Stacked 0 l.rows
    → length l.rows < 2 ^ 31
    → visible_rows l
      ≡ keep
          (meets
            (l.scroll_top - l.overscan)
            (l.scroll_top + effective_viewport_height l + l.overscan))
          l.rows
unfolding visible_rows
visible_rows_lem l s small =
    let start = l.scroll_top - l.overscan in
    let end = l.scroll_top + effective_viewport_height l + l.overscan in
    let i = first_visible_index start l.rows in
    let (inside, before, after) =
      first_visible_index-Splits start l.rows (Stacked-IsAscending 0 l.rows s) small in
    let (t, rest) = Stacked-drop 0 i l.rows s in
    rows_until_lem t start end (drop i l.rows) rest (λ j h.
      rw (bottom_at-drop i j l.rows)
        (after (i + j) (omega arith) (omega (arith, length-drop i l.rows))))
    ∙ sym (drop_before 0 start end i l.rows s before inside)

pub set_items-Stacked : (items : List Item) (l : VirtualList) → Stacked 0 (set_items items l).rows
unfolding set_items
set_items-Stacked items l = rows_from-Stacked 0 items

height_same :
    (l : VirtualList) (x : ℕ)
    → effective_viewport_height (record l { scroll_top = x }) ≡ effective_viewport_height l
unfolding effective_viewport_height
height_same l x = refl

reveal_row_top :
    (l : VirtualList) (r : Row)
    → r.top ≤ r.bottom
    → r.bottom - r.top ≤ effective_viewport_height l
    → (reveal_row l (some r)).scroll_top ≤ r.top
reveal_row_top l r up fits = ground arith

reveal_row_bottom :
    (l : VirtualList) (r : Row)
    → r.top ≤ r.bottom
    → r.bottom - r.top ≤ effective_viewport_height l
    → r.bottom
      ≤ (reveal_row l (some r)).scroll_top + effective_viewport_height (reveal_row l (some r))
reveal_row_bottom l r up fits =
    ground (arith, height_same l r.top, height_same l (r.bottom - effective_viewport_height l))

reveal_row_still :
    (l : VirtualList) (r : Row)
    → l.scroll_top ≤ r.top
    → r.bottom ≤ l.scroll_top + effective_viewport_height l
    → reveal_row l (some r) ≡ l
reveal_row_still l r a b = ground arith

-- `reveal` brings a row that fits into the viewport wholly into it, and does not scroll if the row
-- is there already.
pub reveal_lem :
    (i : ℕ) (l : VirtualList) (r : Row)
    → get_elem? l.rows i ≡ some r
    → r.top ≤ r.bottom
    → r.bottom - r.top ≤ effective_viewport_height l
    → ((reveal i l).scroll_top ≤ r.top)
      × (r.bottom ≤ (reveal i l).scroll_top + effective_viewport_height (reveal i l))
      × (l.scroll_top ≤ r.top
          → r.bottom ≤ l.scroll_top + effective_viewport_height l
          → reveal i l ≡ l)
unfolding reveal
reveal_lem i l r e up fits =
    rw e (reveal_row_top l r up fits, reveal_row_bottom l r up fits, reveal_row_still l r)
