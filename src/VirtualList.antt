-- ===== src/VirtualList.antt =====
-- packages/ui/src/widgets/virtual-list.ts: `VirtualList`. Lengths in pixels are natural numbers. The
-- DOM is left out: a rendered element is a number, which `delegate.render` takes from a counter.
pub mod Search
pub mod Visible
pub mod Keyboard
pub mod Tests
use zaw.Base.{
  ℕ, zero, suc, ◌+◌, ◌-◌, ◌/◌, ◌%◌, ◌^◌, String, Bool, true, false, List, [], ◌∷◌, Option, none,
  some, ltb, leb, if◌then◌else◌, get_elem?, drop, length, any, ◌==◌,
}

pub record Row : Type 0 where
  pub bottom : ℕ
  pub key : String
  pub top : ℕ

pub record VirtualList : Type 0 where
  pub rows : List Row
  pub active_key : Option String
  pub viewport_height : ℕ
  pub client_height : ℕ
  pub scroll_top : ℕ
  pub overscan : ℕ

-- An item as its delegate shows it.
pub record Item : Type 0 where
  pub key : String
  pub height : ℕ

-- The loop of `setItems`: each row starts where the one before it ends.
unfoldable pub rows_from : ℕ → List Item → List Row
rows_from top [] = []
rows_from top (item ∷ items) =
    record { bottom = top + item.height; key = item.key; top = top }
    ∷ rows_from (top + item.height) items

abbrev pub has_key : Option String → List Row → Bool
has_key none rows = false
has_key (some k) rows = any (λ r. r.key == k) rows

abbrev pub first_key : List Row → Option String
first_key [] = none
first_key (r ∷ rs) = some r.key

unfoldable pub set_items : List Item → VirtualList → VirtualList
unfolding rows_from any
set_items items l =
    let rows = rows_from 0 items in
    record l {
      rows = rows;
      active_key = if has_key l.active_key rows then l.active_key else first_key rows;
    }

-- `viewportHeight || clientHeight || 600`
unfoldable pub effective_viewport_height : VirtualList → ℕ
effective_viewport_height l =
    if ltb 0 l.viewport_height
    then l.viewport_height
    else if ltb 0 l.client_height
    then l.client_height
    else 600

abbrev pub bottom_at : ℕ → List Row → ℕ
bottom_at i rows = elim (get_elem? rows i) [ none ↦ 0 | some r ↦ r.bottom ]

-- `(low + high) >>> 1` works on 32 bits.
abbrev pub middle_of : ℕ → ℕ → ℕ
middle_of low high = (low + high) % 2 ^ 32 / 2

-- The loop of `firstVisibleIndex`; the fuel bounds its rounds.
unfoldable pub search_loop : ℕ → ℕ → ℕ → ℕ → List Row → ℕ
search_loop zero low high offset rows = low
search_loop (suc fuel) low high offset rows =
    let right = search_loop fuel (middle_of low high + 1) high offset rows in
    let left = search_loop fuel low (middle_of low high) offset rows in
    if ltb low high
    then (if ltb (bottom_at (middle_of low high) rows) offset then right else left)
    else low

-- The interval shrinks in every round, so its length is fuel enough.
unfoldable pub first_visible_index : ℕ → List Row → ℕ
unfolding search_loop
first_visible_index offset rows = search_loop (length rows) 0 (length rows) offset rows

-- The loop of `renderVisible`, from the first visible row to the first one below the viewport.
unfoldable pub rows_until : ℕ → List Row → List Row
rows_until end [] = []
rows_until end (r ∷ rs) = let rest = rows_until end rs in if ltb end r.top then [] else r ∷ rest

unfoldable pub visible_rows : VirtualList → List Row
unfolding effective_viewport_height first_visible_index rows_until
visible_rows l =
    rows_until (l.scroll_top + effective_viewport_height l + l.overscan)
      (drop (first_visible_index (l.scroll_top - l.overscan) l.rows) l.rows)

abbrev pub reveal_row : VirtualList → Option Row → VirtualList
reveal_row l none = l
reveal_row l (some r) =
    if ltb r.top l.scroll_top
    then record l { scroll_top = r.top }
    else if ltb (l.scroll_top + effective_viewport_height l) r.bottom
    then record l { scroll_top = r.bottom - effective_viewport_height l }
    else l

unfoldable pub reveal : ℕ → VirtualList → VirtualList
reveal i l = reveal_row l (get_elem? l.rows i)
