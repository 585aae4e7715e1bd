-- ===== src/VirtualList/Tests.antt =====
-- Runs of the virtual list, and the theorems at concrete inputs.
use zaw.Base.{String, ◌≡◌, ◌+◌, ◌-◌, refl, List, [], ◌∷◌, none, some, arith, keep, map}
use zaw.VirtualList.{
  Row, Item, VirtualList, set_items, first_visible_index, visible_rows, reveal,
  effective_viewport_height,
}
use zaw.VirtualList.Search.{Splits, Stacked, Stacked-IsAscending, first_visible_index-Splits}
use zaw.VirtualList.Visible.{meets, visible_rows_lem}
use zaw.VirtualList.Keyboard.{arrow_down, on_key_down, find_index, next_index, focus_index}

abbrev items : List Item
items =
    record { key = "a"; height = 30 }
    ∷ record { key = "b"; height = 50 }
    ∷ record { key = "c"; height = 20 }
    ∷ record { key = "d"; height = 40 }
    ∷ []

abbrev blank : VirtualList
blank = record {
  rows = [];
  active_key = none;
  viewport_height = 45;
  client_height = 0;
  scroll_top = 35;
  overscan = 0;
}

abbrev list : VirtualList
list = record blank {
  rows =
      record { bottom = 30; key = "a"; top = 0 }
      ∷ record { bottom = 80; key = "b"; top = 30 }
      ∷ record { bottom = 100; key = "c"; top = 80 }
      ∷ record { bottom = 140; key = "d"; top = 100 }
      ∷ [];
  active_key = some "a";
}

laid_out : set_items items blank ≡ list
unfolding set_items
laid_out = refl

abbrev keys : List Row → List String
keys = map λ r. r.key

list_tests :
    (keys (visible_rows list) ≡ "b" ∷ "c" ∷ [])
    × ((reveal 3 list).scroll_top ≡ 95)
    × ((on_key_down arrow_down list).active_key ≡ some "b")
unfolding visible_rows reveal effective_viewport_height on_key_down find_index next_index
    focus_index
list_tests = (refl, refl, refl)

list-Stacked : Stacked 0 list.rows
list-Stacked = omega arith

first_visible_index-Splits_example : Splits 35 list.rows (first_visible_index 35 list.rows)
first_visible_index-Splits_example =
    first_visible_index-Splits 35 list.rows (Stacked-IsAscending 0 list.rows list-Stacked)
      (omega arith)

visible_rows_example :
    visible_rows list ≡ keep (meets (35 - 0) (35 + effective_viewport_height list + 0)) list.rows
visible_rows_example = visible_rows_lem list list-Stacked (omega arith)
