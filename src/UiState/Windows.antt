-- ===== src/UiState/Windows.antt =====
-- packages/workbench/src/services/floating-window.ts: `FloatingWindowService`. A number is the text that it
-- prints as.
use zaw.Base.{
  String, ◌<>◌, ◌≡◌, refl, ap, ◌∙◌, Bool, true, false, ◌||◌, List, Option, none, some, ◌==◌,
  if◌then◌else◌, eq_refl,
}
use zaw.Base.Dict.{get-put}
use zaw.Json.{Json, numeral, object, lookup}
use zaw.UiState.{Storage, item_of, set_item}

pub record Bounds : Type 0 where
  pub height : String
  pub left : String
  pub top : String
  pub width : String

pub record WindowState : Type 0 where
  pub bounds : Bounds
  pub id : String
  pub maximized : Bool
  pub restore_bounds : Option Bounds
  pub title : String

pub record WindowService : Type 0 where
  pub state : Option WindowState
  pub storage : Option Storage

-- `JSON.parse`, and `JSON.stringify` of bounds.
pub record BoundsCodec : Type 0 where
  pub parse : String → Option Json
  pub stringify : Bounds → String

unfoldable pub close : WindowService → WindowService
close s = record s { state = none }

unfoldable pub current : WindowService → Option WindowState
current s = s.state

unfoldable pub window_key : String → String
window_key id = "zaw.floating-window." <> id

-- `Number.isFinite`
abbrev pub finite : Option Json → Option String
finite (some (numeral n)) = if (n == "Infinity") || (n == "-Infinity") then none else some n
finite _ = none

abbrev pub all_four : Option String → Option String → Option String → Option String → Option Bounds
all_four (some h) (some l) (some t) (some w) =
    some (record { height = h; left = l; top = t; width = w })
all_four _ _ _ _ = none

-- A text that does not parse, or is no object, has no bounds.
abbrev pub bounds_of : Option Json → Option Bounds
unfolding lookup
bounds_of (some (object fs)) =
    all_four (finite (lookup "height" fs)) (finite (lookup "left" fs)) (finite (lookup "top" fs))
      (finite (lookup "width" fs))
bounds_of _ = none

abbrev pub parsed_bounds : BoundsCodec → Option String → Option Bounds
unfolding lookup
parsed_bounds codec none = none
parsed_bounds codec (some value) = if value == "" then none else bounds_of (codec.parse value)

unfoldable pub load_bounds : BoundsCodec → String → WindowService → Option Bounds
unfolding item_of window_key lookup
load_bounds codec id s = parsed_bounds codec (item_of (window_key id) s.storage)

abbrev pub or_bounds : Bounds → Option Bounds → Bounds
or_bounds bounds none = bounds
or_bounds bounds (some stored) = stored

unfoldable pub open_window : BoundsCodec → String → String → Bounds → WindowService → WindowService
unfolding load_bounds
open_window codec id title bounds s = record s {
  state = some (record {
    bounds = or_bounds bounds (load_bounds codec id s);
    id = id;
    maximized = false;
    restore_bounds = none;
    title = title;
  });
}

-- The flag says that the storage throws, when the state has changed already.
unfoldable pub save_bounds : BoundsCodec → WindowState → WindowService → WindowService × Bool
unfolding set_item window_key
save_bounds codec w s =
    let written = set_item (window_key w.id) (codec.stringify w.bounds) s.storage in
    (record { state = some w; storage = written.0 }, written.1)

abbrev pub maximized_in : String → String → WindowState → WindowState
maximized_in width height w = if w.maximized then w else record w {
  restore_bounds = some w.bounds;
  bounds = record { height = height; left = "0"; top = "0"; width = width };
  maximized = true;
}

abbrev pub map_state : (WindowState → WindowState) → Option WindowState → Option WindowState
map_state f none = none
map_state f (some w) = some (f w)

unfoldable pub maximize : String → String → WindowService → WindowService
maximize width height s = record s { state = map_state (maximized_in width height) s.state }

abbrev pub restore_to :
    BoundsCodec → WindowState → Option Bounds → WindowService → WindowService × Bool
unfolding save_bounds
restore_to codec w none s = (s, false)
restore_to codec w (some bounds) s =
    save_bounds codec (record w { bounds = bounds; restore_bounds = none; maximized = false }) s

abbrev pub restore_state : BoundsCodec → Option WindowState → WindowService → WindowService × Bool
unfolding save_bounds
restore_state codec none s = (s, false)
restore_state codec (some w) s = restore_to codec w w.restore_bounds s

unfoldable pub restore : BoundsCodec → WindowService → WindowService × Bool
unfolding save_bounds
restore codec s = restore_state codec s.state s

abbrev pub update_state :
    BoundsCodec → Bounds → Option WindowState → WindowService → WindowService × Bool
unfolding save_bounds
update_state codec bounds none s = (s, false)
update_state codec bounds (some w) s =
    if w.maximized then (s, false) else save_bounds codec (record w { bounds = bounds }) s

unfoldable pub update_bounds : BoundsCodec → Bounds → WindowService → WindowService × Bool
unfolding save_bounds
update_bounds codec bounds s = update_state codec bounds s.state s

-- What JSON gives back, of texts that are not empty.
pub record Rereads (codec : BoundsCodec) (b : Bounds) : Type 0 where
  pub full : (codec.stringify b == "") ≡ false
  pub same : bounds_of (codec.parse (codec.stringify b)) ≡ some b

-- A window that was moved to these bounds, is closed and opened again has these bounds, whatever bounds
-- are asked for, if the storage works and JSON gives back what was written.
pub open_window-update_bounds :
    (codec : BoundsCodec) (b asked : Bounds) (title : String) (w : WindowState)
    (items : List (String × String))
    → w.maximized ≡ false
    → Rereads codec b
    → let moved = update_bounds codec b (record {
      state = some w;
      storage = some (record { items = items; readable = true; writable = true });
    }) in
      (open_window codec w.id title asked (close moved.0)).state
      ≡ some (record {
        bounds = b;
        id = w.id;
        maximized = false;
        restore_bounds = none;
        title = title;
      })
unfolding update_bounds open_window close save_bounds load_bounds set_item item_of
open_window-update_bounds codec b asked title w items h j =
    let k = window_key w.id in
    let opened : Option String → Option WindowState = λ o. some (record {
      bounds = or_bounds asked (parsed_bounds codec o);
      id = w.id;
      maximized = false;
      restore_bounds = none;
      title = title;
    }) in
    rw h (
      ap opened {y = some (codec.stringify b)}
        (get-put k k (codec.stringify b) items ∙ rw (eq_refl k) refl)
      ∙ rw (j.full, j.same) refl)

-- Restoring a window that was maximized gives it the bounds from before.
pub restore-maximize :
    (codec : BoundsCodec) (width height : String) (w : WindowState) (storage : Option Storage)
    → w.maximized ≡ false
    → (restore codec (maximize width height (record { state = some w; storage = storage }))).0.state
      ≡ some (record w { maximized = false; restore_bounds = none })
unfolding restore maximize save_bounds
restore-maximize codec width height w storage h = rw h refl
