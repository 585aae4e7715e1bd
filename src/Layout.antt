-- ===== src/Layout.antt =====
-- packages/workbench/src/workbench/layout/layout-service.ts: `WorkbenchLayoutService`. A root element
-- is known by whether it is displayed. Sizes are whole numbers.
pub mod Shown
pub mod Stored
pub mod Tests
use zaw.Base.{
  ℕ, max, String, Bool, true, false, ◌&&◌, not, List, [], ◌∷◌, ◌++◌, Option, none, some, nat_eq,
  ◌==◌, if◌then◌else◌, any, keep,
}

pub data Part : Type 0 where
  titlebar sidebar primary auxiliary_bar panel overlay : Part

abbrev pub rank : Part → ℕ
rank titlebar = 0
rank sidebar = 1
rank primary = 2
rank auxiliary_bar = 3
rank panel = 4
rank overlay = 5

abbrev pub same_part : Part → Part → Bool
same_part p q = nat_eq (rank p) (rank q)

-- A `Map` keyed by parts.
abbrev pub at {ℓ} : {A : Type ℓ} → Part → A → (Part → A) → Part → A
at p a f q = if same_part p q then a else f q

pub record LayoutService : Type 0 where
  pub part_roots : Part → Option Bool
  pub visibility : Part → Bool
  pub auto_hidden : Part → List String
  pub sidebar_width : ℕ
  pub auxiliary_bar_width : ℕ
  pub panel_height : ℕ
  pub editor_visible : Bool

abbrev pub initial_visibility : Part → Bool
initial_visibility panel = false
initial_visibility _ = true

abbrev pub initial : LayoutService
initial = record {
  part_roots = λ p. none;
  visibility = initial_visibility;
  auto_hidden = λ p. [];
  sidebar_width = 300;
  auxiliary_bar_width = 340;
  panel_height = 300;
  editor_visible = false;
}

abbrev pub is_empty : List String → Bool
is_empty [] = true
is_empty (x ∷ xs) = false

unfoldable pub is_visible : Part → LayoutService → Bool
is_visible p s = s.visibility p && is_empty (s.auto_hidden p)

abbrev pub or_shown : Option Bool → Bool → Option Bool
or_shown none b = some b
or_shown (some shown) b = some shown

-- The root is made at the first call, displayed if its part is visible.
unfoldable pub get_part_root : Part → LayoutService → LayoutService
unfolding is_visible
get_part_root p s = record s {
  part_roots = at p (or_shown (s.part_roots p) (is_visible p s)) s.part_roots;
}

abbrev pub displayed : Option Bool → Bool → Option Bool
displayed none b = none
displayed (some shown) b = some b

-- `updatePartVisibility`, with the event that it fires.
unfoldable pub update_part_visibility :
    Part → Bool → LayoutService → LayoutService × Option (Part × Bool)
update_part_visibility p b s =
    (record s { part_roots = at p (displayed (s.part_roots p) b) s.part_roots }, some (p, b))

abbrev pub same_bool : Bool → Bool → Bool
same_bool true b = b
same_bool false b = not b

-- The service afterwards, the event, if one fires, and whether the layout is stored.
unfoldable pub set_visible : Part → Bool → LayoutService → LayoutService × Option (Part × Bool)
unfolding is_visible update_part_visibility
set_visible p visible s =
    let next = record s {
      visibility = at p visible s.visibility;
      auto_hidden = at p [] s.auto_hidden;
    } in
    if same_bool (s.visibility p) visible && same_bool (is_visible p s) (is_visible p next)
    then (next, none)
    else update_part_visibility p (is_visible p next) next

abbrev pub set_add : String → List String → List String
set_add a xs = if any (λ x. x == a) xs then xs else xs ++ a ∷ []

abbrev pub set_delete : String → List String → List String
set_delete a xs = keep (λ x. not (x == a)) xs

unfoldable pub set_auto_hidden :
    Part → Bool → String → LayoutService → LayoutService × Option (Part × Bool)
unfolding is_visible update_part_visibility any keep
set_auto_hidden p hidden source s =
    let sources =
      if hidden then set_add source (s.auto_hidden p) else set_delete source (s.auto_hidden p) in
    let next = record s { auto_hidden = at p sources s.auto_hidden } in
    if same_bool (is_visible p s) (is_visible p next)
    then (next, none)
    else update_part_visibility p (is_visible p next) next

-- The flag says that the layout is stored and the size event fires.
unfoldable pub set_sidebar_width : ℕ → LayoutService → LayoutService × Bool
set_sidebar_width w s =
    if nat_eq (max 270 w) s.sidebar_width
    then (s, false)
    else (record s { sidebar_width = max 270 w }, true)

unfoldable pub set_auxiliary_bar_width : ℕ → LayoutService → LayoutService × Bool
set_auxiliary_bar_width w s =
    if nat_eq (max 270 w) s.auxiliary_bar_width
    then (s, false)
    else (record s { auxiliary_bar_width = max 270 w }, true)

unfoldable pub set_panel_height : ℕ → LayoutService → LayoutService × Bool
set_panel_height h s =
    if nat_eq (max 77 h) s.panel_height
    then (s, false)
    else (record s { panel_height = max 77 h }, true)

unfoldable pub set_editor_visible : Bool → LayoutService → LayoutService × Bool
set_editor_visible b s =
    if same_bool b s.editor_visible then (s, false) else (record s { editor_visible = b }, true)

-- What `JSON.parse` gives back of a stored layout, with what is no number or no Boolean left out.
pub record SavedLayout : Type 0 where
  pub visibility : Part → Option Bool
  pub sidebar_width : Option ℕ
  pub auxiliary_bar_width : Option ℕ
  pub panel_height : Option ℕ

unfoldable pub persist : LayoutService → SavedLayout
persist s = record {
  visibility = λ p. some (s.visibility p);
  sidebar_width = some s.sidebar_width;
  auxiliary_bar_width = some s.auxiliary_bar_width;
  panel_height = some s.panel_height;
}

abbrev pub at_least : ℕ → Option ℕ → ℕ → ℕ
at_least low none old = old
at_least low (some n) old = max low n

abbrev pub or_old : Option Bool → Bool → Bool
or_old none old = old
or_old (some b) old = b

-- `none`: nothing is stored, or no JSON.
unfoldable pub restore : Option SavedLayout → LayoutService → LayoutService
restore none s = s
restore (some v) s = record s {
  visibility = λ p. or_old (v.visibility p) (s.visibility p);
  sidebar_width = at_least 270 v.sidebar_width s.sidebar_width;
  auxiliary_bar_width = at_least 270 v.auxiliary_bar_width s.auxiliary_bar_width;
  panel_height = at_least 77 v.panel_height s.panel_height;
}
