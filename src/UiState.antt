-- ===== src/UiState.antt =====
-- packages/workbench/src/services/workspace-ui-state.ts: `WorkspaceUIStateService`. `structuredClone` gives
-- an equal value. `JSON.parse` and `JSON.stringify` are the record `Codec`; a storage that refuses to be read
-- or written throws.
pub mod Stored
pub mod Windows
pub mod Tests
use zaw.Base.{
  String, ◌<>◌, Bool, true, false, List, [], ◌∷◌, Option, none, some, ◌==◌, if◌then◌else◌,
}
use zaw.Base.Dict.{get, put}

pub record ActiveView : Type 0 where
  pub id : String
  pub kind : String
  pub title : String
  pub content : Option String

pub record SessionDetailUiState : Type 0 where
  pub active_view : Option ActiveView
  pub auxiliary_visible : Option Bool

-- `rest` is the text of the other fields, which the service does not read.
pub record WorkspaceUiState : Type 0 where
  pub session_details : List (String × SessionDetailUiState)
  pub rest : String

pub record Storage : Type 0 where
  pub items : List (String × String)
  pub readable : Bool
  pub writable : Bool

-- `none` is a text that does not parse.
pub record Codec (A : Type 0) : Type 0 where
  pub parse : String → Option A
  pub stringify : A → String

pub record UiStateService : Type 0 where
  pub memory : List (String × WorkspaceUiState)
  pub storage : Option Storage

abbrev pub no_state : WorkspaceUiState
no_state = record { session_details = []; rest = "" }

abbrev pub no_details : SessionDetailUiState
no_details = record { active_view = none; auxiliary_visible = none }

-- `getItem`, inside the `try`.
unfoldable pub item_of : String → Option Storage → Option String
unfolding get
item_of k none = none
item_of k (some s) = if s.readable then get k s.items else none

-- `setItem`; the flag says that it throws.
unfoldable pub set_item : String → String → Option Storage → Option Storage × Bool
unfolding put
set_item k v none = (none, false)
set_item k v (some s) =
    if s.writable then (some (record s { items = put k v s.items }), false) else (some s, true)

unfoldable pub key : String → String
key workspace_id = "zaw.workspace-state." <> workspace_id

abbrev pub or_no_state : Option WorkspaceUiState → WorkspaceUiState
or_no_state none = no_state
or_no_state (some s) = s

-- The empty text counts as no value.
abbrev pub parsed : Codec WorkspaceUiState → Option String → WorkspaceUiState
parsed codec none = no_state
parsed codec (some value) = if value == "" then no_state else or_no_state (codec.parse value)

abbrev pub or_stored : WorkspaceUiState → Option WorkspaceUiState → WorkspaceUiState
or_stored stored none = stored
or_stored stored (some s) = s

unfoldable pub load : Codec WorkspaceUiState → String → UiStateService → WorkspaceUiState
unfolding get item_of key
load codec workspace_id s =
    or_stored (parsed codec (item_of (key workspace_id) s.storage)) (get workspace_id s.memory)

unfoldable pub save :
    Codec WorkspaceUiState → String → WorkspaceUiState → UiStateService → UiStateService
unfolding put set_item key
save codec workspace_id state s = record {
  memory = put workspace_id state s.memory;
  storage = (set_item (key workspace_id) (codec.stringify state) s.storage).0;
}

abbrev pub or_no_details : Option SessionDetailUiState → SessionDetailUiState
or_no_details none = no_details
or_no_details (some d) = d

unfoldable pub load_session_details :
    Codec WorkspaceUiState → String → String → UiStateService → SessionDetailUiState
unfolding get load
load_session_details codec workspace_id resource s =
    or_no_details (get resource (load codec workspace_id s).session_details)

unfoldable pub save_session_details :
    Codec WorkspaceUiState
    → String
    → String
    → SessionDetailUiState
    → UiStateService
    → UiStateService
unfolding put load save
save_session_details codec workspace_id resource details s =
    let workspace = load codec workspace_id s in
    save codec workspace_id
      (record workspace { session_details = put resource details workspace.session_details }) s
