-- ===== src/Management.antt =====
-- packages/workbench/src/contrib/management/management-service.ts: `ManagementService`, its state and what it
-- does at once. What waits for the provider is in Management/Reloads. `fired` lists the events that fired.
pub mod Editing
pub mod Reloads
pub mod Synced
pub mod Newest
pub mod Tests
use zaw.Base.{
  ℕ, String, Bool, true, false, not, List, [], ◌∷◌, ◌++◌, Option, none, some, ◌==◌, if◌then◌else◌,
}

pub data Sheet : Type 0 where
  confirm_credential_delete confirm_template_delete confirm_workspace_stop : Sheet
  build_logs credential model model_provider template template_source workspace_create : Sheet

-- `rest` is the text of the fields that the service hands on unread.
pub record Template : Type 0 where
  pub id : String
  pub source_kind : String
  pub rest : String

pub record Credential : Type 0 where
  pub id : String
  pub kind : String
  pub rest : String

pub record ManagementModel : Type 0 where
  pub id : String
  pub provider_id : String
  pub rest : String

pub record ModelProvider : Type 0 where
  pub id : String
  pub rest : String

pub data ModelsState : Type 0 where
  idle loading ready failed : ModelsState

pub data Fired : Type 0 where
  change templates_changed credentials_changed editing_changed : Fired
  sheet_changed : Option Sheet → Fired

-- What `reload` asks the provider for.
pub record Lists : Type 0 where
  pub templates : List Template
  pub credentials : List Credential
  pub models : List ManagementModel
  pub model_providers : List ModelProvider

pub record ManagementService : Type 0 where
  pub lists : Lists
  pub models_state : ModelsState
  pub models_error : String
  pub provisioners : List String
  pub editing_template : Option Template
  pub editing_credential : Option Credential
  pub editing_model_provider : Option ModelProvider
  pub editing_model : Option ManagementModel
  pub model_provider_id : String
  pub credential_kind : String
  pub template_kind : String
  pub sheet : Option Sheet
  pub dirty : Bool
  pub is_open : Bool
  pub management_view_id : String
  pub management_query : String
  pub management_history : List String
  pub pending_credential_delete_id : String
  pub pending_template_delete_id : String
  pub pending_workspace_id : String
  pub reload_generation : ℕ
  pub runtime_reload_generation : ℕ
  pub open_context : Bool
  pub dirty_context : Bool
  pub fired : List Fired

abbrev pub no_lists : Lists
no_lists = record { templates = []; credentials = []; models = []; model_providers = [] }

abbrev pub initial : ManagementService
initial = record {
  lists = no_lists;
  models_state = idle;
  models_error = "";
  provisioners = [];
  editing_template = none;
  editing_credential = none;
  editing_model_provider = none;
  editing_model = none;
  model_provider_id = "";
  credential_kind = "token";
  template_kind = "git";
  sheet = none;
  dirty = false;
  is_open = false;
  management_view_id = "settings";
  management_query = "";
  management_history = [];
  pending_credential_delete_id = "";
  pending_template_delete_id = "";
  pending_workspace_id = "";
  reload_generation = 0;
  runtime_reload_generation = 0;
  open_context = false;
  dirty_context = false;
  fired = [];
}

abbrev pub fire : Fired → ManagementService → ManagementService
fire e s = record s { fired = s.fired ++ e ∷ [] }

-- `fireChange`
abbrev pub fire_change : ManagementService → ManagementService
fire_change s = record s {
  open_context = s.is_open;
  dirty_context = s.dirty;
  fired = s.fired ++ change ∷ [];
}

-- `this.sheetEmitter.fire(this._sheet); this.fireChange();`
abbrev pub fire_sheet : ManagementService → ManagementService
fire_sheet s = fire_change (fire (sheet_changed s.sheet) s)

abbrev pub fire_editing : ManagementService → ManagementService
fire_editing s = fire_sheet (fire editing_changed s)

unfoldable pub open_management : ManagementService → ManagementService
open_management s = fire_change (record s { is_open = true })

unfoldable pub open_workspace_create : ManagementService → ManagementService
open_workspace_create s = fire_sheet (record s {
  is_open = true;
  management_view_id = "workspaces";
  sheet = some workspace_create;
  dirty = false;
})

unfoldable pub open_build_logs : String → ManagementService → ManagementService
open_build_logs workspace_id s =
    fire_sheet (record s { pending_workspace_id = workspace_id; sheet = some build_logs })

unfoldable pub close_sheet : ManagementService → ManagementService
close_sheet s = fire_editing (record s {
  dirty = false;
  sheet = none;
  editing_credential = none;
  editing_template = none;
  editing_model = none;
  editing_model_provider = none;
})

unfoldable pub close : ManagementService → ManagementService
unfolding close_sheet
close s = fire_change (close_sheet (record s { is_open = false }))

unfoldable pub set_dirty : Bool → ManagementService → ManagementService
set_dirty true s = if s.dirty then s else record s { dirty = true; dirty_context = true }
set_dirty false s = if s.dirty then record s { dirty = false; dirty_context = false } else s

unfoldable pub select_management_view : String → ManagementService → ManagementService
select_management_view id s =
    if s.management_view_id == id
    then s
    else fire_change (record s {
      management_history = s.management_history ++ s.management_view_id ∷ [];
      management_view_id = id;
      management_query = "";
    })

unfoldable pub search_management : String → ManagementService → ManagementService
search_management query s = fire_change (record s { management_query = query })

-- The last entry, and those before it.
abbrev pub split_last : String → List String → List String × String
split_last x [] = ([], x)
split_last x (y ∷ ys) = let rest = split_last y ys in (x ∷ rest.0, rest.1)

abbrev pub back_to : List String → ManagementService → ManagementService
back_to [] s = s
back_to (x ∷ xs) s = fire_change (record s {
  management_view_id = (split_last x xs).1;
  management_history = (split_last x xs).0;
})

unfoldable pub go_back : ManagementService → ManagementService
go_back s = back_to s.management_history s

unfoldable pub request_workspace_stop : String → ManagementService → ManagementService
request_workspace_stop id s =
    fire_sheet (record s { pending_workspace_id = id; sheet = some confirm_workspace_stop })
