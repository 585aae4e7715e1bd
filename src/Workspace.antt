-- ===== src/Workspace.antt =====
-- packages/workbench/src/contrib/workspace/workspace-service.ts: `WorkspaceService`. What waits for the provider
-- or the host is split at the wait; `fired` counts the change events.
pub mod Resources
pub mod Isolated
pub mod Details
pub mod Tabs
pub mod TabHistory
pub mod Tests
use zaw.Base.{
  ℕ, suc, String, Bool, true, false, ◌&&◌, List, [], ◌∷◌, Option, none, some, ◌==◌, if◌then◌else◌,
  find,
}

pub record Workspace : Type 0 where
  pub id : String
  pub desired_state : String
  pub observed_state : String
  pub agent_host_state : String
  pub current_build_id : String

pub data LifecycleState : Type 0 where
  running stopped transitioning : LifecycleState

unfoldable pub is_workspace_running : Option Workspace → Bool
is_workspace_running none = false
is_workspace_running (some w) =
    (w.desired_state == "running")
    && ((w.observed_state == "running") && (w.agent_host_state == "online"))

unfoldable pub workspace_lifecycle_state : Option Workspace → LifecycleState
unfolding is_workspace_running
workspace_lifecycle_state none = transitioning
workspace_lifecycle_state (some w) =
    if is_workspace_running (some w)
    then running
    else if (w.desired_state == "stopped") && (w.observed_state == "stopped")
    then stopped
    else transitioning

pub record WorkspaceService : Type 0 where
  pub workspaces : List Workspace
  pub selected_workspace_id : Option String
  pub active_context : Bool
  pub online_context : Bool
  pub fired : ℕ

abbrev pub initial : WorkspaceService
initial = record {
  workspaces = [];
  selected_workspace_id = none;
  active_context = false;
  online_context = false;
  fired = 0;
}

-- `reload` and `create` after the provider has listed the workspaces.
unfoldable pub reload : List Workspace → WorkspaceService → WorkspaceService
reload ws s = record s { workspaces = ws; fired = suc s.fired }

abbrev pub build_of : Option Workspace → Option String
build_of none = none
build_of (some w) = if w.current_build_id == "" then none else some w.current_build_id

-- The build whose logs `loadBuildLogs` asks for.
unfoldable pub load_build_logs : String → WorkspaceService → Option String
unfolding find
load_build_logs id s = build_of (find (λ w. w.id == id) s.workspaces)

-- `select` once the host is attached, up to the loading of resources and terminals; its end.
unfoldable pub select : String → WorkspaceService → WorkspaceService
select id s = record s {
  selected_workspace_id = some id;
  active_context = true;
  online_context = true;
  fired = suc s.fired;
}

unfoldable pub selected : WorkspaceService → WorkspaceService
selected s = record s { fired = suc s.fired }

abbrev pub is_selected : String → Option String → Bool
is_selected id none = false
is_selected id (some w) = w == id

-- The listener that the constructor puts on the attachment's close event.
unfoldable pub on_host_close : String → WorkspaceService → WorkspaceService
on_host_close id s =
    if is_selected id s.selected_workspace_id
    then record s { online_context = false; fired = suc s.fired }
    else s
