-- ===== src/Workspace/Tests.antt =====
-- Workspaces, their tabs and resources, and the theorems at concrete inputs.
use zaw.Base.{String, ◌≡◌, refl, true, false, List, [], ◌∷◌, none, some}
use zaw.Base.Dict.{get, put}
use zaw.Layout.{initial}
use zaw.UiState.{WorkspaceUiState, Codec}
use zaw.Workspace.{
  Workspace, is_workspace_running, workspace_lifecycle_state, stopped, transitioning,
}
use zaw.Workspace.Details.{DetailViewService, files_tab}
use zaw.Workspace.TabHistory.{
  Event, opens_changes, opens_preview, closes, sessions, HasTabs, steps, steps-HasTabs,
}
use zaw.Workspace.Resources.{
  loaded, initial as no_resources, begin_load, end_load, accept, root_key, begin_directory,
  directory_key,
}
use zaw.Workspace.Isolated.{
  Event as LoadEvent, begins, ends, begins_directory, Agree, steps-Agree, steps as load_steps, step,
}

abbrev workspace : String → String → Workspace
workspace desired observed = record {
  id = "w";
  desired_state = desired;
  observed_state = observed;
  agent_host_state = "online";
  current_build_id = "";
}

starting : workspace_lifecycle_state (some (workspace "running" "stopped")) ≡ transitioning
unfolding workspace_lifecycle_state is_workspace_running
starting = refl

halted : workspace_lifecycle_state (some (workspace "stopped" "stopped")) ≡ stopped
unfolding workspace_lifecycle_state is_workspace_running
halted = refl

abbrev codec : Codec WorkspaceUiState
codec = record { parse = λ t. none; stringify = λ s. "{}" }

abbrev details : DetailViewService
details = record {
  tabs = files_tab ∷ [];
  active_tab_id = "files";
  current_session = none;
  changes_context = false;
  files_context = true;
  preview_context = false;
  layout = initial;
  ui_state = record { memory = []; storage = none };
}

abbrev events : List Event
events =
    opens_changes
    ∷ opens_preview "a" "A" "text"
    ∷ sessions (some (record { workspace_id = "w"; resource = "r" }))
    ∷ opens_preview "b" "B" "text"
    ∷ closes "b"
    ∷ closes "files"
    ∷ []

steps-HasTabs_example : HasTabs (steps codec events details)
steps-HasTabs_example = steps-HasTabs codec events details refl refl

abbrev loads : List LoadEvent
loads =
    begins "w"
    ∷ begins_directory "w" "dir"
    ∷ ends (λ n. n) "w" 1 (loaded [] "c" (record { name = "src"; is_directory = true } ∷ []))
    ∷ []

src_listed :
    get "w" (load_steps loads no_resources).files
    ≡ some (record { name = "src"; is_directory = true; uri = "src/" } ∷ [])
unfolding load_steps step begin_load end_load accept begin_directory directory_key get put root_key
src_listed = refl

steps-Agree_example : Agree "v" (load_steps loads no_resources) no_resources
steps-Agree_example = steps-Agree "v" loads no_resources (refl, (refl, (refl, tt)))
