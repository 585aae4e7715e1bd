-- ===== src/SessionService/Tests.antt =====
-- A session is made, and a draft is prompted, on concrete services.
use zaw.Base.{◌≡◌, refl, String, true, false, [], ◌∷◌, none, some, any, find}
use zaw.ActiveSession.{SessionIdentity}
use zaw.ActiveSession.Table.{find_in}
use zaw.Attachment.{initial, attach, attached}
use zaw.ChatSession.{ChatSession, empty_composition}
use zaw.ChatSession.Service.{composition}
use zaw.ChatSession.Keys.{IsSynced}
use zaw.Layout.{initial as layout}
use zaw.UiState.{WorkspaceUiState, Codec}
use zaw.Workspace.{Workspace, is_workspace_running}
use zaw.Workspace.Details.{files_tab}
use zaw.SessionService.{
  Services, begin_create, begin_send, not_running, awaits_host, prompt, prompts_session,
  has_nothing, host_for, runs, after_create,
}
use zaw.SessionService.Created.{is_listed, after_create_lem}

abbrev codec : Codec WorkspaceUiState
codec = record { parse = λ t. none; stringify = λ s. "{}" }

abbrev session : SessionIdentity
session = record { workspace_id = "w"; resource = "r" }

abbrev workspace : Workspace
workspace = record {
  id = "w";
  desired_state = "running";
  observed_state = "running";
  agent_host_state = "online";
  current_build_id = "";
}

abbrev chats : String → ChatSession
chats draft = record {
  compositions = (session, record empty_composition { draft = draft }) ∷ [];
  active_turns = [];
  messages = [];
  stored = [];
  current = none;
  turn_context = false;
  approval_context = false;
}

abbrev services : String → Services
services draft = record {
  attachments = initial;
  chat = chats draft;
  active = record { selected = none; active_context = false };
  catalog = record {
    catalog = record { items = []; sessions = []; session_titles = []; connection_state = [] };
    refresh_serial = 0;
    latest_all_refresh = 0;
    latest_provider_refresh = [];
    archived = [];
    pinned = [];
    unread = [];
  };
  details = record {
    tabs = files_tab ∷ [];
    active_tab_id = "files";
    current_session = none;
    changes_context = false;
    files_context = true;
    preview_context = false;
    layout = layout;
    ui_state = record { memory = []; storage = none };
  };
  workspaces = workspace ∷ [];
  asked = [];
}

begin_tests :
    ((begin_create "v" (services "")).1 ≡ not_running)
    × ((begin_create "w" (services "")).1 ≡ awaits_host)
    × ((begin_send session (services "Hi")).1 ≡ awaits_host)
unfolding find begin_create begin_send runs host_for is_workspace_running attach attached
begin_tests = (refl, refl, refl)

prompt_tests :
    ((prompt session 7 (services " \t")).asked ≡ [])
    × ((prompt session 7 (services " Hi")).asked
        ≡ (7, prompts_session "r" (record empty_composition { draft = " Hi" })) ∷ [])
unfolding prompt composition has_nothing find_in any
prompt_tests = (refl, refl)

after_create_lem_example :
    ((after_create codec session "T" (services "")).active.selected ≡ some session)
    × (is_listed session (after_create codec session "T" (services "")).catalog ≡ true)
    × IsSynced (after_create codec session "T" (services "")).chat
after_create_lem_example = after_create_lem codec session "T" (services "") tt
