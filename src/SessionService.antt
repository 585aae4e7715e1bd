-- ===== src/SessionService.antt =====
-- packages/workbench/src/contrib/sessions/session-service.ts: `SessionService`, over the services that it calls.
-- A method is split at its waits; `asked` lists what a host was asked for.
pub mod Created
pub mod Tests
use Prim.Native.Char.{Char, code}
use zaw.Base.{
  ℕ, String, Bool, true, false, ◌&&◌, ◌||◌, not, List, [], ◌∷◌, ◌++◌, Option, none, some, nat_eq,
  ltb, leb, ◌==◌, if◌then◌else◌, find, any,
}
use zaw.ActiveSession.{SessionIdentity, ActiveSession, select}
use zaw.Attachment.{Attachment, attach, attached}
use zaw.ChatSession.{ChatSession, ChatComposition, agent_mode, or_else}
use zaw.ChatSession.Service.{composition, active_turn, clear_after_send, selects}
use zaw.SessionCatalog.{SessionCatalogService, add}
use zaw.Base.Text.{chars, is_blank}
use zaw.UiState.{WorkspaceUiState, Codec}
use zaw.Workspace.{Workspace, is_workspace_running}
use zaw.Workspace.Details.{DetailViewService, commit_new_session, on_session}

pub data HostCall : Type 0 where
  creates_session : String → Option String → HostCall
  attaches_session : String → HostCall
  prompts_session : String → ChatComposition → HostCall
  cancels_turn : String → String → HostCall
  confirms_tool_call : String → String → String → Bool → HostCall

pub record Services : Type 0 where
  pub attachments : Attachment
  pub chat : ChatSession
  pub active : ActiveSession
  pub catalog : SessionCatalogService
  pub details : DetailViewService
  pub workspaces : List Workspace
  pub asked : List (ℕ × HostCall)

-- The start of a method that needs a host: it throws, waits for `connect`, or has the host.
pub data Begun : Type 0 where
  not_running awaits_host : Begun
  has_host : ℕ → Begun

abbrev pub ask : ℕ → HostCall → Services → Services
ask h c s = record s { asked = s.asked ++ (h, c) ∷ [] }

-- `assertWorkspaceRunning`
unfoldable pub runs : String → Services → Bool
unfolding find is_workspace_running
runs w s = is_workspace_running (find (λ v. v.id == w) s.workspaces)

abbrev pub begun_with : Services → Attachment × Option ℕ → Services × Begun
begun_with s (a, none) = (record s { attachments = a }, awaits_host)
begun_with s (a, some h) = (record s { attachments = a }, has_host h)

-- `attached(workspaceID) ?? (await attach(workspaceID))`
unfoldable pub host_for : String → Services → Services × Begun
unfolding attach attached
host_for w s = elim (attached (some w) s.attachments) [
  | none ↦ begun_with s (attach w s.attachments)
  | some h ↦ (s, has_host h)
]

unfoldable pub begin_create : String → Services → Services × Begun
unfolding runs attach
begin_create w s = if runs w s then begun_with s (attach w s.attachments) else (s, not_running)

unfoldable pub begin_send : SessionIdentity → Services → Services × Begun
unfolding runs host_for
begin_send i s = if runs i.workspace_id s then host_for i.workspace_id s else (s, not_running)

-- `create` and `attach`, once the host is there, up to its answer.
unfoldable pub create_on : ℕ → String → Option String → Services → Services
create_on h title provider s = ask h (creates_session title provider) s

unfoldable pub attach_on : ℕ → SessionIdentity → Services → Services
attach_on h i s = ask h (attaches_session i.resource) s

abbrev pub no_attachments : {A : Type 0} → List A → Bool
no_attachments [] = true
no_attachments (a ∷ rest) = false

-- Nothing is asked for when the draft is blank and nothing is attached.
unfoldable pub has_nothing : ChatComposition → Bool
unfolding any
has_nothing c = not (any (λ x. not (is_blank x)) (chars c.draft)) && no_attachments c.attachments

-- `send`, once the host is there, up to its answer.
unfoldable pub prompt : SessionIdentity → ℕ → Services → Services
unfolding composition has_nothing
prompt i h s =
    let seen = composition i s.chat in
    let looked = record s { chat = seen.1 } in
    if has_nothing seen.0
    then looked
    else ask h
        (prompts_session i.resource
          (record (seen.0) { mode = some (or_else seen.0.mode agent_mode) }))
        looked

-- The host has answered; when it fails, `send` throws and changes nothing.
unfoldable pub prompted : SessionIdentity → Services → Services
unfolding clear_after_send
prompted i s = record s { chat = clear_after_send i s.chat }

abbrev pub cancelled : SessionIdentity → Option String → Option ℕ → Services → Services
cancelled i (some turn) (some h) s =
    if turn == "" then s else ask h (cancels_turn i.resource turn) s
cancelled i _ _ s = s

unfoldable pub cancel : SessionIdentity → Services → Services
unfolding active_turn attached
cancel i s = cancelled i (active_turn i s.chat) (attached (some i.workspace_id) s.attachments) s

abbrev pub confirmed_with : Option ℕ → Option String → String → String → Bool → Services → Services
confirmed_with (some h) (some turn) chat call approved s =
    if turn == "" then s else ask h (confirms_tool_call chat turn call approved) s
confirmed_with _ _ chat call approved s = s

unfoldable pub confirm_tool : SessionIdentity → String → String → Bool → Services → Services
unfolding active_turn attached
confirm_tool i chat call approved s =
    confirmed_with (attached (some i.workspace_id) s.attachments) (active_turn i s.chat) chat call
      approved s

module _ (codec : Codec WorkspaceUiState) where
  -- The listeners that the chat sessions and the tabs put on the active session.
  unfoldable pub on_active_change : Option (Option SessionIdentity) → Services → Services
  unfolding selects on_session
  on_active_change none s = s
  on_active_change (some c) s = record s {
    chat = selects c s.chat;
    details = on_session codec c s.details;
  }

  unfoldable pub selected_session : SessionIdentity → Services → Services
  unfolding select on_active_change
  selected_session i s =
      let next = select i s.active in on_active_change next.1 (record s { active = next.0 })

  -- The end of `create`: the host has made the session.
  unfoldable pub after_create : SessionIdentity → String → Services → Services
  unfolding commit_new_session add selected_session
  after_create i title s =
      selected_session i (record s {
        details = commit_new_session codec i s.details;
        catalog = add i title s.catalog;
      })
