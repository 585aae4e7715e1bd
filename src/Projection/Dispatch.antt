-- ===== src/Projection/Dispatch.antt =====
-- packages/workbench/src/contrib/sessions/ahp-projection-service.ts: `project`, over the services that it
-- calls, and `toWorkspaceChanges`. The answer of `attached(workspaceID)?.sessionForChat(channel)` is an argument.
use zaw.Base.{
  ℕ, String, ◌<>◌, Bool, false, List, [], ◌∷◌, Option, none, some, ◌==◌, ◌++◌, if◌then◌else◌, find,
}
use zaw.Json.{
  Json, Fields, text, array, string_value, record_value, field_of, or_text, lookup, elements,
}
use zaw.ActiveSession.{SessionIdentity}
use zaw.ChatSession.{ChatSession, ChatEvent, message, failure, user}
use zaw.ChatSession.Service.{
  events, append_event, append_message_delta, set_active_turn, replace_events,
}
use zaw.Terminal.{TerminalService, append_output}
use zaw.Workspace.Resources.{ResourceService, WorkspaceChange, replace_changes}
use zaw.Projection.{Texts, is_true, is_call, upsert_tool_event}
use zaw.Projection.Parts.{
  Turns, turn_key, turn_started, turn_ended, bump_response_segment, scoped_part_id,
}
use zaw.Projection.Tools.{ToolAction, start, other, tool_action_event}
use zaw.Projection.Snapshot.{project_chat_snapshot}

-- `action.type`; `ToolAction` has those that only `projectToolAction` reads.
pub data ActionType : Type 0 where
  terminal_data changeset_content_changed chat_snapshot chat_delta : ActionType
  chat_response_part chat_turn_started chat_turn_complete chat_turn_cancelled : ActionType
  chat_error : ActionType
  chat_tool : ToolAction → ActionType

-- The projection's own fields and the services that it calls.
pub record Projection : Type 0 where
  pub turns : Turns
  pub terminals : TerminalService
  pub resources : ResourceService
  pub chat : ChatSession

abbrev pub or_else : String → Option Json → String
or_else d (some (text s)) = s
or_else d _ = d

abbrev pub change_of : Option Fields → List WorkspaceChange
change_of none = []
change_of (some value) =
    let id = string_value (lookup "id" value) in
    if id == ""
    then []
    else record {
      id = id;
      path = or_else id (lookup "path" value);
      resource = or_else id (lookup "resource" value);
      diff = or_else "" (lookup "diff" value);
      reviewed = is_true (lookup "reviewed" value);
      status = or_else "M" (lookup "status" value);
    }
      ∷ []

unfoldable pub to_workspace_changes : List Json → List WorkspaceChange
unfolding string_value record_value lookup
to_workspace_changes [] = []
to_workspace_changes (v ∷ vs) = change_of (record_value (some v)) ++ to_workspace_changes vs

abbrev pub tool_action : ActionType → ToolAction
tool_action (chat_tool kind) = kind
tool_action _ = other

-- `f` of a text, and `d` of any other value.
abbrev pub when_text {ℓ} : {A : Type ℓ} → Option Json → A → (String → A) → A
when_text (some (text x)) d f = f x
when_text _ d f = d

unfoldable pub replaced_files : String → String → Option Json → Projection → Projection
unfolding replace_changes to_workspace_changes elements
replaced_files w channel (some (array files)) s = record s {
  resources = replace_changes w channel (to_workspace_changes (elements files)) s.resources;
}
replaced_files w channel _ s = s

-- What `project` does whether the channel belongs to a session or not.
unfoldable pub project_unattached : String → String → ActionType → Fields → Projection → Projection
unfolding lookup append_output replaced_files
project_unattached w channel terminal_data a s =
    when_text (lookup "data" a) s
      λ output. record s { terminals = append_output channel output s.terminals }
project_unattached w channel changeset_content_changed a s =
    replaced_files w channel (lookup "files" a) s
project_unattached w channel _ a s = s

abbrev pub is_markdown : Option Json → Bool
is_markdown (some (text s)) = s == "markdown"
is_markdown _ = false

module _ (texts : Texts) (decimal : ℕ → String) (stringify : Option Json → String) where
  -- The text of an error action.
  unfoldable pub error_text : Fields → String
  unfolding string_value record_value field_of or_text lookup
  error_text a =
      or_text (string_value (field_of "message" (record_value (lookup "error" a))))
        (or_text (string_value (lookup "error" a)) (stringify (lookup "error" a)))

  -- A part's text arrives; a part without an id is passed over.
  unfoldable pub project_part :
      SessionIdentity → String → String → String → Turns × ChatSession → Turns × ChatSession
  unfolding scoped_part_id append_message_delta
  project_part i channel part content (turns, chat) = if part == "" then (turns, chat) else (
    turns,
    append_message_delta i (scoped_part_id decimal (turn_key i.workspace_id channel) part turns)
        content chat,
  )

  unfoldable pub greeted : SessionIdentity → String → String → ChatSession → ChatSession
  unfolding append_event
  greeted i turn said chat =
      if said == "" then chat else append_event i (message (some (turn <> ":user")) user said) chat

  -- The branch of `action.type`, up to the call of `projectToolAction`.
  unfoldable pub project_chat :
      SessionIdentity → String → ActionType → Fields → Turns × ChatSession → Turns × ChatSession
  unfolding lookup string_value record_value field_of turn_started turn_ended set_active_turn
      append_event bump_response_segment error_text project_part greeted
  project_chat i channel chat_delta a s =
      when_text (lookup "content" a) s
        λ content. project_part i channel (string_value (lookup "partId" a)) content s
  project_chat i channel chat_response_part a s =
      let part = record_value (lookup "part" a) in
      if is_markdown (field_of "kind" part)
      then project_part i channel (string_value (field_of "id" part))
          (string_value (field_of "content" part)) s
      else s
  project_chat i channel chat_turn_started a s = when_text (lookup "turnId" a) s λ turn. (
    turn_started (turn_key i.workspace_id channel) turn s.0,
    set_active_turn i (some turn)
        (greeted i turn (string_value (field_of "text" (record_value (lookup "message" a)))) s.1),
  )
  project_chat i channel chat_turn_complete a (turns, chat) =
      (turn_ended (turn_key i.workspace_id channel) turns, set_active_turn i none chat)
  project_chat i channel chat_turn_cancelled a (turns, chat) =
      (turn_ended (turn_key i.workspace_id channel) turns, set_active_turn i none chat)
  project_chat i channel chat_error a (turns, chat) =
      (turns, set_active_turn i none (append_event i (failure (error_text a)) chat))
  project_chat i channel (chat_tool start) a (turns, chat) =
      (bump_response_segment (turn_key i.workspace_id channel) turns, chat)
  project_chat i channel _ a s = s

  unfoldable pub replaced : SessionIdentity → String → Option ChatEvent → ChatSession → ChatSession
  unfolding replace_events upsert_tool_event events
  replaced i k none chat = chat
  replaced i k (some e) chat = replace_events i (upsert_tool_event k e (events i chat)) chat

  -- `projectToolAction`, on the chat sessions.
  unfoldable pub project_tool :
      SessionIdentity → String → ToolAction → Fields → ChatSession → ChatSession
  unfolding string_value lookup tool_action_event events find replaced
  project_tool i channel kind a chat =
      let k = string_value (lookup "toolCallId" a) in
      if k == ""
      then chat
      else replaced i k
          (tool_action_event texts channel k kind a (find (is_call k) (events i chat))) chat

  unfoldable pub then_tool :
      SessionIdentity → String → ActionType → Fields → Turns × ChatSession → Turns × ChatSession
  unfolding project_tool
  then_tool i channel type a (turns, chat) =
      (turns, project_tool i channel (tool_action type) a chat)

  unfoldable pub project_attached :
      SessionIdentity → String → ActionType → Fields → Turns × ChatSession → Turns × ChatSession
  unfolding project_chat_snapshot record_value lookup project_chat project_tool then_tool
  project_attached i channel chat_snapshot a s =
      project_chat_snapshot texts channel i (record_value (lookup "state" a)) s
  project_attached i channel type a s = then_tool i channel type a (project_chat i channel type a s)

  abbrev pub projected : Projection → Turns × ChatSession → Projection
  projected s (turns, chat) = record s { turns = turns; chat = chat }

  -- `session` is the session that the channel belongs to.
  unfoldable pub project :
      Option String → String → String → ActionType → Fields → Projection → Projection
  unfolding project_unattached project_attached
  project none w channel type a s = project_unattached w channel type a s
  project (some session) w channel type a s =
      let seen = project_unattached w channel type a s in
      projected seen (
        project_attached (record { workspace_id = w; resource = session }) channel type a
          (seen.turns, seen.chat))
