-- ===== src/AhpClient/Chats.antt =====
-- packages/workbench/src/providers/ahp/ahp-client.ts: what is said in a chat. A new UUID and the time are
-- arguments (`turn_id`, `started_at`).
use package.text.Mathlib.Text.{starts_with}
use zaw.Base.{String, Bool, true, false, List, [], ◌∷◌, Option, none, some, ◌==◌, if◌then◌else◌}
use zaw.Base.Dict.{get, put, has}
use zaw.Json.{Json, text, flag, numeral, array, object, Elements, Fields, end, entry}
use zaw.AhpClient.{AhpClient, emit_action, dispatch}
use zaw.AhpClient.Operations.{Op, returns, change, current, dispatches, emits, ◌>>=◌, ◌>>◌}
use zaw.AhpClient.Sessions.{
  entry_if, given, has_elements, has_entries, field, put_chat, subscribe_session,
}

-- An optional text that is absent is the empty one: only its truth is asked for.
pub record AgentMessage : Type 0 where
  pub text : String
  pub agent : String
  pub mode : String
  pub approval_mode : String
  pub attachments : Elements
  pub model : String
  pub reasoning_effort : String

abbrev pub meta_of : AgentMessage → Fields
meta_of m = entry_if (given m.reasoning_effort) "zaw/reasoningEffort" (text m.reasoning_effort) (
    entry_if (given m.approval_mode) "zaw/approvalMode" (text m.approval_mode)
      (entry_if (given m.mode) "zaw/agentMode" (text m.mode) end))

unfoldable pub to_ahp_message : AgentMessage → Json
to_ahp_message m = object (
    entry "text" (text m.text) (
      entry "origin" (field "kind" (text "user")) (
        entry_if (has_elements m.attachments) "attachments" (array m.attachments) (
          entry_if (given m.model) "model" (field "id" (text m.model)) (
            entry_if (has_entries (meta_of m)) "_meta" (object (meta_of m)) (
              entry_if (starts_with m.agent "agent:") "agent" (field "uri" (text m.agent)) end))))))

unfoldable pub chat_or_subscribe : String → Option String → Op String
unfolding subscribe_session
chat_or_subscribe resource none = subscribe_session resource
chat_or_subscribe resource (some chat) = returns chat

-- `this.sessionChats.get(resource) ?? (await this.subscribeSession(resource))`, stored again.
unfoldable pub chat_for : String → Op String
unfolding chat_or_subscribe get put
chat_for resource = do
  c ← current
  chat ← chat_or_subscribe resource (get resource c.session_chats)
  change (put_chat resource chat)
  returns chat

unfoldable pub attach_session : String → Op Unit
unfolding subscribe_session get
attach_session resource = do
  c ← current
  if has resource c.session_chats then returns tt else do subscribe_session resource; returns tt

abbrev pub turn_started : String → String → AgentMessage → Json
unfolding to_ahp_message
turn_started turn_id started_at m = object (
    entry "type" (text "chat/turnStarted") (
      entry "turnId" (text turn_id)
        (entry "startedAt" (text started_at) (entry "message" (to_ahp_message m) end))))

abbrev pub own_action : String → Json → Json
own_action chat action =
    object
      (entry "channel" (text chat) (entry "action" action (entry "serverSeq" (numeral "0") end)))

unfoldable pub prompt_session : String → String → String → AgentMessage → Op Unit
unfolding chat_for to_ahp_message dispatch emit_action
prompt_session turn_id started_at resource m = do
  chat ← chat_for resource
  dispatches chat (turn_started turn_id started_at m)
  emits (own_action chat (turn_started turn_id started_at m))

abbrev pub draft_entry : Option AgentMessage → Fields
unfolding to_ahp_message
draft_entry none = end
draft_entry (some m) = entry "draft" (to_ahp_message m) end

unfoldable pub update_draft : String → Option AgentMessage → Op Unit
unfolding chat_for to_ahp_message dispatch
update_draft resource m = do
  chat ← chat_for resource
  dispatches chat (object (entry "type" (text "chat/draftChanged") (draft_entry m)))

unfoldable pub cancel_turn : String → String → Op Unit
unfolding chat_for dispatch
cancel_turn resource turn_id = do
  chat ← chat_for resource
  dispatches chat (
      object (
        entry "type" (text "chat/turnCancelled")
          (entry "turnId" (text turn_id) (entry "duration" (numeral "0") end))))

abbrev pub verdict : Bool → Fields
verdict true = entry "confirmed" (text "user-action") end
verdict false = entry "reason" (text "denied") end

unfoldable pub confirm_tool_call : String → String → String → Bool → AhpClient → AhpClient
unfolding dispatch
confirm_tool_call chat turn_id tool_call_id approved = dispatch chat (
    object (
      entry "type" (text "chat/toolCallConfirmed") (
        entry "turnId" (text turn_id) (
          entry "toolCallId" (text tool_call_id)
            (entry "approved" (flag approved) (verdict approved))))))

abbrev pub session_of_chat : String → List (String × String) → Option String
session_of_chat chat [] = none
session_of_chat chat ((session, resource) ∷ rest) =
    if resource == chat then some session else session_of_chat chat rest

unfoldable pub session_for_chat : String → AhpClient → Option String
session_for_chat chat c = session_of_chat chat c.session_chats
