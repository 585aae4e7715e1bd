-- ===== src/Projection/Turn.antt =====
-- packages/workbench/src/contrib/sessions/ahp-projection-service.ts: `eventsForTurn`.
use zaw.Base.{
  String, ◌<>◌, Bool, true, false, ◌&&◌, not, List, [], ◌∷◌, ◌++◌, Option, none, some, ◌==◌,
  if◌then◌else◌,
}
use zaw.Json.{
  Json, Fields, string_value, record_value, field_of, array_value, or_text, display_text, lookup,
}
use zaw.ChatSession.{ChatEvent, message, notification, failure, Role, Level}
use zaw.Projection.{Texts, some_text, tool_event_from_state}

-- The variables of the loop.
pub record Turn : Type 0 where
  pub events : List ChatEvent
  pub markdown : String
  pub markdown_id : String

unfoldable pub flush_markdown : Turn → Turn
flush_markdown s = if s.markdown == "" then s else record {
  events = s.events ++ message (some_text s.markdown_id) Role.agent s.markdown ∷ [];
  markdown = "";
  markdown_id = "";
}

abbrev pub pushed : Option ChatEvent → Turn → Turn
pushed none s = s
pushed (some e) s = record s { events = s.events ++ e ∷ [] }

abbrev pub level_of : String → Level
level_of l =
    if l == "error" then Level.error else if l == "warning" then Level.warning else Level.info

-- `if`, `else if`
unfoldable pub choice : Bool → Bool → Option ChatEvent → ChatEvent → Option ChatEvent
choice true second a b = a
choice false true a b = some b
choice false false a b = none

module _ (texts : Texts) (channel : String) where
  -- What a part other than markdown adds.
  unfoldable pub part_event : Option Fields → Option ChatEvent
  unfolding string_value record_value field_of display_text tool_event_from_state
  part_event part =
      let kind = string_value (field_of "kind" part) in
      let notice = display_text (field_of "content" part) in
      choice (kind == "toolCall") ((kind == "systemNotification") && not (notice == ""))
        (tool_event_from_state texts channel (record_value (field_of "toolCall" part)))
        (notification (level_of (string_value (field_of "level" part))) notice)

  abbrev pub is_markdown : Option Fields → Bool
  is_markdown part = string_value (field_of "kind" part) == "markdown"

  abbrev pub part_id : String → Option Fields → String
  part_id turn part =
      let id = string_value (field_of "id" part) in
      if not (turn == "") && not (id == "") then turn <> ":" <> id else id

  unfoldable pub part_step : String → Option Fields → Turn → Turn
  unfolding string_value field_of part_event flush_markdown or_text
  part_step turn none s = s
  part_step turn (some part) s =
      if is_markdown (some part)
      then record s {
        markdown_id = or_text s.markdown_id (part_id turn (some part));
        markdown = s.markdown <> string_value (field_of "content" (some part));
      }
      else pushed (part_event (some part)) (flush_markdown s)

  unfoldable pub parts_loop : String → List Json → Turn → Turn
  unfolding part_step record_value
  parts_loop turn [] s = s
  parts_loop turn (v ∷ vs) s = parts_loop turn vs (part_step turn (record_value (some v)) s)

  abbrev pub user_message : String → String → List ChatEvent
  user_message turn content =
      if content == ""
      then []
      else message (if turn == "" then none else some (turn <> ":user")) Role.user content ∷ []

  abbrev pub error_event : String → List ChatEvent
  error_event e = if e == "" then [] else failure e ∷ []

  unfoldable pub events_for_turn : Fields → List ChatEvent
  unfolding string_value record_value field_of array_value parts_loop flush_markdown
  events_for_turn turn =
      let get = λ (k : String). lookup k turn in
      let id = string_value (get "id") in
      let asked = string_value (field_of "text" (record_value (get "message"))) in
      let failed = string_value (field_of "message" (record_value (get "error"))) in
      let ended = flush_markdown (
        parts_loop id (array_value (get "responseParts"))
          (record { events = user_message id asked; markdown = ""; markdown_id = "" })) in
      ended.events ++ error_event failed

  -- The text that the agent says in the events, and the text of the markdown parts.
  unfoldable pub agent_text : List ChatEvent → String
  agent_text [] = ""
  agent_text (message k Role.agent t ∷ es) = t <> agent_text es
  agent_text (e ∷ es) = agent_text es

  unfoldable pub markdown_text : List Json → String
  unfolding string_value record_value field_of
  markdown_text [] = ""
  markdown_text (v ∷ vs) =
      if is_markdown (record_value (some v))
      then string_value (field_of "content" (record_value (some v))) <> markdown_text vs
      else markdown_text vs
