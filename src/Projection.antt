-- ===== src/Projection.antt =====
-- packages/workbench/src/contrib/sessions/ahp-projection-service.ts: `AHPProjectionService`. The
-- texts made of tool inputs and results go through regular expressions and `JSON.parse`; they are
-- the functions of `Texts`.
pub mod Turn
pub mod Said
pub mod Errors
pub mod ErrorsTests
pub mod Tools
pub mod Parts
pub mod Snapshot
pub mod Replayed
pub mod Dispatch
pub mod Reached
pub mod Isolated
pub mod Streaming
pub mod DispatchTests
pub mod Tests
use zaw.Base.{
  ℕ, zero, suc, ◌+◌, String, ◌<>◌, Bool, true, false, ◌&&◌, ◌||◌, not, List, [], ◌∷◌, ◌++◌, Option,
  none, some, ◌==◌, if◌then◌else◌,
}
use zaw.Json.{
  Json, Fields, text, flag, string_value, record_value, field_of, array_value, or_text,
  display_text, lookup, elements,
}
use zaw.ChatSession.{
  ChatEvent, Call, message, tool, approval, notification, failure, Role, Approval, pending, Level,
  replace_or_push,
}

-- `toolInvocationDetail`, `toolResultDetail`, `toolCallSummary`, `JSON.stringify`, and whether a text
-- starts with "permission-".
pub record Texts : Type 0 where
  pub tool_invocation_detail : List String → String
  pub tool_result_detail : Option Fields → String
  pub tool_call_summary : String → String → String
  pub stringify : Option Json → String
  pub is_permission : String → Bool

abbrev pub is_true : Option Json → Bool
is_true (some (flag true)) = true
is_true _ = false

abbrev pub is_false : Option Json → Bool
is_false (some (flag false)) = true
is_false _ = false

abbrev pub is_text : Option Json → Bool
is_text (some (text s)) = true
is_text _ = false

abbrev pub some_text : String → Option String
some_text s = if s == "" then none else some s

abbrev pub tool_call_id : ChatEvent → Option String
tool_call_id (tool c s) = some c.tool_call_id
tool_call_id (approval c v s) = some c.tool_call_id
tool_call_id _ = none

abbrev pub is_call : String → ChatEvent → Bool
is_call k e = elim (tool_call_id e) [ none ↦ false | some j ↦ j == k ]

-- `upsertToolEvent`, on the session's events.
unfoldable pub upsert_tool_event : String → ChatEvent → List ChatEvent → List ChatEvent
unfolding replace_or_push
upsert_tool_event k e es = replace_or_push (is_call k) (λ old. e) e es

-- The returns of `toolEventFromState`: nothing without an id, for a permission request that is not
-- pending and for a call that is cancelled.
unfoldable pub outcome : Bool → Bool → Bool → Bool → ChatEvent → ChatEvent → Option ChatEvent
outcome true settled awaits cancelled a t = none
outcome false true awaits cancelled a t = none
outcome false false true cancelled a t = some a
outcome false false false true a t = none
outcome false false false false a t = some t

module _ (texts : Texts) (channel : String) where
  abbrev pub or_fields : Option Fields → Option Fields → Option Fields
  or_fields none b = b
  or_fields (some a) b = some a

  unfoldable pub tool_event_from_state : Option Fields → Option ChatEvent
  unfolding string_value record_value field_of or_text display_text
  tool_event_from_state none = none
  tool_event_from_state (some t) =
      let get = λ (k : String). lookup k t in
      let id = string_value (get "toolCallId") in
      let given = string_value (get "status") in
      let status = if given == "" then "unknown" else given in
      let permission =
        texts.is_permission id
        || is_true (field_of "zaw/permissionRequest" (record_value (get "_meta"))) in
      let title = or_text (string_value (get "displayName")) (string_value (get "toolName")) in
      let result = or_fields (record_value (get "result")) (some t) in
      let input = string_value (get "toolInput") in
      let detail =
        if status == "completed"
        then texts.tool_result_detail result
        else texts.tool_invocation_detail (input ∷ display_text (get "invocationMessage") ∷ []) in
      let summary = texts.tool_call_summary title input in
      outcome (id == "") (permission && not (status == "pending-confirmation"))
        (status == "pending-confirmation") (status == "cancelled")
        (approval
          (record {
            tool_call_id = id;
            title = or_text (display_text (get "confirmationTitle")) title;
            summary = some_text summary;
            detail = detail;
          })
          channel pending)
        (tool (record { tool_call_id = id; title = title; summary = some summary; detail = detail })
          (if (status == "completed") && is_false (field_of "success" result)
            then "failed"
            else status))
