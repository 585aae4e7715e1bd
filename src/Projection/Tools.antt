-- ===== src/Projection/Tools.antt =====
-- packages/workbench/src/contrib/sessions/ahp-projection-service.ts: `projectToolAction`, on the
-- events of the session that the action is for.
use zaw.Base.{
  String, ◌<>◌, ◌≡◌, sym, ap, false, not, List, [], ◌∷◌, Option, none, some, ◌==◌, if◌then◌else◌,
  find, keep, length, ◌≤◌, arith, eq_iff, eq_refl, Option-cases, inl, inr,
}
use zaw.Json.{Fields, string_value, record_value, field_of, or_text, display_text, lookup}
use zaw.ChatSession.{ChatEvent, tool, approval, approved, denied, pending, replace_or_push}
use zaw.Projection.{Texts, is_true, is_false, is_text, tool_call_id, is_call, upsert_tool_event}

-- `action.type`, of those that are read here.
pub data ToolAction : Type 0 where
  start delta ready confirmed complete content_changed other : ToolAction

abbrev pub title_of : Option ChatEvent → String
title_of (some (tool c s)) = c.title
title_of (some (approval c v s)) = c.title
title_of _ = "Tool call"

abbrev pub or_blank : Option String → String
or_blank none = ""
or_blank (some s) = s

abbrev pub summary_of : Option ChatEvent → String
summary_of (some (tool c s)) = or_blank c.summary
summary_of (some (approval c v s)) = or_blank c.summary
summary_of _ = ""

abbrev pub detail_of : Option ChatEvent → String
detail_of (some (tool c s)) = c.detail
detail_of (some (approval c v s)) = c.detail
detail_of _ = ""

module _ (texts : Texts) (channel : String) where
  -- The new event of the call `k`, whose event so far is `previous`.
  unfoldable pub tool_action_event :
      String → ToolAction → Fields → Option ChatEvent → Option ChatEvent
  unfolding string_value record_value field_of or_text display_text lookup
  tool_action_event k start a previous = some (
      tool
        (record {
          tool_call_id = k;
          title =
              or_text (string_value (lookup "displayName" a)) (string_value (lookup "toolName" a));
          summary = some (display_text (lookup "intention" a));
          detail = display_text (lookup "intention" a);
        })
        "streaming")
  tool_action_event k delta a previous = some (
      tool
        (record {
          tool_call_id = k;
          title = title_of previous;
          summary = some (summary_of previous);
          detail = detail_of previous <> string_value (lookup "content" a);
        })
        "streaming")
  tool_action_event k ready a previous =
      let input = string_value (lookup "toolInput" a) in
      let detail =
        texts.tool_invocation_detail
          (input ∷ display_text (lookup "invocationMessage" a) ∷ detail_of previous ∷ []) in
      let summary =
        or_text (texts.tool_call_summary (title_of previous) input) (summary_of previous) in
      if is_text (lookup "confirmed" a)
      then some (
          tool
            (record {
              tool_call_id = k;
              title = title_of previous;
              summary = some summary;
              detail = detail;
            })
            "running")
      else some (
          approval
            (record {
              tool_call_id = k;
              title = or_text (display_text (lookup "confirmationTitle" a)) (title_of previous);
              summary = some summary;
              detail = detail;
            })
            channel pending)
  tool_action_event k confirmed a previous = some (
      approval
        (record {
          tool_call_id = k;
          title = title_of previous;
          summary = some (summary_of previous);
          detail = detail_of previous;
        })
        channel (if is_true (lookup "approved" a) then approved else denied))
  tool_action_event k complete a previous =
      let result = record_value (lookup "result" a) in
      some (
        tool
          (record {
            tool_call_id = k;
            title = title_of previous;
            summary = some (summary_of previous);
            detail = or_text (texts.tool_result_detail result) (detail_of previous);
          })
          (if is_false (field_of "success" result) then "failed" else "completed"))
  tool_action_event k content_changed a previous = some (
      tool
        (record {
          tool_call_id = k;
          title = title_of previous;
          summary = some (summary_of previous);
          detail = texts.stringify (lookup "content" a);
        })
        "running")
  tool_action_event k other a previous = none

  abbrev pub upserted : String → Option ChatEvent → List ChatEvent → List ChatEvent
  upserted k none es = es
  upserted k (some e) es = upsert_tool_event k e es

  unfoldable pub project_tool_action : ToolAction → Fields → List ChatEvent → List ChatEvent
  unfolding string_value lookup tool_action_event upsert_tool_event find
  project_tool_action kind a es =
      let k = string_value (lookup "toolCallId" a) in
      if k == "" then es else upserted k (tool_action_event k kind a (find (is_call k) es)) es

  shown : Option ChatEvent → Option String
  shown none = none
  shown (some e) = tool_call_id e

  tool_action_event-id :
      (k : String) (kind : ToolAction) (a : Fields) (p : Option ChatEvent) (e : ChatEvent)
      → tool_action_event k kind a p ≡ some e
      → tool_call_id e ≡ some k
  unfolding tool_action_event shown
  tool_action_event-id k start a p e h = sym (ap shown h)
  tool_action_event-id k delta a p e h = sym (ap shown h)
  tool_action_event-id k ready a p e h = ground arith
  tool_action_event-id k confirmed a p e h = sym (ap shown h)
  tool_action_event-id k complete a p e h = sym (ap shown h)
  tool_action_event-id k content_changed a p e h = sym (ap shown h)
  tool_action_event-id k other a p e h = cc

-- The events of one call, and the events that belong to another call or to none.
find-upsert_tool_event :
    (k j : String) (e : ChatEvent) (es : List ChatEvent)
    → tool_call_id e ≡ some k
    → find (is_call j) (upsert_tool_event k e es) ≡ (if k == j then some e else find (is_call j) es)
unfolding find upsert_tool_event replace_or_push
find-upsert_tool_event k j e [] h = ground (arith, h, eq_iff k j)
find-upsert_tool_event k j e (x ∷ es) h = elim (Option-cases (tool_call_id x)) [
  | inl no_call ↦ ground (arith, no_call, h, find-upsert_tool_event k j e es h)
  | inr (i, call) ↦
      ground (arith, call, h, eq_iff i k, eq_iff i j, eq_iff k j, find-upsert_tool_event k j e es h)
]

keep-upsert_tool_event :
    (k : String) (e : ChatEvent) (es : List ChatEvent)
    → tool_call_id e ≡ some k
    → keep (λ x. not (is_call k x)) (upsert_tool_event k e es) ≡ keep (λ x. not (is_call k x)) es
unfolding keep upsert_tool_event replace_or_push
keep-upsert_tool_event k e [] h = ground (arith, h, eq_refl k)
keep-upsert_tool_event k e (x ∷ es) h =
    ground (arith, h, eq_refl k, keep-upsert_tool_event k e es h)

length-upsert_tool_event :
    (k : String) (e : ChatEvent) (es : List ChatEvent)
    → tool_call_id e ≡ some k
    → length (keep (is_call k) es) ≤ 1
    → length (keep (is_call k) (upsert_tool_event k e es)) ≡ 1
unfolding keep upsert_tool_event replace_or_push
length-upsert_tool_event k e [] h n = ground (arith, h, eq_refl k)
length-upsert_tool_event k e (x ∷ es) h n =
    ground (arith, h, eq_refl k, length-upsert_tool_event k e es h)

module _ (texts : Texts) (channel : String) where
  -- An action for the call `k` of which the action makes an event, with a name that is not empty
  -- and at most one event so far: afterwards there is one event of `k`, the one that the action
  -- makes of the event before; messages, notices and the events of all other calls are left as they
  -- are, in their order.
  pub project_tool_action_lem :
      (kind : ToolAction) (a : Fields) (es : List ChatEvent) (k j : String) (e : ChatEvent)
      → string_value (lookup "toolCallId" a) ≡ k
      → (k == "") ≡ false
      → length (keep (is_call k) es) ≤ 1
      → tool_action_event texts channel k kind a (find (is_call k) es) ≡ some e
      → (find (is_call j) (project_tool_action texts channel kind a es)
          ≡ (if k == j then some e else find (is_call j) es))
        × (length (keep (is_call k) (project_tool_action texts channel kind a es)) ≡ 1)
        × (keep (λ x. not (is_call k x)) (project_tool_action texts channel kind a es)
            ≡ keep (λ x. not (is_call k x)) es)
  unfolding project_tool_action
  project_tool_action_lem kind a es k j e i n one h =
      rw (i, n, h)
        (
          find-upsert_tool_event k j e es id,
          length-upsert_tool_event k e es id one,
          keep-upsert_tool_event k e es id,
        )
    where
      id : tool_call_id e ≡ some k
      id = tool_action_event-id texts channel k kind a (find (is_call k) es) e h
