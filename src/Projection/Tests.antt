-- ===== src/Projection/Tests.antt =====
-- Runs of the projection, and the theorems at concrete inputs.
use Prim.Native.String.{count}
use zaw.Base.{
  ℕ, zero, suc, String, ◌<>◌, ◌≡◌, refl, sym, ap, ◌∙◌, true, false, ◌==◌, not, List, [], ◌∷◌, none,
  some, if◌then◌else◌, find, keep, length, ◌≤◌, arith,
}
use package.text.Mathlib.TextLemmas.{length-append}
use zaw.Json.{
  Json, Fields, text, flag, array, object, end, entry, finish, element, lookup, elements,
  array_value, string_value, record_value,
}
use zaw.ChatSession.{ChatEvent, message, tool, failure, Role}
use zaw.Projection.{Texts, is_call, outcome}
use zaw.Projection.Turn.{events_for_turn, agent_text, markdown_text, choice}
use zaw.Projection.Said.{agent_text-events_for_turn}
use zaw.Projection.Tools.{complete, project_tool_action, tool_action_event, project_tool_action_lem}
use zaw.ActiveSession.{SessionIdentity, same_session}
use zaw.ChatSession.{ChatSession}
use zaw.ChatSession.Service.{events, active_turn}
use zaw.Projection.Snapshot.{project_chat_snapshot}
use zaw.Projection.Replayed.{all_turns, running_id, replayed, spoken, project_chat_snapshot_lem}
use zaw.Projection.Parts.{Turns}

abbrev plain : Texts
plain = record {
  tool_invocation_detail = λ cs. "detail";
  tool_result_detail = λ r. "result";
  tool_call_summary = λ n i. "";
  stringify = λ v. "";
  is_permission = λ s. false;
}

abbrev markdown : String → String → Json
markdown id content =
    object
      (entry "kind" (text "markdown") (entry "id" (text id) (entry "content" (text content) end)))

abbrev call : Json
call = object (
    entry "kind" (text "toolCall") (
      entry "toolCall"
        (object (
          entry "toolCallId" (text "c") (
            entry "displayName" (text "Run")
              (entry "status" (text "completed") (entry "success" (flag false) end)))))
        end))

abbrev turn : Fields
turn = entry "id" (text "t") (
    entry "responseParts"
      (array (
        element (markdown "p" "He")
          (element (markdown "q" "llo") (element call (element (markdown "r" "!") finish)))))
      (entry "error" (object (entry "message" (text "late") end)) end))

events_for_turn_test :
    events_for_turn plain "ch" turn
    ≡ message (some "t:p") Role.agent "Hello"
      ∷ tool
          (record { tool_call_id = "c"; title = "Run"; summary = some ""; detail = "result" })
          "failed"
      ∷ message (some "t:r") Role.agent "!"
      ∷ failure "late"
      ∷ []
unfolding events_for_turn elements choice outcome
events_for_turn_test = refl

events_for_turn_example :
    agent_text plain "ch" (events_for_turn plain "ch" turn)
    ≡ markdown_text plain "ch" (array_value (lookup "responseParts" turn))
events_for_turn_example = agent_text-events_for_turn plain "ch" turn

abbrev done : Fields
done = entry "toolCallId" (text "c") (entry "result" (object (entry "success" (flag true) end)) end)

abbrev running : List ChatEvent
running =
    message none Role.user "go"
    ∷ tool (record { tool_call_id = "c"; title = "Run"; summary = some ""; detail = "" }) "running"
    ∷ []

abbrev completed : ChatEvent
completed =
    tool (record { tool_call_id = "c"; title = "Run"; summary = some ""; detail = "result" })
      "completed"

one_call : length (keep (is_call "c") running) ≤ 1
unfolding keep
one_call = omega arith

done_call : string_value (lookup "toolCallId" done) ≡ "c"
unfolding string_value lookup
done_call = refl

done_event :
    tool_action_event plain "ch" "c" complete done (find (is_call "c") running) ≡ some completed
unfolding tool_action_event find
done_event = refl

project_tool_action_example :
    (find (is_call "c") (project_tool_action plain "ch" complete done running)
      ≡ (if "c" == "c" then some completed else find (is_call "c") running))
    × (length (keep (is_call "c") (project_tool_action plain "ch" complete done running)) ≡ 1)
    × (keep (λ x. not (is_call "c" x)) (project_tool_action plain "ch" complete done running)
        ≡ keep (λ x. not (is_call "c" x)) running)
project_tool_action_example =
    project_tool_action_lem plain "ch" complete done running "c" "c" completed done_call refl
      one_call done_event

abbrev tally : ℕ → String
tally zero = ""
tally (suc n) = "1" <> tally n

count-tally : (n : ℕ) → count (tally n) ≡ n
count-tally zero = refl
count-tally (suc n) = omega (arith, length-append "1" (tally n), count-tally n)

tally_one : (i j : ℕ) → tally i ≡ tally j → i ≡ j
tally_one i j h = sym (count-tally i) ∙ ap count h ∙ count-tally j

abbrev idle : Turns
idle = record { active_turns = []; response_segments = [] }

abbrev session : String → SessionIdentity
session r = record { workspace_id = "w"; resource = r }

abbrev chat : ChatSession
chat = record {
  compositions = [];
  active_turns = [];
  messages = [];
  stored = [];
  current = none;
  turn_context = false;
  approval_context = false;
}

abbrev running_turn : Fields
running_turn =
    entry "id" (text "u") (entry "responseParts" (array (element (markdown "p" "More") finish)) end)

abbrev snapshot : Fields
snapshot = entry "turns" (array (element (object turn) finish)) (
    entry "activeTurn" (object running_turn)
      (entry "draft" (object (entry "text" (text "next") end)) end))

project_chat_snapshot_example :
    (events
        (session "a")
        (project_chat_snapshot plain "ch" (session "a") (some snapshot) (idle, chat)).1
      ≡ (if same_session (session "a") (session "a")
          then replayed plain "ch" (all_turns snapshot)
          else events (session "a") chat))
    × (agent_text plain "ch" (
          events
            (session "a")
            (project_chat_snapshot plain "ch" (session "a") (some snapshot) (idle, chat)).1)
        ≡ spoken plain "ch" (all_turns snapshot))
    × (active_turn
          (session "a")
          (project_chat_snapshot plain "ch" (session "a") (some snapshot) (idle, chat)).1
        ≡ running_id snapshot)
project_chat_snapshot_example =
    project_chat_snapshot_lem plain "ch" (session "a") (session "a") snapshot idle chat

snapshot_tests :
    (spoken plain "ch" (all_turns snapshot) ≡ "Hello!More") × (running_id snapshot ≡ some "u")
unfolding spoken all_turns running_id markdown_text lookup array_value record_value
snapshot_tests = (refl, refl)
