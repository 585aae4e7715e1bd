-- ===== src/AhpClient/Tests.antt =====
-- Runs of the client, and the theorems at concrete inputs.
use zaw.Base.{◌≡◌, refl, String, false, List, [], ◌∷◌, none, some, map, keep, any, All}
use zaw.Base.Bags.{count}
use zaw.Base.Dict.{get, put}
use zaw.Json.{
  Json, text, numeral, null, array, object, Elements, finish, element, end, entry, lookup, elements,
}
use zaw.AhpClient.{
  AhpClient, Answer, resolved, fresh_client, request, dispatch, settle, emit_action,
}
use zaw.AhpClient.Operations.{done, failed, run, converse, resume}
use zaw.AhpClient.Values.{property, object_value}
use zaw.AhpClient.Messages.{receive, replace_terminals, listed_terminals, put_listed}
use zaw.AhpClient.Sessions.{subscribe_session, put_changesets}
use zaw.AhpClient.Chats.{AgentMessage, prompt_session, chat_for, chat_or_subscribe, to_ahp_message}
use zaw.AhpClient.Resources.{changeset_file}
use zaw.AhpClient.Requests.{
  Event, requests, dispatches, settles, closes, step, steps, IsLedger, answered, is_id,
  steps-IsLedger,
}
use zaw.AhpClient.Answering.{closes-answered}
use zaw.AhpClient.Outputs.{
  ActionMessage, IsPlain, HasGrown, payload_of, piece_for, pieces_for, receive_all, receive_all_lem,
}

abbrev history : List Event
history =
    requests "initialize" null
    ∷ requests "listSessions" null
    ∷ dispatches "a" null
    ∷ settles 1 (resolved (some null))
    ∷ settles 1 (resolved none)
    ∷ settles 7 (resolved none)
    ∷ []

abbrev message : AgentMessage
message = record {
  text = "hi";
  agent = "agent:x";
  mode = "plan";
  approval_mode = "";
  attachments = finish;
  model = "m";
  reasoning_effort = "";
}

message_text :
    to_ahp_message message
    ≡ object (
        entry "text" (text "hi") (
          entry "origin" (object (entry "kind" (text "user") end)) (
            entry "model" (object (entry "id" (text "m") end)) (
              entry "_meta"
                (object (entry "zaw/agentMode" (text "plan") end))
                (entry "agent" (object (entry "uri" (text "agent:x") end)) end)))))
unfolding to_ahp_message
message_text = refl

-- The answers of a host that opens a chat, and of one that has none to open.
abbrev session_answer : String → Answer
session_answer chat = resolved (
    some (
      object (
        entry "snapshot" (object (entry "state" (object (entry "defaultChat" (text chat) end)) end))
          end)))

abbrev chat_answer : Answer
chat_answer = resolved (some (object (entry "snapshot" (object end) end)))

prompt_new :
    (converse
      (session_answer "c" ∷ chat_answer ∷ [])
      (run (prompt_session "t" "now" "s" message) (fresh_client "id"))).1
    ≡ done tt
unfolding prompt_session chat_for chat_or_subscribe subscribe_session put_changesets run converse
    resume request dispatch emit_action settle property lookup any keep get put
prompt_new = refl

prompt_none :
    (converse
      (session_answer "" ∷ [])
      (run (prompt_session "t" "now" "s" message) (fresh_client "id"))).1
    ≡ failed "Agent Host did not provide a default Chat channel"
unfolding prompt_session chat_for chat_or_subscribe subscribe_session run converse resume request
    settle property lookup any keep get put
prompt_none = refl

abbrev with_terminal : AhpClient
with_terminal = record (fresh_client "id") {
  terminals = ("t", record { resource = "t"; title = "T"; output = "a" }) ∷ [];
}

abbrev listing : Elements
listing =
    element (object (entry "resource" (text "t") (entry "title" (text "New") end)))
      (element (object (entry "resource" (text "u") end)) (element null finish))

relisted :
    (replace_terminals (some (array listing)) with_terminal).terminals
    ≡ ("t", record { resource = "t"; title = "New"; output = "a" })
      ∷ ("u", record { resource = "u"; title = "Terminal"; output = "" })
      ∷ []
unfolding replace_terminals listed_terminals put_listed elements lookup object_value get put
relisted = refl

abbrev response : Json
response = object (entry "id" (numeral "12") (entry "result" (text "ok") end))

response_settles :
    (receive response (record (fresh_client "id") { pending = 3 ∷ 12 ∷ [] })).0.answers
    ≡ (12, resolved (some (text "ok"))) ∷ []
unfolding receive property lookup settle any keep
response_settles = refl

notice :
    (receive
      (object (entry "method" (text "root/x") (entry "params" (object (entry "a" null end)) end)))
      (fresh_client "id")).0.emitted
    ≡ object (
        entry "channel" (text "ahp-root://") (
          entry "action"
            (object (entry "type" (text "root/x") (entry "a" null end)))
            (entry "serverSeq" (numeral "0") end)))
      ∷ []
unfolding receive property lookup emit_action object_value
notice = refl

removed_file :
    changeset_file
      (λ v. "json")
      (object (
        entry "id" (text "f") (
          entry "edit"
            (object
              (entry "before" (object (entry "uri" (text "file:f") end)) (entry "diff" null end)))
            end)))
    ≡ some (record {
      diff = "";
      id = "f";
      path = "f";
      resource = "file:f";
      reviewed = false;
      status = "D";
    })
unfolding changeset_file lookup object_value
removed_file = refl

steps-IsLedger_example : IsLedger (steps history (fresh_client "id"))
steps-IsLedger_example = steps-IsLedger "id" history

closes-answered_example :
    count (is_id 2) (
      answered (
        steps
          (requests "late" null ∷ settles 2 (resolved none) ∷ [])
          (step closes (steps history (fresh_client "id")))))
    ≡ 1
unfolding steps step request dispatch settle any keep
closes-answered_example =
    closes-answered "id" history (requests "late" null ∷ settles 2 (resolved none) ∷ []) 2 refl

-- A message as the host sends it.
abbrev terminal_message : String → String → String → ActionMessage
terminal_message seq r piece =
    let action = entry "type" (text "terminal/data") (entry "data" (text piece) end) in
    let params =
      entry "channel" (text r)
        (entry "action" (object action) (entry "serverSeq" (numeral seq) end)) in
    record {
      payload =
          entry "jsonrpc" (text "2.0")
            (entry "method" (text "action") (entry "params" (object params) end));
      params = params;
      action = action;
    }

abbrev three : List ActionMessage
three =
    terminal_message "7" "t" "b" ∷ terminal_message "8" "u" "x" ∷ terminal_message "9" "t" "c" ∷ []

three-ArePlain : All IsPlain three
unfolding lookup
three-ArePlain = (plain, (plain, (plain, tt)))
  where
    plain : {seq r piece : String} → IsPlain (terminal_message seq r piece)
    plain = record {
      method_is = refl;
      params_are = refl;
      action_is = refl;
      agents_stay = refl;
      terminals_stay = refl;
      title_stays = refl;
    }

three_test : pieces_for "t" three ≡ "bc"
unfolding pieces_for piece_for lookup
three_test = refl

receive_all_lem_example :
    HasGrown three with_terminal (receive_all (map payload_of three) with_terminal)
receive_all_lem_example = receive_all_lem three with_terminal three-ArePlain
