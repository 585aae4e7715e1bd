-- ===== src/AhpClient/Messages.antt =====
-- packages/workbench/src/providers/ahp/ahp-client.ts: `receive` and what it calls. The message is given
-- after `JSON.parse`; a text that does not parse throws and changes nothing.
use zaw.Base.{
  ℕ, String, ◌<>◌, Bool, true, false, List, [], ◌∷◌, Option, none, some, ◌==◌, ◌&&◌, if◌then◌else◌,
}
use zaw.Base.Dict.{get, put}
use zaw.Json.{
  Json, text, numeral, null, array, object, Fields, end, entry, lookup, elements, string_value,
}
use zaw.AhpClient.{AhpClient, AgentTerminal, Answer, resolved, rejected, settle, emit_action}
use zaw.AhpClient.Values.{truthy, text_or, object_value, property, natural, agents_of}

unfoldable pub replace_agents : Option Json → AhpClient → AhpClient
unfolding elements lookup object_value
replace_agents (some (array vs)) c = record c { agents = agents_of (elements vs) }
replace_agents _ c = record c { agents = [] }

abbrev pub output_of : Option AgentTerminal → String
output_of none = ""
output_of (some t) = t.output

unfoldable pub put_listed :
    List (String × AgentTerminal)
    → Fields
    → Option Json
    → List (String × AgentTerminal)
    → List (String × AgentTerminal)
unfolding get put lookup
put_listed old item (some (text resource)) next =
    put resource
      (record {
        resource = resource;
        title = text_or (lookup "title" item) "Terminal";
        output = output_of (get resource old);
      })
      next
put_listed old item _ next = next

-- The loop of `replaceTerminals`; `old` is the map that it replaces.
unfoldable pub listed_terminals :
    List (String × AgentTerminal)
    → List Json
    → List (String × AgentTerminal)
    → List (String × AgentTerminal)
unfolding put_listed lookup object_value
listed_terminals old [] next = next
listed_terminals old (v ∷ vs) next =
    listed_terminals old vs
      (put_listed old (object_value (some v)) (lookup "resource" (object_value (some v))) next)

unfoldable pub replace_terminals : Option Json → AhpClient → AhpClient
unfolding elements listed_terminals
replace_terminals (some (array vs)) c = record c {
  terminals = listed_terminals c.terminals (elements vs) [];
}
replace_terminals _ c = c

-- `readRootState`: the agents and the terminals of the snapshots of the root.
unfoldable pub read_root_state : List Json → AhpClient → AhpClient
unfolding object_value lookup string_value property replace_agents replace_terminals
read_root_state [] c = c
read_root_state (v ∷ vs) c =
    let snapshot = object_value (some v) in
    let state = lookup "state" snapshot in
    read_root_state vs (
      if text_or (lookup "resource" snapshot) "" == "ahp-root://"
      then replace_terminals (property "terminals" state)
          (replace_agents (property "agents" state) c)
      else c)

abbrev pub with_output : String → Option Json → AgentTerminal → AgentTerminal
with_output type (some (text data_text)) t =
    if type == "terminal/data" then record t { output = t.output <> data_text } else t
with_output type _ t = t

abbrev pub with_title : String → Option Json → AgentTerminal → AgentTerminal
with_title type (some (text title)) t =
    if type == "terminal/titleChanged" then record t { title = title } else t
with_title type _ t = t

-- A terminal that is known is changed in place.
unfoldable pub change_terminal :
    String → Option AgentTerminal → String → Option Json → AhpClient → AhpClient
unfolding put property
change_terminal channel none type action c = c
change_terminal channel (some t) type action c = record c {
  terminals =
      put channel
        (with_title type (property "title" action) (with_output type (property "data" action) t))
        c.terminals;
}

unfoldable pub terminal_of : Option Json → List (String × AgentTerminal) → Option AgentTerminal
unfolding get
terminal_of (some (text channel)) ts = get channel ts
terminal_of _ ts = none

unfoldable pub apply_terminal_action : Option Json → Option Json → AhpClient → AhpClient
unfolding property get put replace_agents replace_terminals change_terminal terminal_of
apply_terminal_action channel action c =
    let type = text_or (property "type" action) "" in
    if type == "root/agentsChanged"
    then replace_agents (property "agents" action) c
    else if type == "root/terminalsChanged"
    then replace_terminals (property "terminals" action) c
    else change_terminal (text_or channel "") (terminal_of channel c.terminals) type action c

-- The action of an envelope that has none is `undefined` or `null`: reading its type throws.
abbrev pub receive_action : Json → Option Json → AhpClient → AhpClient × Bool
unfolding property apply_terminal_action emit_action
receive_action params none c = (c, true)
receive_action params (some null) c = (c, true)
receive_action params action c =
    (emit_action params (apply_terminal_action (property "channel" (some params)) action c), false)

abbrev pub seq_or_zero : Option Json → Json
seq_or_zero (some (numeral n)) = numeral n
seq_or_zero _ = numeral "0"

-- `{ type: method, ...params }`: a type among the parameters is the one that counts.
abbrev pub notification : Json → Json → Json
unfolding property object_value
notification method params = object (
    entry "channel" (text (text_or (property "channel" (some params)) "ahp-root://")) (
      entry "action" (object (entry "type" method (object_value (some params))))
        (entry "serverSeq" (seq_or_zero (property "serverSeq" (some params))) end)))

abbrev pub answer_of : Option Json → Option Json → Answer
unfolding property
answer_of error result =
    if truthy error then rejected (text_or (property "message" error) "") else resolved result

abbrev pub receive_answer : Option ℕ → Answer → AhpClient → AhpClient
unfolding settle
receive_answer none a c = c
receive_answer (some id) a c = settle id a c

abbrev pub is_action : Option Json → Bool
is_action (some (text m)) = m == "action"
is_action _ = false

-- `payload.method && payload.params`
abbrev pub both_given : Option Json → Option Json → Option (Json × Json)
both_given (some m) (some p) = if truthy (some m) && truthy (some p) then some (m, p) else none
both_given _ _ = none

abbrev pub receive_call : Option (Json × Json) → Option Json → AhpClient → AhpClient × Bool
unfolding property settle emit_action apply_terminal_action
receive_call none payload c = (
  receive_answer (natural (property "id" payload))
      (answer_of (property "error" payload) (property "result" payload)) c,
  false,
)
receive_call (some (m, p)) payload c =
    if is_action (some m)
    then receive_action p (property "action" (some p)) c
    else (emit_action (notification m p) c, false)

-- The flag says that the call throws.
unfoldable pub receive : Json → AhpClient → AhpClient × Bool
unfolding property settle emit_action apply_terminal_action
receive null c = (c, true)
receive payload c =
    receive_call (both_given (property "method" (some payload)) (property "params" (some payload)))
      (some payload) c
