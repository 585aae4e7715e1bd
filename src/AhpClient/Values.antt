-- ===== src/AhpClient/Values.antt =====
-- packages/workbench/src/providers/ahp/ahp-client.ts: the values that the host sends, read with the tests
-- of the source. A number is the text that it prints as.
use Prim.Native.Char.{code}
use Prim.Native.String.{[] as []ˢ, ◌∷◌ as ◌∷ˢ◌}
use zaw.Base.{
  ℕ, ◌+◌, ◌*◌, ◌-◌, String, ◌<>◌, Bool, true, false, not, ◌&&◌, List, [], ◌∷◌, ◌++◌, Option, none,
  some, leb, ◌==◌, if◌then◌else◌,
}
use zaw.Json.{
  Json, text, flag, numeral, null, array, object, Fields, end, lookup, elements, record_value,
  field_of,
}
use zaw.AhpClient.{AgentTerminal, AgentHostAgent}

abbrev pub truthy : Option Json → Bool
truthy none = false
truthy (some (text s)) = not (s == "")
truthy (some (flag b)) = b
truthy (some (numeral n)) = not (n == "0")
truthy (some null) = false
truthy (some (array vs)) = true
truthy (some (object fs)) = true

-- `typeof v === "string" ? v : fallback`
abbrev pub text_or : Option Json → String → String
text_or (some (text s)) fallback = s
text_or _ fallback = fallback

unfoldable pub object_value : Option Json → Fields
object_value (some (object fs)) = fs
object_value _ = end

-- `v?.k`, for a value that may be any
unfoldable pub property : String → Option Json → Option Json
unfolding record_value field_of
property k v = field_of k (record_value v)

abbrev pub digit : ℕ → Option ℕ
digit n = if leb 48 n && leb n 57 then some (n - 48) else none

abbrev pub natural_from : ℕ → String → Option ℕ
natural_from n []ˢ = some n
natural_from n (c ∷ˢ s) = elim (digit (code c)) [
  | none ↦ none
  | some d ↦ natural_from (n * 10 + d) s
]

-- The whole number that a number is; no request has another number.
abbrev pub natural : Option Json → Option ℕ
natural (some (numeral n)) = natural_from 0 n
natural _ = none

abbrev pub part_output : Json → String
part_output v = text_or (property "output" (some v)) (text_or (property "value" (some v)) "")

abbrev pub join : List Json → String
unfolding property
join [] = ""
join (v ∷ vs) = part_output v <> join vs

unfoldable pub terminal_output : Option Json → String
unfolding property elements
terminal_output (some (array vs)) = join (elements vs)
terminal_output _ = ""

unfoldable pub terminal_from_snapshot : Option Json → String → String → AgentTerminal
unfolding property terminal_output
terminal_from_snapshot snapshot resource fallback_title =
    let state = property "state" snapshot in
    record {
      resource = text_or (property "resource" snapshot) resource;
      title = text_or (property "title" state) fallback_title;
      output = terminal_output (property "content" state);
    }

abbrev pub agent_of : Fields → Option Json → List AgentHostAgent
unfolding lookup
agent_of agent (some (text provider)) =
    record {
      description = text_or (lookup "description" agent) "";
      id = provider;
      name = text_or (lookup "displayName" agent) provider;
    }
    ∷ []
agent_of agent _ = []

abbrev pub agents_of : List Json → List AgentHostAgent
unfolding lookup object_value
agents_of [] = []
agents_of (v ∷ vs) =
    agent_of (object_value (some v)) (lookup "provider" (object_value (some v))) ++ agents_of vs
