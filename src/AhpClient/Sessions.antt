-- ===== src/AhpClient/Sessions.antt =====
-- packages/workbench/src/providers/ahp/ahp-client.ts: sessions and their chats. A new UUID and the time are
-- arguments (`resource` of `create_session`, `turn_id`, `started_at`).
use Prim.Native.Char.{code}
use Prim.Native.String.{[] as []ˢ, ◌∷◌ as ◌∷ˢ◌}
use zaw.Base.{
  String, Bool, true, false, not, List, [], ◌∷◌, Option, none, some, nat_eq, ◌||◌, ◌==◌,
  if◌then◌else◌,
}
use zaw.Base.Dict.{put}
use zaw.Json.{
  Json, text, null, array, object, Elements, finish, element, Fields, end, entry, lookup, elements,
}
use zaw.AhpClient.{AhpClient, AgentHostAgent, emit_action, dispatch}
use zaw.AhpClient.Operations.{
  Op, returns, throws, ask, change, current, dispatches, emits, ◌>>=◌, ◌>>◌,
}
use zaw.AhpClient.Values.{truthy, text_or, object_value, property}
use zaw.AhpClient.Messages.{seq_or_zero, read_root_state}

-- `...(given ? { k: v } : {})`
abbrev pub entry_if : Bool → String → Json → Fields → Fields
entry_if true k v fs = entry k v fs
entry_if false k v fs = fs

abbrev pub given : String → Bool
given s = not (s == "")

abbrev pub has_elements : Elements → Bool
has_elements finish = false
has_elements (element v vs) = true

abbrev pub has_entries : Fields → Bool
has_entries end = false
has_entries (entry k v fs) = true

abbrev pub field : String → Json → Json
field k v = object (entry k v end)

abbrev pub channel_of : String → Json
channel_of r = field "channel" (text r)

-- Reading a property of `undefined` or `null` throws.
abbrev pub member : String → Option Json → Op (Option Json)
unfolding property
member k none = throws "TypeError"
member k (some null) = throws "TypeError"
member k v = returns (property k v)

abbrev pub first_of : List Json → Option Json
first_of [] = none
first_of (v ∷ vs) = some v

abbrev pub has_brace : String → Bool
has_brace []ˢ = false
has_brace (c ∷ˢ s) = nat_eq (code c) b'{' || has_brace s

abbrev pub put_template : String → Option Json → AhpClient → AhpClient
unfolding put
put_template resource (some (text template)) c =
    if has_brace template
    then c
    else record c { session_changesets = put resource template c.session_changesets }
put_template resource _ c = c

unfoldable pub put_changesets : String → Option Json → AhpClient → AhpClient
unfolding put elements object_value lookup
put_changesets resource (some (array vs)) c =
    put_template resource (lookup "uriTemplate" (object_value (first_of (elements vs)))) c
put_changesets resource _ c = c

abbrev pub put_chat : String → String → AhpClient → AhpClient
unfolding put
put_chat resource chat c = record c { session_chats = put resource chat c.session_chats }

abbrev pub chat_snapshot : String → Json → Option Json → Json
chat_snapshot chat state from_seq = object (
    entry "channel" (text chat) (
      entry "action" (object (entry "type" (text "chat/snapshot") (entry "state" state end)))
        (entry "serverSeq" (seq_or_zero from_seq) end)))

abbrev pub emit_snapshot : String → Option Json → Option Json → Op Unit
unfolding emit_action
emit_snapshot chat none from_seq = returns tt
emit_snapshot chat (some state) from_seq =
    if truthy (some state) then emits (chat_snapshot chat state from_seq) else returns tt

abbrev pub subscribe_chat : String → String → Option Json → Op String
unfolding property put_changesets emit_action
subscribe_chat resource chat changesets = do
  change (put_chat resource chat)
  change (put_changesets resource changesets)
  result ← ask "subscribe" (channel_of chat)
  snapshot ← member "snapshot" result
  emit_snapshot chat (property "state" snapshot) (property "fromSeq" snapshot)
  returns chat

-- `subscribeSession`
unfoldable pub subscribe_session : String → Op String
unfolding property put_changesets emit_action
subscribe_session resource = do
  result ← ask "subscribe" (channel_of resource)
  snapshot ← member "snapshot" result
  let chat = text_or (property "defaultChat" (property "state" snapshot)) ""
  if chat == ""
      then throws "Agent Host did not provide a default Chat channel"
      else subscribe_chat resource chat (property "changesets" (property "state" snapshot))

abbrev pub initialize_params : String → Json
initialize_params client_id = object (
    entry "channel" (text "ahp-root://") (
      entry "protocolVersions" (array (element (text "0.6.0") finish)) (
        entry "clientId" (text client_id)
          (entry "initialSubscriptions" (array (element (text "ahp-root://") finish)) end))))

abbrev pub snapshots_of : Option Json → List Json
unfolding elements
snapshots_of (some (array vs)) = elements vs
snapshots_of _ = []

-- `connect` once the socket is open.
unfoldable pub connect : Op Unit
unfolding property read_root_state
connect = do
  c ← current
  initialized ← ask "initialize" (initialize_params c.client_id)
  directory ← member "defaultDirectory" initialized
  change λ c. record c { default_directory = text_or directory "" }
  change (read_root_state (snapshots_of (property "snapshots" initialized)))

unfoldable pub create_session : String → String → String → Op String
unfolding subscribe_session dispatch
create_session resource title provider = do
  ask "createSession" (
      object (
        entry "channel" (text resource) (entry_if (given provider) "provider" (text provider) end)))
  chat ← subscribe_session resource
  if given title
      then dispatches resource
          (object (entry "type" (text "session/titleChanged") (entry "title" (text title) end)))
      else returns tt
  change (put_chat resource chat)
  returns resource

unfoldable pub list_agents : AhpClient → List AgentHostAgent
list_agents c = c.agents

unfoldable pub list_sessions : Op (Option Json)
unfolding property
list_sessions = do result ← ask "listSessions" (channel_of "ahp-root://"); member "items" result
