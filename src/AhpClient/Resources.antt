-- ===== src/AhpClient/Resources.antt =====
-- packages/workbench/src/providers/ahp/ahp-client.ts: terminals, files and change sets. `stringify` is
-- `JSON.stringify` with two spaces; an array is read as an object without properties.
use zaw.Base.{String, Bool, false, List, [], ◌∷◌, Option, none, some, ◌==◌, if◌then◌else◌}
use zaw.Base.Dict.{get, put, has, values}
use zaw.Json.{
  Json, text, flag, numeral, array, object, Elements, finish, element, Fields, end, entry, lookup,
  elements, or_text,
}
use zaw.AhpClient.{AhpClient, AgentTerminal, dispatch}
use zaw.AhpClient.Operations.{Op, returns, ask, change, current, dispatches, ◌>>=◌, ◌>>◌}
use zaw.AhpClient.Values.{
  truthy, text_or, object_value, property, terminal_output, terminal_from_snapshot,
}
use zaw.AhpClient.Sessions.{channel_of, member, subscribe_session}

abbrev pub put_terminal : String → AgentTerminal → AhpClient → AhpClient
unfolding put
put_terminal resource t c = record c { terminals = put resource t c.terminals }

abbrev pub client_claim : AhpClient → Json
client_claim c = object (entry "kind" (text "client") (entry "clientId" (text c.client_id) end))

abbrev pub keep_output : AgentTerminal → AgentTerminal → AgentTerminal
unfolding or_text
keep_output created t = record t { output = or_text t.output created.output }

unfoldable pub create_terminal : String → String → Op AgentTerminal
unfolding property terminal_from_snapshot put or_text
create_terminal resource name = do
  c ← current
  result ← ask "createTerminal" (
      object (
        entry "channel" (text resource) (
          entry "claim" (client_claim c) (
            entry "name" (text name)
              (entry "cols" (numeral "100") (entry "rows" (numeral "24") end))))))
  snapshot ← member "snapshot" result
  let created = terminal_from_snapshot snapshot resource name
  change (put_terminal resource created)
  subscribed ← ask "subscribe" (channel_of resource)
  again ← member "snapshot" subscribed
  let terminal = keep_output created (terminal_from_snapshot again resource created.title)
  change (put_terminal resource terminal)
  returns terminal

unfoldable pub list_terminals : AhpClient → List AgentTerminal
list_terminals c = values c.terminals

abbrev pub title_or : Option AgentTerminal → String
title_or none = "Terminal"
title_or (some t) = t.title

unfoldable pub attach_terminal : String → Op AgentTerminal
unfolding property terminal_output get put dispatch
attach_terminal resource = do
  result ← ask "subscribe" (channel_of resource)
  snapshot ← member "snapshot" result
  c ← current
  let state = property "state" snapshot
  let terminal : AgentTerminal = record {
    resource = resource;
    title = text_or (property "title" state) (title_or (get resource c.terminals));
    output = terminal_output (property "content" state);
  }
  change (put_terminal resource terminal)
  dispatches resource
      (object (entry "type" (text "terminal/claimed") (entry "claim" (client_claim c) end)))
  returns terminal

unfoldable pub terminal_input : String → String → AhpClient → AhpClient
unfolding dispatch
terminal_input resource input c =
    dispatch resource
      (object (entry "type" (text "terminal/input") (entry "data" (text input) end))) c

-- The sizes by their texts.
unfoldable pub terminal_resize : String → String → String → AhpClient → AhpClient
unfolding dispatch
terminal_resize resource cols rows c =
    dispatch resource
      (object (
        entry "type" (text "terminal/resized")
          (entry "cols" (numeral cols) (entry "rows" (numeral rows) end))))
      c

unfoldable pub dispose_terminal : String → Op Unit
dispose_terminal resource = do ask "disposeTerminal" (channel_of resource); returns tt

unfoldable pub list_resources : Option String → Op (Option Json)
unfolding property
list_resources uri = do
  c ← current
  result ← ask "resourceList" (
      object (
        entry "channel" (text "ahp-root://")
          (entry "uri" (text (elim uri [ none ↦ c.default_directory | some u ↦ u ])) end)))
  member "entries" result

unfoldable pub read_resource : String → Op (Option Json)
unfolding property
read_resource uri = do
  result ← ask "resourceRead" (
      object (
        entry "channel" (text "ahp-root://")
          (entry "uri" (text uri) (entry "encoding" (text "utf-8") end))))
  member "data" result

pub record AgentChangesetFile : Type 0 where
  pub diff : String
  pub id : String
  pub path : String
  pub resource : String
  pub reviewed : Bool
  pub status : String

pub record AgentChangeset : Type 0 where
  pub files : List AgentChangesetFile
  pub operations : List String
  pub resource : String
  pub scope : String

abbrev pub status_of : Fields → Fields → String
status_of end after = "A"
status_of (entry k v fs) end = "D"
status_of (entry k v fs) (entry j w gs) = "M"

abbrev pub is_true : Option Json → Bool
is_true (some (flag b)) = b
is_true _ = false

abbrev pub diff_of : (Json → String) → Option Json → String
diff_of stringify none = ""
diff_of stringify (some (text s)) = s
diff_of stringify (some v) = if truthy (some v) then stringify v else ""

abbrev pub file_with :
    (Json → String) → Fields → Fields → Option Json → String → Option AgentChangesetFile
unfolding lookup object_value
file_with stringify file edit (some (text id)) resource =
    if resource == ""
    then none
    else some (record {
      diff = diff_of stringify (lookup "diff" edit);
      id = id;
      path = id;
      resource = resource;
      reviewed = is_true (lookup "reviewed" file);
      status = status_of (object_value (lookup "before" edit)) (object_value (lookup "after" edit));
    })
file_with stringify file edit _ resource = none

unfoldable pub changeset_file : (Json → String) → Json → Option AgentChangesetFile
unfolding lookup object_value
changeset_file stringify v =
    let file = object_value (some v) in
    let edit = object_value (lookup "edit" file) in
    file_with stringify file edit (lookup "id" file) (
      text_or (lookup "uri" (object_value (lookup "after" edit)))
        (text_or (lookup "uri" (object_value (lookup "before" edit))) ""))

abbrev pub files_of : (Json → String) → List Json → List AgentChangesetFile
unfolding changeset_file
files_of stringify [] = []
files_of stringify (v ∷ vs) =
    let rest = files_of stringify vs in
    elim (changeset_file stringify v) [ none ↦ rest | some f ↦ f ∷ rest ]

abbrev pub ids_of : List Json → List String
unfolding lookup object_value
ids_of [] = []
ids_of (v ∷ vs) = elim (lookup "id" (object_value (some v))) [
  | some (text id) ↦ id ∷ ids_of vs
  | _ ↦ ids_of vs
]

abbrev pub array_of : Option Json → List Json
unfolding elements
array_of (some (array vs)) = elements vs
array_of _ = []

abbrev pub no_changeset : AgentChangeset
no_changeset = record { files = []; operations = []; resource = ""; scope = "workspace" }

abbrev pub read_changeset : (Json → String) → String → Op AgentChangeset
unfolding property changeset_file
read_changeset stringify resource = do
  result ← ask "subscribe" (channel_of resource)
  snapshot ← member "snapshot" result
  let state = property "state" snapshot
  returns (record {
    files = files_of stringify (array_of (property "files" state));
    operations = ids_of (array_of (property "operations" state));
    resource = resource;
    scope = "workspace";
  })

abbrev pub subscribe_changeset : (Json → String) → Option String → Op AgentChangeset
unfolding property changeset_file
subscribe_changeset stringify none = returns no_changeset
subscribe_changeset stringify (some resource) =
    if resource == "" then returns no_changeset else read_changeset stringify resource

unfoldable pub load_changeset : (Json → String) → String → Op AgentChangeset
unfolding property changeset_file subscribe_session get
load_changeset stringify session = do
  c ← current
  if has session c.session_changesets then returns session else subscribe_session session
  d ← current
  subscribe_changeset stringify (get session d.session_changesets)

unfoldable pub invoke_changeset_operation : String → String → String → Op Unit
invoke_changeset_operation changeset operation_id resource = do
  ask "invokeChangesetOperation" (
      object (
        entry "channel" (text changeset) (
          entry "operationId" (text operation_id) (
            entry "target"
              (object (entry "kind" (text "resource") (entry "resource" (text resource) end)))
              end))))
  returns tt

abbrev pub texts : List String → Elements
texts [] = finish
texts (s ∷ ss) = element (text s) (texts ss)

unfoldable pub set_changes_reviewed : String → List String → Bool → AhpClient → AhpClient
unfolding dispatch
set_changes_reviewed changeset file_ids reviewed c =
    dispatch changeset
      (object (
        entry "type" (text "changeset/filesReviewChanged")
          (entry "files" (array (texts file_ids)) (entry "reviewed" (flag reviewed) end))))
      c
