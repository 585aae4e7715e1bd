-- ===== src/Workspace/Resources.antt =====
-- packages/workbench/src/contrib/workspace/workspace-resource-service.ts: `WorkspaceResourceService`. What waits
-- for the host is split at the wait. The attached workspace is an argument of the calls that ask for it, and
-- `uri_of` is the host's `resourceURI` with the directory that it is for.
use zaw.Base.{
  ℕ, suc, String, ◌<>◌, Bool, false, not, List, [], ◌∷◌, Option, none, some, nat_eq, ◌==◌,
  if◌then◌else◌, find, map,
}
use zaw.Base.Dict.{get, put}
use zaw.AhpClient.Resources.{AgentChangesetFile}

-- `WorkspaceChange`
abbrev pub WorkspaceChange : Type 0
WorkspaceChange = AgentChangesetFile

pub record Entry : Type 0 where
  pub name : String
  pub is_directory : Bool

pub record WorkspaceFile : Type 0 where
  pub name : String
  pub is_directory : Bool
  pub uri : String

pub data LoadState : Type 0 where
  error idle loading ready : LoadState

pub record ResourceService : Type 0 where
  pub changes : List (String × List WorkspaceChange)
  pub files : List (String × List WorkspaceFile)
  pub file_children : List (String × List (String × List WorkspaceFile))
  pub pending_revert_path : String
  pub workspace_errors : List (String × String)
  pub workspace_states : List (String × LoadState)
  pub changeset_resources : List (String × String)
  pub generations : List (String × ℕ)

abbrev pub initial : ResourceService
initial = record {
  changes = [];
  files = [];
  file_children = [];
  pending_revert_path = "";
  workspace_errors = [];
  workspace_states = [];
  changeset_resources = [];
  generations = [];
}

abbrev pub next : Option ℕ → ℕ
next none = 1
next (some n) = suc n

unfoldable pub root_key : String → String
root_key w = w <> "|root"

unfoldable pub directory_key : String → String → String
directory_key w uri = w <> ("|directory|" <> uri)

-- The generation that a load of that key gets.
abbrev pub generation_of : String → ResourceService → ℕ
unfolding get
generation_of k s = next (get k s.generations)

unfoldable pub begin_load : String → ResourceService → ResourceService
unfolding get put root_key
begin_load w s = record s {
  generations = put (root_key w) (generation_of (root_key w) s) s.generations;
  workspace_states = put w loading s.workspace_states;
  workspace_errors = put w "" s.workspace_errors;
}

-- What the host answers: the change set's files and resource with the entries, or an error's message.
pub data Answer : Type 0 where
  loaded : List WorkspaceChange → String → List Entry → Answer
  refused : String → Answer

abbrev pub file_of : (String → String) → Entry → WorkspaceFile
file_of uri_of e = record {
  name = e.name;
  is_directory = e.is_directory;
  uri = uri_of (if e.is_directory then e.name <> "/" else e.name);
}

abbrev pub or_empty {ℓ} : {A : Type ℓ} → Option (List A) → List A
or_empty none = []
or_empty (some xs) = xs

unfoldable pub accept : (String → String) → String → Answer → ResourceService → ResourceService
unfolding get put
accept uri_of w (loaded changes resource entries) s =
    let files = map (file_of uri_of) entries in
    record s {
      changes = put w changes s.changes;
      changeset_resources = put w resource s.changeset_resources;
      files = put w files s.files;
      file_children = put w (put "" files (or_empty (get w s.file_children))) s.file_children;
      workspace_states = put w ready s.workspace_states;
    }
accept uri_of w (refused message) s = record s {
  workspace_states = put w error s.workspace_states;
  workspace_errors = put w message s.workspace_errors;
}

abbrev pub is_generation : ℕ → Option ℕ → Bool
is_generation n none = false
is_generation n (some m) = nat_eq m n

-- `loadWorkspace` after its wait.
unfoldable pub end_load :
    (String → String) → String → ℕ → Answer → ResourceService → ResourceService
unfolding get root_key accept
end_load uri_of w n a s =
    if is_generation n (get (root_key w) s.generations) then accept uri_of w a s else s

unfoldable pub begin_directory : String → String → ResourceService → ResourceService
unfolding get put directory_key
begin_directory w uri s = record s {
  generations = put (directory_key w uri) (generation_of (directory_key w uri) s) s.generations;
}

unfoldable pub end_directory :
    (String → String) → String → String → ℕ → List Entry → ResourceService → ResourceService
unfolding get put directory_key
end_directory uri_of w uri n entries s =
    if is_generation n (get (directory_key w uri) s.generations)
    then record s {
      file_children =
          put w (put uri (map (file_of uri_of) entries) (or_empty (get w s.file_children)))
            s.file_children;
    }
    else s

abbrev pub change_at : String → String → ResourceService → Option WorkspaceChange
unfolding get find
change_at w path s = find (λ c. c.path == path) (or_empty (get w s.changes))

-- The preview that `openChange` opens: its name, its title and its text.
unfoldable pub open_change :
    Option String → String → ResourceService → Option (String × (String × String))
unfolding get find
open_change none path s = none
open_change (some w) path s = elim (change_at w path s) [
  | none ↦ none
  | some c ↦ some ("diff:" <> path, (path, c.diff))
]

-- A change set without a resource is none.
abbrev pub target : Option String → Option WorkspaceChange → Option (String × WorkspaceChange)
target (some resource) (some c) = if resource == "" then none else some (resource, c)
target _ _ = none

unfoldable pub target_of : String → String → ResourceService → Option (String × WorkspaceChange)
unfolding get find
target_of w path s = target (get w s.changeset_resources) (change_at w path s)

-- What `stageChange` asks the host for: the change set and the resource.
unfoldable pub stage_change : Option String → String → ResourceService → Option (String × String)
unfolding target_of
stage_change none path s = none
stage_change (some w) path s = elim (target_of w path s) [
  | none ↦ none
  | some (r, c) ↦ some (r, c.resource)
]

unfoldable pub revert_change : Option String → ResourceService → Option (String × String)
unfolding stage_change
revert_change w s =
    if s.pending_revert_path == "" then none else stage_change w s.pending_revert_path s

-- `revertChange` once the host has reverted; the refresh follows.
unfoldable pub reverted : ResourceService → ResourceService
reverted s = record s { pending_revert_path = "" }

unfoldable pub request_revert : String → ResourceService → ResourceService
request_revert path s = record s { pending_revert_path = path }

-- The change is found by its path, and is an object of the list.
unfoldable pub flip_first : String → List WorkspaceChange → List WorkspaceChange
flip_first path [] = []
flip_first path (c ∷ cs) =
    let rest = flip_first path cs in
    if c.path == path then record c { reviewed = not c.reviewed } ∷ cs else c ∷ rest

unfoldable pub review_target :
    String → String → Option (String × WorkspaceChange) → ResourceService → ResourceService
unfolding get put flip_first
review_target w path none s = s
review_target w path (some t) s = record s {
  changes = put w (flip_first path (or_empty (get w s.changes))) s.changes;
}

-- `reviewChange`; the host is told of the change that is flipped.
unfoldable pub review_change : Option String → String → ResourceService → ResourceService
unfolding target_of review_target
review_change none path s = s
review_change (some w) path s = review_target w path (target_of w path s) s

unfoldable pub replace_changes :
    String → String → List WorkspaceChange → ResourceService → ResourceService
unfolding put
replace_changes w resource changes s = record s {
  changes = put w changes s.changes;
  changeset_resources = put w resource s.changeset_resources;
}
