-- ===== src/Workspace/Isolated.antt =====
-- packages/workbench/src/contrib/workspace/workspace-resource-service.ts: workspaces do not touch each other.
use zaw.Base.{
  ℕ, String, ◌≡◌, refl, ◌∙◌, Bool, true, false, List, [], ◌∷◌, Option, none, some, ◌==◌,
  if◌then◌else◌, All,
}
use zaw.Base.Dict.{get, put, get-put}
use zaw.Workspace.Resources.{
  ResourceService, WorkspaceChange, Entry, Answer, loaded, refused, begin_load, accept, end_load,
  is_generation, begin_directory, end_directory, review_target, review_change, target_of,
  replace_changes, root_key, directory_key,
}

pub data Event : Type 0 where
  begins : String → Event
  ends : (String → String) → String → ℕ → Answer → Event
  begins_directory : String → String → Event
  ends_directory : (String → String) → String → String → ℕ → List Entry → Event
  reviews : String → String → Event
  replaces : String → String → List WorkspaceChange → Event

unfoldable pub step : Event → ResourceService → ResourceService
unfolding begin_load end_load begin_directory end_directory review_change replace_changes
step (begins w) s = begin_load w s
step (ends uri_of w n a) s = end_load uri_of w n a s
step (begins_directory w uri) s = begin_directory w uri s
step (ends_directory uri_of w uri n es) s = end_directory uri_of w uri n es s
step (reviews w path) s = review_change (some w) path s
step (replaces w resource cs) s = replace_changes w resource cs s

unfoldable pub steps : List Event → ResourceService → ResourceService
unfolding step
steps [] s = s
steps (e ∷ es) s = steps es (step e s)

-- The workspace that an event is about.
abbrev pub workspace_of : Event → String
workspace_of (begins w) = w
workspace_of (ends uri_of w n a) = w
workspace_of (begins_directory w uri) = w
workspace_of (ends_directory uri_of w uri n es) = w
workspace_of (reviews w path) = w
workspace_of (replaces w resource cs) = w

-- What the service knows of a workspace is the same in both states.
pub record Agree (v : String) (s t : ResourceService) : Type 0 where
  pub changes : get v s.changes ≡ get v t.changes
  pub files : get v s.files ≡ get v t.files
  pub file_children : get v s.file_children ≡ get v t.file_children
  pub workspace_errors : get v s.workspace_errors ≡ get v t.workspace_errors
  pub workspace_states : get v s.workspace_states ≡ get v t.workspace_states
  pub changeset_resources : get v s.changeset_resources ≡ get v t.changeset_resources

same : (v : String) (s : ResourceService) → Agree v s s
same v s = record {
  changes = refl;
  files = refl;
  file_children = refl;
  workspace_errors = refl;
  workspace_states = refl;
  changeset_resources = refl;
}

other {ℓ} :
    {V : Type ℓ} (w v : String) (x : V) (m : List (String × V))
    → (w == v) ≡ false
    → get v (put w x m) ≡ get v m
other w v x m h = get-put w v x m ∙ rw h refl

choice-Agree :
    (v : String) (b : Bool) (s t u : ResourceService)
    → Agree v s u
    → Agree v t u
    → Agree v (if b then s else t) u
choice-Agree v true s t u h k = h
choice-Agree v false s t u h k = k

accept-Agree :
    (v : String) (uri_of : String → String) (w : String) (a : Answer) (s : ResourceService)
    → (w == v) ≡ false
    → Agree v (accept uri_of w a s) s
unfolding accept
accept-Agree v uri_of w (loaded cs r es) s h = record {
  changes = other w v cs s.changes h;
  files = other w v _ s.files h;
  file_children = other w v _ s.file_children h;
  workspace_errors = refl;
  workspace_states = other w v _ s.workspace_states h;
  changeset_resources = other w v r s.changeset_resources h;
}
accept-Agree v uri_of w (refused m) s h = record {
  changes = refl;
  files = refl;
  file_children = refl;
  workspace_errors = other w v m s.workspace_errors h;
  workspace_states = other w v _ s.workspace_states h;
  changeset_resources = refl;
}

review-Agree :
    (v w path : String) (o : Option (String × WorkspaceChange)) (s : ResourceService)
    → (w == v) ≡ false
    → Agree v (review_target w path o s) s
unfolding review_target
review-Agree v w path none s h = same v s
review-Agree v w path (some t) s h = record {
  changes = other w v _ s.changes h;
  files = refl;
  file_children = refl;
  workspace_errors = refl;
  workspace_states = refl;
  changeset_resources = refl;
}

step-Agree :
    (v : String) (e : Event) (s : ResourceService)
    → (workspace_of e == v) ≡ false
    → Agree v (step e s) s
unfolding step begin_load end_load begin_directory end_directory review_change replace_changes
step-Agree v (begins w) s h = record {
  changes = refl;
  files = refl;
  file_children = refl;
  workspace_errors = other w v _ s.workspace_errors h;
  workspace_states = other w v _ s.workspace_states h;
  changeset_resources = refl;
}
step-Agree v (ends uri_of w n a) s h =
    choice-Agree v (is_generation n (get (root_key w) s.generations)) (accept uri_of w a s) s s
      (accept-Agree v uri_of w a s h) (same v s)
step-Agree v (begins_directory w uri) s h = record {
  changes = refl;
  files = refl;
  file_children = refl;
  workspace_errors = refl;
  workspace_states = refl;
  changeset_resources = refl;
}
step-Agree v (ends_directory uri_of w uri n es) s h =
    choice-Agree v (is_generation n (get (directory_key w uri) s.generations)) _ s s
      (record {
        changes = refl;
        files = refl;
        file_children = other w v _ s.file_children h;
        workspace_errors = refl;
        workspace_states = refl;
        changeset_resources = refl;
      })
      (same v s)
step-Agree v (reviews w path) s h = review-Agree v w path (target_of w path s) s h
step-Agree v (replaces w r cs) s h = record {
  changes = other w v cs s.changes h;
  files = refl;
  file_children = refl;
  workspace_errors = refl;
  workspace_states = refl;
  changeset_resources = other w v r s.changeset_resources h;
}

trans-Agree : (v : String) (s t u : ResourceService) → Agree v s t → Agree v t u → Agree v s u
trans-Agree v s t u h k = record {
  changes = h.changes ∙ k.changes;
  files = h.files ∙ k.files;
  file_children = h.file_children ∙ k.file_children;
  workspace_errors = h.workspace_errors ∙ k.workspace_errors;
  workspace_states = h.workspace_states ∙ k.workspace_states;
  changeset_resources = h.changeset_resources ∙ k.changeset_resources;
}

-- Whatever is loaded, opened, reviewed or replaced in other workspaces, and whichever answers come late, a
-- workspace's changes, files, directories, errors and loading state stay as they were.
pub steps-Agree :
    (v : String) (es : List Event) (s : ResourceService)
    → All (λ e. (workspace_of e == v) ≡ false) es
    → Agree v (steps es s) s
unfolding steps
steps-Agree v [] s h = same v s
steps-Agree v (e ∷ es) s h =
    trans-Agree v (steps es (step e s)) (step e s) s (steps-Agree v es (step e s) h.1)
      (step-Agree v e s h.0)
