-- ===== src/Management/Tests.antt =====
-- Runs of the management pages, and the theorems at concrete inputs.
use zaw.Base.{◌+◌, ◌≡◌, refl, true, List, [], ◌∷◌, none, some}
use zaw.Management.{ManagementService, Lists, initial, no_lists, template, loading}
use zaw.Management.Reloads.{
  loaded, refused, save_template, start_workspace, finish, begin_reload, end_reload, tail,
  saved_template,
}
use zaw.Management.Synced.{
  Event, opens, reloads, edits_template, sets_dirty, begins, finishes, begins_workspace, steps,
  IsSynced, management-IsSynced,
}
use zaw.Management.Newest.{end_all, newest, begin_reload-end_all}

abbrev one_template : Lists
one_template = record no_lists {
  templates = record { id = "t"; source_kind = "git"; rest = "" } ∷ [];
}

abbrev history : List Event
history =
    opens
    ∷ reloads
    ∷ finishes save_template 1 (loaded one_template)
    ∷ edits_template "t"
    ∷ sets_dirty true
    ∷ begins save_template
    ∷ begins_workspace start_workspace
    ∷ []

-- A template is saved; while the lists are loaded again another one is opened and changed. When the lists
-- have come its sheet is closed and its changes count as none.
abbrev edited : ManagementService
edited = record initial {
  lists = one_template;
  reload_generation = 1;
  sheet = some template;
  dirty = true;
}

edit_lost : (finish save_template 1 (loaded one_template) edited).sheet ≡ none
unfolding finish end_reload tail saved_template
edit_lost = refl

management-IsSynced_example : IsSynced (steps history initial)
management-IsSynced_example = management-IsSynced history

begin_reload-end_all_example :
    let after =
      end_all
        ((0, loaded no_lists) ∷ (1, loaded one_template) ∷ (0, refused "late") ∷ [])
        (begin_reload initial) in
    (after.lists, after.models_state)
    ≡ newest
        (initial.reload_generation + 1)
        ((0, loaded no_lists) ∷ (1, loaded one_template) ∷ (0, refused "late") ∷ [])
        (initial.lists, loading)
begin_reload-end_all_example =
    begin_reload-end_all
      ((0, loaded no_lists) ∷ (1, loaded one_template) ∷ (0, refused "late") ∷ []) initial
