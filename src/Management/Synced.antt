-- ===== src/Management/Synced.antt =====
-- packages/workbench/src/contrib/management/management-service.ts: the context keys, in every history.
use zaw.Base.{
  ℕ, String, ◌≡◌, refl, Bool, true, false, List, [], ◌∷◌, Option, none, some, ◌==◌, nat_eq,
  if◌then◌else◌, find,
}
use zaw.Management.{
  ManagementService, Template, Credential, ModelProvider, ManagementModel, open_management,
  open_workspace_create, open_build_logs, close_sheet, close, set_dirty, select_management_view,
  search_management, back_to, go_back, request_workspace_stop, initial,
}
use zaw.Management.Editing.{
  add_template, choose_template_kind, edit_found, edit_template, request_delete_template,
  add_credential, edit_found_credential, edit_credential, set_credential_kind,
  request_delete_credential, add_model_provider, edit_found_provider, edit_model_provider,
  add_model, edit_found_model, edit_model,
}
use zaw.Management.Reloads.{
  Answer, loaded, refused, Method, save_template, delete_template, save_credential,
  delete_credential, save_model_provider, save_model, delete_model_provider, delete_model,
  RuntimeMethod, start_workspace, stop_workspace, delete_workspace, begin_reload, end_reload, begin,
  tail, finish, begin_runtime, end_runtime, begin_workspace, finish_workspace, returns,
  saved_template, deleted_template, saved_credential, deleted_credential, saved_model_provider,
  saved_model,
}

-- The calls of the service and the answers it waits for, in any order.
pub data Event : Type 0 where
  opens opens_create closes closes_sheet adds_template adds_credential adds_provider : Event
  goes_back reloads reloads_runtime : Event
  opens_logs chooses_kind edits_template asks_template edits_credential sets_kind : String → Event
  asks_credential edits_provider adds_model edits_model selects searches asks_stop : String → Event
  sets_dirty : Bool → Event
  begins : Method → Event
  finishes : Method → ℕ → Answer → Event
  answers : ℕ → Answer → Event
  begins_workspace : RuntimeMethod → Event
  finishes_workspace : RuntimeMethod → ℕ → List String → Event
  answers_runtime : ℕ → List String → Event

unfoldable pub step : Event → ManagementService → ManagementService
unfolding open_management open_workspace_create open_build_logs close_sheet close add_template
    choose_template_kind edit_template request_delete_template add_credential edit_credential
    set_credential_kind request_delete_credential add_model_provider edit_model_provider add_model
    edit_model set_dirty select_management_view search_management go_back request_workspace_stop
    begin_reload end_reload begin finish begin_runtime end_runtime begin_workspace finish_workspace
step opens s = open_management s
step opens_create s = open_workspace_create s
step closes s = close s
step closes_sheet s = close_sheet s
step adds_template s = add_template s
step adds_credential s = add_credential s
step adds_provider s = add_model_provider s
step goes_back s = go_back s
step reloads s = begin_reload s
step reloads_runtime s = begin_runtime s
step (opens_logs id) s = open_build_logs id s
step (chooses_kind k) s = choose_template_kind k s
step (edits_template id) s = edit_template id s
step (asks_template id) s = request_delete_template id s
step (edits_credential id) s = edit_credential id s
step (sets_kind k) s = set_credential_kind k s
step (asks_credential id) s = request_delete_credential id s
step (edits_provider id) s = edit_model_provider id s
step (adds_model id) s = add_model id s
step (edits_model id) s = edit_model id s
step (selects id) s = select_management_view id s
step (searches q) s = search_management q s
step (asks_stop id) s = request_workspace_stop id s
step (sets_dirty d) s = set_dirty d s
step (begins m) s = begin m s
step (finishes m g a) s = finish m g a s
step (answers g a) s = end_reload g a s
step (begins_workspace m) s = begin_workspace m s
step (finishes_workspace m g ps) s = finish_workspace m g ps s
step (answers_runtime g ps) s = end_runtime g ps s

unfoldable pub steps : List Event → ManagementService → ManagementService
unfolding step
steps [] s = s
steps (e ∷ es) s = steps es (step e s)

abbrev pub IsSynced : ManagementService → Type 0
IsSynced s = (s.open_context ≡ s.is_open) × (s.dirty_context ≡ s.dirty)

either-IsSynced :
    (b : Bool) (s t : ManagementService) → IsSynced s → IsSynced t → IsSynced (if b then s else t)
either-IsSynced true s t h k = h
either-IsSynced false s t h k = k

edit_found-IsSynced :
    (o : Option Template) (s : ManagementService) → IsSynced s → IsSynced (edit_found o s)
edit_found-IsSynced none s h = h
edit_found-IsSynced (some t) s h = (refl, refl)

edit_found_credential-IsSynced :
    (o : Option Credential) (s : ManagementService)
    → IsSynced s
    → IsSynced (edit_found_credential o s)
edit_found_credential-IsSynced none s h = h
edit_found_credential-IsSynced (some t) s h = (refl, refl)

edit_found_provider-IsSynced :
    (o : Option ModelProvider) (s : ManagementService)
    → IsSynced s
    → IsSynced (edit_found_provider o s)
edit_found_provider-IsSynced none s h = h
edit_found_provider-IsSynced (some t) s h = (refl, refl)

edit_found_model-IsSynced :
    (o : Option ManagementModel) (s : ManagementService)
    → IsSynced s
    → IsSynced (edit_found_model o s)
edit_found_model-IsSynced none s h = h
edit_found_model-IsSynced (some t) s h = (refl, refl)

back_to-IsSynced : (xs : List String) (s : ManagementService) → IsSynced s → IsSynced (back_to xs s)
back_to-IsSynced [] s h = h
back_to-IsSynced (x ∷ xs) s h = (refl, refl)

set_dirty-IsSynced : (d : Bool) (s : ManagementService) → IsSynced s → IsSynced (set_dirty d s)
unfolding set_dirty
set_dirty-IsSynced true s h =
    either-IsSynced s.dirty s (record s { dirty = true; dirty_context = true }) h (h.0, refl)
set_dirty-IsSynced false s h =
    either-IsSynced s.dirty (record s { dirty = false; dirty_context = false }) s (h.0, refl) h

end_reload-IsSynced :
    (g : ℕ) (a : Answer) (s : ManagementService) → IsSynced s → IsSynced (end_reload g a s)
unfolding end_reload
end_reload-IsSynced g (loaded lists) s h =
    either-IsSynced (nat_eq g s.reload_generation) _ s (refl, refl) h
end_reload-IsSynced g (refused e) s h =
    either-IsSynced (nat_eq g s.reload_generation) _ s (refl, refl) h

tail-IsSynced : (m : Method) (s : ManagementService) → IsSynced s → IsSynced (tail m s)
unfolding tail saved_template deleted_template saved_credential deleted_credential
    saved_model_provider saved_model
tail-IsSynced save_template s h = (refl, refl)
tail-IsSynced delete_template s h = (refl, refl)
tail-IsSynced save_credential s h = (refl, refl)
tail-IsSynced delete_credential s h = (refl, refl)
tail-IsSynced save_model_provider s h = (refl, refl)
tail-IsSynced save_model s h = (refl, refl)
tail-IsSynced delete_model_provider s h = h
tail-IsSynced delete_model s h = h

begin-IsSynced : (m : Method) (s : ManagementService) → IsSynced s → IsSynced (begin m s)
unfolding begin begin_reload
begin-IsSynced save_template s h = (refl, refl)
begin-IsSynced delete_template s h = (refl, refl)
begin-IsSynced save_credential s h = (refl, refl)
begin-IsSynced delete_credential s h = (refl, refl)
begin-IsSynced save_model_provider s h = (refl, refl)
begin-IsSynced save_model s h = (refl, refl)
begin-IsSynced delete_model_provider s h = (refl, refl)
begin-IsSynced delete_model s h = (refl, refl)

end_runtime-IsSynced :
    (g : ℕ) (ps : List String) (s : ManagementService) → IsSynced s → IsSynced (end_runtime g ps s)
unfolding end_runtime
end_runtime-IsSynced g ps s h =
    either-IsSynced (nat_eq g s.runtime_reload_generation) _ s (refl, refl) h

step-IsSynced : (e : Event) (s : ManagementService) → IsSynced s → IsSynced (step e s)
unfolding step open_management open_workspace_create open_build_logs close_sheet close add_template
    choose_template_kind edit_template request_delete_template add_credential edit_credential
    set_credential_kind request_delete_credential add_model_provider edit_model_provider add_model
    edit_model select_management_view search_management go_back request_workspace_stop begin_reload
    finish begin_runtime begin_workspace finish_workspace
step-IsSynced opens s h = (refl, refl)
step-IsSynced opens_create s h = (refl, refl)
step-IsSynced closes s h = (refl, refl)
step-IsSynced closes_sheet s h = (refl, refl)
step-IsSynced adds_template s h = (refl, refl)
step-IsSynced adds_credential s h = (refl, refl)
step-IsSynced adds_provider s h = (refl, refl)
step-IsSynced goes_back s h = back_to-IsSynced s.management_history s h
step-IsSynced reloads s h = (refl, refl)
step-IsSynced reloads_runtime s h = h
step-IsSynced (opens_logs id) s h = (refl, refl)
step-IsSynced (chooses_kind k) s h = (refl, refl)
step-IsSynced (edits_template id) s h =
    edit_found-IsSynced (find (λ t. t.id == id) s.lists.templates) s h
step-IsSynced (asks_template id) s h = (refl, refl)
step-IsSynced (edits_credential id) s h =
    edit_found_credential-IsSynced (find (λ t. t.id == id) s.lists.credentials) s h
step-IsSynced (sets_kind k) s h = h
step-IsSynced (asks_credential id) s h = (refl, refl)
step-IsSynced (edits_provider id) s h =
    edit_found_provider-IsSynced (find (λ t. t.id == id) s.lists.model_providers) s h
step-IsSynced (adds_model id) s h = (refl, refl)
step-IsSynced (edits_model id) s h =
    edit_found_model-IsSynced (find (λ t. t.id == id) s.lists.models) s h
step-IsSynced (selects id) s h = either-IsSynced (s.management_view_id == id) s _ h (refl, refl)
step-IsSynced (searches q) s h = (refl, refl)
step-IsSynced (asks_stop id) s h = (refl, refl)
step-IsSynced (sets_dirty d) s h = set_dirty-IsSynced d s h
step-IsSynced (begins m) s h = begin-IsSynced m s h
step-IsSynced (finishes m g a) s h =
    either-IsSynced (returns a) (tail m (end_reload g a s)) (end_reload g a s)
      (tail-IsSynced m (end_reload g a s) (end_reload-IsSynced g a s h))
      (end_reload-IsSynced g a s h)
step-IsSynced (answers g a) s h = end_reload-IsSynced g a s h
step-IsSynced (begins_workspace start_workspace) s h = h
step-IsSynced (begins_workspace stop_workspace) s h = h
step-IsSynced (begins_workspace delete_workspace) s h = h
step-IsSynced (finishes_workspace start_workspace g ps) s h = end_runtime-IsSynced g ps s h
step-IsSynced (finishes_workspace stop_workspace g ps) s h = (refl, refl)
step-IsSynced (finishes_workspace delete_workspace g ps) s h = (refl, refl)
step-IsSynced (answers_runtime g ps) s h = end_runtime-IsSynced g ps s h

steps-IsSynced : (es : List Event) (s : ManagementService) → IsSynced s → IsSynced (steps es s)
unfolding steps
steps-IsSynced [] s h = h
steps-IsSynced (e ∷ es) s h = steps-IsSynced es (step e s) (step-IsSynced e s h)

-- After any calls of the service and any answers of the provider, in any order, the context keys
-- `management.open` and `management.dirty` say whether the pages are open and whether there are unsaved
-- changes.
pub management-IsSynced : (es : List Event) → IsSynced (steps es initial)
management-IsSynced es = steps-IsSynced es initial (refl, refl)
