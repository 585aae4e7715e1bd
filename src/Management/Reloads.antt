-- ===== src/Management/Reloads.antt =====
-- packages/workbench/src/contrib/management/management-service.ts: what waits for the provider. `reload` is
-- split at its wait; what a method does once its reload has returned is its tail.
use zaw.Base.{ℕ, ◌+◌, String, Bool, true, false, not, List, none, nat_eq, ◌==◌, if◌then◌else◌}
use zaw.Management.{
  ManagementService, Lists, loading, ready, failed, templates_changed, credentials_changed, fire,
  fire_change, fire_sheet, sheet_changed,
}

-- The half before the wait; the new generation is the service's.
unfoldable pub begin_reload : ManagementService → ManagementService
begin_reload s = fire_change (record s {
  reload_generation = s.reload_generation + 1;
  models_state = loading;
  models_error = "";
})

-- What the provider answers: the lists, or the message of its error.
pub data Answer : Type 0 where
  loaded : Lists → Answer
  refused : String → Answer

abbrev pub accept : Answer → ManagementService → ManagementService
accept (loaded lists) s = fire_change (
    fire credentials_changed
      (fire templates_changed (record s { lists = lists; models_state = ready })))
accept (refused message) s =
    fire_change (record s { models_state = failed; models_error = message })

-- The half after the wait of the reload of that generation.
unfoldable pub end_reload : ℕ → Answer → ManagementService → ManagementService
end_reload generation a s = if nat_eq generation s.reload_generation then accept a s else s

-- A reload that fails throws, also an outdated one.
abbrev pub returns : Answer → Bool
returns (loaded lists) = true
returns (refused message) = false

-- The methods that reload after the provider has done what they ask for.
pub data Method : Type 0 where
  save_template delete_template save_credential delete_credential : Method
  save_model_provider save_model delete_model_provider delete_model : Method

-- Between the provider's answer and the reload.
unfoldable pub begin : Method → ManagementService → ManagementService
unfolding begin_reload
begin save_model_provider s = begin_reload (record s { editing_model_provider = none })
begin save_model s = begin_reload (record s { editing_model = none })
begin _ s = begin_reload s

-- `deleteTemplate` asks for nothing when nothing is to be deleted.
unfoldable pub may_begin : Method → ManagementService → Bool
may_begin delete_template s = not (s.pending_template_delete_id == "")
may_begin _ s = true

-- What `saveTemplate` and the other methods do once their reload has returned.
unfoldable pub saved_template : ManagementService → ManagementService
saved_template s = fire_sheet (record s { sheet = none; dirty = false; editing_template = none })

unfoldable pub deleted_template : ManagementService → ManagementService
deleted_template s = fire_sheet (record s { sheet = none; pending_template_delete_id = "" })

unfoldable pub saved_credential : ManagementService → ManagementService
saved_credential s =
    fire_sheet (record s { sheet = none; dirty = false; editing_credential = none })

unfoldable pub deleted_credential : ManagementService → ManagementService
deleted_credential s = fire_sheet (record s { sheet = none; pending_credential_delete_id = "" })

unfoldable pub saved_model_provider : ManagementService → ManagementService
saved_model_provider s = fire_sheet (record s { sheet = none; dirty = false })

unfoldable pub saved_model : ManagementService → ManagementService
saved_model s = fire_sheet (record s { sheet = none; dirty = false })

unfoldable pub tail : Method → ManagementService → ManagementService
unfolding saved_template deleted_template saved_credential deleted_credential saved_model_provider
    saved_model
tail save_template s = saved_template s
tail delete_template s = deleted_template s
tail save_credential s = saved_credential s
tail delete_credential s = deleted_credential s
tail save_model_provider s = saved_model_provider s
tail save_model s = saved_model s
tail delete_model_provider s = s
tail delete_model s = s

unfoldable pub finish : Method → ℕ → Answer → ManagementService → ManagementService
unfolding end_reload tail
finish m generation a s =
    if returns a then tail m (end_reload generation a s) else end_reload generation a s

-- `reloadRuntime`
unfoldable pub begin_runtime : ManagementService → ManagementService
begin_runtime s = record s { runtime_reload_generation = s.runtime_reload_generation + 1 }

unfoldable pub end_runtime : ℕ → List String → ManagementService → ManagementService
end_runtime generation provisioners s =
    if nat_eq generation s.runtime_reload_generation
    then fire_change (record s { provisioners = provisioners })
    else s

pub data RuntimeMethod : Type 0 where
  start_workspace stop_workspace delete_workspace : RuntimeMethod

-- Between the provider's answer and the reload of the runtime.
unfoldable pub begin_workspace : RuntimeMethod → ManagementService → ManagementService
unfolding begin_runtime
begin_workspace stop_workspace s =
    begin_runtime (fire (sheet_changed none) (record s { sheet = none; pending_workspace_id = "" }))
begin_workspace _ s = begin_runtime s

unfoldable pub finish_workspace :
    RuntimeMethod → ℕ → List String → ManagementService → ManagementService
unfolding end_runtime
finish_workspace start_workspace generation ps s = end_runtime generation ps s
finish_workspace _ generation ps s = fire_change (end_runtime generation ps s)
