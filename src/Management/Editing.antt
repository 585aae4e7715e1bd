-- ===== src/Management/Editing.antt =====
-- packages/workbench/src/contrib/management/management-service.ts: the methods that open a sheet, for something new,
-- for an entry of the lists or to ask whether one is to be deleted.
use zaw.Base.{String, false, List, [], ◌∷◌, Option, none, some, ◌==◌, find}
use zaw.Json.{or_text}
use zaw.Management.{
  ManagementService, Template, Credential, ManagementModel, ModelProvider, editing_changed, fire,
  fire_sheet, fire_editing, confirm_template_delete, confirm_credential_delete, credential, model,
  model_provider, template, template_source,
}

unfoldable pub add_template : ManagementService → ManagementService
add_template s =
    fire_editing (record s { editing_template = none; sheet = some template_source; dirty = false })

unfoldable pub choose_template_kind : String → ManagementService → ManagementService
choose_template_kind kind s =
    fire_sheet (record s { template_kind = kind; sheet = some template; dirty = false })

abbrev pub edit_found : Option Template → ManagementService → ManagementService
edit_found none s = s
edit_found (some t) s = fire_editing (record s {
  editing_template = some t;
  template_kind = t.source_kind;
  sheet = some template;
  dirty = false;
})

unfoldable pub edit_template : String → ManagementService → ManagementService
unfolding find
edit_template id s = edit_found (find (λ t. t.id == id) s.lists.templates) s

unfoldable pub request_delete_template : String → ManagementService → ManagementService
request_delete_template id s =
    fire_sheet (record s { pending_template_delete_id = id; sheet = some confirm_template_delete })

unfoldable pub add_credential : ManagementService → ManagementService
add_credential s = fire_editing (record s {
  sheet = some credential;
  editing_credential = none;
  credential_kind = "token";
  dirty = false;
})

abbrev pub edit_found_credential : Option Credential → ManagementService → ManagementService
edit_found_credential none s = s
edit_found_credential (some c) s = fire_editing (record s {
  editing_credential = some c;
  credential_kind = c.kind;
  sheet = some credential;
  dirty = false;
})

unfoldable pub edit_credential : String → ManagementService → ManagementService
unfolding find
edit_credential id s = edit_found_credential (find (λ c. c.id == id) s.lists.credentials) s

unfoldable pub set_credential_kind : String → ManagementService → ManagementService
set_credential_kind kind s = fire editing_changed (record s { credential_kind = kind })

unfoldable pub request_delete_credential : String → ManagementService → ManagementService
request_delete_credential id s =
    fire_sheet
      (record s { pending_credential_delete_id = id; sheet = some confirm_credential_delete })

unfoldable pub add_model_provider : ManagementService → ManagementService
add_model_provider s =
    fire_sheet
      (record s { editing_model_provider = none; sheet = some model_provider; dirty = false })

abbrev pub edit_found_provider : Option ModelProvider → ManagementService → ManagementService
edit_found_provider none s = s
edit_found_provider (some p) s =
    fire_sheet
      (record s { editing_model_provider = some p; sheet = some model_provider; dirty = false })

unfoldable pub edit_model_provider : String → ManagementService → ManagementService
unfolding find
edit_model_provider id s = edit_found_provider (find (λ p. p.id == id) s.lists.model_providers) s

abbrev pub first_id : List ModelProvider → String
first_id [] = ""
first_id (p ∷ ps) = p.id

unfoldable pub add_model : String → ManagementService → ManagementService
unfolding or_text
add_model provider_id s = fire_sheet (record s {
  editing_model = none;
  model_provider_id = or_text provider_id (first_id s.lists.model_providers);
  sheet = some model;
  dirty = false;
})

abbrev pub edit_found_model : Option ManagementModel → ManagementService → ManagementService
edit_found_model none s = s
edit_found_model (some m) s = fire_sheet (record s {
  editing_model = some m;
  model_provider_id = m.provider_id;
  sheet = some model;
  dirty = false;
})

unfoldable pub edit_model : String → ManagementService → ManagementService
unfolding find
edit_model id s = edit_found_model (find (λ m. m.id == id) s.lists.models) s
