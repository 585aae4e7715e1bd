-- ===== src/SessionCatalog/Tests.antt =====
-- Runs of the session catalog, and the theorems at concrete inputs.
use zaw.Base.{String, ◌≡◌, refl, Bool, true, false, List, [], ◌∷◌, none, some, any, keep}
use zaw.Base.Dict.{get, put}
use zaw.ActiveSession.{SessionIdentity}
use zaw.SessionCatalog.{
  SessionCatalogItem, SessionCatalogService, Catalog, connected, offline, apply, apply_items,
  apply_item, apply_scope, answer, or_none_of,
}
use zaw.SessionCatalog.Refresh.{asks, Reach, start, next, step, Reach-answer}
use zaw.SessionCatalog.Apply.{apply_lem, resources, in_workspace, connection_of}

abbrev item : String → String → Bool → SessionCatalogItem
item w r online = record {
  workspace_id = w;
  resource = r;
  provider = "p";
  title = r;
  agent_host_online = online;
  repository = "";
  working_directory = "";
  modified_at = "";
  rest = "";
}

abbrev never_same : Catalog → Catalog → Bool
never_same a b = false

abbrev blank : SessionCatalogService
blank = record {
  catalog = record { items = []; sessions = []; session_titles = []; connection_state = [] };
  refresh_serial = 0;
  latest_all_refresh = 0;
  latest_provider_refresh = [];
  archived = [];
  pinned = [];
  unread = [];
}

abbrev listed : List SessionCatalogItem
listed = item "w" "a" true ∷ item "v" "b" true ∷ item "w" "c" false ∷ []

apply_tests :
    ((apply never_same listed blank).0.catalog.sessions
      ≡ ("w", "a" ∷ "c" ∷ []) ∷ ("v", "b" ∷ []) ∷ [])
    × ((apply never_same listed blank).0.catalog.connection_state
        ≡ ("w", offline) ∷ ("v", connected) ∷ [])
unfolding apply apply_items apply_item get put
apply_tests = (refl, refl)

-- All providers are asked, then "p", then "q".
abbrev asked_thrice : SessionCatalogService
asked_thrice =
    step never_same (asks (some "q"))
      (step never_same (asks (some "p")) (step never_same (asks none) blank))

thrice : Reach never_same (some "q" ∷ some "p" ∷ none ∷ []) asked_thrice
thrice =
    next (asks (some "q")) (next (asks (some "p")) (next (asks none) (start blank refl refl refl)))

Reach-answer_example :
    answer never_same (some "p") 2 listed asked_thrice
    ≡ apply_scope never_same (some "p") listed asked_thrice
unfolding any
Reach-answer_example = Reach-answer 1 (some "p") listed thrice refl

superseded_test : answer never_same none 1 listed asked_thrice ≡ (asked_thrice, false)
unfolding any
superseded_test = Reach-answer 2 none listed thrice refl

apply_example :
    (or_none_of (get "w" (apply never_same listed blank).0.catalog.sessions)
      ≡ resources (keep (in_workspace "w") listed))
    × (get "w" (apply never_same listed blank).0.catalog.connection_state
        ≡ connection_of (keep (in_workspace "w") listed))
apply_example = apply_lem never_same "w" listed blank

abbrev session : String → SessionIdentity
session r = record { workspace_id = "w"; resource = r }
