-- ===== src/SessionCatalog.antt =====
-- packages/workbench/src/contrib/sessions/session-catalog-service.ts: `SessionCatalogService`.
-- `refresh` and `refreshProvider` wait for the provider: each is split into the half before the wait
-- and the half after it. Sessions are compared by their key, which is injective (ActiveSession/Key).
pub mod Refresh
pub mod Apply
pub mod Marks
pub mod Tests
use zaw.Base.{
  ℕ, suc, ◌+◌, String, Bool, true, false, ◌&&◌, ◌||◌, not, List, [], ◌∷◌, ◌++◌, Option, none, some,
  ltb, nat_eq, ◌==◌, if◌then◌else◌, any, keep,
}
use zaw.Base.Dict.{get, put, values}
use zaw.ActiveSession.{SessionIdentity, same_session}

-- `repository` and `working_directory` may be absent: they are only asked for by `||`, to which the
-- empty text is the same. `rest` is the text of the other fields, which the service only compares.
pub record SessionCatalogItem : Type 0 where
  pub workspace_id : String
  pub resource : String
  pub provider : String
  pub title : String
  pub agent_host_online : Bool
  pub repository : String
  pub working_directory : String
  pub modified_at : String
  pub rest : String

pub data ConnectionState : Type 0 where
  connected offline reconnecting : ConnectionState

-- A set or a record keyed by sessions, in insertion order.
abbrev pub Titles : Type 0
Titles = List (SessionIdentity × String)

unfoldable pub put_title : SessionIdentity → String → Titles → Titles
put_title i t [] = (i, t) ∷ []
put_title i t ((j, u) ∷ m) = if same_session j i then (j, t) ∷ m else (j, u) ∷ put_title i t m

unfoldable pub title_of : SessionIdentity → Titles → Option String
title_of i [] = none
title_of i ((j, u) ∷ m) = if same_session j i then some u else title_of i m

pub record Catalog : Type 0 where
  pub items : List SessionCatalogItem
  pub sessions : List (String × List String)
  pub session_titles : Titles
  pub connection_state : List (String × ConnectionState)

pub record SessionCatalogService : Type 0 where
  pub catalog : Catalog
  pub refresh_serial : ℕ
  pub latest_all_refresh : ℕ
  pub latest_provider_refresh : List (String × ℕ)
  pub archived : List SessionIdentity
  pub pinned : List SessionIdentity
  pub unread : List SessionIdentity

abbrev pub identity_of : SessionCatalogItem → SessionIdentity
identity_of item = record { workspace_id = item.workspace_id; resource = item.resource }

abbrev pub or_none_of : Option (List String) → List String
or_none_of none = []
or_none_of (some rs) = rs

abbrev pub connection : Bool → Option ConnectionState → Option ConnectionState
connection false old = some offline
connection true none = some connected
connection true (some old) = some old

abbrev pub put_connection :
    String
    → Option ConnectionState
    → List (String × ConnectionState)
    → List (String × ConnectionState)
put_connection w none m = m
put_connection w (some c) m = put w c m

-- One turn of the loop of `apply`.
unfoldable pub apply_item : SessionCatalogItem → Catalog → Catalog
apply_item item c = record c {
  sessions =
      put item.workspace_id (or_none_of (get item.workspace_id c.sessions) ++ item.resource ∷ [])
        c.sessions;
  session_titles = put_title (identity_of item) item.title c.session_titles;
  connection_state =
      put_connection item.workspace_id
        (connection item.agent_host_online (get item.workspace_id c.connection_state))
        c.connection_state;
}

unfoldable pub apply_items : List SessionCatalogItem → Catalog → Catalog
apply_items [] c = c
apply_items (item ∷ items) c = apply_items items (apply_item item c)

-- `same` compares the texts that `JSON.stringify` makes of two catalogs. The flag is the result, and
-- says whether the change event fires.
unfoldable pub apply :
    (Catalog → Catalog → Bool)
    → List SessionCatalogItem
    → SessionCatalogService
    → SessionCatalogService × Bool
apply same items s =
    let next =
      apply_items items
        (record { items = items; sessions = []; session_titles = []; connection_state = [] }) in
    (record s { catalog = next }, not (same s.catalog next))

abbrev pub of_provider : String → SessionCatalogItem → Bool
of_provider p item = item.provider == p

unfoldable pub apply_provider :
    (Catalog → Catalog → Bool)
    → String
    → List SessionCatalogItem
    → SessionCatalogService
    → SessionCatalogService × Bool
apply_provider same p items s =
    apply same
      (keep (λ item. not (of_provider p item)) s.catalog.items ++ keep (of_provider p) items) s

-- `refresh` up to its wait; the new serial is the service's.
unfoldable pub refresh : SessionCatalogService → SessionCatalogService
refresh s = record s {
  refresh_serial = s.refresh_serial + 1;
  latest_all_refresh = s.refresh_serial + 1;
}

unfoldable pub refresh_provider : String → SessionCatalogService → SessionCatalogService
refresh_provider p s = record s {
  refresh_serial = s.refresh_serial + 1;
  latest_provider_refresh = put p (s.refresh_serial + 1) s.latest_provider_refresh;
}

abbrev pub is_serial : ℕ → Option ℕ → Bool
is_serial n none = false
is_serial n (some k) = nat_eq k n

-- Whom a request asks: all providers, or one.
abbrev pub Scope : Type 0
Scope = Option String

-- The test after the wait.
unfoldable pub accepts : Scope → ℕ → SessionCatalogService → Bool
accepts none n s =
    nat_eq s.latest_all_refresh n && not (any (λ k. ltb n k) (values s.latest_provider_refresh))
accepts (some p) n s =
    is_serial n (get p s.latest_provider_refresh) && not (ltb n s.latest_all_refresh)

abbrev pub apply_scope :
    (Catalog → Catalog → Bool)
    → Scope
    → List SessionCatalogItem
    → SessionCatalogService
    → SessionCatalogService × Bool
apply_scope same none items s = apply same items s
apply_scope same (some p) items s = apply_provider same p (keep (of_provider p) items) s

-- `refresh` and `refreshProvider` after the wait. A request that fails changes nothing.
unfoldable pub answer :
    (Catalog → Catalog → Bool)
    → Scope
    → ℕ
    → List SessionCatalogItem
    → SessionCatalogService
    → SessionCatalogService × Bool
answer same scope n items s =
    if accepts scope n s then apply_scope same scope items s else (s, false)

unfoldable pub add : SessionIdentity → String → SessionCatalogService → SessionCatalogService
add i title s =
    let current = or_none_of (get i.workspace_id s.catalog.sessions) in
    record s {
      catalog = record s.catalog {
        sessions =
            if any (λ r. r == i.resource) current
            then s.catalog.sessions
            else put i.workspace_id (current ++ i.resource ∷ []) s.catalog.sessions;
        session_titles = put_title i title s.catalog.session_titles;
      };
    }

-- A `Set` of sessions.
abbrev pub set_has : SessionIdentity → List SessionIdentity → Bool
set_has i xs = any (λ j. same_session j i) xs

abbrev pub set_delete : SessionIdentity → List SessionIdentity → List SessionIdentity
set_delete i xs = keep (λ j. not (same_session j i)) xs

abbrev pub set_add : SessionIdentity → List SessionIdentity → List SessionIdentity
set_add i xs = if set_has i xs then xs else xs ++ i ∷ []

unfoldable pub is_archived : SessionIdentity → SessionCatalogService → Bool
is_archived i s = set_has i s.archived

unfoldable pub is_pinned : SessionIdentity → SessionCatalogService → Bool
is_pinned i s = set_has i s.pinned

unfoldable pub is_read : SessionIdentity → SessionCatalogService → Bool
is_read i s = not (set_has i s.unread)

-- The flag says whether the local state is stored and the change event fires.
unfoldable pub mark_read :
    SessionIdentity → Bool → SessionCatalogService → SessionCatalogService × Bool
mark_read i true s = (record s { unread = set_delete i s.unread }, set_has i s.unread)
mark_read i false s = (record s { unread = set_add i s.unread }, not (set_has i s.unread))

unfoldable pub toggle : SessionIdentity → List SessionIdentity → List SessionIdentity
toggle i xs = if set_has i xs then set_delete i xs else set_add i xs

unfoldable pub toggle_archived : SessionIdentity → SessionCatalogService → SessionCatalogService
unfolding toggle
toggle_archived i s = record s { archived = toggle i s.archived }

unfoldable pub toggle_pinned : SessionIdentity → SessionCatalogService → SessionCatalogService
unfolding toggle
toggle_pinned i s = record s { pinned = toggle i s.pinned }
