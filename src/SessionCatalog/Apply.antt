-- ===== src/SessionCatalog/Apply.antt =====
-- packages/workbench/src/contrib/sessions/session-catalog-service.ts: what `apply` makes of a list of
-- items.
use zaw.Base.{
  String, ◌≡◌, refl, sym, ap, ◌∙◌, subst, Bool, true, false, not, List, [], ◌∷◌, ◌++◌, map, Option,
  none, some, ◌==◌, if◌then◌else◌, any, keep, keep-append, arith, eq_iff, Bool-cases, inl, inr,
  append_assoc, append-nil,
}
use zaw.Base.Dict.{get, get-put}
use zaw.SessionCatalog.{
  SessionCatalogItem, SessionCatalogService, Catalog, ConnectionState, connected, offline,
  apply_item, apply_items, apply, apply_provider, or_none_of, connection, put_connection,
  of_provider,
}

abbrev pub in_workspace : String → SessionCatalogItem → Bool
in_workspace w item = item.workspace_id == w

abbrev pub resources : List SessionCatalogItem → List String
resources items = map (λ item. item.resource) items

-- A workspace without items has no entry, one with an item that is not online is offline.
abbrev pub connection_of : List SessionCatalogItem → Option ConnectionState
connection_of [] = none
connection_of (item ∷ items) =
    if any (λ i. not i.agent_host_online) (item ∷ items) then some offline else some connected

item_sessions :
    (w : String) (item : SessionCatalogItem) (c : Catalog)
    → or_none_of (get w (apply_item item c).sessions)
      ≡ or_none_of (get w c.sessions) ++ resources (keep (in_workspace w) (item ∷ []))
unfolding apply_item keep
item_sessions w item c = elim (Bool-cases (in_workspace w item)) [
  | inl here ↦
      rw (get-put item.workspace_id w (more item c) c.sessions, here)
        (ap (λ v. or_none_of (get v c.sessions) ++ item.resource ∷ [])
          ((eq_iff item.workspace_id w).0 here))
  | inr other ↦
      rw (get-put item.workspace_id w (more item c) c.sessions, other)
        (sym (append-nil (or_none_of (get w c.sessions))))
]
  where
    more : SessionCatalogItem → Catalog → List String
    more item c = or_none_of (get item.workspace_id c.sessions) ++ item.resource ∷ []

joined :
    (b : Bool) (rs : List String) (item : SessionCatalogItem) (items : List SessionCatalogItem)
    → (rs ++ resources (if b then item ∷ [] else [])) ++ resources items
      ≡ rs ++ resources (if b then item ∷ items else items)
joined true rs item items = append_assoc rs (item.resource ∷ []) (resources items)
joined false rs item items = ap (λ l. l ++ resources items) (append-nil rs)

sessions_loop :
    (w : String) (items : List SessionCatalogItem) (c : Catalog)
    → or_none_of (get w (apply_items items c).sessions)
      ≡ or_none_of (get w c.sessions) ++ resources (keep (in_workspace w) items)
unfolding apply_items keep
sessions_loop w [] c = sym (append-nil (or_none_of (get w c.sessions)))
sessions_loop w (item ∷ items) c =
    sessions_loop w items (apply_item item c)
    ∙ ap (λ o. o ++ resources (keep (in_workspace w) items)) (item_sessions w item c)
    ∙ joined (in_workspace w item) (or_none_of (get w c.sessions)) item
        (keep (in_workspace w) items)

-- The state of a workspace after more items, when it was `o` before.
abbrev and_then : Option ConnectionState → List SessionCatalogItem → Option ConnectionState
and_then o [] = o
and_then o (item ∷ items) = and_then (connection item.agent_host_online o) items

get-put_connection :
    (u w : String) (m : List (String × ConnectionState)) (o : Option ConnectionState)
    → get w (put_connection u o m)
      ≡ (if u == w then elim o [ none ↦ get w m | some k ↦ some k ] else get w m)
get-put_connection u w m none = ground arith
get-put_connection u w m (some k) = get-put u w k m

settled :
    (b : Bool) (o p : Option ConnectionState)
    → o ≡ p
    → elim (connection b o) [ none ↦ p | some k ↦ some k ] ≡ connection b p
settled b o p h =
    subst (λ q. elim (connection b o) [ none ↦ q | some k ↦ some k ] ≡ connection b q) h (same b o)
  where
    same :
        (b : Bool) (o : Option ConnectionState)
        → elim (connection b o) [ none ↦ o | some k ↦ some k ] ≡ connection b o
    same false o = refl
    same true none = refl
    same true (some k) = refl

connected_item :
    (w : String) (item : SessionCatalogItem) (c : Catalog)
    → get w (apply_item item c).connection_state ≡ (
        if in_workspace w item
        then connection item.agent_host_online (get w c.connection_state)
        else get w c.connection_state)
unfolding apply_item
connected_item w item c =
    get-put_connection item.workspace_id w c.connection_state
      (connection item.agent_host_online (get item.workspace_id c.connection_state))
    ∙ (elim (Bool-cases (in_workspace w item)) [
      | inl here ↦ rw here (
          settled item.agent_host_online _ _
            (ap (λ v. get v c.connection_state) ((eq_iff item.workspace_id w).0 here)))
      | inr other ↦ rw other refl
    ])

joined_states :
    (b : Bool) (o : Option ConnectionState) (item : SessionCatalogItem)
    (items : List SessionCatalogItem)
    → and_then (if b then connection item.agent_host_online o else o) items
      ≡ and_then o (if b then item ∷ items else items)
joined_states true o item items = refl
joined_states false o item items = refl

connection_loop :
    (w : String) (items : List SessionCatalogItem) (c : Catalog)
    → get w (apply_items items c).connection_state
      ≡ and_then (get w c.connection_state) (keep (in_workspace w) items)
unfolding apply_items apply_item keep
connection_loop w [] c = refl
connection_loop w (item ∷ items) c =
    connection_loop w items (apply_item item c)
    ∙ ap (λ o. and_then o (keep (in_workspace w) items)) (connected_item w item c)
    ∙ joined_states (in_workspace w item) (get w c.connection_state) item
        (keep (in_workspace w) items)

and_then_offline : (items : List SessionCatalogItem) → and_then (some offline) items ≡ some offline
and_then_offline [] = refl
and_then_offline (item ∷ items) = ground (arith, and_then_offline items)

and_then_connected :
    (items : List SessionCatalogItem)
    → and_then (some connected) items
      ≡ (if any (λ i. not i.agent_host_online) items then some offline else some connected)
unfolding any
and_then_connected [] = refl
and_then_connected (item ∷ items) = ground (arith, and_then_offline items, and_then_connected items)

connection_of_lem : (items : List SessionCatalogItem) → and_then none items ≡ connection_of items
unfolding any
connection_of_lem [] = refl
connection_of_lem (item ∷ items) = ground (arith, and_then_offline items, and_then_connected items)

-- After a list of items has been applied, whatever was there before: a workspace has the resources of
-- its items, in the order of the list; it is offline if one of its items is not online, connected if
-- it has items and all are online, and without a state if it has none.
pub apply_lem :
    (same : Catalog → Catalog → Bool) (w : String) (items : List SessionCatalogItem)
    (s : SessionCatalogService)
    → (or_none_of (get w (apply same items s).0.catalog.sessions)
        ≡ resources (keep (in_workspace w) items))
      × (get w (apply same items s).0.catalog.connection_state
          ≡ connection_of (keep (in_workspace w) items))
unfolding apply get
apply_lem same w items s = (
  sessions_loop w items blank,
  connection_loop w items blank ∙ connection_of_lem (keep (in_workspace w) items),
)
  where
    blank : Catalog
    blank = record { items = items; sessions = []; session_titles = []; connection_state = [] }

items_loop : (items : List SessionCatalogItem) (c : Catalog) → (apply_items items c).items ≡ c.items
unfolding apply_items apply_item
items_loop [] c = refl
items_loop (item ∷ items) c = items_loop items (apply_item item c)

kept_of :
    (p q : String) (items : List SessionCatalogItem)
    → keep (of_provider q) (keep (λ item. not (of_provider p item)) items)
      ≡ (if p == q then [] else keep (of_provider q) items)
unfolding keep
kept_of p q [] = ground arith
kept_of p q (item ∷ items) =
    ground (arith, kept_of p q items, eq_iff p q, eq_iff item.provider p, eq_iff item.provider q)

taken_of :
    (p q : String) (items : List SessionCatalogItem)
    → keep (of_provider q) (keep (of_provider p) items)
      ≡ (if p == q then keep (of_provider q) items else [])
unfolding keep
taken_of p q [] = ground arith
taken_of p q (item ∷ items) =
    ground (arith, taken_of p q items, eq_iff p q, eq_iff item.provider p, eq_iff item.provider q)

-- An answer for one provider replaces that provider's items by the answer's, of which items of another
-- provider are dropped, and leaves the items of every other provider, in their order.
pub apply_provider_lem :
    (same : Catalog → Catalog → Bool) (p q : String) (items : List SessionCatalogItem)
    (s : SessionCatalogService)
    → keep (of_provider q) (apply_provider same p items s).0.catalog.items
      ≡ keep (of_provider q) (if p == q then items else s.catalog.items)
unfolding apply_provider apply
apply_provider_lem same p q items s =
    ap (keep (of_provider q)) (items_loop next _)
    ∙ keep-append (of_provider q) (keep (λ item. not (of_provider p item)) s.catalog.items)
        (keep (of_provider p) items)
    ∙ (elim (Bool-cases (p == q)) [
      | inl here ↦ rw (kept_of p q s.catalog.items, taken_of p q items, here) refl
      | inr other ↦
          rw (kept_of p q s.catalog.items, taken_of p q items, other)
            (append-nil (keep (of_provider q) s.catalog.items))
    ])
  where
    next : List SessionCatalogItem
    next = keep (λ item. not (of_provider p item)) s.catalog.items ++ keep (of_provider p) items
