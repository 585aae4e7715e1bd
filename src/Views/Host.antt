-- ===== src/Views/Host.antt =====
-- packages/workbench/src/services/workbench-view-host.ts: `WorkbenchViewHost`. A view instance with its root
-- and its child container is known by a number. `Platform` says what a condition evaluates to and whether
-- the constructor of a view returns.
use zaw.Base.{
  ℕ, suc, String, Bool, true, false, not, List, [], ◌∷◌, ◌++◌, Option, none, some, ◌==◌,
  if◌then◌else◌, any, map,
}
use zaw.Base.Dict.{get, put}
use zaw.Context.{ContextKeyExpression}
use zaw.Registry.Containers.{Location, location_eq}
use zaw.Views.{WorkbenchViewDescriptor, Container, ViewsRegistry, get_views}

pub record MountedView : Type 0 where
  pub instance_number : ℕ
  pub hidden : Bool

pub record ViewHost : Type 0 where
  pub mounted : List (String × MountedView)
  pub locations : List Location
  pub has_container : Bool
  pub active_view_id : Option String
  pub next_instance : ℕ
  pub disposed : List ℕ

pub record Platform : Type 0 where
  pub evaluate : ContextKeyExpression → Bool
  pub creates : WorkbenchViewDescriptor → Bool
  pub locale_le : String → String → Bool

abbrev pub initial : ViewHost
initial = record {
  mounted = [];
  locations = [];
  has_container = false;
  active_view_id = none;
  next_instance = 0;
  disposed = [];
}

abbrev pub holds : (ContextKeyExpression → Bool) → Option ContextKeyExpression → Bool
holds evaluate none = true
holds evaluate (some e) = evaluate e

abbrev pub visible : Platform → WorkbenchViewDescriptor → Bool
visible p d = holds p.evaluate d.condition

unfoldable pub set_visible : String → MountedView → Bool → ViewHost → ViewHost
unfolding put
set_visible id v shown h = record h { mounted = put id (record v { hidden = not shown }) h.mounted }

unfoldable pub create_view : String → ViewHost → ViewHost
unfolding put
create_view id h = record h {
  mounted = put id (record { instance_number = h.next_instance; hidden = false }) h.mounted;
  next_instance = suc h.next_instance;
}

-- One descriptor of the loop of `sync`: by whether it is visible, kept while hidden, can be created.
unfoldable pub sync_as :
    Bool
    → Bool
    → Bool
    → String
    → Option MountedView
    → List String × ViewHost
    → List String × ViewHost
unfolding set_visible create_view
sync_as false true creates id (some v) (wanted, h) = (wanted ++ id ∷ [], set_visible id v false h)
sync_as false true creates id none (wanted, h) = (wanted, h)
sync_as false false creates id v (wanted, h) = (wanted, h)
sync_as true retain creates id (some v) (wanted, h) = (wanted ++ id ∷ [], set_visible id v true h)
sync_as true retain true id none (wanted, h) = (wanted ++ id ∷ [], create_view id h)
sync_as true retain false id none (wanted, h) = (wanted ++ id ∷ [], h)

unfoldable pub sync_view :
    Platform → WorkbenchViewDescriptor → List String × ViewHost → List String × ViewHost
unfolding get sync_as
sync_view p d s =
    sync_as (visible p d) d.retain_when_hidden (p.creates d) d.id (get d.id s.1.mounted) s

unfoldable pub sync_views :
    Platform → List WorkbenchViewDescriptor → List String × ViewHost → List String × ViewHost
unfolding sync_view
sync_views p [] s = s
sync_views p (d ∷ ds) s = sync_views p ds (sync_view p d s)

-- The descriptors that the two loops of `sync` come to, container after container.
unfoldable pub listed :
    Platform → List Location → List Container → ViewsRegistry → List WorkbenchViewDescriptor
unfolding any get_views
listed p locations [] r = []
listed p locations (c ∷ cs) r =
    let rest = listed p locations cs r in
    if any (λ l. location_eq l c.value.location) locations
    then get_views p.locale_le c r ++ rest
    else rest

abbrev pub is_wanted : List String → String → Bool
unfolding any
is_wanted wanted id = any (λ w. w == id) wanted

abbrev pub clear_if : Bool → Option String → Option String
clear_if true active = none
clear_if false active = active

abbrev pub is_active : String → Option String → Bool
is_active id none = false
is_active id (some a) = a == id

-- The loop that takes the views away which are not wanted; `rest` are those still to be looked at.
unfoldable pub sweep : List String → List (String × MountedView) → ViewHost → ViewHost
unfolding any
sweep wanted [] h = record h { mounted = [] }
sweep wanted ((id, v) ∷ rest) h =
    if is_wanted wanted id
    then (let swept = sweep wanted rest h in record swept { mounted = (id, v) ∷ swept.mounted })
    else sweep wanted rest (record h {
      disposed = h.disposed ++ v.instance_number ∷ [];
      active_view_id = clear_if (is_active id h.active_view_id) h.active_view_id;
    })

abbrev pub sweep_after : List String × ViewHost → ViewHost
unfolding sweep
sweep_after s = sweep s.0 s.1.mounted s.1

-- `containers` is `this.containers.all`.
unfoldable pub sync : Platform → List Container → ViewsRegistry → ViewHost → ViewHost
unfolding sync_views listed sweep
sync p containers r h =
    if h.has_container
    then sweep_after (sync_views p (listed p h.locations containers r) ([], h))
    else h

unfoldable pub set_container : ViewHost → ViewHost
set_container h = record h { has_container = true }

unfoldable pub mount : Platform → List Container → ViewsRegistry → Location → ViewHost → ViewHost
unfolding any sync
mount p containers r l h = sync p containers r (record h {
  locations = if any (λ m. location_eq m l) h.locations then h.locations else h.locations ++ l ∷ [];
})

abbrev pub focus_mounted : String → Option MountedView → ViewHost → ViewHost × Bool
focus_mounted id none h = (h, false)
focus_mounted id (some v) h =
    if v.hidden then (h, false) else (record h { active_view_id = some id }, true)

unfoldable pub focus : String → ViewHost → ViewHost × Bool
unfolding get
focus id h = focus_mounted id (get id h.mounted) h

abbrev pub instances : List (String × MountedView) → List ℕ
instances m = map (λ e. e.1.instance_number) m

unfoldable pub dispose_mounted : ViewHost → ViewHost
dispose_mounted h = record h {
  mounted = [];
  active_view_id = none;
  disposed = h.disposed ++ instances h.mounted;
}
