-- ===== src/Views/Tests.antt =====
-- A host with two views, and the theorems at concrete inputs.
use zaw.Base.{◌≡◌, refl, String, Bool, true, false, List, [], ◌∷◌, none, is_some, any, keep}
use zaw.Base.Dict.{get, put}
use zaw.Base.Sort.{sort, insert}
use zaw.Registry.{ok}
use zaw.Registry.Order.{by_order, compare_order}
use zaw.Registry.Containers.{sidebar}
use zaw.Views.{
  WorkbenchViewDescriptor, Container, ViewsRegistry, empty, views_of, get_view, get_view_container,
  register_views, repeats, put_containers, get_views, dispose_views, removed_by, remove_views,
  dispose_removed,
}
use zaw.Views.Host.{
  ViewHost, Platform, initial, sync, sync_views, sync_view, sync_as, create_view, listed, sweep,
}
use zaw.Views.Indexed.{Event, registers, disposes, steps, get_view-get_view_container}
use zaw.Views.Owned.{
  IsOwned, mounts, sets_container, focuses, syncs, disposes as disposes_host, steps as host_steps,
  steps-IsOwned,
}

abbrev view : String → Bool → WorkbenchViewDescriptor
view id retain = record {
  id = id;
  name = id;
  order = none;
  retain_when_hidden = retain;
  condition = none;
}

abbrev side : Container
side = record {
  identity = 1;
  value = record { id = "side"; location = sidebar; order = none; title = "Side" };
}

abbrev platform : Bool → Platform
platform shown = record { evaluate = λ e. shown; creates = λ d. true; locale_le = λ a b. true }

abbrev batch : List WorkbenchViewDescriptor
batch = view "a" true ∷ view "b" false ∷ []

abbrev two_views : ViewsRegistry
two_views = record {
  container_by_view_id = ("a", side) ∷ ("b", side) ∷ [];
  views = ("side", batch) ∷ [];
}

registered : register_views batch side empty ≡ ok two_views
unfolding register_views repeats put_containers views_of any get put
registered = refl

taken_back : dispose_views batch side two_views ≡ (empty, true)
unfolding dispose_views removed_by dispose_removed remove_views views_of any keep get
taken_back = refl

abbrev events : List Event
events = registers batch side ∷ registers (view "b" true ∷ []) side ∷ disposes batch side ∷ []

abbrev ready : ViewHost
ready = record initial { has_container = true; locations = sidebar ∷ [] }

two_mounted : (sync (platform true) (side ∷ []) two_views ready).next_instance ≡ 2
unfolding sync sync_views sync_view sync_as create_view listed sweep get_views views_of any get put
    sort insert by_order compare_order
two_mounted = refl

get_view-get_view_container_example :
    is_some (get_view "a" (steps events empty))
    ≡ is_some (get_view_container "a" (steps events empty))
get_view-get_view_container_example = get_view-get_view_container events "a"

steps-IsOwned_example : IsOwned (
    host_steps
      (sets_container
        ∷ mounts (platform true) (side ∷ []) two_views sidebar
        ∷ focuses "a"
        ∷ syncs (platform true) (side ∷ []) empty
        ∷ disposes_host
        ∷ [])
      initial)
steps-IsOwned_example = steps-IsOwned (
    sets_container
    ∷ mounts (platform true) (side ∷ []) two_views sidebar
    ∷ focuses "a"
    ∷ syncs (platform true) (side ∷ []) empty
    ∷ disposes_host
    ∷ [])
