-- ===== src/Registry/Containers.antt =====
-- packages/workbench/src/services/workbench-view-registry.ts: `WorkbenchViewContainersRegistry`.
use zaw.Base.{ℕ, String, Bool, true, false, List, Option, keep}
use zaw.Base.Dict
use zaw.Base.Dict.{values}
use zaw.Base.Sort.{sort, sort-perm, sort-IsSorted, keep-sort, IsSorted, IsPreorder}
use mathlib.Core.List.{Perm}
use zaw.Registry.{Ref, Result, register, dispose}
use zaw.Registry.Order.{by_order, by_order-IsPreorder}

pub data Location : Type 0 where
  auxiliarybar overlay panel primary sidebar titlebar : Location

abbrev pub location_eq : Location → Location → Bool
location_eq auxiliarybar auxiliarybar = true
location_eq overlay overlay = true
location_eq panel panel = true
location_eq primary primary = true
location_eq sidebar sidebar = true
location_eq titlebar titlebar = true
location_eq _ _ = false

pub record WorkbenchViewContainer : Type 0 where
  pub id : String
  pub location : Location
  pub order : Option ℕ
  pub title : String

unfoldable pub register_view_container :
    Ref WorkbenchViewContainer
    → List (String × Ref WorkbenchViewContainer)
    → Result (List (String × Ref WorkbenchViewContainer))
unfolding register
register_view_container = register (λ c. c.id) (λ c. true)

unfoldable pub dispose_view_container :
    Ref WorkbenchViewContainer
    → List (String × Ref WorkbenchViewContainer)
    → List (String × Ref WorkbenchViewContainer) × Bool
unfolding dispose
dispose_view_container = dispose (λ c. c.id)

unfoldable pub get_view_container :
    String → List (String × Ref WorkbenchViewContainer) → Option (Ref WorkbenchViewContainer)
get_view_container id m = Dict.get id m

abbrev pub container_le :
    (String → String → Bool) → Ref WorkbenchViewContainer → Ref WorkbenchViewContainer → Bool
container_le locale_le = by_order locale_le (λ c. c.value.order) (λ c. c.value.id)

unfoldable pub all_containers :
    (String → String → Bool)
    → List (String × Ref WorkbenchViewContainer)
    → List (Ref WorkbenchViewContainer)
unfolding sort
all_containers locale_le m = sort (container_le locale_le) (values m)

-- `sort`, then `filter` by the location.
unfoldable pub get_view_containers :
    (String → String → Bool)
    → Location
    → List (String × Ref WorkbenchViewContainer)
    → List (Ref WorkbenchViewContainer)
unfolding keep
get_view_containers locale_le l m =
    keep (λ c. location_eq c.value.location l) (all_containers locale_le m)

-- `getViewContainers` lists the containers of the location, all of them and each once, in the order
-- of the comparator.
pub get_view_containers_lem :
    (locale_le : String → String → Bool) (l : Location)
    (m : List (String × Ref WorkbenchViewContainer))
    → IsPreorder locale_le
    → Perm
        (get_view_containers locale_le l m)
        (keep (λ c. location_eq c.value.location l) (values m))
      × IsSorted (container_le locale_le) (get_view_containers locale_le l m)
unfolding get_view_containers all_containers
get_view_containers_lem locale_le l m o =
    let total =
      by_order-IsPreorder locale_le (λ (c : Ref WorkbenchViewContainer). c.value.order)
        (λ c. c.value.id) o in
    let here = λ (c : Ref WorkbenchViewContainer). location_eq c.value.location l in
    rw (keep-sort (container_le locale_le) total here (values m)) (
      sort-perm (container_le locale_le) (keep here (values m)),
      sort-IsSorted (container_le locale_le) total (keep here (values m)),
    )
