-- ===== src/Views.antt =====
-- packages/workbench/src/services/workbench-view-registry.ts: `WorkbenchViewsRegistry`. The containers are
-- those of Registry/Containers, known by their identity.
pub mod Host
pub mod Indexed
pub mod Owned
pub mod Listed
pub mod Tests
use zaw.Base.{
  ℕ, String, Bool, true, false, not, List, [], ◌∷◌, ◌++◌, Option, none, some, ◌==◌, if◌then◌else◌,
  any, find, keep, is_some,
}
use zaw.Base.Dict.{get, put, delete, has}
use zaw.Base.Sort.{sort}
use zaw.Context.{ContextKeyExpression}
use zaw.Registry.{Ref, Result, ok, err, already_registered, is_same}
use zaw.Registry.Order.{by_order}
use zaw.Registry.Containers.{WorkbenchViewContainer}

pub record WorkbenchViewDescriptor : Type 0 where
  pub id : String
  pub name : String
  pub order : Option ℕ
  pub retain_when_hidden : Bool
  pub condition : Option ContextKeyExpression

abbrev pub Container : Type 0
Container = Ref WorkbenchViewContainer

pub record ViewsRegistry : Type 0 where
  pub container_by_view_id : List (String × Container)
  pub views : List (String × List WorkbenchViewDescriptor)

abbrev pub empty : ViewsRegistry
empty = record { container_by_view_id = []; views = [] }

abbrev pub or_no_views : Option (List WorkbenchViewDescriptor) → List WorkbenchViewDescriptor
or_no_views none = []
or_no_views (some vs) = vs

unfoldable pub views_of : String → ViewsRegistry → List WorkbenchViewDescriptor
unfolding get
views_of k r = or_no_views (get k r.views)

abbrev pub has_id : String → WorkbenchViewDescriptor → Bool
has_id id v = v.id == id

unfoldable pub get_view_container : String → ViewsRegistry → Option Container
unfolding get
get_view_container id r = get id r.container_by_view_id

unfoldable pub view_in : String → Option Container → ViewsRegistry → Option WorkbenchViewDescriptor
unfolding get find views_of
view_in id none r = none
view_in id (some c) r = find (has_id id) (views_of c.value.id r)

unfoldable pub get_view : String → ViewsRegistry → Option WorkbenchViewDescriptor
unfolding get view_in
get_view id r = view_in id (get id r.container_by_view_id) r

unfoldable pub get_views :
    (String → String → Bool) → Container → ViewsRegistry → List WorkbenchViewDescriptor
unfolding get sort by_order views_of
get_views locale_le c r =
    sort (by_order locale_le (λ v. v.order) (λ v. v.id)) (views_of c.value.id r)

-- A view of the batch is registered already, or an earlier one of the batch has its name.
unfoldable pub repeats : List WorkbenchViewDescriptor → Bool
unfolding any
repeats [] = false
repeats (v ∷ vs) = let rest = repeats vs in if any (has_id v.id) vs then true else rest

unfoldable pub put_containers :
    List WorkbenchViewDescriptor → Container → List (String × Container) → List (String × Container)
unfolding put
put_containers [] c m = m
put_containers (v ∷ vs) c m = put_containers vs c (put v.id c m)

unfoldable pub register_views :
    List WorkbenchViewDescriptor → Container → ViewsRegistry → Result ViewsRegistry
unfolding any get put repeats put_containers views_of
register_views vs c r =
    if any (λ v. has v.id r.container_by_view_id) vs
    then err already_registered
    else if repeats vs
    then err already_registered
    else ok (record {
      container_by_view_id = put_containers vs c r.container_by_view_id;
      views = put c.value.id (views_of c.value.id r ++ vs) r.views;
    })

unfoldable pub delete_containers :
    List WorkbenchViewDescriptor → List (String × Container) → List (String × Container)
unfolding delete
delete_containers [] m = m
delete_containers (v ∷ vs) m = delete_containers vs (delete v.id m)

unfoldable pub put_remaining :
    String
    → List WorkbenchViewDescriptor
    → List (String × List WorkbenchViewDescriptor)
    → List (String × List WorkbenchViewDescriptor)
unfolding put delete
put_remaining k [] m = delete k m
put_remaining k (v ∷ vs) m = put k (v ∷ vs) m

-- The views that are still filed under the container.
unfoldable pub removed_by :
    List WorkbenchViewDescriptor → Container → ViewsRegistry → List WorkbenchViewDescriptor
unfolding keep get
removed_by vs c r = keep (λ v. is_same c (get v.id r.container_by_view_id)) vs

unfoldable pub is_removed : List WorkbenchViewDescriptor → WorkbenchViewDescriptor → Bool
unfolding any
is_removed removed v = any (has_id v.id) removed

unfoldable pub remove_views :
    List WorkbenchViewDescriptor → Container → ViewsRegistry → ViewsRegistry
unfolding get keep put_remaining delete_containers is_removed views_of
remove_views removed c r = record {
  container_by_view_id = delete_containers removed r.container_by_view_id;
  views =
      put_remaining c.value.id (keep (λ v. not (is_removed removed v)) (views_of c.value.id r))
        r.views;
}

unfoldable pub dispose_removed :
    List WorkbenchViewDescriptor → Container → ViewsRegistry → ViewsRegistry × Bool
unfolding remove_views
dispose_removed [] c r = (r, false)
dispose_removed (v ∷ vs) c r = (remove_views (v ∷ vs) c r, true)

-- The handle of `register_views`; the flag says whether the event fires.
unfoldable pub dispose_views :
    List WorkbenchViewDescriptor → Container → ViewsRegistry → ViewsRegistry × Bool
unfolding removed_by dispose_removed
dispose_views vs c r = dispose_removed (removed_by vs c r) c r
