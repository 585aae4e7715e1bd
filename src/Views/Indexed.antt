-- ===== src/Views/Indexed.antt =====
-- packages/workbench/src/services/workbench-view-registry.ts: `getView` and `getViewContainer` agree.
use zaw.Base.{
  ◌≡◌, refl, sym, ap, ◌∙◌, String, Bool, true, false, not, List, [], ◌∷◌, ◌++◌, Option, none, some,
  ◌==◌, if◌then◌else◌, any, find, keep, is_some, arith, Bool-cases, inl, inr, eq_iff, subst,
}
use zaw.Base.Dict.{get, put, delete, has, get-put, get-delete}
use zaw.Registry.{Result, ok, err}
use zaw.Views.{
  WorkbenchViewDescriptor, Container, ViewsRegistry, empty, views_of, has_id, view_in, get_view,
  get_view_container, register_views, put_containers, delete_containers, put_remaining, removed_by,
  is_removed, remove_views, dispose_views, or_no_views, dispose_removed, repeats,
}

-- A view that is filed under a container is among the views of that container.
abbrev pub IsFiled : ViewsRegistry → Type 0
IsFiled r =
    (id : String) (c : Container)
    → get id r.container_by_view_id ≡ some c
    → any (has_id id) (views_of c.value.id r) ≡ true

get-put_containers :
    (vs : List WorkbenchViewDescriptor) (c : Container) (id : String)
    (m : List (String × Container))
    → get id (put_containers vs c m) ≡ (if any (has_id id) vs then some c else get id m)
unfolding put_containers any
get-put_containers [] c id m = refl
get-put_containers (v ∷ vs) c id m =
    ground (arith, get-put_containers vs c id (put v.id c m), get-put v.id id c m)

get-delete_containers :
    (vs : List WorkbenchViewDescriptor) (id : String) (m : List (String × Container))
    → get id (delete_containers vs m) ≡ (if any (has_id id) vs then none else get id m)
unfolding delete_containers any
get-delete_containers [] id m = refl
get-delete_containers (v ∷ vs) id m =
    ground (arith, get-delete_containers vs id (delete v.id m), get-delete v.id id m)

any-append :
    (p : WorkbenchViewDescriptor → Bool) (xs ys : List WorkbenchViewDescriptor)
    → any p (xs ++ ys) ≡ (if any p xs then true else any p ys)
unfolding any
any-append p [] ys = refl
any-append p (x ∷ xs) ys = ground (arith, any-append p xs ys)

any-keep :
    (removed vs : List WorkbenchViewDescriptor) (id : String)
    → any (has_id id) removed ≡ false
    → any (has_id id) vs ≡ true
    → any (has_id id) (keep (λ v. not (is_removed removed v)) vs) ≡ true
unfolding any keep is_removed
any-keep removed [] id h k = absurd (ground arith)
any-keep removed (v ∷ vs) id h k = elim (Bool-cases (v.id == id)) [
  | inl here ↦
      rw (subst (λ x. any (has_id x) removed ≡ false) (sym ((eq_iff v.id id).0 here)) h)
        (ground arith)
  | inr other ↦ ground (arith, any-keep removed vs id h)
]

find-any :
    (p : WorkbenchViewDescriptor → Bool) (vs : List WorkbenchViewDescriptor)
    → is_some (find p vs) ≡ any p vs
unfolding find any
find-any p [] = refl
find-any p (v ∷ vs) = ground (arith, find-any p vs)

get-put_remaining :
    (k j : String) (vs : List WorkbenchViewDescriptor)
    (m : List (String × List WorkbenchViewDescriptor))
    → or_no_views (get j (put_remaining k vs m)) ≡ (if k == j then vs else or_no_views (get j m))
unfolding put_remaining
get-put_remaining k j [] m = ground (arith, get-delete k j m)
get-put_remaining k j (v ∷ vs) m = ground (arith, get-put k j (v ∷ vs) m)

views-put :
    (k j : String) (vs : List WorkbenchViewDescriptor)
    (m : List (String × List WorkbenchViewDescriptor))
    → or_no_views (get j (put k vs m)) ≡ (if k == j then vs else or_no_views (get j m))
views-put k j vs m = ground (arith, get-put k j vs m)

abbrev id_of : Option Container → String
id_of none = ""
id_of (some c) = c.value.id

kept_in :
    (here same : Bool) (old new before : List WorkbenchViewDescriptor) (id : String)
    → (same ≡ true → before ≡ old)
    → (here ≡ true → same ≡ true)
    → (here ≡ true → any (has_id id) new ≡ true)
    → (here ≡ false → any (has_id id) before ≡ true)
    → any (has_id id) (if same then old ++ new else before) ≡ true
kept_in true true old new before id b g n f =
    rw (any-append (has_id id) old new, n refl) ground arith
kept_in false true old new before id b g n f =
    rw (any-append (has_id id) old new, sym (b refl), f refl) refl
kept_in true false old new before id b g n f = absurd (ground (arith, g refl))
kept_in false false old new before id b g n f = f refl

registered-IsFiled :
    (vs : List WorkbenchViewDescriptor) (c : Container) (r : ViewsRegistry)
    → IsFiled r
    → IsFiled (record {
      container_by_view_id = put_containers vs c r.container_by_view_id;
      views = put c.value.id (views_of c.value.id r ++ vs) r.views;
    })
unfolding views_of
registered-IsFiled vs c r h id d e =
    rw (views-put c.value.id d.value.id (views_of c.value.id r ++ vs) r.views) (
      kept_in (any (has_id id) vs) (c.value.id == d.value.id) (views_of c.value.id r) vs
        (views_of d.value.id r) id
        (λ same. ap (λ k. views_of k r) (sym ((eq_iff c.value.id d.value.id).0 same)))
        (λ here. (eq_iff c.value.id d.value.id).1 (ap id_of (owner here))) (λ k. k)
        (λ gone.
          h id d (sym (get-put_containers vs c id r.container_by_view_id ∙ rw gone refl) ∙ e)))
  where
    owner : any (has_id id) vs ≡ true → some c ≡ some d
    owner here = sym (get-put_containers vs c id r.container_by_view_id ∙ rw here refl) ∙ e

removed-IsFiled :
    (vs : List WorkbenchViewDescriptor) (c : Container) (r : ViewsRegistry)
    → IsFiled r
    → IsFiled (remove_views vs c r)
unfolding remove_views views_of
removed-IsFiled vs c r h id d e = elim (Bool-cases (any (has_id id) vs)) [
  | inl gone ↦ absurd (ground (arith, e, get-delete_containers vs id r.container_by_view_id, gone))
  | inr here ↦
      let before : get id r.container_by_view_id ≡ some d =
        sym (get-delete_containers vs id r.container_by_view_id ∙ rw here refl) ∙ e in
      rw
        (get-put_remaining c.value.id d.value.id
          (keep (λ v. not (is_removed vs v)) (views_of c.value.id r)) r.views)
        (elim (Bool-cases (c.value.id == d.value.id)) [
          | inl same ↦ rw same (
              any-keep vs (views_of c.value.id r) id here (
                subst (λ k. any (has_id id) (views_of k r) ≡ true)
                  (sym ((eq_iff c.value.id d.value.id).0 same)) (h id d before)))
          | inr other ↦ rw other (h id d before)
        ])
]

-- Calls of the registry. A batch that is refused changes nothing.
pub data Event : Type 0 where
  registers : List WorkbenchViewDescriptor → Container → Event
  disposes : List WorkbenchViewDescriptor → Container → Event

abbrev pub or_same : Result ViewsRegistry → ViewsRegistry → ViewsRegistry
or_same (ok r) old = r
or_same (err e) old = old

unfoldable pub step : Event → ViewsRegistry → ViewsRegistry
unfolding register_views dispose_views
step (registers vs c) r = or_same (register_views vs c r) r
step (disposes vs c) r = (dispose_views vs c r).0

unfoldable pub steps : List Event → ViewsRegistry → ViewsRegistry
unfolding step
steps [] r = r
steps (e ∷ es) r = steps es (step e r)

register-IsFiled :
    (vs : List WorkbenchViewDescriptor) (c : Container) (r : ViewsRegistry)
    → IsFiled r
    → IsFiled (or_same (register_views vs c r) r)
unfolding register_views
register-IsFiled vs c r h = elim (Bool-cases (any (λ v. has v.id r.container_by_view_id) vs)) [
  | inl known ↦ rw known h
  | inr unknown ↦ elim (Bool-cases (repeats vs)) [
    | inl twice ↦ rw (unknown, twice) h
    | inr once ↦ rw (unknown, once) (registered-IsFiled vs c r h)
  ]
]

dispose-IsFiled :
    (removed : List WorkbenchViewDescriptor) (c : Container) (r : ViewsRegistry)
    → IsFiled r
    → IsFiled (dispose_removed removed c r).0
unfolding dispose_removed
dispose-IsFiled [] c r h = h
dispose-IsFiled (v ∷ vs) c r h = removed-IsFiled (v ∷ vs) c r h

steps-IsFiled : (es : List Event) (r : ViewsRegistry) → IsFiled r → IsFiled (steps es r)
unfolding steps step dispose_views
steps-IsFiled [] r h = h
steps-IsFiled (registers vs c ∷ es) r h = steps-IsFiled es _ (register-IsFiled vs c r h)
steps-IsFiled (disposes vs c ∷ es) r h =
    steps-IsFiled es _ (dispose-IsFiled (removed_by vs c r) c r h)

view_in_some :
    (id : String) (o : Option Container) (r : ViewsRegistry)
    → get id r.container_by_view_id ≡ o
    → IsFiled r
    → is_some (view_in id o r) ≡ is_some o
unfolding view_in
view_in_some id none r e h = refl
view_in_some id (some c) r e h = find-any (has_id id) (views_of c.value.id r) ∙ h id c e

-- After any calls, and whichever of them were refused, `getView` finds a view exactly for the names for
-- which `getViewContainer` finds a container.
pub get_view-get_view_container :
    (es : List Event) (id : String)
    → is_some (get_view id (steps es empty)) ≡ is_some (get_view_container id (steps es empty))
unfolding get_view get_view_container
get_view-get_view_container es id =
    view_in_some id (get id (steps es empty).container_by_view_id) (steps es empty) refl
      (steps-IsFiled es empty λ i c e. absurd (ground (arith, e)))
