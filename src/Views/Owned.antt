-- ===== src/Views/Owned.antt =====
-- packages/workbench/src/services/workbench-view-host.ts: what becomes of the view instances.
use zaw.Base.{
  ℕ, ◌+◌, ◌≡◌, refl, ap, ◌∙◌, String, Bool, true, false, not, List, [], ◌∷◌, ◌++◌, Option, none,
  some, nat_eq, ltb, ◌==◌, if◌then◌else◌, arith, Bool-cases, inl, inr,
}
use zaw.Base.Bags.{count, total-append}
use zaw.Base.Dict.{get, put}
use zaw.Registry.Containers.{Location}
use zaw.Views.{WorkbenchViewDescriptor, Container, ViewsRegistry}
use zaw.Views.Host.{
  ViewHost, MountedView, Platform, initial, visible, sync_as, sync_view, sync_views, listed,
  is_wanted, sweep, sync, set_container, mount, focus, instances, dispose_mounted, create_view,
  set_visible, focus_mounted, is_active, clear_if,
}

abbrev pub is_number : ℕ → ℕ → Bool
is_number n k = nat_eq k n

-- An instance that was created is either mounted or disposed of, and neither of them twice.
abbrev pub IsOwned : ViewHost → Type 0
IsOwned h =
    (n : ℕ)
    → count (is_number n) (instances h.mounted) + count (is_number n) h.disposed
      ≡ (if ltb n h.next_instance then 1 else 0)

abbrev number_of : Option MountedView → ℕ
number_of none = 0
number_of (some v) = v.instance_number

same : {v u : MountedView} → some v ≡ some u → v.instance_number ≡ u.instance_number
same e = ap number_of e

instances-put_same :
    (id : String) (v w : MountedView) (m : List (String × MountedView))
    → get id m ≡ some v
    → w.instance_number ≡ v.instance_number
    → instances (put id w m) ≡ instances m
unfolding get put
instances-put_same id v w [] e h = absurd (cc)
instances-put_same id v w ((j, u) ∷ m) e h = elim (Bool-cases (j == id)) [
  | inl here ↦ rw here (ap (λ k. k ∷ instances m) (h ∙ same {v = v} {u = u} (ground arith)))
  | inr other ↦ rw other (ap (◌∷◌ u.instance_number) (instances-put_same id v w m (ground arith) h))
]

instances-put_new :
    (id : String) (w : MountedView) (m : List (String × MountedView))
    → get id m ≡ none
    → instances (put id w m) ≡ instances m ++ w.instance_number ∷ []
unfolding get put
instances-put_new id w [] e = refl
instances-put_new id w ((j, u) ∷ m) e = elim (Bool-cases (j == id)) [
  | inl here ↦ absurd (ground arith)
  | inr other ↦ rw other (ap (◌∷◌ u.instance_number) (instances-put_new id w m (ground arith)))
]

shown-IsOwned :
    (id : String) (v : MountedView) (b : Bool) (h : ViewHost)
    → get id h.mounted ≡ some v
    → IsOwned h
    → IsOwned (set_visible id v b h)
unfolding set_visible
shown-IsOwned id v b h e o n =
    rw (instances-put_same id v (record v { hidden = not b }) h.mounted e refl) (o n)

created-IsOwned :
    (id : String) (h : ViewHost) → get id h.mounted ≡ none → IsOwned h → IsOwned (create_view id h)
unfolding create_view
created-IsOwned id h e o n =
    rw
      (instances-put_new id (record { instance_number = h.next_instance; hidden = false }) h.mounted
        e)
      (ground (
        arith,
        o n,
        total-append (λ k. if is_number n k then 1 else 0) (instances h.mounted)
            (h.next_instance ∷ []),
      ))

sync_as-IsOwned :
    (shown retain creates : Bool) (id : String) (o : Option MountedView)
    (s : List String × ViewHost)
    → get id s.1.mounted ≡ o
    → IsOwned s.1
    → IsOwned (sync_as shown retain creates id o s).1
unfolding sync_as
sync_as-IsOwned false true creates id (some v) s e h = shown-IsOwned id v false s.1 e h
sync_as-IsOwned false true creates id none s e h = h
sync_as-IsOwned false false creates id o s e h = h
sync_as-IsOwned true retain creates id (some v) s e h = shown-IsOwned id v true s.1 e h
sync_as-IsOwned true retain true id none s e h = created-IsOwned id s.1 e h
sync_as-IsOwned true retain false id none s e h = h

sync_views-IsOwned :
    (p : Platform) (ds : List WorkbenchViewDescriptor) (s : List String × ViewHost)
    → IsOwned s.1
    → IsOwned (sync_views p ds s).1
unfolding sync_views sync_view
sync_views-IsOwned p [] s h = h
sync_views-IsOwned p (d ∷ ds) s h = sync_views-IsOwned p ds (sync_view p d s) (
    sync_as-IsOwned (visible p d) d.retain_when_hidden (p.creates d) d.id (get d.id s.1.mounted) s
      refl h)

-- The views of `rest` are still to be looked at, those of the host itself are not counted.
sweep_owned :
    (wanted : List String) (rest : List (String × MountedView)) (h : ViewHost) (n : ℕ)
    → count (is_number n) (instances (sweep wanted rest h).mounted)
        + count (is_number n) (sweep wanted rest h).disposed
      ≡ count (is_number n) (instances rest) + count (is_number n) h.disposed
unfolding sweep
sweep_owned wanted [] h n = refl
sweep_owned wanted ((id, v) ∷ rest) h n = elim (Bool-cases (is_wanted wanted id)) [
  | inl here ↦ rw here (omega (arith, sweep_owned wanted rest h n))
  | inr gone ↦ rw gone (
      omega (
        arith,
        sweep_owned wanted rest
            (record h {
              disposed = h.disposed ++ v.instance_number ∷ [];
              active_view_id = clear_if (is_active id h.active_view_id) h.active_view_id;
            })
            n,
        total-append (λ k. if is_number n k then 1 else 0) h.disposed (v.instance_number ∷ []),
      ))
]

sweep_next :
    (wanted : List String) (rest : List (String × MountedView)) (h : ViewHost)
    → (sweep wanted rest h).next_instance ≡ h.next_instance
unfolding sweep
sweep_next wanted [] h = refl
sweep_next wanted ((id, v) ∷ rest) h = elim (Bool-cases (is_wanted wanted id)) [
  | inl here ↦ rw here (sweep_next wanted rest h)
  | inr gone ↦ rw gone (sweep_next wanted rest _)
]

sweep-IsOwned :
    (wanted : List String) (h : ViewHost) → IsOwned h → IsOwned (sweep wanted h.mounted h)
sweep-IsOwned wanted h o n =
    rw (sweep_next wanted h.mounted h) (sweep_owned wanted h.mounted h n ∙ o n)

either-IsOwned : (b : Bool) (h k : ViewHost) → IsOwned h → IsOwned k → IsOwned (if b then h else k)
either-IsOwned true h k o q = o
either-IsOwned false h k o q = q

sync-IsOwned :
    (p : Platform) (cs : List Container) (r : ViewsRegistry) (h : ViewHost)
    → IsOwned h
    → IsOwned (sync p cs r h)
unfolding sync
sync-IsOwned p cs r h o =
    let s = sync_views p (listed p h.locations cs r) ([], h) in
    either-IsOwned h.has_container (sweep s.0 s.1.mounted s.1) h
      (sweep-IsOwned s.0 s.1 (sync_views-IsOwned p (listed p h.locations cs r) ([], h) o)) o

-- What happens to a host: at each event the registries and the conditions are as they then are.
pub data Event : Type 0 where
  syncs : Platform → List Container → ViewsRegistry → Event
  mounts : Platform → List Container → ViewsRegistry → Location → Event
  sets_container : Event
  focuses : String → Event
  disposes : Event

unfoldable pub step : Event → ViewHost → ViewHost
unfolding sync mount set_container focus dispose_mounted
step (syncs p cs r) h = sync p cs r h
step (mounts p cs r l) h = mount p cs r l h
step sets_container h = set_container h
step (focuses id) h = (focus id h).0
step disposes h = dispose_mounted h

unfoldable pub steps : List Event → ViewHost → ViewHost
unfolding step
steps [] h = h
steps (e ∷ es) h = steps es (step e h)

focus_mounted-IsOwned :
    (id : String) (o : Option MountedView) (h : ViewHost)
    → IsOwned h
    → IsOwned (focus_mounted id o h).0
focus_mounted-IsOwned id none h o = o
focus_mounted-IsOwned id (some v) h o = elim (Bool-cases v.hidden) [
  | inl off ↦ rw off o
  | inr on ↦ rw on o
]

step-IsOwned : (e : Event) (h : ViewHost) → IsOwned h → IsOwned (step e h)
unfolding step mount set_container focus dispose_mounted
step-IsOwned (syncs p cs r) h o = sync-IsOwned p cs r h o
step-IsOwned (mounts p cs r l) h o = sync-IsOwned p cs r _ o
step-IsOwned sets_container h o = o
step-IsOwned (focuses id) h o = focus_mounted-IsOwned id (get id h.mounted) h o
step-IsOwned disposes h o = λ n. omega (
  arith,
  o n,
  total-append (λ k. if is_number n k then 1 else 0) h.disposed (instances h.mounted),
)

later-IsOwned : (es : List Event) (h : ViewHost) → IsOwned h → IsOwned (steps es h)
unfolding steps
later-IsOwned [] h o = o
later-IsOwned (e ∷ es) h o = later-IsOwned es (step e h) (step-IsOwned e h o)

-- Whatever happens to a host, every view instance that it has created is either mounted or has been
-- disposed of, and none is mounted twice, disposed of twice or both mounted and disposed of.
pub steps-IsOwned : (es : List Event) → IsOwned (steps es initial)
steps-IsOwned es = later-IsOwned es initial λ n. ground arith
