-- ===== src/Context/Handles.antt =====
-- Keys and handles: what `createKey`, `set`, `reset` and `dispose` do to the values that a scope shows.
use zaw.Base.{
  ℕ, zero, suc, String, ◌≡◌, ◌≢◌, refl, ap, true, false, List, [], ◌∷◌, ◌++◌, none, some, nat_eq,
  ◌==◌, if◌then◌else◌, get_elem?, length, length-append, arith, eq_refl, eq_iff, Option-cases, inl,
  inr, ◌<◌, ◌∙◌, Bool-cases, nat_eq_refl, ◌⊎◌, ◌↔◌,
}
use zaw.Base.Dict.{get, delete, get-put, get-delete}
use zaw.Context.{Value, strict_eq, TrackedKey, ContextKeyService, Scope, cell_value, get_value}
use zaw.Context.Meaning.{strict_eq_iff}
use zaw.Context.Service.{ContextKey, create_key, added, write, get_key, set_key, dispose_key}

read_write :
    (a b : ℕ) (v : Value) (ts : List TrackedKey)
    → a < length ts
    → cell_value (get_elem? (write a v ts) b)
      ≡ (if nat_eq a b then v else cell_value (get_elem? ts b))
read_write a b v [] h = absurd (omega arith)
read_write zero zero v (t ∷ ts) h = refl
read_write zero (suc b) v (t ∷ ts) h = ground arith
read_write (suc a) zero v (t ∷ ts) h = ground arith
read_write (suc a) (suc b) v (t ∷ ts) h = ground (arith, read_write a b v ts)

cell_last : (ts : List TrackedKey) (t : TrackedKey) → get_elem? (ts ++ t ∷ []) (length ts) ≡ some t
cell_last [] t = refl
cell_last (x ∷ ts) t = cell_last ts t

cell_append :
    (ts us : List TrackedKey) (a : ℕ) → a < length ts → get_elem? (ts ++ us) a ≡ get_elem? ts a
cell_append [] us a h = absurd (omega arith)
cell_append (t ∷ ts) us zero h = refl
cell_append (t ∷ ts) us (suc a) h = cell_append ts us a (omega arith)

-- Every key has a cell of its own.
pub record IsWellFormed (s : ContextKeyService) : Type 0 where
  pub bounded : (k : String) (a : ℕ) → get k s.keys ≡ some a → a < length s.cells
  pub separate : (j k : String) (a : ℕ) → get j s.keys ≡ some a → get k s.keys ≡ some a → j ≡ k

abbrev pub IsLive : ContextKey → ContextKeyService → Type 0
IsLive h s = get h.key s.keys ≡ some h.address

abbrev Created : String → ContextKeyService → ContextKeyService × ContextKey → Value → Type 0
Created k s r v =
    (get k s.keys ≡ none)
    × (r.0 ≡ added k v s)
    × (r.1 ≡ record { key = k; address = length s.cells })

create_key_inv :
    (k : String) (v : Value) (s t : ContextKeyService) (h : ContextKey)
    → create_key k v s ≡ some (t, h)
    → Created k s (t, h) v
unfolding create_key
create_key_inv k v s t h e = ground arith

value_added :
    (k j : String) (v : Value) (s : ContextKeyService) (parents : Scope)
    → IsWellFormed s
    → get_value j (added k v s ∷ parents) ≡ (if k == j then v else get_value j (s ∷ parents))
unfolding get_value added
value_added k j v s parents w =
    rw (get-put k j (length s.cells) s.keys, get_value)
      (elim (Bool-cases (k == j)) [
        | inl same ↦ rw same (ap cell_value (cell_last s.cells _))
        | inr other ↦ rw other (elim (Option-cases (get j s.keys)) [
          | inl e ↦ ground arith
          | inr (a, e) ↦ ground (
            arith,
            cell_append s.cells (record { default_value = v; value = v } ∷ []) a (w.bounded j a e),
          )
        ])
      ])

-- `createKey` on a fresh key shows the default value under it, leaves what the scope shows for
-- every other key, returns a live handle, and a second `createKey` of the same key throws.
pub create_key_lem :
    (k j : String) (v : Value) (s t : ContextKeyService) (h : ContextKey) (parents : Scope)
    → IsWellFormed s
    → create_key k v s ≡ some (t, h)
    → (get_value j (t ∷ parents) ≡ (if k == j then v else get_value j (s ∷ parents)))
      × IsLive h t
      × (create_key k v t ≡ none)
create_key_lem k j v s t h parents w e =
    let (fresh, et, eh) = create_key_inv k v s t h e in
    rw (et, eh) (value_added k j v s parents w, live, again live)
  where
    live : get k (added k v s).keys ≡ some (length s.cells)
    live = unfold added in (get-put k k (length s.cells) s.keys ∙ (rw (eq_refl k)))

    again : get k (added k v s).keys ≡ some (length s.cells) → create_key k v (added k v s) ≡ none
    again l = unfold create_key in (rw l)

added-IsWellFormed :
    (k : String) (v : Value) (s : ContextKeyService) → IsWellFormed s → IsWellFormed (added k v s)
unfolding added
added-IsWellFormed k v s w = record {
  bounded = λ j a e. ground (
    arith,
    get-put k j (length s.cells) s.keys,
    w.bounded j a,
    length-append s.cells (record { default_value = v; value = v } ∷ []),
  );
  separate = λ i j a p q. ground (
    arith,
    get-put k i (length s.cells) s.keys,
    get-put k j (length s.cells) s.keys,
    w.separate i j a,
    w.bounded i a,
    w.bounded j a,
    eq_iff k i,
    eq_iff k j,
  );
}

length-write : (a : ℕ) (v : Value) (ts : List TrackedKey) → length (write a v ts) ≡ length ts
length-write a v [] = refl
length-write zero v (t ∷ ts) = refl
length-write (suc a) v (t ∷ ts) = ap suc (length-write a v ts)

written : ContextKey → Value → ContextKeyService → ContextKeyService
written h v s = record s { cells = write h.address v s.cells }

written-IsWellFormed :
    (h : ContextKey) (v : Value) (s : ContextKeyService)
    → IsWellFormed s
    → IsWellFormed (written h v s)
unfolding written
written-IsWellFormed h v s w = record {
  bounded = λ j a e. omega (arith, length-write h.address v s.cells, w.bounded j a e);
  separate = w.separate;
}

value_written :
    (h : ContextKey) (j : String) (v : Value) (s : ContextKeyService) (parents : Scope)
    → IsWellFormed s
    → IsLive h s
    → get_value j (written h v s ∷ parents) ≡ (if h.key == j then v else get_value j (s ∷ parents))
unfolding get_value written
value_written h j v s parents w live = elim (Option-cases (get j s.keys)) [
  | inl e ↦ ground (arith, eq_iff h.key j)
  | inr (a, e) ↦
      rw (e, get_value)
        (ground (
          arith,
          read_write h.address a v s.cells (w.bounded h.key h.address live),
          w.separate h.key j h.address live,
          eq_iff h.key j,
        ))
]

set_key_cases :
    (h : ContextKey) (v : Value) (s : ContextKeyService)
    → ((set_key h v s ≡ (s, false)) × (get_key h s ≡ v))
      ⊎ ((set_key h v s ≡ (written h v s, true)) × (get_key h s ≢ v))
unfolding set_key written
set_key_cases h v s = elim (Bool-cases (strict_eq (get_key h s) v)) [
  | inl same ↦ inl (rw same, (strict_eq_iff _ v).0 same)
  | inr other ↦ inr (rw other, λ e. ground (arith, (strict_eq_iff (get_key h s) v).1 e))
]

live_value :
    (h : ContextKey) (s : ContextKeyService) (parents : Scope)
    → IsLive h s
    → get_value h.key (s ∷ parents) ≡ get_key h s
unfolding get_value get_key
live_value h s parents live = rw (live, get_value)

-- `set` through a live handle: the scope then shows the value under the key and what it showed
-- before under every other, the change event fires exactly if the value is a new one, and the
-- service stays well formed.
pub set_key_lem :
    (h : ContextKey) (j : String) (v : Value) (s : ContextKeyService) (parents : Scope)
    → IsWellFormed s
    → IsLive h s
    → (get_value j ((set_key h v s).0 ∷ parents)
        ≡ (if h.key == j then v else get_value j (s ∷ parents)))
      × (((set_key h v s).1 ≡ true) ↔ (get_value h.key (s ∷ parents) ≢ v))
      × IsWellFormed (set_key h v s).0
set_key_lem h j v s parents w live = elim (set_key_cases h v s) [
  | inl (e, same) ↦
      rw (e, live_value h s parents live) (kept same, (λ t. cc, λ n. absurd (n same)), w)
  | inr (e, other) ↦
      rw (e, live_value h s parents live)
        (
          value_written h j v s parents w live,
          (λ t. other, λ n. refl),
          written-IsWellFormed h v s w,
        )
]
  where
    kept :
        get_key h s ≡ v
        → get_value j (s ∷ parents) ≡ (if h.key == j then v else get_value j (s ∷ parents))
    kept same = ground (arith, live_value h s parents live, eq_iff h.key j)

value_deleted :
    (k j : String) (s : ContextKeyService) (parents : Scope)
    → get_value j (record s { keys = delete k s.keys } ∷ parents)
      ≡ (if k == j then get_value j parents else get_value j (s ∷ parents))
unfolding get_value
value_deleted k j s parents = ground (arith, get-delete k j s.keys)

-- A live handle's `dispose` uncovers what the parent scopes show under its key, and nothing else
-- changes; a handle that is no longer live disposes nothing.
pub dispose_key_lem :
    (h : ContextKey) (j : String) (s : ContextKeyService) (parents : Scope)
    → (IsLive h s
        → get_value j (dispose_key h s ∷ parents)
          ≡ (if h.key == j then get_value j parents else get_value j (s ∷ parents)))
      × (¬ IsLive h s → dispose_key h s ≡ s)
unfolding dispose_key
dispose_key_lem h j s parents = (
  (λ live. rw (live, nat_eq_refl h.address) (value_deleted h.key j s parents)),
  (λ gone. ground (arith, gone)),
)

cells_kept : (h : ContextKey) (s : ContextKeyService) → (dispose_key h s).cells ≡ s.cells
unfolding dispose_key
cells_kept h s = ground arith

not-IsLive-added :
    (h : ContextKey) (v : Value) (s : ContextKeyService)
    → h.address < length s.cells
    → ¬ IsLive h (added h.key v s)
unfolding added
not-IsLive-added h v s b l =
    ground (arith, get-put h.key h.key (length s.cells) s.keys, eq_refl h.key)

-- After `dispose` the key can be created again, and the old handle cannot take the new key away.
pub dispose_stale :
    (h h' : ContextKey) (v : Value) (s t : ContextKeyService)
    → IsWellFormed s
    → IsLive h s
    → create_key h.key v (dispose_key h s) ≡ some (t, h')
    → dispose_key h t ≡ t
dispose_stale h h' v s t w live e =
    let (fresh, et, eh) = create_key_inv h.key v (dispose_key h s) t h' e in
    rw et (
      (dispose_key_lem h h.key (added h.key v (dispose_key h s)) []).1 (
        not-IsLive-added h v (dispose_key h s)
          (rw (cells_kept h s) (w.bounded h.key h.address live))))
