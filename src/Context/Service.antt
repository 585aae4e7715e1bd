-- ===== src/Context/Service.antt =====
-- packages/workbench/src/platform/context-key/context-key-service.ts: `createKey` and the handles that it returns.
use zaw.Base.{
  ℕ, zero, suc, String, Bool, true, false, List, [], ◌∷◌, ◌++◌, Option, none, some, nat_eq,
  if◌then◌else◌, get_elem?, length,
}
use zaw.Base.Dict.{get, put, delete, has}
use zaw.Context.{Value, undefined, strict_eq, TrackedKey, ContextKeyService, Scope, cell_value}

-- What `createKey` returns closes over the key and its cell.
pub record ContextKey : Type 0 where
  pub key : String
  pub address : ℕ

unfoldable pub added : String → Value → ContextKeyService → ContextKeyService
added k v s = record {
  keys = put k (length s.cells) s.keys;
  cells = s.cells ++ record { default_value = v; value = v } ∷ [];
}

-- `none`: the key is already registered, and the call throws.
unfoldable pub create_key :
    String → Value → ContextKeyService → Option (ContextKeyService × ContextKey)
create_key k v s =
    if has k s.keys then none else some (added k v s, record { key = k; address = length s.cells })

abbrev pub write : ℕ → Value → List TrackedKey → List TrackedKey
write a v [] = []
write zero v (t ∷ ts) = record t { value = v } ∷ ts
write (suc a) v (t ∷ ts) = t ∷ write a v ts

unfoldable pub get_key : ContextKey → ContextKeyService → Value
get_key h s = cell_value (get_elem? s.cells h.address)

-- The service after `set`, and whether the change event fires.
unfoldable pub set_key : ContextKey → Value → ContextKeyService → ContextKeyService × Bool
unfolding get_key
set_key h v s =
    if strict_eq (get_key h s) v
    then (s, false)
    else (record s { cells = write h.address v s.cells }, true)

abbrev pub default_of : Option TrackedKey → Value
default_of none = undefined
default_of (some t) = t.default_value

unfoldable pub reset_key : ContextKey → ContextKeyService → ContextKeyService × Bool
unfolding set_key
reset_key h s = set_key h (default_of (get_elem? s.cells h.address)) s

abbrev pub points_to : ℕ → Option ℕ → Bool
points_to a none = false
points_to a (some b) = nat_eq b a

unfoldable pub dispose_key : ContextKey → ContextKeyService → ContextKeyService
dispose_key h s =
    if points_to h.address (get h.key s.keys) then record s { keys = delete h.key s.keys } else s

-- A child scope starts with no key of its own.
unfoldable pub create_scoped : Scope → Scope
create_scoped s = record { keys = []; cells = [] } ∷ s
