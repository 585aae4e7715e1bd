-- ===== src/Registry.antt =====
-- The registries of descriptors: what they share, and one child for each registry of the source.
-- A descriptor is an object, so it is known by its identity; two of them may be alike and distinct.
pub mod Lifecycle
pub mod Order
pub mod Actions
pub mod Keybindings
pub mod Statuses
pub mod Providers
pub mod Contributions
pub mod Containers
pub mod Tests
use zaw.Base.{
  ℕ, String, Bool, true, false, List, [], ◌∷◌, Option, none, some, nat_eq, if◌then◌else◌,
}
use zaw.Base.Dict.{get, put, delete, has}

pub record Ref {ℓ} (D : Type ℓ) : Type ℓ where
  pub identity : ℕ
  pub value : D

pub data Error : Type 0 where
  already_registered unknown_command : Error

pub data Result {ℓ} (A : Type ℓ) : Type ℓ where
  ok : A → Result A
  err : Error → Result A

module _ {ℓ} {D : Type ℓ} where
  abbrev pub is_same : Ref D → Option (Ref D) → Bool
  is_same d none = false
  is_same d (some e) = nat_eq e.identity d.identity

  -- `key` is what the registry files the descriptor under; `allowed` is its check of the command.
  unfoldable pub register :
      (D → String) → (D → Bool) → Ref D → List (String × Ref D) → Result (List (String × Ref D))
  register key allowed d m =
      if has (key d.value) m
      then err already_registered
      else if allowed d.value
      then ok (put (key d.value) d m)
      else err unknown_command

  -- The registry after the handle's `dispose`, and whether the change event fires.
  unfoldable pub dispose :
      (D → String) → Ref D → List (String × Ref D) → List (String × Ref D) × Bool
  dispose key d m =
      if is_same d (get (key d.value) m) then (delete (key d.value) m, true) else (m, false)
