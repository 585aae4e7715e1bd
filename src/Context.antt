-- ===== src/Context.antt =====
-- packages/workbench/src/platform/context-key: expressions, and the keys of a chain of scopes.
-- A tracked key is a cell, known by its address, so that a handle kept after `dispose` still has it.
-- A scope is the list of its services, the innermost first; what `value === other` compares is a
-- value of the language, objects by their identity.
pub mod Lookup
pub mod Meaning
pub mod Service
pub mod Handles
pub mod Watching
pub mod Tests
use zaw.Base.{
  ℕ, zero, suc, String, Bool, true, false, not, ◌&&◌, ◌||◌, List, [], ◌∷◌, ◌++◌, Option, none, some,
  nat_eq, ◌==◌, if◌then◌else◌, get_elem?,
}
use zaw.Base.Dict.{get}

pub data Value : Type 0 where
  undefined null : Value
  boolean : Bool → Value
  number : ℕ → Value
  text : String → Value
  object : ℕ → Value

abbrev pub bool_eq : Bool → Bool → Bool
bool_eq true b = b
bool_eq false b = not b

-- `===`
unfoldable pub strict_eq : Value → Value → Bool
strict_eq undefined undefined = true
strict_eq null null = true
strict_eq (boolean a) (boolean b) = bool_eq a b
strict_eq (number a) (number b) = nat_eq a b
strict_eq (text a) (text b) = a == b
strict_eq (object a) (object b) = nat_eq a b
strict_eq _ _ = false

mutual
  pub data ContextKeyExpression : Type 0 where
    has : String → ContextKeyExpression
    equals : String → Value → ContextKeyExpression
    not_expr : ContextKeyExpression → ContextKeyExpression
    and_exprs : Expressions → ContextKeyExpression
    or_exprs : Expressions → ContextKeyExpression
    true_expr : ContextKeyExpression
    false_expr : ContextKeyExpression

  pub data Expressions : Type 0 where
    nil : Expressions
    cons : ContextKeyExpression → Expressions → Expressions

pub record TrackedKey : Type 0 where
  pub default_value : Value
  pub value : Value

pub record ContextKeyService : Type 0 where
  pub keys : List (String × ℕ)
  pub cells : List TrackedKey

abbrev pub Scope : Type 0
Scope = List ContextKeyService

abbrev pub cell_value : Option TrackedKey → Value
cell_value none = undefined
cell_value (some t) = t.value

-- A local key hides the parent's, whatever its value.
unfoldable pub get_value : String → Scope → Value
get_value k [] = undefined
get_value k (s ∷ parents) = elim (get k s.keys) [
  | none ↦ get_value k parents
  | some address ↦ cell_value (get_elem? s.cells address)
]

-- The test of `has`: not undefined, false or null.
unfoldable pub is_set : Value → Bool
unfolding strict_eq
is_set v =
    not (strict_eq v undefined) && (not (strict_eq v (boolean false)) && not (strict_eq v null))

unfoldable mutual
  pub evaluate : Scope → ContextKeyExpression → Bool
  evaluate s true_expr = true
  evaluate s false_expr = false
  evaluate s (has k) = is_set (get_value k s)
  evaluate s (equals k v) = strict_eq (get_value k s) v
  evaluate s (not_expr e) = not (evaluate s e)
  evaluate s (and_exprs es) = every s es
  evaluate s (or_exprs es) = some_of s es

  pub every : Scope → Expressions → Bool
  every s nil = true
  every s (cons e es) = evaluate s e && every s es

  pub some_of : Scope → Expressions → Bool
  some_of s nil = false
  some_of s (cons e es) = evaluate s e || some_of s es
