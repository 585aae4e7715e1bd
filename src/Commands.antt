-- ===== src/Commands.antt =====
-- packages/workbench/src/platform/commands/command-service.ts: `CommandRegistry`. The arguments and
-- the result of a handler are types of the caller. The services accessor is the scope in which a
-- precondition is evaluated, or nothing while it is not configured.
pub mod Execution
pub mod Tests
use zaw.Base.{String, Bool, true, false, List, Option, none, some, if◌then◌else◌, ◌==◌}
use zaw.Base.Dict.{get, put, delete, has}
use zaw.Context.{ContextKeyExpression, Scope, evaluate}

module _ (Args R : Type 0) where
  pub record CommandDescriptor : Type 0 where
    pub id : String
    pub category : Option String
    pub precondition : Option ContextKeyExpression
    pub validate : Option (Args → Bool)

  pub record RegisteredCommand : Type 0 where
    pub descriptor : CommandDescriptor
    pub handler : Args → R

pub data Outcome (R : Type 0) : Type 0 where
  returned : R → Outcome R
  not_registered : Outcome R
  validation_failed : Outcome R
  accessor_missing : Outcome R
  precondition_failed : Outcome R

abbrev pub passes : {Args : Type 0} → Option (Args → Bool) → Args → Bool
passes none args = true
passes (some f) args = f args

abbrev pub guarded :
    {R : Type 0} → Option Scope → Option ContextKeyExpression → Outcome R → Outcome R
guarded accessor none next = next
guarded none (some e) next = accessor_missing
guarded (some s) (some e) next = if evaluate s e then next else precondition_failed

module _ {Args R : Type 0} where
  -- `{ id, ...descriptor }`
  abbrev pub named : String → RegisteredCommand Args R → RegisteredCommand Args R
  named id c = record c { descriptor = record (c.descriptor) { id = id } }

  -- `none`: the command is already registered, and the call throws.
  unfoldable pub register_command :
      String
      → RegisteredCommand Args R
      → List (String × RegisteredCommand Args R)
      → Option (List (String × RegisteredCommand Args R))
  register_command id c m = if has id m then none else some (put id (named id c) m)

  abbrev pub carries : String → Option (RegisteredCommand Args R) → Bool
  carries id none = false
  carries id (some c) = c.descriptor.id == id

  -- The registry afterwards, and whether `onDidUnregister` fires.
  unfoldable pub dispose_command :
      String
      → List (String × RegisteredCommand Args R)
      → List (String × RegisteredCommand Args R) × Bool
  dispose_command id m = if carries id (get id m) then (delete id m, true) else (m, false)

  unfoldable pub has_command : String → List (String × RegisteredCommand Args R) → Bool
  has_command id m = has id m

  unfoldable pub get_command :
      String → List (String × RegisteredCommand Args R) → Option (CommandDescriptor Args R)
  get_command id m = elim (get id m) [ none ↦ none | some c ↦ some c.descriptor ]

  abbrev pub execute_found : Option Scope → Args → Option (RegisteredCommand Args R) → Outcome R
  execute_found accessor args none = not_registered
  execute_found accessor args (some c) =
      if passes c.descriptor.validate args
      then guarded accessor c.descriptor.precondition (returned (c.handler args))
      else validation_failed

  unfoldable pub execute_command :
      Option Scope → String → Args → List (String × RegisteredCommand Args R) → Outcome R
  execute_command accessor id args m = execute_found accessor args (get id m)
