-- ===== src/Commands/Execution.antt =====
-- When a command runs, how it fails, and what a handle's `dispose` does.
use zaw.Base.{
  String, ◌≡◌, ◌≢◌, ◌↔◌, inl, inr, refl, true, false, List, Option, none, some, arith, Option-cases,
  Bool-cases, eq_refl,
}
use zaw.Base.Dict.{get, get-put, delete-put}
use zaw.Context.{ContextKeyExpression, Scope, evaluate}
use zaw.Commands.{
  RegisteredCommand, returned, not_registered, validation_failed, register_command, dispose_command,
  passes, guarded, named, execute_found, execute_command,
}

-- The precondition holds in the configured scope, or there is none.
abbrev pub Admits : Option Scope → Option ContextKeyExpression → Type 0
Admits accessor none = Unit
Admits none (some e) = ⊥
Admits (some s) (some e) = evaluate s e ≡ true

guarded_iff :
    {R : Type 0} (a : Option Scope) (e : Option ContextKeyExpression) (r q : R)
    → (guarded a e (returned r) ≡ returned q) ↔ (Admits a e × (r ≡ q))
guarded_iff a none r q = ground arith
guarded_iff none (some e) r q = ground arith
guarded_iff (some s) (some e) r q = ground arith

guarded-ne :
    {R : Type 0} (a : Option Scope) (e : Option ContextKeyExpression) (r : R)
    → (guarded a e (returned r) ≢ not_registered) × (guarded a e (returned r) ≢ validation_failed)
guarded-ne a none r = ground arith
guarded-ne none (some e) r = ground arith
guarded-ne (some s) (some e) r = ground arith

module _ {Args R : Type 0} where
  -- A command runs its handler exactly if it is registered, its arguments pass its validator, and
  -- its precondition holds in the configured scope.
  pub execute_command_iff :
      (a : Option Scope) (id : String) (args : Args) (m : List (String × RegisteredCommand Args R))
      (r : R)
      → (execute_command a id args m ≡ returned r) ↔ (
          (c : RegisteredCommand Args R) × (get id m ≡ some c)
          × (passes c.descriptor.validate args ≡ true)
          × Admits a c.descriptor.precondition
          × (c.handler args ≡ r))
  unfolding execute_command
  execute_command_iff a id args m r = (
    (λ e. run (get id m) refl e),
    (λ (c, found, ok_args, admitted, same). rw found (
        rw ok_args
          ((guarded_iff a c.descriptor.precondition (c.handler args) r).1 (admitted, same)))),
  )
    where
      run :
          (o : Option (RegisteredCommand Args R))
          → get id m ≡ o
          → execute_found a args o ≡ returned r
          → (c : RegisteredCommand Args R) × (get id m ≡ some c)
            × (passes c.descriptor.validate args ≡ true)
            × Admits a c.descriptor.precondition
            × (c.handler args ≡ r)
      run none found e = cc
      run (some c) found e = elim (Bool-cases (passes c.descriptor.validate args)) [
        | inl valid ↦
            let (admitted, same) =
              (guarded_iff a c.descriptor.precondition (c.handler args) r).0 (ground arith) in
            (c, found, valid, admitted, same)
        | inr bad ↦ absurd (ground arith)
      ]

  -- The checks come in this order: an unknown command fails as such whatever the arguments; a known
  -- one whose arguments do not pass fails so whatever its precondition says.
  pub execute_command_fails :
      (a : Option Scope) (id : String) (args : Args) (m : List (String × RegisteredCommand Args R))
      → ((execute_command a id args m ≡ not_registered) ↔ (get id m ≡ none))
        × ((execute_command a id args m ≡ validation_failed) ↔ (
            (c : RegisteredCommand Args R) × (get id m ≡ some c)
            × (passes c.descriptor.validate args ≡ false)))
  unfolding execute_command
  execute_command_fails a id args m = elim (Option-cases (get id m)) [
    | inl missing ↦ (
      ((λ e. missing), (λ e. ground arith)),
      ((λ e. absurd (ground arith)), (λ (c, found, bad). ground arith)),
    )
    | inr (c, found) ↦
        let other = guarded-ne a c.descriptor.precondition (c.handler args) in
        (
          ((λ e. absurd (ground (arith, other))), (λ e. absurd (ground arith))),
          ((λ e. (c, found, ground (arith, other))), (λ (d, same, bad). ground arith)),
        )
  ]

  -- Once its command is unregistered and another is registered under the same name, the first
  -- handle's `dispose` unregisters that other command.
  pub dispose_command_stale :
      (id : String) (c d : RegisteredCommand Args R)
      (m n k : List (String × RegisteredCommand Args R))
      → register_command id c m ≡ some n
      → register_command id d (dispose_command id n).0 ≡ some k
      → (get id k ≡ some (named id d)) × (dispose_command id k ≡ (m, true))
  unfolding register_command dispose_command
  dispose_command_stale id c d m n k first second = ground (
    arith,
    get-put id id (named id c) m,
    delete-put id (named id c) m,
    get-put id id (named id d) m,
    delete-put id (named id d) m,
    eq_refl id,
  )
