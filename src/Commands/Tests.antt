-- ===== src/Commands/Tests.antt =====
-- Runs of the command registry, and the theorems at concrete inputs.
use zaw.Base.{ℕ, String, ◌≡◌, ◌↔◌, refl, true, List, [], ◌∷◌, none, some, ltb, ◌+◌}
use zaw.Base.Dict.{get}
use zaw.Context.{true_expr, evaluate}
use zaw.Commands.{
  RegisteredCommand, returned, not_registered, validation_failed, accessor_missing, execute_command,
  passes,
}
use zaw.Commands.Execution.{Admits, execute_command_iff}

-- Doubles a number below 10.
abbrev doubling : RegisteredCommand ℕ ℕ
doubling = record {
  descriptor = record {
    id = "double";
    category = none;
    precondition = some true_expr;
    validate = some (λ n. ltb n 10);
  };
  handler = λ n. n + n;
}

abbrev commands : List (String × RegisteredCommand ℕ ℕ)
commands = ("double", doubling) ∷ []

execute_tests :
    (execute_command (some []) "double" 4 commands ≡ returned 8)
    × (execute_command (some []) "double" 12 commands ≡ validation_failed)
    × (execute_command none "double" 4 commands ≡ accessor_missing)
    × (execute_command (some []) "halve" 4 commands ≡ not_registered)
unfolding execute_command get evaluate
execute_tests = (refl, refl, refl, refl)

execute_command_iff_example : (execute_command (some []) "double" 4 commands ≡ returned 8) ↔ (
    (c : RegisteredCommand ℕ ℕ) × (get "double" commands ≡ some c)
    × (passes c.descriptor.validate 4 ≡ true)
    × Admits (some []) c.descriptor.precondition
    × (c.handler 4 ≡ 8))
execute_command_iff_example = execute_command_iff (some []) "double" 4 commands 8

abbrev tripling : RegisteredCommand ℕ ℕ
tripling = record doubling { handler = λ n. n + n + n }
