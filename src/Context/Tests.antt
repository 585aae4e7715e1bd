-- ===== src/Context/Tests.antt =====
-- Runs of the context keys, and the theorems at concrete inputs.
use zaw.Base.{◌≡◌, ◌↔◌, refl, true, false, [], ◌∷◌, some, arith, eq_iff}
use zaw.Base.Dict.{get}
use zaw.Context.{
  boolean, number, ContextKeyExpression, has, equals, not_expr, and_exprs, nil, cons,
  ContextKeyService, Scope, get_value, is_set, strict_eq, evaluate,
}
use zaw.Context.Meaning.{Holds, evaluate_iff}
use zaw.Context.Service.{ContextKey, create_key, added, set_key, get_key}
use zaw.Context.Handles.{IsWellFormed}
use zaw.Context.Watching.{Watch, Watched, set_at, set_in, Settled, set_in_watchers}

abbrev open_key : ContextKey
open_key = record { key = "open"; address = 0 }

abbrev shut : ContextKeyService
shut = record {
  keys = ("open", 0) ∷ [];
  cells = record { default_value = boolean false; value = boolean false } ∷ [];
}

abbrev opened : ContextKeyService
opened = record shut { cells = record { default_value = boolean false; value = boolean true } ∷ [] }

shut-IsWellFormed : IsWellFormed shut
unfolding get
shut-IsWellFormed = record {
  bounded = λ k a e. ground (arith, eq_iff "open" k);
  separate = λ j k a p q. ground (arith, eq_iff "open" j, eq_iff "open" k);
}

opened-IsWellFormed : IsWellFormed opened
unfolding get
opened-IsWellFormed = record {
  bounded = λ k a e. ground (arith, eq_iff "open" k);
  separate = λ j k a p q. ground (arith, eq_iff "open" j, eq_iff "open" k);
}

abbrev guard : ContextKeyExpression
guard = and_exprs (cons (has "open") (cons (not_expr (equals "size" (number 3))) nil))

guard_tests :
    (evaluate (opened ∷ []) guard ≡ true)
    × (evaluate (shut ∷ opened ∷ []) guard ≡ false)
    × (evaluate (record { keys = []; cells = [] } ∷ opened ∷ []) guard ≡ true)
unfolding evaluate get_value is_set strict_eq get
guard_tests = (refl, refl, refl)

created :
    create_key "size" (number 3) shut
    ≡ some (added "size" (number 3) shut, record { key = "size"; address = 1 })
unfolding create_key get
created = refl

set_twice : (set_key open_key (boolean true) shut).1 ≡ true
unfolding set_key get_key strict_eq
set_twice = refl

abbrev nested : Scope
nested = record { keys = []; cells = [] } ∷ opened ∷ []

evaluate_iff_example : (evaluate nested guard ≡ true) ↔ Holds nested guard
evaluate_iff_example = evaluate_iff nested guard

abbrev watch : Watch
watch = record { listener = 7; expr = has "open"; last_value = false }

abbrev before : Watched
before = record { scope = shut ∷ []; watches = watch ∷ [] }

set_in_watchers_example :
    Settled
      (set_at 0 open_key (boolean true) (shut ∷ [])).0
      before
      (set_in 0 open_key (boolean true) before)
unfolding evaluate get_value is_set strict_eq get
set_in_watchers_example = set_in_watchers 0 open_key (boolean true) before (refl, tt)
