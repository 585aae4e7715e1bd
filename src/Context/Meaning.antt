-- ===== src/Context/Meaning.antt =====
-- What an expression says, and what it depends on.
use zaw.Base.{
  subst, ◌≡◌, ◌≢◌, ◌↔◌, ◌⊎◌, inl, inr, refl, Bool, true, false, not, ◌||◌, arith, eq_iff, ap,
}
use zaw.Context.Lookup.{Sees, Sees-value, seen}
use zaw.Context.{
  Value, undefined, null, boolean, number, text, object, strict_eq, ContextKeyExpression, has,
  equals, not_expr, and_exprs, or_exprs, true_expr, false_expr, Expressions, nil, cons, Scope,
  get_value, is_set, evaluate, every, some_of,
}

-- The meaning, with neither the program's lookup nor its Booleans.
unfoldable mutual
  pub Holds : Scope → ContextKeyExpression → Type 0
  Holds s true_expr = Unit
  Holds s false_expr = ⊥
  Holds s (has k) = (v : Value) × Sees k s v × ((v ≢ undefined) × (v ≢ boolean false) × (v ≢ null))
  Holds s (equals k v) = Sees k s v
  Holds s (not_expr e) = ¬ Holds s e
  Holds s (and_exprs es) = HoldAll s es
  Holds s (or_exprs es) = HoldsSome s es

  pub HoldAll : Scope → Expressions → Type 0
  HoldAll s nil = Unit
  HoldAll s (cons e es) = Holds s e × HoldAll s es

  pub HoldsSome : Scope → Expressions → Type 0
  HoldsSome s nil = ⊥
  HoldsSome s (cons e es) = Holds s e ⊎ HoldsSome s es

pub strict_eq_iff : (v w : Value) → (strict_eq v w ≡ true) ↔ (v ≡ w)
unfolding strict_eq
strict_eq_iff undefined w = ground arith
strict_eq_iff null w = ground arith
strict_eq_iff (boolean true) w = ground arith
strict_eq_iff (boolean false) w = ground arith
strict_eq_iff (number n) w = ground arith
strict_eq_iff (text t) (text u) = (λ h. ap text ((eq_iff t u).0 h), λ h. (eq_iff t u).1 (cc h))
strict_eq_iff (text t) w = ground arith
strict_eq_iff (object n) w = ground arith

is_set_iff : (v : Value) → (is_set v ≡ true) ↔ ((v ≢ undefined) × (v ≢ boolean false) × (v ≢ null))
unfolding is_set
is_set_iff undefined = ground arith
is_set_iff null = ground arith
is_set_iff (boolean true) = ground arith
is_set_iff (boolean false) = ground arith
is_set_iff _ = (λ h. ((λ e. cc), (λ e. cc), (λ e. cc)), λ h. refl)

refute {ℓ} : {P : Type ℓ} (b : Bool) → (b ≡ true → P) → ¬ P → not b ≡ true
refute true f h = absurd (h (f refl))
refute false f h = refl

one_of {ℓ κ} :
    {P : Type ℓ} {Q : Type κ} (a b : Bool)
    → (a ≡ true → P)
    → (b ≡ true → Q)
    → (a || b) ≡ true
    → P ⊎ Q
one_of true b f g h = inl (f refl)
one_of false b f g h = inr (g h)

mutual
  unfolding evaluate Holds

  evaluate_sound : (s : Scope) (e : ContextKeyExpression) → evaluate s e ≡ true → Holds s e
  evaluate_sound s true_expr h = tt
  evaluate_sound s false_expr h = cc
  evaluate_sound s (has k) h = (get_value k s, Sees-value k s, (is_set_iff (get_value k s)).0 h)
  evaluate_sound s (equals k v) h =
      subst (Sees k s) ((strict_eq_iff (get_value k s) v).0 h) (Sees-value k s)
  evaluate_sound s (not_expr e) h = λ p. ground (arith, evaluate_complete s e p)
  evaluate_sound s (and_exprs es) h = every_sound s es h
  evaluate_sound s (or_exprs es) h = some_of_sound s es h

  evaluate_complete : (s : Scope) (e : ContextKeyExpression) → Holds s e → evaluate s e ≡ true
  evaluate_complete s true_expr h = refl
  evaluate_complete s false_expr h = absurd h
  evaluate_complete s (has k) (v, sees, set) = rw (seen k s v sees) ((is_set_iff v).1 set)
  evaluate_complete s (equals k v) h = (strict_eq_iff (get_value k s) v).1 (seen k s v h)
  evaluate_complete s (not_expr e) h = refute (evaluate s e) (evaluate_sound s e) h
  evaluate_complete s (and_exprs es) h = every_complete s es h
  evaluate_complete s (or_exprs es) h = some_of_complete s es h

  every_sound : (s : Scope) (es : Expressions) → every s es ≡ true → HoldAll s es
  every_sound s nil h = tt
  every_sound s (cons e es) h = (evaluate_sound s e (ground arith), every_sound s es (ground arith))

  every_complete : (s : Scope) (es : Expressions) → HoldAll s es → every s es ≡ true
  every_complete s nil h = refl
  every_complete s (cons e es) h =
      ground (arith, evaluate_complete s e h.0, every_complete s es h.1)

  some_of_sound : (s : Scope) (es : Expressions) → some_of s es ≡ true → HoldsSome s es
  some_of_sound s nil h = cc
  some_of_sound s (cons e es) h =
      one_of (evaluate s e) (some_of s es) (evaluate_sound s e) (some_of_sound s es) h

  some_of_complete : (s : Scope) (es : Expressions) → HoldsSome s es → some_of s es ≡ true
  some_of_complete s nil h = absurd h
  some_of_complete s (cons e es) (inl h) = ground (arith, evaluate_complete s e h)
  some_of_complete s (cons e es) (inr h) = ground (arith, some_of_complete s es h)

-- The service's verdict on an expression is the expression's meaning, in both directions. A key has the
-- value that the nearest service of the chain with that key gives it, whatever services lie farther out,
-- and is undefined where no service of the chain has it; `has` says that it is neither undefined nor
-- false nor null, `equals` that it is the given value, and the connectives mean what they do in logic.
pub evaluate_iff : (s : Scope) (e : ContextKeyExpression) → (evaluate s e ≡ true) ↔ Holds s e
evaluate_iff s e = (evaluate_sound s e, evaluate_complete s e)

-- Two scopes agree on the keys that an expression mentions.
unfoldable mutual
  pub Agree : Scope → Scope → ContextKeyExpression → Type 0
  Agree s t true_expr = Unit
  Agree s t false_expr = Unit
  Agree s t (has k) = get_value k s ≡ get_value k t
  Agree s t (equals k v) = get_value k s ≡ get_value k t
  Agree s t (not_expr e) = Agree s t e
  Agree s t (and_exprs es) = AgreeAll s t es
  Agree s t (or_exprs es) = AgreeAll s t es

  pub AgreeAll : Scope → Scope → Expressions → Type 0
  AgreeAll s t nil = Unit
  AgreeAll s t (cons e es) = Agree s t e × AgreeAll s t es

mutual
  unfolding evaluate Agree

  evaluate_local_lem :
      (s t : Scope) (e : ContextKeyExpression) → Agree s t e → evaluate s e ≡ evaluate t e
  evaluate_local_lem s t true_expr h = refl
  evaluate_local_lem s t false_expr h = refl
  evaluate_local_lem s t (has k) h = ap is_set h
  evaluate_local_lem s t (equals k v) h = ap (λ w. strict_eq w v) h
  evaluate_local_lem s t (not_expr e) h = ap not (evaluate_local_lem s t e h)
  evaluate_local_lem s t (and_exprs es) h = every_local s t es h
  evaluate_local_lem s t (or_exprs es) h = some_of_local s t es h

  every_local : (s t : Scope) (es : Expressions) → AgreeAll s t es → every s es ≡ every t es
  every_local s t nil h = refl
  every_local s t (cons e es) h = cc (evaluate_local_lem s t e h.0, every_local s t es h.1)

  some_of_local : (s t : Scope) (es : Expressions) → AgreeAll s t es → some_of s es ≡ some_of t es
  some_of_local s t nil h = refl
  some_of_local s t (cons e es) h = cc (evaluate_local_lem s t e h.0, some_of_local s t es h.1)

-- An expression depends on no key but those that it mentions.
pub evaluate_local :
    (s t : Scope) (e : ContextKeyExpression) → Agree s t e → evaluate s e ≡ evaluate t e
evaluate_local s t e h = evaluate_local_lem s t e h
