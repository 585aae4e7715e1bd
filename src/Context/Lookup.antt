-- ===== src/Context/Lookup.antt =====
-- packages/workbench/src/platform/context-key/context-key-service.ts: `getValue`, and what a chain of services
-- says of a key.
use zaw.Base.{
  ℕ, String, [], ◌∷◌, ◌++◌, none, some, All, get_elem?, Option-cases, ◌∙◌, sym, subst, ◌≡◌, ◌⊎◌,
  inl, inr, refl, ap,
}
use zaw.Base.Dict.{get}
use zaw.Context.{ContextKeyService, cell_value, Value, undefined, Scope, get_value}

abbrev pub Lacks : String → ContextKeyService → Type 0
Lacks k service = get k service.keys ≡ none

-- The nearest service of the chain that has the key is `owner`, and its cell has the value.
pub record IsNearest (k : String) (s : Scope) (v : Value) : Type 0 where
  pub inner : Scope
  pub owner : ContextKeyService
  pub outer : Scope
  pub address : ℕ
  pub chain : s ≡ inner ++ owner ∷ outer
  pub lacking : All (Lacks k) inner
  pub owned : get k owner.keys ≡ some address
  pub value_is : cell_value (get_elem? owner.cells address) ≡ v

-- What the scope `s` says of the key: the value that the nearest owner has, or undefined without an owner.
abbrev pub Sees : String → Scope → Value → Type 0
Sees k s v = IsNearest k s v ⊎ (All (Lacks k) s × (v ≡ undefined))

Sees-outer :
    (k : String) (c : ContextKeyService) (s : Scope) (v : Value)
    → Lacks k c
    → Sees k s v
    → Sees k (c ∷ s) v
Sees-outer k c s v lacks (inl near) = inl (record {
  inner = c ∷ near.inner;
  owner = near.owner;
  outer = near.outer;
  address = near.address;
  chain = ap (λ t. c ∷ t) near.chain;
  lacking = (lacks, near.lacking);
  owned = near.owned;
  value_is = near.value_is;
})
Sees-outer k c s v lacks (inr (all, none_has)) = inr ((lacks, all), none_has)

value_passed :
    (k : String) (c : ContextKeyService) (s : Scope)
    → Lacks k c
    → get_value k (c ∷ s) ≡ get_value k s
unfolding get_value
value_passed k c s h = rw (h, get_value) refl

value_owned :
    (k : String) (c : ContextKeyService) (s : Scope) (a : ℕ)
    → get k c.keys ≡ some a
    → get_value k (c ∷ s) ≡ cell_value (get_elem? c.cells a)
unfolding get_value
value_owned k c s a h = rw (h, get_value) refl

pub Sees-value : (k : String) (s : Scope) → Sees k s (get_value k s)
unfolding get_value
Sees-value k [] = inr (tt, refl)
Sees-value k (c ∷ s) = elim (Option-cases (get k c.keys)) [
  | inl lacks ↦
      subst (Sees k (c ∷ s)) (sym (value_passed k c s lacks))
        (Sees-outer k c s (get_value k s) lacks (Sees-value k s))
  | inr (a, owned) ↦ inl (record {
    inner = [];
    owner = c;
    outer = s;
    address = a;
    chain = refl;
    lacking = tt;
    owned = owned;
    value_is = sym (value_owned k c s a owned);
  })
]

value-lacking :
    (k : String) (inner rest : Scope)
    → All (Lacks k) inner
    → get_value k (inner ++ rest) ≡ get_value k rest
unfolding get_value
value-lacking k [] rest h = refl
value-lacking k (c ∷ inner) rest h =
    value_passed k c (inner ++ rest) h.0 ∙ value-lacking k inner rest h.1

value_nowhere : (k : String) (s : Scope) → All (Lacks k) s → get_value k s ≡ undefined
unfolding get_value
value_nowhere k [] h = refl
value_nowhere k (c ∷ s) h = value_passed k c s h.0 ∙ value_nowhere k s h.1

-- No other value is seen.
pub seen : (k : String) (s : Scope) (v : Value) → Sees k s v → get_value k s ≡ v
seen k s v (inl near) =
    ap (get_value k) near.chain
    ∙ value-lacking k near.inner (near.owner ∷ near.outer) near.lacking
    ∙ value_owned k near.owner near.outer near.address near.owned
    ∙ near.value_is
seen k s v (inr (all, unset)) = value_nowhere k s all ∙ sym unset
