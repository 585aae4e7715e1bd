-- ===== src/ActiveSession/Table.antt =====
-- A `Map` keyed by `sessionIdentityKey`, in insertion order.
use zaw.Base.{
  ◌≡◌, refl, ap, ◌∙◌, true, List, [], ◌∷◌, Option, none, some, if◌then◌else◌, arith, eq_iff,
  eq_refl,
}
use zaw.ActiveSession.{SessionIdentity, same_session}

module _ {ℓ} {V : Type ℓ} where
  unfoldable pub find_in : SessionIdentity → List (SessionIdentity × V) → Option V
  find_in i [] = none
  find_in i ((j, v) ∷ m) = if same_session j i then some v else find_in i m

  unfoldable pub store :
      SessionIdentity → V → List (SessionIdentity × V) → List (SessionIdentity × V)
  store i v [] = (i, v) ∷ []
  store i v ((j, w) ∷ m) = if same_session j i then (j, v) ∷ m else (j, w) ∷ store i v m

  unfoldable pub forget : SessionIdentity → List (SessionIdentity × V) → List (SessionIdentity × V)
  forget i [] = []
  forget i ((j, w) ∷ m) = if same_session j i then forget i m else (j, w) ∷ forget i m

  pub find_in-store :
      (i j : SessionIdentity) (v : V) (m : List (SessionIdentity × V))
      → find_in j (store i v m) ≡ (if same_session i j then some v else find_in j m)
  unfolding find_in store
  find_in-store i j v [] = refl
  find_in-store i j v ((k, w) ∷ m) = ground (
    arith,
    find_in-store i j v m,
    eq_iff k.workspace_id i.workspace_id,
    eq_iff k.resource i.resource,
    eq_iff k.workspace_id j.workspace_id,
    eq_iff k.resource j.resource,
    eq_iff i.workspace_id j.workspace_id,
    eq_iff i.resource j.resource,
  )

  pub find_in-forget :
      (i j : SessionIdentity) (m : List (SessionIdentity × V))
      → find_in j (forget i m) ≡ (if same_session i j then none else find_in j m)
  unfolding find_in forget
  find_in-forget i j [] = ground arith
  find_in-forget i j ((k, w) ∷ m) = ground (
    arith,
    find_in-forget i j m,
    eq_iff k.workspace_id i.workspace_id,
    eq_iff k.resource i.resource,
    eq_iff k.workspace_id j.workspace_id,
    eq_iff k.resource j.resource,
    eq_iff i.workspace_id j.workspace_id,
    eq_iff i.resource j.resource,
  )

pub same_session_refl : (i : SessionIdentity) → same_session i i ≡ true
same_session_refl i = ground (arith, eq_refl i.workspace_id, eq_refl i.resource)

pub same_session-eq : (i j : SessionIdentity) → same_session i j ≡ true → i ≡ j
same_session-eq i j h =
    ap (λ w. record { workspace_id = w; resource = i.resource }) (workspaces)
    ∙ ap (λ r. record { workspace_id = j.workspace_id; resource = r }) (resources)
  where
    workspaces : i.workspace_id ≡ j.workspace_id
    workspaces = ground (arith, eq_iff i.workspace_id j.workspace_id)

    resources : i.resource ≡ j.resource
    resources = ground (arith, eq_iff i.resource j.resource)
