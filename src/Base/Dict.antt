-- ===== src/Base/Dict.antt =====
-- A JavaScript `Map` keyed by text, in insertion order: `set` on a known key keeps its place.
use Prim.Native.String.{String}
use mathlib.Core.Path.{◌≡◌, refl}
use mathlib.Core.Bool.{Bool}
use mathlib.Core.Option.{Option, none, some}
use mathlib.Core.List.{List, [], ◌∷◌, ◌++◌, map}
use native.Mathlib.Omega.{arith}
use text.Mathlib.Text.{◌==◌}
use text.Mathlib.TextEquality.{eq_iff}
use text.Mathlib.TextPositions.{eq_refl}
use zaw.Base.Tests.{if◌then◌else◌, is_some}

module _ {ℓ} {V : Type ℓ} where
  unfoldable pub get : String → List (String × V) → Option V
  get k [] = none
  get k ((j, v) ∷ m) = if j == k then some v else get k m

  unfoldable pub put : String → V → List (String × V) → List (String × V)
  put k v [] = (k, v) ∷ []
  put k v ((j, w) ∷ m) = if j == k then (k, v) ∷ m else (j, w) ∷ put k v m

  unfoldable pub delete : String → List (String × V) → List (String × V)
  delete k [] = []
  delete k ((j, w) ∷ m) = if j == k then delete k m else (j, w) ∷ delete k m

  abbrev pub has : String → List (String × V) → Bool
  has k m = is_some (get k m)

  abbrev pub values : List (String × V) → List V
  values m = map (λ e. e.1) m

  abbrev pub keys : List (String × V) → List String
  keys m = map (λ e. e.0) m

  pub get-put :
      (k j : String) (v : V) (m : List (String × V))
      → get j (put k v m) ≡ (if k == j then some v else get j m)
  unfolding get put
  get-put k j v [] = refl
  get-put k j v ((i, w) ∷ m) = ground (arith, eq_iff k j, eq_iff i k, eq_iff i j, get-put k j v m)

  pub get-delete :
      (k j : String) (m : List (String × V))
      → get j (delete k m) ≡ (if k == j then none else get j m)
  unfolding get delete
  get-delete k j [] = ground arith
  get-delete k j ((i, w) ∷ m) = ground (arith, eq_iff k j, eq_iff i k, eq_iff i j, get-delete k j m)

  -- A new key goes to the end, and taking it away again gives the map back.
  pub put_new :
      (k : String) (v : V) (m : List (String × V)) → get k m ≡ none → put k v m ≡ m ++ (k, v) ∷ []
  unfolding get put
  put_new k v [] h = refl
  put_new k v ((i, w) ∷ m) h = ground (arith, put_new k v m)

  pub delete_absent : (k : String) (m : List (String × V)) → get k m ≡ none → delete k m ≡ m
  unfolding get delete
  delete_absent k [] h = refl
  delete_absent k ((i, w) ∷ m) h = ground (arith, delete_absent k m)

  pub delete-put :
      (k : String) (v : V) (m : List (String × V)) → get k m ≡ none → delete k (put k v m) ≡ m
  unfolding get put delete
  delete-put k v [] h = ground (arith, eq_refl k)
  delete-put k v ((i, w) ∷ m) h = ground (arith, delete-put k v m)
