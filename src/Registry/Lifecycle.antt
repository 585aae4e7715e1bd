-- ===== src/Registry/Lifecycle.antt =====
-- What holds of every registry: registration, disposal, and any history of both.
use zaw.Base.{
  String, ◌≡◌, ◌≢◌, Bool, true, List, [], ◌∷◌, ◌++◌, some, nat_eq_refl, arith, eq_iff, eq_refl,
}
use zaw.Base.Dict.{get, get-put, get-delete, delete-put, put_new}
use zaw.Registry.{Ref, Result, ok, err, already_registered, register, dispose}

module _ {ℓ} {D : Type ℓ} (key : D → String) (allowed : D → Bool) where
  -- A registration appends the descriptor; its handle then gives the registry back as it was, and
  -- the event fires; a second registration of the key is refused in between.
  pub register-dispose :
      (d e : Ref D) (m n : List (String × Ref D))
      → register key allowed d m ≡ ok n
      → key e.value ≡ key d.value
      → (n ≡ m ++ (key d.value, d) ∷ [])
        × (dispose key d n ≡ (m, true))
        × (register key allowed e n ≡ err already_registered)
  unfolding register dispose
  register-dispose d e m n r k = ground (
    arith,
    put_new (key d.value) d m,
    delete-put (key d.value) d m,
    get-put (key d.value) (key d.value) d m,
    eq_refl (key d.value),
    nat_eq_refl d.identity,
  )

  pub data Op : Type ℓ where
    registers disposes : Ref D → Op

  abbrev pub after : List (String × Ref D) → Result (List (String × Ref D)) → List (String × Ref D)
  after m (ok n) = n
  after m (err e) = m

  unfoldable pub step : List (String × Ref D) → Op → List (String × Ref D)
  step m (registers d) = after m (register key allowed d m)
  step m (disposes d) = (dispose key d m).0

  unfoldable pub run : List Op → List (String × Ref D) → List (String × Ref D)
  run [] m = m
  run (op ∷ ops) m = run ops (step m op)

  -- Each entry is filed under its own key and passed the check.
  abbrev pub IsKeyed : List (String × Ref D) → Type ℓ
  IsKeyed m =
      (k : String) (d : Ref D) → get k m ≡ some d → (key d.value ≡ k) × (allowed d.value ≡ true)

  step-IsKeyed : (m : List (String × Ref D)) (op : Op) → IsKeyed m → IsKeyed (step m op)
  unfolding step register dispose
  step-IsKeyed m (registers d) w k e h =
      ground (arith, get-put (key d.value) k d m, w k e, eq_iff (key d.value) k)
  step-IsKeyed m (disposes d) w k e h = ground (arith, get-delete (key d.value) k m, w k e)

  -- After any history of registrations and disposals every entry is filed under its own key and
  -- names a command that the registry accepted.
  pub run-IsKeyed : (ops : List Op) (m : List (String × Ref D)) → IsKeyed m → IsKeyed (run ops m)
  unfolding run
  run-IsKeyed [] m w = w
  run-IsKeyed (op ∷ ops) m w = run-IsKeyed ops (step m op) (step-IsKeyed m op w)

  abbrev pub Spares : Ref D → Op → Type 0
  Spares d (registers e) = Unit
  Spares d (disposes e) = e.identity ≢ d.identity

  abbrev pub AllSpare : Ref D → List Op → Type 0
  AllSpare d [] = Unit
  AllSpare d (op ∷ ops) = Spares d op × AllSpare d ops

  step-Spares :
      (d : Ref D) (m : List (String × Ref D)) (op : Op)
      → Spares d op
      → get (key d.value) m ≡ some d
      → get (key d.value) (step m op) ≡ some d
  unfolding step register dispose
  step-Spares d m (registers e) s h =
      ground (arith, get-put (key e.value) (key d.value) e m, eq_iff (key e.value) (key d.value))
  step-Spares d m (disposes e) s h =
      ground (arith, get-delete (key e.value) (key d.value) m, eq_iff (key e.value) (key d.value))

  -- No handle but its own takes an entry away: while the handle of `d` is not disposed, `d` stays
  -- registered through any history in which no other object has its identity.
  pub run-AllSpare :
      (d : Ref D) (ops : List Op) (m : List (String × Ref D))
      → AllSpare d ops
      → get (key d.value) m ≡ some d
      → get (key d.value) (run ops m) ≡ some d
  unfolding run
  run-AllSpare d [] m s h = h
  run-AllSpare d (op ∷ ops) m s h = run-AllSpare d ops (step m op) s.1 (step-Spares d m op s.0 h)
