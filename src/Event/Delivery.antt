-- ===== src/Event/Delivery.antt =====
-- Who is called when an emitter fires.
use zaw.Base.{
  ℕ, ◌≡◌, refl, ap, true, false, List, [], ◌∷◌, arith, any, nat_eq, Bool-cases, All, some, subst,
  sym, inl, inr,
}
use zaw.Event.{Emitter, Act, includes, deliver, fire_all, fire}

-- `xs` in order, with some elements left out.
pub data IsSubsequence : List ℕ → List ℕ → Type 0 where
  done : IsSubsequence [] []
  skip : {xs ys : List ℕ} (y : ℕ) → IsSubsequence xs ys → IsSubsequence xs (y ∷ ys)
  take : {xs ys : List ℕ} (y : ℕ) → IsSubsequence xs ys → IsSubsequence (y ∷ xs) (y ∷ ys)

empty-IsSubsequence : (ys : List ℕ) → IsSubsequence [] ys
empty-IsSubsequence [] = done
empty-IsSubsequence (y ∷ ys) = skip y (empty-IsSubsequence ys)

deliver-IsSubsequence :
    (act : Act) (queue : List ℕ) (e : Emitter) → IsSubsequence (deliver act queue e).called queue
unfolding deliver
deliver-IsSubsequence act [] e = done
deliver-IsSubsequence act (l ∷ queue) e = elim (Bool-cases (includes l e.listeners)) [
  | inl here ↦ rw here (elim (Bool-cases (act l e).1) [
    | inl threw ↦ rw threw (take l (empty-IsSubsequence queue))
    | inr returned ↦ rw returned (take l (deliver-IsSubsequence act queue (act l e).0))
  ])
  | inr gone ↦ rw gone (skip l (deliver-IsSubsequence act queue e))
]

-- A firing calls listeners of the moment it began, in the order of their subscription, each at most
-- as often as it was subscribed; one subscribed by a callback has to wait for the next firing.
pub fire-IsSubsequence : (act : Act) (e : Emitter) → IsSubsequence (fire act e).called e.listeners
unfolding fire
fire-IsSubsequence act e = go e.listeners
  where
    go : (ls : List ℕ) → IsSubsequence (fire_all act ls e).called ls
    go [] = done
    go (l ∷ ls) = deliver-IsSubsequence act (l ∷ ls) (record e { delivery_queue = some (l ∷ ls) })

-- A callback that leaves the subscriptions alone and returns.
abbrev pub IsQuiet : Act → Type 0
IsQuiet act = (l : ℕ) (e : Emitter) → ((act l e).0.listeners ≡ e.listeners) × ((act l e).1 ≡ false)

abbrev pub Includes : List ℕ → ℕ → Type 0
Includes ls l = includes l ls ≡ true

deliver_quiet :
    (act : Act) (queue : List ℕ) (e : Emitter)
    → IsQuiet act
    → All (Includes e.listeners) queue
    → (deliver act queue e).called ≡ queue
unfolding deliver
deliver_quiet act [] e q h = refl
deliver_quiet act (l ∷ queue) e q h =
    rw (h.0, (q l e).1) (ap (◌∷◌ l) (deliver_quiet act queue (act l e).0 q (rw (q l e).0 h.1)))

All-Includes-cons : (ls xs : List ℕ) → All (Includes ls) xs → (x : ℕ) → All (Includes (x ∷ ls)) xs
unfolding includes any
All-Includes-cons ls [] h x = tt
All-Includes-cons ls (y ∷ xs) h x = (ground arith, All-Includes-cons ls xs h.1 x)

Includes-self : (ls : List ℕ) → All (Includes ls) ls
unfolding includes any
Includes-self [] = tt
Includes-self (l ∷ ls) = (ground arith, All-Includes-cons ls ls (Includes-self ls) l)

-- If no callback touches the subscriptions or throws, a firing calls every listener in order.
pub fire_quiet : (act : Act) (e : Emitter) → IsQuiet act → (fire act e).called ≡ e.listeners
unfolding fire
fire_quiet act e q = go e.listeners refl
  where
    go : (ls : List ℕ) → e.listeners ≡ ls → (fire_all act ls e).called ≡ ls
    go [] h = refl
    go (l ∷ ls) h =
        deliver_quiet act (l ∷ ls) (record e { delivery_queue = some (l ∷ ls) }) q
          (subst (λ xs. All (Includes xs) (l ∷ ls)) (sym h) (Includes-self (l ∷ ls)))

-- A listener that no callback subscribes again.
abbrev pub StaysOut : Act → ℕ → Type 0
StaysOut act l =
    (k : ℕ) (e : Emitter)
    → includes l e.listeners ≡ false
    → includes l (act k e).0.listeners ≡ false

ne_of_includes :
    (k l : ℕ) (ls : List ℕ) → includes k ls ≡ true → includes l ls ≡ false → nat_eq k l ≡ false
unfolding includes any
ne_of_includes k l [] h g = cc
ne_of_includes k l (x ∷ ls) h g = ground (arith, ne_of_includes k l ls)

includes-cons :
    (l k : ℕ) (ls : List ℕ)
    → nat_eq k l ≡ false
    → includes l ls ≡ false
    → includes l (k ∷ ls) ≡ false
unfolding includes any
includes-cons l k ls h g = ground arith

deliver_gone :
    (act : Act) (queue : List ℕ) (e : Emitter) (l : ℕ)
    → StaysOut act l
    → includes l e.listeners ≡ false
    → includes l (deliver act queue e).called ≡ false
unfolding deliver
deliver_gone act [] e l s h = unfold includes any in refl
deliver_gone act (k ∷ queue) e l s h = elim (Bool-cases (includes k e.listeners)) [
  | inl here ↦
      let other = ne_of_includes k l e.listeners here h in
      rw here (elim (Bool-cases (act k e).1) [
        | inl threw ↦ rw threw (includes-cons l k [] other (unfold includes any in refl))
        | inr returned ↦
            rw returned
              (includes-cons l k _ other (deliver_gone act queue (act k e).0 l s (s k e h)))
      ])
  | inr gone ↦ rw gone (deliver_gone act queue e l s h)
]

deliver_first :
    (act : Act) (k : ℕ) (queue : List ℕ) (e : Emitter) (l : ℕ)
    → StaysOut act l
    → includes k e.listeners ≡ true
    → nat_eq k l ≡ false
    → includes l (act k e).0.listeners ≡ false
    → includes l (deliver act (k ∷ queue) e).called ≡ false
unfolding deliver
deliver_first act k queue e l s here other gone = rw here (elim (Bool-cases (act k e).1) [
  | inl threw ↦ rw threw (includes-cons l k [] other (unfold includes any in refl))
  | inr returned ↦
      rw returned (includes-cons l k _ other (deliver_gone act queue (act k e).0 l s gone))
])

-- A listener that the first callback unsubscribes is not called any more in that firing, if no
-- callback subscribes it again.
pub fire_unsubscribed :
    (act : Act) (e : Emitter) (k l : ℕ) (ls : List ℕ)
    → StaysOut act l
    → e.listeners ≡ k ∷ ls
    → nat_eq k l ≡ false
    → includes l (act k (record e { delivery_queue = some (k ∷ ls) })).0.listeners ≡ false
    → includes l (fire act e).called ≡ false
unfolding fire
fire_unsubscribed act e k l ls s h other gone =
    subst (λ xs. includes l (fire_all act xs e).called ≡ false) (sym h)
      (unfold fire_all in
        deliver_first act k ls (record e { delivery_queue = some (k ∷ ls) }) l s
          (subst (λ xs. includes k xs ≡ true) (sym h) (Includes-self (k ∷ ls)).0) other gone)
