-- ===== src/AhpClient/Requests.antt =====
-- packages/workbench/src/providers/ahp/ahp-client.ts: what may happen to the table of requests, in any
-- order: the methods of the client, messages of the host, and the end of the connection.
use zaw.Base.{
  ℕ, ◌+◌, ◌≤◌, ◌≡◌, refl, ap, String, Bool, true, ◌&&◌, List, [], ◌∷◌, ◌++◌, nat_eq, leb, ltb, map,
  keep, any, arith, if◌then◌else◌, Bool-cases, inl, inr,
}
use zaw.Base.Bags.{count, total-append}
use zaw.Json.{Json}
use zaw.AhpClient.{
  AhpClient, Answer, fresh_client, request, dispatch, settle, on_socket_close, is_pending, forget,
  rejected,
}

-- The changes of the table; everything else that a method does leaves it alone.
pub data Event : Type 0 where
  requests : String → Json → Event
  dispatches : String → Json → Event
  settles : ℕ → Answer → Event
  closes : Event

unfoldable pub step : Event → AhpClient → AhpClient
unfolding request dispatch settle on_socket_close
step (requests m p) c = request m p c
step (dispatches channel action) c = dispatch channel action c
step (settles id a) c = settle id a c
step closes c = on_socket_close c

unfoldable pub steps : List Event → AhpClient → AhpClient
unfolding step
steps [] c = c
steps (e ∷ es) c = steps es (step e c)

abbrev pub ids_of : List (ℕ × Answer) → List ℕ
ids_of [] = []
ids_of ((id, a) ∷ rest) = id ∷ ids_of rest

abbrev pub answered : AhpClient → List ℕ
answered c = ids_of c.answers

abbrev pub is_id : ℕ → ℕ → Bool
is_id id i = nat_eq i id

-- Whether a request of that number has been made.
abbrev pub was_made : ℕ → AhpClient → Bool
was_made id c = leb 1 id && ltb id c.next_id

-- A request waits or has been answered, and never both or more than once.
abbrev pub IsLedger : AhpClient → Type 0
IsLedger c =
    (1 ≤ c.next_id)
    × ((id : ℕ)
        → count (is_id id) c.pending + count (is_id id) (answered c)
          ≡ (if was_made id c then 1 else 0))

count-forget :
    (id k : ℕ) (ids : List ℕ)
    → count (is_id id) (forget k ids) ≡ (if nat_eq id k then 0 else count (is_id id) ids)
unfolding keep
count-forget id k [] = ground arith
count-forget id k (i ∷ ids) = ground (arith, count-forget id k ids)

count_none : (id : ℕ) (ids : List ℕ) → any (λ i. nat_eq i id) ids ≡ true → 1 ≤ count (is_id id) ids
unfolding any
count_none id [] h = absurd (ground arith)
count_none id (i ∷ ids) h = ground (arith, count_none id ids)

ids_of-append : (xs ys : List (ℕ × Answer)) → ids_of (xs ++ ys) ≡ ids_of xs ++ ids_of ys
ids_of-append [] ys = refl
ids_of-append ((id, a) ∷ xs) ys = ap (◌∷◌ id) (ids_of-append xs ys)

ids_of-rejected : (e : String) (ids : List ℕ) → ids_of (map (λ id. (id, rejected e)) ids) ≡ ids
ids_of-rejected e [] = refl
ids_of-rejected e (i ∷ ids) = ap (◌∷◌ i) (ids_of-rejected e ids)

pub count-answered :
    (id : ℕ) (xs ys : List (ℕ × Answer))
    → count (is_id id) (ids_of (xs ++ ys))
      ≡ count (is_id id) (ids_of xs) + count (is_id id) (ids_of ys)
count-answered id xs ys = rw (ids_of-append xs ys) (total-append _ (ids_of xs) (ids_of ys))

request-IsLedger : (m : String) (p : Json) (c : AhpClient) → IsLedger c → IsLedger (request m p c)
unfolding request
request-IsLedger m p c (one, h) = (
  omega arith,
  λ id.
      ground
        (arith, h id, total-append (λ i. if is_id id i then 1 else 0) c.pending (c.next_id ∷ [])),
)

settle-IsLedger : (k : ℕ) (a : Answer) (c : AhpClient) → IsLedger c → IsLedger (settle k a c)
unfolding settle
settle-IsLedger k a c (one, h) = elim (Bool-cases (is_pending k c)) [
  | inr other ↦ rw other (one, h)
  | inl waits ↦ rw waits (
    one,
    λ id. ground (
      arith,
      h id,
      count-forget id k c.pending,
      count-answered id c.answers ((k, a) ∷ []),
      count_none k c.pending waits,
    ),
  )
]

abbrev closed_answer : Answer
closed_answer = rejected "Agent Host connection closed"

close-IsLedger : (c : AhpClient) → IsLedger c → IsLedger (on_socket_close c)
unfolding on_socket_close
close-IsLedger c (one, h) = (
  one,
  λ id.
      rw
        (
          count-answered id c.answers (map (λ i. (i, closed_answer)) c.pending),
          ids_of-rejected "Agent Host connection closed" c.pending,
        )
        (omega (arith, h id)),
)

pub step-IsLedger : (e : Event) (c : AhpClient) → IsLedger c → IsLedger (step e c)
unfolding step dispatch
step-IsLedger (requests m p) c h = request-IsLedger m p c h
step-IsLedger (dispatches channel action) c h = h
step-IsLedger (settles id a) c h = settle-IsLedger id a c h
step-IsLedger closes c h = close-IsLedger c h

pub steps_from : (es : List Event) (c : AhpClient) → IsLedger c → IsLedger (steps es c)
unfolding steps
steps_from [] c h = h
steps_from (e ∷ es) c h = steps_from es (step e c) (step-IsLedger e c h)

-- In every history of a connection, a number that was given to a request stands either once among the
-- requests that wait or once among the answers, and no other number stands anywhere.
pub steps-IsLedger :
    (client_id : String) (es : List Event) → IsLedger (steps es (fresh_client client_id))
steps-IsLedger client_id es =
    steps_from es (fresh_client client_id) (ground arith, λ id. ground arith)
