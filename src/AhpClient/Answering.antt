-- ===== src/AhpClient/Answering.antt =====
-- packages/workbench/src/providers/ahp/ahp-client.ts: every request comes to an end.
use zaw.Base.{ℕ, ◌≤◌, ◌≡◌, String, true, List, [], ◌∷◌, map, arith, Bool-cases, inl, inr}
use zaw.Base.Bags.{count}
use zaw.AhpClient.{
  AhpClient, fresh_client, request, dispatch, settle, on_socket_close, is_pending, rejected,
}
use zaw.AhpClient.Requests.{
  Event, requests, dispatches, settles, closes, step, steps, IsLedger, answered, is_id, was_made,
  count-answered, steps_from, step-IsLedger, steps-IsLedger,
}

abbrev times_answered : ℕ → AhpClient → ℕ
times_answered id c = count (is_id id) (answered c)

step-answered :
    (id : ℕ) (e : Event) (c : AhpClient) → times_answered id c ≤ times_answered id (step e c)
unfolding step request dispatch settle on_socket_close
step-answered id (requests m p) c = omega arith
step-answered id (dispatches channel action) c = omega arith
step-answered id (settles k a) c = elim (Bool-cases (is_pending k c)) [
  | inl waits ↦ rw waits (omega (arith, count-answered id c.answers ((k, a) ∷ [])))
  | inr other ↦ rw other (omega arith)
]
step-answered id closes c = omega (
  arith,
  count-answered id c.answers (map (λ i. (i, rejected "Agent Host connection closed")) c.pending),
)

steps-answered :
    (id : ℕ) (es : List Event) (c : AhpClient)
    → times_answered id c ≤ times_answered id (steps es c)
unfolding steps
steps-answered id [] c = omega arith
steps-answered id (e ∷ es) c = omega (arith, step-answered id e c, steps-answered id es (step e c))

step-made :
    (id : ℕ) (e : Event) (c : AhpClient) → was_made id c ≡ true → was_made id (step e c) ≡ true
unfolding step request dispatch settle on_socket_close
step-made id (requests m p) c h = ground arith
step-made id (dispatches channel action) c h = h
step-made id (settles k a) c h = elim (Bool-cases (is_pending k c)) [
  | inl waits ↦ rw waits h
  | inr other ↦ rw other h
]
step-made id closes c h = h

steps-made :
    (id : ℕ) (es : List Event) (c : AhpClient)
    → was_made id c ≡ true
    → was_made id (steps es c) ≡ true
unfolding steps
steps-made id [] c h = h
steps-made id (e ∷ es) c h = steps-made id es (step e c) (step-made id e c h)

closed-answered :
    (id : ℕ) (c : AhpClient)
    → IsLedger c
    → was_made id c ≡ true
    → times_answered id (step closes c) ≡ 1
unfolding step on_socket_close
closed-answered id c h made = ground (arith, (step-IsLedger closes c h).1 id)

-- When the connection ends, each request that was made in the history before has been answered, once, by
-- the host or by the end itself; and whatever the client does afterwards, it is not answered again.
pub closes-answered :
    (client_id : String) (es fs : List Event) (id : ℕ)
    → was_made id (steps es (fresh_client client_id)) ≡ true
    → count (is_id id) (answered (steps fs (step closes (steps es (fresh_client client_id))))) ≡ 1
closes-answered client_id es fs id made =
    let before = steps es (fresh_client client_id) in
    let ledger = steps-IsLedger client_id es in
    let after = step closes before in
    ground (
      arith,
      closed-answered id before ledger made,
      steps-answered id fs after,
      steps-made id fs after (step-made id closes before made),
      (steps_from fs after (step-IsLedger closes before ledger)).1 id,
    )
