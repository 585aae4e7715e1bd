-- ===== src/AhpClient/Numbering.antt =====
-- packages/workbench/src/providers/ahp/ahp-client.ts: the numbers on the frames that are sent.
use zaw.Base.{
  ℕ, zero, suc, ◌+◌, ◌≡◌, refl, ap, ◌∙◌, String, List, [], ◌∷◌, ◌++◌, arith, Bool-cases, inl, inr,
  append-nil, subst,
}
use zaw.Json.{Json}
use zaw.AhpClient.{
  AhpClient, Frame, request_frame, dispatch_frame, fresh_client, request, dispatch, settle,
  on_socket_close, is_pending, Answer,
}
use zaw.AhpClient.Requests.{Event, requests, dispatches, settles, closes, step, steps}

abbrev pub request_ids : List Frame → List ℕ
request_ids [] = []
request_ids (request_frame id m p ∷ fs) = id ∷ request_ids fs
request_ids (dispatch_frame r n a ∷ fs) = request_ids fs

abbrev pub client_seqs : List Frame → List ℕ
client_seqs [] = []
client_seqs (request_frame id m p ∷ fs) = client_seqs fs
client_seqs (dispatch_frame r n a ∷ fs) = n ∷ client_seqs fs

-- `n` numbers from `k` on.
abbrev pub numbers : ℕ → ℕ → List ℕ
numbers k zero = []
numbers k (suc n) = k ∷ numbers (suc k) n

-- The requests, and apart from them the dispatched actions, are numbered 1, 2, 3 and so on as sent.
abbrev pub AreNumbered : ℕ → ℕ → AhpClient → Type 0
AreNumbered m n c =
    ((request_ids c.sent ≡ numbers 1 m) × (c.next_id ≡ 1 + m))
    × ((client_seqs c.sent ≡ numbers 1 n) × (c.next_client_seq ≡ 1 + n))

request_ids-append :
    (fs gs : List Frame) → request_ids (fs ++ gs) ≡ request_ids fs ++ request_ids gs
request_ids-append [] gs = refl
request_ids-append (request_frame id m p ∷ fs) gs = ap (◌∷◌ id) (request_ids-append fs gs)
request_ids-append (dispatch_frame r n a ∷ fs) gs = request_ids-append fs gs

client_seqs-append :
    (fs gs : List Frame) → client_seqs (fs ++ gs) ≡ client_seqs fs ++ client_seqs gs
client_seqs-append [] gs = refl
client_seqs-append (request_frame id m p ∷ fs) gs = client_seqs-append fs gs
client_seqs-append (dispatch_frame r n a ∷ fs) gs = ap (◌∷◌ n) (client_seqs-append fs gs)

numbers-suc : (k n : ℕ) → numbers k n ++ (k + n) ∷ [] ≡ numbers k (suc n)
numbers-suc k zero = ap (λ x. x ∷ []) (omega arith)
numbers-suc k (suc n) =
    ap (◌∷◌ k) (ap (λ x. numbers (suc k) n ++ x ∷ []) (omega arith) ∙ numbers-suc (suc k) n)

-- How many frames of either kind a history sends.
abbrev pub requests_in : List Event → ℕ
requests_in [] = 0
requests_in (requests m p ∷ es) = suc (requests_in es)
requests_in (dispatches r a ∷ es) = requests_in es
requests_in (settles id a ∷ es) = requests_in es
requests_in (closes ∷ es) = requests_in es

abbrev pub dispatches_in : List Event → ℕ
dispatches_in [] = 0
dispatches_in (requests m p ∷ es) = dispatches_in es
dispatches_in (dispatches r a ∷ es) = suc (dispatches_in es)
dispatches_in (settles id a ∷ es) = dispatches_in es
dispatches_in (closes ∷ es) = dispatches_in es

request-AreNumbered :
    (m n : ℕ) (r : String) (p : Json) (c : AhpClient)
    → AreNumbered m n c
    → AreNumbered (suc m) n (request r p c)
unfolding request
request-AreNumbered m n r p c h = (
  (
    request_ids-append c.sent _
        ∙ (ap (λ xs. xs ++ c.next_id ∷ []) h.0.0
            ∙ (ap (λ x. numbers 1 m ++ x ∷ []) h.0.1 ∙ numbers-suc 1 m)),
    omega (arith, h.0.1),
  ),
  (client_seqs-append c.sent _ ∙ (append-nil _ ∙ h.1.0), h.1.1),
)

dispatch-AreNumbered :
    (m n : ℕ) (r : String) (a : Json) (c : AhpClient)
    → AreNumbered m n c
    → AreNumbered m (suc n) (dispatch r a c)
unfolding dispatch
dispatch-AreNumbered m n r a c h = (
  (request_ids-append c.sent _ ∙ (append-nil _ ∙ h.0.0), h.0.1),
  (
    client_seqs-append c.sent _
        ∙ (ap (λ xs. xs ++ c.next_client_seq ∷ []) h.1.0
            ∙ (ap (λ x. numbers 1 n ++ x ∷ []) h.1.1 ∙ numbers-suc 1 n)),
    omega (arith, h.1.1),
  ),
)

settle-AreNumbered :
    (m n id : ℕ) (a : Answer) (c : AhpClient) → AreNumbered m n c → AreNumbered m n (settle id a c)
unfolding settle
settle-AreNumbered m n id a c h = elim (Bool-cases (is_pending id c)) [
  | inl waits ↦ rw waits h
  | inr other ↦ rw other h
]

zero_add : (n : ℕ) → 0 + n ≡ n
zero_add n = omega arith

add_zero : (n : ℕ) → n + 0 ≡ n
add_zero n = omega arith

steps_numbered :
    (m n : ℕ) (es : List Event) (c : AhpClient)
    → AreNumbered m n c
    → AreNumbered (requests_in es + m) (dispatches_in es + n) (steps es c)
unfolding steps step on_socket_close
steps_numbered m n [] c h = rw (zero_add m, zero_add n) h
steps_numbered m n (requests r p ∷ es) c h =
    subst (λ k. AreNumbered k (dispatches_in es + n) (steps es (request r p c))) (omega arith)
      (steps_numbered (suc m) n es (request r p c) (request-AreNumbered m n r p c h))
steps_numbered m n (dispatches r a ∷ es) c h =
    subst (λ k. AreNumbered (requests_in es + m) k (steps es (dispatch r a c))) (omega arith)
      (steps_numbered m (suc n) es (dispatch r a c) (dispatch-AreNumbered m n r a c h))
steps_numbered m n (settles id a ∷ es) c h =
    steps_numbered m n es (settle id a c) (settle-AreNumbered m n id a c h)
steps_numbered m n (closes ∷ es) c h = steps_numbered m n es (on_socket_close c) h

-- The requests that a history sends carry the numbers 1, 2, 3 and so on in the order in which they are sent,
-- so do its client actions on their own, and both counters stand at the next number.
pub steps-AreNumbered :
    (client_id : String) (es : List Event)
    → AreNumbered (requests_in es) (dispatches_in es) (steps es (fresh_client client_id))
steps-AreNumbered client_id es =
    let c = steps es (fresh_client client_id) in
    subst (λ m. AreNumbered m (dispatches_in es) c) (add_zero (requests_in es))
      (subst (λ n. AreNumbered (requests_in es + 0) n c) (add_zero (dispatches_in es))
        (steps_numbered 0 0 es (fresh_client client_id) ((refl, refl), (refl, refl))))
