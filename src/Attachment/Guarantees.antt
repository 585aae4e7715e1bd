-- ===== src/Attachment/Guarantees.antt =====
-- What any history of the service guarantees to its callers.
use zaw.Base.{
  ℕ, String, ◌≡◌, inl, inr, refl, false, List, [], ◌∷◌, Option, none, some, nat_eq, nat_eq_iff,
  arith, if◌then◌else◌, ap, Bool-cases, ◌∙◌,
}
use zaw.Attachment.{
  Attachment, Subscription, holds, is_current, heard, on_action, close_heard, on_close,
}
use zaw.Attachment.Runs.{Event, Reach}
use zaw.Attachment.Invariant.{last_request, IsTidy}
use zaw.Attachment.Answers.{heard_same}
use zaw.Attachment.Closing.{Reach-Inv, close_heard_none}

-- In every history no host leaks: each host that a `connect` has given is closed, unless it is the
-- current one. The provider is asked for a new, open host at every `connect`.
pub Reach-IsTidy : {es : List Event} {s : Attachment} → Reach es s → IsTidy s
Reach-IsTidy r = (Reach-Inv r).tidy

-- In every history, however the answers of the provider are delayed and reordered, the current
-- host belongs to the workspace that `attach` was called for last, with no `detach` since.
pub Reach-last_request :
    {es : List Event} {s : Attachment} (w : String) (h : ℕ)
    → Reach es s
    → s.current ≡ some (w, h)
    → last_request es ≡ some w
Reach-last_request w h r e = (Reach-Inv r).latest w h e

heard_other :
    (s : Attachment) (h : ℕ) (ls : List Subscription)
    → holds h s.current ≡ false
    → heard s h ls ≡ []
unfolding is_current
heard_other s h [] e = refl
heard_other s h (l ∷ ls) e = ground (arith, heard_other s h ls e)

-- The workspace whose current host `h` is, if it is one's current host.
abbrev pub of_current : ℕ → Option (String × ℕ) → List String
of_current h none = []
of_current h (some (w, k)) = if nat_eq k h then w ∷ [] else []

-- In every history an action of the current host is passed on once, for its workspace, and an
-- action of any other host is dropped.
pub Reach-on_action :
    {es : List Event} {s : Attachment} (h : ℕ) → Reach es s → on_action h s ≡ of_current h s.current
unfolding on_action
Reach-on_action {s} h r = go s.current refl
  where
    go : (c : Option (String × ℕ)) → s.current ≡ c → heard s h s.subscriptions ≡ of_current h c
    go none e = heard_other s h s.subscriptions (rw e refl)
    go (some (w, k)) e = elim (Bool-cases (nat_eq k h)) [
      | inl same ↦
          rw same ((Reach-Inv r).once w h (e ∙ ap (λ x. some (w, x)) ((nat_eq_iff k h).0 same)))
      | inr other ↦ rw other (heard_other s h s.subscriptions (rw (e, other) refl))
    ]

close_heard_current :
    (h : ℕ) (w : String) (ls : List Subscription) (s : Attachment)
    → heard s h ls ≡ w ∷ []
    → close_heard h ls s ≡ (record s { current = none }, w ∷ [])
close_heard_current h w [] s e = cc
close_heard_current h w (l ∷ ls) s e = ground (
  arith,
  close_heard_current h w ls s,
  close_heard_none h ls (record s { current = none })
      (heard_other (record s { current = none }) h ls refl),
)

-- In every history, when the current host closes from its own side it is given up and the close
-- listeners hear of its workspace once; the closing of any other host leaves the current one and is
-- not passed on.
pub Reach-on_close :
    {es : List Event} {s : Attachment} (h : ℕ)
    → Reach es s
    → ((on_close h s).0.current ≡ (if holds h s.current then none else s.current))
      × ((on_close h s).1 ≡ of_current h s.current)
unfolding on_close
Reach-on_close {s} h r = go s.current refl
  where
    noted : Attachment
    noted = record s { closed = h ∷ s.closed }

    go :
        (c : Option (String × ℕ))
        → s.current ≡ c
        → ((close_heard h s.subscriptions noted).0.current ≡ (if holds h c then none else c))
          × ((close_heard h s.subscriptions noted).1 ≡ of_current h c)
    go none e =
        rw
          (close_heard_none h s.subscriptions noted
            (heard_other noted h s.subscriptions (rw e refl)))
          (e, refl)
    go (some (w, k)) e = elim (Bool-cases (nat_eq k h)) [
      | inl same ↦
          rw
            (
              close_heard_current h w s.subscriptions noted (
                  heard_same noted s h s.subscriptions refl refl
                  ∙ (Reach-Inv r).once w h (e ∙ ap (λ x. some (w, x)) ((nat_eq_iff k h).0 same))),
              same,
            )
            (refl, refl)
      | inr other ↦
          rw
            (
              close_heard_none h s.subscriptions noted
                  (heard_other noted h s.subscriptions (rw (e, other) refl)),
              other,
            )
            (e, refl)
    ]
