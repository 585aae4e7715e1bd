-- ===== src/Attachment/Closing.antt =====
-- What hosts do from their own side, and whole histories.
use zaw.Base.{
  ℕ, String, ◌≡◌, refl, true, false, List, [], ◌∷◌, Option, none, some, nat_eq_iff, arith, inl, inr,
  All-imp, ◌∙◌, ◌⊎◌,
}
use zaw.Attachment.{
  Attachment, Subscription, includes, holds, is_current, close_heard, on_close, heard,
}
use zaw.Attachment.Runs.{
  Event, attaches, resolves, rejects, detaches, closes, step, Reach, start, next, IsFresh,
}
use zaw.Attachment.Invariant.{last_request, Inv, includes-cons, init-Inv, attach-Inv, detach-Inv}
use zaw.Attachment.Answers.{heard_same, resolve-Inv, reject-Inv}

-- A host that closes: the listeners put on it clear the current host if it is that one.
close_heard_cases :
    (h : ℕ) (ls : List Subscription) (s : Attachment)
    → ((close_heard h ls s).0 ≡ s)
      ⊎ (((close_heard h ls s).0 ≡ record s { current = none }) × (holds h s.current ≡ true))
unfolding is_current
close_heard_cases h [] s = inl refl
close_heard_cases h (l ∷ ls) s =
    ground (arith, close_heard_cases h ls s, close_heard_cases h ls (record s { current = none }))

-- If nothing is heard of the host, nothing happens; else the current host is gone.
pub close_heard_none :
    (h : ℕ) (ls : List Subscription) (s : Attachment)
    → heard s h ls ≡ []
    → close_heard h ls s ≡ (s, [])
close_heard_none h [] s e = refl
close_heard_none h (l ∷ ls) s e = ground (arith, close_heard_none h ls s)

abbrev noted : ℕ → Attachment → Attachment
noted h s = record s { closed = h ∷ s.closed }

noted-Inv : (h : ℕ) (last : Option String) (s : Attachment) → Inv last s → Inv last (noted h s)
noted-Inv h last s v = record {
  tidy = λ k o c. ground (arith, includes-cons k h s.closed, v.tidy k);
  bounded = v.bounded;
  vacant = v.vacant;
  latest = v.latest;
  known = v.known;
  once = λ w k c. heard_same (noted h s) s k s.subscriptions refl refl ∙ v.once w k c;
}

same_host : (c : Option (String × ℕ)) (h k : ℕ) → holds h c ≡ true → holds k c ≡ true → h ≡ k
same_host none h k p q = cc
same_host (some (w, j)) h k p q = ground arith

cleared-Inv :
    (h : ℕ) (last : Option String) (s : Attachment)
    → holds h s.current ≡ true
    → Inv last s
    → Inv last (record (noted h s) { current = none })
cleared-Inv h last s own v = record {
  tidy = λ k o c. absurd (lost k o c);
  bounded = v.bounded;
  vacant = All-imp _ _ s.pending (λ p f e. (refl, (f e).1)) v.vacant;
  latest = λ w k e. cc;
  known = v.known;
  once = λ w k e. cc;
}
  where
    lost : (k : ℕ) → includes k s.opened ≡ true → includes k (h ∷ s.closed) ≡ false → ⊥
    lost k o c =
        ground (
          arith,
          includes-cons k h s.closed,
          v.tidy k o,
          same_host s.current h k own,
          nat_eq_iff h k,
        )

on_close-Inv :
    (h : ℕ) (last : Option String) (s : Attachment) → Inv last s → Inv last (on_close h s).0
unfolding on_close
on_close-Inv h last s v = elim (close_heard_cases h s.subscriptions (noted h s)) [
  | inl e ↦ rw e (noted-Inv h last s v)
  | inr (e, own) ↦ rw e (cleared-Inv h last s own v)
]

step-Inv :
    (es : List Event) (e : Event) (s : Attachment)
    → IsFresh e s
    → Inv (last_request es) s
    → Inv (last_request (e ∷ es)) (step e s)
unfolding step
step-Inv es (attaches w) s f v = attach-Inv w (last_request es) s v
step-Inv es (resolves g h) s f v = resolve-Inv g h (last_request es) s f v
step-Inv es (rejects g) s f v = reject-Inv g (last_request es) s v
step-Inv es detaches s f v = detach-Inv (last_request es) s v
step-Inv es (closes h) s f v = on_close-Inv h (last_request es) s v

pub Reach-Inv : {es : List Event} {s : Attachment} → Reach es s → Inv (last_request es) s
Reach-Inv start = init-Inv
Reach-Inv (next {es} {s} e r f) = step-Inv es e s f (Reach-Inv r)
