-- ===== src/Attachment/Invariant.antt =====
-- What every history of the service keeps.
use zaw.Base.{
  ℕ, suc, ◌≤◌, String, ◌≡◌, refl, true, false, List, [], ◌∷◌, Option, none, some, nat_eq, arith,
  any, Option-cases, inl, inr, ◌||◌, All, All-imp, eq_iff, subst,
}
use zaw.Attachment.{
  Attachment, Pending, initial, includes, holds, close_current, closed_with, attach, reusable,
  detach, begin, heard,
}
use zaw.Attachment.Runs.{Event, attaches, detaches}

-- The workspace that was asked for last, unless it was given up since.
abbrev pub last_request : List Event → Option String
last_request [] = none
last_request (attaches w ∷ es) = some w
last_request (detaches ∷ es) = none
last_request (_ ∷ es) = last_request es

-- Every host that a `connect` gave is closed, unless it is the current one.
abbrev pub IsTidy : Attachment → Type 0
IsTidy s =
    (h : ℕ) → includes h s.opened ≡ true → includes h s.closed ≡ false → holds h s.current ≡ true

-- `last` is the last request.
pub record Inv (last : Option String) (s : Attachment) : Type 0 where
  pub tidy : IsTidy s
  pub bounded : All (λ p. p.generation ≤ s.generation) s.pending
  pub vacant :
      All
        (λ p. p.generation ≡ s.generation → (s.current ≡ none) × (last ≡ some p.workspace))
        s.pending
  pub latest : (w : String) (h : ℕ) → s.current ≡ some (w, h) → last ≡ some w
  pub known : All (λ l. includes l.host s.opened ≡ true) s.subscriptions
  pub once : (w : String) (h : ℕ) → s.current ≡ some (w, h) → heard s h s.subscriptions ≡ w ∷ []

pub includes-cons : (h k : ℕ) (hs : List ℕ) → includes h (k ∷ hs) ≡ (nat_eq k h || includes h hs)
unfolding includes any
includes-cons h k hs = refl

tidy_closed :
    (c : Option (String × ℕ)) (h : ℕ) (hs : List ℕ)
    → (includes h hs ≡ false → holds h c ≡ true)
    → includes h (closed_with c hs) ≡ false
    → ⊥
tidy_closed none h hs t e = cc (t e)
tidy_closed (some (w, k)) h hs t e = ground (arith, includes-cons h k hs)

IsTidy-close_current : (s : Attachment) → IsTidy s → IsTidy (close_current s)
unfolding close_current
IsTidy-close_current s t h o c = absurd (tidy_closed s.current h s.closed (t h o) c)

pub init-Inv : Inv none initial
unfolding includes any
init-Inv = record {
  tidy = λ h o c. cc;
  bounded = tt;
  vacant = tt;
  latest = λ w h e. cc;
  known = tt;
  once = λ w h e. cc;
}

older :
    (g : ℕ) (ps : List Pending)
    → All (λ p. p.generation ≤ g) ps
    → All (λ p. p.generation ≤ suc g) ps
older g ps b = All-imp _ _ ps (λ p h. omega arith) b

never :
    (P : Pending → Type 0) (g : ℕ) (ps : List Pending)
    → All (λ p. p.generation ≤ g) ps
    → All (λ p. p.generation ≡ suc g → P p) ps
never P g ps b = All-imp _ _ ps (λ p h e. absurd (omega arith)) b

begin-Inv :
    (w : String) (last : Option String) (s : Attachment) → Inv last s → Inv (some w) (begin w s)
unfolding close_current
begin-Inv w last s v = record {
  tidy = IsTidy-close_current s v.tidy;
  bounded = (omega arith, older s.generation s.pending v.bounded);
  vacant = (
    (λ e. (refl, refl)),
    never (λ p. (◌≡◌ {A = Option (String × ℕ)} none none) × (some w ≡ some p.workspace))
        s.generation s.pending v.bounded,
  );
  latest = λ u h e. cc;
  known = v.known;
  once = λ u h e. cc;
}

pub detach-Inv : (last : Option String) (s : Attachment) → Inv last s → Inv none (detach s)
unfolding detach
detach-Inv last s v = record {
  tidy = IsTidy-close_current s v.tidy;
  bounded = older s.generation s.pending v.bounded;
  vacant = never _ s.generation s.pending v.bounded;
  latest = λ u h e. cc;
  known = v.known;
  once = λ u h e. cc;
}

-- A call for the workspace that is attached and open changes nothing.
reuse :
    (w : String) (s : Attachment) (k : ℕ)
    → reusable s w s.current ≡ some k
    → s.current ≡ some (w, k)
reuse w s k e = go s.current e
  where
    go : (c : Option (String × ℕ)) → reusable s w c ≡ some k → c ≡ some (w, k)
    go none e = cc
    go (some (v, h)) e = ground (arith, eq_iff v w)

pub attach-Inv :
    (w : String) (last : Option String) (s : Attachment) → Inv last s → Inv (some w) (attach w s).0
unfolding attach
attach-Inv w last s v = elim (Option-cases (reusable s w s.current)) [
  | inl e ↦ rw (e, attach) (begin-Inv w last s v)
  | inr (k, e) ↦ rw (e, attach) (kept (reuse w s k e))
]
  where
    kept : {k : ℕ} → s.current ≡ some (w, k) → Inv (some w) s
    kept {k} c = subst (λ l. Inv l s) (v.latest w k c) v
