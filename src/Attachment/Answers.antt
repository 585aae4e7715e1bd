-- ===== src/Attachment/Answers.antt =====
-- The provider's answers keep the invariant.
use zaw.Base.{
  ℕ, String, ◌≡◌, refl, true, false, List, [], ◌∷◌, Option, none, some, find, nat_eq, nat_eq_iff,
  arith, Option-cases, inl, inr, Bool-cases, not, All, All-find, All-imp, All-keep, All-keep_self,
  ◌∙◌,
}
use zaw.Attachment.{
  Attachment, Pending, Subscription, includes, is_current, resolve, reject, heard, without,
}
use zaw.Attachment.Invariant.{Inv, includes-cons}

-- `heard` reads nothing of the state but its generation and its current host.
pub heard_same :
    (s t : Attachment) (h : ℕ) (ls : List Subscription)
    → s.generation ≡ t.generation
    → s.current ≡ t.current
    → heard s h ls ≡ heard t h ls
unfolding is_current
heard_same s t h [] g c = refl
heard_same s t h (l ∷ ls) g c = rw (g, c, heard_same s t h ls g c)

heard_unknown :
    (s : Attachment) (h : ℕ) (hs : List ℕ) (ls : List Subscription)
    → All (λ l. includes l.host hs ≡ true) ls
    → includes h hs ≡ false
    → heard s h ls ≡ []
heard_unknown s h hs [] k f = refl
heard_unknown s h hs (l ∷ ls) k f =
    ground (arith, heard_unknown s h hs ls k.1 f, nat_eq_iff l.host h, k.0)

opened_more :
    (h : ℕ) (hs : List ℕ) (ls : List Subscription)
    → All (λ l. includes l.host hs ≡ true) ls
    → All (λ l. includes l.host (h ∷ hs) ≡ true) ls
opened_more h hs ls k = All-imp _ _ ls (λ l e. ground (arith, includes-cons l.host h hs)) k

abbrev opening : Pending → ℕ → Attachment → Attachment
opening p h s = record s { pending = without p.generation s.pending; opened = h ∷ s.opened }

abbrev subscribed : Pending → ℕ → Subscription
subscribed p h = record { generation = p.generation; host = h; workspace = p.workspace }

abbrev taken : Pending → ℕ → Attachment → Attachment
taken p h s = record (opening p h s) {
  current = some (p.workspace, h);
  subscriptions = subscribed p h ∷ s.subscriptions;
}

heard-taken :
    (s : Attachment) (p : Pending) (h : ℕ)
    → All (λ l. includes l.host s.opened ≡ true) s.subscriptions
    → p.generation ≡ s.generation
    → includes h s.opened ≡ false
    → heard (taken p h s) h (subscribed p h ∷ s.subscriptions) ≡ p.workspace ∷ []
unfolding is_current
heard-taken s p h k e f = ground (
  arith,
  heard_unknown (taken p h s) h s.opened s.subscriptions k f,
  nat_eq_iff h h,
  nat_eq_iff p.generation s.generation,
)

taken-Inv :
    (s : Attachment) (p : Pending) (h : ℕ) (last : Option String)
    → Inv last s
    → p.generation ≡ s.generation
    → s.current ≡ none
    → last ≡ some p.workspace
    → includes h s.opened ≡ false
    → Inv last (taken p h s)
taken-Inv s p h last v e empty r f = record {
  tidy = λ k o c. ground (arith, includes-cons k h s.opened, v.tidy k);
  bounded = All-keep _ _ s.pending v.bounded;
  vacant =
      All-imp _ _ (without p.generation s.pending) (λ q n g. absurd (ground arith))
        (All-keep_self (λ q. not (nat_eq q.generation p.generation)) s.pending);
  latest = λ w k c. ground arith;
  known =
      (ground (arith, includes-cons h h s.opened), opened_more h s.opened s.subscriptions v.known);
  once = λ w k c. ground (arith, heard-taken s p h v.known e f);
}

late_call :
    (s : Attachment) (p : Pending) (h : ℕ) (last : Option String)
    → Inv last s
    → nat_eq p.generation s.generation ≡ false
    → Inv last (record (opening p h s) { closed = h ∷ s.closed })
late_call s p h last v e = record {
  tidy = λ k o c. ground (arith, includes-cons k h s.opened, includes-cons k h s.closed, v.tidy k);
  bounded = All-keep _ _ s.pending v.bounded;
  vacant = All-keep _ _ s.pending v.vacant;
  latest = v.latest;
  known = opened_more h s.opened s.subscriptions v.known;
  once = λ w k c.
      heard_same (record (opening p h s) { closed = h ∷ s.closed }) s k s.subscriptions refl refl
      ∙ v.once w k c;
}

pub reject-Inv :
    (g : ℕ) (last : Option String) (s : Attachment) → Inv last s → Inv last (reject g s)
unfolding reject
reject-Inv g last s v = record {
  tidy = v.tidy;
  bounded = All-keep _ _ s.pending v.bounded;
  vacant = All-keep _ _ s.pending v.vacant;
  latest = v.latest;
  known = v.known;
  once = λ w k c.
      heard_same (record s { pending = without g s.pending }) s k s.subscriptions refl refl
      ∙ v.once w k c;
}

pub resolve-Inv :
    (g h : ℕ) (last : Option String) (s : Attachment)
    → (includes h s.opened ≡ false) × (includes h s.closed ≡ false)
    → Inv last s
    → Inv last (resolve g h s).0
unfolding resolve
resolve-Inv g h last s f v = elim (Option-cases (find (λ p. nat_eq p.generation g) s.pending)) [
  | inl e ↦ rw e v
  | inr (p, e) ↦ rw e (elim (Bool-cases (nat_eq p.generation s.generation)) [
    | inl now ↦
        let (empty, asked) = (All-find _ _ s.pending p v.vacant e).0 ((nat_eq_iff _ _).0 now) in
        rw now (taken-Inv s p h last v ((nat_eq_iff _ _).0 now) empty asked f.0)
    | inr late ↦ rw late (late_call s p h last v late)
  ])
]
