-- ===== src/ChatSession/Others.antt =====
-- packages/workbench/src/services/chat-session.ts: what is done to one session, and what the service holds
-- for the others.
use zaw.Base.{
  String, ◌≡◌, refl, ap, ◌∙◌, subst, false, List, Option, ◌==◌, if◌then◌else◌, Bool-cases,
  Option-cases, inl, inr, none, some,
}
use zaw.ActiveSession.{SessionIdentity, same_session}
use zaw.ActiveSession.Table.{
  find_in, store, forget, find_in-store, find_in-forget, same_session_refl,
}
use zaw.ChatSession.{ChatSession, ChatEvent, Changes, event_id, put_event, added}
use zaw.ChatSession.Service.{
  composition, events, active_turn, sync_context_of, update, set_active_turn, replace_events,
  append_event, append_message_delta,
}
use zaw.ChatSession.Events.{events-replace_events, events-set_active_turn, events-update}
use zaw.ChatSession.Keys.{
  Op, selects_session, looks, updates, sets_turn, replaces, appends, appends_delta, step, turned,
}

-- The operation is one on the session `i`.
abbrev pub Concerns : SessionIdentity → Op → Type 0
Concerns i (selects_session c) = ⊥
Concerns i (looks j) = i ≡ j
Concerns i (updates j d) = i ≡ j
Concerns i (sets_turn j t) = i ≡ j
Concerns i (replaces j es) = i ≡ j
Concerns i (appends j e) = i ≡ j
Concerns i (appends_delta j k c) = i ≡ j

-- What operations on the session `i` make of `a`.
pub data Ran (i : SessionIdentity) (a : ChatSession) : ChatSession → Type 0 where
  stays : Ran i a a
  goes_on : (b : ChatSession) (op : Op) → Concerns i op → Ran i a b → Ran i a (step op b)

-- What the service holds for the session `c` is the same.
pub record SameFor (c : SessionIdentity) (s t : ChatSession) : Type 0 where
  pub same_events : events c t ≡ events c s
  pub same_turn : active_turn c t ≡ active_turn c s

sync_turns :
    (i : SessionIdentity) (s : ChatSession) → (sync_context_of i s).active_turns ≡ s.active_turns
unfolding sync_context_of
sync_turns i s = elim (Option-cases s.current) [
  | inl nothing ↦ rw nothing refl
  | inr (c, active) ↦ elim (Bool-cases (same_session i c)) [
    | inl same ↦ rw (active, same) refl
    | inr other ↦ rw (active, other) refl
  ]
]

pub sync_turn :
    (i c : SessionIdentity) (s : ChatSession)
    → active_turn c (sync_context_of i s) ≡ active_turn c s
unfolding active_turn
sync_turn i c s = ap (find_in c) (sync_turns i s)

pub turn-replace_events :
    (i c : SessionIdentity) (es : List ChatEvent) (s : ChatSession)
    → active_turn c (replace_events i es s) ≡ active_turn c s
unfolding replace_events active_turn
turn-replace_events i c es s = sync_turn i c _

replaced :
    (i c : SessionIdentity) (es : List ChatEvent) (s : ChatSession)
    → same_session i c ≡ false
    → SameFor c s (replace_events i es s)
replaced i c es s h = record {
  same_events = events-replace_events i c es s ∙ rw h refl;
  same_turn = turn-replace_events i c es s;
}

pub turn-set_active_turn :
    (i : SessionIdentity) (turn : Option String) (s : ChatSession)
    → active_turn i (set_active_turn i turn s)
      ≡ elim turn [ none ↦ none | some t ↦ if t == "" then none else some t ]
unfolding set_active_turn active_turn
turn-set_active_turn i none s =
    sync_turn i i _ ∙ find_in-forget i i s.active_turns ∙ rw (same_session_refl i) refl
turn-set_active_turn i (some t) s =
    sync_turn i i (record s {
      active_turns = if t == "" then forget i s.active_turns else store i t s.active_turns;
    })
    ∙ (elim (Bool-cases (t == "")) [
      | inl blank ↦ rw blank (find_in-forget i i s.active_turns ∙ rw (same_session_refl i) refl)
      | inr given ↦ rw given (find_in-store i i t s.active_turns ∙ rw (same_session_refl i) refl)
    ])

turned_other :
    (i c : SessionIdentity) (t : Option String) (s : ChatSession)
    → same_session i c ≡ false
    → SameFor c s (set_active_turn i t s)
unfolding set_active_turn active_turn
turned_other i c t s h = record {
  same_events = events-set_active_turn i c t s;
  same_turn = sync_turn i c _ ∙ turned i t s.active_turns c h;
}

looked : (i c : SessionIdentity) (s : ChatSession) → SameFor c s (composition i s).1
unfolding composition events active_turn
looked i c s = elim (Option-cases (find_in i s.compositions)) [
  | inl fresh ↦ rw (fresh, composition) (record { same_events = refl; same_turn = refl })
  | inr (d, known) ↦ rw (known, composition) (record { same_events = refl; same_turn = refl })
]

pub updated : (i c : SessionIdentity) (d : Changes) (s : ChatSession) → SameFor c s (update i d s)
unfolding update active_turn
updated i c d s = record {
  same_events = events-update i c d s;
  same_turn = sync_turn i c _ ∙ (looked i c s).same_turn;
}

step-SameFor :
    (i c : SessionIdentity) (op : Op) (s : ChatSession)
    → same_session i c ≡ false
    → Concerns i op
    → SameFor c s (step op s)
unfolding step append_event append_message_delta replace_events
step-SameFor i c (selects_session _) s h e = elim e [ ]
step-SameFor i c (looks j) s h e = looked j c s
step-SameFor i c (updates j d) s h e = updated j c d s
step-SameFor i c (sets_turn j t) s h e =
    turned_other j c t s (subst (λ k. same_session k c ≡ false) e h)
step-SameFor i c (replaces j es) s h e =
    replaced j c es s (subst (λ k. same_session k c ≡ false) e h)
step-SameFor i c (appends j v) s h e =
    replaced j c (put_event (event_id v) v (events j s)) s
      (subst (λ k. same_session k c ≡ false) e h)
step-SameFor i c (appends_delta j k t) s h e =
    replaced j c (added k t (events j s)) s (subst (λ k. same_session k c ≡ false) e h)

pub Ran-SameFor :
    (i c : SessionIdentity) (a b : ChatSession)
    → Ran i a b
    → same_session i c ≡ false
    → SameFor c a b
Ran-SameFor i c a _ stays h = record { same_events = refl; same_turn = refl }
Ran-SameFor i c a _ (goes_on b op on r) h =
    let first = Ran-SameFor i c a b r h in
    let last = step-SameFor i c op b h on in
    record {
      same_events = last.same_events ∙ first.same_events;
      same_turn = last.same_turn ∙ first.same_turn;
    }
