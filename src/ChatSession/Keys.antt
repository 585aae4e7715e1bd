-- ===== src/ChatSession/Keys.antt =====
-- packages/workbench/src/services/chat-session.ts: the context keys follow the active session.
use zaw.Base.{
  String, ◌≡◌, refl, sym, ap, ◌∙◌, subst, false, List, [], ◌∷◌, Option, none, some, ◌==◌,
  if◌then◌else◌, any, Bool-cases, Option-cases, inl, inr,
}
use zaw.ActiveSession.{SessionIdentity, same_session}
use zaw.ActiveSession.Table.{find_in, store, forget, find_in-store, find_in-forget}
use zaw.Json.{Json}
use zaw.ChatSession.Storage.{persist, restore}
use zaw.ChatSession.{
  changed, ChatComposition, ChatSession, ChatEvent, Changes, is_pending, has_text, or_else,
}
use zaw.ChatSession.Service.{
  composition, events, active_turn, sync_context, sync_context_of, selects, update, set_active_turn,
  replace_events, append_event, append_message_delta,
}

-- Both keys say of the session what the service holds for it.
abbrev pub Says : SessionIdentity → ChatSession → Type 0
Says c s =
    (s.turn_context ≡ has_text (active_turn c s))
    × (s.approval_context ≡ any is_pending (events c s))

abbrev pub SaysOf : Option SessionIdentity → ChatSession → Type 0
SaysOf none s = Unit
SaysOf (some c) s = Says c s

abbrev pub IsSynced : ChatSession → Type 0
IsSynced s = SaysOf s.current s

pub data Op : Type 0 where
  selects_session : Option SessionIdentity → Op
  looks : SessionIdentity → Op
  updates : SessionIdentity → Changes → Op
  sets_turn : SessionIdentity → Option String → Op
  replaces : SessionIdentity → List ChatEvent → Op
  appends : SessionIdentity → ChatEvent → Op
  appends_delta : SessionIdentity → String → String → Op

unfoldable pub step : Op → ChatSession → ChatSession
step (selects_session c) s = selects c s
step (looks i) s = (composition i s).1
step (updates i c) s = update i c s
step (sets_turn i t) s = set_active_turn i t s
step (replaces i es) s = replace_events i es s
step (appends i e) s = append_event i e s
step (appends_delta i k c) s = append_message_delta i k c s

unfoldable pub run : List Op → ChatSession → ChatSession
unfolding step
run [] s = s
run (op ∷ ops) s = run ops (step op s)

-- A change that only touches what is held for the session `i`.
record OnlyOf (i : SessionIdentity) (s t : ChatSession) : Type 0 where
  current_kept : t.current ≡ s.current
  turn_kept : t.turn_context ≡ s.turn_context
  approval_kept : t.approval_context ≡ s.approval_context
  turns_kept : (c : SessionIdentity) → same_session i c ≡ false → active_turn c t ≡ active_turn c s
  events_kept : (c : SessionIdentity) → same_session i c ≡ false → events c t ≡ events c s

sync-SaysOf :
    (i : SessionIdentity) (s t : ChatSession) (o : Option SessionIdentity)
    → OnlyOf i s t
    → s.current ≡ o
    → SaysOf o s
    → SaysOf (sync_context_of i t).current (sync_context_of i t)
unfolding sync_context_of events active_turn
sync-SaysOf i s t none k e h = rw (k.current_kept ∙ e) tt
sync-SaysOf i s t (some c) k e h = elim (Bool-cases (same_session i c)) [
  | inl same ↦ rw (k.current_kept ∙ e, same) (refl, refl)
  | inr other ↦
      rw (k.current_kept ∙ e, other)
        (
          k.turn_kept ∙ h.0 ∙ ap has_text (sym (k.turns_kept c other)),
          k.approval_kept ∙ h.1 ∙ ap (any is_pending) (sym (k.events_kept c other)),
        )
]

pub composition-fields :
    (i : SessionIdentity) (s : ChatSession)
    → (l : List (SessionIdentity × ChatComposition)) × ((composition i s).1
        ≡ record s { compositions = l })
unfolding composition
composition-fields i s = elim (Option-cases (find_in i s.compositions)) [
  | inl fresh ↦
      (store i (restore (find_in i s.stored)) s.compositions, rw (fresh, composition) refl)
  | inr (c, known) ↦ (s.compositions, rw (known, composition) refl)
]

stored_state :
    SessionIdentity → Json → List (SessionIdentity × ChatComposition) → ChatSession → ChatSession
stored_state i v l s = record s { compositions = l; stored = store i v s.stored }

update-fields :
    (i : SessionIdentity) (d : Changes) (s : ChatSession)
    → (v : Json) × (l : List (SessionIdentity × ChatComposition)) × (update i d s
        ≡ sync_context_of i (stored_state i v l s))
unfolding update stored_state
update-fields i d s =
    let next = changed d (composition i s).0 in
    let fields = composition-fields i s in
    (
      persist next,
      store i next fields.0,
      ap
          (λ t. sync_context_of i (record t {
            compositions = store i next t.compositions;
            stored = store i (persist next) t.stored;
          }))
          fields.1,
    )

other :
    (i c : SessionIdentity) (es : List ChatEvent) (m : List (SessionIdentity × List ChatEvent))
    → same_session i c ≡ false
    → (if same_session i c then some es else find_in c m) ≡ find_in c m
other i c es m h = rw h refl

SaysOf-compositions :
    (o : Option SessionIdentity) (s : ChatSession) (l : List (SessionIdentity × ChatComposition))
    → SaysOf o s
    → SaysOf o (record s { compositions = l })
unfolding events active_turn
SaysOf-compositions none s l h = tt
SaysOf-compositions (some c) s l h = h

stored-OnlyOf :
    (i : SessionIdentity) (v : Json) (l : List (SessionIdentity × ChatComposition))
    (s : ChatSession)
    → OnlyOf i s (stored_state i v l s)
unfolding stored_state events active_turn
stored-OnlyOf i v l s = record {
  current_kept = refl;
  turn_kept = refl;
  approval_kept = refl;
  turns_kept = λ c h. refl;
  events_kept = λ c h. refl;
}

message-OnlyOf :
    (i : SessionIdentity) (es : List ChatEvent) (s : ChatSession)
    → OnlyOf i s (record s { messages = store i es s.messages })
unfolding events active_turn
message-OnlyOf i es s = record {
  current_kept = refl;
  turn_kept = refl;
  approval_kept = refl;
  turns_kept = λ c h. refl;
  events_kept =
      λ c h. ap (λ o. or_else o []) (find_in-store i c es s.messages ∙ other i c es s.messages h);
}

turn-OnlyOf :
    (i : SessionIdentity) (t : List (SessionIdentity × String)) (s : ChatSession)
    → ((c : SessionIdentity) → same_session i c ≡ false → find_in c t ≡ find_in c s.active_turns)
    → OnlyOf i s (record s { active_turns = t })
unfolding events active_turn
turn-OnlyOf i t s k = record {
  current_kept = refl;
  turn_kept = refl;
  approval_kept = refl;
  turns_kept = λ c h. k c h;
  events_kept = λ c h. refl;
}

forget-others :
    (i c : SessionIdentity) (m : List (SessionIdentity × String))
    → same_session i c ≡ false
    → find_in c (forget i m) ≡ find_in c m
forget-others i c m h = find_in-forget i c m ∙ rw h refl

store-others :
    (i c : SessionIdentity) (t : String) (m : List (SessionIdentity × String))
    → same_session i c ≡ false
    → find_in c (store i t m) ≡ find_in c m
store-others i c t m h = find_in-store i c t m ∙ rw h refl

pub turned :
    (i : SessionIdentity) (turn : Option String) (m : List (SessionIdentity × String))
    (c : SessionIdentity)
    → same_session i c ≡ false
    → find_in c
        (elim turn [ none ↦ forget i m | some t ↦ if t == "" then forget i m else store i t m ])
      ≡ find_in c m
turned i none m c h = forget-others i c m h
turned i (some t) m c h = elim (Bool-cases (t == "")) [
  | inl blank ↦ rw blank (forget-others i c m h)
  | inr given ↦ rw given (store-others i c t m h)
]

kept-selects :
    (o : Option SessionIdentity) (s : ChatSession) → SaysOf (selects o s).current (selects o s)
unfolding selects sync_context events active_turn
kept-selects none s = tt
kept-selects (some c) s = (refl, refl)

pub IsSynced-step : (op : Op) (s : ChatSession) → IsSynced s → IsSynced (step op s)
unfolding step replace_events append_event append_message_delta set_active_turn stored_state events
    active_turn
IsSynced-step (selects_session o) s h = kept-selects o s
IsSynced-step (looks i) s h = looked (composition-fields i s)
  where
    looked :
        (l : List (SessionIdentity × ChatComposition)) × ((composition i s).1
            ≡ record s { compositions = l })
        → SaysOf (composition i s).1.current (composition i s).1
    looked (l, e) = subst (λ t. SaysOf t.current t) (sym e) (SaysOf-compositions s.current s l h)
IsSynced-step (updates i d) s h = updated (update-fields i d s)
  where
    updated :
        (v : Json) × (l : List (SessionIdentity × ChatComposition)) × (update i d s
            ≡ sync_context_of i (stored_state i v l s))
        → SaysOf (update i d s).current (update i d s)
    updated (v, l, e) =
        subst (λ t. SaysOf t.current t) (sym e)
          (sync-SaysOf i s (stored_state i v l s) s.current (stored-OnlyOf i v l s) refl h)
IsSynced-step (sets_turn i t) s h =
    sync-SaysOf i s _ s.current (turn-OnlyOf i _ s (turned i t s.active_turns)) refl h
IsSynced-step (replaces i es) s h = sync-SaysOf i s _ s.current (message-OnlyOf i es s) refl h
IsSynced-step (appends i e) s h = sync-SaysOf i s _ s.current (message-OnlyOf i _ s) refl h
IsSynced-step (appends_delta i k c) s h = sync-SaysOf i s _ s.current (message-OnlyOf i _ s) refl h

-- Whatever is done to any sessions after a state in which the context keys are up to date: while a
-- session is active, `turnActive` says whether a turn of that session is running, and
-- `toolApprovalPending` whether one of its events is an approval that is pending.
pub run-IsSynced : (ops : List Op) (s : ChatSession) → IsSynced s → IsSynced (run ops s)
unfolding run
run-IsSynced [] s h = h
run-IsSynced (op ∷ ops) s h = run-IsSynced ops (step op s) (IsSynced-step op s h)
