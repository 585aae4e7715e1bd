-- ===== src/ChatSession/Events.antt =====
-- packages/workbench/src/services/chat-session.ts: what the operations make of the events.
use zaw.Base.{
  String, ◌<>◌, ◌≡◌, refl, sym, ap, ◌∙◌, false, List, [], ◌∷◌, ◌++◌, Option, none, some,
  if◌then◌else◌, any, arith, eq_refl, Bool-cases, Option-cases, inl, inr,
}
use zaw.ActiveSession.{SessionIdentity, same_session}
use zaw.ActiveSession.Table.{find_in, store, find_in-store, same_session_refl, same_session-eq}
use zaw.ChatSession.{
  ChatSession, ChatComposition, ChatEvent, Changes, changed, message, Role, is_agent_part, added,
  replace_or_push, or_else, agent_mode,
}
use zaw.ChatSession.Service.{
  composition, events, sync_context_of, update, replace_events, append_message_delta,
  set_active_turn,
}
use zaw.ChatSession.Storage.{restore, persist, restore-persist}

-- Bringing the context keys up to date leaves what is held for the sessions.
sync_kept :
    (i : SessionIdentity) (s : ChatSession)
    → ((sync_context_of i s).messages ≡ s.messages) × ((sync_context_of i s).stored ≡ s.stored)
unfolding sync_context_of
sync_kept i s = go s.current refl
  where
    go :
        (o : Option SessionIdentity)
        → s.current ≡ o
        → ((sync_context_of i s).messages ≡ s.messages) × ((sync_context_of i s).stored ≡ s.stored)
    go none e = rw (e, sync_context_of) (refl, refl)
    go (some c) e = elim (Bool-cases (same_session i c)) [
      | inl same ↦ rw (e, sync_context_of, same) (refl, refl)
      | inr other ↦ rw (e, sync_context_of, other) (refl, refl)
    ]

stored-events :
    (i j : SessionIdentity) (es : List ChatEvent) (s : ChatSession)
    → events j (sync_context_of i (record s { messages = store i es s.messages }))
      ≡ (if same_session i j then es else events j s)
unfolding events
stored-events i j es s =
    ap (λ m. or_else (find_in j m) [])
      (sync_kept i (record s { messages = store i es s.messages })).0
    ∙ ap (λ o. or_else o []) (find_in-store i j es s.messages)
    ∙ (elim (Bool-cases (same_session i j)) [ inl same ↦ rw same refl | inr other ↦ rw other refl ])

pub events-replace_events :
    (i j : SessionIdentity) (es : List ChatEvent) (s : ChatSession)
    → events j (replace_events i es s) ≡ (if same_session i j then es else events j s)
unfolding replace_events
events-replace_events i j es s = stored-events i j es s

events-append_message_delta :
    (i j : SessionIdentity) (k c : String) (s : ChatSession)
    → events j (append_message_delta i k c s)
      ≡ (if same_session i j then added k c (events i s) else events j s)
unfolding append_message_delta
events-append_message_delta i j k c s = stored-events i j (added k c (events i s)) s

own : (i : SessionIdentity) (x y : List ChatEvent) → (if same_session i i then x else y) ≡ x
own i x y = rw (same_session_refl i) refl

others :
    (i j : SessionIdentity) (x y : List ChatEvent)
    → same_session i j ≡ false
    → (if same_session i j then x else y) ≡ y
others i j x y h = rw h refl

added_new :
    (k c : String) (es : List ChatEvent)
    → any (is_agent_part k) es ≡ false
    → added k c es ≡ es ++ message (some k) Role.agent c ∷ []
unfolding any replace_or_push
added_new k c [] h = refl
added_new k c (e ∷ es) h = ground (arith, added_new k c es)

added_old :
    (k c t : String) (es : List ChatEvent)
    → any (is_agent_part k) es ≡ false
    → added k c (es ++ message (some k) Role.agent t ∷ [])
      ≡ es ++ message (some k) Role.agent (t <> c) ∷ []
unfolding any replace_or_push
added_old k c t [] h = rw (eq_refl k) refl
added_old k c t (e ∷ es) h = ground (arith, added_old k c t es)

-- The deltas of one part, one after the other.
unfoldable pub stream : SessionIdentity → String → List String → ChatSession → ChatSession
stream i k [] s = s
stream i k (c ∷ cs) s = stream i k cs (append_message_delta i k c s)

unfoldable pub joined : String → List String → String
joined t [] = t
joined t (c ∷ cs) = joined (t <> c) cs

streamed :
    (i j : SessionIdentity) (k t : String) (cs : List String) (es : List ChatEvent)
    (s : ChatSession)
    → any (is_agent_part k) es ≡ false
    → events i s ≡ es ++ message (some k) Role.agent t ∷ []
    → events j (stream i k cs s) ≡ (
        if same_session i j
        then es ++ message (some k) Role.agent (joined t cs) ∷ []
        else events j s)
unfolding stream joined
streamed i j k t [] es s h e = elim (Bool-cases (same_session i j)) [
  | inl same ↦ rw same (ap (λ x. events x s) (sym (same_session-eq i j same)) ∙ e)
  | inr other ↦ rw other refl
]
streamed i j k t (c ∷ cs) es s h e =
    streamed i j k (t <> c) cs es (append_message_delta i k c s) h (
      events-append_message_delta i i k c s
      ∙ own i (added k c (events i s)) (events i s)
      ∙ ap (added k c) e
      ∙ added_old k c t es h)
    ∙ (elim (Bool-cases (same_session i j)) [
      | inl same ↦ rw same refl
      | inr other ↦ rw other (
          events-append_message_delta i j k c s
          ∙ others i j (added k c (events i s)) (events j s) other)
    ])

-- A part that no agent message of the session has yet, streamed in any number of deltas (one at
-- least), ends as one message of the agent at the end of the session's events, with the deltas joined
-- in their order as its text; the events of every other session stay as they are.
pub stream_lem :
    (i j : SessionIdentity) (k c : String) (cs : List String) (s : ChatSession)
    → any (is_agent_part k) (events i s) ≡ false
    → events j (stream i k (c ∷ cs) s) ≡ (
        if same_session i j
        then events i s ++ message (some k) Role.agent (joined c cs) ∷ []
        else events j s)
unfolding stream
stream_lem i j k c cs s h =
    streamed i j k c cs (events i s) (append_message_delta i k c s) h (
      events-append_message_delta i i k c s
      ∙ own i (added k c (events i s)) (events i s)
      ∙ added_new k c (events i s) h)
    ∙ (elim (Bool-cases (same_session i j)) [
      | inl same ↦ rw same refl
      | inr other ↦ rw other (
          events-append_message_delta i j k c s
          ∙ others i j (added k c (events i s)) (events j s) other)
    ])

-- What a reloaded window finds for a session after an update: the updated composition, with the mode
-- `agent` if it had none, but without its reasoning effort.
pub composition-update :
    (i : SessionIdentity) (d : Changes) (s : ChatSession)
    → (composition i (record (update i d s) { compositions = [] })).0
      ≡ record (changed d (composition i s).0) {
        mode = some (or_else (changed d (composition i s).0).mode agent_mode);
        reasoning_effort = "";
      }
unfolding composition update find_in
composition-update i d s =
    ap (λ m. restore (find_in i m)) (sync_kept i _).1
    ∙ ap restore (find_in-store i i (persist next) (composition i s).1.stored ∙ held)
    ∙ restore-persist next
  where
    next : ChatComposition
    next = changed d (composition i s).0

    held :
        (if same_session i i then some (persist next) else find_in i (composition i s).1.stored)
        ≡ some (persist next)
    held = rw (same_session_refl i) refl

pub events-set_active_turn :
    (i j : SessionIdentity) (turn : Option String) (s : ChatSession)
    → events j (set_active_turn i turn s) ≡ events j s
unfolding set_active_turn events
events-set_active_turn i j turn s = ap (λ m. or_else (find_in j m) []) (sync_kept i _).0

pub events-update :
    (i j : SessionIdentity) (d : Changes) (s : ChatSession) → events j (update i d s) ≡ events j s
unfolding update events composition
events-update i j d s = ap (λ m. or_else (find_in j m) []) ((sync_kept i _).0 ∙ kept)
  where
    kept : (composition i s).1.messages ≡ s.messages
    kept = elim (Option-cases (find_in i s.compositions)) [
      | inl fresh ↦ rw (fresh, composition) refl
      | inr (c, known) ↦ rw (known, composition) refl
    ]
