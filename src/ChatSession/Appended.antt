-- ===== src/ChatSession/Appended.antt =====
-- packages/workbench/src/services/chat-session.ts: what `appendEvent` and a stream of deltas leave behind.
use zaw.Base.{
  String, ◌≡◌, refl, ap, ◌∙◌, false, List, [], ◌∷◌, ◌++◌, Option, none, some, ◌==◌, any, arith,
  Bool-cases, inl, inr,
}
use zaw.ActiveSession.{SessionIdentity}
use zaw.ActiveSession.Table.{same_session_refl}
use zaw.ChatSession.{
  ChatSession, ChatEvent, message, user, event_id, put_event, replace_or_push, has_id,
  is_agent_part,
}
use zaw.ChatSession.Service.{
  events, active_turn, append_event, append_message_delta, replace_events,
}
use zaw.ChatSession.Events.{stream, events-replace_events}
use zaw.ChatSession.Others.{sync_turn}

put_new :
    (k : String) (e : ChatEvent) (es : List ChatEvent)
    → any (has_id k) es ≡ false
    → replace_or_push (has_id k) (λ old. e) e es ≡ es ++ e ∷ []
unfolding any replace_or_push
put_new k e [] h = refl
put_new k e (x ∷ es) h = elim (Bool-cases (has_id k x)) [
  | inl here ↦ absurd (ground (arith, h, here))
  | inr apart ↦ rw apart (ap (λ l. x ∷ l) (put_new k e es (ground (arith, h, apart))))
]

pub put_message :
    (k said : String) (es : List ChatEvent)
    → any (has_id k) es ≡ false
    → put_event (event_id (message (some k) user said)) (message (some k) user said) es
      ≡ es ++ message (some k) user said ∷ []
put_message k said es h = elim (Bool-cases (k == "")) [
  | inl blank ↦ rw blank refl
  | inr given ↦ rw given (put_new k (message (some k) user said) es h)
]

pub no_part :
    (k : String) (j : Option String) (said : String) (es : List ChatEvent)
    → any (is_agent_part k) es ≡ false
    → any (is_agent_part k) (es ++ message j user said ∷ []) ≡ false
unfolding any
no_part k none said [] h = refl
no_part k (some j) said [] h = refl
no_part k j said (e ∷ es) h = ground (arith, no_part k j said es)

pub turn-stream :
    (i : SessionIdentity) (k : String) (cs : List String) (s : ChatSession)
    → active_turn i (stream i k cs s) ≡ active_turn i s
unfolding stream append_message_delta active_turn
turn-stream i k [] s = refl
turn-stream i k (c ∷ cs) s = turn-stream i k cs (append_message_delta i k c s) ∙ sync_turn i i _

pub events-append_event :
    (i : SessionIdentity) (e : ChatEvent) (s : ChatSession)
    → events i (append_event i e s) ≡ put_event (event_id e) e (events i s)
unfolding append_event replace_events
events-append_event i e s =
    events-replace_events i i (put_event (event_id e) e (events i s)) s
    ∙ rw (same_session_refl i) refl
