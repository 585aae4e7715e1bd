-- ===== src/AhpClient/Prompting.antt =====
-- packages/workbench/src/providers/ahp/ahp-client.ts: `promptSession` from its call to its end.
use zaw.Base.{
  suc, String, ◌≡◌, refl, sym, [], ◌∷◌, ◌++◌, Option, none, some, subst, Bool-cases, inl, inr,
  subst,
}
use zaw.Base.Dict.{get, put}
use zaw.Json.{Json}
use zaw.AhpClient.{
  AhpClient, rejected, dispatch_frame, request, dispatch, emit_action, settle, is_pending,
}
use zaw.AhpClient.Operations.{
  Op, Progress, done, failed, run, resume, converse, ◌>>=◌, ◌>>◌, change, returns, dispatches,
  emits,
}
use zaw.AhpClient.Sessions.{channel_of, put_chat, subscribe_session}
use zaw.AhpClient.Chats.{
  AgentMessage, chat_for, prompt_session, turn_started, chat_or_subscribe, own_action,
}

module _ (turn_id started_at resource : String) (m : AgentMessage) where
  abbrev said : String → Json
  said chat = turn_started turn_id started_at m

  abbrev pub asked : AhpClient → AhpClient × Progress Unit
  asked c = run (prompt_session turn_id started_at resource m) c

  -- In a chat that is known the turn goes to the host and to the client's own listeners at once.
  pub prompt_session_known :
      (c : AhpClient) (chat : String)
      → get resource c.session_chats ≡ some chat
      → asked c ≡ (
        record c {
          session_chats = put resource chat c.session_chats;
          next_client_seq = suc c.next_client_seq;
          sent = c.sent ++ dispatch_frame chat c.next_client_seq (said chat) ∷ [];
          emitted = c.emitted ++ own_action chat (said chat) ∷ [];
        },
        done tt,
      )
  unfolding prompt_session chat_for chat_or_subscribe run dispatch emit_action
  prompt_session_known c chat h = rw (h, run) refl

  -- Neither shown nor sent.
  abbrev pub Unsaid : AhpClient → AhpClient × Progress Unit → String → Type 0
  Unsaid c after e =
      (after.1 ≡ failed e)
      × ((after.0.emitted ≡ c.emitted)
          × ((after.0.next_client_seq ≡ c.next_client_seq)
              × (after.0.session_chats ≡ c.session_chats)))

  -- What follows the look for the chat.
  abbrev from_chat : Option String → Op Unit
  unfolding chat_or_subscribe dispatch emit_action put
  from_chat found =
      (chat_or_subscribe resource found >>= λ chat. change (put_chat resource chat) >> returns chat)
      >>= λ chat. dispatches chat (said chat) >> emits (own_action chat (said chat))

  -- Without a chat, and with a host that refuses to open one, the call fails with the host's reason: the
  -- turn is neither shown nor sent, and no chat is remembered.
  pub prompt_session_rejected :
      (c : AhpClient) (e : String)
      → get resource c.session_chats ≡ none
      → Unsaid c (converse (rejected e ∷ []) (asked c)) e
  unfolding prompt_session chat_for chat_or_subscribe run converse resume subscribe_session request
      settle
  prompt_session_rejected c e h =
      subst (λ o. Unsaid c (converse (rejected e ∷ []) (run (from_chat o) c)) e) (sym h)
        (elim (Bool-cases (is_pending c.next_id (request "subscribe" (channel_of resource) c))) [
          | inl open_one ↦ rw open_one (refl, (refl, (refl, refl)))
          | inr lost ↦ rw lost (refl, (refl, (refl, refl)))
        ])
