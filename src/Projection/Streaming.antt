-- ===== src/Projection/Streaming.antt =====
-- packages/workbench/src/contrib/sessions/ahp-projection-service.ts: a turn, from its start over the pieces of its
-- answer to its end.
use package.text.Mathlib.TextLemmas.{append-nil as text_append_nil}
use zaw.Base.{
  ℕ, String, ◌<>◌, ◌≡◌, refl, ap, ◌∙◌, false, List, [], ◌∷◌, ◌++◌, Option, none, some, ◌==◌, any,
  map, Bool-cases, inl, inr,
}
use zaw.Json.{Json, Fields, text, object, string_value, record_value, field_of, lookup}
use zaw.ActiveSession.{SessionIdentity}
use zaw.ActiveSession.Table.{same_session_refl}
use zaw.ChatSession.{ChatSession, message, user, agent, has_id, is_agent_part}
use zaw.ChatSession.Service.{events, active_turn, append_message_delta, set_active_turn}
use zaw.ChatSession.Events.{stream, joined, stream_lem, events-set_active_turn}
use zaw.ChatSession.Others.{turn-set_active_turn}
use zaw.ChatSession.Appended.{put_message, no_part, turn-stream, events-append_event}
use zaw.Projection.{Texts}
use zaw.Projection.Parts.{
  Turns, turn_key, turn_started, scoped_part_id, bumps, segment_suffix, bumped_id,
}
use zaw.Projection.Tools.{other, tool_action_event}
use zaw.Projection.Dispatch.{
  ActionType, chat_delta, chat_response_part, chat_turn_started, chat_turn_complete, Projection,
  greeted, project_part, project_chat, replaced, project_tool, then_tool, project_attached,
  project_unattached, project,
}

-- What brings the piece `content` of the part `p`: a delta, or a markdown part as a whole.
pub data IsPiece (p content : String) : ActionType → Fields → Type 0 where
  delta_piece :
      (a : Fields)
      → lookup "partId" a ≡ some (text p)
      → lookup "content" a ≡ some (text content)
      → IsPiece p content chat_delta a
  part_piece :
      (a part : Fields)
      → lookup "part" a ≡ some (object part)
      → lookup "kind" part ≡ some (text "markdown")
      → lookup "id" part ≡ some (text p)
      → lookup "content" part ≡ some (text content)
      → IsPiece p content chat_response_part a

pub record Piece (p : String) : Type 0 where
  pub content : String
  pub type : ActionType
  pub fields : Fields
  pub is : IsPiece p content type fields

module _ (texts : Texts) (decimal : ℕ → String) (stringify : Option Json → String)
    (r w channel : String) where
  abbrev pub own_session : SessionIdentity
  own_session = record { workspace_id = w; resource = r }

  unfoldable pub act_pieces : {p : String} → List (Piece p) → Projection → Projection
  unfolding project
  act_pieces [] s = s
  act_pieces (x ∷ xs) s =
      act_pieces xs (project texts decimal stringify (some r) w channel x.type x.fields s)

  no_tool :
      (a : Fields) (chat : ChatSession)
      → project_tool texts decimal stringify own_session channel other a chat ≡ chat
  unfolding project_tool replaced tool_action_event
  no_tool a chat = elim (Bool-cases (string_value (lookup "toolCallId" a) == "")) [
    | inl blank ↦ rw blank refl
    | inr given ↦ rw given refl
  ]

  start_done :
      (a : Fields) (t : String) (s : Projection)
      → lookup "turnId" a ≡ some (text t)
      → project texts decimal stringify (some r) w channel chat_turn_started a s ≡ record s {
        turns = turn_started (turn_key w channel) t s.turns;
        chat = set_active_turn own_session (some t) (
            greeted texts decimal stringify own_session t
              (string_value (field_of "text" (record_value (lookup "message" a))))
              s.chat);
      }
  unfolding project project_unattached project_attached project_chat then_tool
  start_done a t s h = rw h (
      ap (λ c. record s { turns = turn_started (turn_key w channel) t s.turns; chat = c })
        (no_tool a _))

  piece_done :
      (p content : String) (type : ActionType) (a : Fields) (s : Projection)
      → IsPiece p content type a
      → (p == "") ≡ false
      → project texts decimal stringify (some r) w channel type a s ≡ record s {
        chat =
            append_message_delta own_session
              (scoped_part_id decimal (turn_key w channel) p s.turns)
              content
              s.chat;
      }
  unfolding project project_unattached project_attached project_chat then_tool project_part
      string_value record_value field_of
  piece_done p content _ _ s (delta_piece a id said) full =
      rw (id, said, full) (ap (λ c. record s { chat = c }) (no_tool a _))
  piece_done p content _ _ s (part_piece a part given kind id said) full =
      rw (given, kind, id, said, full) (ap (λ c. record s { chat = c }) (no_tool a _))

  pieces_done :
      (p : String) (xs : List (Piece p)) (s : Projection)
      → (p == "") ≡ false
      → act_pieces xs s ≡ record s {
        chat =
            stream own_session
              (scoped_part_id decimal (turn_key w channel) p s.turns)
              (map (λ x. x.content) xs)
              s.chat;
      }
  unfolding act_pieces stream
  pieces_done p [] s full = refl
  pieces_done p (x ∷ xs) s full =
      ap (act_pieces xs) (piece_done p x.content x.type x.fields s x.is full)
      ∙ pieces_done p xs
          (record s {
            chat =
                append_message_delta own_session
                  (scoped_part_id decimal (turn_key w channel) p s.turns) x.content s.chat;
          })
          full

  end_done :
      (a : Fields) (s : Projection)
      → (project texts decimal stringify (some r) w channel chat_turn_complete a s).chat
        ≡ set_active_turn own_session none s.chat
  unfolding project project_unattached project_attached project_chat then_tool
  end_done a s = no_tool a _

  -- The projection after the start of a turn, and after the pieces of its answer.
  unfoldable pub answered : {p : String} → Fields → List (Piece p) → Projection → Projection
  unfolding project act_pieces
  answered a xs s =
      act_pieces xs (project texts decimal stringify (some r) w channel chat_turn_started a s)

  -- And after its end.
  unfoldable pub ended : {p : String} → Fields → Fields → List (Piece p) → Projection → Projection
  unfolding project answered
  ended end_action a xs s =
      project texts decimal stringify (some r) w channel chat_turn_complete end_action
        (answered a xs s)

  part_key :
      (t p : String) (s : Turns)
      → (t == "") ≡ false
      → scoped_part_id decimal (turn_key w channel) p (turn_started (turn_key w channel) t s)
        ≡ t <> (":" <> p)
  unfolding bumps segment_suffix
  part_key t p s named =
      bumped_id decimal 0 (turn_key w channel) t p s named ∙ text_append_nil (t <> (":" <> p))

  greeted_events :
      (t said : String) (chat : ChatSession)
      → (said == "") ≡ false
      → any (has_id (t <> ":user")) (events own_session chat) ≡ false
      → events own_session (
          set_active_turn own_session
            (some t)
            (greeted texts decimal stringify own_session t said chat))
        ≡ events own_session chat ++ message (some (t <> ":user")) user said ∷ []
  unfolding greeted
  greeted_events t said chat full fresh =
      events-set_active_turn own_session own_session (some t) _
      ∙ rw full (
          events-append_event own_session (message (some (t <> ":user")) user said) chat
          ∙ put_message (t <> ":user") said (events own_session chat) fresh)

  answered_chat :
      (a : Fields) (t p said : String) (xs : List (Piece p)) (s : Projection)
      → lookup "turnId" a ≡ some (text t)
      → string_value (field_of "text" (record_value (lookup "message" a))) ≡ said
      → (t == "") ≡ false
      → (p == "") ≡ false
      → (answered a xs s).chat
        ≡ stream own_session (t <> (":" <> p)) (map (λ x. x.content) xs) (
            set_active_turn own_session
              (some t)
              (greeted texts decimal stringify own_session t said s.chat))
  unfolding answered
  answered_chat a t p said xs s id asked named full =
      ap (λ q. (act_pieces xs q).chat) (start_done a t s id)
      ∙ ap (λ q. q.chat) (pieces_done p xs _ full)
      ∙ ap
          (λ k. stream own_session k (map (λ x. x.content) xs) (
            set_active_turn own_session (some t) (
              greeted texts decimal stringify own_session t
                (string_value (field_of "text" (record_value (lookup "message" a)))) s.chat)))
          (part_key t p s.turns named)
      ∙ ap
          (λ u. stream own_session (t <> (":" <> p)) (map (λ x. x.content) xs) (
            set_active_turn own_session (some t)
              (greeted texts decimal stringify own_session t u s.chat)))
          asked

  -- A turn with an id starts with a text of the user, the pieces of one part of the answer come in, one at
  -- least, each as a delta or as a whole markdown part, and the turn ends. Provided that the session had
  -- no message with the id of the user's and no part of the agent's with that of the answer, two
  -- messages have come to the end of its events: the user's text, and one of the agent with the pieces
  -- joined in their order; the turn was the active one before its end, and afterwards none is.
  pub ended_lem :
      (a end_action : Fields) (t p said : String) (x : Piece p) (xs : List (Piece p))
      (s : Projection)
      → lookup "turnId" a ≡ some (text t)
      → string_value (field_of "text" (record_value (lookup "message" a))) ≡ said
      → (t == "") ≡ false
      → (p == "") ≡ false
      → (said == "") ≡ false
      → any (has_id (t <> ":user")) (events own_session s.chat) ≡ false
      → any (is_agent_part (t <> (":" <> p))) (events own_session s.chat) ≡ false
      → (events own_session (ended end_action a (x ∷ xs) s).chat
          ≡ (events own_session s.chat ++ message (some (t <> ":user")) user said ∷ [])
            ++ message (some (t <> (":" <> p))) agent (joined x.content (map (λ y. y.content) xs))
              ∷ [])
        × (active_turn own_session (answered a (x ∷ xs) s).chat ≡ some t)
        × (active_turn own_session (ended end_action a (x ∷ xs) s).chat ≡ none)
  unfolding ended
  ended_lem a end_action t p said x xs s id asked named full given fresh new =
      let key = t <> (":" <> p) in
      let held = greeted texts decimal stringify own_session t said s.chat in
      let started = set_active_turn own_session (some t) held in
      let answer = answered a (x ∷ xs) s in
      let contents = map (λ y. y.content) xs in
      let shown = greeted_events t said s.chat given fresh in
      let chat_is = answered_chat a t p said (x ∷ xs) s id asked named full in
      (
        ap (events own_session) (end_done end_action answer)
            ∙ events-set_active_turn own_session own_session none answer.chat
            ∙ ap (events own_session) chat_is
            ∙ stream_lem own_session own_session key x.content contents started (
                ap (any (is_agent_part key)) shown
                ∙ no_part key (some (t <> ":user")) said (events own_session s.chat) new)
            ∙ rw (same_session_refl own_session)
                (ap (λ es. es ++ message (some key) agent (joined x.content contents) ∷ []) shown),
        ap (active_turn own_session) chat_is
            ∙ turn-stream own_session key (x.content ∷ contents) started
            ∙ turn-set_active_turn own_session (some t) held
            ∙ rw named refl,
        ap (active_turn own_session) (end_done end_action answer)
            ∙ turn-set_active_turn own_session none answer.chat,
      )
