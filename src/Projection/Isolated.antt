-- ===== src/Projection/Isolated.antt =====
-- packages/workbench/src/contrib/sessions/ahp-projection-service.ts: what `project` does to the chat sessions is
-- done to the one session that the channel belongs to.
use zaw.Base.{
  ℕ, String, ◌<>◌, ◌≡◌, refl, sym, subst, Bool, false, Option, none, some, ◌==◌, Bool-cases, inl,
  inr,
}
use zaw.Json.{
  Json, Fields, text, flag, numeral, null, array, object, string_value, record_value, field_of,
  lookup,
}
use zaw.ActiveSession.{SessionIdentity, same_session}
use zaw.ChatSession.{ChatSession, ChatEvent, message, failure, user}
use zaw.ChatSession.Others.{Ran, stays, SameFor, Ran-SameFor}
use zaw.Projection.{Texts}
use zaw.Projection.Parts.{Turns}
use zaw.Projection.Tools.{
  ToolAction, start, delta, ready, confirmed, complete, content_changed, other,
}
use zaw.Projection.Snapshot.{project_chat_snapshot, drafted}
use zaw.Projection.Reached.{
  then_turn, then_event, then_delta, then_events, then_update, when_text-either, choice-Ran,
}
use zaw.Projection.Dispatch.{
  ActionType, chat_snapshot, chat_delta, chat_response_part, chat_turn_started, chat_turn_complete,
  chat_turn_cancelled, chat_error, chat_tool, terminal_data, changeset_content_changed, Projection,
  is_markdown, error_text, greeted, project_part, project_chat, replaced, project_tool, then_tool,
  project_attached, replaced_files, project_unattached, project,
}

-- The channel belongs to the session `c`.
unfoldable pub belongs : Option String → String → SessionIdentity → Bool
belongs none w c = false
belongs (some r) w c = same_session (record { workspace_id = w; resource = r }) c

module _ (texts : Texts) (decimal : ℕ → String) (stringify : Option Json → String) where
  project_part-Ran :
      (i : SessionIdentity) (channel part content : String) (s : Turns × ChatSession)
      → Ran i s.1 (project_part texts decimal stringify i channel part content s).1
  unfolding project_part
  project_part-Ran i channel part content (turns, chat) = elim (Bool-cases (part == "")) [
    | inl blank ↦ rw blank stays
    | inr given ↦ rw given (then_delta i chat chat _ content stays)
  ]

  greeted-Ran :
      (i : SessionIdentity) (turn said : String) (chat : ChatSession)
      → Ran i chat (greeted texts decimal stringify i turn said chat)
  unfolding greeted
  greeted-Ran i turn said chat =
      choice-Ran i chat (said == "") chat _ stays
        (then_event i chat chat (message (some (turn <> ":user")) user said) stays)

  project_chat-Ran :
      (i : SessionIdentity) (channel : String) (type : ActionType) (a : Fields)
      (s : Turns × ChatSession)
      → Ran i s.1 (project_chat texts decimal stringify i channel type a s).1
  unfolding project_chat
  project_chat-Ran i channel chat_delta a s =
      when_text-either (λ t. Ran i s.1 t.1) (lookup "content" a) s _ stays
        λ content. project_part-Ran i channel (string_value (lookup "partId" a)) content s
  project_chat-Ran i channel chat_response_part a s =
      elim (Bool-cases (is_markdown (field_of "kind" (record_value (lookup "part" a))))) [
        | inl markdown ↦ rw markdown (
            project_part-Ran i channel
              (string_value (field_of "id" (record_value (lookup "part" a))))
              (string_value (field_of "content" (record_value (lookup "part" a)))) s)
        | inr plain ↦ rw plain stays
      ]
  project_chat-Ran i channel chat_turn_started a s =
      when_text-either (λ t. Ran i s.1 t.1) (lookup "turnId" a) s _ stays
        λ turn. then_turn i s.1 _ (some turn) (
          greeted-Ran i turn (string_value (field_of "text" (record_value (lookup "message" a))))
            s.1)
  project_chat-Ran i channel chat_turn_complete a (turns, chat) = then_turn i chat chat none stays
  project_chat-Ran i channel chat_turn_cancelled a (turns, chat) = then_turn i chat chat none stays
  project_chat-Ran i channel chat_error a (turns, chat) =
      then_turn i chat _ none
        (then_event i chat chat (failure (error_text texts decimal stringify a)) stays)
  project_chat-Ran i channel (chat_tool start) a (turns, chat) = stays
  project_chat-Ran i channel (chat_tool delta) a s = stays
  project_chat-Ran i channel (chat_tool ready) a s = stays
  project_chat-Ran i channel (chat_tool confirmed) a s = stays
  project_chat-Ran i channel (chat_tool complete) a s = stays
  project_chat-Ran i channel (chat_tool content_changed) a s = stays
  project_chat-Ran i channel (chat_tool other) a s = stays
  project_chat-Ran i channel chat_snapshot a s = stays
  project_chat-Ran i channel terminal_data a s = stays
  project_chat-Ran i channel changeset_content_changed a s = stays

  replaced-Ran :
      (i : SessionIdentity) (a b : ChatSession) (k : String) (e : Option ChatEvent)
      → Ran i a b
      → Ran i a (replaced texts decimal stringify i k e b)
  unfolding replaced
  replaced-Ran i a b k none r = r
  replaced-Ran i a b k (some e) r = then_events i a b _ r

  project_tool-Ran :
      (i : SessionIdentity) (channel : String) (kind : ToolAction) (f : Fields) (a b : ChatSession)
      → Ran i a b
      → Ran i a (project_tool texts decimal stringify i channel kind f b)
  unfolding project_tool
  project_tool-Ran i channel kind f a b r =
      choice-Ran i a (string_value (lookup "toolCallId" f) == "") b _ r (replaced-Ran i a b _ _ r)

  drafted-Ran :
      (i : SessionIdentity) (channel : String) (d : Option Fields) (a b : ChatSession)
      → Ran i a b
      → Ran i a (drafted texts channel i d b)
  drafted-Ran i channel none a b r = r
  drafted-Ran i channel (some d) a b r = then_update i a b _ r

  snapshot-Ran :
      (i : SessionIdentity) (channel : String) (state : Option Fields) (s : Turns × ChatSession)
      → Ran i s.1 (project_chat_snapshot texts channel i state s).1
  unfolding project_chat_snapshot
  snapshot-Ran i channel none s = stays
  snapshot-Ran i channel (some state) (turns, chat) =
      drafted-Ran i channel _ chat _ (then_events i chat _ _ (then_turn i chat chat _ stays))

  tool-Ran :
      (i : SessionIdentity) (channel : String) (type : ActionType) (a : Fields)
      (s : Turns × ChatSession)
      → Ran i s.1
          (then_tool texts decimal stringify i channel type a
            (project_chat texts decimal stringify i channel type a s)).1
  unfolding then_tool
  tool-Ran i channel type a s =
      project_tool-Ran i channel _ a s.1 _ (project_chat-Ran i channel type a s)

  attached-Ran :
      (i : SessionIdentity) (channel : String) (type : ActionType) (a : Fields)
      (s : Turns × ChatSession)
      → Ran i s.1 (project_attached texts decimal stringify i channel type a s).1
  unfolding project_attached
  attached-Ran i channel chat_snapshot a s =
      snapshot-Ran i channel (record_value (lookup "state" a)) s
  attached-Ran i channel chat_delta a s = tool-Ran i channel chat_delta a s
  attached-Ran i channel chat_response_part a s = tool-Ran i channel chat_response_part a s
  attached-Ran i channel chat_turn_started a s = tool-Ran i channel chat_turn_started a s
  attached-Ran i channel chat_turn_complete a s = tool-Ran i channel chat_turn_complete a s
  attached-Ran i channel chat_turn_cancelled a s = tool-Ran i channel chat_turn_cancelled a s
  attached-Ran i channel chat_error a s = tool-Ran i channel chat_error a s
  attached-Ran i channel (chat_tool kind) a s = tool-Ran i channel (chat_tool kind) a s
  attached-Ran i channel terminal_data a s = tool-Ran i channel terminal_data a s
  attached-Ran i channel changeset_content_changed a s =
      tool-Ran i channel changeset_content_changed a s

  replaced_files-chat :
      (w channel : String) (v : Option Json) (s : Projection)
      → (replaced_files w channel v s).chat ≡ s.chat
  unfolding replaced_files
  replaced_files-chat w channel none s = refl
  replaced_files-chat w channel (some (text x)) s = refl
  replaced_files-chat w channel (some (flag b)) s = refl
  replaced_files-chat w channel (some (numeral n)) s = refl
  replaced_files-chat w channel (some null) s = refl
  replaced_files-chat w channel (some (array vs)) s = refl
  replaced_files-chat w channel (some (object fs)) s = refl

  chat-project_unattached :
      (w channel : String) (type : ActionType) (a : Fields) (s : Projection)
      → (project_unattached w channel type a s).chat ≡ s.chat
  unfolding project_unattached
  chat-project_unattached w channel terminal_data a s =
      when_text-either (λ t. t.chat ≡ s.chat) (lookup "data" a) s _ refl (λ x. refl)
  chat-project_unattached w channel changeset_content_changed a s =
      replaced_files-chat w channel (lookup "files" a) s
  chat-project_unattached w channel chat_snapshot a s = refl
  chat-project_unattached w channel chat_delta a s = refl
  chat-project_unattached w channel chat_response_part a s = refl
  chat-project_unattached w channel chat_turn_started a s = refl
  chat-project_unattached w channel chat_turn_complete a s = refl
  chat-project_unattached w channel chat_turn_cancelled a s = refl
  chat-project_unattached w channel chat_error a s = refl
  chat-project_unattached w channel (chat_tool kind) a s = refl

  -- An action leaves the events and the running turn of every session as they are, but for the session
  -- that the action's channel belongs to; an action of a channel that belongs to no session leaves those
  -- of all sessions.
  pub project-SameFor :
      (session : Option String) (w channel : String) (type : ActionType) (a : Fields)
      (s : Projection) (c : SessionIdentity)
      → belongs session w c ≡ false
      → SameFor c s.chat (project texts decimal stringify session w channel type a s).chat
  unfolding project belongs
  project-SameFor none w channel type a s c h =
      subst (SameFor c s.chat) (sym (chat-project_unattached w channel type a s))
        (record { same_events = refl; same_turn = refl })
  project-SameFor (some r) w channel type a s c h =
      let i : SessionIdentity = record { workspace_id = w; resource = r } in
      let seen = project_unattached w channel type a s in
      subst
        (λ chat.
          SameFor c chat
            (project_attached texts decimal stringify i channel type a (seen.turns, seen.chat)).1)
        (chat-project_unattached w channel type a s)
        (Ran-SameFor i c seen.chat _ (attached-Ran i channel type a (seen.turns, seen.chat)) h)
