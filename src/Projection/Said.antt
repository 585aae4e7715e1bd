-- ===== src/Projection/Said.antt =====
-- packages/workbench/src/contrib/sessions/ahp-projection-service.ts: no text of a turn is lost.
use zaw.Base.{
  String, ◌<>◌, ◌≡◌, refl, sym, ap, ◌∙◌, Bool, true, false, List, [], ◌∷◌, ◌++◌, Option, none, some,
  ◌==◌, if◌then◌else◌, eq_iff, Bool-cases, inl, inr,
}
use text.Mathlib.TextLemmas.{
  append_assoc as text_assoc, append-nil as text_append_nil, nil-append as nil-text,
}
use zaw.Json.{Json, Fields, string_value, record_value, field_of, array_value, lookup}
use zaw.ChatSession.{
  ChatEvent, message, tool, approval, notification, failure, Role, Call, Approval, Level,
}
use zaw.Projection.{Texts, outcome, tool_event_from_state}
use zaw.Projection.Turn.{
  Turn, choice, flush_markdown, pushed, part_event, part_step, parts_loop, events_for_turn,
  agent_text, markdown_text, is_markdown, user_message, error_event,
}

module _ (texts : Texts) (channel : String) where
  pub agent_text-append :
      (es fs : List ChatEvent)
      → agent_text texts channel (es ++ fs)
        ≡ agent_text texts channel es <> agent_text texts channel fs
  unfolding agent_text
  agent_text-append [] fs = sym (nil-text _)
  agent_text-append (message k Role.agent t ∷ es) fs =
      ap (λ u. t <> u) (agent_text-append es fs) ∙ sym (text_assoc t _ _)
  agent_text-append (message k Role.user t ∷ es) fs = agent_text-append es fs
  agent_text-append (tool c s ∷ es) fs = agent_text-append es fs
  agent_text-append (approval c v s ∷ es) fs = agent_text-append es fs
  agent_text-append (notification l t ∷ es) fs = agent_text-append es fs
  agent_text-append (failure t ∷ es) fs = agent_text-append es fs

  -- Nothing, or an event in which the agent says nothing.
  data IsSilent : Option ChatEvent → Type 0 where
    nothing : IsSilent none
    calls : (c : Call) (s : String) → IsSilent (some (tool c s))
    asks : (c : Call) (v : String) (s : Approval) → IsSilent (some (approval c v s))
    notes : (l : Level) (s : String) → IsSilent (some (notification l s))

  outcome-IsSilent :
      (m p w x : Bool) (c d : Call) (v s : String) (a : Approval)
      → IsSilent (outcome m p w x (approval c v a) (tool d s))
  unfolding outcome
  outcome-IsSilent true p w x c d v s a = nothing
  outcome-IsSilent false true w x c d v s a = nothing
  outcome-IsSilent false false true x c d v s a = asks c v a
  outcome-IsSilent false false false true c d v s a = nothing
  outcome-IsSilent false false false false c d v s a = calls d s

  tool_event_from_state-IsSilent :
      (t : Option Fields) → IsSilent (tool_event_from_state texts channel t)
  unfolding tool_event_from_state
  tool_event_from_state-IsSilent none = nothing
  tool_event_from_state-IsSilent (some t) = outcome-IsSilent _ _ _ _ _ _ _ _ _

  choice-IsSilent :
      (b c : Bool) (o : Option ChatEvent) (l : Level) (s : String)
      → IsSilent o
      → IsSilent (choice b c o (notification l s))
  unfolding choice
  choice-IsSilent true c o l s h = h
  choice-IsSilent false true o l s h = notes l s
  choice-IsSilent false false o l s h = nothing

  part_event-IsSilent : (p : Option Fields) → IsSilent (part_event texts channel p)
  unfolding part_event
  part_event-IsSilent p = choice-IsSilent _ _ _ _ _ (tool_event_from_state-IsSilent _)

  said : Turn → String
  said s = agent_text texts channel s.events <> s.markdown

  after_silent :
      (s : Turn) (e : ChatEvent)
      → agent_text texts channel (e ∷ []) ≡ ""
      → said (pushed (some e) s) ≡ said s
  unfolding said
  after_silent s e h =
      ap (λ u. u <> s.markdown)
        (agent_text-append s.events (e ∷ [])
          ∙ ap (λ u. agent_text texts channel s.events <> u) h
          ∙ text_append_nil _)

  said-pushed : (o : Option ChatEvent) (s : Turn) → IsSilent o → said (pushed o s) ≡ said s
  unfolding said agent_text
  said-pushed _ s nothing = refl
  said-pushed _ s (calls c v) = after_silent s (tool c v) refl
  said-pushed _ s (asks c v a) = after_silent s (approval c v a) refl
  said-pushed _ s (notes l v) = after_silent s (notification l v) refl

  said-flush_markdown :
      (s : Turn) → (said (flush_markdown s) ≡ said s) × ((flush_markdown s).markdown ≡ "")
  unfolding said flush_markdown agent_text
  said-flush_markdown s = elim (Bool-cases (s.markdown == "")) [
    | inl blank ↦ rw blank (refl, (eq_iff s.markdown "").0 blank)
    | inr said_some ↦ rw said_some (
      text_append_nil _
          ∙ agent_text-append s.events _
          ∙ ap (λ u. agent_text texts channel s.events <> u) (text_append_nil s.markdown),
      refl,
    )
  ]

  part_text : Option Fields → String
  part_text p = if is_markdown texts channel p then string_value (field_of "content" p) else ""

  part_text-more :
      (p : Option Fields) (rest : String)
      → part_text p <> rest ≡ (
          if is_markdown texts channel p then string_value (field_of "content" p) <> rest else rest)
  unfolding part_text
  part_text-more p rest = elim (Bool-cases (is_markdown texts channel p)) [
    | inl here ↦ rw here refl
    | inr other ↦ rw other (nil-text rest)
  ]

  said-part_step :
      (turn : String) (p : Option Fields) (s : Turn)
      → said (part_step texts channel turn p s) ≡ said s <> part_text p
  unfolding part_step part_text said
  said-part_step turn none s = sym (text_append_nil (said s))
  said-part_step turn (some p) s = elim (Bool-cases (is_markdown texts channel (some p))) [
    | inl here ↦ rw here (
        sym (
          text_assoc (agent_text texts channel s.events) s.markdown
            (string_value (field_of "content" (some p)))))
    | inr other ↦ rw other (
        said-pushed (part_event texts channel (some p)) (flush_markdown s)
          (part_event-IsSilent (some p))
        ∙ (said-flush_markdown s).0
        ∙ sym (text_append_nil (said s)))
  ]

  said-parts_loop :
      (turn : String) (vs : List Json) (s : Turn)
      → said (parts_loop texts channel turn vs s) ≡ said s <> markdown_text texts channel vs
  unfolding parts_loop part_step markdown_text
  said-parts_loop turn [] s = sym (text_append_nil _)
  said-parts_loop turn (v ∷ vs) s =
      said-parts_loop turn vs (part_step texts channel turn (record_value (some v)) s)
      ∙ ap (λ u. u <> markdown_text texts channel vs)
          (said-part_step turn (record_value (some v)) s)
      ∙ text_assoc (said s) (part_text (record_value (some v))) (markdown_text texts channel vs)
      ∙ ap (λ u. said s <> u)
          (part_text-more (record_value (some v)) (markdown_text texts channel vs))

  agent_text-user_message :
      (turn content : String)
      → agent_text texts channel (user_message texts channel turn content) ≡ ""
  unfolding agent_text
  agent_text-user_message turn content = elim (Bool-cases (content == "")) [
    | inl blank ↦ rw blank refl
    | inr given ↦ rw given refl
  ]

  agent_text-error_event :
      (e : String) → agent_text texts channel (error_event texts channel e) ≡ ""
  unfolding agent_text
  agent_text-error_event e = elim (Bool-cases (e == "")) [
    | inl blank ↦ rw blank refl
    | inr given ↦ rw given refl
  ]

  all_said : (s : Turn) → agent_text texts channel (flush_markdown s).events ≡ said s
  unfolding said
  all_said s =
      sym (text_append_nil _)
      ∙ ap (λ u. agent_text texts channel (flush_markdown s).events <> u)
          (sym (said-flush_markdown s).1)
      ∙ (said-flush_markdown s).0

  -- The agent's messages that a turn of a snapshot is shown as hold the text of all its markdown parts,
  -- in order, and nothing else, whatever tool calls, notifications and unknown parts come in between.
  pub agent_text-events_for_turn :
      (turn : Fields)
      → agent_text texts channel (events_for_turn texts channel turn)
        ≡ markdown_text texts channel (array_value (lookup "responseParts" turn))
  unfolding events_for_turn said agent_text markdown_text
  agent_text-events_for_turn turn =
      agent_text-append (flush_markdown (parts_loop texts channel id parts opened)).events failed
      ∙ ap
          (λ u.
            agent_text texts channel
              (flush_markdown (parts_loop texts channel id parts opened)).events
            <> u)
          (agent_text-error_event _)
      ∙ text_append_nil _
      ∙ all_said (parts_loop texts channel id parts opened)
      ∙ said-parts_loop id parts opened
      ∙ ap (λ u. u <> markdown_text texts channel parts)
          (text_append_nil _ ∙ agent_text-user_message id _)
      ∙ nil-text _
    where
      id : String
      id = string_value (lookup "id" turn)

      parts : List Json
      parts = array_value (lookup "responseParts" turn)

      failed : List ChatEvent
      failed =
          error_event texts channel
            (string_value (field_of "message" (record_value (lookup "error" turn))))

      opened : Turn
      opened = record {
        events =
            user_message texts channel id
              (string_value (field_of "text" (record_value (lookup "message" turn))));
        markdown = "";
        markdown_id = "";
      }
