-- ===== src/Projection/Snapshot.antt =====
-- packages/workbench/src/contrib/sessions/ahp-projection-service.ts: `projectChatSnapshot` and
-- `selectionID`.
use zaw.Base.{
  String, ◌≡◌, refl, ap, ◌∙◌, List, [], ◌∷◌, ◌++◌, Option, none, some, ◌==◌, if◌then◌else◌,
}
use zaw.Json.{Json, Fields, string_value, record_value, field_of, array_value, or_text, lookup}
use zaw.Base.Dict.{put}
use zaw.ActiveSession.{SessionIdentity, same_session}
use zaw.ChatSession.{ChatSession, ChatEvent, no_changes}
use zaw.ChatSession.Service.{events, set_active_turn, replace_events, update}
use zaw.ChatSession.Events.{events-replace_events, events-set_active_turn, events-update}
use zaw.Projection.{Texts, some_text}
use zaw.Projection.Turn.{events_for_turn}
use zaw.Projection.Parts.{Turns, turn_key, turn_ended}

unfoldable pub selection_id : Option Json → String
unfolding string_value record_value field_of or_text
selection_id v =
    let s = record_value v in
    or_text (string_value (field_of "id" s))
      (or_text (string_value (field_of "identifier" s)) (string_value v))

module _ (texts : Texts) (channel : String) where
  abbrev pub turn_events : Option Fields → List ChatEvent
  turn_events none = []
  turn_events (some turn) = events_for_turn texts channel turn

  unfoldable pub turns_events : List Json → List ChatEvent
  unfolding record_value
  turns_events [] = []
  turns_events (v ∷ vs) = turn_events (record_value (some v)) ++ turns_events vs

  -- The events of a snapshot: those of its turns, and of the turn that runs.
  unfoldable pub snapshot_events : Fields → List ChatEvent
  unfolding turns_events array_value record_value
  snapshot_events state =
      turns_events (array_value (lookup "turns" state))
      ++ turn_events (record_value (lookup "activeTurn" state))

  abbrev pub turns_after : String → Option Fields → Turns → Turns
  turns_after key none s = turn_ended key s
  turns_after key (some turn) s =
      let id = string_value (lookup "id" turn) in
      if id == "" then s else record s { active_turns = put key id s.active_turns }

  abbrev pub turn_of : Option Fields → Option String
  turn_of none = none
  turn_of (some turn) = some_text (string_value (lookup "id" turn))

  abbrev pub drafted : SessionIdentity → Option Fields → ChatSession → ChatSession
  drafted i none chat = chat
  drafted i (some draft) chat =
      update i
        (record no_changes {
          draft = some (string_value (lookup "text" draft));
          model = some (selection_id (lookup "model" draft));
          agent = some (selection_id (lookup "agent" draft));
        })
        chat

  unfoldable pub project_chat_snapshot :
      SessionIdentity → Option Fields → Turns × ChatSession → Turns × ChatSession
  unfolding record_value lookup string_value snapshot_events turn_ended
  project_chat_snapshot i none s = s
  project_chat_snapshot i (some state) (turns, chat) =
      let active = record_value (lookup "activeTurn" state) in
      (
        turns_after (turn_key i.workspace_id channel) active turns,
        drafted i (record_value (lookup "draft" state))
            (replace_events i (snapshot_events state) (set_active_turn i (turn_of active) chat)),
      )

  pub events-project_chat_snapshot :
      (i j : SessionIdentity) (state : Fields) (turns : Turns) (chat : ChatSession)
      → events j (project_chat_snapshot i (some state) (turns, chat)).1
        ≡ (if same_session i j then snapshot_events state else events j chat)
  unfolding project_chat_snapshot
  events-project_chat_snapshot i j state turns chat =
      drafted_events j (record_value (lookup "draft" state)) _
      ∙ events-replace_events i j (snapshot_events state)
          (set_active_turn i (turn_of (record_value (lookup "activeTurn" state))) chat)
      ∙ ap (λ es. if same_session i j then snapshot_events state else es)
          (events-set_active_turn i j (turn_of (record_value (lookup "activeTurn" state))) chat)
    where
      drafted_events :
          (j : SessionIdentity) (o : Option Fields) (c : ChatSession)
          → events j (drafted i o c) ≡ events j c
      drafted_events j none c = refl
      drafted_events j (some draft) c = events-update i j _ c
