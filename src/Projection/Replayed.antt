-- ===== src/Projection/Replayed.antt =====
-- packages/workbench/src/contrib/sessions/ahp-projection-service.ts: what a session shows after a snapshot.
use zaw.Base.{
  String, ◌<>◌, ◌≡◌, refl, sym, ap, ◌∙◌, List, [], ◌∷◌, ◌++◌, Option, none, some, ◌==◌,
  if◌then◌else◌, append_assoc, append-nil, Bool-cases, inl, inr,
}
use zaw.Json.{Json, Fields, string_value, record_value, array_value, lookup}
use zaw.ActiveSession.{SessionIdentity, same_session}
use zaw.ActiveSession.Table.{same_session_refl}
use zaw.ChatSession.{ChatSession, ChatEvent}
use zaw.ChatSession.Service.{events, active_turn, set_active_turn}
use zaw.ChatSession.Others.{turn-set_active_turn, turn-replace_events, updated}
use zaw.Projection.{Texts}
use zaw.Projection.Turn.{events_for_turn, agent_text, markdown_text}
use zaw.Projection.Said.{agent_text-append, agent_text-events_for_turn}
use zaw.Projection.Parts.{Turns}
use zaw.Projection.Snapshot.{
  turns_events, snapshot_events, turn_events, turn_of, drafted, project_chat_snapshot,
  events-project_chat_snapshot,
}

abbrev pub listed : Option Fields → List Fields
listed none = []
listed (some turn) = turn ∷ []

abbrev pub records_of : List Json → List Fields
unfolding record_value
records_of [] = []
records_of (v ∷ vs) = listed (record_value (some v)) ++ records_of vs

-- The turns of a snapshot, the oldest first; the one that runs is the last.
unfoldable pub all_turns : Fields → List Fields
unfolding array_value record_value lookup
all_turns state =
    records_of (array_value (lookup "turns" state))
    ++ listed (record_value (lookup "activeTurn" state))

-- The id of the turn that runs, if it has one.
unfoldable pub running_id : Fields → Option String
unfolding string_value record_value lookup
running_id state = elim (record_value (lookup "activeTurn" state)) [
  | none ↦ none
  | some turn ↦ let id = string_value (lookup "id" turn) in if id == "" then none else some id
]

module _ (texts : Texts) (channel : String) where
  unfoldable pub replayed : List Fields → List ChatEvent
  unfolding events_for_turn
  replayed [] = []
  replayed (t ∷ ts) = events_for_turn texts channel t ++ replayed ts

  -- The markdown of the turns.
  unfoldable pub spoken : List Fields → String
  unfolding markdown_text array_value lookup
  spoken [] = ""
  spoken (t ∷ ts) =
      markdown_text texts channel (array_value (lookup "responseParts" t)) <> spoken ts

  replayed-append : (ts us : List Fields) → replayed (ts ++ us) ≡ replayed ts ++ replayed us
  unfolding replayed
  replayed-append [] us = refl
  replayed-append (t ∷ ts) us =
      ap (λ es. events_for_turn texts channel t ++ es) (replayed-append ts us)
      ∙ sym (append_assoc (events_for_turn texts channel t) (replayed ts) (replayed us))

  turn_events-replayed : (o : Option Fields) → turn_events texts channel o ≡ replayed (listed o)
  unfolding replayed
  turn_events-replayed none = refl
  turn_events-replayed (some t) = sym (append-nil (events_for_turn texts channel t))

  turns_events-replayed :
      (vs : List Json) → turns_events texts channel vs ≡ replayed (records_of vs)
  unfolding turns_events replayed
  turns_events-replayed [] = refl
  turns_events-replayed (v ∷ vs) =
      ap (λ es. es ++ turns_events texts channel vs) (turn_events-replayed (record_value (some v)))
      ∙ ap (λ es. replayed (listed (record_value (some v))) ++ es) (turns_events-replayed vs)
      ∙ sym (replayed-append (listed (record_value (some v))) (records_of vs))

  snapshot_events-replayed :
      (state : Fields) → snapshot_events texts channel state ≡ replayed (all_turns state)
  unfolding snapshot_events all_turns
  snapshot_events-replayed state =
      ap (λ es. es ++ turn_events texts channel (record_value (lookup "activeTurn" state)))
        (turns_events-replayed (array_value (lookup "turns" state)))
      ∙ ap (λ es. replayed (records_of (array_value (lookup "turns" state))) ++ es)
          (turn_events-replayed (record_value (lookup "activeTurn" state)))
      ∙ sym (replayed-append (records_of (array_value (lookup "turns" state))) _)

  agent_text-replayed : (ts : List Fields) → agent_text texts channel (replayed ts) ≡ spoken ts
  unfolding replayed spoken agent_text
  agent_text-replayed [] = refl
  agent_text-replayed (t ∷ ts) =
      agent_text-append texts channel (events_for_turn texts channel t) (replayed ts)
      ∙ ap (λ u. u <> agent_text texts channel (replayed ts))
          (agent_text-events_for_turn texts channel t)
      ∙ ap (λ u. markdown_text texts channel (array_value (lookup "responseParts" t)) <> u)
          (agent_text-replayed ts)

  turn-drafted :
      (i : SessionIdentity) (o : Option Fields) (c : ChatSession)
      → active_turn i (drafted texts channel i o c) ≡ active_turn i c
  turn-drafted i none c = refl
  turn-drafted i (some draft) c = (updated i i _ c).same_turn

  set_turn :
      (i : SessionIdentity) (o : Option Fields) (c : ChatSession)
      → active_turn i (set_active_turn i (turn_of texts channel o) c) ≡ elim o [
        | none ↦ none
        | some turn ↦ let id = string_value (lookup "id" turn) in if id == "" then none else some id
      ]
  set_turn i none c = turn-set_active_turn i none c
  set_turn i (some turn) c = elim (Bool-cases (string_value (lookup "id" turn) == "")) [
    | inl blank ↦ rw blank (turn-set_active_turn i none c)
    | inr given ↦
        rw given (turn-set_active_turn i (some (string_value (lookup "id" turn))) c ∙ rw given refl)
  ]

  -- After a snapshot its session shows the events of all its turns, turn by turn in the order of the snapshot
  -- and with the turn that runs at the end, and what the agent says in them is the markdown of these
  -- turns in this order; the turn that runs, if it has an id, is the session's active turn, and else there
  -- is none. The events of every other session stay as they are, also when the snapshot carries a draft.
  pub project_chat_snapshot_lem :
      (i j : SessionIdentity) (state : Fields) (turns : Turns) (chat : ChatSession)
      → (events j (project_chat_snapshot texts channel i (some state) (turns, chat)).1
          ≡ (if same_session i j then replayed (all_turns state) else events j chat))
        × (agent_text texts channel
              (events i (project_chat_snapshot texts channel i (some state) (turns, chat)).1)
            ≡ spoken (all_turns state))
        × (active_turn i (project_chat_snapshot texts channel i (some state) (turns, chat)).1
            ≡ running_id state)
  unfolding project_chat_snapshot running_id
  project_chat_snapshot_lem i j state turns chat = (
    shown j,
    ap (agent_text texts channel) (shown i ∙ rw (same_session_refl i) refl)
        ∙ agent_text-replayed (all_turns state),
    turn-drafted i (record_value (lookup "draft" state)) _
        ∙ turn-replace_events i i (snapshot_events texts channel state) _
        ∙ set_turn i (record_value (lookup "activeTurn" state)) chat,
  )
    where
      shown :
          (k : SessionIdentity)
          → events k (project_chat_snapshot texts channel i (some state) (turns, chat)).1
            ≡ (if same_session i k then replayed (all_turns state) else events k chat)
      shown k =
          events-project_chat_snapshot texts channel i k state turns chat
          ∙ ap (λ es. if same_session i k then es else events k chat)
              (snapshot_events-replayed state)
