-- ===== src/ChatSession/Service.antt =====
-- packages/workbench/src/services/chat-session.ts: the operations. Each that changes the session `i`
-- fires the change event for `i` and brings the context keys up to date.
use zaw.Base.{String, List, [], Option, none, some, ◌==◌, if◌then◌else◌, any}
use zaw.ActiveSession.{SessionIdentity, same_session}
use zaw.ActiveSession.Table.{find_in, store, forget}
use zaw.ChatSession.{
  ChatSession, ChatComposition, ChatEvent, Changes, no_changes, changed, is_pending, has_text,
  event_id, put_event, added, or_else,
}
use zaw.ChatSession.Storage.{persist, restore}

-- The composition, and the service after a first look at it has restored it.
unfoldable pub composition : SessionIdentity → ChatSession → ChatComposition × ChatSession
unfolding find_in store restore
composition i s = elim (find_in i s.compositions) [
  | none ↦
      let restored = restore (find_in i s.stored) in
      (restored, record s { compositions = store i restored s.compositions })
  | some c ↦ (c, s)
]

unfoldable pub events : SessionIdentity → ChatSession → List ChatEvent
unfolding find_in
events i s = or_else (find_in i s.messages) []

unfoldable pub active_turn : SessionIdentity → ChatSession → Option String
unfolding find_in
active_turn i s = find_in i s.active_turns

-- `syncContext` when the session `c` is the active one.
abbrev pub synced : SessionIdentity → ChatSession → ChatSession
synced c s = record s {
  turn_context = has_text (active_turn c s);
  approval_context = any is_pending (events c s);
}

-- `syncContext()`, the listener of the active session.
unfoldable pub sync_context : ChatSession → ChatSession
unfolding events active_turn any
sync_context s = elim s.current [ none ↦ s | some c ↦ synced c s ]

-- `syncContext(changed)`
unfoldable pub sync_context_of : SessionIdentity → ChatSession → ChatSession
unfolding events active_turn any
sync_context_of i s = elim s.current [
  | none ↦ s
  | some c ↦ if same_session i c then synced c s else s
]

-- Another session is selected, or none.
unfoldable pub selects : Option SessionIdentity → ChatSession → ChatSession
unfolding sync_context
selects c s = sync_context (record s { current = c })

unfoldable pub update : SessionIdentity → Changes → ChatSession → ChatSession
unfolding composition sync_context_of persist
update i changes s =
    let seen = composition i s in
    let next = changed changes seen.0 in
    sync_context_of i (record seen.1 {
      compositions = store i next seen.1.compositions;
      stored = store i (persist next) seen.1.stored;
    })

unfoldable pub clear_after_send : SessionIdentity → ChatSession → ChatSession
unfolding update
clear_after_send i s = update i (record no_changes { attachments = some []; draft = some "" }) s

unfoldable pub set_active_turn : SessionIdentity → Option String → ChatSession → ChatSession
unfolding sync_context_of store forget
set_active_turn i turn s = sync_context_of i (record s {
  active_turns = elim turn [
    | none ↦ forget i s.active_turns
    | some t ↦ if t == "" then forget i s.active_turns else store i t s.active_turns
  ];
})

unfoldable pub replace_events : SessionIdentity → List ChatEvent → ChatSession → ChatSession
unfolding sync_context_of store
replace_events i es s = sync_context_of i (record s { messages = store i es s.messages })

unfoldable pub append_event : SessionIdentity → ChatEvent → ChatSession → ChatSession
unfolding sync_context_of store events
append_event i e s =
    sync_context_of i
      (record s { messages = store i (put_event (event_id e) e (events i s)) s.messages })

unfoldable pub append_message_delta : SessionIdentity → String → String → ChatSession → ChatSession
unfolding sync_context_of store events
append_message_delta i part_id content s =
    sync_context_of i
      (record s { messages = store i (added part_id content (events i s)) s.messages })
