-- ===== src/ChatSession/Tests.antt =====
-- Runs of the chat session service, and the theorems at concrete inputs.
use zaw.Base.{String, ◌≡◌, refl, true, false, List, [], ◌∷◌, ◌++◌, none, some, if◌then◌else◌, any}
use zaw.ActiveSession.{SessionIdentity, same_session}
use zaw.ChatSession.{
  ChatSession, Changes, no_changes, message, approval, Approval, Role, is_agent_part, allow,
}
use zaw.ChatSession.Service.{events, append_event, selects, set_active_turn}
use zaw.ChatSession.Events.{stream, joined, stream_lem}
use zaw.ChatSession.Keys.{
  Op, selects_session, appends, sets_turn, run, step, IsSynced, run-IsSynced,
}

abbrev session : String → SessionIdentity
session r = record { workspace_id = "w"; resource = r }

abbrev fresh : ChatSession
fresh = record {
  compositions = [];
  active_turns = [];
  messages = [];
  stored = [];
  current = none;
  turn_context = false;
  approval_context = false;
}

abbrev effort : Changes
effort = record no_changes {
  draft = some "hi";
  approval_mode = some allow;
  reasoning_effort = some "high";
}

abbrev asked : List Op
asked =
    selects_session (some (session "a"))
    ∷ sets_turn (session "a") (some "t1")
    ∷ appends (session "a") (
        approval (record { tool_call_id = "c"; title = "Run"; summary = none; detail = "" }) "ch"
          Approval.pending)
    ∷ appends (session "b") (message none Role.user "hello")
    ∷ []

asked_tests : ((run asked fresh).turn_context ≡ true) × ((run asked fresh).approval_context ≡ true)
unfolding run step selects set_active_turn append_event any
asked_tests = (refl, refl)

fresh-IsSynced : IsSynced fresh
fresh-IsSynced = tt

run-IsSynced_example : IsSynced (run asked fresh)
run-IsSynced_example = run-IsSynced asked fresh fresh-IsSynced

no_part : any (is_agent_part "p") (events (session "a") fresh) ≡ false
unfolding any events
no_part = refl

stream_example : events (session "a") (stream (session "a") "p" ("Hel" ∷ "lo" ∷ []) fresh) ≡ (
    if same_session (session "a") (session "a")
    then events (session "a") fresh ++ message (some "p") Role.agent (joined "Hel" ("lo" ∷ [])) ∷ []
    else events (session "a") fresh)
stream_example = stream_lem (session "a") (session "a") "p" "Hel" ("lo" ∷ []) fresh no_part
