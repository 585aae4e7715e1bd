-- ===== src/ChatSession.antt =====
-- packages/workbench/src/services/chat-session.ts: `ChatSessionService`, with the events of
-- chat-events.ts. What is stored is the value that `JSON.parse` gives back for the text that
-- `JSON.stringify` has made of it; a stored text that is no JSON gives `none`, as a missing one does.
pub mod Storage
pub mod Service
pub mod Events
pub mod Keys
pub mod Others
pub mod Appended
pub mod Tests
use zaw.Base.{
  ℕ, zero, suc, String, ◌<>◌, Bool, true, false, ◌&&◌, ◌||◌, not, List, [], ◌∷◌, ◌++◌, map, Option,
  none, some, ◌==◌, if◌then◌else◌, any, keep, is_some,
}
use zaw.ActiveSession.{SessionIdentity, same_session}
use zaw.Json.{Json}
use zaw.ActiveSession.Table.{find_in, store, forget}

pub data Role : Type 0 where
  agent user : Role

pub data Approval : Type 0 where
  approved denied pending : Approval

pub data Level : Type 0 where
  error info warning : Level

-- The fields that a tool call and an approval share.
pub record Call : Type 0 where
  pub tool_call_id : String
  pub title : String
  pub summary : Option String
  pub detail : String

pub data ChatEvent : Type 0 where
  message : Option String → Role → String → ChatEvent
  tool : Call → String → ChatEvent
  approval : Call → String → Approval → ChatEvent
  notification : Level → String → ChatEvent
  failure : String → ChatEvent

pub data ApprovalMode : Type 0 where
  allow ask autopilot : ApprovalMode

pub data Mode : Type 0 where
  agent_mode ask_mode plan_mode : Mode

pub data DisplayKind : Type 0 where
  document image : DisplayKind

pub record ChatAttachment : Type 0 where
  pub label : String
  pub data_text : String
  pub content_type : String
  pub display_kind : DisplayKind

pub record ChatComposition : Type 0 where
  pub agent : String
  pub mode : Option Mode
  pub approval_mode : ApprovalMode
  pub attachments : List ChatAttachment
  pub draft : String
  pub model : String
  pub reasoning_effort : String

abbrev pub empty_composition : ChatComposition
empty_composition = record {
  agent = "";
  mode = some agent_mode;
  approval_mode = ask;
  attachments = [];
  draft = "";
  model = "";
  reasoning_effort = "";
}

-- `Partial<ChatComposition>`
pub record Changes : Type 0 where
  pub agent : Option String
  pub mode : Option (Option Mode)
  pub approval_mode : Option ApprovalMode
  pub attachments : Option (List ChatAttachment)
  pub draft : Option String
  pub model : Option String
  pub reasoning_effort : Option String

abbrev pub no_changes : Changes
no_changes = record {
  agent = none;
  mode = none;
  approval_mode = none;
  attachments = none;
  draft = none;
  model = none;
  reasoning_effort = none;
}

-- `current` is the active session; the two context keys are `turnActive` and `toolApprovalPending`.
pub record ChatSession : Type 0 where
  pub compositions : List (SessionIdentity × ChatComposition)
  pub active_turns : List (SessionIdentity × String)
  pub messages : List (SessionIdentity × List ChatEvent)
  pub stored : List (SessionIdentity × Json)
  pub current : Option SessionIdentity
  pub turn_context : Bool
  pub approval_context : Bool

abbrev pub or_else {ℓ} : {A : Type ℓ} → Option A → A → A
or_else none a = a
or_else (some b) a = b

abbrev pub changed : Changes → ChatComposition → ChatComposition
changed d c = record {
  agent = or_else d.agent c.agent;
  mode = or_else d.mode c.mode;
  approval_mode = or_else d.approval_mode c.approval_mode;
  attachments = or_else d.attachments c.attachments;
  draft = or_else d.draft c.draft;
  model = or_else d.model c.model;
  reasoning_effort = or_else d.reasoning_effort c.reasoning_effort;
}

abbrev pub is_pending : ChatEvent → Bool
is_pending (approval c v pending) = true
is_pending _ = false

abbrev pub has_text : Option String → Bool
has_text none = false
has_text (some s) = not (s == "")

-- Whether an event is a message with the id; the empty id is none.
abbrev pub has_id : String → ChatEvent → Bool
has_id k (message (some j) r t) = j == k
has_id k _ = false

abbrev pub event_id : ChatEvent → Option String
event_id (message (some j) r t) = if j == "" then none else some j
event_id _ = none

abbrev pub is_agent_part : String → ChatEvent → Bool
is_agent_part k (message (some j) Role.agent t) = j == k
is_agent_part k _ = false

-- `findIndex`, and the assignment to that place or the push.
unfoldable pub replace_or_push :
    (ChatEvent → Bool) → (ChatEvent → ChatEvent) → ChatEvent → List ChatEvent → List ChatEvent
replace_or_push p f e [] = e ∷ []
replace_or_push p f e (x ∷ xs) = if p x then f x ∷ xs else x ∷ replace_or_push p f e xs

abbrev pub put_event : Option String → ChatEvent → List ChatEvent → List ChatEvent
put_event none e es = es ++ e ∷ []
put_event (some k) e es = replace_or_push (has_id k) (λ old. e) e es

abbrev pub extend : String → ChatEvent → ChatEvent
extend content (message k r t) = message k r (t <> content)
extend content e = e

abbrev pub added : String → String → List ChatEvent → List ChatEvent
added k content es =
    replace_or_push (is_agent_part k) (extend content) (message (some k) Role.agent content) es
