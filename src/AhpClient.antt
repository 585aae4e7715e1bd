-- ===== src/AhpClient.antt =====
-- packages/workbench/src/providers/ahp/ahp-client.ts: `AHPClient`, its state and the table of its requests.
-- A request is known by its number. `answers` lists how the promises of `request` were settled, `sent`
-- the frames given to the socket, `emitted` the actions given to the listeners, `told_closed` the close listeners that were called, each in its
-- order.
pub mod Operations
pub mod Values
pub mod Messages
pub mod Sessions
pub mod Chats
pub mod Resources
pub mod Requests
pub mod Answering
pub mod Outputs
pub mod Relisted
pub mod Prompting
pub mod Numbering
pub mod Tests
use zaw.Base.{
  ℕ, suc, String, Bool, true, false, List, [], ◌∷◌, ◌++◌, Option, none, some, nat_eq, not, map, any,
  keep, if◌then◌else◌,
}
use zaw.Json.{Json}

pub record AgentTerminal : Type 0 where
  pub resource : String
  pub title : String
  pub output : String

pub record AgentHostAgent : Type 0 where
  pub description : String
  pub id : String
  pub name : String

-- What `JSON.stringify` is given: the number of a request or of a client action, with the rest.
pub data Frame : Type 0 where
  request_frame : ℕ → String → Json → Frame
  dispatch_frame : String → ℕ → Json → Frame

-- How the promise of a request is settled; `none` is `undefined`.
pub data Answer : Type 0 where
  resolved : Option Json → Answer
  rejected : String → Answer

pub record AhpClient : Type 0 where
  pub client_id : String
  pub pending : List ℕ
  pub next_id : ℕ
  pub next_client_seq : ℕ
  pub default_directory : String
  pub closed : Bool
  pub action_listeners : List ℕ
  pub close_listeners : List ℕ
  pub session_chats : List (String × String)
  pub session_changesets : List (String × String)
  pub terminals : List (String × AgentTerminal)
  pub agents : List AgentHostAgent
  pub sent : List Frame
  pub answers : List (ℕ × Answer)
  pub emitted : List Json
  pub told_closed : List ℕ

abbrev pub fresh_client : String → AhpClient
fresh_client client_id = record {
  client_id = client_id;
  pending = [];
  next_id = 1;
  next_client_seq = 1;
  default_directory = "";
  closed = false;
  action_listeners = [];
  close_listeners = [];
  session_chats = [];
  session_changesets = [];
  terminals = [];
  agents = [];
  sent = [];
  answers = [];
  emitted = [];
  told_closed = [];
}

unfoldable pub request : String → Json → AhpClient → AhpClient
request method params c = record c {
  next_id = suc c.next_id;
  sent = c.sent ++ request_frame c.next_id method params ∷ [];
  pending = c.pending ++ c.next_id ∷ [];
}

unfoldable pub dispatch : String → Json → AhpClient → AhpClient
dispatch channel action c = record c {
  next_client_seq = suc c.next_client_seq;
  sent = c.sent ++ dispatch_frame channel c.next_client_seq action ∷ [];
}

unfoldable pub emit_action : Json → AhpClient → AhpClient
emit_action action c = record c { emitted = c.emitted ++ action ∷ [] }

abbrev pub is_pending : ℕ → AhpClient → Bool
is_pending id c = any (λ i. nat_eq i id) c.pending

abbrev pub forget : ℕ → List ℕ → List ℕ
forget id ids = keep (λ i. not (nat_eq i id)) ids

-- `receive` for a message that answers the request.
unfoldable pub settle : ℕ → Answer → AhpClient → AhpClient
unfolding any keep
settle id a c =
    if is_pending id c
    then record c { pending = forget id c.pending; answers = c.answers ++ (id, a) ∷ [] }
    else c

-- The listener of the socket's "close".
unfoldable pub on_socket_close : AhpClient → AhpClient
on_socket_close c = record c {
  closed = true;
  answers = c.answers ++ map (λ id. (id, rejected "Agent Host connection closed")) c.pending;
  pending = [];
  told_closed = c.told_closed ++ c.close_listeners;
}

-- A `Set` of listeners, each known by its number.
unfoldable pub on_action : ℕ → AhpClient → AhpClient
unfolding any
on_action l c = record c {
  action_listeners =
      if any (λ i. nat_eq i l) c.action_listeners
      then c.action_listeners
      else c.action_listeners ++ l ∷ [];
}

unfoldable pub off_action : ℕ → AhpClient → AhpClient
unfolding keep
off_action l c = record c { action_listeners = forget l c.action_listeners }

unfoldable pub on_close : ℕ → AhpClient → AhpClient
unfolding any
on_close l c = record c {
  close_listeners =
      if any (λ i. nat_eq i l) c.close_listeners
      then c.close_listeners
      else c.close_listeners ++ l ∷ [];
}

unfoldable pub off_close : ℕ → AhpClient → AhpClient
unfolding keep
off_close l c = record c { close_listeners = forget l c.close_listeners }
