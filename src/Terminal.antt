-- ===== src/Terminal.antt =====
-- packages/workbench/src/contrib/terminal/terminal-service.ts: `TerminalService`, with the panel of
-- terminal-group-service.ts. Every change fires the change event. `create`, `disposeTerminal` and
-- `reattach` wait for the host: the function of a call is what follows its wait, and `start_reattach`
-- is the half of `reattach` before it.
pub mod Active
pub mod Output
pub mod Tests
use zaw.Base.{
  ℕ, suc, ◌+◌, max, String, ◌<>◌, Bool, true, false, ◌&&◌, ◌||◌, not, List, [], ◌∷◌, ◌++◌, map,
  Option, none, some, nat_eq, ◌==◌, if◌then◌else◌, any, keep, is_some,
}

pub record TerminalState : Type 0 where
  pub resource : String
  pub title : String
  pub output : String

-- `TerminalGroupService`: `panel_visible` is the layout's panel, `open_context` the context key.
pub record TerminalGroup : Type 0 where
  pub is_open : Bool
  pub collapsed : Bool
  pub panel_visible : Bool
  pub open_context : Bool

unfoldable pub open_panel : TerminalGroup → TerminalGroup
open_panel g =
    if g.is_open then g else record g { is_open = true; panel_visible = true; open_context = true }

unfoldable pub toggle_open : TerminalGroup → TerminalGroup
toggle_open g = record g {
  is_open = not g.is_open;
  panel_visible = not g.is_open;
  open_context = not g.is_open;
}

unfoldable pub toggle_collapse : TerminalGroup → TerminalGroup
toggle_collapse g = record g { collapsed = not g.collapsed }

pub record TerminalService : Type 0 where
  pub terminals : List TerminalState
  pub active_terminal : Option String
  pub panel_height : ℕ
  pub reattach_generation : ℕ
  pub active_context : Bool
  pub group : TerminalGroup

abbrev pub is_terminal : String → TerminalState → Bool
is_terminal r t = t.resource == r

abbrev pub has_terminal : String → List TerminalState → Bool
has_terminal r ts = any (is_terminal r) ts

abbrev pub or_default : String → String → String
or_default s d = if s == "" then d else s

-- The attached host has made the terminal.
unfoldable pub create : TerminalState → TerminalService → TerminalService
unfolding open_panel
create t s = record s {
  terminals = s.terminals ++ record t { title = or_default t.title "Terminal" } ∷ [];
  active_terminal = some t.resource;
  active_context = true;
  group = open_panel s.group;
}

abbrev pub first_resource : List TerminalState → Option String
first_resource [] = none
first_resource (t ∷ ts) = some t.resource

abbrev pub is_resource : String → Option String → Bool
is_resource r none = false
is_resource r (some q) = q == r

-- `Boolean(resource)`
abbrev pub truthy : Option String → Bool
truthy none = false
truthy (some r) = not (r == "")

-- A workspace is attached, and its host, if there is one, has disposed of the terminal.
unfoldable pub dispose_terminal : String → TerminalService → TerminalService
unfolding keep
dispose_terminal r s =
    let left = keep (λ t. not (is_terminal r t)) s.terminals in
    let active =
      if is_resource r s.active_terminal then first_resource left else s.active_terminal in
    record s { terminals = left; active_terminal = active; active_context = truthy active }

unfoldable pub select_terminal : String → TerminalService → TerminalService
unfolding any
select_terminal r s =
    if has_terminal r s.terminals
    then record s { active_terminal = some r; active_context = true }
    else s

unfoldable pub set_panel_height : ℕ → TerminalService → TerminalService
set_panel_height h s = record s { panel_height = max 120 h }

-- What is sent to the attached host.
unfoldable pub input : String → String → TerminalService → Option (String × String)
unfolding any
input r data_text s =
    if (data_text == "") || not (has_terminal r s.terminals) then none else some (r, data_text)

unfoldable pub resize : String → ℕ → ℕ → TerminalService → Option (String × ℕ × ℕ)
unfolding any
resize r cols rows s = if has_terminal r s.terminals then some (r, max 1 cols, max 1 rows) else none

unfoldable pub start_reattach : TerminalService → TerminalService
start_reattach s = record s { reattach_generation = s.reattach_generation + 1 }

abbrev pub known_active : List TerminalState → Option String → Option String
known_active ts active = elim active [
  | none ↦ none
  | some r ↦ if not (r == "") && not (has_terminal r ts) then none else some r
]

-- The host has attached the terminals for the call with this generation.
unfoldable pub reattach : ℕ → List TerminalState → TerminalService → TerminalService
unfolding any
reattach generation ts s =
    let active = known_active ts s.active_terminal in
    if nat_eq generation s.reattach_generation
    then record s {
      terminals = ts;
      active_terminal =
          if s.group.is_open && not (truthy active) then first_resource ts else active;
    }
    else s

abbrev pub appended : String → String → TerminalState → TerminalState
appended r data_text t = if is_terminal r t then record t { output = t.output <> data_text } else t

unfoldable pub append_output : String → String → TerminalService → TerminalService
append_output r data_text s =
    if data_text == "" then s else record s { terminals = map (appended r data_text) s.terminals }
