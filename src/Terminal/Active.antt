-- ===== src/Terminal/Active.antt =====
-- packages/workbench/src/contrib/terminal/terminal-service.ts: the active terminal.
use zaw.Base.{
  ℕ, String, ◌≡◌, refl, ap, ◌∙◌, Bool, true, false, ◌&&◌, ◌||◌, not, List, [], ◌∷◌, ◌++◌, map,
  Option, none, some, nat_eq, ◌==◌, if◌then◌else◌, any, keep, arith, eq_iff, eq_refl, nat_eq_refl,
  Bool-cases, inl, inr,
}
use zaw.Terminal.{
  TerminalState, TerminalService, toggle_open, toggle_collapse, create, dispose_terminal,
  select_terminal, set_panel_height, start_reattach, reattach, append_output, is_terminal,
  has_terminal, first_resource, truthy, known_active, is_resource, appended, or_default,
}

-- An active terminal with a name is one of the terminals.
abbrev pub is_known : Option String → List TerminalState → Bool
is_known none ts = true
is_known (some r) ts = (r == "") || has_terminal r ts

pub data Op : Type 0 where
  creates : TerminalState → Op
  disposes : String → Op
  selects : String → Op
  resizes_panel : ℕ → Op
  starts_reattach : Op
  reattaches : ℕ → List TerminalState → Op
  outputs : String → String → Op
  toggles_open : Op
  toggles_collapse : Op

unfoldable pub step : Op → TerminalService → TerminalService
step (creates t) s = create t s
step (disposes r) s = dispose_terminal r s
step (selects r) s = select_terminal r s
step (resizes_panel h) s = set_panel_height h s
step starts_reattach s = start_reattach s
step (reattaches g ts) s = reattach g ts s
step (outputs r d) s = append_output r d s
step toggles_open s = record s { group = toggle_open s.group }
step toggles_collapse s = record s { group = toggle_collapse s.group }

unfoldable pub run : List Op → TerminalService → TerminalService
unfolding step
run [] s = s
run (op ∷ ops) s = run ops (step op s)

has_terminal-append :
    (r : String) (t : TerminalState) (ts : List TerminalState)
    → has_terminal r (ts ++ t ∷ []) ≡ has_terminal r ts || is_terminal r t
unfolding any
has_terminal-append r t [] = ground arith
has_terminal-append r t (u ∷ ts) = ground (arith, has_terminal-append r t ts)

is_known-first : (ts : List TerminalState) → is_known (first_resource ts) ts ≡ true
unfolding any
is_known-first [] = refl
is_known-first (t ∷ ts) = ground (arith, eq_refl t.resource)

has_terminal-keep :
    (r q : String) (ts : List TerminalState)
    → has_terminal q (keep (λ t. not (is_terminal r t)) ts) ≡ not (q == r) && has_terminal q ts
unfolding any keep
has_terminal-keep r q [] = ground arith
has_terminal-keep r q (t ∷ ts) =
    ground (arith, has_terminal-keep r q ts, eq_iff t.resource r, eq_iff t.resource q, eq_iff q r)

has_terminal-appended :
    (q r d : String) (ts : List TerminalState)
    → has_terminal q (map (appended r d) ts) ≡ has_terminal q ts
unfolding any
has_terminal-appended q r d [] = refl
has_terminal-appended q r d (t ∷ ts) = ground (arith, has_terminal-appended q r d ts)

is_known-disposed :
    (r : String) (o : Option String) (ts : List TerminalState)
    → is_known o ts ≡ true
    → is_known
        (if is_resource r o then first_resource (keep (λ t. not (is_terminal r t)) ts) else o)
        (keep (λ t. not (is_terminal r t)) ts)
      ≡ true
is_known-disposed r none ts h = refl
is_known-disposed r (some q) ts h = elim (Bool-cases (q == r)) [
  | inl same ↦ rw same (is_known-first (keep (λ t. not (is_terminal r t)) ts))
  | inr other ↦ rw (other, has_terminal-keep r q ts, other) h
]

is_known-known_active :
    (o : Option String) (ts : List TerminalState) → is_known (known_active ts o) ts ≡ true
is_known-known_active none ts = refl
is_known-known_active (some r) ts = elim (Bool-cases ((r == "") || has_terminal r ts)) [
  | inl good ↦ ground arith
  | inr gone ↦ ground arith
]

is_known-reattached :
    (b : Bool) (o : Option String) (ts : List TerminalState)
    → is_known (if b then first_resource ts else known_active ts o) ts ≡ true
is_known-reattached true o ts = is_known-first ts
is_known-reattached false o ts = is_known-known_active o ts

is_known-appended :
    (o : Option String) (r d : String) (ts : List TerminalState)
    → is_known o (map (appended r d) ts) ≡ is_known o ts
is_known-appended none r d ts = refl
is_known-appended (some q) r d ts = ap (λ b. (q == "") || b) (has_terminal-appended q r d ts)

known : TerminalService → Bool
known s = is_known s.active_terminal s.terminals

known-step : (op : Op) (s : TerminalService) → known s ≡ true → known (step op s) ≡ true
unfolding known step create dispose_terminal select_terminal set_panel_height start_reattach
    reattach append_output
known-step (creates t) s h = ground (
  arith,
  has_terminal-append t.resource (record t { title = or_default t.title "Terminal" }) s.terminals,
  eq_refl t.resource,
)
known-step (disposes r) s h = is_known-disposed r s.active_terminal s.terminals h
known-step (selects r) s h = ground arith
known-step (resizes_panel n) s h = h
known-step starts_reattach s h = h
known-step (reattaches g ts) s h = elim (Bool-cases (nat_eq g s.reattach_generation)) [
  | inl newest ↦ rw newest (is_known-reattached _ s.active_terminal ts)
  | inr stale ↦ rw stale h
]
known-step (outputs r d) s h = elim (Bool-cases (d == "")) [
  | inl blank ↦ rw blank h
  | inr given ↦ rw given (is_known-appended s.active_terminal r d s.terminals ∙ h)
]
known-step toggles_open s h = h
known-step toggles_collapse s h = h

-- If the active terminal, where it has a name, is one of the terminals, this stays so in every
-- history of calls, of answers to reattachments in any order and of output.
pub run_known :
    (ops : List Op) (s : TerminalService)
    → is_known s.active_terminal s.terminals ≡ true
    → is_known (run ops s).active_terminal (run ops s).terminals ≡ true
unfolding run known
run_known [] s h = h
run_known (op ∷ ops) s h = run_known ops (step op s) (known-step op s h)

nothing_left :
    (b : Bool) (o : Option String) → truthy (if b then none else known_active [] o) ≡ false
unfolding any
nothing_left true o = refl
nothing_left false none = refl
nothing_left false (some r) = elim (Bool-cases (r == "")) [
  | inl blank ↦ ground arith
  | inr named ↦ ground arith
]

-- The newest reattachment that finds no terminals leaves no terminal active, but the context key
-- `terminal.active` as it was.
pub reattach_nothing :
    (s : TerminalService)
    → (truthy (reattach s.reattach_generation [] s).active_terminal ≡ false)
      × ((reattach s.reattach_generation [] s).active_context ≡ s.active_context)
unfolding reattach any
reattach_nothing s = rw (nat_eq_refl s.reattach_generation) (nothing_left _ s.active_terminal, refl)
