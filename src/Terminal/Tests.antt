-- ===== src/Terminal/Tests.antt =====
-- Runs of the terminal service, and the theorems at concrete inputs.
use zaw.Base.{String, ◌≡◌, refl, true, false, List, [], ◌∷◌, none, some}
use zaw.Terminal.{
  TerminalState, TerminalGroup, TerminalService, create, dispose_terminal, start_reattach, reattach,
  append_output,
}
use zaw.Terminal.Active.{
  Op, creates, disposes, outputs, starts_reattach, reattaches, run, step, is_known, run_known,
}

abbrev terminal : String → TerminalState
terminal r = record { resource = r; title = ""; output = "" }

abbrev closed : TerminalGroup
closed = record { is_open = false; collapsed = false; panel_visible = false; open_context = false }

abbrev blank : TerminalService
blank = record {
  terminals = [];
  active_terminal = none;
  panel_height = 300;
  reattach_generation = 0;
  active_context = false;
  group = closed;
}

abbrev calls : List Op
calls =
    creates (terminal "a")
    ∷ creates (terminal "b")
    ∷ starts_reattach
    ∷ starts_reattach
    ∷ reattaches 1 []
    ∷ disposes "b"
    ∷ outputs "a" "$ "
    ∷ []

calls_tests :
    ((run calls blank).active_terminal ≡ some "a") × ((run calls blank).active_context ≡ true)
unfolding run step create dispose_terminal start_reattach reattach append_output
calls_tests = (refl, refl)

run_known_example : is_known (run calls blank).active_terminal (run calls blank).terminals ≡ true
run_known_example = run_known calls blank refl

abbrev one : TerminalService
one = record blank { terminals = terminal "a" ∷ terminal "b" ∷ [] }
