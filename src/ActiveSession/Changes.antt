-- ===== src/ActiveSession/Changes.antt =====
-- What listeners of the active session see.
use zaw.Base.{◌≡◌, inl, inr, refl, List, [], ◌∷◌, Option, none, some, is_some, Bool-cases}
use zaw.ActiveSession.{SessionIdentity, ActiveSession, is_active, select, clear_with, clear}

pub data Op : Type 0 where
  selects : SessionIdentity → Op
  clears : Op

unfoldable pub step : Op → ActiveSession → ActiveSession × Option (Option SessionIdentity)
step (selects i) s = select i s
step clears s = clear s

-- The service after the calls, and the events fired, oldest first.
abbrev pub logged :
    Option (Option SessionIdentity) → List (Option SessionIdentity) → List (Option SessionIdentity)
logged none es = es
logged (some e) es = e ∷ es

unfoldable pub run : List Op → ActiveSession → ActiveSession × List (Option SessionIdentity)
run [] s = (s, [])
run (op ∷ ops) s =
    let (s', fired) = step op s in let (s'', events) = run ops s' in (s'', logged fired events)

-- What a listener knows that keeps the last event.
abbrev pub heard : Option SessionIdentity → List (Option SessionIdentity) → Option SessionIdentity
heard known [] = known
heard known (e ∷ es) = heard e es

abbrev pub IsConsistent : ActiveSession → Type 0
IsConsistent s = s.active_context ≡ is_some s.selected

select_step :
    (i : SessionIdentity) (s : ActiveSession)
    → IsConsistent s
    → IsConsistent (select i s).0
      × ((es : List (Option SessionIdentity))
          → heard s.selected (logged (select i s).1 es) ≡ heard (select i s).0.selected es)
unfolding select
select_step i s c = elim (Bool-cases (is_active i s)) [
  | inl same ↦ rw same (c, λ es. refl)
  | inr other ↦ rw other (refl, λ es. refl)
]

clear_step :
    (s : ActiveSession)
    → IsConsistent s
    → IsConsistent (clear s).0
      × ((es : List (Option SessionIdentity))
          → heard s.selected (logged (clear s).1 es) ≡ heard (clear s).0.selected es)
unfolding clear
clear_step s c = go s.selected refl
  where
    go :
        (o : Option SessionIdentity)
        → s.selected ≡ o
        → IsConsistent (clear_with o s).0
          × ((es : List (Option SessionIdentity))
              → heard s.selected (logged (clear_with o s).1 es)
                ≡ heard (clear_with o s).0.selected es)
    go none e = (c, λ es. refl)
    go (some i) e = (refl, λ es. refl)

-- From a state in which the context key says whether there is a selection: after any calls this is
-- so again, and a listener that keeps the last event, and knew the selection before, knows it.
pub run_listener :
    (ops : List Op) (s : ActiveSession)
    → IsConsistent s
    → (heard s.selected (run ops s).1 ≡ (run ops s).0.selected) × IsConsistent (run ops s).0
unfolding run step
run_listener [] s c = (refl, c)
run_listener (selects i ∷ ops) s c =
    let (kept, told) = select_step i s c in
    let (ih, ok) = run_listener ops (select i s).0 kept in
    rw (told (run ops (select i s).0).1) (ih, ok)
run_listener (clears ∷ ops) s c =
    let (kept, told) = clear_step s c in
    let (ih, ok) = run_listener ops (clear s).0 kept in rw (told (run ops (clear s).0).1) (ih, ok)
