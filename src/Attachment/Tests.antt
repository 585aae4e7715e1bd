-- ===== src/Attachment/Tests.antt =====
-- Runs of the attachment service, and the theorems at concrete histories.
use zaw.Base.{if◌then◌else◌, ◌≡◌, refl, List, [], ◌∷◌, none, some}
use zaw.Attachment.{Attachment, initial, holds, on_close, attach, attached, resolve}
use zaw.Attachment.Runs.{Event, attaches, resolves, step, Reach, start, next}
use zaw.Attachment.Invariant.{last_request, IsTidy}
use zaw.Attachment.Guarantees.{of_current, Reach-IsTidy, Reach-last_request, Reach-on_close}

-- Two workspaces are asked for; the second answer comes first.
abbrev crossed : List Event
crossed = resolves 1 11 ∷ resolves 2 12 ∷ attaches "b" ∷ attaches "a" ∷ []

abbrev after_crossed : Attachment
after_crossed =
    step (resolves 1 11) (step (resolves 2 12) (step (attaches "b") (step (attaches "a") initial)))

crossed_run : Reach crossed after_crossed
unfolding step attach resolve
crossed_run =
    next (resolves 1 11)
      (next (resolves 2 12) (next (attaches "b") (next (attaches "a") start tt) tt) (refl, refl))
      (refl, refl)

crossed_tests :
    (after_crossed.current ≡ some ("b", 12))
    × (after_crossed.closed ≡ 11 ∷ [])
    × (attached (some "a") after_crossed ≡ none)
    × (attached none after_crossed ≡ some 12)
unfolding step attach resolve attached
crossed_tests = (refl, refl, refl, refl)

Reach-IsTidy_example : IsTidy after_crossed
Reach-IsTidy_example = Reach-IsTidy crossed_run

Reach-last_request_example : last_request crossed ≡ some "b"
Reach-last_request_example = Reach-last_request "b" 12 crossed_run crossed_tests.0

Reach-on_close_example :
    ((on_close 12 after_crossed).0.current
      ≡ (if holds 12 after_crossed.current then none else after_crossed.current))
    × ((on_close 12 after_crossed).1 ≡ of_current 12 after_crossed.current)
Reach-on_close_example = Reach-on_close 12 crossed_run
