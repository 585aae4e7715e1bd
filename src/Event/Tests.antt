-- ===== src/Event/Tests.antt =====
-- Runs of the emitter and of the store, and the theorems at concrete inputs.
use zaw.Base.{◌≡◌, refl, false, [], ◌∷◌, none, any, nat_eq, if◌then◌else◌}
use zaw.Event.{Emitter, Act, includes, dispose_listener, fire, fire_all, deliver}
use zaw.Event.Delivery.{IsSubsequence, fire-IsSubsequence}

abbrev three : Emitter
three = record { listeners = 1 ∷ 2 ∷ 3 ∷ []; delivery_queue = none }

abbrev idle : Act
idle l e = (e, false)

-- The first listener unsubscribes the second, the third throws.
abbrev meddling : Act
unfolding dispose_listener
meddling l e = if nat_eq l 1 then (dispose_listener 2 e, false) else (e, nat_eq l 3)

meddled : (fire meddling three).called ≡ 1 ∷ 3 ∷ []
unfolding fire fire_all deliver dispose_listener includes any
meddled = refl

fire-IsSubsequence_example : IsSubsequence (fire idle three).called (1 ∷ 2 ∷ 3 ∷ [])
fire-IsSubsequence_example = fire-IsSubsequence idle three

-- The first listener disposes the emitter.
abbrev closing : Act
closing l e = (record { listeners = []; delivery_queue = none }, false)
