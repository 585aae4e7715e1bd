-- ===== src/ActiveSession/Tests.antt =====
-- Runs of the active session and of its keys, and the theorems at concrete inputs.
use zaw.Base.{◌≡◌, refl, true, false, List, [], ◌∷◌, none, some, arith}
use zaw.ActiveSession.{SessionIdentity, ActiveSession, select, clear}
use zaw.ActiveSession.Changes.{Op, selects, clears, run, step}
use zaw.ActiveSession.Key.{
  ByteIdentity, session_identity_key, parse_session_identity_key,
  parse_session_identity_key-session_identity_key,
}
use zaw.ActiveSession.Key.Escapes.{encode}

abbrev first : SessionIdentity
first = record { workspace_id = "w"; resource = "r1" }

abbrev calls : List Op
calls = selects first ∷ selects first ∷ clears ∷ clears ∷ []

abbrev idle : ActiveSession
idle = record { selected = none; active_context = false }

events_once : (run calls idle).1 ≡ some first ∷ none ∷ []
unfolding run step select clear
events_once = refl

-- "a|b" and "/c"
abbrev odd : ByteIdentity
odd = record { workspace_id = b'a' ∷ b'|' ∷ b'b' ∷ []; resource = b'/' ∷ b'c' ∷ [] }

odd_key :
    session_identity_key odd
    ≡ b'a' ∷ b'%' ∷ b'7' ∷ b'C' ∷ b'b' ∷ b'|' ∷ b'%' ∷ b'2' ∷ b'F' ∷ b'c' ∷ []
unfolding session_identity_key encode
odd_key = refl

parse_key_example : parse_session_identity_key (λ bs. true) (session_identity_key odd) ≡ some odd
parse_key_example =
    parse_session_identity_key-session_identity_key (λ bs. true) odd (omega arith) (λ e. cc)
      (λ e. cc) refl refl
