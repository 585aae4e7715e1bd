-- ===== src/Projection/Reached.antt =====
-- packages/workbench/src/contrib/sessions/ahp-projection-service.ts: the operations on the chat sessions that
-- `project` calls, as steps on one session.
use zaw.Base.{String, refl, Bool, true, false, List, Option, none, some, if◌then◌else◌}
use zaw.Json.{Json, text, flag, numeral, null, array, object}
use zaw.ActiveSession.{SessionIdentity}
use zaw.ChatSession.{ChatSession, ChatEvent, Changes}
use zaw.ChatSession.Service.{
  append_event, append_message_delta, set_active_turn, replace_events, update,
}
use zaw.ChatSession.Keys.{step, updates, sets_turn, replaces, appends, appends_delta}
use zaw.ChatSession.Others.{Ran, goes_on}
use zaw.Projection.Dispatch.{when_text}

pub then_turn :
    (i : SessionIdentity) (a b : ChatSession) (t : Option String)
    → Ran i a b
    → Ran i a (set_active_turn i t b)
unfolding step
then_turn i a b t r = goes_on b (sets_turn i t) refl r

pub then_event :
    (i : SessionIdentity) (a b : ChatSession) (e : ChatEvent)
    → Ran i a b
    → Ran i a (append_event i e b)
unfolding step
then_event i a b e r = goes_on b (appends i e) refl r

pub then_delta :
    (i : SessionIdentity) (a b : ChatSession) (k content : String)
    → Ran i a b
    → Ran i a (append_message_delta i k content b)
unfolding step
then_delta i a b k content r = goes_on b (appends_delta i k content) refl r

pub then_events :
    (i : SessionIdentity) (a b : ChatSession) (es : List ChatEvent)
    → Ran i a b
    → Ran i a (replace_events i es b)
unfolding step
then_events i a b es r = goes_on b (replaces i es) refl r

pub then_update :
    (i : SessionIdentity) (a b : ChatSession) (d : Changes) → Ran i a b → Ran i a (update i d b)
unfolding step
then_update i a b d r = goes_on b (updates i d) refl r

pub when_text-either {ℓ κ} :
    {A : Type ℓ} (P : A → Type κ) (v : Option Json) (d : A) (f : String → A)
    → P d
    → ((x : String) → P (f x))
    → P (when_text v d f)
when_text-either P none d f p q = p
when_text-either P (some (text x)) d f p q = q x
when_text-either P (some (flag b)) d f p q = p
when_text-either P (some (numeral n)) d f p q = p
when_text-either P (some null) d f p q = p
when_text-either P (some (array vs)) d f p q = p
when_text-either P (some (object fs)) d f p q = p

pub choice-Ran :
    (i : SessionIdentity) (a : ChatSession) (b : Bool) (x y : ChatSession)
    → Ran i a x
    → Ran i a y
    → Ran i a (if b then x else y)
choice-Ran i a true x y p q = p
choice-Ran i a false x y p q = q
