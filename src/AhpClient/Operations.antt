-- ===== src/AhpClient/Operations.antt =====
-- packages/workbench/src/providers/ahp/ahp-client.ts: an `async` method as a program. What it does
-- between two waits is a change of the client; a wait is for the answer to a request.
use zaw.Base.{ℕ, String, Option, List, ◌∷◌}
use zaw.Json.{Json}
use zaw.AhpClient.{AhpClient, request, dispatch, emit_action, settle, Answer, resolved, rejected}

pub data Op (A : Type 0) : Type 0 where
  returns : A → Op A
  throws : String → Op A
  asks : String → Json → (Option Json → Op A) → Op A
  changes : (AhpClient → AhpClient) → Op A → Op A
  looks : (AhpClient → Op A) → Op A

infixl 5 ◌>>=◌ ◌>>◌
abbrev pub ◌>>=◌ : {A B : Type 0} → Op A → (A → Op B) → Op B
returns a >>= f = f a
throws e >>= f = throws e
asks m p k >>= f = asks m p λ r. k r >>= f
changes g o >>= f = changes g (o >>= f)
looks k >>= f = looks λ c. k c >>= f

abbrev pub ◌>>◌ : {A B : Type 0} → Op A → Op B → Op B
o >> n = o >>= λ _. n

-- `await this.request(…)`
abbrev pub ask : String → Json → Op (Option Json)
ask method params = asks method params returns

abbrev pub change : (AhpClient → AhpClient) → Op Unit
change g = changes g (returns tt)

abbrev pub current : Op AhpClient
current = looks returns

abbrev pub dispatches : String → Json → Op Unit
dispatches channel action = change (dispatch channel action)

abbrev pub emits : Json → Op Unit
emits action = change (emit_action action)

-- How far a method has come: it has returned, has thrown, or waits for the request of that number.
pub data Progress (A : Type 0) : Type 0 where
  done : A → Progress A
  failed : String → Progress A
  waits : ℕ → (Option Json → Op A) → Progress A

-- To the next wait.
unfoldable pub run : {A : Type 0} → Op A → AhpClient → AhpClient × Progress A
unfolding request
run (returns a) c = (c, done a)
run (throws e) c = (c, failed e)
run (asks m p k) c = (request m p c, waits c.next_id k)
run (changes g o) c = run o (g c)
run (looks k) c = run (k c) c

-- What follows the wait, once the request is settled.
unfoldable pub resume :
    {A : Type 0} → (Option Json → Op A) → Answer → AhpClient → AhpClient × Progress A
unfolding run
resume k (resolved v) c = run (k v) c
resume k (rejected e) c = (c, failed e)

-- A method to its end, or until no answer is left: each wait is answered by the next one of the list,
-- and nothing else comes in between.
unfoldable pub converse :
    {A : Type 0} → List Answer → AhpClient × Progress A → AhpClient × Progress A
unfolding resume settle
converse (a ∷ rest) (c, waits id k) = converse rest (resume k a (settle id a c))
converse rest (c, p) = (c, p)
