-- ===== src/Event.antt =====
-- packages/ui/src/widgets/event.ts: the emitter and the disposable store.
-- A listener is known by its number, the identity of its entry. What a callback does to the emitter
-- (subscribe, unsubscribe, dispose, fire again) and whether it throws is an argument of `fire`.
pub mod Delivery
pub mod Store
pub mod Tests
use zaw.Base.{
  ℕ, Bool, true, false, ◌||◌, List, [], ◌∷◌, ◌++◌, Option, none, some, any, nat_eq, if◌then◌else◌,
}

pub record Emitter : Type 0 where
  pub listeners : List ℕ
  pub delivery_queue : Option (List ℕ)

-- `Array.prototype.includes` on the entries.
unfoldable pub includes : ℕ → List ℕ → Bool
unfolding any
includes l ls = any (λ x. nat_eq x l) ls

-- `indexOf` and `splice`: the first entry with this identity goes.
unfoldable pub remove : ℕ → List ℕ → List ℕ
remove l [] = []
remove l (x ∷ xs) = if nat_eq x l then xs else x ∷ remove l xs

unfoldable pub event : ℕ → Emitter → Emitter
event l e = record e { listeners = e.listeners ++ l ∷ [] }

unfoldable pub dispose_listener : ℕ → Emitter → Emitter
unfolding remove
dispose_listener l e = record e { listeners = remove l e.listeners }

unfoldable pub dispose : Emitter → Emitter
dispose e = record { listeners = []; delivery_queue = none }

-- The emitter afterwards, the listeners called, and whether a callback threw.
pub record Fired : Type 0 where
  pub emitter : Emitter
  pub called : List ℕ
  pub threw : Bool

abbrev pub Act : Type 0
Act = ℕ → Emitter → Emitter × Bool

abbrev pub call : ℕ → Fired → Fired
call l r = record r { called = l ∷ r.called }

-- The loop over the delivery queue.
unfoldable pub deliver : Act → List ℕ → Emitter → Fired
unfolding includes
deliver act [] e = record { emitter = e; called = []; threw = false }
deliver act (l ∷ queue) e =
    let skipped = deliver act queue e in
    let after = (act l e).0 in
    let went_on = call l (deliver act queue after) in
    let stopped : Fired = record { emitter = after; called = l ∷ []; threw = true } in
    if includes l e.listeners then (if (act l e).1 then stopped else went_on) else skipped

abbrev pub finish : Fired → Fired
finish r = record r { emitter = record { listeners = r.emitter.listeners; delivery_queue = none } }

fire_all : Act → List ℕ → Emitter → Fired
unfolding deliver
fire_all act [] e = record { emitter = e; called = []; threw = false }
fire_all act (l ∷ ls) e =
    finish (deliver act (l ∷ ls) (record e { delivery_queue = some (l ∷ ls) }))

unfoldable pub fire : Act → Emitter → Fired
unfolding fire_all
fire act e = fire_all act e.listeners e
