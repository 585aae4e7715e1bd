-- ===== src/Attachment/Runs.antt =====
-- Histories of the service: calls, answers of the provider, and what hosts do, in any order.
use zaw.Base.{ℕ, String, ◌≡◌, false, List, [], ◌∷◌}
use zaw.Attachment.{Attachment, initial, includes, attach, resolve, reject, detach, on_close}

pub data Event : Type 0 where
  attaches : String → Event
  resolves : ℕ → ℕ → Event
  rejects : ℕ → Event
  detaches : Event
  closes : ℕ → Event

unfoldable pub step : Event → Attachment → Attachment
step (attaches w) s = (attach w s).0
step (resolves g h) s = (resolve g h s).0
step (rejects g) s = reject g s
step detaches s = detach s
step (closes h) s = (on_close h s).0

-- What is asked of the provider: each `connect` gives a host of its own.
abbrev pub IsFresh : Event → Attachment → Type 0
IsFresh (resolves g h) s = (includes h s.opened ≡ false) × (includes h s.closed ≡ false)
IsFresh _ s = Unit

-- The states that a history leads to, its last event first.
pub data Reach : List Event → Attachment → Type 0 where
  start : Reach [] initial
  next :
      {es : List Event} {s : Attachment} (e : Event)
      → Reach es s
      → IsFresh e s
      → Reach (e ∷ es) (step e s)
