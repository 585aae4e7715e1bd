-- ===== src/Attachment.antt =====
-- packages/workbench/src/services/workspace-attachment.ts: `WorkspaceAttachmentService`.
-- `attach` waits for the provider's `connect`, so other calls come between its two halves: `attach`
-- is the half before the wait, `resolve` and `reject` are what follows it. A host is known by its
-- number; `closed` lists the hosts that were closed, by the service or from their own side.
pub mod Runs
pub mod Invariant
pub mod Answers
pub mod Closing
pub mod Guarantees
pub mod Tests
use zaw.Base.{
  ℕ, suc, ◌+◌, String, Bool, true, false, ◌&&◌, not, List, [], ◌∷◌, ◌++◌, Option, none, some,
  nat_eq, ◌==◌, if◌then◌else◌, any, find, keep, map,
}

-- A call of `attach` that waits for its host.
pub record Pending : Type 0 where
  pub generation : ℕ
  pub workspace : String

-- The listeners that `attach` put on a host close over these.
pub record Subscription : Type 0 where
  pub generation : ℕ
  pub host : ℕ
  pub workspace : String

pub record Attachment : Type 0 where
  pub current : Option (String × ℕ)
  pub generation : ℕ
  pub pending : List Pending
  pub subscriptions : List Subscription
  pub opened : List ℕ
  pub closed : List ℕ

abbrev pub initial : Attachment
initial = record {
  current = none;
  generation = 0;
  pending = [];
  subscriptions = [];
  opened = [];
  closed = [];
}

unfoldable pub includes : ℕ → List ℕ → Bool
unfolding any
includes h hs = any (λ x. nat_eq x h) hs

abbrev pub is_closed : Attachment → ℕ → Bool
is_closed s h = includes h s.closed

-- `previous?.host.close()`, after `current` has been cleared.
abbrev pub closed_with : Option (String × ℕ) → List ℕ → List ℕ
closed_with none hs = hs
closed_with (some (w, h)) hs = h ∷ hs

unfoldable pub close_current : Attachment → Attachment
close_current s = record s { current = none; closed = closed_with s.current s.closed }

-- The host that is attached to the workspace and open.
abbrev pub reusable : Attachment → String → Option (String × ℕ) → Option ℕ
reusable s w none = none
reusable s w (some (v, h)) = if (v == w) && not (is_closed s h) then some h else none

abbrev pub begin : String → Attachment → Attachment
begin w s = record (close_current s) {
  generation = suc s.generation;
  pending = record { generation = suc s.generation; workspace = w } ∷ s.pending;
}

abbrev pub attach_with : String → Attachment → Option ℕ → Attachment × Option ℕ
attach_with w s (some h) = (s, some h)
attach_with w s none = (begin w s, none)

-- Up to the wait: the host at once, or `none` while `connect` is awaited.
unfoldable pub attach : String → Attachment → Attachment × Option ℕ
unfolding close_current includes
attach w s = attach_with w s (reusable s w s.current)

pub data Attached : Type 0 where
  host : ℕ → Attached
  stale : Attached
  unknown : Attached

-- After the wait: a superseded call closes its host and throws.
abbrev pub settle : Pending → ℕ → Attachment → Attachment × Attached
settle p h s =
    if nat_eq p.generation s.generation
    then (
      record s {
        current = some (p.workspace, h);
        subscriptions =
            record { generation = p.generation; host = h; workspace = p.workspace }
            ∷ s.subscriptions;
      },
      host h,
    )
    else (record s { closed = h ∷ s.closed }, stale)

abbrev pub without : ℕ → List Pending → List Pending
without g ps = keep (λ p. not (nat_eq p.generation g)) ps

abbrev pub resolve_with : Option Pending → ℕ → Attachment → Attachment × Attached
resolve_with none h s = (s, unknown)
resolve_with (some p) h s =
    settle p h (record s { pending = without p.generation s.pending; opened = h ∷ s.opened })

-- `connect` of the call with this generation gives the host.
unfoldable pub resolve : ℕ → ℕ → Attachment → Attachment × Attached
unfolding find keep
resolve g h s = resolve_with (find (λ p. nat_eq p.generation g) s.pending) h s

-- `connect` fails: the call throws, and nothing else changes.
unfoldable pub reject : ℕ → Attachment → Attachment
unfolding keep
reject g s = record s { pending = without g s.pending }

unfoldable pub detach : Attachment → Attachment
unfolding close_current
detach s = record (close_current s) { generation = suc s.generation }

abbrev pub holds : ℕ → Option (String × ℕ) → Bool
holds h none = false
holds h (some (w, k)) = nat_eq k h

unfoldable pub is_current : ℕ → ℕ → Attachment → Bool
is_current g h s = nat_eq g s.generation && holds h s.current

abbrev pub matches : Attachment → Option String → Option (String × ℕ) → Option ℕ
matches s w none = none
matches s none (some (v, h)) = if is_closed s h then none else some h
matches s (some w) (some (v, h)) =
    if is_closed s h then none else if not (w == "") && not (v == w) then none else some h

unfoldable pub attached : Option String → Attachment → Option ℕ
unfolding includes
attached w s = matches s w s.current

unfoldable pub attached_workspace_id : Attachment → Option String
attached_workspace_id s = elim s.current [ none ↦ none | some c ↦ some (c.0) ]

-- The workspaces for which an action of the host is passed to the action listeners.
abbrev pub heard : Attachment → ℕ → List Subscription → List String
heard s h [] = []
heard s h (l ∷ ls) =
    if nat_eq l.host h && is_current l.generation h s
    then l.workspace ∷ heard s h ls
    else heard s h ls

unfoldable pub on_action : ℕ → Attachment → List String
unfolding is_current
on_action h s = heard s h s.subscriptions

-- The host closes from its own side: the listeners put on it run in turn.
abbrev pub close_heard : ℕ → List Subscription → Attachment → Attachment × List String
close_heard h [] s = (s, [])
close_heard h (l ∷ ls) s =
    let cleared = close_heard h ls (record s { current = none }) in
    let kept = close_heard h ls s in
    if nat_eq l.host h && is_current l.generation h s
    then (cleared.0, l.workspace ∷ cleared.1)
    else kept

unfoldable pub on_close : ℕ → Attachment → Attachment × List String
unfolding is_current
on_close h s = close_heard h s.subscriptions (record s { closed = h ∷ s.closed })
