-- ===== src/SessionCatalog/Marks.antt =====
-- packages/workbench/src/contrib/sessions/session-catalog-service.ts: archived, pinned and unread
-- sessions.
use zaw.Base.{
  ◌≡◌, refl, Bool, true, false, ◌||◌, not, List, [], ◌∷◌, ◌++◌, if◌then◌else◌, any, keep, arith,
  eq_iff,
}
use zaw.ActiveSession.{SessionIdentity, same_session}
use zaw.SessionCatalog.{
  SessionCatalogService, toggle, toggle_archived, toggle_pinned, mark_read, is_archived, is_pinned,
  is_read, set_has, set_delete, set_add,
}

set_has-set_delete :
    (i j : SessionIdentity) (xs : List SessionIdentity)
    → set_has j (set_delete i xs) ≡ (if same_session i j then false else set_has j xs)
unfolding any keep
set_has-set_delete i j [] = ground arith
set_has-set_delete i j (x ∷ xs) = ground (
  arith,
  set_has-set_delete i j xs,
  eq_iff x.workspace_id i.workspace_id,
  eq_iff x.resource i.resource,
  eq_iff x.workspace_id j.workspace_id,
  eq_iff x.resource j.resource,
  eq_iff i.workspace_id j.workspace_id,
  eq_iff i.resource j.resource,
)

set_has-append :
    (i j : SessionIdentity) (xs : List SessionIdentity)
    → set_has j (xs ++ i ∷ []) ≡ set_has j xs || same_session i j
unfolding any
set_has-append i j [] = ground arith
set_has-append i j (x ∷ xs) = ground (arith, set_has-append i j xs)

set_has-same :
    (i j : SessionIdentity) (xs : List SessionIdentity)
    → same_session i j ≡ true
    → set_has i xs ≡ set_has j xs
unfolding any
set_has-same i j [] h = refl
set_has-same i j (x ∷ xs) h = ground (
  arith,
  set_has-same i j xs h,
  eq_iff x.workspace_id i.workspace_id,
  eq_iff x.resource i.resource,
  eq_iff x.workspace_id j.workspace_id,
  eq_iff x.resource j.resource,
  eq_iff i.workspace_id j.workspace_id,
  eq_iff i.resource j.resource,
)

set_has-set_add :
    (i j : SessionIdentity) (xs : List SessionIdentity)
    → set_has j (set_add i xs) ≡ (if same_session i j then true else set_has j xs)
set_has-set_add i j xs = ground (arith, set_has-append i j xs, set_has-same i j xs)

set_has-toggle :
    (i j : SessionIdentity) (xs : List SessionIdentity)
    → set_has j (toggle i xs) ≡ (if same_session i j then not (set_has j xs) else set_has j xs)
unfolding toggle
set_has-toggle i j xs =
    ground (arith, set_has-set_add i j xs, set_has-set_delete i j xs, set_has-same i j xs)

-- Archiving and pinning turn the mark of the one session over and leave the mark of every other.
-- Marking a session read or unread makes it so and changes no other, and the change is announced
-- exactly if there is one.
pub marks_lem :
    (i j : SessionIdentity) (b : Bool) (s : SessionCatalogService)
    → (is_archived j (toggle_archived i s)
        ≡ (if same_session i j then not (is_archived j s) else is_archived j s))
      × (is_pinned j (toggle_pinned i s)
          ≡ (if same_session i j then not (is_pinned j s) else is_pinned j s))
      × (is_read j (mark_read i b s).0 ≡ (if same_session i j then b else is_read j s))
      × ((mark_read i b s).1 ≡ (if b then not (is_read i s) else is_read i s))
unfolding is_archived is_pinned is_read toggle_archived toggle_pinned mark_read
marks_lem i j true s = (
  set_has-toggle i j s.archived,
  set_has-toggle i j s.pinned,
  ground (arith, set_has-set_delete i j s.unread),
  ground arith,
)
marks_lem i j false s = (
  set_has-toggle i j s.archived,
  set_has-toggle i j s.pinned,
  ground (arith, set_has-set_add i j s.unread),
  refl,
)
