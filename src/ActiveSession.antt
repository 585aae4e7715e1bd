-- ===== src/ActiveSession.antt =====
-- packages/workbench/src/services/active-session.ts: `ActiveSessionService`.
pub mod Key
pub mod Table
pub mod Changes
pub mod Tests
use zaw.Base.{
  String, Bool, true, false, ◌&&◌, List, [], ◌∷◌, Option, none, some, ◌==◌, if◌then◌else◌,
}

pub record SessionIdentity : Type 0 where
  pub workspace_id : String
  pub resource : String

abbrev pub same_session : SessionIdentity → SessionIdentity → Bool
same_session a b = (a.workspace_id == b.workspace_id) && (a.resource == b.resource)

-- The selection, and the context key `session.active`.
pub record ActiveSession : Type 0 where
  pub selected : Option SessionIdentity
  pub active_context : Bool

abbrev pub is_selected : SessionIdentity → Option SessionIdentity → Bool
is_selected i none = false
is_selected i (some s) = same_session s i

unfoldable pub is_active : SessionIdentity → ActiveSession → Bool
is_active i s = is_selected i s.selected

unfoldable pub current : ActiveSession → Option SessionIdentity
current s = s.selected

-- The service afterwards, and the change event, if it fires.
unfoldable pub select :
    SessionIdentity → ActiveSession → ActiveSession × Option (Option SessionIdentity)
unfolding is_active
select i s =
    if is_active i s
    then (s, none)
    else (record { selected = some i; active_context = true }, some (some i))

abbrev pub clear_with :
    Option SessionIdentity → ActiveSession → ActiveSession × Option (Option SessionIdentity)
clear_with none s = (s, none)
clear_with (some i) s = (record { selected = none; active_context = false }, some none)

unfoldable pub clear : ActiveSession → ActiveSession × Option (Option SessionIdentity)
clear s = clear_with s.selected s
