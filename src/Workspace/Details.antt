-- ===== src/Workspace/Details.antt =====
-- packages/workbench/src/contrib/workspace/detail-view-service.ts: `DetailViewService`, with the layout
-- service of Layout and the stored state of UiState that it calls.
use zaw.Base.{
  ℕ, zero, suc, String, Bool, true, false, not, List, [], ◌∷◌, ◌++◌, Option, none, some, ◌==◌,
  if◌then◌else◌, find, any, keep, map, get_elem?, length, nat_eq,
}
use zaw.ActiveSession.{SessionIdentity}
use zaw.Layout.{LayoutService, Part, auxiliary_bar, is_visible, set_visible, set_editor_visible}
use zaw.UiState.{
  WorkspaceUiState, ActiveView, Codec, UiStateService, load_session_details, save_session_details,
}

-- `DetailTab`: the view that is stored for a session is one of the tabs.
abbrev pub DetailTab : Type 0
DetailTab = ActiveView

pub record DetailViewService : Type 0 where
  pub tabs : List DetailTab
  pub active_tab_id : String
  pub current_session : Option SessionIdentity
  pub changes_context : Bool
  pub files_context : Bool
  pub preview_context : Bool
  pub layout : LayoutService
  pub ui_state : UiStateService

abbrev pub files_tab : DetailTab
files_tab = record { id = "files"; kind = "files"; title = "Files"; content = none }

abbrev pub changes_tab : DetailTab
changes_tab = record { id = "changes"; kind = "changes"; title = "Changes"; content = none }

abbrev pub is_tab : String → DetailTab → Bool
is_tab id t = t.id == id

unfoldable pub active_tab : DetailViewService → Option DetailTab
unfolding find
active_tab s = find (is_tab s.active_tab_id) s.tabs

abbrev pub is_kind : String → Option DetailTab → Bool
is_kind kind none = false
is_kind kind (some t) = t.kind == kind

-- `syncContext`
unfoldable pub sync_context : DetailViewService → DetailViewService
unfolding active_tab set_editor_visible
sync_context s = record s {
  changes_context = is_kind "changes" (active_tab s);
  files_context = is_kind "files" (active_tab s);
  preview_context = is_kind "preview" (active_tab s);
  layout = (set_editor_visible (is_kind "preview" (active_tab s)) s.layout).0;
}

unfoldable pub with_tab : DetailTab → List DetailTab → List DetailTab
unfolding any
with_tab t ts =
    if any (is_tab t.id) ts then map (λ u. if u.id == t.id then t else u) ts else ts ++ t ∷ []

abbrev pub id_at : Option DetailTab → String
id_at none = ""
id_at (some t) = t.id

-- `findIndex`
unfoldable pub find_index : String → List DetailTab → Option ℕ
find_index id [] = none
find_index id (t ∷ ts) =
    let rest = find_index id ts in
    if t.id == id then some 0 else elim rest [ none ↦ none | some i ↦ some (suc i) ]

abbrev pub before : ℕ → ℕ
before zero = zero
before (suc i) = i

abbrev pub or_changes : Option ActiveView → DetailTab
or_changes none = changes_tab
or_changes (some t) = t

abbrev pub or_hidden : Option Bool → Bool
or_hidden none = false
or_hidden (some b) = b

abbrev pub restored_tabs : DetailTab → List DetailTab
restored_tabs t = if t.id == "files" then files_tab ∷ [] else files_tab ∷ t ∷ []

module _ (codec : Codec WorkspaceUiState) where
  unfoldable pub save_for : Option SessionIdentity → DetailViewService → DetailViewService
  unfolding active_tab save_session_details is_visible
  save_for none s = s
  save_for (some i) s = record s {
    ui_state =
        save_session_details codec i.workspace_id i.resource
          (record {
            active_view = active_tab s;
            auxiliary_visible = some (is_visible auxiliary_bar s.layout);
          })
          s.ui_state;
  }

  -- `saveCurrentState`
  unfoldable pub save_current_state : DetailViewService → DetailViewService
  unfolding save_for
  save_current_state s = save_for s.current_session s

  -- The listener of the layout's event, for the auxiliary bar.
  unfoldable pub after_toggle : Option (Part × Bool) → DetailViewService → DetailViewService
  unfolding save_current_state
  after_toggle none s = s
  after_toggle (some e) s = save_current_state s

  unfoldable pub show_auxiliary : Bool → DetailViewService → DetailViewService
  unfolding set_visible after_toggle
  show_auxiliary shown s =
      after_toggle (set_visible auxiliary_bar shown s.layout).1
        (record s { layout = (set_visible auxiliary_bar shown s.layout).0 })

  unfoldable pub commit : DetailViewService → DetailViewService
  unfolding sync_context save_current_state
  commit s = save_current_state (sync_context s)

  unfoldable pub ensure : DetailTab → DetailViewService → DetailViewService
  unfolding with_tab show_auxiliary commit
  ensure t s =
      commit (show_auxiliary true (record s { tabs = with_tab t s.tabs; active_tab_id = t.id }))

  unfoldable pub open_changes : DetailViewService → DetailViewService
  unfolding ensure
  open_changes s = ensure changes_tab s

  unfoldable pub open_files : DetailViewService → DetailViewService
  unfolding ensure
  open_files s = ensure files_tab s

  unfoldable pub open_preview : String → String → String → DetailViewService → DetailViewService
  unfolding ensure
  open_preview id title content s =
      ensure (record { id = id; kind = "preview"; title = title; content = some content }) s

  unfoldable pub select : String → DetailViewService → DetailViewService
  unfolding any commit
  select id s =
      if any (is_tab id) s.tabs
      then (if s.active_tab_id == id then s else commit (record s { active_tab_id = id }))
      else s

  unfoldable pub close_at : String → Option ℕ → DetailViewService → DetailViewService
  unfolding keep commit
  close_at id none s = s
  close_at id (some index) s =
      let rest = keep (λ t. not (is_tab id t)) s.tabs in
      commit (record s {
        tabs = rest;
        active_tab_id =
            if s.active_tab_id == id
            then id_at (get_elem? rest (before index))
            else s.active_tab_id;
      })

  unfoldable pub close : String → DetailViewService → DetailViewService
  unfolding find_index close_at
  close id s = if nat_eq (length s.tabs) 1 then s else close_at id (find_index id s.tabs) s

  unfoldable pub commit_new_session : SessionIdentity → DetailViewService → DetailViewService
  unfolding save_session_details is_visible
  commit_new_session i s = record s {
    ui_state =
        save_session_details codec i.workspace_id i.resource
          (record {
            active_view = some changes_tab;
            auxiliary_visible = some (is_visible auxiliary_bar s.layout);
          })
          s.ui_state;
  }

  unfoldable pub restore : SessionIdentity → DetailViewService → DetailViewService
  unfolding load_session_details sync_context show_auxiliary
  restore i s =
      let state = load_session_details codec i.workspace_id i.resource s.ui_state in
      let active = or_changes state.active_view in
      show_auxiliary (or_hidden state.auxiliary_visible)
        (sync_context (record s { tabs = restored_tabs active; active_tab_id = active.id }))

  unfoldable pub restore_if : Option SessionIdentity → DetailViewService → DetailViewService
  unfolding restore
  restore_if none s = s
  restore_if (some i) s = restore i s

  -- The listener of the active session.
  unfoldable pub on_session : Option SessionIdentity → DetailViewService → DetailViewService
  unfolding save_current_state restore_if
  on_session i s = restore_if i (record (save_current_state s) { current_session = i })
