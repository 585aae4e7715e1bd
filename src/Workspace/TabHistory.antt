-- ===== src/Workspace/TabHistory.antt =====
-- packages/workbench/src/contrib/workspace/detail-view-service.ts: the tabs, in every history.
use zaw.Base.{
  ℕ, ◌≡◌, refl, String, Bool, true, false, not, List, [], ◌∷◌, Option, none, some, ◌==◌,
  if◌then◌else◌, any, keep, get_elem?, length, nat_eq, arith,
}
use zaw.ActiveSession.{SessionIdentity}
use zaw.Layout.{Part}
use zaw.UiState.{WorkspaceUiState, Codec, load_session_details}
use zaw.Workspace.Details.{
  DetailTab, DetailViewService, files_tab, is_tab, sync_context, save_for, save_current_state,
  after_toggle, show_auxiliary, commit, with_tab, ensure, open_changes, open_files, open_preview,
  select, find_index, before, id_at, close_at, close, commit_new_session, restored_tabs, or_changes,
  or_hidden, restore, restore_if, on_session,
}
use zaw.Workspace.Tabs.{AreTabs, any-count, with_tab-AreTabs, close-AreTabs, restored-AreTabs}

pub record HasTabs (s : DetailViewService) : Type 0 where
  pub are_tabs : AreTabs s.active_tab_id s.tabs

-- The calls of the service and the changes of the active session.
pub data Event : Type 0 where
  opens_changes opens_files : Event
  opens_preview : String → String → String → Event
  selects closes : String → Event
  commits : SessionIdentity → Event
  sessions : Option SessionIdentity → Event
  toggles : Option (Part × Bool) → Event

module _ (codec : Codec WorkspaceUiState) where
  unfoldable pub step : Event → DetailViewService → DetailViewService
  unfolding open_changes open_files open_preview select close commit_new_session on_session
      after_toggle
  step opens_changes s = open_changes codec s
  step opens_files s = open_files codec s
  step (opens_preview id title content) s = open_preview codec id title content s
  step (selects id) s = select codec id s
  step (closes id) s = close codec id s
  step (commits i) s = commit_new_session codec i s
  step (sessions i) s = on_session codec i s
  step (toggles e) s = after_toggle codec e s

  unfoldable pub steps : List Event → DetailViewService → DetailViewService
  unfolding step
  steps [] s = s
  steps (e ∷ es) s = steps es (step e s)

  saved-HasTabs :
      (o : Option SessionIdentity) (s : DetailViewService)
      → HasTabs s
      → HasTabs (save_for codec o s)
  unfolding save_for
  saved-HasTabs none s h = h
  saved-HasTabs (some i) s h = record { are_tabs = h.are_tabs }

  commit-HasTabs : (s : DetailViewService) → HasTabs s → HasTabs (commit codec s)
  unfolding commit save_current_state sync_context
  commit-HasTabs s h =
      saved-HasTabs s.current_session (sync_context s) (record { are_tabs = h.are_tabs })

  toggle-HasTabs :
      (e : Option (Part × Bool)) (s : DetailViewService)
      → HasTabs s
      → HasTabs (after_toggle codec e s)
  unfolding after_toggle save_current_state
  toggle-HasTabs none s h = h
  toggle-HasTabs (some e) s h = saved-HasTabs s.current_session s h

  shown-HasTabs :
      (b : Bool) (s : DetailViewService) → HasTabs s → HasTabs (show_auxiliary codec b s)
  unfolding show_auxiliary
  shown-HasTabs b s h = toggle-HasTabs _ _ (record { are_tabs = h.are_tabs })

  ensure-HasTabs : (t : DetailTab) (s : DetailViewService) → HasTabs s → HasTabs (ensure codec t s)
  unfolding ensure
  ensure-HasTabs t s h =
      let next : DetailViewService = record s { tabs = with_tab t s.tabs; active_tab_id = t.id } in
      commit-HasTabs (show_auxiliary codec true next) (
        shown-HasTabs true next
          (record { are_tabs = with_tab-AreTabs s.active_tab_id t s.tabs h.are_tabs }))

  -- A choice between two states, each good where it is the one chosen.
  choice-HasTabs :
      (b : Bool) (s t : DetailViewService)
      → (b ≡ true → HasTabs s)
      → (b ≡ false → HasTabs t)
      → HasTabs (if b then s else t)
  choice-HasTabs true s t h k = h refl
  choice-HasTabs false s t h k = k refl

  select-HasTabs : (id : String) (s : DetailViewService) → HasTabs s → HasTabs (select codec id s)
  unfolding select
  select-HasTabs id s h =
      choice-HasTabs (any (is_tab id) s.tabs) _ s
        (λ known.
          choice-HasTabs (s.active_tab_id == id) s _ (λ same. h)
            (λ other.
              commit-HasTabs (record s { active_tab_id = id })
                (record { are_tabs = (h.are_tabs.0, ground (arith, any-count id s.tabs, known)) })))
        (λ unknown. h)

  closed-HasTabs :
      (id : String) (o : Option ℕ) (s : DetailViewService)
      → nat_eq (length s.tabs) 1 ≡ false
      → find_index id s.tabs ≡ o
      → HasTabs s
      → HasTabs (close_at codec id o s)
  unfolding close_at
  closed-HasTabs id none s two e h = h
  closed-HasTabs id (some i) s two e h =
      let rest = keep (λ t. not (is_tab id t)) s.tabs in
      commit-HasTabs
        (record s {
          tabs = rest;
          active_tab_id =
              if s.active_tab_id == id then id_at (get_elem? rest (before i)) else s.active_tab_id;
        })
        (record { are_tabs = close-AreTabs s.active_tab_id id s.tabs i two e h.are_tabs })

  close-HasTabs : (id : String) (s : DetailViewService) → HasTabs s → HasTabs (close codec id s)
  unfolding close
  close-HasTabs id s h =
      choice-HasTabs (nat_eq (length s.tabs) 1) s _ (λ one. h)
        (λ two. closed-HasTabs id (find_index id s.tabs) s two refl h)

  restore-HasTabs : (i : SessionIdentity) (s : DetailViewService) → HasTabs (restore codec i s)
  unfolding restore sync_context
  restore-HasTabs i s =
      let state = load_session_details codec i.workspace_id i.resource s.ui_state in
      let active = or_changes state.active_view in
      shown-HasTabs (or_hidden state.auxiliary_visible)
        (sync_context (record s { tabs = restored_tabs active; active_tab_id = active.id }))
        (record { are_tabs = restored-AreTabs active })

  session-HasTabs :
      (o : Option SessionIdentity) (s : DetailViewService)
      → HasTabs s
      → HasTabs (restore_if codec o s)
  unfolding restore_if
  session-HasTabs none s h = h
  session-HasTabs (some i) s h = restore-HasTabs i s

  step-HasTabs : (e : Event) (s : DetailViewService) → HasTabs s → HasTabs (step e s)
  unfolding step open_changes open_files open_preview commit_new_session on_session
      save_current_state
  step-HasTabs opens_changes s h = ensure-HasTabs _ s h
  step-HasTabs opens_files s h = ensure-HasTabs _ s h
  step-HasTabs (opens_preview id title content) s h = ensure-HasTabs _ s h
  step-HasTabs (selects id) s h = select-HasTabs id s h
  step-HasTabs (closes id) s h = close-HasTabs id s h
  step-HasTabs (commits i) s h = record { are_tabs = h.are_tabs }
  step-HasTabs (sessions i) s h =
      session-HasTabs i _ (record { are_tabs = (saved-HasTabs s.current_session s h).are_tabs })
  step-HasTabs (toggles e) s h = toggle-HasTabs e s h

  steps_tabs : (es : List Event) (s : DetailViewService) → HasTabs s → HasTabs (steps es s)
  unfolding steps
  steps_tabs [] s h = h
  steps_tabs (e ∷ es) s h = steps_tabs es (step e s) (step-HasTabs e s h)

  -- From the one tab that the service begins with, and whatever is opened, selected, closed or restored
  -- from a stored state, the tabs have different names and one of them is the active one: in particular
  -- there always is a tab.
  pub steps-HasTabs :
      (es : List Event) (s : DetailViewService)
      → s.tabs ≡ files_tab ∷ []
      → s.active_tab_id ≡ "files"
      → HasTabs (steps es s)
  steps-HasTabs es s t a =
      steps_tabs es s (record { are_tabs = rw (t, a) ((λ id. ground arith), ground arith) })
