-- ===== src/SessionService/Created.antt =====
-- packages/workbench/src/contrib/sessions/session-service.ts: what `create` leaves behind.
use zaw.Base.{
  String, ◌≡◌, refl, ap, ◌∙◌, Bool, true, List, [], ◌∷◌, ◌++◌, Option, none, some, ◌==◌, any,
  Bool-cases, inl, inr, arith, eq_refl,
}
use zaw.Base.Dict.{get, get-put}
use zaw.ActiveSession.{SessionIdentity, ActiveSession, select, is_active, is_selected}
use zaw.ActiveSession.Table.{same_session-eq}
use zaw.ChatSession.Keys.{IsSynced, IsSynced-step, selects_session, step}
use zaw.SessionCatalog.{SessionCatalogService, add, or_none_of}
use zaw.UiState.{WorkspaceUiState, Codec}
use zaw.SessionService.{Services, after_create, selected_session, on_active_change}

-- The catalog lists the session under its workspace.
unfoldable pub is_listed : SessionIdentity → SessionCatalogService → Bool
unfolding any get
is_listed i s = any (λ r. r == i.resource) (or_none_of (get i.workspace_id s.catalog.sessions))

any_last : (r : String) (rs : List String) → any (λ x. x == r) (rs ++ r ∷ []) ≡ true
unfolding any
any_last r [] = ground (arith, eq_refl r)
any_last r (x ∷ rs) = ground (arith, any_last r rs)

is_listed-add :
    (i : SessionIdentity) (title : String) (s : SessionCatalogService)
    → is_listed i (add i title s) ≡ true
unfolding is_listed add
is_listed-add i title s =
    let before = or_none_of (get i.workspace_id s.catalog.sessions) in
    elim (Bool-cases (any (λ r. r == i.resource) before)) [
      | inl known ↦ rw known known
      | inr fresh ↦
          rw
            (
              fresh,
              get-put i.workspace_id i.workspace_id (before ++ i.resource ∷ []) s.catalog.sessions,
              eq_refl i.workspace_id,
            )
            (any_last i.resource before)
    ]

was_selected :
    (i : SessionIdentity) (o : Option SessionIdentity) → is_selected i o ≡ true → o ≡ some i
was_selected i none h = absurd (ground (arith, h))
was_selected i (some s) h = ap some (same_session-eq s i h)

selected-select : (i : SessionIdentity) (a : ActiveSession) → (select i a).0.selected ≡ some i
unfolding select is_active
selected-select i a = elim (Bool-cases (is_selected i a.selected)) [
  | inl same ↦ rw same (was_selected i a.selected same)
  | inr fresh ↦ rw fresh refl
]

module _ (codec : Codec WorkspaceUiState) where
  on_active_change-kept :
      (e : Option (Option SessionIdentity)) (s : Services)
      → ((on_active_change codec e s).active ≡ s.active)
        × ((on_active_change codec e s).catalog ≡ s.catalog)
  unfolding on_active_change
  on_active_change-kept none s = (refl, refl)
  on_active_change-kept (some c) s = (refl, refl)

  on_active_change-IsSynced :
      (e : Option (Option SessionIdentity)) (s : Services)
      → IsSynced s.chat
      → IsSynced (on_active_change codec e s).chat
  unfolding on_active_change step
  on_active_change-IsSynced none s h = h
  on_active_change-IsSynced (some c) s h = IsSynced-step (selects_session c) s.chat h

  -- When the host has made a session, it is the active one, the catalog lists it under its workspace
  -- whether it was known before or not, and the context keys of the chat sessions are up to date if
  -- they were.
  pub after_create_lem :
      (i : SessionIdentity) (title : String) (s : Services)
      → IsSynced s.chat
      → ((after_create codec i title s).active.selected ≡ some i)
        × (is_listed i (after_create codec i title s).catalog ≡ true)
        × IsSynced (after_create codec i title s).chat
  unfolding after_create selected_session
  after_create_lem i title s h = (
    ap (λ a. a.selected) (on_active_change-kept _ _).0 ∙ selected-select i s.active,
    ap (is_listed i) (on_active_change-kept _ _).1 ∙ is_listed-add i title s.catalog,
    on_active_change-IsSynced _ _ h,
  )
