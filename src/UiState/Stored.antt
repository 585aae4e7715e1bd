-- ===== src/UiState/Stored.antt =====
-- packages/workbench/src/services/workspace-ui-state.ts: what is saved is what is loaded.
use package.text.Mathlib.TextLemmas.{append_cancel_left}
use zaw.Base.{
  String, ◌≡◌, refl, ap, ◌∙◌, false, ◌&&◌, Option, none, some, ◌==◌, if◌then◌else◌, arith, eq_iff,
  Bool-cases, inl, inr,
}
use zaw.Base.Dict.{get, put, get-put}
use zaw.UiState.{
  WorkspaceUiState, SessionDetailUiState, Storage, Codec, UiStateService, item_of, set_item, key,
  load, save, load_session_details, save_session_details, or_no_details,
}

key_eq : (v w : String) → (key v == key w) ≡ (v == w)
unfolding key
key_eq v w =
    ground
      (arith, eq_iff (key v) (key w), eq_iff v w, append_cancel_left "zaw.workspace-state." v w)

item_of-set_item :
    (k j v : String) (s : Option Storage)
    → (k == j) ≡ false
    → item_of j (set_item k v s).0 ≡ item_of j s
unfolding item_of set_item
item_of-set_item k j v none h = refl
item_of-set_item k j v (some s) h = ground (arith, get-put k j v s.items, h)

-- Loading after saving gives what was saved for that workspace, and leaves the others as they were; the
-- storage may be missing, unreadable, full or hold texts that do not parse.
pub load-save :
    (codec : Codec WorkspaceUiState) (w v : String) (state : WorkspaceUiState) (s : UiStateService)
    → load codec v (save codec w state s) ≡ (if w == v then state else load codec v s)
unfolding load save
load-save codec w v state s = elim (Bool-cases (w == v)) [
  | inl same ↦ rw (get-put w v state s.memory, same) refl
  | inr other ↦
      rw
        (
          get-put w v state s.memory,
          other,
          item_of-set_item (key w) (key v) (codec.stringify state) s.storage (key_eq w v ∙ other),
        )
        refl
]

-- The details saved for a session are those that are loaded for it, and those of every other session and
-- workspace stay as they were, whether or not the storage works.
pub load_session_details-save_session_details :
    (codec : Codec WorkspaceUiState) (w v r q : String) (d : SessionDetailUiState)
    (s : UiStateService)
    → load_session_details codec v q (save_session_details codec w r d s)
      ≡ (if w == v && r == q then d else load_session_details codec v q s)
unfolding load_session_details save_session_details
load_session_details-save_session_details codec w v r q d s =
    rw
      (load-save codec w v
        (record (load codec w s) { session_details = put r d (load codec w s).session_details }) s)
      (elim (Bool-cases (w == v)) [
        | inl same ↦
            rw (same, get-put r q d (load codec w s).session_details)
              (elim (Bool-cases (r == q)) [
                | inl here ↦ rw here refl
                | inr there ↦ rw there (
                    ap (λ u. or_no_details (get q (load codec u s).session_details))
                      ((eq_iff w v).0 same))
              ])
        | inr other ↦ rw other refl
      ])
