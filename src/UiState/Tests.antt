-- ===== src/UiState/Tests.antt =====
-- Stored states and windows, and the theorems at concrete inputs.
use zaw.Base.{◌≡◌, refl, true, false, ◌&&◌, [], none, some, ◌==◌, if◌then◌else◌}
use zaw.Json.{numeral, object, Fields, end, entry, lookup}
use zaw.UiState.{
  WorkspaceUiState, SessionDetailUiState, Codec, UiStateService, load_session_details,
  save_session_details, no_details,
}
use zaw.UiState.Windows.{
  Bounds, WindowState, BoundsCodec, Rereads, maximize, restore, restore-maximize,
}
use zaw.UiState.Stored.{load_session_details-save_session_details}

abbrev codec : Codec WorkspaceUiState
codec = record { parse = λ t. none; stringify = λ s. "{}" }

abbrev service : UiStateService
service = record { memory = []; storage = none }

abbrev shown : SessionDetailUiState
shown = record no_details { auxiliary_visible = some true }

load_session_details-save_session_details_example :
    load_session_details codec "w" "r" (save_session_details codec "w" "r" shown service)
    ≡ (if "w" == "w" && "r" == "r" then shown else load_session_details codec "w" "r" service)
load_session_details-save_session_details_example =
    load_session_details-save_session_details codec "w" "w" "r" "r" shown service

abbrev small : Bounds
small = record { height = "1"; left = "2"; top = "3"; width = "4" }

abbrev large : Bounds
large = record { height = "10"; left = "20"; top = "30"; width = "40" }

abbrev stored_small : Fields
stored_small =
    entry "height" (numeral "1")
      (entry "left" (numeral "2") (entry "top" (numeral "3") (entry "width" (numeral "4") end)))

abbrev small_codec : BoundsCodec
small_codec = record { parse = λ t. some (object stored_small); stringify = λ b. "small" }

small-Rereads : Rereads small_codec small
unfolding lookup
small-Rereads = record { full = refl; same = refl }

abbrev window : WindowState
window = record { bounds = large; id = "id"; maximized = false; restore_bounds = none; title = "T" }

restore-maximize_example :
    (restore small_codec
      (maximize "800" "600" (record { state = some window; storage = none }))).0.state
    ≡ some (record window { maximized = false; restore_bounds = none })
restore-maximize_example = restore-maximize small_codec "800" "600" window none refl
