-- ===== src/Views/Listed.antt =====
-- packages/workbench/src/services/workbench-view-host.ts: which views are mounted after `sync`.
use zaw.Base.{◌≡◌, String, Bool, true, ◌&&◌, ◌||◌, List, ◌==◌, any, All}
use zaw.Views.{WorkbenchViewDescriptor}
use zaw.Views.Host.{Platform, visible}

-- A view with that name which is to be shown, or kept while it is hidden.
abbrev pub is_listed : Platform → List WorkbenchViewDescriptor → String → Bool
is_listed p ds id = any (λ d. (d.id == id) && (visible p d || d.retain_when_hidden)) ds

abbrev AllWanted : Platform → List WorkbenchViewDescriptor → List String → Type 0
AllWanted p ds wanted = All (λ id. is_listed p ds id ≡ true) wanted
