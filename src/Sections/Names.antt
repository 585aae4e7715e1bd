-- ===== src/Sections/Names.antt =====
-- packages/workbench/src/contrib/sessions/session-catalog-sections.ts: `repositoryName`.
use Prim.Native.Char.{Char, code}
use text.Mathlib.TextBridge.{of_list}
use zaw.Base.{
  ℕ, String, Bool, true, false, ◌&&◌, ◌||◌, List, [], ◌∷◌, Option, none, some, nat_eq, ◌==◌,
  if◌then◌else◌, keep,
}
use zaw.Base.Text.{chars, cons_unless}
use zaw.Json.{or_text}
use zaw.SessionCatalog.{SessionCatalogItem}

-- `/[\\/]/` and `/[\\/:]/`
abbrev pub is_slash : Char → Bool
is_slash c = nat_eq (code c) b'/' || nat_eq (code c) b'\\'

abbrev pub is_separator : Char → Bool
is_separator c = is_slash c || nat_eq (code c) b':'

-- `replace(/[\\/]+$/, "")`
unfoldable pub without_slashes : List Char → List Char
without_slashes [] = []
without_slashes (c ∷ cs) = cons_unless (is_slash c) c (without_slashes cs)

abbrev pub is_letter : ℕ → ℕ → Char → Bool
is_letter small large c = nat_eq (code c) small || nat_eq (code c) large

abbrev pub is_git : List Char → Bool
is_git (a ∷ b ∷ c ∷ d ∷ []) =
    nat_eq (code a) b'.'
    && (is_letter b'g' b'G' b && (is_letter b'i' b'I' c && is_letter b't' b'T' d))
is_git _ = false

-- `replace(/\.git$/i, "")`
unfoldable pub without_git : List Char → List Char
without_git [] = []
without_git (c ∷ cs) = let rest = without_git cs in if is_git (c ∷ cs) then [] else c ∷ rest

abbrev pub to_first : Char → List (List Char) → List (List Char)
to_first c [] = (c ∷ []) ∷ []
to_first c (w ∷ ws) = (c ∷ w) ∷ ws

-- `split(/[\\/:]/)`
unfoldable pub split : List Char → List (List Char)
split [] = [] ∷ []
split (c ∷ cs) = let rest = split cs in if is_separator c then [] ∷ rest else to_first c rest

abbrev pub is_full : List Char → Bool
is_full [] = false
is_full (c ∷ cs) = true

-- `at(-1)`
unfoldable pub last_of : List (List Char) → Option String
last_of [] = none
last_of (w ∷ []) = some (of_list w)
last_of (w ∷ v ∷ ws) = last_of (v ∷ ws)

abbrev pub name_in : String → Option String
unfolding without_slashes without_git split keep last_of
name_in raw = last_of (keep is_full (split (without_git (without_slashes (chars raw)))))

unfoldable pub repository_name : SessionCatalogItem → Option String
unfolding or_text without_slashes without_git split keep last_of
repository_name item =
    let raw = or_text item.repository item.working_directory in
    if raw == "" then none else name_in raw
