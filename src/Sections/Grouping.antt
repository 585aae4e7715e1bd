-- ===== src/Sections/Grouping.antt =====
-- packages/workbench/src/contrib/sessions/session-catalog-sections.ts: `groupSessionCatalog`.
use zaw.Base.{
  ℕ, ◌-◌, String, Bool, true, false, ◌&&◌, not, List, [], ◌∷◌, ◌++◌, Option, none, some, ltb, ◌==◌,
  if◌then◌else◌, map, keep, any, take, drop, length,
}
use Prim.Native.Nat.{Ordering}
use zaw.Base.Dict.{get, put}
use zaw.Base.Sort.{sort}
use zaw.SessionCatalog.{SessionCatalogItem}
use zaw.Sections.{
  SessionDateSection, archived, SessionSection, date, more, repository, capped, by_date,
  by_repository, SessionCatalogChild, session, show_more, show_less, SessionCatalogNode,
  session_node, section_node, SessionSectionEntry, Locale, Options, session_section_order,
  SessionGrouping, index_of, section_label, calculate_session_sections,
}
use zaw.Sections.Names.{repository_name}
use zaw.Base.{nat_eq}

abbrev pub is_in : SessionDateSection → SessionSectionEntry → Bool
is_in section e = nat_eq (index_of e.section) (index_of section)

abbrev pub item_of : SessionSectionEntry → SessionCatalogItem
item_of e = e.item

abbrev pub pinned_entry : Options → SessionSectionEntry → Bool
pinned_entry o e = o.is_pinned e.item

abbrev pub plain_section : SessionSection → String → List SessionCatalogItem → SessionCatalogNode
plain_section section label sessions = section_node section label sessions (map session sessions)

-- A section is shown when it has sessions.
abbrev pub section_if_any :
    SessionSection → String → List SessionCatalogItem → List SessionCatalogNode
section_if_any section label [] = []
section_if_any section label (i ∷ is) = plain_section section label (i ∷ is) ∷ []

unfoldable pub group_capped : Options → List SessionSectionEntry → List SessionCatalogNode
unfolding keep
group_capped o entries =
    let active = keep (λ e. not (is_in archived e)) entries in
    let unpinned = keep (λ e. not (pinned_entry o e)) active in
    map (λ e. session_node e.item) (keep (pinned_entry o) active)
    ++ (map (λ e. session_node e.item) (take 3 unpinned)
        ++ section_if_any more (section_label more)
            (map item_of (drop 3 unpinned ++ keep (is_in archived) entries)))

abbrev pub or_other : Option String → String
or_other none = section_label repository
or_other (some name) = name

abbrev pub or_empty : Option (List SessionCatalogItem) → List SessionCatalogItem
or_empty none = []
or_empty (some is) = is

abbrev pub Repositories : Type 0
Repositories = List (String × List SessionCatalogItem)

unfoldable pub file_item : SessionCatalogItem → Repositories → Repositories
unfolding repository_name get put
file_item item m =
    let name = or_other (repository_name item) in put name (or_empty (get name m) ++ item ∷ []) m

-- The loop over the entries: those of the repositories; the archived ones are kept apart.
unfoldable pub file_entries : Options → List SessionSectionEntry → Repositories → Repositories
unfolding file_item
file_entries o [] m = m
file_entries o (e ∷ es) m =
    file_entries o es
      (if not (is_in archived e) && not (pinned_entry o e) then file_item e.item m else m)

abbrev pub name_le :
    Locale → String × List SessionCatalogItem → String × List SessionCatalogItem → Bool
name_le l a b = elim (l.base_compare a.0 b.0) [ Ordering.gt ↦ false | _ ↦ true ]

abbrev pub limit_child : Bool → ℕ → String → ℕ → List SessionCatalogChild
limit_child true limit label n = show_less label ∷ []
limit_child false limit label n = show_more (n - limit) label ∷ []

unfoldable pub repository_children :
    Bool → ℕ → String → List SessionCatalogItem → List SessionCatalogChild
repository_children expanded limit label sessions =
    map session (if expanded then sessions else take limit sessions)
    ++ (if ltb limit (length sessions)
        then limit_child expanded limit label (length sessions)
        else [])

unfoldable pub repository_section : Options → String × List SessionCatalogItem → SessionCatalogNode
unfolding any repository_children
repository_section o (label, sessions) = section_node repository label sessions (
    repository_children (any (λ x. x == label) o.expanded_repositories) o.repository_limit label
      sessions)

unfoldable pub group_by_repository :
    Locale → Options → List SessionSectionEntry → List SessionCatalogNode
unfolding keep file_entries sort repository_section
group_by_repository l o entries =
    map (λ e. session_node e.item) (keep (λ e. not (is_in archived e) && pinned_entry o e) entries)
    ++ (map (repository_section o) (sort (name_le l) (file_entries o entries []))
        ++ section_if_any (date archived) (section_label (date archived))
            (map item_of (keep (is_in archived) entries)))

unfoldable pub date_sections :
    List SessionDateSection → List SessionSectionEntry → List SessionCatalogNode
unfolding keep
date_sections [] entries = []
date_sections (section ∷ rest) entries =
    section_if_any (date section) (section_label (date section))
      (map item_of (keep (is_in section) entries))
    ++ date_sections rest entries

abbrev pub group_by :
    SessionGrouping → Locale → Options → List SessionSectionEntry → List SessionCatalogNode
group_by capped l o entries = group_capped o entries
group_by by_date l o entries = date_sections session_section_order entries
group_by by_repository l o entries = group_by_repository l o entries

unfoldable pub group_entries : Locale → Options → List SessionSectionEntry → List SessionCatalogNode
unfolding group_capped group_by_repository date_sections
group_entries l o entries = group_by o.grouping l o entries

unfoldable pub group_session_catalog :
    Locale → Options → List SessionCatalogItem → List SessionCatalogNode
unfolding calculate_session_sections group_entries
group_session_catalog l o items = group_entries l o (calculate_session_sections l o items)
