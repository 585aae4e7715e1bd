-- ===== src/Sections.antt =====
-- packages/workbench/src/contrib/sessions/session-catalog-sections.ts: the shapes of the session list.
-- `Locale` holds what depends on the place: the time zone and the order of texts. Times are the
-- milliseconds since 1970. Where a date does not parse, the comparison of two entries is no order, and
-- the language leaves open what `sort` makes of it: the model inserts from the right.
pub mod Names
pub mod Grouping
pub mod Complete
pub mod Dates
pub mod Limits
pub mod Tests
use zaw.Base.{
  ℕ, ◌-◌, String, Bool, true, false, List, [], ◌∷◌, Option, none, some, leb, ◌==◌, if◌then◌else◌,
  map,
}
use Prim.Native.Nat.{compare, Ordering}
use zaw.Base.Sort.{sort}
use zaw.Json.{or_text}
use zaw.SessionCatalog.{SessionCatalogItem}

pub data SessionDateSection : Type 0 where
  pinned today yesterday week older archived : SessionDateSection

pub data SessionSection : Type 0 where
  date : SessionDateSection → SessionSection
  more repository : SessionSection

pub data SessionGrouping : Type 0 where
  capped by_date by_repository : SessionGrouping

pub data SessionCatalogChild : Type 0 where
  session : SessionCatalogItem → SessionCatalogChild
  show_more : ℕ → String → SessionCatalogChild
  show_less : String → SessionCatalogChild

pub data SessionCatalogNode : Type 0 where
  session_node : SessionCatalogItem → SessionCatalogNode
  section_node :
      SessionSection
      → String
      → List SessionCatalogItem
      → List SessionCatalogChild
      → SessionCatalogNode

pub record SessionSectionEntry : Type 0 where
  pub item : SessionCatalogItem
  pub repository : String
  pub section : SessionDateSection

-- `Date.parse`, the start of the day that a time lies in, and the two uses of `localeCompare`.
pub record Locale : Type 0 where
  pub parse_date : String → Option ℕ
  pub start_of_local_day : ℕ → ℕ
  pub locale_compare : String → String → Ordering
  pub base_compare : String → String → Ordering

pub record Options : Type 0 where
  pub expanded_repositories : List String
  pub grouping : SessionGrouping
  pub is_archived : SessionCatalogItem → Bool
  pub is_pinned : SessionCatalogItem → Bool
  pub now : ℕ
  pub repository_limit : ℕ

abbrev pub session_section_order : List SessionDateSection
session_section_order = pinned ∷ today ∷ yesterday ∷ week ∷ older ∷ archived ∷ []

-- `sessionSectionOrder.indexOf`
abbrev pub index_of : SessionDateSection → ℕ
index_of pinned = 0
index_of today = 1
index_of yesterday = 2
index_of week = 3
index_of older = 4
index_of archived = 5

abbrev pub section_label : SessionSection → String
section_label (date pinned) = "Pinned"
section_label (date today) = "Today"
section_label (date yesterday) = "Yesterday"
section_label (date week) = "Previous 7 Days"
section_label (date older) = "Older"
section_label (date archived) = "Archived"
section_label more = "More"
section_label repository = "Other"

-- A number of days is compared by its milliseconds.
abbrev pub by_age : ℕ → Option ℕ → SessionDateSection
by_age start none = older
by_age start (some modified) =
    if leb start modified
    then today
    else if leb (start - modified) 86400000
    then yesterday
    else if leb (start - modified) 604800000
    then week
    else older

unfoldable pub session_date_section :
    Locale → Bool → Bool → ℕ → SessionCatalogItem → SessionDateSection
session_date_section l true is_pinned now item = archived
session_date_section l false true now item = pinned
session_date_section l false false now item =
    by_age (l.start_of_local_day now) (l.parse_date item.modified_at)

unfoldable pub entry_of : Locale → Options → SessionCatalogItem → SessionSectionEntry
unfolding session_date_section or_text
entry_of l o item = record {
  item = item;
  repository = or_text item.repository (or_text item.working_directory item.workspace_id);
  section = session_date_section l (o.is_archived item) (o.is_pinned item) o.now item;
}

-- `if (c) return c`, for a comparison that is followed by another one.
abbrev pub or_next : Ordering → Bool → Bool
or_next Ordering.lt next = true
or_next Ordering.eq next = next
or_next Ordering.gt next = false

-- The later one first; a date that is no date ties with everything.
abbrev pub later_first : Option ℕ → Option ℕ → Bool
later_first (some left) (some right) = leb right left
later_first _ _ = true

-- The comparison of two entries is at most zero.
unfoldable pub entry_le : Locale → SessionSectionEntry → SessionSectionEntry → Bool
entry_le l left right = or_next (compare (index_of left.section) (index_of right.section)) (
    or_next (l.locale_compare left.repository right.repository)
      (later_first (l.parse_date left.item.modified_at) (l.parse_date right.item.modified_at)))

unfoldable pub calculate_session_sections :
    Locale → Options → List SessionCatalogItem → List SessionSectionEntry
unfolding entry_of entry_le sort
calculate_session_sections l o items = sort (entry_le l) (map (entry_of l o) items)
