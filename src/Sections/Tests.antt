-- ===== src/Sections/Tests.antt =====
-- The session list of a small catalog, and the theorems at concrete inputs.
use Prim.Native.String.{compare}
use zaw.Base.{
  ℕ, ◌≡◌, refl, String, true, List, [], ◌∷◌, Option, none, some, ◌==◌, All, if◌then◌else◌, keep,
  any,
}
use zaw.Base.Dict.{get, put}
use zaw.Base.Sort.{sort, insert}
use zaw.Base.Bags.{bag}
use zaw.Json.{or_text}
use zaw.SessionCatalog.{SessionCatalogItem}
use zaw.Sections.{
  SessionGrouping, capped, by_date, by_repository, session, show_more, session_node, section_node,
  Locale, Options, date, pinned, today, yesterday, older, archived, more, repository, entry_le,
  entry_of, session_date_section, calculate_session_sections,
}
use zaw.Sections.Names.{repository_name, without_slashes, without_git, split, last_of}
use zaw.Sections.Grouping.{
  group_capped, file_item, file_entries, repository_children, repository_section,
  group_by_repository, date_sections, group_entries, group_session_catalog,
}
use zaw.Sections.Complete.{sessions_in, group_session_catalog-bag}
use zaw.Sections.Limits.{IsLimited, group_session_catalog-IsLimited}

abbrev session_on : String → String → String → SessionCatalogItem
session_on r repo day = record {
  workspace_id = "w";
  resource = r;
  provider = "p";
  title = r;
  agent_host_online = true;
  repository = repo;
  working_directory = "";
  modified_at = day;
  rest = "";
}

-- Days that are numbered by hand; the one that is looked at begins at 2000000000.
abbrev day_of : String → Option ℕ
day_of d =
    if d == "now"
    then some 2000000001
    else if d == "day"
    then some 1999999000
    else if d == "month"
    then some 1
    else none

abbrev place : Locale
place = record {
  parse_date = day_of;
  start_of_local_day = λ n. 2000000000;
  locale_compare = compare;
  base_compare = compare;
}

abbrev options : SessionGrouping → Options
options g = record {
  expanded_repositories = [];
  grouping = g;
  is_archived = λ i. i.resource == "z";
  is_pinned = λ i. i.resource == "p";
  now = 2000000005;
  repository_limit = 1;
}

abbrev a : SessionCatalogItem
a = session_on "a" "git@host:me/zaw.git/" "day"

abbrev b : SessionCatalogItem
b = session_on "b" "https://host/zaw" "now"

abbrev c : SessionCatalogItem
c = session_on "c" "" "month"

abbrev p : SessionCatalogItem
p = session_on "p" "/x/y" "never"

abbrev z : SessionCatalogItem
z = session_on "z" "/x/y" "now"

abbrev five : List SessionCatalogItem
five = a ∷ b ∷ c ∷ p ∷ z ∷ []

a_name : repository_name a ≡ some "zaw"
unfolding repository_name without_slashes without_git split keep last_of or_text
a_name = refl

c_name : repository_name c ≡ none
unfolding repository_name or_text
c_name = refl

five_dates :
    group_session_catalog place (options by_date) five
    ≡ section_node (date pinned) "Pinned" (p ∷ []) (session p ∷ [])
      ∷ section_node (date today) "Today" (b ∷ []) (session b ∷ [])
      ∷ section_node (date yesterday) "Yesterday" (a ∷ []) (session a ∷ [])
      ∷ section_node (date older) "Older" (c ∷ []) (session c ∷ [])
      ∷ section_node (date archived) "Archived" (z ∷ []) (session z ∷ [])
      ∷ []
unfolding group_session_catalog group_entries date_sections calculate_session_sections entry_of
    entry_le session_date_section or_text sort insert keep
five_dates = refl

five_repositories :
    group_session_catalog place (options by_repository) five
    ≡ session_node p
      ∷ section_node repository "Other" (c ∷ []) (session c ∷ [])
      ∷ section_node repository "zaw" (b ∷ a ∷ []) (session b ∷ show_more 1 "zaw" ∷ [])
      ∷ section_node (date archived) "Archived" (z ∷ []) (session z ∷ [])
      ∷ []
unfolding group_session_catalog group_entries group_by_repository file_entries file_item
    repository_section repository_children repository_name without_slashes without_git split last_of
    calculate_session_sections entry_of entry_le session_date_section or_text sort insert keep any
    get put
five_repositories = refl

five_limited :
    group_session_catalog place (options capped) five
    ≡ session_node p
      ∷ session_node b
      ∷ session_node a
      ∷ session_node c
      ∷ section_node more "More" (z ∷ []) (session z ∷ [])
      ∷ []
unfolding group_session_catalog group_entries group_capped calculate_session_sections entry_of
    entry_le session_date_section or_text sort insert keep
five_limited = refl

group_session_catalog-bag_example :
    bag (sessions_in (group_session_catalog place (options by_repository) five)) ≡ bag five
group_session_catalog-bag_example = group_session_catalog-bag place (options by_repository) five

group_session_catalog-IsLimited_example :
    All
      (IsLimited (options by_repository))
      (group_session_catalog place (options by_repository) five)
group_session_catalog-IsLimited_example =
    group_session_catalog-IsLimited place (options by_repository) five
