-- ===== src/Sections/Complete.antt =====
-- packages/workbench/src/contrib/sessions/session-catalog-sections.ts: what the nodes of a grouping hold,
-- up to order.
use zaw.Base.{
  ℕ, ◌+◌, String, ◌≡◌, refl, ap, ◌∙◌, Bool, ◌&&◌, not, List, [], ◌∷◌, ◌++◌, if◌then◌else◌, map,
  keep, take, drop, arith, take-append-drop,
}
use zaw.Base.Dict.{get, put}
use zaw.Base.Sort.{sort}
use zaw.Base.Bags.{total, total-append, total-keep, total-sort, total-map, bag, same_bag}
use zaw.SessionCatalog.{SessionCatalogItem}
use zaw.Sections.{
  SessionDateSection, pinned, today, yesterday, week, older, archived, SessionSection,
  SessionCatalogNode, session_node, section_node, SessionSectionEntry, Locale, Options, capped,
  by_date, by_repository, session_section_order, index_of, calculate_session_sections, entry_of,
  entry_le,
}
use zaw.Sections.Grouping.{
  is_in, pinned_entry, section_if_any, group_capped, or_empty, or_other, file_item, file_entries,
  repository_section, group_by_repository, date_sections, group_by, group_entries,
  group_session_catalog, Repositories,
}
use zaw.Sections.Names.{repository_name}

-- The sessions that the nodes are for.
abbrev pub sessions_in : List SessionCatalogNode → List SessionCatalogItem
sessions_in [] = []
sessions_in (session_node i ∷ ns) = i ∷ sessions_in ns
sessions_in (section_node s l is cs ∷ ns) = is ++ sessions_in ns

module _ (f : SessionCatalogItem → ℕ) where
  abbrev held : List SessionCatalogNode → ℕ
  held ns = total f (sessions_in ns)

  abbrev of_entry : SessionSectionEntry → ℕ
  of_entry e = f e.item

  held-append : (ns ms : List SessionCatalogNode) → held (ns ++ ms) ≡ held ns + held ms
  held-append [] ms = omega arith
  held-append (session_node i ∷ ns) ms = omega (arith, held-append ns ms)
  held-append (section_node s l is cs ∷ ns) ms = omega (
    arith,
    held-append ns ms,
    total-append f is (sessions_in ns),
    total-append f is (sessions_in (ns ++ ms)),
  )

  held-shown :
      (es : List SessionSectionEntry) → held (map (λ e. session_node e.item) es) ≡ total of_entry es
  held-shown [] = refl
  held-shown (e ∷ es) = omega (arith, held-shown es)

  held-if_any :
      (s : SessionSection) (l : String) (is : List SessionCatalogItem)
      → held (section_if_any s l is) ≡ total f is
  held-if_any s l [] = refl
  held-if_any s l (i ∷ is) = omega (arith, total-append f is [])

  abbrev stored : Repositories → ℕ
  stored m = total (λ e. total f e.1) m

  stored-put :
      (k : String) (i : SessionCatalogItem) (m : Repositories)
      → stored (put k (or_empty (get k m) ++ i ∷ []) m) ≡ f i + stored m
  unfolding get put
  stored-put k i [] = omega arith
  stored-put k i ((j, is) ∷ m) = ground (arith, stored-put k i m, total-append f is (i ∷ []))

  stored-item :
      (i : SessionCatalogItem) (m : Repositories) → stored (file_item i m) ≡ f i + stored m
  unfolding file_item
  stored-item i m = stored-put (or_other (repository_name i)) i m

  stored-entries :
      (o : Options) (es : List SessionSectionEntry) (m : Repositories)
      → stored (file_entries o es m)
        ≡ total of_entry (keep (λ e. not (is_in archived e) && not (pinned_entry o e)) es)
          + stored m
  unfolding file_entries keep
  stored-entries o [] m = omega arith
  stored-entries o (e ∷ es) m =
      ground (
        arith,
        stored-entries o es m,
        stored-entries o es (file_item e.item m),
        stored-item e.item m,
      )

  held-repositories :
      (o : Options) (m : Repositories) → held (map (repository_section o) m) ≡ stored m
  unfolding repository_section
  held-repositories o [] = refl
  held-repositories o ((label, is) ∷ m) =
      omega (
        arith,
        total-append f is (sessions_in (map (repository_section o) m)),
        held-repositories o m,
      )

  three_parts :
      (p q : SessionSectionEntry → Bool) (es : List SessionSectionEntry)
      → total of_entry es
        ≡ total of_entry (keep (λ e. not (p e) && q e) es)
          + (total of_entry (keep (λ e. not (p e) && not (q e)) es) + total of_entry (keep p es))
  unfolding keep
  three_parts p q [] = refl
  three_parts p q (e ∷ es) = ground (arith, three_parts p q es)

  abbrev in_one : SessionDateSection → List SessionSectionEntry → ℕ
  in_one s es = total of_entry (keep (is_in s) es)

  abbrev in_all : List SessionDateSection → List SessionSectionEntry → ℕ
  in_all [] es = 0
  in_all (s ∷ ss) es = in_one s es + in_all ss es

  in_all-cons :
      (e : SessionSectionEntry) (es : List SessionSectionEntry) (s : SessionDateSection)
      → e.section ≡ s
      → in_all session_section_order (e ∷ es) ≡ of_entry e + in_all session_section_order es
  unfolding keep
  in_all-cons e es pinned h = ground (arith, ap index_of h)
  in_all-cons e es today h = ground (arith, ap index_of h)
  in_all-cons e es yesterday h = ground (arith, ap index_of h)
  in_all-cons e es week h = ground (arith, ap index_of h)
  in_all-cons e es older h = ground (arith, ap index_of h)
  in_all-cons e es archived h = ground (arith, ap index_of h)

  in_all_lem : (es : List SessionSectionEntry) → in_all session_section_order es ≡ total of_entry es
  unfolding keep
  in_all_lem [] = omega arith
  in_all_lem (e ∷ es) = omega (arith, in_all-cons e es e.section refl, in_all_lem es)

  pub held-by_repository :
      (l : Locale) (o : Options) (es : List SessionSectionEntry)
      → held (group_by_repository l o es) ≡ total of_entry es
  unfolding group_by_repository
  held-by_repository l o es =
      simp
        (
          held-append,
          held-shown,
          held-repositories,
          held-if_any,
          total-map,
          total-sort,
          stored-entries o es [],
        )
        omega (arith, three_parts (is_in archived) (pinned_entry o) es)

  pub held-capped :
      (o : Options) (es : List SessionSectionEntry) → held (group_capped o es) ≡ total of_entry es
  unfolding group_capped
  held-capped o es =
      simp (held-append, held-shown, held-if_any, total-map) omega
        (
          arith,
          total-append of_entry (drop 3 (others es)) (keep (is_in archived) es),
          total-append of_entry (take 3 (others es)) (drop 3 (others es)),
          ap (total of_entry) (take-append-drop 3 (others es)),
          total-keep of_entry (is_in archived) es,
          total-keep of_entry (pinned_entry o) (keep (λ e. not (is_in archived e)) es),
        )
    where
      others : List SessionSectionEntry → List SessionSectionEntry
      others es = keep (λ e. not (pinned_entry o e)) (keep (λ e. not (is_in archived e)) es)

  held-date_sections :
      (ss : List SessionDateSection) (es : List SessionSectionEntry)
      → held (date_sections ss es) ≡ in_all ss es
  unfolding date_sections
  held-date_sections [] es = refl
  held-date_sections (s ∷ ss) es =
      simp (held-append, held-if_any, total-map, held-date_sections ss es)

  held-entries :
      (l : Locale) (o : Options) (es : List SessionSectionEntry)
      → held (group_entries l o es) ≡ total of_entry es
  unfolding group_entries
  held-entries l o es = elim o.grouping as (λ g. held (group_by g l o es) ≡ total of_entry es) [
    | capped ↦ held-capped o es
    | by_date ↦ held-date_sections session_section_order es ∙ in_all_lem es
    | by_repository ↦ held-by_repository l o es
  ]

  pub held-group :
      (l : Locale) (o : Options) (items : List SessionCatalogItem)
      → held (group_session_catalog l o items) ≡ total f items
  unfolding group_session_catalog calculate_session_sections entry_of
  held-group l o items =
      held-entries l o (sort (entry_le l) (map (entry_of l o) items))
      ∙ (total-sort of_entry (entry_le l) (map (entry_of l o) items)
          ∙ total-map of_entry (entry_of l o) items)

-- Whatever the grouping, the order of texts, the dates and the marks, the nodes are for the sessions of
-- the catalog, each as often as it is in the catalog: as bags they are the same.
pub group_session_catalog-bag :
    (l : Locale) (o : Options) (items : List SessionCatalogItem)
    → bag (sessions_in (group_session_catalog l o items)) ≡ bag items
group_session_catalog-bag l o items =
    same_bag (sessions_in (group_session_catalog l o items)) items
      λ p. held-group (λ i. if p i then 1 else 0) l o items
