-- ===== src/Sections/Limits.antt =====
-- packages/workbench/src/contrib/sessions/session-catalog-sections.ts: what the children of a section show
-- of its sessions.
use zaw.Base.{
  ℕ, zero, suc, ◌+◌, ◌-◌, ◌≤◌, ◌≡◌, refl, ap, ◌∙◌, sym, Bool, true, false, List, [], ◌∷◌, ◌++◌,
  String, ltb, if◌then◌else◌, map, keep, any, take, length, arith, All, All-append, ◌==◌,
  length-take, append-nil, Bool-cases, inl, inr,
}
use zaw.SessionCatalog.{SessionCatalogItem}
use zaw.Sections.{
  SessionDateSection, archived, SessionSection, date, more, repository, SessionGrouping,
  SessionCatalogChild, session, show_more, show_less, SessionCatalogNode, session_node,
  section_node, SessionSectionEntry, Locale, Options, capped, by_date, by_repository,
  session_section_order, calculate_session_sections, section_label,
}
use zaw.Sections.Grouping.{
  is_in, item_of, section_if_any, group_capped, limit_child, repository_children,
  repository_section, group_by_repository, date_sections, group_by, group_entries,
  group_session_catalog, Repositories,
}

abbrev pub shown : List SessionCatalogChild → List SessionCatalogItem
shown [] = []
shown (session i ∷ cs) = i ∷ shown cs
shown (show_more n l ∷ cs) = shown cs
shown (show_less l ∷ cs) = shown cs

abbrev pub hidden : List SessionCatalogChild → ℕ
hidden [] = 0
hidden (session i ∷ cs) = hidden cs
hidden (show_more n l ∷ cs) = n + hidden cs
hidden (show_less l ∷ cs) = hidden cs

-- The children show the first of the sessions and count the others.
abbrev pub CountsAll : List SessionCatalogItem → List SessionCatalogChild → Type 0
CountsAll is cs =
    (shown cs ≡ take (length (shown cs)) is) × (length (shown cs) + hidden cs ≡ length is)

abbrev pub is_expanded : Options → String → Bool
is_expanded o label = any (λ x. x == label) o.expanded_repositories

abbrev pub Respects : Options → SessionSection → String → List SessionCatalogChild → Type 0
Respects o (date s) label cs = hidden cs ≡ 0
Respects o more label cs = hidden cs ≡ 0
Respects o repository label cs =
    is_expanded o label ≡ false → length (shown cs) ≤ o.repository_limit

abbrev pub IsLimited : Options → SessionCatalogNode → Type 0
IsLimited o (session_node i) = Unit
IsLimited o (section_node s label is cs) = CountsAll is cs × Respects o s label cs

shown-append :
    (is : List SessionCatalogItem) (cs : List SessionCatalogChild)
    → shown (map session is ++ cs) ≡ is ++ shown cs
shown-append [] cs = refl
shown-append (i ∷ is) cs = ap (◌∷◌ i) (shown-append is cs)

hidden-append :
    (is : List SessionCatalogItem) (cs : List SessionCatalogChild)
    → hidden (map session is ++ cs) ≡ hidden cs
hidden-append [] cs = refl
hidden-append (i ∷ is) cs = hidden-append is cs

shown-map : (is : List SessionCatalogItem) → shown (map session is) ≡ is
shown-map [] = refl
shown-map (i ∷ is) = ap (◌∷◌ i) (shown-map is)

hidden-map : (is : List SessionCatalogItem) → hidden (map session is) ≡ 0
hidden-map [] = refl
hidden-map (i ∷ is) = hidden-map is

take-length : (is : List SessionCatalogItem) → take (length is) is ≡ is
take-length [] = refl
take-length (i ∷ is) = ap (◌∷◌ i) (take-length is)

take-take : (n : ℕ) (is : List SessionCatalogItem) → take (length (take n is)) is ≡ take n is
take-take zero is = refl
take-take (suc n) [] = refl
take-take (suc n) (i ∷ is) = ap (◌∷◌ i) (take-take n is)

limit_of :
    (e : Bool) (limit : ℕ) (label : String) (n : ℕ) → shown (limit_child e limit label n) ≡ []
limit_of true limit label n = refl
limit_of false limit label n = refl

plain-CountsAll : (is : List SessionCatalogItem) → CountsAll is (map session is)
plain-CountsAll is = simp (shown-map, hidden-map) (sym (take-length is), omega arith)

children-shown :
    (e : Bool) (limit : ℕ) (label : String) (is : List SessionCatalogItem)
    → shown (repository_children e limit label is) ≡ (if e then is else take limit is)
unfolding repository_children
children-shown e limit label is = elim (Bool-cases (ltb limit (length is))) [
  | inl over ↦ rw over (simp (shown-append, limit_of, append-nil))
  | inr all ↦ rw all (simp (shown-map, append-nil))
]

children-hidden :
    (e : Bool) (limit : ℕ) (label : String) (is : List SessionCatalogItem)
    → hidden (repository_children e limit label is) ≡ (if e then 0 else length is - limit)
unfolding repository_children
children-hidden true limit label is = elim (Bool-cases (ltb limit (length is))) [
  | inl over ↦ rw over (hidden-append is _)
  | inr all ↦ rw all (hidden-append is _)
]
children-hidden false limit label is = elim (Bool-cases (ltb limit (length is))) [
  | inl over ↦ rw over (hidden-append (take limit is) _ ∙ omega arith)
  | inr all ↦ rw all (hidden-append (take limit is) _ ∙ ground arith)
]

children-CountsAll :
    (e : Bool) (limit : ℕ) (label : String) (is : List SessionCatalogItem)
    → CountsAll is (repository_children e limit label is)
children-CountsAll true limit label is =
    simp (children-shown, children-hidden) (sym (take-length is), omega arith)
children-CountsAll false limit label is =
    simp (children-shown, children-hidden)
      (sym (take-take limit is), omega (arith, length-take limit is))

section-IsLimited :
    (o : Options) (r : String × List SessionCatalogItem) → IsLimited o (repository_section o r)
unfolding repository_section
section-IsLimited o (label, is) = (
  children-CountsAll (is_expanded o label) o.repository_limit label is,
  λ h. simp (children-shown, h) (omega (arith, length-take o.repository_limit is)),
)

any-IsLimited :
    (o : Options) (s : SessionSection) (label : String) (is : List SessionCatalogItem)
    → Respects o s label (map session is)
    → All (IsLimited o) (section_if_any s label is)
any-IsLimited o s label [] h = tt
any-IsLimited o s label (i ∷ is) h = ((plain-CountsAll (i ∷ is), h), tt)

dates-IsLimited :
    (o : Options) (ss : List SessionDateSection) (es : List SessionSectionEntry)
    → All (IsLimited o) (date_sections ss es)
unfolding date_sections
dates-IsLimited o [] es = tt
dates-IsLimited o (s ∷ ss) es =
    All-append (IsLimited o) (section_if_any (date s) (section_label (date s)) _)
      (date_sections ss es)
      (any-IsLimited o (date s) (section_label (date s)) (map item_of (keep (is_in s) es))
        (hidden-map (map item_of (keep (is_in s) es))))
      (dates-IsLimited o ss es)

capped_parts :
    (o : Options) (es fs : List SessionSectionEntry) (is : List SessionCatalogItem)
    → All (IsLimited o) (
        map (λ e. session_node e.item) es
        ++ (map (λ e. session_node e.item) fs ++ section_if_any more (section_label more) is))
capped_parts o [] [] is = any-IsLimited o more (section_label more) is (hidden-map is)
capped_parts o [] (f ∷ fs) is = (tt, capped_parts o [] fs is)
capped_parts o (e ∷ es) fs is = (tt, capped_parts o es fs is)

repository_parts :
    (o : Options) (es : List SessionSectionEntry) (m : Repositories) (is : List SessionCatalogItem)
    → All (IsLimited o) (
        map (λ e. session_node e.item) es
        ++ (map (repository_section o) m
            ++ section_if_any (date archived) (section_label (date archived)) is))
repository_parts o [] [] is =
    any-IsLimited o (date archived) (section_label (date archived)) is (hidden-map is)
repository_parts o [] (r ∷ m) is = (section-IsLimited o r, repository_parts o [] m is)
repository_parts o (e ∷ es) m is = (tt, repository_parts o es m is)

group_by-IsLimited :
    (g : SessionGrouping) (l : Locale) (o : Options) (es : List SessionSectionEntry)
    → All (IsLimited o) (group_by g l o es)
unfolding group_capped group_by_repository
group_by-IsLimited capped l o es = search capped_parts
group_by-IsLimited by_date l o es = dates-IsLimited o session_section_order es
group_by-IsLimited by_repository l o es = search repository_parts

-- Under each section, for every grouping, the children show the first of its sessions in order and a
-- "show more" counts exactly those that are left out; a section of a repository that is not expanded
-- shows no more than the limit, and the other sections leave nothing out.
pub group_session_catalog-IsLimited :
    (l : Locale) (o : Options) (items : List SessionCatalogItem)
    → All (IsLimited o) (group_session_catalog l o items)
unfolding group_session_catalog group_entries
group_session_catalog-IsLimited l o items =
    group_by-IsLimited o.grouping l o (calculate_session_sections l o items)
