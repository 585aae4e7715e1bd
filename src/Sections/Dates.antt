-- ===== src/Sections/Dates.antt =====
-- packages/workbench/src/contrib/sessions/session-catalog-sections.ts: the sections by date.
use zaw.Base.{
  ℕ, suc, ◌≤◌, Bool-cases, inl, inr, ◌≡◌, refl, ◌∙◌, List, [], ◌∷◌, ◌++◌, map, keep, arith, All,
  some, get_elem?, All-map, nat_eq_iff,
}
use zaw.Base.Sort.{All-sort}
use zaw.SessionCatalog.{SessionCatalogItem}
use zaw.Sections.{
  SessionDateSection, pinned, today, yesterday, week, older, archived, date, SessionCatalogNode,
  session_node, section_node, SessionSectionEntry, Locale, Options, by_date, session_section_order,
  index_of, session_date_section, entry_of, entry_le, calculate_session_sections, section_label,
  more, repository, session,
}
use zaw.Sections.Grouping.{
  is_in, item_of, section_if_any, date_sections, group_entries, group_session_catalog,
}

-- The section that a session belongs to.
abbrev pub section_of : Locale → Options → SessionCatalogItem → SessionDateSection
unfolding session_date_section
section_of l o i = session_date_section l (o.is_archived i) (o.is_pinned i) o.now i

abbrev pub IsFull : List SessionCatalogItem → Type 0
IsFull [] = ⊥
IsFull (i ∷ is) = Unit

-- From the section numbered `n` on: each section once and in order, none of them empty.
abbrev pub AreDated : Locale → Options → ℕ → List SessionCatalogNode → Type 0
AreDated l o n [] = Unit
AreDated l o n (section_node (date s) label is cs ∷ ns) =
    ((n ≤ index_of s) × (IsFull is × ((cs ≡ map session is) × All (λ i. section_of l o i ≡ s) is)))
    × AreDated l o (suc (index_of s)) ns
AreDated l o n _ = ⊥

abbrev Ascends : ℕ → List SessionDateSection → Type 0
Ascends n [] = Unit
Ascends n (s ∷ ss) = (n ≤ index_of s) × Ascends (suc (index_of s)) ss

weaken :
    (l : Locale) (o : Options) (m n : ℕ) (ns : List SessionCatalogNode)
    → m ≤ n
    → AreDated l o n ns
    → AreDated l o m ns
weaken l o m n [] h k = tt
weaken l o m n (section_node (date s) label is cs ∷ ns) h k =
    ((omega (arith, h, k.0.0), k.0.1), k.1)
weaken l o m n (section_node more label is cs ∷ ns) h k = k
weaken l o m n (section_node repository label is cs ∷ ns) h k = k
weaken l o m n (session_node i ∷ ns) h k = k

index_at : (s : SessionDateSection) → get_elem? session_section_order (index_of s) ≡ some s
index_at pinned = refl
index_at today = refl
index_at yesterday = refl
index_at week = refl
index_at older = refl
index_at archived = refl

index_inj : (s t : SessionDateSection) → index_of s ≡ index_of t → s ≡ t
index_inj s t h = cc (index_at s, index_at t, h)

abbrev IsPlaced : Locale → Options → SessionSectionEntry → Type 0
IsPlaced l o e = section_of l o e.item ≡ e.section

entries-IsPlaced :
    (l : Locale) (o : Options) (items : List SessionCatalogItem)
    → All (IsPlaced l o) (calculate_session_sections l o items)
unfolding calculate_session_sections entry_of
entries-IsPlaced l o items =
    All-sort (entry_le l) (IsPlaced l o) (map (entry_of l o) items)
      (All-map (IsPlaced l o) (entry_of l o) items λ i. refl)

kept-All :
    (l : Locale) (o : Options) (s : SessionDateSection) (es : List SessionSectionEntry)
    → All (IsPlaced l o) es
    → All (λ i. section_of l o i ≡ s) (map item_of (keep (is_in s) es))
unfolding keep
kept-All l o s [] h = tt
kept-All l o s (e ∷ es) h = elim (Bool-cases (is_in s e)) [
  | inl here ↦
      rw here (h.0 ∙ index_inj e.section s ((nat_eq_iff _ _).0 here), kept-All l o s es h.1)
  | inr other ↦ rw other (kept-All l o s es h.1)
]

any-AreDated :
    (l : Locale) (o : Options) (n : ℕ) (s : SessionDateSection) (is : List SessionCatalogItem)
    (ns : List SessionCatalogNode)
    → n ≤ index_of s
    → All (λ i. section_of l o i ≡ s) is
    → AreDated l o (suc (index_of s)) ns
    → AreDated l o n (section_if_any (date s) (section_label (date s)) is ++ ns)
any-AreDated l o n s [] ns h k r = weaken l o n (suc (index_of s)) ns (omega arith) r
any-AreDated l o n s (i ∷ is) ns h k r = ((h, (tt, (refl, k))), r)

sections-AreDated :
    (l : Locale) (o : Options) (n : ℕ) (ss : List SessionDateSection)
    (es : List SessionSectionEntry)
    → Ascends n ss
    → All (IsPlaced l o) es
    → AreDated l o n (date_sections ss es)
unfolding date_sections
sections-AreDated l o n [] es h k = tt
sections-AreDated l o n (s ∷ ss) es h k =
    any-AreDated l o n s (map item_of (keep (is_in s) es)) (date_sections ss es) h.0
      (kept-All l o s es k) (sections-AreDated l o (suc (index_of s)) ss es h.1 k)

-- Grouped by date, the list has the sections pinned, today, yesterday, week, older and archived in this
-- order, each at most once and never empty; a session stands under the section of its own marks and date,
-- and every section shows all of its sessions.
pub group_session_catalog-AreDated :
    (l : Locale) (o : Options) (items : List SessionCatalogItem)
    → o.grouping ≡ by_date
    → AreDated l o 0 (group_session_catalog l o items)
unfolding group_session_catalog group_entries
group_session_catalog-AreDated l o items h = rw h (
    sections-AreDated l o 0 session_section_order (calculate_session_sections l o items)
      (ground arith) (entries-IsPlaced l o items))
