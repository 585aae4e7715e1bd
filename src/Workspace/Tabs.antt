-- ===== src/Workspace/Tabs.antt =====
-- packages/workbench/src/contrib/workspace/detail-view-service.ts: the lists of tabs.
use zaw.Base.{
  ℕ, zero, suc, ◌+◌, ◌≤◌, ◌<◌, ◌≡◌, refl, ap, subst, String, true, false, not, List, [], ◌∷◌,
  Option, none, some, ◌==◌, if◌then◌else◌, any, keep, map, get_elem?, get_elem?_lt, length, nat_eq,
  arith, eq_iff, eq_refl, Bool-cases, Option-cases, inl, inr,
}
use zaw.Base.Bags.{count, total-append}
use zaw.Workspace.Details.{
  DetailTab, files_tab, is_tab, with_tab, find_index, before, id_at, restored_tabs,
}

-- Names are different, and the active one is that of a tab.
abbrev pub AreTabs : String → List DetailTab → Type 0
AreTabs active ts = ((id : String) → count (is_tab id) ts ≤ 1) × (1 ≤ count (is_tab active) ts)

count-with_tab :
    (t : DetailTab) (ts : List DetailTab) (id : String)
    → count (is_tab id) (map (λ u. if u.id == t.id then t else u) ts) ≡ count (is_tab id) ts
count-with_tab t [] id = refl
count-with_tab t (u ∷ ts) id = ground (arith, count-with_tab t ts id, eq_iff u.id t.id)

pub any-count :
    (id : String) (ts : List DetailTab)
    → any (is_tab id) ts ≡ (if nat_eq (count (is_tab id) ts) 0 then false else true)
unfolding any
any-count id [] = refl
any-count id (t ∷ ts) = ground (arith, any-count id ts)

pub with_tab-AreTabs :
    (active : String) (t : DetailTab) (ts : List DetailTab)
    → AreTabs active ts
    → AreTabs t.id (with_tab t ts)
unfolding with_tab
with_tab-AreTabs active t ts h = elim (Bool-cases (any (is_tab t.id) ts)) [
  | inl here ↦ rw here (
    λ id. rw (count-with_tab t ts id) (h.0 id),
    rw (count-with_tab t ts t.id) (ground (arith, any-count t.id ts, here)),
  )
  | inr new ↦ rw new (
    λ id. ground (
      arith,
      h.0 id,
      total-append (λ u. if is_tab id u then 1 else 0) ts (t ∷ []),
      any-count t.id ts,
      eq_iff t.id id,
      new,
    ),
    ground (arith, total-append (λ u. if is_tab t.id u then 1 else 0) ts (t ∷ []), eq_refl t.id),
  )
]

count-keep :
    (id k : String) (ts : List DetailTab)
    → count (is_tab k) (keep (λ t. not (is_tab id t)) ts)
      ≡ (if id == k then 0 else count (is_tab k) ts)
unfolding keep
count-keep id k [] = ground arith
count-keep id k (t ∷ ts) =
    ground (arith, count-keep id k ts, eq_iff t.id id, eq_iff t.id k, eq_iff id k)

length-keep :
    (id : String) (ts : List DetailTab)
    → length (keep (λ t. not (is_tab id t)) ts) + count (is_tab id) ts ≡ length ts
unfolding keep
length-keep id [] = refl
length-keep id (t ∷ ts) = ground (arith, length-keep id ts)

find_index_lt :
    (id : String) (ts : List DetailTab) (i : ℕ) → find_index id ts ≡ some i → i < length ts
unfolding find_index
find_index_lt id [] i h = absurd (ground arith)
find_index_lt id (t ∷ ts) i h = elim (Bool-cases (t.id == id)) [
  | inl here ↦ ground arith
  | inr later ↦ elim (Option-cases (find_index id ts)) [
    | inl missing ↦ absurd (ground arith)
    | inr (j, at) ↦ ground (arith, find_index_lt id ts j at)
  ]
]

abbrev or_files : Option DetailTab → DetailTab
or_files none = files_tab
or_files (some t) = t

same_tab : (u t : DetailTab) → get_elem? (u ∷ []) 0 ≡ some t → u ≡ t
same_tab u t h = ap or_files h

count_at :
    (ts : List DetailTab) (i : ℕ) (t : DetailTab)
    → get_elem? ts i ≡ some t
    → 1 ≤ count (is_tab t.id) ts
count_at [] i t h = absurd (ground arith)
count_at (u ∷ ts) zero t h =
    subst (λ (v : DetailTab). 1 ≤ count (is_tab v.id) (u ∷ ts)) (same_tab u t h)
      (ground (arith, eq_refl u.id))
count_at (u ∷ ts) (suc i) t h = omega (arith, count_at ts i t h)

before_lt : (i l n c : ℕ) → n + c ≡ l → c ≤ 1 → i < l → nat_eq l 1 ≡ false → before i < n
before_lt zero l n c e k h two = ground arith
before_lt (suc i) l n c e k h two = omega arith

pub close-AreTabs :
    (active id : String) (ts : List DetailTab) (i : ℕ)
    → nat_eq (length ts) 1 ≡ false
    → find_index id ts ≡ some i
    → AreTabs active ts
    → AreTabs
        (if active == id
          then id_at (get_elem? (keep (λ t. not (is_tab id t)) ts) (before i))
          else active)
        (keep (λ t. not (is_tab id t)) ts)
close-AreTabs active id ts i two found h = (
  λ k. ground (arith, count-keep id k ts, h.0 k),
  elim (Bool-cases (active == id)) [
    | inr other ↦ rw other (ground (arith, count-keep id active ts, eq_iff id active, h.1))
    | inl same ↦
        let rest = keep (λ t. not (is_tab id t)) ts in
        let (t, at) = get_elem?_lt rest (before i) (
          before_lt i (length ts) (length rest) (count (is_tab id) ts) (length-keep id ts) (h.0 id)
            (find_index_lt id ts i found) two) in
        rw (same, at) (count_at rest (before i) t at)
  ],
)

pub restored-AreTabs : (t : DetailTab) → AreTabs t.id (restored_tabs t)
restored-AreTabs t = elim (Bool-cases (t.id == "files")) [
  | inl files ↦ rw files (λ id. ground arith, ground (arith, eq_iff t.id "files"))
  | inr other ↦ rw other (
    λ id. ground (arith, eq_iff "files" id, eq_iff t.id id, eq_iff t.id "files"),
    ground (arith, eq_refl t.id),
  )
]
