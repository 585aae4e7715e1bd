-- ===== src/Registry/Statuses.antt =====
-- packages/workbench/src/services/session-status.ts: `SessionStatusRegistry`. What a descriptor
-- matches is its own function, over the catalog items of the caller.
use zaw.Base.{
  ℕ, String, Bool, true, false, List, Option, none, some, find, ◌≡◌, ◌⊎◌, inl, inr, All,
  Option-cases,
}
use zaw.Base.Dict.{values}
use zaw.Base.Sort.{sort, IsPreorder, find-sort, find-sort-none}
use zaw.Registry.{Ref, Result, register, dispose}
use zaw.Registry.Order.{by_order, by_order-IsPreorder}

pub record SessionStatusPresentation : Type 0 where
  pub icon : String
  pub label : String
  pub state : String

module _ (SessionCatalogItem : Type 0) where
  pub record SessionStatusDescriptor : Type 0 where
    pub presentation : SessionStatusPresentation
    pub id : String
    pub matches : Option SessionCatalogItem → Bool
    pub order : Option ℕ

module _ {Item : Type 0} where
  unfoldable pub register_status :
      Ref (SessionStatusDescriptor Item)
      → List (String × Ref (SessionStatusDescriptor Item))
      → Result (List (String × Ref (SessionStatusDescriptor Item)))
  unfolding register
  register_status = register (λ d. d.id) (λ d. true)

  unfoldable pub dispose_status :
      Ref (SessionStatusDescriptor Item)
      → List (String × Ref (SessionStatusDescriptor Item))
      → List (String × Ref (SessionStatusDescriptor Item)) × Bool
  unfolding dispose
  dispose_status = dispose (λ d. d.id)

  abbrev pub status_le :
      (String → String → Bool)
      → Ref (SessionStatusDescriptor Item)
      → Ref (SessionStatusDescriptor Item)
      → Bool
  status_le locale_le = by_order locale_le (λ d. d.value.order) (λ d. d.value.id)

  abbrev pub or_idle : Option (Ref (SessionStatusDescriptor Item)) → SessionStatusPresentation
  or_idle none = record { icon = "circle-outline"; label = "Idle"; state = "idle" }
  or_idle (some d) = d.value.presentation

  unfoldable pub resolve :
      (String → String → Bool)
      → Option Item
      → List (String × Ref (SessionStatusDescriptor Item))
      → SessionStatusPresentation
  unfolding sort find
  resolve locale_le item m =
      or_idle (find (λ d. d.value.matches item) (sort (status_le locale_le) (values m)))

  -- The status shown is that of a matching descriptor which no other matching one precedes; if none
  -- matches it is the idle one.
  pub resolve_lem :
      (locale_le : String → String → Bool) (item : Option Item)
      (m : List (String × Ref (SessionStatusDescriptor Item)))
      → IsPreorder locale_le
      → ((d : Ref (SessionStatusDescriptor Item)) × (resolve locale_le item m
            ≡ d.value.presentation)
          × (d.value.matches item ≡ true)
          × All (λ e. e.value.matches item ≡ true → status_le locale_le d e ≡ true) (values m))
        ⊎ ((resolve locale_le item m ≡ or_idle none)
            × All (λ e. e.value.matches item ≡ false) (values m))
  resolve_lem locale_le item m o =
      let total =
        by_order-IsPreorder locale_le (λ (d : Ref (SessionStatusDescriptor Item)). d.value.order)
          (λ d. d.value.id) o in
      elim (Option-cases
        (find (λ d. d.value.matches item) (sort (status_le locale_le) (values m)))) [
          | inl e ↦
              inr (unfold resolve in (rw e), find-sort-none (status_le locale_le) _ (values m) e)
          | inr (d, e) ↦
              let (good, least) = find-sort (status_le locale_le) _ (values m) d total e in
              inl (d, unfold resolve in (rw e), good, least)
        ]
