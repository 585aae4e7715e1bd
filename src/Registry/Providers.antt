-- ===== src/Registry/Providers.antt =====
-- packages/workbench/src/services/agent-host-provider-registry.ts: `AgentHostProviderRegistry`.
-- A provider is its `connect`, which belongs to the adapter: a function of the workspace.
use zaw.Base.{
  ℕ, String, Bool, true, false, List, Option, none, some, find, ◌≡◌, ◌⊎◌, inl, inr, All,
  Option-cases,
}
use zaw.Base.Dict.{values}
use zaw.Base.Sort.{sort, IsPreorder, find-sort, find-sort-none}
use zaw.Registry.{Ref, Result, register, dispose}
use zaw.Registry.Order.{by_order, by_order-IsPreorder}

-- `connect`'s result is of the adapter's type `Host`.
module _ (Host : Type 0) where
  pub record AgentHostProviderDescriptor : Type 0 where
    pub can_handle : Option (String → Bool)
    pub id : String
    pub order : Option ℕ
    pub connect : String → Host

abbrev pub accepts : Option (String → Bool) → String → Bool
accepts none workspace = true
accepts (some f) workspace = f workspace

module _ {Host : Type 0} where
  unfoldable pub register_provider :
      Ref (AgentHostProviderDescriptor Host)
      → List (String × Ref (AgentHostProviderDescriptor Host))
      → Result (List (String × Ref (AgentHostProviderDescriptor Host)))
  unfolding register
  register_provider = register (λ d. d.id) (λ d. true)

  unfoldable pub dispose_provider :
      Ref (AgentHostProviderDescriptor Host)
      → List (String × Ref (AgentHostProviderDescriptor Host))
      → List (String × Ref (AgentHostProviderDescriptor Host)) × Bool
  unfolding dispose
  dispose_provider = dispose (λ d. d.id)

  abbrev pub provider_le :
      (String → String → Bool)
      → Ref (AgentHostProviderDescriptor Host)
      → Ref (AgentHostProviderDescriptor Host)
      → Bool
  provider_le locale_le = by_order locale_le (λ d. d.value.order) (λ d. d.value.id)

  unfoldable pub all_providers :
      (String → String → Bool)
      → List (String × Ref (AgentHostProviderDescriptor Host))
      → List (Ref (AgentHostProviderDescriptor Host))
  unfolding sort
  all_providers locale_le m = sort (provider_le locale_le) (values m)

  abbrev pub connect_by : String → Option (Ref (AgentHostProviderDescriptor Host)) → Option Host
  connect_by workspace none = none
  connect_by workspace (some d) = some (d.value.connect workspace)

  -- `none`: the promise is rejected, no provider can attach the workspace.
  unfoldable pub connect_provider :
      (String → String → Bool)
      → String
      → List (String × Ref (AgentHostProviderDescriptor Host))
      → Option Host
  unfolding find
  connect_provider locale_le workspace m =
      connect_by workspace
        (find (λ d. accepts d.value.can_handle workspace) (all_providers locale_le m))

  -- A workspace is connected by a provider that accepts it and that no other accepting one precedes;
  -- the call is rejected exactly if no provider accepts it.
  pub connect_provider_lem :
      (locale_le : String → String → Bool) (workspace : String)
      (m : List (String × Ref (AgentHostProviderDescriptor Host)))
      → IsPreorder locale_le
      → ((d : Ref (AgentHostProviderDescriptor Host)) × (connect_provider locale_le workspace m
            ≡ some (d.value.connect workspace))
          × (accepts d.value.can_handle workspace ≡ true)
          × All
              (λ e. accepts e.value.can_handle workspace ≡ true → provider_le locale_le d e ≡ true)
              (values m))
        ⊎ ((connect_provider locale_le workspace m ≡ none)
            × All (λ e. accepts e.value.can_handle workspace ≡ false) (values m))
  unfolding all_providers
  connect_provider_lem locale_le workspace m o =
      let total =
        by_order-IsPreorder locale_le
          (λ (d : Ref (AgentHostProviderDescriptor Host)). d.value.order) (λ d. d.value.id) o in
      elim (Option-cases (
        find (λ d. accepts d.value.can_handle workspace)
          (sort (provider_le locale_le) (values m)))) [
            | inl e ↦ inr (
              unfold connect_provider in (rw e),
              find-sort-none (provider_le locale_le) _ (values m) e,
            )
            | inr (d, e) ↦
                let (good, least) = find-sort (provider_le locale_le) _ (values m) d total e in
                inl (d, unfold connect_provider in (rw e), good, least)
          ]
