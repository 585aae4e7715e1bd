-- ===== src/Registry/Contributions.antt =====
-- packages/workbench/src/services/contribution-registry.ts: `ContributionRegistry`. The factory is
-- opaque to the registry, a number here; `all` sorts by `order` alone.
use zaw.Base.{ℕ, String, Bool, true, List, Option, ◌≡◌, leb, keep, arith}
use zaw.Base.Dict
use zaw.Base.Dict.{values}
use zaw.Base.Sort.{sort, sort-perm, sort-IsSorted, sort-stable, ties, IsSorted, IsPreorder}
use mathlib.Core.List.{Perm}
use zaw.Registry.{Ref, Result, register, dispose}
use zaw.Registry.Order.{order_of}

pub record ContributionDescriptor : Type 0 where
  pub factory : ℕ
  pub id : String
  pub order : Option ℕ
  pub when : Option Bool

unfoldable pub register_contribution :
    Ref ContributionDescriptor
    → List (String × Ref ContributionDescriptor)
    → Result (List (String × Ref ContributionDescriptor))
unfolding register
register_contribution = register (λ d. d.id) (λ d. true)

-- This registry fires nothing on `dispose`.
unfoldable pub dispose_contribution :
    Ref ContributionDescriptor
    → List (String × Ref ContributionDescriptor)
    → List (String × Ref ContributionDescriptor)
unfolding dispose
dispose_contribution d m = (dispose (λ d. d.id) d m).0

unfoldable pub get_contribution :
    String → List (String × Ref ContributionDescriptor) → Option (Ref ContributionDescriptor)
get_contribution id m = Dict.get id m

abbrev pub contribution_le : Ref ContributionDescriptor → Ref ContributionDescriptor → Bool
contribution_le a b = leb (order_of a.value.order) (order_of b.value.order)

unfoldable pub all_contributions :
    List (String × Ref ContributionDescriptor) → List (Ref ContributionDescriptor)
unfolding sort
all_contributions m = sort contribution_le (values m)

contribution_le-IsPreorder : IsPreorder contribution_le
contribution_le-IsPreorder = record {
  total = λ a b. ground arith;
  trans = λ a b c h k. ground arith;
}

-- `all` lists each contribution once, by ascending order, and contributions of one order as they
-- were registered.
pub all_contributions_lem :
    (m : List (String × Ref ContributionDescriptor)) (a : Ref ContributionDescriptor)
    → Perm (all_contributions m) (values m)
      × IsSorted contribution_le (all_contributions m)
      × (keep (ties contribution_le a) (all_contributions m)
          ≡ keep (ties contribution_le a) (values m))
all_contributions_lem m a =
    unfold all_contributions in
    (
      sort-perm contribution_le (values m),
      sort-IsSorted contribution_le contribution_le-IsPreorder (values m),
      sort-stable contribution_le contribution_le-IsPreorder a (values m),
    )
