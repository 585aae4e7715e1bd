-- ===== src/Registry/Tests.antt =====
-- Runs of the registries, and the theorems at concrete inputs. `locale_le` is instantiated by the
-- order of the texts' lengths, a total preorder.
use Prim.Native.String.{len}
use zaw.Base.{
  ℕ, String, ◌≡◌, refl, Bool, true, false, List, [], ◌∷◌, Option, none, some, leb, arith, map,
}
use zaw.Base.Dict.{get}
use zaw.Base.Sort.{insert, IsPreorder}
use zaw.Registry.{Ref, err, already_registered, unknown_command}
use zaw.Registry.Order.{by_order}
use zaw.Registry.Actions.{titlebar, ActionDescriptor, register_action, actions}
use zaw.Registry.Statuses.{SessionStatusDescriptor, resolve, or_idle}
use zaw.Registry.Providers.{AgentHostProviderDescriptor}
use zaw.Registry.Contributions.{ContributionDescriptor}
use zaw.Registry.Containers.{sidebar, WorkbenchViewContainer}

abbrev shorter : String → String → Bool
shorter s t = leb (len s) (len t)

shorter-IsPreorder : IsPreorder shorter
shorter-IsPreorder = record { total = λ a b. ground arith; trans = λ a b c h k. ground arith }

abbrev action : String → ℕ → Option ℕ → Ref ActionDescriptor
action id n order = record {
  identity = n;
  value = record {
    checked_when = none;
    command = "run";
    group = none;
    icon = none;
    id = id;
    menu = titlebar;
    order = order;
    precondition = none;
    title = id;
  };
}

abbrev registered : List (String × Ref ActionDescriptor)
registered =
    ("late", action "late" 1 (some 2))
    ∷ ("mid", action "mid" 2 (some 1))
    ∷ ("a", action "a" 3 none)
    ∷ []

abbrev names : List (Ref ActionDescriptor) → List String
names = map λ a. a.value.id

actions_in_order : names (actions shorter titlebar registered) ≡ "a" ∷ "mid" ∷ "late" ∷ []
unfolding actions by_order insert
actions_in_order = refl

register_tests :
    (register_action (λ c. true) (action "a" 4 none) registered ≡ err already_registered)
    × (register_action (λ c. false) (action "b" 4 none) registered ≡ err unknown_command)
unfolding register_action get
register_tests = (refl, refl)

abbrev busy : Ref (SessionStatusDescriptor ℕ)
busy = record {
  identity = 1;
  value = record {
    presentation = record { icon = "sync"; label = "Busy"; state = "busy" };
    id = "busy";
    matches = λ item. elim item [ none ↦ false | some n ↦ leb 1 n ];
    order = some 3;
  };
}

abbrev statuses : List (String × Ref (SessionStatusDescriptor ℕ))
statuses = ("busy", busy) ∷ []

resolve_tests :
    (resolve shorter (some 2) statuses ≡ busy.value.presentation)
    × (resolve shorter none statuses ≡ or_idle {Item = ℕ} none)
unfolding resolve insert
resolve_tests = (refl, refl)

abbrev local : Ref (AgentHostProviderDescriptor ℕ)
local = record {
  identity = 1;
  value = record { can_handle = none; id = "local"; order = none; connect = λ w. len w };
}

abbrev contribution : Ref ContributionDescriptor
contribution = record {
  identity = 1;
  value = record { factory = 0; id = "files"; order = none; when = none };
}

abbrev side : Ref WorkbenchViewContainer
side = record {
  identity = 1;
  value = record { id = "side"; location = sidebar; order = none; title = "Side" };
}
