-- ===== src/Registry/Actions.antt =====
-- packages/workbench/src/platform/actions/actions.ts: `ActionRegistry`.
use zaw.Base.{ℕ, String, Bool, true, false, List, Option, keep, ◌≡◌}
use zaw.Base.Dict.{values}
use zaw.Base.Sort.{sort, IsSorted, IsPreorder, sort-IsSorted, sort-perm, sort-stable, ties}
use mathlib.Core.List.{Perm}
use zaw.Context.{ContextKeyExpression}
use zaw.Registry.{Ref, Result, register, dispose}
use zaw.Registry.Order.{by_order, by_order-IsPreorder}

pub data MenuId : Type 0 where
  chat_input context titlebar view_title : MenuId

abbrev pub menu_eq : MenuId → MenuId → Bool
menu_eq chat_input chat_input = true
menu_eq context context = true
menu_eq titlebar titlebar = true
menu_eq view_title view_title = true
menu_eq _ _ = false

pub data Group : Type 0 where
  center left navigation right : Group

pub record ActionDescriptor : Type 0 where
  pub checked_when : Option ContextKeyExpression
  pub command : String
  pub group : Option Group
  pub icon : Option String
  pub id : String
  pub menu : MenuId
  pub order : Option ℕ
  pub precondition : Option ContextKeyExpression
  pub title : String

unfoldable pub register_action :
    (String → Bool)
    → Ref ActionDescriptor
    → List (String × Ref ActionDescriptor)
    → Result (List (String × Ref ActionDescriptor))
unfolding register
register_action has_command = register (λ a. a.id) (λ a. has_command a.command)

unfoldable pub dispose_action :
    Ref ActionDescriptor
    → List (String × Ref ActionDescriptor)
    → List (String × Ref ActionDescriptor) × Bool
unfolding dispose
dispose_action = dispose (λ a. a.id)

abbrev pub action_le : (String → String → Bool) → Ref ActionDescriptor → Ref ActionDescriptor → Bool
action_le locale_le = by_order locale_le (λ a. a.value.order) (λ a. a.value.id)

-- `filter` by the menu, then `sort`.
unfoldable pub actions :
    (String → String → Bool)
    → MenuId
    → List (String × Ref ActionDescriptor)
    → List (Ref ActionDescriptor)
unfolding sort keep
actions locale_le menu m =
    sort (action_le locale_le) (keep (λ a. menu_eq a.value.menu menu) (values m))

-- A menu lists its own actions, all of them and each once, in the order of the comparator; actions
-- that tie keep the order in which they were registered.
pub actions_lem :
    (locale_le : String → String → Bool) (menu : MenuId) (m : List (String × Ref ActionDescriptor))
    → IsPreorder locale_le
    → Perm (actions locale_le menu m) (keep (λ a. menu_eq a.value.menu menu) (values m))
      × IsSorted (action_le locale_le) (actions locale_le menu m)
      × ((a : Ref ActionDescriptor)
          → keep (ties (action_le locale_le) a) (actions locale_le menu m)
            ≡ keep
                (ties (action_le locale_le) a)
                (keep (λ b. menu_eq b.value.menu menu) (values m)))
unfolding actions
actions_lem locale_le menu m o =
    let total =
      by_order-IsPreorder locale_le (λ (a : Ref ActionDescriptor). a.value.order) (λ a. a.value.id)
        o in
    let mine = keep (λ (a : Ref ActionDescriptor). menu_eq a.value.menu menu) (values m) in
    (
      sort-perm (action_le locale_le) mine,
      sort-IsSorted (action_le locale_le) total mine,
      (λ a. sort-stable (action_le locale_le) total a mine),
    )
