-- ===== src/Registry/Order.antt =====
-- The comparator that the registries share: `(left.order ?? 0) - (right.order ?? 0)`, then
-- `left.id.localeCompare(right.id)`. `localeCompare` belongs to the platform: what the code relies
-- on is that it is a total preorder. Every `order` of the source is a natural number.
use zaw.Base.{ℕ, String, Bool, ◌&&◌, ◌||◌, Option, none, some, nat_eq, ltb, arith}
use zaw.Base.Sort.{IsPreorder}

abbrev pub order_of : Option ℕ → ℕ
order_of none = 0
order_of (some n) = n

-- The comparator's result is at most 0.
unfoldable pub compare_order : (String → String → Bool) → ℕ → String → ℕ → String → Bool
compare_order locale_le m i n j = ltb m n || (nat_eq m n && locale_le i j)

unfoldable pub by_order {ℓ} :
    {A : Type ℓ} → (String → String → Bool) → (A → Option ℕ) → (A → String) → A → A → Bool
unfolding compare_order
by_order locale_le order id a b =
    compare_order locale_le (order_of (order a)) (id a) (order_of (order b)) (id b)

pub by_order-IsPreorder {ℓ} :
    {A : Type ℓ} (locale_le : String → String → Bool) (order : A → Option ℕ) (id : A → String)
    → IsPreorder locale_le
    → IsPreorder (by_order locale_le order id)
unfolding by_order
by_order-IsPreorder locale_le order id o = record {
  total = λ a b. ground (arith, o.total (id a) (id b));
  trans = λ a b c h k. ground (arith, o.trans (id a) (id b) (id c));
}
