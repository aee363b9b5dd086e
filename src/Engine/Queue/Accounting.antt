-- ===== src/Engine/Queue/Accounting.antt =====
-- The running totals of a queue against the orders that it holds.
use sur_protocol.Common.{
  ℕ, ◌+◌, ◌≤◌, ◌≡◌, List, [], ◌∷◌, Option, none, some, arith, sum_by, sum_by-append,
}
use sur_protocol.Types.{Order}
use sur_protocol.Engine.Queue.{
  OrderQueue, visible_part, push, front, pop_front, splice_id, remove_by_id, reduce_front,
}

-- `totalSize` and `visibleSize` are the sums over the orders, of all and of those not hidden.
pub record IsAccurate (q : OrderQueue) : Type 0 where
  pub total : q.total_size ≡ sum_by (λ o. o.remaining) q.orders
  pub visible : q.visible_size ≡ sum_by (λ o. visible_part o o.remaining) q.orders

pub push-IsAccurate : (q : OrderQueue) (o : Order) → IsAccurate q → IsAccurate (push q o)
unfolding push
push-IsAccurate q o h = ground (
  arith,
  sum_by-append (λ (x : Order). x.remaining) q.orders (o ∷ []),
  sum_by-append (λ (x : Order). visible_part x x.remaining) q.orders (o ∷ []),
)

pub pop_front-IsAccurate : (q : OrderQueue) → IsAccurate q → IsAccurate (pop_front q).0
unfolding pop_front
pop_front-IsAccurate q h = ground arith

pub reduce_front-IsAccurate :
    (q : OrderQueue) (amount : ℕ) {o : Order}
    → front q ≡ some o
    → amount ≤ o.remaining
    → IsAccurate q
    → IsAccurate (reduce_front q amount)
unfolding reduce_front front
reduce_front-IsAccurate q amount e le h = ground arith

-- Taking an order out of the array takes its share out of any sum.
abbrev Removes : (Order → ℕ) → List Order → Option (Order × List Order) → Type 0
Removes f os none = Unit
Removes f os (some (o, rest)) = sum_by f os ≡ f o + sum_by f rest

sum_by-splice_id : (f : Order → ℕ) (i : ℕ) (os : List Order) → Removes f os (splice_id i os)
sum_by-splice_id f i [] = tt
sum_by-splice_id f i (x ∷ os) = ground (arith, sum_by-splice_id f i os)

pub remove_by_id-IsAccurate :
    (q : OrderQueue) (i : ℕ) → IsAccurate q → IsAccurate (remove_by_id q i).0
unfolding remove_by_id
remove_by_id-IsAccurate q i h = ground (
  arith,
  sum_by-splice_id (λ (x : Order). x.remaining) i q.orders,
  sum_by-splice_id (λ (x : Order). visible_part x x.remaining) i q.orders,
)
