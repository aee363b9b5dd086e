-- ===== src/Engine/Queue.antt =====
-- `OrderQueue` of api/src/engine/matching.ts: one price level, its orders oldest first.
pub mod Accounting
use sur_protocol.Common.{
  ℕ, ◌+◌, ◌-◌, Bool, not, List, [], ◌∷◌, ◌++◌, Option, none, some, if◌then◌else◌, ◌==◌, leb, length,
  keep,
}
use sur_protocol.Types.{Order}

pub record OrderQueue : Type 0 where
  pub orders : List Order
  pub total_size : ℕ
  pub visible_size : ℕ

-- `new OrderQueue()`
abbrev pub empty_queue : OrderQueue
empty_queue = record { orders = []; total_size = 0; visible_size = 0 }

-- What an order adds to `visibleSize`.
abbrev pub visible_part : Order → ℕ → ℕ
visible_part o amount = if o.hidden then 0 else amount

unfoldable pub push : OrderQueue → Order → OrderQueue
push q o = record {
  orders = q.orders ++ o ∷ [];
  total_size = q.total_size + o.remaining;
  visible_size = if o.hidden then q.visible_size else q.visible_size + o.remaining;
}

abbrev pub first : List Order → Option Order
first [] = none
first (o ∷ _) = some o

unfoldable pub front : OrderQueue → Option Order
front q = first q.orders

-- What `popFront` and `removeById` do once the order is out of the array.
abbrev pub without : OrderQueue → Order → List Order → OrderQueue
without q o rest = record {
  orders = rest;
  total_size = q.total_size - o.remaining;
  visible_size = if o.hidden then q.visible_size else q.visible_size - o.remaining;
}

abbrev shift : OrderQueue → List Order → OrderQueue × Option Order
shift q [] = (q, none)
shift q (o ∷ rest) = (without q o rest, some o)

unfoldable pub pop_front : OrderQueue → OrderQueue × Option Order
pop_front q = shift q q.orders

-- `orders.findIndex((o) => o.id === orderId)` and `splice`: the first order with the id, and the
-- array without it.
abbrev pub splice_id : ℕ → List Order → Option (Order × List Order)
splice_id i [] = none
splice_id i (o ∷ os) =
    let rest = splice_id i os in
    if o.id == i
    then some (o, os)
    else elim rest [ none ↦ none | some (found, left) ↦ some (found, o ∷ left) ]

unfoldable pub remove_by_id : OrderQueue → ℕ → OrderQueue × Option Order
remove_by_id q i = elim (splice_id i q.orders) [
  | none ↦ (q, none)
  | some (o, rest) ↦ (without q o rest, some o)
]

abbrev pub no_orders : List Order → Bool
no_orders [] = Bool.true
no_orders (_ ∷ _) = Bool.false

unfoldable pub is_empty : OrderQueue → Bool
is_empty q = no_orders q.orders

abbrev reduce : OrderQueue → ℕ → List Order → OrderQueue
reduce q amount [] = q
reduce q amount (o ∷ os) = record {
  orders = record o { remaining = o.remaining - amount } ∷ os;
  total_size = q.total_size - amount;
  visible_size = if o.hidden then q.visible_size else q.visible_size - amount;
}

unfoldable pub reduce_front : OrderQueue → ℕ → OrderQueue
reduce_front q amount = reduce q amount q.orders

unfoldable pub is_visibly_empty : OrderQueue → Bool
is_visibly_empty q = leb q.visible_size 0

-- `q.orders.filter(o => !o.hidden).length`
unfoldable pub visible_count : OrderQueue → ℕ
visible_count q = length (keep (λ o. not o.hidden) q.orders)
