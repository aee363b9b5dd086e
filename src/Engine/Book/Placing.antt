-- ===== src/Engine/Book/Placing.antt =====
-- `placeOrder`, and where an order stands after it.
use sur_protocol.Common.{
  ◌<◌, ℤ, eqb_ℤ, eqb_ℤ_iff, true, false, Bool-cases, Option-cases, ◌≡◌, refl, subst, sym, ap, ◌∙◌,
  inl, inr, List, [], ◌∷◌, ◌++◌, none, some, arith, if◌then◌else◌, All, All-append, int_eq,
}
use mathlib.Core.List.{append_assoc}
use sur_protocol.Common.Dict.{lookup, insert}
use sur_protocol.Types.{Side, Order, opposite}
use sur_protocol.Engine.Queue.{OrderQueue, empty_queue, push, is_empty, no_orders}
use sur_protocol.Engine.Queue.Accounting.{IsAccurate, push-IsAccurate}
use sur_protocol.Engine.Book.{
  Levels, OrderBook, levels, set_levels, better, queue_at, push_level, place_order,
}
use sur_protocol.Engine.Book.Sorting.{
  insert_level, Sorted, Before, sort_levels, sort_levels-Sorted, lookup-sort_levels,
  sort_levels-insert_new, sort_levels-insert_present, better_irrefl, better_asym,
}
use sur_protocol.Engine.Book.Validity.{
  IsResting, IsLevel, AllLevels, IsSideValid, AllLevels-sort_levels, AllLevels-lookup,
  insert-IsSideValid,
}
use sur_protocol.Engine.Book.Makers.{orders_of, makers}

-- The place of an order among the orders of its side, by price and then by age.
unfoldable pub place : Side → Order → List Order → List Order
place s o [] = o ∷ []
place s o (m ∷ ms) = if better s o.price m.price then o ∷ m ∷ ms else m ∷ place s o ms

place_skip :
    (s : Side) (o : Order) (r : ℤ) (os rest : List Order)
    → All (IsResting s r) os
    → better s o.price r ≡ false
    → place s o (os ++ rest) ≡ os ++ place s o rest
unfolding place
place_skip s o r [] rest a h = refl
place_skip s o r (x ∷ os) rest a h = ground (arith, a.0.price, place_skip s o r os rest a.1 h)

place_front :
    (s : Side) (o : Order) (r : ℤ) (os rest : List Order)
    → All (IsResting s r) os
    → no_orders os ≡ false
    → better s o.price r ≡ true
    → place s o (os ++ rest) ≡ o ∷ os ++ rest
unfolding place
place_front s o r [] rest a n h = cc
place_front s o r (x ∷ os) rest a n h = ground (arith, a.0.price)

place-Before :
    (s : Side) (o : Order) (l : Levels)
    → Before s o.price l
    → AllLevels s l
    → place s o (orders_of l) ≡ o ∷ orders_of l
unfolding place is_empty
place-Before s o [] b a = refl
place-Before s o ((r, w) ∷ l) b a =
    place_front s o r w.orders (orders_of l) a.0.resting a.0.occupied b.0

orders_of-insert_level :
    (s : Side) (o : Order) (q : OrderQueue) (l : Levels)
    → q.orders ≡ o ∷ []
    → lookup o.price l ≡ none
    → AllLevels s l
    → orders_of (insert_level s o.price q l) ≡ place s o (orders_of l)
unfolding place is_empty
orders_of-insert_level s o q [] e n a = rw e refl
orders_of-insert_level s o q ((r, w) ∷ l) e n a = elim (Bool-cases (better s o.price r)) [
  | inl first ↦
      rw (first, place_front s o r w.orders (orders_of l) a.0.resting a.0.occupied first, e) refl
  | inr behind ↦
      rw (behind, place_skip s o r w.orders (orders_of l) a.0.resting behind)
        (ap (◌++◌ w.orders)
          (orders_of-insert_level s o q l e (ground (arith, eqb_ℤ_iff o.price r)) a.1))
]

Before-lookup :
    (s : Side) (r p : ℤ) (q : OrderQueue) (l : Levels)
    → Before s r l
    → lookup p l ≡ some q
    → better s r p ≡ true
Before-lookup s r p q [] b e = absurd (ground arith)
Before-lookup s r p q ((x, w) ∷ l) b e = ground (arith, eqb_ℤ_iff p x, Before-lookup s r p q l b.1)

orders_of-insert_here :
    (s : Side) (o : Order) (q w : OrderQueue) (l : Levels)
    → q.orders ≡ w.orders ++ o ∷ []
    → Before s o.price l
    → AllLevels s ((o.price, w) ∷ l)
    → q.orders ++ orders_of l ≡ place s o (w.orders ++ orders_of l)
orders_of-insert_here s o q w l e b a =
    rw
      (
        e,
        place_skip s o o.price w.orders (orders_of l) a.0.resting (better_irrefl s o.price),
        place-Before s o l b a.1,
      )
      (append_assoc w.orders (o ∷ []) (orders_of l))

orders_of-insert :
    (s : Side) (o : Order) (q w : OrderQueue) (l : Levels)
    → lookup o.price l ≡ some w
    → q.orders ≡ w.orders ++ o ∷ []
    → Sorted s l
    → AllLevels s l
    → orders_of (insert o.price q l) ≡ place s o (orders_of l)
orders_of-insert s o q w [] n e d a = absurd (ground arith)
orders_of-insert s o q w ((r, u) ∷ l) n e d a = elim (Bool-cases (eqb_ℤ o.price r)) [
  | inl hit ↦
      let same : o.price ≡ r = (eqb_ℤ_iff o.price r).0 hit in
      let found : w ≡ u = ground (arith, hit) in
      rw hit (
        orders_of-insert_here s o q u l (e ∙ ap (λ (x : OrderQueue). x.orders ++ o ∷ []) found)
          (subst (λ x. Before s x l) (sym same) d.0)
          (subst (λ x. AllLevels s ((x, u) ∷ l)) (sym same) a))
  | inr miss ↦
      let behind : lookup o.price l ≡ some w = ground (arith, miss) in
      rw
        (
          miss,
          place_skip s o r u.orders (orders_of l) a.0.resting
              (better_asym s r o.price (Before-lookup s r o.price w l d.0 behind)),
          orders_of-insert s o q w l behind e d.1 a.1,
        )
        refl
]

pub levels-place_order :
    (o : Order) (b : OrderBook) → levels o.side (place_order o b) ≡ push_level o (levels o.side b)
unfolding place_order
levels-place_order o b = on o.side
  where
    on :
        (s : Side)
        → levels s (record (set_levels s (push_level o (levels s b)) b) {
          order_index = (place_order o b).order_index;
        })
          ≡ push_level o (levels s b)
    on Side.buy = refl
    on Side.sell = refl

pub opposite-place_order :
    (o : Order) (b : OrderBook)
    → levels (opposite o.side) (place_order o b) ≡ levels (opposite o.side) b
unfolding place_order
opposite-place_order o b = on o.side
  where
    on :
        (s : Side)
        → levels (opposite s) (record (set_levels s (push_level o (levels s b)) b) {
          order_index = (place_order o b).order_index;
        })
          ≡ levels (opposite s) b
    on Side.buy = refl
    on Side.sell = refl

pub market-place_order : (o : Order) (b : OrderBook) → (place_order o b).market ≡ b.market
unfolding place_order
market-place_order o b = on o.side
  where
    on : (s : Side) → (set_levels s (push_level o (levels o.side b)) b).market ≡ b.market
    on Side.buy = refl
    on Side.sell = refl

push_orders : (q : OrderQueue) (o : Order) → (push q o).orders ≡ q.orders ++ o ∷ []
unfolding push
push_orders q o = refl

push_level-orders :
    (s : Side) (o : Order) (m : Levels)
    → IsSideValid s m
    → orders_of (sort_levels s (push_level o m)) ≡ place s o (orders_of (sort_levels s m))
push_level-orders s o m v = elim (Option-cases (lookup o.price m)) [
  | inl e ↦
      rw (e, queue_at)
        (rw (sort_levels-insert_new s o.price (push empty_queue o) m e) (
          orders_of-insert_level s o (push empty_queue o) (sort_levels s m)
            (push_orders empty_queue o) (lookup-sort_levels s o.price m v.distinct ∙ e)
            (AllLevels-sort_levels s m v.sound)))
  | inr (w, e) ↦
      rw (e, queue_at)
        (rw (sort_levels-insert_present s o.price (push w o) w m v.distinct e) (
          orders_of-insert s o (push w o) w (sort_levels s m)
            (lookup-sort_levels s o.price m v.distinct ∙ e) (push_orders w o)
            (sort_levels-Sorted s m v.distinct) (AllLevels-sort_levels s m v.sound)))
]

-- On a valid side a placed order takes the place that price and age give it: behind every order
-- with a price as good as its own, and before every order with a worse one.
pub makers-place_order :
    (o : Order) (b : OrderBook)
    → IsSideValid o.side (levels o.side b)
    → makers o.side (place_order o b) ≡ place o.side o (makers o.side b)
makers-place_order o b v =
    rw (levels-place_order o b) (push_level-orders o.side o (levels o.side b) v)

empty_queue-IsAccurate : IsAccurate empty_queue
empty_queue-IsAccurate = record { total = refl; visible = refl }

push-IsLevel :
    (o : Order) (q : OrderQueue)
    → 0 < o.remaining
    → IsAccurate q
    → All (IsResting o.side o.price) q.orders
    → IsLevel o.side o.price (push q o)
unfolding push is_empty
push-IsLevel o q pos_left acc rest = record {
  occupied = not_empty q.orders;
  accurate = push-IsAccurate q o acc;
  resting =
      All-append (IsResting o.side o.price) q.orders (o ∷ []) rest
        (record { side = refl; price = refl; left = pos_left }, tt);
}
  where
    not_empty : (os : List Order) → no_orders (os ++ o ∷ []) ≡ false
    not_empty [] = refl
    not_empty (x ∷ os) = refl

-- An order with something left keeps its side valid when it is placed.
pub place_order-IsSideValid :
    (o : Order) (b : OrderBook)
    → 0 < o.remaining
    → IsSideValid o.side (levels o.side b)
    → IsSideValid o.side (levels o.side (place_order o b))
place_order-IsSideValid o b left v =
    rw (levels-place_order o b) (elim (Option-cases (lookup o.price (levels o.side b))) [
      | inl e ↦
          rw (e, queue_at)
            (insert-IsSideValid o.side o.price (push empty_queue o) (levels o.side b)
              (push-IsLevel o empty_queue left empty_queue-IsAccurate tt) v)
      | inr (w, e) ↦
          let h = AllLevels-lookup o.side o.price w (levels o.side b) v.sound e in
          rw (e, queue_at)
            (insert-IsSideValid o.side o.price (push w o) (levels o.side b)
              (push-IsLevel o w left h.accurate h.resting) v)
    ])

pub place-All {ℓ} :
    (P : Order → Type ℓ) (s : Side) (o : Order) (ms : List Order)
    → P o
    → All P ms
    → All P (place s o ms)
unfolding place
place-All P s o [] h a = (h, tt)
place-All P s o (m ∷ ms) h a = ground (arith, place-All P s o ms h a.1)
