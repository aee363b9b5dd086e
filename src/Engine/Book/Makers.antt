-- ===== src/Engine/Book/Makers.antt =====
-- The abstract view of one side of the book: all its orders in the order in which they are served,
-- by price and then by age. Peeking and filling act on the head of that list.
use sur_protocol.Common.{
  ℕ, ◌-◌, ◌≤◌, ℤ, eqb_ℤ_iff, Bool-cases, true, ◌≡◌, refl, subst, sym, ◌∙◌, inl, inr, List, [], ◌∷◌,
  ◌++◌, none, some, arith, if◌then◌else◌, leb, All, int_eq,
}
use sur_protocol.Common.Dict.{lookup, insert, erase, keys}
use sur_protocol.Types.{Side, Order, OrderStatus}
use sur_protocol.Engine.Queue.{
  OrderQueue, first, front, pop_front, is_empty, no_orders, reduce_front,
}
use sur_protocol.Engine.Queue.Accounting.{IsAccurate}
use sur_protocol.Engine.Book.{
  Levels, OrderBook, levels, set_levels, sort_prices, sorted_prices, head_price, best_price,
  queue_at, store_level, peek_best, set_front_status, fill_level, fill_best,
}
use sur_protocol.Engine.Book.Sorting.{
  sort_levels, keys-sort_levels, lookup-sort_levels, sort_levels-insert_present, sort_levels-erase,
}
use sur_protocol.Engine.Book.Validity.{
  IsResting, IsLevel, IsSideValid, AllLevels-lookup, store_level-IsSideValid,
}

abbrev pub orders_of : Levels → List Order
orders_of [] = []
orders_of ((p, q) ∷ l) = q.orders ++ orders_of l

-- The resting orders of a side, the first to be served at the head.
abbrev pub makers : Side → OrderBook → List Order
makers s b = orders_of (sort_levels s (levels s b))

-- What is known of the best level of a side: its price and queue, the order at the front of that
-- queue and those behind it, and the levels behind the best one.
pub record HasHead (s : Side) (m : Levels) (p : ℤ) (q : OrderQueue) (o : Order) (os : List Order)
    (l : Levels) : Type 0 where
  pub sorted : sort_levels s m ≡ (p, q) ∷ l
  pub best : head_price (sort_prices s (keys m)) ≡ some p
  pub found : lookup p m ≡ some q
  pub removed : sort_levels s (erase p m) ≡ l
  pub replaced : (w : OrderQueue) → sort_levels s (insert p w m) ≡ (p, w) ∷ l
  pub level : IsLevel s p q
  pub orders : q.orders ≡ o ∷ os

-- A side is empty or has a best level.
pub data View (s : Side) (m : Levels) : Type 0 where
  vacant : sort_levels s m ≡ [] → head_price (sort_prices s (keys m)) ≡ none → View s m
  headed :
      (p : ℤ) (q : OrderQueue) (o : Order) (os : List Order) (l : Levels)
      → HasHead s m p q o os l
      → View s m

View-headed :
    (s : Side) (m : Levels) (p : ℤ) (q : OrderQueue) (l : Levels) (xs : List Order)
    → IsSideValid s m
    → sort_levels s m ≡ (p, q) ∷ l
    → lookup p m ≡ some q
    → q.orders ≡ xs
    → View s m
unfolding is_empty
View-headed s m p q l [] v e found eo =
    let h : IsLevel s p q = AllLevels-lookup s p q m v.sound found in
    absurd (ground (arith, h.occupied, eo))
View-headed s m p q l (o ∷ os) v e found eo = headed p q o os l (record {
  sorted = e;
  best = ground (arith, e, keys-sort_levels s m);
  found = found;
  removed = rw (sort_levels-erase s p m v.distinct, e) (ground (arith, eqb_ℤ_iff p p));
  replaced = λ w.
      rw (sort_levels-insert_present s p w q m v.distinct found, e) (ground (arith, eqb_ℤ_iff p p));
  level = AllLevels-lookup s p q m v.sound found;
  orders = eo;
})

View-by_sorting : (s : Side) (m l : Levels) → IsSideValid s m → sort_levels s m ≡ l → View s m
View-by_sorting s m [] v e = vacant e (ground (arith, e, keys-sort_levels s m))
View-by_sorting s m ((p, q) ∷ l) v e =
    View-headed s m p q l q.orders v e
      (sym (lookup-sort_levels s p m v.distinct) ∙ rw e (ground (arith, eqb_ℤ_iff p p))) refl

pub view : (s : Side) (m : Levels) → IsSideValid s m → View s m
view s m v = View-by_sorting s m (sort_levels s m) v refl

-- The best order is the head of the list.
pub peek_best-eq-first :
    (s : Side) (b : OrderBook) → IsSideValid s (levels s b) → peek_best s b ≡ first (makers s b)
unfolding peek_best best_price sorted_prices front
peek_best-eq-first s b v = elim (view s (levels s b) v) [
  | vacant e n ↦ ground (arith, e, n)
  | headed p q o os l h ↦ ground (arith, h.sorted, h.best, h.found, h.orders)
]

-- What a fill does to the list: the head goes if nothing of it is left, and else is reduced.
abbrev pub fill_head : ℕ → List Order → List Order
fill_head qty [] = []
fill_head qty (m ∷ ms) =
    if leb (m.remaining - qty) 0
    then ms
    else record m { remaining = m.remaining - qty; status = OrderStatus.partially_filled } ∷ ms

levels-set_levels : (s : Side) (m : Levels) (b : OrderBook) → levels s (set_levels s m b) ≡ m
levels-set_levels Side.buy m b = refl
levels-set_levels Side.sell m b = refl

-- The level that a fill leaves behind.
abbrev filled_queue : OrderQueue → ℕ → Order → OrderQueue
filled_queue q qty o =
    if leb (o.remaining - qty) 0
    then (pop_front (reduce_front q qty)).0
    else record (reduce_front q qty) {
      orders = set_front_status OrderStatus.partially_filled (reduce_front q qty).orders;
    }

levels-fill_level :
    (s : Side) (qty : ℕ) (p : ℤ) (b : OrderBook) (q : OrderQueue) (o : Order) (os : List Order)
    → q.orders ≡ o ∷ os
    → levels s (fill_level s qty p b q).0 ≡ store_level p (filled_queue q qty o) (levels s b)
unfolding front reduce_front pop_front is_empty
levels-fill_level Side.buy qty p b q o os e = ground (arith, e)
levels-fill_level Side.sell qty p b q o os e = ground (arith, e)

-- At the best level, storing a changed queue changes the head of the list alone.
no_orders-append : (os rest : List Order) → no_orders os ≡ true → rest ≡ os ++ rest
no_orders-append [] rest e = refl
no_orders-append (o ∷ os) rest e = cc

orders_of-store_level :
    (s : Side) (m : Levels) (p : ℤ) (q w : OrderQueue) (o : Order) (os : List Order) (l : Levels)
    → HasHead s m p q o os l
    → orders_of (sort_levels s (store_level p w m)) ≡ w.orders ++ orders_of l
unfolding is_empty
orders_of-store_level s m p q w o os l h = elim (Bool-cases (no_orders w.orders)) [
  | inl gone ↦ rw (gone, h.removed) (no_orders-append w.orders (orders_of l) gone)
  | inr kept ↦ rw (kept, h.replaced w) refl
]

filled_queue-orders :
    (q : OrderQueue) (qty : ℕ) (o : Order) (os rest : List Order)
    → q.orders ≡ o ∷ os
    → (filled_queue q qty o).orders ++ rest ≡ fill_head qty (o ∷ os ++ rest)
unfolding reduce_front pop_front
filled_queue-orders q qty o os rest e = ground (arith, e)

pub fill_best-eq-fill_level :
    (s : Side) (qty : ℕ) (b : OrderBook) (p : ℤ) (q : OrderQueue) (o : Order) (os : List Order)
    (l : Levels)
    → HasHead s (levels s b) p q o os l
    → fill_best s qty b ≡ fill_level s qty p b q
unfolding fill_best best_price sorted_prices
fill_best-eq-fill_level s qty b p q o os l h = rw (h.best, fill_best) (rw (h.found, queue_at) refl)

pub fill_best-vacant :
    (s : Side) (qty : ℕ) (b : OrderBook)
    → head_price (sort_prices s (keys (levels s b))) ≡ none
    → fill_best s qty b ≡ (b, none)
unfolding fill_best best_price sorted_prices
fill_best-vacant s qty b e = rw (e, fill_best) refl

pub makers-HasHead :
    (s : Side) (b : OrderBook) (p : ℤ) (q : OrderQueue) (o : Order) (os : List Order) (l : Levels)
    → HasHead s (levels s b) p q o os l
    → makers s b ≡ o ∷ os ++ orders_of l
makers-HasHead s b p q o os l h = rw (h.sorted, h.orders) refl

-- Filling the best order changes the list of orders at its head, and nowhere else.
pub makers-fill_best :
    (s : Side) (qty : ℕ) (b : OrderBook)
    → IsSideValid s (levels s b)
    → makers s (fill_best s qty b).0 ≡ fill_head qty (makers s b)
makers-fill_best s qty b v = elim (view s (levels s b) v) [
  | vacant e n ↦ rw (fill_best-vacant s qty b n, e) refl
  | headed p q o os l h ↦
      rw
        (
          fill_best-eq-fill_level s qty b p q o os l h,
          levels-fill_level s qty p b q o os h.orders,
          orders_of-store_level s (levels s b) p q (filled_queue q qty o) o os l h,
          makers-HasHead s b p q o os l h,
        )
        (filled_queue-orders q qty o os (orders_of l) h.orders)
]

-- Filling keeps the side valid, if no more is filled than the best order has.
filled_queue-IsAccurate :
    (q : OrderQueue) (qty : ℕ) (o : Order) (os : List Order)
    → q.orders ≡ o ∷ os
    → qty ≤ o.remaining
    → IsAccurate q
    → IsAccurate (filled_queue q qty o)
unfolding reduce_front pop_front
filled_queue-IsAccurate q qty o os e le a = ground (arith, e)

filled_queue-IsResting :
    (s : Side) (p : ℤ) (q : OrderQueue) (qty : ℕ) (o : Order) (os : List Order)
    → q.orders ≡ o ∷ os
    → All (IsResting s p) (o ∷ os)
    → All (IsResting s p) (filled_queue q qty o).orders
unfolding reduce_front pop_front
filled_queue-IsResting s p q qty o os e a = ground (arith, e)

pub fill_best-IsSideValid :
    (s : Side) (qty : ℕ) (b : OrderBook)
    → ((o : Order) → peek_best s b ≡ some o → qty ≤ o.remaining)
    → IsSideValid s (levels s b)
    → IsSideValid s (levels s (fill_best s qty b).0)
fill_best-IsSideValid s qty b le v = elim (view s (levels s b) v) [
  | vacant e n ↦ rw (fill_best-vacant s qty b n) v
  | headed p q o os l h ↦
      rw (fill_best-eq-fill_level s qty b p q o os l h, levels-fill_level s qty p b q o os h.orders)
        (store_level-IsSideValid s p (filled_queue q qty o) (levels s b)
          (filled_queue-IsAccurate q qty o os h.orders
            (le o (peek_best-eq-first s b v ∙ rw (makers-HasHead s b p q o os l h) refl))
            h.level.accurate)
          (filled_queue-IsResting s p q qty o os h.orders
            (subst (All (IsResting s p)) h.orders h.level.resting))
          v)
]
