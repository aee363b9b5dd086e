-- ===== src/Engine/Book/Ranking.antt =====
-- The order of prices along the orders of a side.
use sur_protocol.Common.{
  ℤ, false, ◌≡◌, subst, List, [], ◌∷◌, ◌++◌, Option, none, some, arith, All, All-append, All-map,
}
use sur_protocol.Types.{Side, Order}
use sur_protocol.Engine.Book.{Levels, OrderBook, levels, better, sorted_prices, best_price}
use sur_protocol.Engine.Book.Sorting.{
  Before, Sorted, sort_levels, sort_levels-Sorted, better_irrefl, better_asym,
}
use sur_protocol.Engine.Book.Validity.{IsResting, AllLevels, IsSideValid, AllLevels-sort_levels}
use sur_protocol.Engine.Book.Makers.{orders_of, makers, vacant, headed, view}

-- No order of the list has a better price than `p`.
abbrev pub NoneBetter : Side → ℤ → List Order → Type 0
NoneBetter s p ms = All (λ (m : Order). better s m.price p ≡ false) ms

abbrev pub IsRanked : Side → List Order → Type 0
IsRanked s [] = Unit
IsRanked s (m ∷ ms) = NoneBetter s m.price ms × IsRanked s ms

NoneBetter-level : (s : Side) (p : ℤ) (os : List Order) → All (IsResting s p) os → NoneBetter s p os
NoneBetter-level s p [] a = tt
NoneBetter-level s p (o ∷ os) a =
    (ground (arith, better_irrefl s p, a.0.price), NoneBetter-level s p os a.1)

NoneBetter-orders_of :
    (s : Side) (p : ℤ) (l : Levels) → Before s p l → AllLevels s l → NoneBetter s p (orders_of l)
NoneBetter-orders_of s p [] b a = tt
NoneBetter-orders_of s p ((r, w) ∷ l) b a =
    All-append (λ (m : Order). better s m.price p ≡ false) w.orders (orders_of l)
      (All-map (λ (m : Order) (h : IsResting s r m). ground (arith, h.price, better_asym s p r b.0))
        w.orders a.0.resting)
      (NoneBetter-orders_of s p l b.1 a.1)

IsRanked-append :
    (s : Side) (p : ℤ) (os rest : List Order)
    → All (IsResting s p) os
    → NoneBetter s p rest
    → IsRanked s rest
    → IsRanked s (os ++ rest)
IsRanked-append s p [] rest a n r = r
IsRanked-append s p (o ∷ os) rest a n r = (
  rw a.0.price (
      All-append (λ (m : Order). better s m.price p ≡ false) os rest (NoneBetter-level s p os a.1)
        n),
  IsRanked-append s p os rest a.1 n r,
)

orders_of-IsRanked : (s : Side) (l : Levels) → Sorted s l → AllLevels s l → IsRanked s (orders_of l)
orders_of-IsRanked s [] d a = tt
orders_of-IsRanked s ((p, q) ∷ l) d a =
    IsRanked-append s p q.orders (orders_of l) a.0.resting (NoneBetter-orders_of s p l d.0 a.1)
      (orders_of-IsRanked s l d.1 a.1)

pub makers-IsRanked :
    (s : Side) (b : OrderBook) → IsSideValid s (levels s b) → IsRanked s (makers s b)
makers-IsRanked s b v =
    orders_of-IsRanked s (sort_levels s (levels s b)) (sort_levels-Sorted s (levels s b) v.distinct)
      (AllLevels-sort_levels s (levels s b) v.sound)

-- The price of the first order.
abbrev pub first_price : List Order → Option ℤ
first_price [] = none
first_price (m ∷ _) = some m.price

pub best_price-eq-first_price :
    (s : Side) (b : OrderBook)
    → IsSideValid s (levels s b)
    → best_price s b ≡ first_price (makers s b)
unfolding best_price sorted_prices
best_price-eq-first_price s b v = elim (view s (levels s b) v) [
  | vacant e n ↦ ground (arith, e, n)
  | headed p q o os l h ↦
      let r : All (IsResting s p) (o ∷ os) = subst (All (IsResting s p)) h.orders h.level.resting in
      ground (arith, h.sorted, h.best, h.orders, r.0.price)
]
