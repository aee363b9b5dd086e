-- ===== src/Engine/Matching/Submit.antt =====
-- `submitOrder` by cases, and the validity of the book across it.
use sur_protocol.Common.{
  ℕ, ◌<◌, true, Bool-cases, ◌≡◌, refl, subst, sym, ap, inl, inr, ◌⊎◌, [], arith, if◌then◌else◌,
  ◌==◌,
}
use sur_protocol.Types.{OrderType, OrderStatus, Order, opposite, is_limit}
use sur_protocol.Engine.Book.{OrderBook, place_order}
use sur_protocol.Engine.Book.Makers.{makers}
use sur_protocol.Engine.Book.Placing.{place_order-IsSideValid, opposite-place_order}
use sur_protocol.Engine.Matching.Sweep.{sweep}
use sur_protocol.Engine.Matching.Execution.{
  IsBookValid, side_of, book_of_sides, match_order-Sweeps, match_order-IsBookValid,
}
use sur_protocol.Engine.Matching.{
  Env, Matched, MatchingEngine, Submitted, match_order, refuses, handle_remaining, execute,
  submit_order, no_trades, is_resting_tif,
}

is_limit_lem : (t : OrderType) → is_limit t ≡ true → t ≡ OrderType.limit
is_limit_lem OrderType.limit h = refl
is_limit_lem OrderType.market h = cc

abbrev pub resting_order : Matched → Order
resting_order m = record (m.taker) {
  status = if no_trades m.trades then OrderStatus.opened else OrderStatus.partially_filled;
}

-- The remainder of an order is placed, as a limit order with something left, or the book stays.
pub data Handled (m : Matched) (b : OrderBook) : Type 0 where
  kept : b ≡ m.book → Handled m b
  placed :
      m.taker.order_type ≡ OrderType.limit
      → 0 < m.taker.remaining
      → b ≡ place_order (resting_order m) m.book
      → Handled m b

handle_remaining-Handled : (m : Matched) → Handled m (handle_remaining m).1
unfolding handle_remaining
handle_remaining-Handled m = elim (Bool-cases (m.taker.remaining == 0)) [
  | inl done ↦ kept (ground (arith, done))
  | inr more ↦ elim (Bool-cases (is_resting_tif m.taker.time_in_force)) [
    | inr no_rest ↦ kept (ground (arith, more, no_rest))
    | inl rest ↦ elim (Bool-cases (is_limit m.taker.order_type)) [
      | inr at_market ↦ kept (ground (arith, more, rest, at_market))
      | inl l ↦
          placed (is_limit_lem m.taker.order_type l) (ground (arith, more))
            (ground (arith, more, rest, l))
    ]
  ]
]

-- A refused order changes nothing; any other is matched and its remainder handled.
pub submit_order_cases :
    (env : Env) (o : Order) (g : MatchingEngine)
    → let r = submit_order env o g in
      ((r.engine ≡ g) × (r.result.trades ≡ []) × (r.result.remaining ≡ o.remaining))
      ⊎ (r ≡ execute o g (match_order env o g.book))
unfolding submit_order
submit_order_cases env o g = ground arith

-- A submission leaves the book as it was, or leaves what handling the remainder of the matched
-- order leaves.
pub data Outcome (env : Env) (o : Order) (g : MatchingEngine) (b : OrderBook) : Type 0 where
  refused : b ≡ g.book → Outcome env o g b
  executed : Handled (match_order env o g.book) b → Outcome env o g b

pub submit_order-Outcome :
    (env : Env) (o : Order) (g : MatchingEngine)
    → Outcome env o g (submit_order env o g).engine.book
unfolding execute
submit_order-Outcome env o g = elim (submit_order_cases env o g) [
  | inl (same, _, _) ↦ refused (ap (λ (x : MatchingEngine). x.book) same)
  | inr e ↦ executed (
      subst (Handled (match_order env o g.book)) (sym (ap (λ (x : Submitted). x.engine.book) e))
        (handle_remaining-Handled (match_order env o g.book)))
]

-- The taker keeps what `submitOrder` was given, but for what remains.
taker_of_match :
    (env : Env) (o : Order) (b : OrderBook)
    → IsBookValid b
    → (n : ℕ) × ((match_order env o b).taker ≡ record o { remaining = n })
taker_of_match env o b v =
    let h = match_order-Sweeps env o b v in
    ((sweep (refuses o) o.remaining (makers (opposite o.side) b)).left, h.taker_left)

place_order-IsBookValid :
    (o : Order) (b : OrderBook) → 0 < o.remaining → IsBookValid b → IsBookValid (place_order o b)
place_order-IsBookValid o b left v =
    book_of_sides o.side (place_order o b) (place_order-IsSideValid o b left (side_of o.side b v))
      (rw (opposite-place_order o b) (side_of (opposite o.side) b v))

Handled-IsBookValid :
    (m : Matched) (b : OrderBook) → IsBookValid m.book → Handled m b → IsBookValid b
Handled-IsBookValid m b v (kept e) = rw e v
Handled-IsBookValid m b v (placed _ left e) =
    rw e (place_order-IsBookValid (resting_order m) m.book left v)

-- Submitting any order keeps the book valid: on both sides each price has one level, no level is
-- empty, its totals are the sums over its orders, and every order rests at its own price and side
-- with something left to fill.
pub submit_order-IsBookValid :
    (env : Env) (o : Order) (g : MatchingEngine)
    → IsBookValid g.book
    → IsBookValid (submit_order env o g).engine.book
submit_order-IsBookValid env o g v = elim (submit_order-Outcome env o g) [
  | refused e ↦ rw e v
  | executed h ↦
      Handled-IsBookValid (match_order env o g.book) _ (match_order-IsBookValid env o g.book v) h
]
