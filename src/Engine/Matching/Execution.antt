-- ===== src/Engine/Matching/Execution.antt =====
-- `matchOrder` on a valid book: termination, sizes, prices, and how far it goes.
use sur_protocol.Common.{
  ℕ, suc, ◌+◌, ◌<◌, ℤ, ◌≤ℤ◌, ◌<ℤ◌, ◌&&◌, Bool, true, false, ◌≡◌, refl, sym, ap, ◌∙◌, inl, inr,
  sum_by, List, [], ◌∷◌, ◌++◌, some, arith, length, All, All-append, All-map, length-append,
}
use sur_protocol.Types.{Side, OrderType, Order, Trade, opposite, is_limit}
use sur_protocol.Engine.Queue.{OrderQueue, first}
use sur_protocol.Engine.Book.{Levels, OrderBook, levels, peek_best, fill_best}
use sur_protocol.Engine.Book.Validity.{IsResting, AllLevels, IsSideValid, AllLevels-sort_levels}
use sur_protocol.Engine.Book.Sorting.{insert_level, sort_levels}
use sur_protocol.Engine.Book.Makers.{orders_of, makers, peek_best-eq-first}
use sur_protocol.Engine.Book.Frame.{
  own-fill_best, levels-count_trade, market-fill_best, market-count_trade,
}
use sur_protocol.Engine.Matching.Sweep.{
  Fill, sweep, trades_of, filled, sweep_conserves, IsFair, sweep-IsFair, Blocked, sweep_completes,
}
use sur_protocol.Engine.Matching.Loop.{match_loop_inv, Sweeps, match_loop-Sweeps}
use sur_protocol.Engine.Matching.{
  Env, Matched, match_order, refuses, make_trade, resting_count, falls_short,
}

-- Both sides of the book hold sound levels, each price once.
pub record IsBookValid (b : OrderBook) : Type 0 where
  pub bids : IsSideValid Side.buy b.bids
  pub asks : IsSideValid Side.sell b.asks

pub side_of : (s : Side) (b : OrderBook) → IsBookValid b → IsSideValid s (levels s b)
side_of Side.buy b v = v.bids
side_of Side.sell b v = v.asks

length-insert_level :
    (s : Side) (p : ℤ) (q : OrderQueue) (l : Levels)
    → length (orders_of (insert_level s p q l)) ≡ length q.orders + length (orders_of l)
length-insert_level s p q [] = length-append q.orders []
length-insert_level s p q ((r, w) ∷ l) = ground (
  arith,
  length-insert_level s p q l,
  length-append w.orders (orders_of (insert_level s p q l)),
  length-append w.orders (orders_of l),
  length-append q.orders (w.orders ++ orders_of l),
)

length-orders_of : (s : Side) (m : Levels) → length (orders_of (sort_levels s m)) ≡ resting_count m
length-orders_of s [] = refl
length-orders_of s ((p, q) ∷ m) =
    omega (arith, length-insert_level s p q (sort_levels s m), length-orders_of s m)

-- The code's loop ends within its fuel and does exactly what one pass over the makers does: it
-- leaves the same orders, the same remainder and the same trades, on a valid side.
pub match_order-Sweeps :
    (env : Env) (taker : Order) (b : OrderBook)
    → IsBookValid b
    → Sweeps env taker b (makers (opposite taker.side) b) (match_order env taker b)
unfolding match_order
match_order-Sweeps env taker b v =
    match_loop-Sweeps env (makers (opposite taker.side) b)
      (suc (suc (resting_count (levels (opposite taker.side) b)))) taker b
      (omega (arith, length-orders_of (opposite taker.side) (levels (opposite taker.side) b)))
      (side_of (opposite taker.side) b v) refl

-- The taker's own side stays as it was, and so does the market.
pub record Keeps (s : Side) (b c : OrderBook) : Type 0 where
  pub own : levels s c ≡ levels s b
  pub market : c.market ≡ b.market

pub match_order-Keeps :
    (env : Env) (taker : Order) (b : OrderBook) → Keeps taker.side b (match_order env taker b).book
unfolding match_order
match_order-Keeps env taker b =
    match_loop_inv taker.side (Keeps taker.side b)
      (λ qty m c _ _ h. record {
        own =
            levels-count_trade taker.side (fill_best (opposite taker.side) qty c).0
            ∙ own-fill_best taker.side qty c
            ∙ h.own;
        market =
            market-count_trade (fill_best (opposite taker.side) qty c).0
            ∙ market-fill_best (opposite taker.side) qty c
            ∙ h.market;
      })
      env (suc (suc (resting_count (levels (opposite taker.side) b)))) taker b refl
      (record { own = refl; market = refl })

pub book_of_sides :
    (s : Side) (b : OrderBook)
    → IsSideValid s (levels s b)
    → IsSideValid (opposite s) (levels (opposite s) b)
    → IsBookValid b
book_of_sides Side.buy b own other = record { bids = own; asks = other }
book_of_sides Side.sell b own other = record { bids = other; asks = own }

pub match_order-IsBookValid :
    (env : Env) (taker : Order) (b : OrderBook)
    → IsBookValid b
    → IsBookValid (match_order env taker b).book
match_order-IsBookValid env taker b v =
    book_of_sides taker.side (match_order env taker b).book
      (rw (match_order-Keeps env taker b).own (side_of taker.side b v))
      (match_order-Sweeps env taker b v).valid

-- What the trades sum to, and what rests on a side.
abbrev pub traded : List Trade → ℕ
traded ts = sum_by (λ (t : Trade). t.size) ts

abbrev pub depth : Side → OrderBook → ℕ
depth s b = sum_by (λ (o : Order). o.remaining) (makers s b)

traded-trades_of :
    (env : Env) (taker : Order) (k : ℕ) (fs : List Fill)
    → traded (trades_of (λ j. make_trade env j taker) k fs) ≡ filled fs
traded-trades_of env taker k [] = refl
traded-trades_of env taker k (f ∷ fs) = omega (arith, traded-trades_of env taker (suc k) fs)

-- Matching a taker against a valid book conserves sizes: what the taker loses is what its trades
-- sum to, and the other side of the book loses exactly as much.
pub match_order_conserves :
    (env : Env) (taker : Order) (b : OrderBook)
    → IsBookValid b
    → let r = match_order env taker b in
      (r.taker.remaining + traded r.trades ≡ taker.remaining)
      × (depth (opposite taker.side) r.book + traded r.trades ≡ depth (opposite taker.side) b)
match_order_conserves env taker b v =
    let h = match_order-Sweeps env taker b v in
    let ms = makers (opposite taker.side) b in
    let w = sweep (refuses taker) taker.remaining ms in
    let c = sweep_conserves (refuses taker) taker.remaining ms in
    rw (h.trades, traded-trades_of env taker b.trade_count w.fills, h.rest, h.taker_left) c

-- A trade price as the limit of an order allows it.
abbrev pub WithinLimit : OrderType → Side → ℤ → ℤ → Type 0
WithinLimit OrderType.limit Side.buy bound p = p ≤ℤ bound
WithinLimit OrderType.limit Side.sell bound p = bound ≤ℤ p
WithinLimit OrderType.market _ bound p = Unit

abbrev pub BeyondLimit : OrderType → Side → ℤ → ℤ → Type 0
BeyondLimit OrderType.limit Side.buy bound p = bound <ℤ p
BeyondLimit OrderType.limit Side.sell bound p = p <ℤ bound
BeyondLimit OrderType.market _ bound p = ⊥

pub WithinLimit_lem :
    (t : OrderType) (s : Side) (bound p : ℤ)
    → (is_limit t && falls_short s bound p) ≡ false
    → WithinLimit t s bound p
WithinLimit_lem OrderType.limit Side.buy bound p h = ground arith
WithinLimit_lem OrderType.limit Side.sell bound p h = ground arith
WithinLimit_lem OrderType.market s bound p h = tt

pub BeyondLimit_lem :
    (t : OrderType) (s : Side) (bound p : ℤ)
    → (is_limit t && falls_short s bound p) ≡ true
    → BeyondLimit t s bound p
BeyondLimit_lem OrderType.limit Side.buy bound p h = ground arith
BeyondLimit_lem OrderType.limit Side.sell bound p h = ground arith
BeyondLimit_lem OrderType.market s bound p h = absurd (ground arith)

-- A trade that the taker can want: not empty, at a price within its limit, against the other side.
pub record IsProper (taker : Order) (t : Trade) : Type 0 where
  pub nonempty : 0 < t.size
  pub priced : WithinLimit taker.order_type taker.side taker.price t.price
  pub named : (t.taker_order_id ≡ taker.id) × (t.maker_side ≡ opposite taker.side)

trades_of-IsProper :
    (env : Env) (taker : Order) (k : ℕ) (fs : List Fill)
    → All (IsFair (refuses taker)) fs
    → All (IsProper taker) (trades_of (λ j. make_trade env j taker) k fs)
trades_of-IsProper env taker k [] h = tt
trades_of-IsProper env taker k (f ∷ fs) h = (
  record {
    nonempty = h.0.some_filled;
    priced = WithinLimit_lem taker.order_type taker.side taker.price f.maker.price h.0.accepted;
    named = (refl, refl);
  },
  trades_of-IsProper env taker (suc k) fs h.1,
)

AllLevels-left :
    (s : Side) (l : Levels) → AllLevels s l → All (λ (o : Order). 0 < o.remaining) (orders_of l)
AllLevels-left s [] a = tt
AllLevels-left s ((p, q) ∷ l) a =
    All-append (λ (o : Order). 0 < o.remaining) q.orders (orders_of l)
      (All-map (λ o (r : IsResting s p o). r.left) q.orders a.0.resting) (AllLevels-left s l a.1)

makers-left :
    (s : Side) (b : OrderBook) → IsBookValid b → All (λ (o : Order). 0 < o.remaining) (makers s b)
makers-left s b v =
    AllLevels-left s (sort_levels s (levels s b))
      (AllLevels-sort_levels s (levels s b) (side_of s b v).sound)

-- Every trade of a taker on a valid book has a positive size and a price within the taker's limit
-- (a buy pays at most its price, a sell gets at least its price), and names the taker.
pub match_order-IsProper :
    (env : Env) (taker : Order) (b : OrderBook)
    → IsBookValid b
    → All (IsProper taker) (match_order env taker b).trades
match_order-IsProper env taker b v =
    let h = match_order-Sweeps env taker b v in
    let ms = makers (opposite taker.side) b in
    let w = sweep (refuses taker) taker.remaining ms in
    rw h.trades (
      trades_of-IsProper env taker b.trade_count w.fills
        (sweep-IsFair (refuses taker) taker.remaining ms (makers-left (opposite taker.side) b v)))

Blocked-first :
    (refused : ℤ → Bool) (ms : List Order) (m : Order)
    → Blocked refused ms
    → first ms ≡ some m
    → refused m.price ≡ true
Blocked-first refused [] m h e = absurd (ground arith)
Blocked-first refused (x ∷ ms) m h e = ground (arith, h)

-- Matching goes as far as it can on a valid book: if something of the taker is left, then the best
-- order that still rests on the other side is at a price beyond the taker's limit.
pub match_order_completes :
    (env : Env) (taker m : Order) (b : OrderBook)
    → IsBookValid b
    → 0 < (match_order env taker b).taker.remaining
    → peek_best (opposite taker.side) (match_order env taker b).book ≡ some m
    → BeyondLimit taker.order_type taker.side taker.price m.price
match_order_completes env taker m b v more best =
    BeyondLimit_lem taker.order_type taker.side taker.price m.price
      (elim (sweep_completes (refuses taker) taker.remaining ms) [
        | inl none_left ↦ absurd (omega (arith, more, ap (λ (o : Order). o.remaining) h.taker_left))
        | inr blocked ↦ Blocked-first (refuses taker) _ m blocked (
            sym (ap first h.rest)
            ∙ sym (peek_best-eq-first (opposite taker.side) r.book h.valid)
            ∙ best)
      ])
  where
    ms : List Order
    ms = makers (opposite taker.side) b

    r : Matched
    r = match_order env taker b

    h : Sweeps env taker b ms r
    h = match_order-Sweeps env taker b v
