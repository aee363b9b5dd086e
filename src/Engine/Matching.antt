-- ===== src/Engine/Matching.antt =====
-- `MatchingEngine` and `createOrder` of api/src/engine/matching.ts. The code for a buy and for a
-- sell is the same up to the order of prices, so the functions here take the side of the taker.
pub mod Sweep
pub mod Loop
pub mod Execution
pub mod Submit
pub mod Uncrossed
pub mod Policies
pub mod Indexing
pub mod Cancellation
use sur_protocol.Common.{
  ℕ, zero, suc, ◌+◌, ◌-◌, ◌%◌, ℤ, ltb_ℤ, leb_ℤ, eqb_ℤ, pos, abs, Bool, true, false, not, ◌&&◌, List,
  [], ◌∷◌, ◌++◌, Option, none, some, if◌then◌else◌, ◌==◌, leb, ltb, length, slice_last,
}
use sur_protocol.Types.{
  Side, OrderType, TimeInForce, OrderStatus, Order, Trade, PriceLevel, MarketConfig, opposite,
  is_limit,
}
use sur_protocol.Engine.Book
use sur_protocol.Engine.Book.{
  Levels, OrderBook, levels, best_price, top_levels, place_order, cancel_order, peek_best,
  fill_best, count_trade,
}

pub record MatchResult : Type 0 where
  pub order_id : ℕ
  pub status : OrderStatus
  pub trades : List Trade
  pub remaining : ℕ

pub record MatchingEngine : Type 0 where
  pub book : OrderBook
  pub all_trades : List Trade

-- What `randomUUID()` and `Date.now()` return at the k-th trade of the book.
pub record Env : Type 0 where
  pub uuid : ℕ → ℕ
  pub now : ℕ → ℕ

-- `new MatchingEngine(market)`
unfoldable pub init : MarketConfig → MatchingEngine
init m = record { book = Book.init m; all_trades = [] }

-- The reasons of `validate`, as values.
pub data Rejection : Type 0 where
  zero_size needs_price below_min_size lot_misaligned tick_misaligned : Rejection

-- A remainder of a signed number is zero exactly when that of its magnitude is. Tick and lot sizes
-- are positive (api/src/config/markets.ts): at zero the source's `%` would throw.
unfoldable pub validate : MarketConfig → Order → Option Rejection
validate m o =
    if o.size == 0
    then some zero_size
    else if is_limit o.order_type && eqb_ℤ o.price (pos 0)
    then some needs_price
    else if ltb o.size m.min_size
    then some below_min_size
    else if not (o.size % m.lot_size == 0)
    then some lot_misaligned
    else if is_limit o.order_type && not (abs o.price % m.tick_size == 0)
    then some tick_misaligned
    else none

-- `order.price >= bestAsk` for a buy, `order.price <= bestBid` for a sell.
abbrev pub reaches : Side → ℤ → ℤ → Bool
reaches Side.buy p q = leb_ℤ q p
reaches Side.sell p q = leb_ℤ p q

-- `taker.price < maker.price` for a buy, `taker.price > maker.price` for a sell.
abbrev pub falls_short : Side → ℤ → ℤ → Bool
falls_short Side.buy p q = ltb_ℤ p q
falls_short Side.sell p q = ltb_ℤ q p

-- A limit order does not trade at the price `q`.
abbrev pub refuses : Order → ℤ → Bool
refuses taker q = is_limit taker.order_type && falls_short taker.side taker.price q

unfoldable pub would_match : Order → OrderBook → Bool
would_match o b = elim (best_price (opposite o.side) b) [
  | none ↦ false
  | some p ↦ reaches o.side o.price p
]

-- The loop of `canFillEntirely` over the visible levels.
unfoldable pub fills_from : Order → ℕ → List PriceLevel → Bool
fills_from o left [] = left == 0
fills_from o left (l ∷ ls) =
    let after = left - (if ltb left l.total_size then left else l.total_size) in
    let rest = fills_from o after ls in
    if refuses o l.price then left == 0 else (if after == 0 then true else rest)

unfoldable pub can_fill_entirely : Order → OrderBook → Bool
can_fill_entirely o b = fills_from o o.remaining (top_levels (opposite o.side) b 100)

abbrev pub fill_qty : Order → Order → ℕ
fill_qty taker maker =
    if ltb taker.remaining maker.remaining then taker.remaining else maker.remaining

abbrev pub make_trade : Env → ℕ → Order → Order → ℕ → Trade
make_trade env k taker maker qty = record {
  id = env.uuid k;
  market_id = taker.market_id;
  price = maker.price;
  size = qty;
  maker_order_id = maker.id;
  taker_order_id = taker.id;
  maker_trader = maker.trader;
  taker_trader = taker.trader;
  maker_side = opposite taker.side;
  taker_side = taker.side;
  timestamp = env.now k;
}

-- The variables of the loop of `matchOrder` after one round, with the trade that it made.
pub record Round : Type 0 where
  pub trade : Trade
  pub taker : Order
  pub book : OrderBook

-- One round of the loop, or none where the loop ends.
unfoldable pub match_round : Env → Order → OrderBook → Option Round
match_round env taker b =
    if leb taker.remaining 0 then none else elim (peek_best (opposite taker.side) b) [
      | none ↦ none
      | some maker ↦
          if refuses taker maker.price
          then none
          else some (record {
            trade = make_trade env b.trade_count taker maker (fill_qty taker maker);
            taker = record taker { remaining = taker.remaining - fill_qty taker maker };
            book = count_trade (fill_best (opposite taker.side) (fill_qty taker maker) b).0;
          })
    ]

-- What `matchOrder` leaves: the book, the taker with what remains of it, and the trades in order.
pub record Matched : Type 0 where
  pub book : OrderBook
  pub taker : Order
  pub trades : List Trade

unfoldable pub match_loop : Env → ℕ → Order → OrderBook → Matched
match_loop env zero taker b = record { book = b; taker = taker; trades = [] }
match_loop env (suc fuel) taker b = elim (match_round env taker b) [
  | none ↦ record { book = b; taker = taker; trades = [] }
  | some r ↦ let m = match_loop env fuel r.taker r.book in record m { trades = r.trade ∷ m.trades }
]

-- How many orders rest on a side.
abbrev pub resting_count : Levels → ℕ
resting_count [] = 0
resting_count ((p, q) ∷ m) = length q.orders + resting_count m

-- Each round takes an order out of the book or is the last but one: the fuel suffices.
unfoldable pub match_order : Env → Order → OrderBook → Matched
match_order env taker b =
    match_loop env (suc (suc (resting_count (levels (opposite taker.side) b)))) taker b

abbrev pub no_trades : List Trade → Bool
no_trades [] = true
no_trades (_ ∷ _) = false

abbrev pub is_resting_tif : TimeInForce → Bool
is_resting_tif TimeInForce.gtc = true
is_resting_tif TimeInForce.post_only = true
is_resting_tif TimeInForce.ioc = false
is_resting_tif TimeInForce.fok = false

abbrev pub is_post_only : TimeInForce → Bool
is_post_only TimeInForce.post_only = true
is_post_only _ = false

abbrev pub is_fok : TimeInForce → Bool
is_fok TimeInForce.fok = true
is_fok _ = false

-- "Handle remaining": the order's final status, and the book with the order placed if it rests.
unfoldable pub handle_remaining : Matched → Order × OrderBook
handle_remaining m =
    if m.taker.remaining == 0
    then (record (m.taker) { status = OrderStatus.filled }, m.book)
    else if is_resting_tif m.taker.time_in_force
    then (if is_limit m.taker.order_type
        then (let resting = record (m.taker) {
          status = if no_trades m.trades then OrderStatus.opened else OrderStatus.partially_filled;
        } in
            (resting, place_order resting m.book))
        else (m.taker, m.book))
    else (
      record (m.taker) {
        status = if no_trades m.trades then OrderStatus.cancelled else OrderStatus.partially_filled;
      },
      m.book,
    )

-- A submission returns the engine, the order as it was mutated, and the result.
pub record Submitted : Type 0 where
  pub engine : MatchingEngine
  pub order : Order
  pub result : MatchResult

-- An early return of `submitOrder`: nothing but the order's status changes.
abbrev pub refuse : OrderStatus → Order → MatchingEngine → Submitted
refuse st o g = record {
  engine = g;
  order = record o { status = st };
  result = record { order_id = o.id; status = st; trades = []; remaining = o.remaining };
}

-- "Match", "Handle remaining" and the result.
unfoldable pub execute : Order → MatchingEngine → Matched → Submitted
execute o g m =
    let (o', b') = handle_remaining m in
    record {
      engine = record { book = b'; all_trades = g.all_trades ++ m.trades };
      order = o';
      result = record {
        order_id = o'.id;
        status = o'.status;
        trades = m.trades;
        remaining = o'.remaining;
      };
    }

unfoldable pub submit_order : Env → Order → MatchingEngine → Submitted
submit_order env o g = elim (validate g.book.market o) [
  | some _ ↦ refuse OrderStatus.rejected o g
  | none ↦
      if is_post_only o.time_in_force && would_match o g.book
      then refuse OrderStatus.rejected o g
      else if is_fok o.time_in_force && not (can_fill_entirely o g.book)
      then refuse OrderStatus.cancelled o g
      else execute o g (match_order env o g.book)
]

-- `MatchingEngine.cancelOrder`
unfoldable pub cancel : MatchingEngine → ℕ → MatchingEngine × Option Order
cancel g i =
    let (b, found) = cancel_order g.book i in
    (
      record g { book = b },
      elim found [ none ↦ none | some o ↦ some (record o { status = OrderStatus.cancelled }) ],
    )

pub recent_trades : MatchingEngine → ℕ → List Trade
recent_trades g n = slice_last n g.all_trades

-- The fields that `createOrder` takes.
pub record OrderParams : Type 0 where
  pub trader : ℕ
  pub market_id : ℕ
  pub side : Side
  pub order_type : OrderType
  pub price : ℤ
  pub size : ℕ
  pub time_in_force : TimeInForce
  pub nonce : ℤ
  pub expiry : ℤ
  pub signature : ℕ
  pub hidden : Bool

-- `id` and `now` are what `randomUUID()` and `Date.now()` return.
unfoldable pub create_order : ℕ → ℕ → OrderParams → Order
create_order id now p = record {
  id = id;
  trader = p.trader;
  market_id = p.market_id;
  side = p.side;
  order_type = p.order_type;
  price = p.price;
  size = p.size;
  remaining = p.size;
  time_in_force = p.time_in_force;
  status = OrderStatus.opened;
  nonce = p.nonce;
  expiry = p.expiry;
  signature = p.signature;
  created_at = now;
  hidden = p.hidden;
}
