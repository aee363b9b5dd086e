-- ===== src/Engine/Book.antt =====
-- `OrderBook` of api/src/engine/matching.ts. Its code for bids and for asks is the same up to the
-- order of prices, so the operations here take the side.
pub mod Sorting
pub mod Validity
pub mod Makers
pub mod Frame
pub mod Placing
pub mod Ranking
pub mod Depth
pub mod Index
pub mod Cancelling
pub mod Withdrawing
pub mod Reindexing
pub mod CancelSafety
use sur_protocol.Common.{
  ℕ, suc, ◌+◌, ◌-◌, ℤ, ◌-ℤ◌, ltb_ℤ, Bool, true, false, List, [], ◌∷◌, Option, none, some,
  if◌then◌else◌, leb, ltb, length, keep, take, nat_eq, int_eq,
}
use sur_protocol.Common.Dict.{Dict, lookup, insert, erase, keys}
use sur_protocol.Types.{Side, Order, OrderStatus, MarketConfig, PriceLevel, OrderbookSnapshot}
use sur_protocol.Engine.Queue.{
  OrderQueue, empty_queue, push, front, pop_front, remove_by_id, is_empty, reduce_front,
  visible_count,
}

-- The entries of one side of the book, a `Map<bigint, OrderQueue>`.
abbrev pub Levels : Type 0
Levels = Dict ℤ OrderQueue

pub record IndexEntry : Type 0 where
  pub side : Side
  pub price : ℤ

pub record OrderBook : Type 0 where
  pub market : MarketConfig
  pub bids : Levels
  pub asks : Levels
  pub order_index : Dict ℕ IndexEntry
  pub trade_count : ℕ

-- `new OrderBook(market)`
unfoldable pub init : MarketConfig → OrderBook
init market = record { market = market; bids = []; asks = []; order_index = []; trade_count = 0 }

-- `side === "buy" ? this.bids : this.asks`
abbrev pub levels : Side → OrderBook → Levels
levels Side.buy b = b.bids
levels Side.sell b = b.asks

abbrev pub set_levels : Side → Levels → OrderBook → OrderBook
set_levels Side.buy m b = record b { bids = m }
set_levels Side.sell m b = record b { asks = m }

-- Which of two prices a side serves first: the higher bid, the lower ask.
abbrev pub better : Side → ℤ → ℤ → Bool
better Side.buy p q = ltb_ℤ q p
better Side.sell p q = ltb_ℤ p q

-- `[...].sort(compare)` with the comparator of the side.
abbrev pub insert_price : Side → ℤ → List ℤ → List ℤ
insert_price s p [] = p ∷ []
insert_price s p (q ∷ qs) = if better s p q then p ∷ q ∷ qs else q ∷ insert_price s p qs

abbrev pub sort_prices : Side → List ℤ → List ℤ
sort_prices s [] = []
sort_prices s (p ∷ ps) = insert_price s p (sort_prices s ps)

-- `sortedBidPrices` and `sortedAskPrices`
unfoldable pub sorted_prices : Side → OrderBook → List ℤ
sorted_prices s b = sort_prices s (keys (levels s b))

abbrev head_price : List ℤ → Option ℤ
head_price [] = none
head_price (p ∷ _) = some p

-- `bestBid` and `bestAsk`
unfoldable pub best_price : Side → OrderBook → Option ℤ
best_price s b = head_price (sorted_prices s b)

pub record Spread : Type 0 where
  pub bid : ℤ
  pub ask : ℤ
  pub spread : ℤ

pub spread : OrderBook → Option Spread
spread b = elim (best_price Side.buy b) [
  | none ↦ none
  | some bid ↦ elim (best_price Side.sell b) [
    | none ↦ none
    | some ask ↦ some (record { bid = bid; ask = ask; spread = ask -ℤ bid })
  ]
]

unfoldable pub active_order_count : OrderBook → ℕ
active_order_count b = length b.order_index

-- The queue at a price that is a key of the map (the source's `get(price)!`).
abbrev pub queue_at : ℤ → Levels → OrderQueue
queue_at p m = elim (lookup p m) [ none ↦ empty_queue | some q ↦ q ]

level_view : Levels → ℤ → PriceLevel
level_view m p = record {
  price = p;
  total_size = (queue_at p m).visible_size;
  order_count = visible_count (queue_at p m);
}

level_views : Levels → List ℤ → List PriceLevel
level_views m [] = []
level_views m (p ∷ ps) = level_view m p ∷ level_views m ps

-- `topBids` and `topAsks`
unfoldable pub top_levels : Side → OrderBook → ℕ → List PriceLevel
unfolding level_views level_view
top_levels s b n =
    take n (keep (λ l. ltb 0 l.total_size) (level_views (levels s b) (sorted_prices s b)))

-- `now` is what `Date.now()` returns.
pub snapshot : OrderBook → ℕ → ℕ → OrderbookSnapshot
snapshot b depth now = record {
  market_id = b.market.id;
  bids = top_levels Side.buy b depth;
  asks = top_levels Side.sell b depth;
  timestamp = now;
}

abbrev push_level : Order → Levels → Levels
push_level o m = insert o.price (push (queue_at o.price m) o) m

unfoldable pub place_order : Order → OrderBook → OrderBook
place_order o b = record (set_levels o.side (push_level o (levels o.side b)) b) {
  order_index = insert o.id (record { side = o.side; price = o.price }) b.order_index;
}

-- The map after the queue at a price has changed: an emptied queue is deleted.
abbrev pub store_level : ℤ → OrderQueue → Levels → Levels
store_level p q m = if is_empty q then erase p m else insert p q m

abbrev cancel_found :
    ℕ → IndexEntry → OrderBook → OrderQueue × Option Order → OrderBook × Option Order
cancel_found i e b (q, none) = (b, none)
cancel_found i e b (q, some o) = (
  record (set_levels e.side (store_level e.price q (levels e.side b)) b) {
    order_index = erase i b.order_index;
  },
  some o,
)

abbrev cancel_at : ℕ → IndexEntry → OrderBook → Option OrderQueue → OrderBook × Option Order
cancel_at i e b none = (b, none)
cancel_at i e b (some q) = cancel_found i e b (remove_by_id q i)

unfoldable pub cancel_order : OrderBook → ℕ → OrderBook × Option Order
cancel_order b i = elim (lookup i b.order_index) [
  | none ↦ (b, none)
  | some e ↦ cancel_at i e b (lookup e.price (levels e.side b))
]

abbrev front_of : Option OrderQueue → Option Order
front_of none = none
front_of (some q) = front q

-- `peekBestBid` and `peekBestAsk`
unfoldable pub peek_best : Side → OrderBook → Option Order
peek_best s b = elim (best_price s b) [ none ↦ none | some p ↦ front_of (lookup p (levels s b)) ]

abbrev set_front_status : OrderStatus → List Order → List Order
set_front_status st [] = []
set_front_status st (o ∷ os) = record o { status = st } ∷ os

-- The end of a fill, once the front of the queue is reduced: an order with nothing left leaves the
-- queue and the index, and any other stays, partially filled.
abbrev fill_rest : Side → ℤ → OrderBook → OrderQueue → Option Order → OrderBook × Option Order
fill_rest s p b q none = (set_levels s (insert p q (levels s b)) b, none)
fill_rest s p b q (some o) =
    if leb o.remaining 0
    then (
      record (set_levels s (store_level p (pop_front q).0 (levels s b)) b) {
        order_index = erase o.id b.order_index;
      },
      some (record o { status = OrderStatus.filled }),
    )
    else (
      set_levels s
          (insert p (record q { orders = set_front_status OrderStatus.partially_filled q.orders })
            (levels s b))
          b,
      none,
    )

abbrev fill_level : Side → ℕ → ℤ → OrderBook → OrderQueue → OrderBook × Option Order
fill_level s qty p b q = elim (front q) [
  | none ↦ (b, none)
  | some _ ↦ fill_rest s p b (reduce_front q qty) (front (reduce_front q qty))
]

-- `fillBestBid` and `fillBestAsk`
unfoldable pub fill_best : Side → ℕ → OrderBook → OrderBook × Option Order
fill_best s qty b = elim (best_price s b) [
  | none ↦ (b, none)
  | some p ↦ fill_level s qty p b (queue_at p (levels s b))
]

-- `book.tradeCount++`
unfoldable pub count_trade : OrderBook → OrderBook
count_trade b = record b { trade_count = suc b.trade_count }
