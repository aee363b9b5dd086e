-- ===== src/Engine/Tests.antt =====
-- A small market, run through the engine, and the theorems of the engine at it.
use sur_protocol.Common.{ℕ, ◌+◌, pos, false, ◌≡◌, refl, [], ◌∷◌, ◌⊎◌, arith, All, map}
use sur_protocol.Types.{Side, OrderType, TimeInForce, OrderStatus, MarketConfig, Order, Trade}
use sur_protocol.Engine.Queue.{front, push, pop_front, reduce_front, is_empty}
use sur_protocol.Engine.Book.{
  sorted_prices, best_price, place_order, peek_best, fill_best, count_trade,
}
use sur_protocol.Engine.Book.Makers.{makers}
use sur_protocol.Engine.Book.Placing.{place, makers-place_order}
use sur_protocol.Engine.Matching.{
  Env, MatchingEngine, submit_order, match_order, match_loop, match_round, validate, would_match,
  execute, handle_remaining,
}
use sur_protocol.Engine.Matching.Loop.{Sweeps}
use sur_protocol.Engine.Matching.Execution.{
  IsBookValid, match_order-Sweeps, match_order_conserves, match_order-IsProper, IsProper,
  match_order_completes, BeyondLimit, traded, depth,
}
use sur_protocol.Engine.Matching.Submit.{submit_order-IsBookValid}
use sur_protocol.Engine.Matching.Uncrossed.{IsUncrossed, submit_order-IsUncrossed}
use sur_protocol.Engine.Matching.Policies.{fok_all_or_nothing, post_only_never_takes}
use sur_protocol.Engine.Book.Index.{IsIndexed}
use sur_protocol.Engine.Book.{levels, cancel_order}
use sur_protocol.Engine.Book.Withdrawing.{cancel_order-makers, cancel_order-IsSideValid}
use sur_protocol.Engine.Book.Validity.{IsSideValid}
use sur_protocol.Engine.Book.Reindexing.{cancel_order-IsIndexed}
use sur_protocol.Common.Dict.{erase}
use sur_protocol.Common.{some, nat_eq}
use sur_protocol.Engine.Matching.Indexing.{submit_order-IsIndexed}

abbrev market : MarketConfig
market = record { id = 1; tick_size = 10; lot_size = 5; min_size = 5 }

abbrev env : Env
env = record { uuid = λ k. 1000 + k; now = λ k. k }

abbrev an_order : ℕ → Side → TimeInForce → ℕ → ℕ → Order
an_order id side tif price size = record {
  id = id;
  trader = id;
  market_id = 1;
  side = side;
  order_type = OrderType.limit;
  price = pos price;
  size = size;
  remaining = size;
  time_in_force = tif;
  status = OrderStatus.opened;
  nonce = pos 0;
  expiry = pos 0;
  signature = 0;
  created_at = 0;
  hidden = false;
}

abbrev engine0 : MatchingEngine
engine0 = record {
  book = record { market = market; bids = []; asks = []; order_index = []; trade_count = 0 };
  all_trades = [];
}

engine1 : MatchingEngine
engine1 = (submit_order env (an_order 1 Side.sell TimeInForce.gtc 110 10) engine0).engine

engine2 : MatchingEngine
unfolding engine1
engine2 = (submit_order env (an_order 2 Side.sell TimeInForce.gtc 100 20) engine1).engine

engine3 : MatchingEngine
unfolding engine2
engine3 = (submit_order env (an_order 3 Side.buy TimeInForce.gtc 90 20) engine2).engine

-- The book holds two asks and a bid, and none of the two sides reaches the other.
engine0-IsBookValid : IsBookValid engine0.book
engine0-IsBookValid = record {
  bids = record { distinct = tt; sound = tt };
  asks = record { distinct = tt; sound = tt };
}

engine1-IsBookValid : IsBookValid engine1.book
unfolding engine1
engine1-IsBookValid =
    submit_order-IsBookValid env (an_order 1 Side.sell TimeInForce.gtc 110 10) engine0
      engine0-IsBookValid

engine2-IsBookValid : IsBookValid engine2.book
unfolding engine2
engine2-IsBookValid =
    submit_order-IsBookValid env (an_order 2 Side.sell TimeInForce.gtc 100 20) engine1
      engine1-IsBookValid

engine3-IsBookValid : IsBookValid engine3.book
unfolding engine3
engine3-IsBookValid =
    submit_order-IsBookValid env (an_order 3 Side.buy TimeInForce.gtc 90 20) engine2
      engine2-IsBookValid

engine2-IsUncrossed : IsUncrossed engine2.book
unfolding engine2 engine1
engine2-IsUncrossed =
    submit_order-IsUncrossed env (an_order 2 Side.sell TimeInForce.gtc 100 20) engine1
      engine1-IsBookValid
      (submit_order-IsUncrossed env (an_order 1 Side.sell TimeInForce.gtc 110 10) engine0
        engine0-IsBookValid tt)

-- A buy of 25 at 110 takes the 20 offered at 100 first, and then 5 of the 10 offered at 110.
abbrev taker : Order
taker = an_order 9 Side.buy TimeInForce.fok 110 25

-- Everything that a run of the engine computes with.
run : Order → MatchingEngine → MatchingEngine
unfolding sorted_prices best_price place_order peek_best fill_best count_trade front push pop_front
    reduce_front is_empty match_order match_loop match_round validate would_match execute
    handle_remaining submit_order
run o g = (submit_order env o g).engine

taker_trades :
    map (λ (t : Trade). t.price) (match_order env taker engine3.book).trades
    ≡ pos 100 ∷ pos 110 ∷ []
unfolding engine3 run
taker_trades = refl

match_order-Sweeps_example :
    Sweeps env taker engine3.book
      (makers Side.sell engine3.book)
      (match_order env taker engine3.book)
match_order-Sweeps_example = match_order-Sweeps env taker engine3.book engine3-IsBookValid

match_order_conserves_example :
    let r = match_order env taker engine3.book in
    (r.taker.remaining + traded r.trades ≡ 25)
    × (depth Side.sell r.book + traded r.trades ≡ depth Side.sell engine3.book)
match_order_conserves_example = match_order_conserves env taker engine3.book engine3-IsBookValid

match_order-IsProper_example : All (IsProper taker) (match_order env taker engine3.book).trades
match_order-IsProper_example = match_order-IsProper env taker engine3.book engine3-IsBookValid

submit_order-IsBookValid_example : IsBookValid (submit_order env taker engine3).engine.book
submit_order-IsBookValid_example = submit_order-IsBookValid env taker engine3 engine3-IsBookValid

submit_order-IsUncrossed_example :
    IsUncrossed (submit_order env (an_order 3 Side.buy TimeInForce.gtc 90 20) engine2).engine.book
submit_order-IsUncrossed_example =
    submit_order-IsUncrossed env (an_order 3 Side.buy TimeInForce.gtc 90 20) engine2
      engine2-IsBookValid engine2-IsUncrossed

fok_all_or_nothing_example :
    let r = submit_order env taker engine3 in
    ((r.engine ≡ engine3) × (r.result.trades ≡ []))
    ⊎ ((r.result.status ≡ OrderStatus.filled)
        × (r.result.remaining ≡ 0)
        × (traded r.result.trades ≡ 25))
fok_all_or_nothing_example = fok_all_or_nothing env taker engine3 engine3-IsBookValid refl

post_only_never_takes_example :
    (submit_order env (an_order 8 Side.buy TimeInForce.post_only 90 10) engine3).result.trades ≡ []
post_only_never_takes_example =
    post_only_never_takes env (an_order 8 Side.buy TimeInForce.post_only 90 10) engine3
      engine3-IsBookValid refl refl

-- A buy of 35 at 100 takes all at 100, and the next offer, at 110, is beyond its limit.
abbrev big_taker : Order
big_taker = an_order 9 Side.buy TimeInForce.gtc 100 35

abbrev next_offer : Order
next_offer = an_order 1 Side.sell TimeInForce.gtc 110 10

match_order_completes_example : BeyondLimit OrderType.limit Side.buy (pos 100) (pos 110)
unfolding engine3 run
match_order_completes_example =
    match_order_completes env big_taker next_offer engine3.book engine3-IsBookValid (omega arith)
      refl

makers-place_order_example :
    makers Side.sell (place_order (an_order 7 Side.sell TimeInForce.gtc 100 5) engine3.book)
    ≡ place Side.sell (an_order 7 Side.sell TimeInForce.gtc 100 5) (makers Side.sell engine3.book)
makers-place_order_example =
    makers-place_order (an_order 7 Side.sell TimeInForce.gtc 100 5) engine3.book
      engine3-IsBookValid.asks

engine0-IsIndexed : IsIndexed engine0.book
engine0-IsIndexed = record {
  distinct = tt;
  bids = tt;
  asks = tt;
  bid_ids = tt;
  ask_ids = tt;
  counted = refl;
}

engine1-IsIndexed : IsIndexed engine1.book
unfolding engine1
engine1-IsIndexed =
    submit_order-IsIndexed env (an_order 1 Side.sell TimeInForce.gtc 110 10) engine0
      engine0-IsBookValid engine0-IsIndexed refl

engine2-IsIndexed : IsIndexed engine2.book
unfolding engine2 engine1 run
engine2-IsIndexed =
    submit_order-IsIndexed env (an_order 2 Side.sell TimeInForce.gtc 100 20) engine1
      engine1-IsBookValid engine1-IsIndexed refl

submit_order-IsIndexed_example : IsIndexed (submit_order env taker engine2).engine.book
unfolding engine2 engine1 run
submit_order-IsIndexed_example =
    submit_order-IsIndexed env taker engine2 engine2-IsBookValid engine2-IsIndexed refl

-- The second of the two offers is cancelled.
cancel_order-makers_example :
    let (b', found) = cancel_order engine2.book 1 in
    (found ≡ some (an_order 1 Side.sell TimeInForce.gtc 110 10))
    × (makers Side.sell b' ≡ an_order 2 Side.sell TimeInForce.gtc 100 20 ∷ [])
    × (levels Side.buy b' ≡ levels Side.buy engine2.book)
    × (b'.order_index ≡ erase 1 engine2.book.order_index)
unfolding engine2 engine1 run
cancel_order-makers_example =
    cancel_order-makers Side.sell engine2.book (an_order 2 Side.sell TimeInForce.gtc 100 20 ∷ []) []
      (an_order 1 Side.sell TimeInForce.gtc 110 10) engine2-IsBookValid.asks engine2-IsIndexed refl

cancel_order-IsIndexed_example : IsIndexed (cancel_order engine2.book 1).0
unfolding engine2 engine1 run
cancel_order-IsIndexed_example =
    cancel_order-IsIndexed Side.sell engine2.book (an_order 2 Side.sell TimeInForce.gtc 100 20 ∷ [])
      [] (an_order 1 Side.sell TimeInForce.gtc 110 10) engine2-IsBookValid.asks engine2-IsIndexed
      refl

cancel_order-IsSideValid_example :
    IsSideValid Side.sell (levels Side.sell (cancel_order engine2.book 1).0)
unfolding engine2 engine1 run
cancel_order-IsSideValid_example =
    cancel_order-IsSideValid Side.sell engine2.book
      (an_order 2 Side.sell TimeInForce.gtc 100 20 ∷ []) []
      (an_order 1 Side.sell TimeInForce.gtc 110 10) engine2-IsBookValid.asks engine2-IsIndexed refl
