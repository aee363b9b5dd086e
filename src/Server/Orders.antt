-- ===== src/Server/Orders.antt =====
-- The handling of orders and the routing of messages of api/src/ws/server.ts.
use sur_protocol.Common.{
  ℕ, Bool, true, false, ◌||◌, List, [], ◌∷◌, ◌++◌, Option, none, some, if◌then◌else◌, ltb, length,
  nat_eq,
}
use sur_protocol.Common.Dict.{Dict, lookup, insert}
use sur_protocol.Types.{Order, OrderStatus, Trade}
use sur_protocol.Engine.Book.{OrderBook, snapshot, active_order_count}
use sur_protocol.Engine.Matching
use sur_protocol.Engine.Matching.{
  Env, MatchingEngine, MatchResult, Submitted, submit_order, OrderParams, create_order,
}
use sur_protocol.Settlement.Pipeline.{cache_order, queue_trade}
use sur_protocol.Server.RateLimiter.{check}
use sur_protocol.Server.Messages.{
  Text, SubmitOrderRequest, ClientMessage, ServerMessage, Reason, Failure, TradeMessage,
}
use sur_protocol.Server.Sessions.{
  ConnectedClient, Server, Sent, send, broadcast_to, subscribe_all, unsubscribe_all, AuthCheck,
  refused, to_verify, check_authentication,
}
use sur_protocol.Server.Requests.{Request, bad, good, check_request}

-- What the clock, `randomUUID()` and the engine's trades see while a message is handled.
pub record Moment : Type 0 where
  pub now : ℕ
  pub order_id : ℕ
  pub env : Env

-- `findOrderById`
abbrev pub find_order_by_id : ℕ → Server → Option Order
find_order_by_id id s = none

abbrev pub trade_message : Trade → TradeMessage
trade_message t = record {
  id = t.id;
  market_id = t.market_id;
  price = t.price;
  size = t.size;
  maker_side = t.maker_side;
  timestamp = t.timestamp;
}

-- "Queue for on-chain settlement"
abbrev pub queue_one : ℕ → Trade → Order → Server → Option Order → Server
queue_one now t order s none = s
queue_one now t order s (some maker) = record s {
  pipeline = queue_trade now t maker order s.pipeline;
}

-- "Process trades"
abbrev pub process_trades : Text → ℕ → Order → List Trade → Server → Server × Sent
process_trades text now order [] s = (s, [])
process_trades text now order (t ∷ ts) s =
    let s' = queue_one now t order s (find_order_by_id t.maker_order_id s) in
    let (u, sent) = process_trades text now order ts s' in
    (
      u,
      broadcast_to (text.trades_channel t.market_id) (ServerMessage.trade (trade_message t))
            s.clients
          ++ sent,
    )

abbrev pub update_message : ℕ → ℕ → OrderBook → ServerMessage
update_message now market b =
    let v = snapshot b 20 now in ServerMessage.orderbook_update market v.bids v.asks

abbrev pub is_rejected : OrderStatus → Bool
is_rejected OrderStatus.rejected = true
is_rejected _ = false

abbrev pub is_opened : OrderStatus → Bool
is_opened OrderStatus.opened = true
is_opened _ = false

abbrev pub some_trades : List Trade → Bool
some_trades [] = false
some_trades (_ ∷ _) = true

-- The server with the order cached and submitted to the engine of its market.
abbrev pub submitted : Order → Submitted → Server → Server
submitted order r s = record s {
  pipeline = cache_order order s.pipeline;
  engines = insert order.market_id r.engine s.engines;
}

-- From "Send order status to submitter" on.
abbrev pub report : Text → Moment → ℕ → ConnectedClient → Order → Submitted → Server → Server × Sent
report text m id c order r s =
    if is_rejected r.result.status
    then (
      s,
      send id c (ServerMessage.order_rejected (some r.result.order_id) Reason.validation_failed),
    )
    else (let (u, sent) = process_trades text m.now r.order r.result.trades s in
        (
          u,
          send id c (ServerMessage.order_accepted r.result.order_id r.result.status)
              ++ sent
              ++ (if some_trades r.result.trades || is_opened r.result.status
                  then broadcast_to (text.orderbook_channel order.market_id)
                      (update_message m.now order.market_id r.engine.book) u.clients
                  else []),
        ))

abbrev pub submit_params :
    Text → Moment → ℕ → ConnectedClient → OrderParams → MatchingEngine → Server → Server × Sent
submit_params text m id c p g s =
    let order = create_order m.order_id m.now p in
    let r = submit_order m.env order g in report text m id c order r (submitted order r s)

abbrev pub submit_request : Text → Moment → ℕ → ConnectedClient → Server → Request → Server × Sent
submit_request text m id c s (bad why) = (s, send id c (ServerMessage.order_rejected none why))
submit_request text m id c s (good p g) = submit_params text m id c p g s

unfoldable pub handle_submit_order :
    Text → Moment → ℕ → ConnectedClient → SubmitOrderRequest → Server → Server × Sent
handle_submit_order text m id c r s =
    submit_request text m id c s (check_request text m.now c.trader r s.engines)

-- The engines after a cancellation in the first that knows the order, with the order and its engine.
abbrev pub cancel_each :
    ℕ → Dict ℕ MatchingEngine → Dict ℕ MatchingEngine × Option (Order × MatchingEngine)
cancel_each i [] = ([], none)
cancel_each i ((k, g) ∷ gs) =
    let rest = cancel_each i gs in
    elim (Matching.cancel g i).1 [
      | some o ↦ ((k, (Matching.cancel g i).0) ∷ gs, some (o, (Matching.cancel g i).0))
      | none ↦ ((k, (Matching.cancel g i).0) ∷ rest.0, rest.1)
    ]

abbrev pub cancel_report :
    Text → ℕ → ℕ → ConnectedClient → ℕ → Server → Option (Order × MatchingEngine) → Sent
cancel_report text now id c order_id s none =
    send id c (ServerMessage.error Failure.order_not_found)
cancel_report text now id c order_id s (some (o, g)) =
    send id c (ServerMessage.order_cancelled order_id)
    ++ broadcast_to (text.orderbook_channel o.market_id) (update_message now o.market_id g.book)
        s.clients

unfoldable pub handle_cancel_order : Text → ℕ → ℕ → ConnectedClient → ℕ → Server → Server × Sent
handle_cancel_order text now id c order_id s =
    let (engines, found) = cancel_each order_id s.engines in
    (record s { engines = engines }, cancel_report text now id c order_id s found)

abbrev pub set_client : ℕ → ConnectedClient → Server → Server
set_client id c s = record s { clients = insert id c s.clients }

-- The start of `handleAuthenticate`, up to the call of `verifyMessage`; `after_verify` is its end.
abbrev pub begin_authentication : ℕ → ConnectedClient → AuthCheck → Server → Server × Sent
begin_authentication id c (refused f) s = (s, send id c (ServerMessage.error f))
begin_authentication id c (to_verify address timestamp signature) s =
    (record s { verifying = s.verifying ++ (id, address) ∷ [] }, [])

-- `handleMessage`. The error that `subscribe_throwing` ends with is sent by the listener that catches
-- the exception; what was done before it stays.
unfoldable pub handle_message :
    Text → Moment → ℕ → ConnectedClient → ClientMessage → Server → Server × Sent
handle_message text m id c ClientMessage.ping s = (s, send id c ServerMessage.pong)
handle_message text m id c (ClientMessage.authenticate address timestamp signature) s =
    begin_authentication id c (check_authentication text m.now address timestamp signature) s
handle_message text m id c (ClientMessage.subscribe channels) s =
    let (d, sent) = subscribe_all text m.now id s.engines channels c in (set_client id d s, sent)
handle_message text m id c (ClientMessage.subscribe_throwing channels) s =
    let (d, sent) = subscribe_all text m.now id s.engines channels c in
    (set_client id d s, sent ++ send id c (ServerMessage.error Failure.bad_format))
handle_message text m id c (ClientMessage.unsubscribe channels) s =
    (set_client id (unsubscribe_all channels c) s, [])
handle_message text m id c (ClientMessage.submit r) s =
    if c.is_authenticated
    then handle_submit_order text m id c r s
    else (s, send id c (ServerMessage.error Failure.not_authenticated))
handle_message text m id c (ClientMessage.cancel i) s =
    if c.is_authenticated
    then handle_cancel_order text m.now id c i s
    else (s, send id c (ServerMessage.error Failure.not_authenticated))
handle_message text m id c (ClientMessage.get_account_details trader) s =
    (s, send id c (ServerMessage.account_details trader))
handle_message text m id c ClientMessage.unknown s = (s, [])

-- `JSON.parse` of the data, none where it throws (a handler that throws on a field of a wrong type
-- before it has done anything ends the same way).
abbrev pub dispatch :
    Text → Moment → ℕ → ConnectedClient → ℕ → Option ClientMessage → Server → Server × Sent
dispatch text m id c size msg s =
    if ltb 65536 size then (s, send id c (ServerMessage.error Failure.too_large)) else elim msg [
      | none ↦ (s, send id c (ServerMessage.error Failure.bad_format))
      | some msg ↦ handle_message text m id c msg s
    ]

abbrev pub limited :
    Text → Moment → ℕ → ConnectedClient → ℕ → Option ClientMessage → Server → Server × Sent
limited text m id c size msg s =
    let (l, passes) = check id m.now s.rate_limiter in
    let s' = record s { rate_limiter = l } in
    if passes
    then dispatch text m id c size msg s'
    else (s', send id c (ServerMessage.error Failure.rate_limited))

-- `ws.on("message")` of a client: `size` is the length of the data. A socket that is no longer
-- registered, after its close event or `stop`, sends nothing here. The listener of the source keeps
-- the client in its closure and would go on handling what such a socket still sends.
unfoldable pub on_message : Text → Moment → ℕ → ℕ → Option ClientMessage → Server → Server × Sent
on_message text m id size msg s = elim (lookup id s.clients) [
  | none ↦ (s, [])
  | some c ↦ limited text m id c size msg s
]

pub record MarketStats : Type 0 where
  pub id : ℕ
  pub orders : ℕ
  pub trades : ℕ

pub record ServerStats : Type 0 where
  pub connected_clients : ℕ
  pub markets : List MarketStats

abbrev pub market_stats : Dict ℕ MatchingEngine → List MarketStats
market_stats [] = []
market_stats ((k, g) ∷ gs) =
    record { id = k; orders = active_order_count g.book; trades = g.book.trade_count }
    ∷ market_stats gs

-- `getStats`
unfoldable pub get_stats : Server → ServerStats
get_stats s = record { connected_clients = length s.clients; markets = market_stats s.engines }
