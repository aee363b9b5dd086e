-- ===== src/Server/Tests.antt =====
-- A rate limiter and a server at work.
use sur_protocol.Common.{
  ◌↔◌, ℕ, ◌+◌, pos, true, false, ◌≡◌, refl, List, [], ◌∷◌, none, some, arith, ◌⊎◌, nat_eq,
}
use sur_protocol.Server.RateLimiter.{RateLimiter, Window, message, cleaning, passed, passed_lem}
use sur_protocol.Types.{Side, OrderType, TimeInForce, MarketConfig}
use sur_protocol.Engine.Matching.{MatchingEngine, OrderParams}
use sur_protocol.Settlement.Pipeline.{SettlementPipeline}
use sur_protocol.Server.Messages.{Text, SubmitOrderRequest, ClientMessage, ServerMessage}
use sur_protocol.Server.Sessions.{
  ConnectedClient, Server, init, answered, after_verify, resume, is_verifying, broadcast_to,
  subscribe_all, unsubscribe_all,
}
use sur_protocol.Server.Requests.{order_params, good, check_request}
use sur_protocol.Server.Orders.{Moment, handle_message}
use sur_protocol.Server.Acceptance.{IsAcceptable, check_request_lem}
use sur_protocol.Server.Soundness.{IsServing}
use sur_protocol.Server.Service.{Event, connects, receives, verifies, serve, serve-IsServing}
use sur_protocol.Server.Unsettled.{serve-pending, init-IsServing}
use sur_protocol.Server.Rights.{HasRights}
use sur_protocol.Server.Access.{unauthenticated_safe, rights_need_signature}
use sur_protocol.Server.Channels.{sent_to, sent_to-broadcast_to, unsubscribe_all-subscribe_all}

abbrev window : Window
window = record { count = 1; reset_at = 1100 }

-- Two messages in 1000; key 7 has sent one of them at 100.
abbrev limiter : RateLimiter
limiter = record { windows = (7, window) ∷ []; max_per_window = 2; window_ms = 1000 }

passed_lem_example :
    passed 7 (message 7 200 ∷ message 8 300 ∷ cleaning 400 ∷ message 7 500 ∷ []) limiter ≡ 1
passed_lem_example =
    passed_lem 7 (message 7 200 ∷ message 8 300 ∷ cleaning 400 ∷ message 7 500 ∷ []) limiter window
      refl (ground arith)

-- Every string is well formed, and numbers stand for themselves.
abbrev text : Text
text = record {
  is_address = λ x. true;
  is_market_id = λ x. true;
  is_signature = λ x. true;
  big_int = λ x. some (pos x);
  number = λ x. some (pos x);
  orderbook_channel = λ x. 1000 + x;
  trades_channel = λ x. 2000 + x;
  orderbook_market = λ x. none;
}

abbrev market : MarketConfig
market = record { id = 1; tick_size = 10; lot_size = 5; min_size = 5 }

abbrev pipeline : SettlementPipeline
pipeline = record {
  max_batch_size = 10;
  pending_trades = [];
  order_cache = [];
  batches = [];
  batch_counter = 0;
  in_flight = [];
  timer = false;
  running = false;
}

abbrev moment : ℕ → Moment
moment t = record { now = t; order_id = t; env = record { uuid = λ k. t + k; now = λ k. t } }

abbrev a_request : Side → SubmitOrderRequest
a_request side = record {
  trader = 7;
  market_id = 1;
  side = some side;
  order_type = OrderType.limit;
  price = 100;
  size = 10;
  time_in_force = TimeInForce.gtc;
  nonce = 1;
  expiry = 0;
  signature = 3;
  hidden = false;
}

abbrev server0 : Server
server0 = init (market ∷ []) pipeline 2 10

-- A client connects, authenticates, and offers what it then buys.
abbrev events : List Event
events =
    connects 5
    ∷ receives (moment 900) 1 200 (some (ClientMessage.authenticate (some 7) (some 0) (some 3)))
    ∷ verifies 1 7 (answered true)
    ∷ receives (moment 1000) 1 300 (some (ClientMessage.submit (a_request Side.sell)))
    ∷ receives (moment 1001) 1 300 (some (ClientMessage.submit (a_request Side.buy)))
    ∷ []

server0-IsServing : IsServing server0
server0-IsServing = init-IsServing (market ∷ []) pipeline 2 10

serve-IsServing_example : IsServing (serve text events server0)
serve-IsServing_example = serve-IsServing text events server0 server0-IsServing

serve-pending_example : (serve text events server0).pipeline.pending_trades ≡ []
unfolding init
serve-pending_example = serve-pending text events server0

abbrev a_client : ConnectedClient
a_client = record {
  subscriptions = 1001 ∷ [];
  trader = some 7;
  is_authenticated = true;
  is_open = true;
  ip = 5;
}

abbrev a_stranger : ConnectedClient
a_stranger = record a_client { is_authenticated = false; trader = none }

abbrev engine : MatchingEngine
engine = record {
  book = record { market = market; bids = []; asks = []; order_index = []; trade_count = 0 };
  all_trades = [];
}

abbrev params : OrderParams
params =
    order_params (a_request Side.buy) Side.buy
      (record { price = pos 100; size = pos 10; nonce = pos 1; expiry = pos 0 })

unauthenticated_safe_example :
    let s' =
      (handle_message text
        (moment 1000)
        1
        a_stranger
        (ClientMessage.submit (a_request Side.buy))
        server0).0 in
    (s'.engines ≡ server0.engines) × (s'.pipeline ≡ server0.pipeline)
unauthenticated_safe_example =
    unauthenticated_safe text (moment 1000) 1 a_stranger (ClientMessage.submit (a_request Side.buy))
      server0 refl

check_request_lem_example :
    (check_request text 1000 (some 7) (a_request Side.buy) ((1, engine) ∷ []) ≡ good params engine)
    ↔ IsAcceptable text 1000 (some 7) (a_request Side.buy) ((1, engine) ∷ []) params engine
check_request_lem_example =
    check_request_lem text 1000 (some 7) (a_request Side.buy) ((1, engine) ∷ []) params engine

-- The request passes.
a_request_passes :
    check_request text 1000 (some 7) (a_request Side.buy) ((1, engine) ∷ []) ≡ good params engine
unfolding check_request
a_request_passes = refl

abbrev server1 : Server
server1 = record server0 {
  clients = (1, a_client) ∷ (2, a_stranger) ∷ [];
  client_counter = 2;
  verifying = (2, 9) ∷ [];
}

server1-IsServing : IsServing server1
unfolding init
server1-IsServing = record {
  capacity = omega arith;
  distinct = (refl, (refl, tt));
  numbered = λ k lt. ground (arith, lt);
  orderly = server0-IsServing.orderly;
}

-- The second client becomes authenticated as the trader 9 by the confirmation for it.
rights_need_signature_example :
    HasRights 2 9 server1
    ⊎ ((verifies 2 9 (answered true) ≡ verifies 2 9 (answered true))
        × (is_verifying 2 9 ((2, 9) ∷ []) ≡ true))
unfolding after_verify resume
rights_need_signature_example =
    rights_need_signature text (verifies 2 9 (answered true)) server1 2 9 server1-IsServing
      (record a_stranger { is_authenticated = true; trader = some 9 }, refl, refl, refl)

sent_to-broadcast_to_example :
    sent_to 2 (broadcast_to 1001 ServerMessage.pong server1.clients) ≡ ServerMessage.pong ∷ []
sent_to-broadcast_to_example =
    sent_to-broadcast_to 1001 ServerMessage.pong 2 server1.clients (refl, (refl, tt))

unsubscribe_all-subscribe_all_example :
    unsubscribe_all
      (2001 ∷ 1002 ∷ [])
      (subscribe_all text 1000 1 ((1, engine) ∷ []) (2001 ∷ 1002 ∷ []) a_client).0
    ≡ a_client
unsubscribe_all-subscribe_all_example =
    unsubscribe_all-subscribe_all text 1000 1 ((1, engine) ∷ []) (2001 ∷ 1002 ∷ []) a_client
      (λ x e. ground (arith, e))
