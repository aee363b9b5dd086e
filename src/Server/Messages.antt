-- ===== src/Server/Messages.antt =====
-- The messages of the WebSocket server, api/src/types/index.ts and api/src/ws/server.ts. Strings are
-- numbered: addresses up to letter case, as the server compares them.
use sur_protocol.Common.{ℕ, ℤ, Bool, List, Option}
use sur_protocol.Types.{Side, OrderType, TimeInForce, OrderStatus, PriceLevel, OrderbookSnapshot}

-- What JavaScript answers about the strings of a message: the regular expressions for addresses,
-- market ids and signatures, `BigInt` (none where it throws), `Number` (none for NaN), and the
-- channel names. `orderbook_market` is `channel.split(":")[1]` of a channel that starts with
-- "orderbook:", and none for any other.
pub record Text : Type 0 where
  pub is_address : ℕ → Bool
  pub is_market_id : ℕ → Bool
  pub is_signature : ℕ → Bool
  pub big_int : ℕ → Option ℤ
  pub number : ℕ → Option ℤ
  pub orderbook_channel : ℕ → ℕ
  pub trades_channel : ℕ → ℕ
  pub orderbook_market : ℕ → Option ℕ

-- `SubmitOrderRequest`; a side that is neither "buy" nor "sell" is none.
pub record SubmitOrderRequest : Type 0 where
  pub trader : ℕ
  pub market_id : ℕ
  pub side : Option Side
  pub order_type : OrderType
  pub price : ℕ
  pub size : ℕ
  pub time_in_force : TimeInForce
  pub nonce : ℕ
  pub expiry : ℕ
  pub signature : ℕ
  pub hidden : Bool

-- `ClientMessage`; a field of `authenticate` that is missing or empty is none. A message of another
-- type is `unknown`. A `subscribe` with an element that is not a string throws at it; in
-- `subscribe_throwing` the channels are those before it.
pub data ClientMessage : Type 0 where
  ping : ClientMessage
  authenticate : (address timestamp signature : Option ℕ) → ClientMessage
  subscribe subscribe_throwing unsubscribe : List ℕ → ClientMessage
  submit : SubmitOrderRequest → ClientMessage
  cancel : ℕ → ClientMessage
  get_account_details : ℕ → ClientMessage
  unknown : ClientMessage

-- The reasons of an `orderRejected` message.
pub data Reason : Type 0 where
  trader_mismatch invalid_trader invalid_market invalid_side invalid_signature invalid_number :
      Reason
  size_not_positive already_expired unknown_market validation_failed : Reason

-- The texts of an `error` message.
pub data Failure : Type 0 where
  rate_limited too_large bad_format missing_fields stale_timestamp wrong_signature : Failure
  not_authenticated order_not_found verification_threw : Failure

pub record TradeMessage : Type 0 where
  pub id : ℕ
  pub market_id : ℕ
  pub price : ℤ
  pub size : ℕ
  pub maker_side : Side
  pub timestamp : ℕ

-- `ServerMessage`; the id of a rejected order is none where the server sends the empty string.
pub data ServerMessage : Type 0 where
  order_accepted : ℕ → OrderStatus → ServerMessage
  order_rejected : Option ℕ → Reason → ServerMessage
  order_cancelled : ℕ → ServerMessage
  trade : TradeMessage → ServerMessage
  orderbook : OrderbookSnapshot → ServerMessage
  orderbook_update : ℕ → List PriceLevel → List PriceLevel → ServerMessage
  account_details : ℕ → ServerMessage
  authenticated : ℕ → ServerMessage
  pong : ServerMessage
  error : Failure → ServerMessage
