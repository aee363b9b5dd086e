-- ===== src/Types.antt =====
-- The core types of api/src/types/index.ts. Identifiers, addresses and signatures are strings that
-- the code here only compares for equality: they are numbered. Prices are signed (`bigint`, and
-- no check keeps them positive); sizes are naturals, since the server admits only positive ones
-- and every subtraction of the engine is of at most what is there.
use sur_protocol.Common.{ℕ, Bool, ℤ, List, true, false, Option}

pub data Side : Type 0 where
  buy sell : Side

pub data OrderType : Type 0 where
  limit market : OrderType

pub data TimeInForce : Type 0 where
  gtc ioc fok post_only : TimeInForce

-- `opened` is the source's "open".
pub data OrderStatus : Type 0 where
  opened partially_filled filled cancelled rejected : OrderStatus

pub record MarketConfig : Type 0 where
  pub id : ℕ
  pub tick_size : ℕ
  pub lot_size : ℕ
  pub min_size : ℕ

pub record Order : Type 0 where
  pub id : ℕ
  pub trader : ℕ
  pub market_id : ℕ
  pub side : Side
  pub order_type : OrderType
  pub price : ℤ
  pub size : ℕ
  pub remaining : ℕ
  pub time_in_force : TimeInForce
  pub status : OrderStatus
  pub nonce : ℤ
  pub expiry : ℤ
  pub signature : ℕ
  pub created_at : ℕ
  pub hidden : Bool

pub record Trade : Type 0 where
  pub id : ℕ
  pub market_id : ℕ
  pub price : ℤ
  pub size : ℕ
  pub maker_order_id : ℕ
  pub taker_order_id : ℕ
  pub maker_trader : ℕ
  pub taker_trader : ℕ
  pub maker_side : Side
  pub taker_side : Side
  pub timestamp : ℕ

pub record SignedOrderOnChain : Type 0 where
  pub trader : ℕ
  pub market_id : ℕ
  pub is_long : Bool
  pub size : ℕ
  pub price : ℤ
  pub nonce : ℤ
  pub expiry : ℤ
  pub signature : ℕ

pub record MatchedTradeOnChain : Type 0 where
  pub maker : SignedOrderOnChain
  pub taker : SignedOrderOnChain
  pub execution_price : ℤ
  pub execution_size : ℕ

pub data BatchStatus : Type 0 where
  pending submitted confirmed failed : BatchStatus

pub record SettlementBatch : Type 0 where
  pub id : ℕ
  pub trades : List MatchedTradeOnChain
  pub created_at : ℕ
  pub status : BatchStatus
  pub tx_hash : Option ℕ

pub record PriceLevel : Type 0 where
  pub price : ℤ
  pub total_size : ℕ
  pub order_count : ℕ

pub record OrderbookSnapshot : Type 0 where
  pub market_id : ℕ
  pub bids : List PriceLevel
  pub asks : List PriceLevel
  pub timestamp : ℕ

abbrev pub opposite : Side → Side
opposite Side.buy = Side.sell
opposite Side.sell = Side.buy

abbrev pub side_eqb : Side → Side → Bool
side_eqb Side.buy Side.buy = true
side_eqb Side.sell Side.sell = true
side_eqb _ _ = false

abbrev pub status_eqb : BatchStatus → BatchStatus → Bool
status_eqb BatchStatus.pending BatchStatus.pending = true
status_eqb BatchStatus.submitted BatchStatus.submitted = true
status_eqb BatchStatus.confirmed BatchStatus.confirmed = true
status_eqb BatchStatus.failed BatchStatus.failed = true
status_eqb _ _ = false

abbrev pub is_limit : OrderType → Bool
is_limit OrderType.limit = true
is_limit OrderType.market = false
