-- ===== src/Server/Requests.antt =====
-- The checks of `handleSubmitOrder` of api/src/ws/server.ts on a request.
use sur_protocol.Common.{
  ℕ, ◌/◌, ℤ, pos, pos_part, ltb_ℤ, leb_ℤ, Bool, false, not, ◌&&◌, Option, none, some, if◌then◌else◌,
  ◌==◌, nat_eq, ◌>>=◌,
}
use sur_protocol.Common.Dict.{Dict, lookup}
use sur_protocol.Types.{Side}
use sur_protocol.Engine.Matching.{MatchingEngine, OrderParams}
use sur_protocol.Server.Messages.{Text, SubmitOrderRequest, Reason}

-- The four numbers of a request.
pub record Numbers : Type 0 where
  pub price : ℤ
  pub size : ℤ
  pub nonce : ℤ
  pub expiry : ℤ

-- The conversions by `BigInt`, the first of which to fail throws.
abbrev pub parse_numbers : Text → SubmitOrderRequest → Option Numbers
parse_numbers text r = do
  p ← text.big_int r.price
  z ← text.big_int r.size
  n ← text.big_int r.nonce
  e ← text.big_int r.expiry
  some (record { price = p; size = z; nonce = n; expiry = e })

abbrev pub is_mismatch : Option ℕ → ℕ → Bool
is_mismatch none trader = false
is_mismatch (some t) trader = not (trader == t)

abbrev pub is_expired : ℕ → ℤ → Bool
is_expired now e = ltb_ℤ (pos 0) e && ltb_ℤ e (pos (now / 1000))

-- An order that has passed the checks of `handleSubmitOrder`, or the reason why it has not. The
-- regular expressions refuse the empty string.
pub data Request : Type 0 where
  bad : Reason → Request
  good : OrderParams → MatchingEngine → Request

abbrev pub order_params : SubmitOrderRequest → Side → Numbers → OrderParams
order_params r side n = record {
  trader = r.trader;
  market_id = r.market_id;
  side = side;
  order_type = r.order_type;
  price = n.price;
  size = pos_part n.size;
  time_in_force = r.time_in_force;
  nonce = n.nonce;
  expiry = n.expiry;
  signature = r.signature;
  hidden = r.hidden;
}

abbrev pub find_market : SubmitOrderRequest → Side → Numbers → Dict ℕ MatchingEngine → Request
find_market r side n engines = elim (lookup r.market_id engines) [
  | none ↦ bad Reason.unknown_market
  | some g ↦ good (order_params r side n) g
]

abbrev pub check_numbers :
    ℕ → SubmitOrderRequest → Side → Option Numbers → Dict ℕ MatchingEngine → Request
check_numbers now r side none engines = bad Reason.invalid_number
check_numbers now r side (some n) engines =
    if leb_ℤ n.size (pos 0)
    then bad Reason.size_not_positive
    else if is_expired now n.expiry
    then bad Reason.already_expired
    else find_market r side n engines

abbrev pub check_side :
    Text → ℕ → SubmitOrderRequest → Option Side → Dict ℕ MatchingEngine → Request
check_side text now r none engines = bad Reason.invalid_side
check_side text now r (some side) engines =
    if not (text.is_signature r.signature)
    then bad Reason.invalid_signature
    else check_numbers now r side (parse_numbers text r) engines

unfoldable pub check_request :
    Text → ℕ → Option ℕ → SubmitOrderRequest → Dict ℕ MatchingEngine → Request
check_request text now trader r engines =
    if is_mismatch trader r.trader
    then bad Reason.trader_mismatch
    else if not (text.is_address r.trader)
    then bad Reason.invalid_trader
    else if not (text.is_market_id r.market_id)
    then bad Reason.invalid_market
    else check_side text now r r.side engines
