-- ===== src/FundingBot.antt =====
-- The loop of funding-bot/src/index.ts. Raw prices and sizes of the contract are naturals, what is
-- computed from them is of the type `F` of a `Double`. The retries are those of `Settlement.Retry`:
-- the file has its own copy of the same function.
use sur_protocol.Common.{
  ℕ, suc, ◌+◌, ◌-◌, ◌*◌, ◌/◌, ◌≤◌, ℤ, Bool, true, false, List, [], ◌∷◌, ◌++◌, Option, none, some,
  if◌then◌else◌, leb, ltb, length, slice_last,
}
use sur_protocol.Common.Doubles.{Double}
use sur_protocol.Settlement.Retry.{retry_with_backoff}
pub mod Limits
mod Tests

-- The fields of `markets` that the bot reads.
pub record MarketData : Type 0 where
  pub active : Bool
  pub mark_price : ℕ
  pub index_price : ℕ
  pub cumulative_funding : ℤ
  pub last_funding_update : ℕ
  pub funding_interval_secs : ℕ
  pub oi_long : ℕ
  pub oi_short : ℕ

pub record FundingSnapshot (F : Type 0) : Type 0 where
  pub market_name : ℕ
  pub mark_price : F
  pub index_price : F
  pub premium : F
  pub funding_rate : F
  pub annualized_rate : F
  pub cumulative_funding : ℤ
  pub oi_long : F
  pub oi_short : F
  pub oi_imbalance : F
  pub last_funding_update : ℕ
  pub next_funding_due : ℕ
  pub interval_secs : ℕ
  pub timestamp : ℕ

pub record FundingStats (F : Type 0) : Type 0 where
  pub total_applications : ℕ
  pub total_gas_spent : ℕ
  pub history : List (FundingSnapshot F)
  pub started_at : ℕ

pub record FundingReceipt : Type 0 where
  pub succeeded : Bool
  pub gas_used : ℕ
  pub effective_gas_price : Option ℕ

-- What the chain answers while a market is handled: to each attempt to read it and to send the
-- transaction (its hash), and to the wait for the receipt; none where the call throws.
pub record Replies : Type 0 where
  pub read : ℕ → Option MarketData
  pub write : ℕ → Option ℕ
  pub receipt : ℕ → Option FundingReceipt

-- `MAX_HISTORY`
abbrev pub max_history : ℕ
max_history = 100

abbrev pub funding_gas : FundingReceipt → ℕ
funding_gas r = elim r.effective_gas_price [ none ↦ 0 | some price ↦ r.gas_used * price ]

-- `timeUntilDue <= 0`, for the time `now` in milliseconds
abbrev pub is_due_at : ℕ → MarketData → Bool
is_due_at now m = leb (m.last_funding_update + m.funding_interval_secs) (now / 1000)

abbrev pub receipt_of : Replies → Option ℕ → Option FundingReceipt
receipt_of replies none = none
receipt_of replies (some hash) = replies.receipt hash

module _ {F : Type 0} ⦃d : Double F⦄ where
  -- "Calculate current rate": the premium is 0 where there is no index price.
  abbrev pub premium_of : (mark_price index_price : F) → F
  premium_of mark_price index_price =
      if d.ltb (d.of_nat 0) index_price
      then d.div (d.sub mark_price index_price) index_price
      else d.of_nat 0

  -- `(365.25 * 24 * 3600) / interval`
  abbrev pub intervals_per_year : ℕ → F
  intervals_per_year interval = d.div (d.of_nat 31557600) (d.of_nat interval)

  abbrev pub take_snapshot : (name now : ℕ) → MarketData → FundingSnapshot F
  take_snapshot name now m =
      let mark_price = d.div (d.of_nat m.mark_price) (d.of_nat 1000000) in
      let index_price = d.div (d.of_nat m.index_price) (d.of_nat 1000000) in
      let oi_long = d.div (d.of_nat m.oi_long) (d.of_nat 100000000) in
      let oi_short = d.div (d.of_nat m.oi_short) (d.of_nat 100000000) in
      let rate = d.mul (premium_of mark_price index_price) (d.of_nat 100) in
      record {
        market_name = name;
        mark_price = mark_price;
        index_price = index_price;
        premium = rate;
        funding_rate = rate;
        annualized_rate = d.mul rate (intervals_per_year m.funding_interval_secs);
        cumulative_funding = m.cumulative_funding;
        oi_long = oi_long;
        oi_short = oi_short;
        oi_imbalance = d.sub oi_long oi_short;
        last_funding_update = m.last_funding_update;
        next_funding_due = m.last_funding_update + m.funding_interval_secs;
        interval_secs = m.funding_interval_secs;
        timestamp = now;
      }

  -- "Store history", with the number of markets.
  abbrev pub trim : ℕ → List (FundingSnapshot F) → List (FundingSnapshot F)
  trim markets h =
      if ltb (max_history * markets) (length h) then slice_last (max_history * markets) h else h

  abbrev pub store_snapshot : ℕ → FundingSnapshot F → FundingStats F → FundingStats F
  store_snapshot markets x s = record s { history = trim markets (s.history ++ x ∷ []) }

  -- The end of an application, by its receipt.
  abbrev pub count_application : Option FundingReceipt → FundingStats F → FundingStats F
  count_application none s = s
  count_application (some r) s =
      if r.succeeded
      then record s {
        total_applications = suc s.total_applications;
        total_gas_spent = s.total_gas_spent + funding_gas r;
      }
      else s

  -- "Apply funding (with retry)"
  unfoldable pub apply_funding : Replies → FundingStats F → FundingStats F
  apply_funding replies s =
      count_application (receipt_of replies (retry_with_backoff replies.write 2 1000).result) s

  abbrev pub handle_data :
      (markets name now : ℕ) → Replies → Option MarketData → FundingStats F → FundingStats F
  handle_data markets name now replies none s = s
  handle_data markets name now replies (some m) s =
      if m.active
      then (let s' = store_snapshot markets (take_snapshot name now m) s in
          if is_due_at now m then apply_funding replies s' else s')
      else s

  -- One market of a cycle.
  unfoldable pub handle_market : (markets name now : ℕ) → Replies → FundingStats F → FundingStats F
  handle_market markets name now replies s =
      handle_data markets name now replies (retry_with_backoff replies.read 2 500).result s

  -- A cycle over the names of the markets, with the time and the replies at each.
  abbrev pub handle_markets :
      (markets : ℕ) → List ℕ → (ℕ → ℕ) → (ℕ → Replies) → FundingStats F → FundingStats F
  handle_markets markets [] now replies s = s
  handle_markets markets (name ∷ names) now replies s =
      handle_markets markets names now replies
        (handle_market markets name (now name) (replies name) s)

  unfoldable pub cycle : List ℕ → (ℕ → ℕ) → (ℕ → Replies) → FundingStats F → FundingStats F
  cycle names now replies s = handle_markets (length names) names now replies s
