-- ===== src/Settlement/Tests.antt =====
-- A small run of the pipeline, and the theorems of settlement at it.
use sur_protocol.Common.{
  ℕ, zero, suc, ◌+◌, ◌≤◌, pos, false, ◌≡◌, refl, [], ◌∷◌, Option, none, some, All, length,
}
use sur_protocol.Types.{Side, OrderType, TimeInForce, OrderStatus, Order, Trade}
use sur_protocol.Settlement.Retry.{retry_with_backoff, retry_with_backoff_lem}
use sur_protocol.Settlement.Pipeline.{
  SettlementPipeline, PendingTrade, Flight, Outcome, nothing, ReceiptStatus, init, queue_trade,
  flush_batch, after_submit, after_receipt, get_stats,
}
use sur_protocol.Settlement.Pipeline.Ledger.{
  Step, queues, submits, settles, Run, idle, after, held, left,
}
use sur_protocol.Settlement.Pipeline.Soundness.{IsSound, init-IsSound}
use sur_protocol.Settlement.Pipeline.Runs.{Run-IsSound, Run-conserves}
use sur_protocol.Settlement.Pipeline.Status.{Change, status_at, Step-Change, get_stats_lem}
use sur_protocol.Settlement.Pipeline.Outage.{failing_flush, outage_ends}

abbrev an_order : ℕ → Side → Order
an_order id side = record {
  id = id;
  trader = id;
  market_id = 1;
  side = side;
  order_type = OrderType.limit;
  price = pos 100;
  size = 10;
  remaining = 0;
  time_in_force = TimeInForce.gtc;
  status = OrderStatus.filled;
  nonce = pos 0;
  expiry = pos 0;
  signature = 0;
  created_at = 0;
  hidden = false;
}

abbrev a_trade : ℕ → Trade
a_trade id = record {
  id = id;
  market_id = 1;
  price = pos 100;
  size = 10;
  maker_order_id = 1;
  taker_order_id = 2;
  maker_trader = 1;
  taker_trader = 2;
  maker_side = Side.sell;
  taker_side = Side.buy;
  timestamp = 0;
}

-- The second attempt of the submission returns a hash, and so does the first wait for the receipt.
abbrev flaky : ℕ → Option ℕ
flaky zero = none
flaky (suc _) = some 77

abbrev mined : ℕ → Option ReceiptStatus
mined _ = some ReceiptStatus.success

abbrev waiting : ℕ → PendingTrade
waiting id = record {
  trade = a_trade id;
  maker_order = an_order 1 Side.sell;
  taker_order = an_order 2 Side.buy;
  requeue_count = 0;
}

abbrev flight : Option ℕ → Flight
flight h = record { to_settle = waiting 1 ∷ waiting 2 ∷ []; tx_hash = h }

-- Batches of two trades: the second trade that is queued flushes both.
p0 : SettlementPipeline
p0 = init 2

p1 : SettlementPipeline
unfolding p0
p1 = queue_trade 5 (a_trade 1) (an_order 1 Side.sell) (an_order 2 Side.buy) p0

p2 : SettlementPipeline
unfolding p1
p2 = queue_trade 6 (a_trade 2) (an_order 1 Side.sell) (an_order 2 Side.buy) p1

p3 : SettlementPipeline
unfolding p2
p3 = (after_submit flaky 0 (flight none) p2).0

p4 : SettlementPipeline
unfolding p3
p4 = (after_receipt mined 0 (flight (some 77)) p3).0

p0-IsSound : IsSound p0
unfolding p0
p0-IsSound = init-IsSound 2

-- Both trades are queued, flushed, submitted at the second attempt and confirmed.
abbrev settled : Outcome
settled = record { stored = waiting 1 ∷ waiting 2 ∷ []; reverted = []; given_up = [] }

both_queued : Run p0 (a_trade 1 ∷ a_trade 2 ∷ []) nothing p2
unfolding p1 p2
both_queued =
    after (after idle (queues 5 (a_trade 1) (an_order 1 Side.sell) (an_order 2 Side.buy)))
      (queues 6 (a_trade 2) (an_order 1 Side.sell) (an_order 2 Side.buy))

sends : Step p2 [] nothing p3
unfolding p3 p2 p1 p0 queue_trade flush_batch after_submit retry_with_backoff init
sends = submits flaky 0 (flight none) refl refl

confirms : Step p3 [] settled p4
unfolding p4 p3 p2 p1 p0 queue_trade flush_batch after_submit after_receipt retry_with_backoff init
confirms = settles mined 0 77 (flight (some 77)) refl refl

both_settled : Run p0 (a_trade 1 ∷ a_trade 2 ∷ []) settled p4
both_settled = after (after both_queued sends) confirms

Run-conserves_example : held (λ _. 1) p4 + left (λ _. 1) settled ≡ held (λ _. 1) p0 + 2
Run-conserves_example = Run-conserves (λ _. 1) p0-IsSound both_settled

Run-IsSound_example : IsSound p4
Run-IsSound_example = Run-IsSound both_settled p0-IsSound

Step-Change_example : Change (status_at 0 p2) (status_at 0 p3)
Step-Change_example = Step-Change 0 (Run-IsSound both_queued p0-IsSound) sends

get_stats_lem_example :
    (get_stats p4).confirmed + (get_stats p4).failed + length p4.in_flight
    ≡ (get_stats p4).total_batches
unfolding init p0 p4
get_stats_lem_example = get_stats_lem 2 both_settled

outage_ends_example :
    (failing_flush 9 (failing_flush 8 (failing_flush 7 (failing_flush 6 p1)))).pending_trades ≡ []
unfolding p1
outage_ends_example = outage_ends 6 7 8 9 p1 (
    Run-IsSound (after idle (queues 5 (a_trade 1) (an_order 1 Side.sell) (an_order 2 Side.buy)))
      p0-IsSound)

retry_with_backoff_lem_example :
    let r = retry_with_backoff flaky 3 1000 in
    (r.result ≡ some 77) × (length r.delays ≤ 3) × All (λ d. d ≤ 10000) r.delays
retry_with_backoff_lem_example = retry_with_backoff_lem flaky 3 1000
