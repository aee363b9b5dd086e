-- ===== src/Settlement/Pipeline.antt =====
-- `SettlementPipeline` of api/src/settlement/pipeline.ts. `flushBatch` is an async function: the
-- part before its first `await` is `flush_batch`, and what is left of a call is a flight, whose two
-- continuations run when the retries of the submission and of the receipt have ended.
pub mod Ledger
pub mod Soundness
pub mod Runs
pub mod Status
pub mod Outage
use sur_protocol.Common.{
  ℕ, suc, ◌+◌, Bool, true, false, List, [], ◌∷◌, ◌++◌, Option, none, some, if◌then◌else◌, leb, ltb,
  length, map, nat_eq,
}
use sur_protocol.Common.Dict.{Dict, lookup, insert, erase, sum_values}
use sur_protocol.Types.{
  Side, Order, Trade, SignedOrderOnChain, MatchedTradeOnChain, BatchStatus, SettlementBatch,
  side_eqb, status_eqb,
}
use sur_protocol.Settlement.Retry.{Retried, retry_with_backoff}

-- An entry of `pendingTrades`, with its `__requeueCount`.
pub record PendingTrade : Type 0 where
  pub trade : Trade
  pub maker_order : Order
  pub taker_order : Order
  pub requeue_count : ℕ

-- A suspended call of `flushBatch`: its `toSettle`, and `txHash` once the submission has returned.
pub record Flight : Type 0 where
  pub to_settle : List PendingTrade
  pub tx_hash : Option ℕ

-- The fields of the pipeline, with `config.maxBatchSize`, and the suspended calls by batch id.
-- `timer` is `batchTimer !== null`.
pub record SettlementPipeline : Type 0 where
  pub max_batch_size : ℕ
  pub pending_trades : List PendingTrade
  pub timer : Bool
  pub batch_counter : ℕ
  pub batches : Dict ℕ SettlementBatch
  pub order_cache : Dict ℕ Order
  pub running : Bool
  pub in_flight : Dict ℕ Flight

unfoldable pub init : ℕ → SettlementPipeline
init max_batch_size = record {
  max_batch_size = max_batch_size;
  pending_trades = [];
  timer = false;
  batch_counter = 0;
  batches = [];
  order_cache = [];
  running = false;
  in_flight = [];
}

unfoldable pub start : SettlementPipeline → SettlementPipeline
start p = if p.running then p else record p { running = true; timer = true }

unfoldable pub stop : SettlementPipeline → SettlementPipeline
stop p = record p { running = false; timer = false }

unfoldable pub cache_order : Order → SettlementPipeline → SettlementPipeline
cache_order o p = record p { order_cache = insert o.id o p.order_cache }

abbrev pub to_signed_order : Order → SignedOrderOnChain
to_signed_order o = record {
  trader = o.trader;
  market_id = o.market_id;
  is_long = side_eqb o.side Side.buy;
  size = o.size;
  price = o.price;
  nonce = o.nonce;
  expiry = o.expiry;
  signature = o.signature;
}

abbrev pub to_on_chain_trade : PendingTrade → MatchedTradeOnChain
to_on_chain_trade t = record {
  maker = to_signed_order t.maker_order;
  taker = to_signed_order t.taker_order;
  execution_price = t.trade.price;
  execution_size = t.trade.size;
}

-- The two contract calls of `submitBatch`.
pub data ContractCall : Type 0 where
  settle_one : MatchedTradeOnChain → ContractCall
  settle_batch : List MatchedTradeOnChain → ContractCall

abbrev pub submit_batch : List MatchedTradeOnChain → ContractCall
submit_batch (t ∷ []) = settle_one t
submit_batch ts = settle_batch ts

-- The batch that a flush creates at the time `now`.
abbrev pub new_batch : ℕ → ℕ → List PendingTrade → SettlementBatch
new_batch now id to_settle = record {
  id = id;
  trades = map to_on_chain_trade to_settle;
  created_at = now;
  status = BatchStatus.pending;
  tx_hash = none;
}

abbrev flush_trades : ℕ → SettlementPipeline → List PendingTrade → SettlementPipeline
flush_trades now p [] = p
flush_trades now p (t ∷ ts) = record p {
  pending_trades = [];
  batch_counter = suc p.batch_counter;
  batches = insert p.batch_counter (new_batch now p.batch_counter (t ∷ ts)) p.batches;
  in_flight = insert p.batch_counter (record { to_settle = t ∷ ts; tx_hash = none }) p.in_flight;
}

-- `flushBatch` up to its first `await`.
unfoldable pub flush_batch : ℕ → SettlementPipeline → SettlementPipeline
flush_batch now p = flush_trades now p p.pending_trades

abbrev queued : Trade → Order → Order → SettlementPipeline → SettlementPipeline
queued trade maker taker p = record p {
  pending_trades =
      p.pending_trades
      ++ record { trade = trade; maker_order = maker; taker_order = taker; requeue_count = 0 } ∷ [];
}

unfoldable pub queue_trade : ℕ → Trade → Order → Order → SettlementPipeline → SettlementPipeline
queue_trade now trade maker taker p =
    let q = queued trade maker taker p in
    if leb q.max_batch_size (length q.pending_trades) then flush_batch now q else q

-- `batch.status = ...; batch.txHash = ...` on the object that the map holds.
abbrev pub set_status : ℕ → BatchStatus → Option ℕ → Dict ℕ SettlementBatch → Dict ℕ SettlementBatch
set_status id st hash m = elim (lookup id m) [
  | none ↦ m
  | some b ↦ insert id (record b { status = st; tx_hash = hash }) m
]

-- `MAX_REQUEUE`
abbrev pub max_requeue : ℕ
max_requeue = 3

-- The filter of the failure branch: the trades that are queued again, and those that are dropped.
abbrev pub requeue : List PendingTrade → List PendingTrade
requeue [] = []
requeue (t ∷ ts) =
    if leb max_requeue t.requeue_count
    then requeue ts
    else record t { requeue_count = suc t.requeue_count } ∷ requeue ts

abbrev pub dropped : List PendingTrade → List PendingTrade
dropped [] = []
dropped (t ∷ ts) = if leb max_requeue t.requeue_count then t ∷ dropped ts else dropped ts

-- Where trades go that leave the pipeline: into the database, once their batch is confirmed; lost
-- with a reverted transaction; or dropped after too many failures.
pub record Outcome : Type 0 where
  pub stored : List PendingTrade
  pub reverted : List PendingTrade
  pub given_up : List PendingTrade

abbrev pub nothing : Outcome
nothing = record { stored = []; reverted = []; given_up = [] }

-- The `catch` of `flushBatch`.
abbrev pub fail_batch : ℕ → Flight → SettlementPipeline → SettlementPipeline × Outcome
fail_batch id f p = (
  record p {
    pending_trades = p.pending_trades ++ requeue f.to_settle;
    batches = set_status id BatchStatus.failed f.tx_hash p.batches;
    in_flight = erase id p.in_flight;
  },
  record { stored = []; reverted = []; given_up = dropped f.to_settle },
)

abbrev submit_result : ℕ → Flight → SettlementPipeline → Option ℕ → SettlementPipeline × Outcome
submit_result id f p none = fail_batch id f p
submit_result id f p (some hash) = (
  record p {
    batches = set_status id BatchStatus.submitted (some hash) p.batches;
    in_flight = insert id (record f { tx_hash = some hash }) p.in_flight;
  },
  nothing,
)

-- After the first `await`: `net` says what each attempt to submit the batch returns.
unfoldable pub after_submit :
    (ℕ → Option ℕ) → ℕ → Flight → SettlementPipeline → SettlementPipeline × Outcome
after_submit net id f p = submit_result id f p (retry_with_backoff net 3 1000).result

-- `receipt.status`
pub data ReceiptStatus : Type 0 where
  success reverted : ReceiptStatus

abbrev receipt_result :
    ℕ → Flight → SettlementPipeline → Option ReceiptStatus → SettlementPipeline × Outcome
receipt_result id f p none = fail_batch id f p
receipt_result id f p (some success) = (
  record p {
    batches = set_status id BatchStatus.confirmed f.tx_hash p.batches;
    in_flight = erase id p.in_flight;
  },
  record { stored = f.to_settle; reverted = []; given_up = [] },
)
receipt_result id f p (some ReceiptStatus.reverted) = (
  record p {
    batches = set_status id BatchStatus.failed f.tx_hash p.batches;
    in_flight = erase id p.in_flight;
  },
  record { stored = []; reverted = f.to_settle; given_up = [] },
)

-- After the second `await`: `net` says what each wait for the receipt returns.
unfoldable pub after_receipt :
    (ℕ → Option ReceiptStatus) → ℕ → Flight → SettlementPipeline → SettlementPipeline × Outcome
after_receipt net id f p = receipt_result id f p (retry_with_backoff net 2 1000).result

unfoldable pub pending_count : SettlementPipeline → ℕ
pending_count p = length p.pending_trades

pub get_batch : ℕ → SettlementPipeline → Option SettlementBatch
get_batch id p = lookup id p.batches

pub record Stats : Type 0 where
  pub total_batches : ℕ
  pub pending_trades : ℕ
  pub confirmed : ℕ
  pub failed : ℕ

abbrev pub count_status : BatchStatus → Dict ℕ SettlementBatch → ℕ
count_status st m = sum_values (λ b. if status_eqb b.status st then 1 else 0) m

unfoldable pub get_stats : SettlementPipeline → Stats
get_stats p = record {
  total_batches = p.batch_counter;
  pending_trades = length p.pending_trades;
  confirmed = count_status BatchStatus.confirmed p.batches;
  failed = count_status BatchStatus.failed p.batches;
}
