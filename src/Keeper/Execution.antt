-- ===== src/Keeper/Execution.antt =====
-- The execution of liquidations, keeper/src/scanner.ts, and a round of the main loop of
-- keeper/src/index.ts.
use sur_protocol.Common.{
  ℕ, suc, ◌+◌, ◌*◌, ◌/◌, Bool, false, List, [], ◌∷◌, ◌++◌, Option, none, some, leb, ◌==◌,
  if◌then◌else◌, length, keep, take, slice_last, map,
}
use sur_protocol.Keeper.Tracker.{PositionKey}
use sur_protocol.Keeper.Scanner.{
  LiquidationCandidate, LiquidationResult, KeeperStats, LiquidationScanner, Chain, scan,
}

-- The calls of the liquidator's contract.
pub data Call : Type 0 where
  liquidate : (market trader : ℕ) → Call
  liquidate_account : (trader : ℕ) → Call
  liquidate_batch : List PositionKey → Call

pub record Receipt : Type 0 where
  pub succeeded : Bool
  pub gas_used : ℕ
  pub effective_gas_price : Option ℕ

-- What the simulation, the submission and the wait for the receipt of a call come to: an error that
-- one of them throws, or the receipt.
pub data Transaction : Type 0 where
  threw : (error : ℕ) → Transaction
  mined : (hash : ℕ) → Receipt → Transaction

-- What the network answers during `executeLiquidations`, by the number of the attempt: the margin
-- mode of a trader (none where the call throws), a transaction, and the time at its end.
pub record Network : Type 0 where
  pub margin_mode : ℕ → ℕ → Option ℕ
  pub transact : ℕ → Call → Transaction
  pub now : ℕ → ℕ

abbrev pub is_cross : Option ℕ → Bool
is_cross none = false
is_cross (some m) = m == 1

abbrev pub gas_cost : Receipt → ℕ
gas_cost r = elim r.effective_gas_price [ none ↦ 0 | some price ↦ r.gas_used * price ]

abbrev pub call_for : Option ℕ → LiquidationCandidate → Call
call_for mode c =
    if is_cross mode then liquidate_account c.trader else liquidate c.market_id c.trader

abbrev pub mined_result : ℕ → ℕ → Bool → ℕ → LiquidationCandidate → LiquidationResult
mined_result now hash succeeded gas c = record {
  success = succeeded;
  market_id = c.market_id;
  trader = c.trader;
  tx_hash = some hash;
  gas_used = some gas;
  reward = some c.estimated_reward;
  error = none;
  timestamp = now;
}

abbrev pub single_result : ℕ → LiquidationCandidate → Transaction → LiquidationResult
single_result now c (threw e) = record {
  success = false;
  market_id = c.market_id;
  trader = c.trader;
  tx_hash = none;
  gas_used = none;
  reward = none;
  error = some e;
  timestamp = now;
}
single_result now c (mined hash r) = mined_result now hash r.succeeded (gas_cost r) c

unfoldable pub execute_single : Network → ℕ → LiquidationCandidate → LiquidationResult
execute_single net k c =
    single_result (net.now k) c (net.transact k (call_for (net.margin_mode k c.trader) c))

abbrev pub execute_each : Network → ℕ → List LiquidationCandidate → List LiquidationResult
execute_each net k [] = []
execute_each net k (c ∷ cs) = execute_single net k c ∷ execute_each net (suc k) cs

abbrev pub candidate_key : LiquidationCandidate → PositionKey
candidate_key c = (c.market_id, c.trader)

abbrev pub batch_results :
    Network → List LiquidationCandidate → Transaction → List LiquidationResult
batch_results net cs (mined hash r) =
    map (mined_result (net.now 0) hash r.succeeded (gas_cost r / length cs)) cs
batch_results net cs (threw e) = execute_each net 1 cs

unfoldable pub execute_batch : Network → List LiquidationCandidate → List LiquidationResult
execute_batch net cs =
    batch_results net cs (net.transact 0 (liquidate_batch (map candidate_key cs)))

abbrev pub execute_all : Network → List LiquidationCandidate → List LiquidationResult
execute_all net [] = []
execute_all net (c ∷ []) = execute_single net 0 c ∷ []
execute_all net (c ∷ d ∷ cs) = execute_batch net (c ∷ d ∷ cs)

abbrev pub or_zero : Option ℕ → ℕ
or_zero none = 0
or_zero (some n) = n

-- "Update stats", for one result.
abbrev pub add_gas : LiquidationResult → KeeperStats → KeeperStats
add_gas r t = record t { total_gas_spent = t.total_gas_spent + or_zero r.gas_used }

abbrev pub count_result : LiquidationResult → KeeperStats → KeeperStats
count_result r t = add_gas r (
    if r.success
    then record t {
      total_liquidations = suc t.total_liquidations;
      total_reward_earned = t.total_reward_earned + or_zero r.reward;
    }
    else record t { total_failed = suc t.total_failed })

abbrev pub count_results : List LiquidationResult → KeeperStats → KeeperStats
count_results [] t = t
count_results (r ∷ rs) t = count_results rs (count_result r t)

-- The positions that `verifyPosition` is called for.
abbrev pub to_verify : List LiquidationResult → List PositionKey
to_verify [] = []
to_verify (r ∷ rs) = elim r.tx_hash [
  | none ↦ to_verify rs
  | some hash ↦ (r.market_id, r.trader) ∷ to_verify rs
]

unfoldable pub execute_liquidations :
    Network
    → List LiquidationCandidate
    → LiquidationScanner
    → LiquidationScanner × List LiquidationResult
execute_liquidations net cs s =
    let rs = execute_all net cs in
    (
      record s {
        stats = count_results rs s.stats;
        results = s.results ++ rs;
        verifying = s.verifying ++ to_verify rs;
      },
      rs,
    )

-- `getRecentResults`
abbrev pub recent_results : ℕ → LiquidationScanner → List LiquidationResult
recent_results n s = slice_last n s.results

-- The candidates that a round of the main loop of keeper/src/index.ts liquidates: those that pay
-- the minimum, and of them at most as many as a batch holds.
unfoldable pub worthwhile : ℕ → ℕ → List LiquidationCandidate → List LiquidationCandidate
worthwhile min_reward max_batch_size cs =
    take max_batch_size (keep (λ c. leb min_reward c.estimated_reward) cs)

-- One round, up to the next `sleep`.
unfoldable pub scan_round :
    ℕ → ℕ → Chain → Network → LiquidationScanner → LiquidationScanner × List LiquidationResult
scan_round min_reward max_batch_size chain net s =
    let (s', cs) = scan chain s in
    execute_liquidations net (worthwhile min_reward max_batch_size cs) s'
