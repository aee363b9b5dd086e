-- ===== src/Keeper/Accounting.antt =====
-- The results of liquidations, and the statistics that the keeper keeps of them.
use Prim.Native.Nat.{ℕ}
use native.Mathlib.Nat.{div-mul-le_self, lt-div-mul-add}
use sur_protocol.Common.{
  suc, ◌+◌, ◌*◌, ◌/◌, ◌≤◌, ◌<◌, ℤ, Bool, ◌≡◌, refl, List, [], ◌∷◌, arith, if◌then◌else◌, length,
  map, sum_by, sum_by-append,
}
use sur_protocol.Keeper.Tracker.{Log, PositionKey, Positions, handle, verify_position}
use sur_protocol.Keeper.Scanner.{
  LiquidationCandidate, LiquidationResult, KeeperStats, LiquidationScanner, init, Chain, scan,
}
use sur_protocol.Keeper.Execution.{
  Receipt, Transaction, threw, mined, Network, gas_cost, call_for, liquidate_batch, single_result,
  mined_result, execute_single, execute_each, candidate_key, batch_results, execute_batch,
  execute_all, or_zero, count_result, count_results, execute_liquidations, worthwhile, scan_round,
}

abbrev pub result_key : LiquidationResult → PositionKey
result_key r = (r.market_id, r.trader)

single_result-key :
    (now : ℕ) (c : LiquidationCandidate) (t : Transaction)
    → result_key (single_result now c t) ≡ candidate_key c
single_result-key now c (threw e) = refl
single_result-key now c (mined h r) = refl

execute_each-keys :
    (net : Network) (k : ℕ) (cs : List LiquidationCandidate)
    → map result_key (execute_each net k cs) ≡ map candidate_key cs
unfolding execute_single
execute_each-keys net k [] = refl
execute_each-keys net k (c ∷ cs) =
    rw
      (
        single_result-key (net.now k) c (net.transact k (call_for (net.margin_mode k c.trader) c)),
        execute_each-keys net (suc k) cs,
      )
      refl

batch_results-keys :
    (net : Network) (cs : List LiquidationCandidate) (t : Transaction)
    → map result_key (batch_results net cs t) ≡ map candidate_key cs
batch_results-keys net cs (threw e) = execute_each-keys net 1 cs
batch_results-keys net cs (mined h r) = all_mined (gas_cost r / length cs) cs
  where
    all_mined :
        (gas : ℕ) (ds : List LiquidationCandidate)
        → map result_key (map (mined_result (net.now 0) h r.succeeded gas) ds)
          ≡ map candidate_key ds
    all_mined gas [] = refl
    all_mined gas (d ∷ ds) = rw (all_mined gas ds) refl

execute_all-keys :
    (net : Network) (cs : List LiquidationCandidate)
    → map result_key (execute_all net cs) ≡ map candidate_key cs
unfolding execute_batch
execute_all-keys net [] = refl
execute_all-keys net (c ∷ []) = execute_each-keys net 0 (c ∷ [])
execute_all-keys net (c ∷ d ∷ cs) = batch_results-keys net (c ∷ d ∷ cs) _

-- Whatever the network answers, `executeLiquidations` returns one result for each candidate, in the
-- order of the candidates, also where a failed batch is taken up one by one.
pub execute_liquidations-keys :
    (net : Network) (cs : List LiquidationCandidate) (s : LiquidationScanner)
    → map result_key (execute_liquidations net cs s).1 ≡ map candidate_key cs
unfolding execute_liquidations
execute_liquidations-keys net cs s = execute_all-keys net cs

abbrev pub gas_of : LiquidationResult → ℕ
gas_of r = or_zero r.gas_used

gas_of_mined :
    (now hash : ℕ) (b : Bool) (gas : ℕ) (cs : List LiquidationCandidate)
    → sum_by gas_of (map (mined_result now hash b gas) cs) ≡ gas * length cs
gas_of_mined now hash b gas [] = omega arith
gas_of_mined now hash b gas (c ∷ cs) = omega (arith, gas_of_mined now hash b gas cs)

-- When a batch is mined, the gas that its results account for is at most what the transaction has
-- cost, and less by fewer units than there are candidates.
pub batch_gas_bounds :
    (net : Network) (c : LiquidationCandidate) (cs : List LiquidationCandidate) (hash : ℕ)
    (r : Receipt)
    → net.transact 0 (liquidate_batch (map candidate_key (c ∷ cs))) ≡ mined hash r
    → let gas = sum_by gas_of (execute_batch net (c ∷ cs)) in
      (gas ≤ gas_cost r) × (gas_cost r < gas + length (c ∷ cs))
unfolding execute_batch
batch_gas_bounds net c cs hash r e =
    let n = length (c ∷ cs) in
    rw (e, gas_of_mined (net.now 0) hash r.succeeded (gas_cost r / n) (c ∷ cs))
      (div-mul-le_self (gas_cost r) n, lt-div-mul-add {a = gas_cost r} {b = n} (omega arith))

abbrev pub count_success : LiquidationResult → ℕ
count_success r = if r.success then 1 else 0

abbrev pub count_failure : LiquidationResult → ℕ
count_failure r = if r.success then 0 else 1

abbrev pub earned : LiquidationResult → ℕ
earned r = if r.success then or_zero r.reward else 0

-- The figures are those of all results together.
pub record IsAccounted (s : LiquidationScanner) : Type 0 where
  pub successes : s.stats.total_liquidations ≡ sum_by count_success s.results
  pub failures : s.stats.total_failed ≡ sum_by count_failure s.results
  pub rewards : s.stats.total_reward_earned ≡ sum_by earned s.results
  pub gas : s.stats.total_gas_spent ≡ sum_by gas_of s.results

-- What a list of results adds to the figures.
record Added (rs : List LiquidationResult) (t u : KeeperStats) : Type 0 where
  successes : u.total_liquidations ≡ t.total_liquidations + sum_by count_success rs
  failures : u.total_failed ≡ t.total_failed + sum_by count_failure rs
  rewards : u.total_reward_earned ≡ t.total_reward_earned + sum_by earned rs
  gas : u.total_gas_spent ≡ t.total_gas_spent + sum_by gas_of rs

count_results-Added :
    (rs : List LiquidationResult) (t : KeeperStats) → Added rs t (count_results rs t)
count_results-Added [] t = record {
  successes = omega arith;
  failures = omega arith;
  rewards = omega arith;
  gas = omega arith;
}
count_results-Added (r ∷ rs) t =
    let h = count_results-Added rs (count_result r t) in
    record {
      successes = ground (arith, h.successes);
      failures = ground (arith, h.failures);
      rewards = ground (arith, h.rewards);
      gas = ground (arith, h.gas);
    }

IsAccounted-execute :
    (net : Network) (cs : List LiquidationCandidate) (s : LiquidationScanner)
    → IsAccounted s
    → IsAccounted (execute_liquidations net cs s).0
unfolding execute_liquidations
IsAccounted-execute net cs s v =
    let rs = execute_all net cs in
    let h = count_results-Added rs s.stats in
    record {
      successes = omega (arith, h.successes, v.successes, sum_by-append count_success s.results rs);
      failures = omega (arith, h.failures, v.failures, sum_by-append count_failure s.results rs);
      rewards = omega (arith, h.rewards, v.rewards, sum_by-append earned s.results rs);
      gas = omega (arith, h.gas, v.gas, sum_by-append gas_of s.results rs);
    }

scan-IsAccounted :
    (chain : Chain) (s : LiquidationScanner) → IsAccounted s → IsAccounted (scan chain s).0
unfolding scan
scan-IsAccounted chain s v = record {
  successes = v.successes;
  failures = v.failures;
  rewards = v.rewards;
  gas = v.gas;
}

-- What happens to a scanner: a round of the main loop, an event of the contract, and the end of a
-- call of `verifyPosition`, with what the contract has answered.
pub data Event : Type 0 where
  rounds : (min_reward max_batch_size : ℕ) → Chain → Network → Event
  logs : Log → Event
  verifies : (market trader : ℕ) → (size : ℤ) → (entry_price margin block : ℕ) → Event

abbrev pub step : Event → LiquidationScanner → LiquidationScanner
step (rounds min_reward n chain net) s = (scan_round min_reward n chain net s).0
step (logs l) s = record s { tracker = handle l s.tracker }
step (verifies m t size price margin block) s = record s {
  tracker = (verify_position m t size price margin block s.tracker).0;
}

abbrev pub run : List Event → LiquidationScanner → LiquidationScanner
run [] s = s
run (e ∷ es) s = run es (step e s)

step-IsAccounted : (e : Event) (s : LiquidationScanner) → IsAccounted s → IsAccounted (step e s)
unfolding scan_round
step-IsAccounted (rounds min_reward n chain net) s v =
    IsAccounted-execute net (worthwhile min_reward n (scan chain s).1) (scan chain s).0
      (scan-IsAccounted chain s v)
step-IsAccounted (logs l) s v = record {
  successes = v.successes;
  failures = v.failures;
  rewards = v.rewards;
  gas = v.gas;
}
step-IsAccounted (verifies m t size price margin block) s v = record {
  successes = v.successes;
  failures = v.failures;
  rewards = v.rewards;
  gas = v.gas;
}

run_keeps : (es : List Event) (s : LiquidationScanner) → IsAccounted s → IsAccounted (run es s)
run_keeps [] s v = v
run_keeps (e ∷ es) s v = run_keeps es (step e s) (step-IsAccounted e s v)

-- After any run of a new scanner, with whatever answers of the network, its figures are those of
-- all the results together: the liquidations that succeeded and failed, the rewards of those that
-- succeeded, and the gas.
pub run-IsAccounted :
    (es : List Event) (now : ℕ) (ps : Positions) → IsAccounted (run es (init now ps))
unfolding init
run-IsAccounted es now ps =
    run_keeps es (init now ps)
      (record { successes = refl; failures = refl; rewards = refl; gas = refl })
