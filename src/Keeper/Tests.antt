-- ===== src/Keeper/Tests.antt =====
-- A synchronisation over three ranges, and a scanner at work.
use sur_protocol.Common.{
  Bool, length, zero, suc, ◌+◌, ◌≤◌, ◌<◌, pos, true, false, refl, List, [], ◌∷◌, ◌⊎◌, inl, Option,
  none, some, All, map, keep, sum_by, arith, ◌==◌, ◌≡◌, ℕ, if◌then◌else◌, leb, ◌&&◌,
}
use mathlib.Core.List.{Perm}
use sur_protocol.Keeper.Scanner.{
  LiquidationCandidate, LiquidationScanner, Chain, candidate, scan, init,
}
use sur_protocol.Keeper.Execution.{
  Call, Receipt, Transaction, threw, mined, Network, execute_single, execute_batch,
  execute_liquidations, worthwhile, scan_round,
}
use sur_protocol.Keeper.Ranking.{IsRanked, is_due, scan_lem, worthwhile_lem}
use sur_protocol.Keeper.Accounting.{
  result_key, execute_liquidations-keys, gas_of, batch_gas_bounds, IsAccounted, rounds, verifies,
  run, run-IsAccounted,
}
use sur_protocol.Keeper.Tracker.{
  TrackedPosition, PositionKey, Positions, all_positions, ranges, times_in, AllShort, ranges_lem,
}

ranges_lem_example :
    ((n : ℕ) → times_in n (ranges 12001 100 12100) ≡ (if leb 100 n && leb n 12100 then 1 else 0))
    × AllShort (ranges 12001 100 12100)
ranges_lem_example = ranges_lem 100 12100

abbrev a_position : ℕ → ℕ → TrackedPosition
a_position trader margin = record {
  market_id = 1;
  trader = trader;
  size = pos 10;
  entry_price = 100;
  margin = margin;
  last_seen = 5;
}

-- The multicall fails; of the three positions the contract calls two liquidatable, and does not
-- answer for the third.
abbrev positions : Positions
positions = ((1, 7), a_position 7 40) ∷ ((1, 8), a_position 8 90) ∷ ((1, 9), a_position 9 60) ∷ []

abbrev due : PositionKey → Option Bool
due (m, t) = if t == 9 then none else some true

abbrev chain : Chain
chain = record { multicall = λ keys. none; is_liquidatable = due }

-- The batch throws; one by one, the first liquidation is mined and the second reverts.
abbrev transact : ℕ → Call → Transaction
transact zero c = threw 1
transact (suc zero) c =
    mined 50 (record { succeeded = true; gas_used = 21; effective_gas_price = some 2 })
transact (suc (suc k)) c =
    mined 51 (record { succeeded = false; gas_used = 13; effective_gas_price = none })

abbrev network : Network
network = record {
  margin_mode = λ k t. if t == 8 then some 1 else none;
  transact = transact;
  now = λ k. 1000 + k;
}

abbrev keeper0 : LiquidationScanner
keeper0 = record {
  tracker = positions;
  stats = record {
    total_scans = 0;
    total_liquidations = 0;
    total_failed = 0;
    total_reward_earned = 0;
    total_gas_spent = 0;
    started_at = 0;
  };
  results = [];
  verifying = [];
}

abbrev candidates : List LiquidationCandidate
candidates = candidate (a_position 8 90) ∷ candidate (a_position 7 40) ∷ []

found_first : (scan chain keeper0).1 ≡ candidates
unfolding scan
found_first = refl

keeper_stats :
    let t = (scan_round 1 10 chain network keeper0).0.stats in
    (t.total_liquidations ≡ 1)
    × (t.total_failed ≡ 1)
    × (t.total_reward_earned ≡ 45)
    × (t.total_gas_spent ≡ 42)
unfolding scan scan_round worthwhile execute_single execute_batch execute_liquidations
keeper_stats = (refl, refl, refl, refl)

scan_lem_example :
    IsRanked candidates
    × Perm candidates (map candidate (keep (is_due chain) (all_positions positions)))
unfolding scan
scan_lem_example = scan_lem chain keeper0 (λ keys. inl refl)

worthwhile_lem_example :
    All (λ (c : LiquidationCandidate). 30 ≤ c.estimated_reward) (candidate (a_position 8 90) ∷ [])
    × (1 ≤ 1)
    × ((left : List LiquidationCandidate) × (candidate (a_position 8 90) ∷ []
          ≡ candidate (a_position 8 90) ∷ left)
        × ((left ≡ []) ⊎ (length (candidate (a_position 8 90) ∷ []) ≡ 1))
        × All
            (λ (c : LiquidationCandidate).
              All (λ (d : LiquidationCandidate). d.estimated_reward ≤ c.estimated_reward) left)
            (candidate (a_position 8 90) ∷ []))
unfolding worthwhile
worthwhile_lem_example = worthwhile_lem 30 1 candidates ((ground arith, tt), (tt, tt))

execute_liquidations-keys_example :
    map result_key (execute_liquidations network candidates keeper0).1 ≡ (1, 8) ∷ (1, 7) ∷ []
execute_liquidations-keys_example = execute_liquidations-keys network candidates keeper0

-- Two candidates in one batch, of which the receipt says 21 units of gas at the price 1.
abbrev receipt : Receipt
receipt = record { succeeded = true; gas_used = 21; effective_gas_price = some 1 }

abbrev batching : Network
batching = record network { transact = λ k c. mined 60 receipt }

batch_gas_bounds_example :
    let gas = sum_by gas_of (execute_batch batching candidates) in (gas ≤ 21) × (21 < gas + 2)
batch_gas_bounds_example =
    batch_gas_bounds batching (candidate (a_position 8 90)) (candidate (a_position 7 40) ∷ []) 60
      receipt refl

run-IsAccounted_example :
    IsAccounted
      (run (rounds 1 10 chain network ∷ verifies 1 8 (pos 0) 0 0 9 ∷ []) (init 0 positions))
run-IsAccounted_example =
    run-IsAccounted (rounds 1 10 chain network ∷ verifies 1 8 (pos 0) 0 0 9 ∷ []) 0 positions
