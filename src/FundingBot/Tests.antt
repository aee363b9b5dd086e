-- ===== src/FundingBot/Tests.antt =====
-- A cycle of the funding bot, with whole numbers for the floating-point ones.
use sur_protocol.Common.{zero, suc, ℕ, pos, true, false, ◌≡◌, refl, [], ◌∷◌, some, length, arith}
use sur_protocol.Common.Doubles.{whole}
use sur_protocol.Settlement.Retry.{retry_with_backoff}
use sur_protocol.FundingBot.{MarketData, FundingStats, Replies, apply_funding, handle_market, cycle}
use sur_protocol.FundingBot.Limits.{Newest, snapshots, cycle_keeps_Newest}

abbrev market : MarketData
market = record {
  active = true;
  mark_price = 110000000;
  index_price = 100000000;
  cumulative_funding = pos 0;
  last_funding_update = 1000;
  funding_interval_secs = 3600;
  oi_long = 0;
  oi_short = 0;
}

abbrev replies : Replies
replies = record {
  read = λ n. some market;
  write = λ n. some 50;
  receipt = λ h. some (record { succeeded = true; gas_used = 21; effective_gas_price = some 2 });
}

abbrev stats : FundingStats ℕ
stats = record { total_applications = 0; total_gas_spent = 0; history = []; started_at = 0 }

-- The first market is due at the time, the second is not yet.
abbrev clock : ℕ → ℕ
clock zero = 4600000
clock (suc k) = 4599000

applied_once : (cycle (0 ∷ 1 ∷ []) clock (λ name. replies) stats).total_applications ≡ 1
unfolding cycle handle_market apply_funding retry_with_backoff
applied_once = refl

cycle_keeps_Newest_example :
    Newest 200
      (snapshots {F = ℕ} (0 ∷ 1 ∷ []) clock (λ name. replies))
      (cycle (0 ∷ 1 ∷ []) clock (λ name. replies) stats).history
cycle_keeps_Newest_example =
    cycle_keeps_Newest (0 ∷ 1 ∷ []) clock (λ name. replies) stats (omega arith)

-- The second market is not active.
abbrev only_first : ℕ → Replies
only_first zero = replies
only_first (suc k) = record replies { read = λ n. some (record market { active = false }) }

abbrev cycles : ℕ → FundingStats ℕ
cycles zero = stats
cycles (suc n) = cycle (0 ∷ 1 ∷ []) clock only_first (cycles n)

-- Of two markets, the one that is active keeps more than a hundred snapshots.
over_a_hundred : length (cycles 103).history ≡ 103
unfolding cycle handle_market apply_funding retry_with_backoff
over_a_hundred = refl
