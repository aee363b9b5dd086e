-- ===== src/Points/Tests.antt =====
-- A campaign at work, with whole numbers for the floating-point ones.
use sur_protocol.Common.{ℕ, ◌≡◌, refl, List, [], ◌∷◌, nat_eq}
use sur_protocol.Common.Doubles.{whole}
use sur_protocol.Points.Campaign.{
  get_or_create, volume_tier_multiplier, streak_multiplier, credit_referral_points,
  calculate_points_for_trade, register_referral,
}
use sur_protocol.Points.Ledger.{IsBooked}
use sur_protocol.Points.Runs.{Event, trades, refers, run, empty, run-IsBooked}

-- Trader 8 has come through trader 7 and trades on two days in turn.
abbrev events : List (Event ℕ)
events =
    refers 7 8 99
    ∷ trades (record { today = 100; yesterday = 99 }) 8 20000
    ∷ trades (record { today = 101; yesterday = 100 }) 8 90000
    ∷ []

two_days :
    let r = get_or_create {F = ℕ} 8 (run events empty).records in
    (r.streak_days ≡ 2) × (r.trade_count ≡ 2) × (r.total_volume ≡ 110000)
unfolding volume_tier_multiplier streak_multiplier credit_referral_points calculate_points_for_trade
    register_referral
two_days = (refl, refl, refl)

run-IsBooked_example : IsBooked {F = ℕ} (run events empty)
run-IsBooked_example = run-IsBooked events
