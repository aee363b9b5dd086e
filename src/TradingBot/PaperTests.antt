-- ===== src/TradingBot/PaperTests.antt =====
-- The paper executor at work, with whole numbers for the floating-point ones.
use sur_protocol.Common.{ℕ, ◌≡◌, refl, List, [], ◌∷◌, some, none, map}
use sur_protocol.Common.Doubles.{whole}
use sur_protocol.TradingBot.PaperExecutor.{
  long, ExitReason, stop_hit, Signal, OpenOptions, Position, BotConfig, init, new_position,
  open_position, close_position, check_circuit_breakers,
}
use sur_protocol.TradingBot.PaperExecutor.Updates.{update_position, update_positions}
use sur_protocol.TradingBot.PaperExecutor.Settling.{
  Event, signals, opens, closes, updates, run, IsSettled, replayed, run-IsSettled,
}

abbrev config : BotConfig ℕ
config = record {
  starting_capital = 1000;
  position_size_pct = 100;
  trailing_activation_pct = 5;
  trailing_callback_pct = 1;
  max_daily_loss_pct = 10;
  max_weekly_loss_pct = 20;
}

abbrev signal : Signal ℕ
signal = record {
  side = long;
  price = 100;
  suggested_leverage = 1;
  stop_loss = 90;
  take_profit = 0;
}

abbrev options : OpenOptions ℕ
options = record {
  margin = some 500;
  leverage = none;
  trailing_activation_pct = none;
  trailing_callback_pct = none;
}

abbrev position : Position ℕ
position = new_position config 1 0 signal 1000 options

-- Bought at 100, the price falls to 90, where the stop loss lies, and the position is sold at 120.
abbrev events : List (Event ℕ)
events =
    signals ∷ opens 1 0 signal 1000 options ∷ updates 70000 90 ∷ closes position 120 0 80000 ∷ []

stopped :
    map
      (λ (x : Position ℕ × ExitReason). x.1)
      (update_positions 70000 90
        (run (signals ∷ opens 1 0 signal 1000 options ∷ []) (init 0 config))).1
    ≡ stop_hit ∷ []
unfolding init open_position update_positions update_position
stopped = refl

sold_with_profit : (run events (init 0 config)).capital ≡ 1100
unfolding init open_position update_positions update_position close_position check_circuit_breakers
sold_with_profit = refl

run-IsSettled_example : let e = run events (init 0 config) in IsSettled e × (replayed e ≡ e.capital)
run-IsSettled_example = run-IsSettled events 0 config
