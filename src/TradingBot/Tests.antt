-- ===== src/TradingBot/Tests.antt =====
-- A day of the circuit breaker, and its theorems at it.
use sur_protocol.Common.{◌≢◌, ◌≡◌, ◌↔◌, refl, pos, negsuc, List, [], ◌∷◌, arith, nat_eq}
use sur_protocol.TradingBot.CircuitBreaker.{
  CircuitBreakerConfig, CircuitBreaker, CloseReason, init, can_trade, record_trade, allowed,
}
use sur_protocol.TradingBot.CircuitBreaker.Allowance.{IsFree, engine_trades_on}
use sur_protocol.TradingBot.CircuitBreaker.Counting.{trades_of, can_trade_iff}
use sur_protocol.TradingBot.CircuitBreaker.Tripping.{Event, asks, closes, run, tripped_stays_paused}

-- Two stops within 1000 pause an engine for 500.
abbrev config : CircuitBreakerConfig
config = record {
  max_consec_sl = 2;
  sl_window_ms = 1000;
  pause_duration_ms = 500;
  max_trades_per_day = 10;
  max_trades_per_engine = 4;
  max_daily_loss_abs = pos 6000;
  loss_streak_cooldown_mult = 20;
}

-- The breaker of day 0, after a stop of engine 1 at 100.
abbrev breaker : CircuitBreaker
breaker = record (init config 0) {
  sl_history = record { engine = 1; timestamp = 100 } ∷ [];
  trade_history = record { engine = 1; timestamp = 100; pnl = negsuc 99 } ∷ [];
  daily_pnl = negsuc 99;
  consecutive_losses = (1, 1) ∷ [];
}

-- A trade of the first day and one of the second.
abbrev two_days : List Event
two_days =
    closes 1 (negsuc 99) CloseReason.sl 100
    ∷ closes 1 (pos 50) CloseReason.other 86400100
    ∷ asks 2 86400200
    ∷ []

can_trade_iff_example :
    ((can_trade 1 86400300 (run two_days (init config 0))).1 ≡ allowed)
    ↔ IsFree 1 86400300 config (trades_of two_days) (run two_days (init config 0))
can_trade_iff_example =
    can_trade_iff config 0 86400300 1 two_days
      (omega arith, (omega arith, (omega arith, omega arith)))

one_on_the_second_day : engine_trades_on 1 86400300 (trades_of two_days) ≡ 1
one_on_the_second_day = refl

-- The second stop, at 200, pauses engine 1; engine 2 goes on.
tripped_stays_paused_example :
    (can_trade 1 600 (
      run
        (asks 2 300 ∷ closes 2 (pos 50) CloseReason.other 400 ∷ asks 1 500 ∷ [])
        (record_trade 1 (negsuc 99) CloseReason.sl 200 breaker))).1
    ≢ allowed
tripped_stays_paused_example =
    tripped_stays_paused 1 200 600 (negsuc 99) CloseReason.sl
      (asks 2 300 ∷ closes 2 (pos 50) CloseReason.other 400 ∷ asks 1 500 ∷ []) breaker tt refl
      (omega arith) (ground arith) (omega arith)
