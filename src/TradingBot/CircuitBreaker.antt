-- ===== src/TradingBot/CircuitBreaker.antt =====
-- `CircuitBreaker` of trading-bot/src/engines/circuit-breaker.ts. Engines are numbered; times are in
-- milliseconds; profits and losses, floating-point dollars in the source, are counted in one
-- smallest unit.
pub mod Allowance
pub mod Timely
pub mod Counting
pub mod Limits
pub mod Pauses
pub mod Tripping
use sur_protocol.Common.{
  ℕ, zero, suc, ◌+◌, ◌-◌, ◌*◌, ◌%◌, ℤ, pos, ◌+ℤ◌, ◌-ℤ◌, ltb_ℤ, Bool, true, false, not, ◌&&◌, ◌||◌,
  List, [], ◌∷◌, ◌++◌, Option, none, some, if◌then◌else◌, leb, ltb, ◌==◌, length, keep, nat_eq,
}
use sur_protocol.Common.Dict.{Dict, lookup, insert, erase}

pub record CircuitBreakerConfig : Type 0 where
  pub max_consec_sl : ℕ
  pub sl_window_ms : ℕ
  pub pause_duration_ms : ℕ
  pub max_trades_per_day : ℕ
  pub max_trades_per_engine : ℕ
  pub max_daily_loss_abs : ℤ
  pub loss_streak_cooldown_mult : ℕ

pub record SlRecord : Type 0 where
  pub engine : ℕ
  pub timestamp : ℕ

pub record TradeRecord : Type 0 where
  pub engine : ℕ
  pub timestamp : ℕ
  pub pnl : ℤ

pub record CircuitBreaker : Type 0 where
  pub config : CircuitBreakerConfig
  pub sl_history : List SlRecord
  pub trade_history : List TradeRecord
  pub paused_engines : Dict ℕ ℕ
  pub daily_pnl : ℤ
  pub day_start : ℕ
  pub global_paused : Bool
  pub global_resume_at : ℕ
  pub consecutive_losses : Dict ℕ ℕ

abbrev pub day : ℕ
day = 86400000

-- `getDayStart`: midnight UTC before a time.
abbrev pub get_day_start : ℕ → ℕ
get_day_start ts = ts - ts % day

-- `new CircuitBreaker(config)` at the time `now`.
abbrev pub init : CircuitBreakerConfig → ℕ → CircuitBreaker
init c now = record {
  config = c;
  sl_history = [];
  trade_history = [];
  paused_engines = [];
  daily_pnl = pos 0;
  day_start = get_day_start now;
  global_paused = false;
  global_resume_at = 0;
  consecutive_losses = [];
}

unfoldable pub maybe_reset_day : ℕ → CircuitBreaker → CircuitBreaker
maybe_reset_day now b =
    if ltb b.day_start (get_day_start now)
    then record b { day_start = get_day_start now; daily_pnl = pos 0 }
    else b

-- The answers of `canTrade`.
pub data Verdict : Type 0 where
  allowed global_pause engine_paused daily_limit engine_limit : Verdict

-- `map.get(engine) || 0`
abbrev pub get_or_zero : ℕ → Dict ℕ ℕ → ℕ
get_or_zero k m = elim (lookup k m) [ none ↦ 0 | some n ↦ n ]

-- The trades of the day that the breaker is in.
abbrev pub today_trades : CircuitBreaker → List TradeRecord
today_trades b = keep (λ t. leb b.day_start t.timestamp) b.trade_history

abbrev pub engine_today_trades : ℕ → CircuitBreaker → List TradeRecord
engine_today_trades e b = keep (λ t. t.engine == e) (today_trades b)

-- Step 1 of `canTrade` once the pause is over.
abbrev pub end_global_pause : ℕ → CircuitBreaker → CircuitBreaker
end_global_pause now b =
    if b.global_paused && leb b.global_resume_at now then record b { global_paused = false } else b

-- Step 2 of `canTrade` once the pause is over.
abbrev pub end_engine_pause : ℕ → ℕ → CircuitBreaker → CircuitBreaker
end_engine_pause e now b =
    let u = get_or_zero e b.paused_engines in
    if ltb 0 u && leb u now
    then record b {
      paused_engines = erase e b.paused_engines;
      sl_history = keep (λ r. not (r.engine == e)) b.sl_history;
      consecutive_losses = insert e 0 b.consecutive_losses;
    }
    else b

-- Steps 3 and 4 of `canTrade`.
abbrev pub check_limits : ℕ → CircuitBreaker → Verdict
check_limits e b =
    if leb b.config.max_trades_per_day (length (today_trades b))
    then daily_limit
    else if leb b.config.max_trades_per_engine (length (engine_today_trades e b))
    then engine_limit
    else allowed

-- Steps 2 to 4.
abbrev pub check_engine : ℕ → ℕ → CircuitBreaker → CircuitBreaker × Verdict
check_engine e now b =
    if ltb 0 (get_or_zero e b.paused_engines) && ltb now (get_or_zero e b.paused_engines)
    then (b, engine_paused)
    else (end_engine_pause e now b, check_limits e (end_engine_pause e now b))

abbrev pub check_all : ℕ → ℕ → CircuitBreaker → CircuitBreaker × Verdict
check_all e now b =
    if b.global_paused && ltb now b.global_resume_at
    then (b, global_pause)
    else check_engine e now (end_global_pause now b)

unfoldable pub can_trade : ℕ → ℕ → CircuitBreaker → CircuitBreaker × Verdict
can_trade e now b = check_all e now (maybe_reset_day now b)

-- The reasons to close a trade; the code distinguishes these three.
pub data CloseReason : Type 0 where
  sl liquidation other : CloseReason

abbrev pub is_stop : CloseReason → Bool
is_stop sl = true
is_stop liquidation = true
is_stop other = false

-- "Record trade", "Update daily PnL" and "Track consecutive losses per engine".
abbrev pub add_trade : ℕ → ℤ → ℕ → CircuitBreaker → CircuitBreaker
add_trade e pnl now b = record b {
  trade_history = b.trade_history ++ record { engine = e; timestamp = now; pnl = pnl } ∷ [];
  daily_pnl = b.daily_pnl +ℤ pnl;
  consecutive_losses =
      insert e (if ltb_ℤ pnl (pos 0) then suc (get_or_zero e b.consecutive_losses) else 0)
        b.consecutive_losses;
}

-- `recentSLs`, with `windowStart` on the other side of the comparison.
abbrev pub recent_sls : ℕ → ℕ → CircuitBreaker → List SlRecord
recent_sls e now b =
    keep (λ r. r.engine == e && leb now (r.timestamp + b.config.sl_window_ms)) b.sl_history

abbrev pub trip : ℕ → ℕ → CircuitBreaker → CircuitBreaker
trip e now b =
    if leb b.config.max_consec_sl (length (recent_sls e now b))
    then record b { paused_engines = insert e (now + b.config.pause_duration_ms) b.paused_engines }
    else b

-- "Track SL hits for per-engine breaker".
abbrev pub track_stop : ℕ → CloseReason → ℕ → CircuitBreaker → CircuitBreaker
track_stop e reason now b =
    if is_stop reason
    then trip e now
        (record b { sl_history = b.sl_history ++ record { engine = e; timestamp = now } ∷ [] })
    else b

-- "Check daily drawdown breaker".
abbrev pub check_drawdown : CircuitBreaker → CircuitBreaker
check_drawdown b =
    if ltb_ℤ b.daily_pnl (pos 0 -ℤ b.config.max_daily_loss_abs)
    then record b { global_paused = true; global_resume_at = b.day_start + day }
    else b

-- "Cleanup old history", with `cutoff` on the other side of the comparison.
abbrev pub cleanup : ℕ → CircuitBreaker → CircuitBreaker
cleanup now b = record b {
  trade_history = keep (λ t. leb now (t.timestamp + 7 * day)) b.trade_history;
  sl_history = keep (λ r. leb now (r.timestamp + 7 * day)) b.sl_history;
}

unfoldable pub record_trade : ℕ → ℤ → CloseReason → ℕ → CircuitBreaker → CircuitBreaker
record_trade e pnl reason now b =
    cleanup now
      (check_drawdown (track_stop e reason now (add_trade e pnl now (maybe_reset_day now b))))

-- `getCooldownMultiplier`; `one` is 1.0 in the unit of the configured multiplier.
unfoldable pub get_cooldown_multiplier : ℕ → ℕ → CircuitBreaker → ℕ
get_cooldown_multiplier one e b =
    if leb 2 (get_or_zero e b.consecutive_losses) then b.config.loss_streak_cooldown_mult else one
