-- ===== src/TradingBot/CircuitBreaker/Allowance.antt =====
-- When `canTrade` of the circuit breaker lets an engine trade, by the calendar day of the trades.
use sur_protocol.Common.{
  ℕ, suc, ◌≤◌, ◌<◌, ◌/◌, ◌%◌, ◌-◌, true, ◌≡◌, refl, ap, List, [], ◌∷◌, some, arith, length, leb,
  if◌then◌else◌, ◌&&◌, ◌↔◌, nat_eq, keep, ◌==◌, ==_iff, All, subst, sym, ◌∙◌, inl, inr,
  Option-cases,
}
use sur_protocol.Common.Dict.{Dict, lookup}
use sur_protocol.TradingBot.CircuitBreaker.{
  CircuitBreaker, CircuitBreakerConfig, TradeRecord, allowed, can_trade, maybe_reset_day,
  get_or_zero, today_trades, engine_today_trades,
}
use sur_protocol.TradingBot.CircuitBreaker.Limits.{IsBelowLimits, can_trade-IsCleared}
use sur_protocol.TradingBot.CircuitBreaker.Pauses.{reset_paused, reset_config}

-- How many trades have been closed on the same UTC day as the time `now`.
abbrev pub trades_on : ℕ → List TradeRecord → ℕ
trades_on now [] = 0
trades_on now (t ∷ ts) =
    if t.timestamp / 86400000 == now / 86400000 then suc (trades_on now ts) else trades_on now ts

-- How many of them the engine `e` has closed.
abbrev pub engine_trades_on : ℕ → ℕ → List TradeRecord → ℕ
engine_trades_on e now [] = 0
engine_trades_on e now (t ∷ ts) =
    if t.timestamp / 86400000 == now / 86400000 && t.engine == e
    then suc (engine_trades_on e now ts)
    else engine_trades_on e now ts

-- What the engine `e` may trade under, after the trades `ts`: no pause of the breaker goes on, and
-- the limits of the configuration `c` are not reached.
pub record IsFree (e now : ℕ) (c : CircuitBreakerConfig) (ts : List TradeRecord)
    (b : CircuitBreaker) : Type 0 where
  pub resumed : b.global_paused ≡ true → b.global_resume_at ≤ now
  pub released : (until : ℕ) → lookup e b.paused_engines ≡ some until → until ≤ now
  pub daily : trades_on now ts < c.max_trades_per_day
  pub per_engine : engine_trades_on e now ts < c.max_trades_per_engine

-- The breaker's day starts at a midnight, and it and the trades are not after `now`.
pub record IsTimely (now : ℕ) (b : CircuitBreaker) : Type 0 where
  pub midnight : b.day_start % 86400000 ≡ 0
  pub begun : b.day_start ≤ now
  pub closed : All (λ (t : TradeRecord). t.timestamp ≤ now) b.trade_history

pub reset_day_start :
    (now : ℕ) (b : CircuitBreaker)
    → b.day_start % 86400000 ≡ 0
    → b.day_start ≤ now
    → (maybe_reset_day now b).day_start ≡ now - now % 86400000
unfolding maybe_reset_day
reset_day_start now b m le = ground (arith, m, le)

same_day : (now t : ℕ) → t ≤ now → leb (now - now % 86400000) t ≡ (t / 86400000 == now / 86400000)
same_day now t le = ground (arith, le, ==_iff (t / 86400000) (now / 86400000))

trades_on-keep :
    (start now : ℕ) (ts : List TradeRecord)
    → start ≡ now - now % 86400000
    → All (λ (t : TradeRecord). t.timestamp ≤ now) ts
    → length (keep (λ t. leb start t.timestamp) ts) ≡ trades_on now ts
trades_on-keep start now [] e h = refl
trades_on-keep start now (t ∷ ts) e h =
    ground (arith, e, same_day now t.timestamp h.0, trades_on-keep start now ts e h.1)

engine_trades_on-keep :
    (start e now : ℕ) (ts : List TradeRecord)
    → start ≡ now - now % 86400000
    → All (λ (t : TradeRecord). t.timestamp ≤ now) ts
    → length (keep (λ t. t.engine == e) (keep (λ t. leb start t.timestamp) ts))
      ≡ engine_trades_on e now ts
engine_trades_on-keep start e now [] q h = refl
engine_trades_on-keep start e now (t ∷ ts) q h =
    ground (arith, q, same_day now t.timestamp h.0, engine_trades_on-keep start e now ts q h.1)

pub reset_trades :
    (t : ℕ) (b : CircuitBreaker) → (maybe_reset_day t b).trade_history ≡ b.trade_history
unfolding maybe_reset_day
reset_trades t b = ground arith

reset_global :
    (t : ℕ) (b : CircuitBreaker)
    → ((maybe_reset_day t b).global_paused ≡ b.global_paused)
      × ((maybe_reset_day t b).global_resume_at ≡ b.global_resume_at)
unfolding maybe_reset_day
reset_global t b = (ground arith, ground arith)

pauses_iff :
    (e now : ℕ) (m : Dict ℕ ℕ)
    → (get_or_zero e m ≤ now) ↔ ((until : ℕ) → lookup e m ≡ some until → until ≤ now)
pauses_iff e now m = elim (Option-cases (lookup e m)) [
  | inl missing ↦ (λ le u q. ground (arith, missing, q), λ h. ground (arith, missing))
  | inr (u, known) ↦ (λ le v q. ground (arith, known, q, le), λ h. ground (arith, known, h u known))
]

IsBelowLimits-iff :
    (e now : ℕ) (b : CircuitBreaker)
    → IsTimely now b
    → IsBelowLimits e (maybe_reset_day now b) ↔ (
        (trades_on now b.trade_history < b.config.max_trades_per_day)
        × (engine_trades_on e now b.trade_history < b.config.max_trades_per_engine))
IsBelowLimits-iff e now b h =
    let r = maybe_reset_day now b in
    let start = reset_day_start now b h.midnight h.begun in
    let all : length (today_trades r) ≡ trades_on now b.trade_history =
      rw (reset_trades now b) (trades_on-keep r.day_start now b.trade_history start h.closed) in
    let own : length (engine_today_trades e r) ≡ engine_trades_on e now b.trade_history =
      rw (reset_trades now b)
        (engine_trades_on-keep r.day_start e now b.trade_history start h.closed) in
    let config = reset_config now b in
    (
      λ k. (ground (arith, k.daily, all, config), ground (arith, k.per_engine, own, config)),
      λ k. record {
        daily = ground (arith, k.0, all, config);
        per_engine = ground (arith, k.1, own, config);
      },
    )

pub can_trade_timely :
    (e now : ℕ) (b : CircuitBreaker)
    → IsTimely now b
    → ((can_trade e now b).1 ≡ allowed) ↔ IsFree e now b.config b.trade_history b
can_trade_timely e now b h =
    let r = maybe_reset_day now b in
    let i = can_trade-IsCleared e now b in
    let j = IsBelowLimits-iff e now b h in
    let p = pauses_iff e now b.paused_engines in
    let paused = ap (get_or_zero e) (reset_paused now b) in
    let (on, at) = reset_global now b in
    (
      λ a.
          let k = i.0 a in
          record {
            resumed = λ q. ground (arith, k.resumed (on ∙ q), at);
            released = p.0 (subst (λ u. u ≤ now) paused k.released);
            daily = (j.0 k.below).0;
            per_engine = (j.0 k.below).1;
          },
      λ f. i.1 (record {
        resumed = λ q. ground (arith, f.resumed (sym on ∙ q), at);
        released = subst (λ u. u ≤ now) (sym paused) (p.1 f.released);
        below = j.1 (f.daily, f.per_engine);
      }),
    )
