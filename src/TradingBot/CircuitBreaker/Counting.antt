-- ===== src/TradingBot/CircuitBreaker/Counting.antt =====
-- What `canTrade` of the circuit breaker counts: the trades that a run of calls has closed on the day.
use sur_protocol.Common.{
  ℕ, ◌+◌, ◌*◌, ◌≤◌, ◌≡◌, refl, List, [], ◌∷◌, ◌++◌, arith, leb, keep, ==_iff, nat_eq, ◌/◌, ap, ◌∙◌,
  ◌↔◌,
}
use sur_protocol.TradingBot.CircuitBreaker.{
  CircuitBreaker, CircuitBreakerConfig, TradeRecord, can_trade, record_trade, init, allowed,
}
use sur_protocol.TradingBot.CircuitBreaker.Pauses.{can_trade_config, record_trade_config}
use sur_protocol.TradingBot.CircuitBreaker.Allowance.{
  IsFree, trades_on, engine_trades_on, can_trade_timely,
}
use sur_protocol.TradingBot.CircuitBreaker.Tripping.{Event, asks, closes, time, run}
use sur_protocol.TradingBot.CircuitBreaker.Timely.{
  InOrder, can_trade_trades, record_trade_trades, run-IsTimely, init-IsTimely,
}

-- The trades that a run of calls closes.
abbrev pub trades_of : List Event → List TradeRecord
trades_of [] = []
trades_of (asks e t ∷ vs) = trades_of vs
trades_of (closes e pnl reason t ∷ vs) =
    record { engine = e; timestamp = t; pnl = pnl } ∷ trades_of vs

-- The clean-up keeps the trades of the day.
trades_on-recent :
    (now t : ℕ) (ts : List TradeRecord)
    → t ≤ now
    → trades_on now (keep (λ (x : TradeRecord). leb t (x.timestamp + 7 * 86400000)) ts)
      ≡ trades_on now ts
trades_on-recent now t [] le = refl
trades_on-recent now t (x ∷ xs) le =
    ground
      (arith, le, trades_on-recent now t xs le, ==_iff (x.timestamp / 86400000) (now / 86400000))

engine_trades_on-recent :
    (e now t : ℕ) (ts : List TradeRecord)
    → t ≤ now
    → engine_trades_on e now (keep (λ (x : TradeRecord). leb t (x.timestamp + 7 * 86400000)) ts)
      ≡ engine_trades_on e now ts
engine_trades_on-recent e now t [] le = refl
engine_trades_on-recent e now t (x ∷ xs) le = ground (
  arith,
  le,
  engine_trades_on-recent e now t xs le,
  ==_iff (x.timestamp / 86400000) (now / 86400000),
)

trades_on-append :
    (now : ℕ) (ts us : List TradeRecord)
    → trades_on now (ts ++ us) ≡ trades_on now ts + trades_on now us
trades_on-append now [] us = omega arith
trades_on-append now (t ∷ ts) us = ground (arith, trades_on-append now ts us)

engine_trades_on-append :
    (e now : ℕ) (ts us : List TradeRecord)
    → engine_trades_on e now (ts ++ us) ≡ engine_trades_on e now ts + engine_trades_on e now us
engine_trades_on-append e now [] us = omega arith
engine_trades_on-append e now (t ∷ ts) us = ground (arith, engine_trades_on-append e now ts us)

InOrder-le : (from to : ℕ) (vs : List Event) → InOrder from vs to → from ≤ to
InOrder-le from to [] h = h
InOrder-le from to (v ∷ vs) h = omega (arith, h.0, InOrder-le (time v) to vs h.1)

-- The history counts every trade of the day of `now` that the run has closed.
run-trades_on :
    (from now : ℕ) (vs : List Event) (b : CircuitBreaker)
    → InOrder from vs now
    → trades_on now (run vs b).trade_history
      ≡ trades_on now b.trade_history + trades_on now (trades_of vs)
run-trades_on from now [] b h = omega arith
run-trades_on from now (asks e t ∷ vs) b h =
    run-trades_on t now vs (can_trade e t b).0 h.1
    ∙ ap (λ ts. trades_on now ts + trades_on now (trades_of vs)) (can_trade_trades e t b)
run-trades_on from now (closes e pnl reason t ∷ vs) b h =
    let x : TradeRecord = record { engine = e; timestamp = t; pnl = pnl } in
    omega (
      arith,
      run-trades_on t now vs (record_trade e pnl reason t b) h.1,
      ap (trades_on now) (record_trade_trades e t pnl reason b),
      trades_on-recent now t (b.trade_history ++ x ∷ []) (InOrder-le t now vs h.1),
      trades_on-append now b.trade_history (x ∷ []),
      trades_on-append now (x ∷ []) (trades_of vs),
    )

run-engine_trades_on :
    (e from now : ℕ) (vs : List Event) (b : CircuitBreaker)
    → InOrder from vs now
    → engine_trades_on e now (run vs b).trade_history
      ≡ engine_trades_on e now b.trade_history + engine_trades_on e now (trades_of vs)
run-engine_trades_on e from now [] b h = omega arith
run-engine_trades_on e from now (asks f t ∷ vs) b h =
    run-engine_trades_on e t now vs (can_trade f t b).0 h.1
    ∙ ap (λ ts. engine_trades_on e now ts + engine_trades_on e now (trades_of vs))
        (can_trade_trades f t b)
run-engine_trades_on e from now (closes f pnl reason t ∷ vs) b h =
    let x : TradeRecord = record { engine = f; timestamp = t; pnl = pnl } in
    omega (
      arith,
      run-engine_trades_on e t now vs (record_trade f pnl reason t b) h.1,
      ap (engine_trades_on e now) (record_trade_trades f t pnl reason b),
      engine_trades_on-recent e now t (b.trade_history ++ x ∷ []) (InOrder-le t now vs h.1),
      engine_trades_on-append e now b.trade_history (x ∷ []),
      engine_trades_on-append e now (x ∷ []) (trades_of vs),
    )

run_config : (vs : List Event) (b : CircuitBreaker) → (run vs b).config ≡ b.config
run_config [] b = refl
run_config (asks e t ∷ vs) b = run_config vs (can_trade e t b).0 ∙ can_trade_config e t b
run_config (closes e pnl reason t ∷ vs) b =
    run_config vs (record_trade e pnl reason t b) ∙ record_trade_config e t pnl reason b

-- After any calls in the order of time on a new breaker, `canTrade` answers that an engine may
-- trade exactly if no global pause is on that ends after `now`, the engine has no pause that ends
-- after `now`, and of the trades recorded by the calls fewer than the configuration's limits were
-- closed on the UTC day of `now`, by all engines and by this one.
pub can_trade_iff :
    (c : CircuitBreakerConfig) (from now e : ℕ) (vs : List Event)
    → InOrder from vs now
    → ((can_trade e now (run vs (init c from))).1 ≡ allowed)
      ↔ IsFree e now c (trades_of vs) (run vs (init c from))
can_trade_iff c from now e vs w =
    let b = run vs (init c from) in
    let i =
      can_trade_timely e now b (run-IsTimely from now vs (init c from) w (init-IsTimely c from)) in
    let all = run-trades_on from now vs (init c from) w in
    let own = run-engine_trades_on e from now vs (init c from) w in
    let same = run_config vs (init c from) in
    (
      λ a.
          let k = i.0 a in
          record {
            resumed = k.resumed;
            released = k.released;
            daily = ground (arith, k.daily, all, same);
            per_engine = ground (arith, k.per_engine, own, same);
          },
      λ f. i.1 (record {
        resumed = f.resumed;
        released = f.released;
        daily = ground (arith, f.daily, all, same);
        per_engine = ground (arith, f.per_engine, own, same);
      }),
    )
