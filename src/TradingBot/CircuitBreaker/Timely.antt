-- ===== src/TradingBot/CircuitBreaker/Timely.antt =====
-- The day and the trades of the circuit breaker under calls in the order of time.
use sur_protocol.Common.{
  ℕ, ◌+◌, ◌*◌, ◌≤◌, ℤ, Bool, ◌≡◌, List, [], ◌∷◌, ◌++◌, arith, leb, keep, All, All-append, if-elim,
  nat_eq,
}
use sur_protocol.TradingBot.CircuitBreaker.{
  CircuitBreaker, CircuitBreakerConfig, TradeRecord, CloseReason, can_trade, record_trade, init,
  maybe_reset_day,
}
use sur_protocol.TradingBot.CircuitBreaker.Allowance.{IsTimely, reset_day_start, reset_trades}
use sur_protocol.TradingBot.CircuitBreaker.Tripping.{Event, asks, closes, time, apply, run}

-- The events come in the order of time, from `from` on and up to `to`.
abbrev pub InOrder : ℕ → List Event → ℕ → Type 0
InOrder from [] to = from ≤ to
InOrder from (v ∷ vs) to = (from ≤ time v) × InOrder (time v) vs to

can_trade_day :
    (e t : ℕ) (b : CircuitBreaker) → (can_trade e t b).0.day_start ≡ (maybe_reset_day t b).day_start
unfolding can_trade
can_trade_day e t b = ground arith

pub can_trade_trades :
    (e t : ℕ) (b : CircuitBreaker) → (can_trade e t b).0.trade_history ≡ b.trade_history
unfolding can_trade
can_trade_trades e t b = ground (arith, reset_trades t b)

record_trade_day :
    (e t : ℕ) (pnl : ℤ) (reason : CloseReason) (b : CircuitBreaker)
    → (record_trade e pnl reason t b).day_start ≡ (maybe_reset_day t b).day_start
unfolding record_trade
record_trade_day e t pnl reason b = ground arith

pub record_trade_trades :
    (e t : ℕ) (pnl : ℤ) (reason : CloseReason) (b : CircuitBreaker)
    → (record_trade e pnl reason t b).trade_history
      ≡ keep
          (λ (x : TradeRecord). leb t (x.timestamp + 7 * 86400000))
          (b.trade_history ++ record { engine = e; timestamp = t; pnl = pnl } ∷ [])
unfolding record_trade
record_trade_trades e t pnl reason b = ground (arith, reset_trades t b)

keep-All :
    (P : TradeRecord → Type 0) (p : TradeRecord → Bool) (ts : List TradeRecord)
    → All P ts
    → All P (keep p ts)
keep-All P p [] h = tt
keep-All P p (t ∷ ts) h =
    let rest = keep-All P p ts h.1 in if-elim (All P) (p t) _ _ (h.0, rest) rest

later :
    (now t : ℕ) (ts : List TradeRecord)
    → now ≤ t
    → All (λ (x : TradeRecord). x.timestamp ≤ now) ts
    → All (λ (x : TradeRecord). x.timestamp ≤ t) ts
later now t [] le h = tt
later now t (x ∷ xs) le h = (omega (arith, h.0, le), later now t xs le h.1)

IsTimely-after :
    (now t : ℕ) (b b' : CircuitBreaker)
    → now ≤ t
    → IsTimely now b
    → b'.day_start ≡ (maybe_reset_day t b).day_start
    → All (λ (x : TradeRecord). x.timestamp ≤ t) b'.trade_history
    → IsTimely t b'
IsTimely-after now t b b' le h e k =
    let start = reset_day_start t b h.midnight (omega (arith, le, h.begun)) in
    record { midnight = omega (arith, e, start); begun = omega (arith, e, start); closed = k }

apply-IsTimely :
    (now : ℕ) (v : Event) (b : CircuitBreaker)
    → now ≤ time v
    → IsTimely now b
    → IsTimely (time v) (apply v b)
apply-IsTimely now (asks e t) b le h =
    IsTimely-after now t b (can_trade e t b).0 le h (can_trade_day e t b)
      (rw (can_trade_trades e t b) (later now t b.trade_history le h.closed))
apply-IsTimely now (closes e pnl reason t) b le h =
    let P = λ (x : TradeRecord). x.timestamp ≤ t in
    let x : TradeRecord = record { engine = e; timestamp = t; pnl = pnl } in
    IsTimely-after now t b (record_trade e pnl reason t b) le h (record_trade_day e t pnl reason b)
      (rw (record_trade_trades e t pnl reason b) (
        keep-All P (λ y. leb t (y.timestamp + 7 * 86400000)) (b.trade_history ++ x ∷ [])
          (All-append P b.trade_history (x ∷ []) (later now t b.trade_history le h.closed)
            (omega arith, tt))))

pub run-IsTimely :
    (now to : ℕ) (vs : List Event) (b : CircuitBreaker)
    → InOrder now vs to
    → IsTimely now b
    → IsTimely to (run vs b)
run-IsTimely now to [] b le h = record {
  midnight = h.midnight;
  begun = omega (arith, le, h.begun);
  closed = later now to b.trade_history le h.closed;
}
run-IsTimely now to (v ∷ vs) b w h =
    run-IsTimely (time v) to vs (apply v b) w.1 (apply-IsTimely now v b w.0 h)

pub init-IsTimely : (c : CircuitBreakerConfig) (now : ℕ) → IsTimely now (init c now)
init-IsTimely c now = record { midnight = omega arith; begun = omega arith; closed = tt }
