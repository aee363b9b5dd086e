-- ===== src/TradingBot/CircuitBreaker/Pauses.antt =====
-- The pauses of the circuit breaker over time.
use sur_protocol.Common.{
  ℕ, ◌+◌, ◌≤◌, ℤ, Bool-cases, ◌≡◌, subst, [], ◌∷◌, ◌++◌, arith, inl, inr, length, leb, ltb, ◌&&◌,
  nat_eq,
}
use sur_protocol.Common.Dict.{Dict, insert, erase}
use sur_protocol.TradingBot.CircuitBreaker.{
  CircuitBreaker, CircuitBreakerConfig, CloseReason, can_trade, check_all, check_engine,
  maybe_reset_day, get_or_zero, record_trade, add_trade, track_stop, trip, check_drawdown,
  recent_sls, end_engine_pause,
}
use sur_protocol.TradingBot.CircuitBreaker.Limits.{resumed_if, resumed_if_paused}

-- What an event may do to the pauses: nothing, end one that is over, or set one.
pub data Paused (m : Dict ℕ ℕ) (pause t : ℕ) : Dict ℕ ℕ → Type 0 where
  kept : Paused m pause t m
  ended : (e : ℕ) → get_or_zero e m ≤ t → Paused m pause t (erase e m)
  set : (e : ℕ) → Paused m pause t (insert e (t + pause) m)

pub reset_paused :
    (t : ℕ) (b : CircuitBreaker) → (maybe_reset_day t b).paused_engines ≡ b.paused_engines
unfolding maybe_reset_day
reset_paused t b = ground arith

pub reset_config : (t : ℕ) (b : CircuitBreaker) → (maybe_reset_day t b).config ≡ b.config
unfolding maybe_reset_day
reset_config t b = ground arith

pub reset_stops : (t : ℕ) (b : CircuitBreaker) → (maybe_reset_day t b).sl_history ≡ b.sl_history
unfolding maybe_reset_day
reset_stops t b = ground arith

check_engine-Paused :
    (e t pause : ℕ) (b : CircuitBreaker)
    → Paused b.paused_engines pause t (check_engine e t b).0.paused_engines
check_engine-Paused e t pause b =
    elim (Bool-cases
      (ltb 0 (get_or_zero e b.paused_engines) && ltb t (get_or_zero e b.paused_engines))) [
        | inl held ↦ rw (held, check_engine) kept
        | inr free ↦
            elim (Bool-cases
              (ltb 0 (get_or_zero e b.paused_engines) && leb (get_or_zero e b.paused_engines) t)) [
                | inl over ↦
                    rw (free, check_engine) (rw (over, end_engine_pause) (ended e (ground arith)))
                | inr idle ↦ rw (free, check_engine) (rw (idle, end_engine_pause) kept)
              ]
      ]

check_all-Paused :
    (e t pause : ℕ) (b : CircuitBreaker)
    → Paused b.paused_engines pause t (check_all e t b).0.paused_engines
check_all-Paused e t pause b = elim (Bool-cases (b.global_paused && ltb t b.global_resume_at)) [
  | inl held ↦ rw (held, check_all) kept
  | inr free ↦
      let c = b.global_paused && leb b.global_resume_at t in
      rw (free, check_all)
        (subst (λ m. Paused m pause t (check_engine e t (resumed_if c b)).0.paused_engines)
          (resumed_if_paused c b) (check_engine-Paused e t pause (resumed_if c b)))
]

pub can_trade-Paused :
    (e t pause : ℕ) (b : CircuitBreaker)
    → Paused b.paused_engines pause t (can_trade e t b).0.paused_engines
unfolding can_trade
can_trade-Paused e t pause b =
    subst (λ m. Paused m pause t (check_all e t (maybe_reset_day t b)).0.paused_engines)
      (reset_paused t b) (check_all-Paused e t pause (maybe_reset_day t b))

trip-Paused :
    (e t : ℕ) (b : CircuitBreaker)
    → Paused b.paused_engines b.config.pause_duration_ms t (trip e t b).paused_engines
trip-Paused e t b = elim (Bool-cases (leb b.config.max_consec_sl (length (recent_sls e t b)))) [
  | inl full ↦ rw (full, trip) (set e)
  | inr more ↦ rw (more, trip) kept
]

pub drawdown_paused : (b : CircuitBreaker) → (check_drawdown b).paused_engines ≡ b.paused_engines
drawdown_paused b = ground arith

-- The history with one more stop.
abbrev pub stopped : ℕ → ℕ → CircuitBreaker → CircuitBreaker
stopped e t b = record b { sl_history = b.sl_history ++ record { engine = e; timestamp = t } ∷ [] }

track_stop-Paused :
    (e t : ℕ) (reason : CloseReason) (b : CircuitBreaker)
    → Paused b.paused_engines b.config.pause_duration_ms t (track_stop e reason t b).paused_engines
track_stop-Paused e t CloseReason.sl b = trip-Paused e t (stopped e t b)
track_stop-Paused e t CloseReason.liquidation b = trip-Paused e t (stopped e t b)
track_stop-Paused e t CloseReason.other b = kept

pub record_trade-Paused :
    (e t : ℕ) (pnl : ℤ) (reason : CloseReason) (b : CircuitBreaker)
    → Paused b.paused_engines b.config.pause_duration_ms t
        (record_trade e pnl reason t b).paused_engines
unfolding record_trade
record_trade-Paused e t pnl reason b =
    let r = maybe_reset_day t b in
    rw (drawdown_paused (track_stop e reason t (add_trade e pnl t r))) (
      subst
        (λ (c : CircuitBreakerConfig).
          Paused b.paused_engines c.pause_duration_ms t
            (track_stop e reason t (add_trade e pnl t r)).paused_engines)
        (reset_config t b)
        (subst
          (λ m.
            Paused m r.config.pause_duration_ms t
              (track_stop e reason t (add_trade e pnl t r)).paused_engines)
          (reset_paused t b) (track_stop-Paused e t reason (add_trade e pnl t r))))

-- No event changes the configuration.
pub can_trade_config : (e t : ℕ) (b : CircuitBreaker) → (can_trade e t b).0.config ≡ b.config
unfolding can_trade
can_trade_config e t b = ground (arith, reset_config t b)

pub record_trade_config :
    (e t : ℕ) (pnl : ℤ) (reason : CloseReason) (b : CircuitBreaker)
    → (record_trade e pnl reason t b).config ≡ b.config
unfolding record_trade
record_trade_config e t pnl reason b = ground (arith, reset_config t b)
