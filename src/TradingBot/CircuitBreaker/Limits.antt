-- ===== src/TradingBot/CircuitBreaker/Limits.antt =====
-- The checks of `canTrade` of the circuit breaker, one after the other.
use sur_protocol.Common.{
  ℕ, ◌≤◌, ◌<◌, Bool, true, false, Bool-cases, ◌≡◌, refl, sym, ap, subst, arith, inl, inr, length,
  leb, ltb, if◌then◌else◌, ◌&&◌, ◌↔◌, nat_eq, keep, not, ◌==◌,
}
use sur_protocol.Common.Dict.{insert, erase}
use sur_protocol.TradingBot.CircuitBreaker.{
  CircuitBreaker, allowed, can_trade, check_all, check_engine, check_limits, maybe_reset_day,
  today_trades, engine_today_trades, get_or_zero, end_engine_pause,
}

-- The trades of the day, in all and of the engine, are below their limits.
pub record IsBelowLimits (e : ℕ) (b : CircuitBreaker) : Type 0 where
  pub daily : length (today_trades b) < b.config.max_trades_per_day
  pub per_engine : length (engine_today_trades e b) < b.config.max_trades_per_engine

-- What the checks of `canTrade` read, once the day is reset.
pub record IsCleared (e now : ℕ) (b : CircuitBreaker) : Type 0 where
  pub resumed : b.global_paused ≡ true → b.global_resume_at ≤ now
  pub released : get_or_zero e b.paused_engines ≤ now
  pub below : IsBelowLimits e b

check_limits_iff : (e : ℕ) (b : CircuitBreaker) → (check_limits e b ≡ allowed) ↔ IsBelowLimits e b
check_limits_iff e b = (
  λ h. record { daily = ground arith; per_engine = ground arith },
  λ k. ground (arith, k.daily, k.per_engine),
)

-- The end of a pause changes nothing that the limits read.
IsBelowLimits-end_engine_pause :
    (e now : ℕ) (b : CircuitBreaker) → check_limits e (end_engine_pause e now b) ≡ check_limits e b
IsBelowLimits-end_engine_pause e now b =
    either (ltb 0 (get_or_zero e b.paused_engines) && leb (get_or_zero e b.paused_engines) now)
  where
    either :
        (c : Bool)
        → check_limits e (
            if c
            then record b {
              paused_engines = erase e b.paused_engines;
              sl_history = keep (λ r. not (r.engine == e)) b.sl_history;
              consecutive_losses = insert e 0 b.consecutive_losses;
            }
            else b)
          ≡ check_limits e b
    either true = refl
    either false = refl

check_engine_iff :
    (e now : ℕ) (b : CircuitBreaker)
    → ((check_engine e now b).1 ≡ allowed)
      ↔ ((get_or_zero e b.paused_engines ≤ now) × IsBelowLimits e b)
check_engine_iff e now b =
    elim (Bool-cases
      (ltb 0 (get_or_zero e b.paused_engines) && ltb now (get_or_zero e b.paused_engines))) [
        | inl held ↦
            rw (held, check_engine) (λ h. absurd (ground arith), λ k. absurd (ground (arith, k.0)))
        | inr free ↦
            rw (free, check_engine)
              (rw (IsBelowLimits-end_engine_pause e now b) (
                λ h. (ground arith, (check_limits_iff e b).0 h),
                λ k. (check_limits_iff e b).1 k.1,
              ))
      ]

-- The end of the global pause changes nothing else.
abbrev pub resumed_if : Bool → CircuitBreaker → CircuitBreaker
resumed_if c b = if c then record b { global_paused = false } else b

pub resumed_if_paused :
    (c : Bool) (b : CircuitBreaker) → (resumed_if c b).paused_engines ≡ b.paused_engines
resumed_if_paused true b = refl
resumed_if_paused false b = refl

resumed_if-IsBelowLimits :
    (c : Bool) (e : ℕ) (b : CircuitBreaker) → IsBelowLimits e (resumed_if c b) ↔ IsBelowLimits e b
resumed_if-IsBelowLimits true e b = (
  λ h. record { daily = h.daily; per_engine = h.per_engine },
  λ h. record { daily = h.daily; per_engine = h.per_engine },
)
resumed_if-IsBelowLimits false e b = (λ h. h, λ h. h)

check_resumed_iff :
    (c : Bool) (e now : ℕ) (b : CircuitBreaker)
    → ((check_engine e now (resumed_if c b)).1 ≡ allowed)
      ↔ ((get_or_zero e b.paused_engines ≤ now) × IsBelowLimits e b)
check_resumed_iff c e now b =
    let i = check_engine_iff e now (resumed_if c b) in
    let j = resumed_if-IsBelowLimits c e b in
    let same = ap (get_or_zero e) (resumed_if_paused c b) in
    (
      λ h. (subst (λ u. u ≤ now) same (i.0 h).0, j.0 (i.0 h).1),
      λ k. i.1 (subst (λ u. u ≤ now) (sym same) k.0, j.1 k.1),
    )

check_all_iff :
    (e now : ℕ) (b : CircuitBreaker) → ((check_all e now b).1 ≡ allowed) ↔ IsCleared e now b
check_all_iff e now b = elim (Bool-cases (b.global_paused && ltb now b.global_resume_at)) [
  | inl held ↦
      rw (held, check_all)
        (λ h. absurd (ground arith), λ k. absurd (ground (arith, k.resumed, held)))
  | inr free ↦
      let i = check_resumed_iff (b.global_paused && leb b.global_resume_at now) e now b in
      rw (free, check_all)
        (
          λ h. record {
            resumed = λ on. ground (arith, on, free);
            released = (i.0 h).0;
            below = (i.0 h).1;
          },
          λ k. i.1 (k.released, k.below),
        )
]

pub can_trade-IsCleared :
    (e now : ℕ) (b : CircuitBreaker)
    → ((can_trade e now b).1 ≡ allowed) ↔ IsCleared e now (maybe_reset_day now b)
unfolding can_trade
can_trade-IsCleared e now b = check_all_iff e now (maybe_reset_day now b)
