-- ===== src/TradingBot/CircuitBreaker/Tripping.antt =====
-- The pauses of the circuit breaker over a run of calls.
use sur_protocol.Common.{
  ℕ, suc, ◌+◌, ◌≤◌, ◌<◌, ℤ, true, ◌≡◌, ◌≢◌, refl, sym, ap, subst, List, [], ◌∷◌, ◌++◌, arith,
  length, leb, ◌&&◌, ◌==◌, ==_iff, nat_eq, keep, All,
}
use sur_protocol.Common.Dict.{
  Dict, Distinct, insert-Distinct, erase-Distinct, lookup-insert, lookup-erase,
}
use sur_protocol.TradingBot.CircuitBreaker.{
  CircuitBreaker, CircuitBreakerConfig, SlRecord, CloseReason, allowed, can_trade, maybe_reset_day,
  get_or_zero, record_trade, add_trade, track_stop, trip, recent_sls, is_stop,
}
use sur_protocol.TradingBot.CircuitBreaker.Limits.{can_trade-IsCleared}
use sur_protocol.TradingBot.CircuitBreaker.Pauses.{
  Paused, kept, ended, set, reset_paused, reset_config, reset_stops, can_trade-Paused,
  record_trade-Paused, can_trade_config, record_trade_config, drawdown_paused, stopped,
}

-- A call of the breaker by an engine, at a time.
pub data Event : Type 0 where
  asks : (engine time : ℕ) → Event
  closes : (engine : ℕ) → (pnl : ℤ) → CloseReason → (time : ℕ) → Event

abbrev pub time : Event → ℕ
time (asks e t) = t
time (closes e pnl reason t) = t

abbrev pub apply : Event → CircuitBreaker → CircuitBreaker
apply (asks e t) b = (can_trade e t b).0
apply (closes e pnl reason t) b = record_trade e pnl reason t b

abbrev pub run : List Event → CircuitBreaker → CircuitBreaker
run [] b = b
run (v ∷ vs) b = run vs (apply v b)

-- The engine `e` is paused until `u` at least, and every new pause from `from` on lasts as long.
record IsHeld (e from u : ℕ) (b : CircuitBreaker) : Type 0 where
  distinct : Distinct b.paused_engines
  until : u ≤ get_or_zero e b.paused_engines
  lasting : u ≤ from + b.config.pause_duration_ms

Paused-Distinct :
    (m : Dict ℕ ℕ) (pause t : ℕ) (m' : Dict ℕ ℕ) → Paused m pause t m' → Distinct m → Distinct m'
Paused-Distinct m pause t _ kept d = d
Paused-Distinct m pause t _ (ended e le) d = erase-Distinct e m d
Paused-Distinct m pause t _ (set e) d = insert-Distinct e (t + pause) m d

Paused-until :
    (e u from : ℕ) (m : Dict ℕ ℕ) (pause t : ℕ) (m' : Dict ℕ ℕ)
    → Paused m pause t m'
    → Distinct m
    → t < u
    → from ≤ t
    → u ≤ from + pause
    → u ≤ get_or_zero e m
    → u ≤ get_or_zero e m'
Paused-until e u from m pause t _ kept d lt le l h = h
Paused-until e u from m pause t _ (ended f le) d lt le' l h =
    ground (arith, lookup-erase f e m d, ==_iff e f)
Paused-until e u from m pause t _ (set f) d lt le l h =
    ground (arith, lookup-insert f e (t + pause) m)

IsHeld-transfer :
    (e from u t : ℕ) (b b' : CircuitBreaker)
    → Paused b.paused_engines b.config.pause_duration_ms t b'.paused_engines
    → b'.config ≡ b.config
    → from ≤ t
    → t < u
    → IsHeld e from u b
    → IsHeld e from u b'
IsHeld-transfer e from u t b b' c same le lt h = record {
  distinct =
      Paused-Distinct b.paused_engines b.config.pause_duration_ms t b'.paused_engines c h.distinct;
  until =
      Paused-until e u from b.paused_engines b.config.pause_duration_ms t b'.paused_engines c
        h.distinct lt le h.lasting h.until;
  lasting =
      subst (λ (k : CircuitBreakerConfig). u ≤ from + k.pause_duration_ms) (sym same) h.lasting;
}

apply-IsHeld :
    (e from u : ℕ) (v : Event) (b : CircuitBreaker)
    → from ≤ time v
    → time v < u
    → IsHeld e from u b
    → IsHeld e from u (apply v b)
apply-IsHeld e from u (asks f t) b le lt h =
    IsHeld-transfer e from u t b (can_trade f t b).0
      (can_trade-Paused f t b.config.pause_duration_ms b) (can_trade_config f t b) le lt h
apply-IsHeld e from u (closes f pnl reason t) b le lt h =
    IsHeld-transfer e from u t b (record_trade f pnl reason t b)
      (record_trade-Paused f t pnl reason b) (record_trade_config f t pnl reason b) le lt h

-- The events of a span of time.
abbrev pub Within : ℕ → ℕ → List Event → Type 0
Within from u vs = All (λ v. (from ≤ time v) × (time v < u)) vs

run-IsHeld :
    (e from u : ℕ) (vs : List Event) (b : CircuitBreaker)
    → Within from u vs
    → IsHeld e from u b
    → IsHeld e from u (run vs b)
run-IsHeld e from u [] b w h = h
run-IsHeld e from u (v ∷ vs) b w h =
    run-IsHeld e from u vs (apply v b) w.1 (apply-IsHeld e from u v b w.0.0 w.0.1 h)

IsHeld-can_trade :
    (e from u t : ℕ) (b : CircuitBreaker)
    → t < u
    → IsHeld e from u b
    → (can_trade e t b).1 ≢ allowed
IsHeld-can_trade e from u t b lt h a =
    let free = (can_trade-IsCleared e t b).0 a in
    absurd (ground (arith, free.released, ap (get_or_zero e) (reset_paused t b), h.until))

-- The stop that is recorded counts as recent.
recent_sls-append :
    (e t w : ℕ) (rs : List SlRecord)
    → length (
        keep
          (λ r. r.engine == e && leb t (r.timestamp + w))
          (rs ++ record { engine = e; timestamp = t } ∷ []))
      ≡ suc (length (keep (λ r. r.engine == e && leb t (r.timestamp + w)) rs))
recent_sls-append e t w [] = ground (arith, ==_iff e e)
recent_sls-append e t w (r ∷ rs) = ground (arith, recent_sls-append e t w rs)

tripped :
    (e t : ℕ) (b : CircuitBreaker)
    → b.config.max_consec_sl ≤ suc (length (recent_sls e t b))
    → get_or_zero e (trip e t (stopped e t b)).paused_engines ≡ t + b.config.pause_duration_ms
tripped e t b le =
    let full : leb b.config.max_consec_sl (length (recent_sls e t (stopped e t b))) ≡ true =
      ground (arith, recent_sls-append e t b.config.sl_window_ms b.sl_history) in
    rw (full, trip)
      (ground
        (arith, lookup-insert e e (t + b.config.pause_duration_ms) b.paused_engines, ==_iff e e))

tripped_by_stop :
    (e t : ℕ) (reason : CloseReason) (b : CircuitBreaker)
    → is_stop reason ≡ true
    → b.config.max_consec_sl ≤ suc (length (recent_sls e t b))
    → get_or_zero e (track_stop e reason t b).paused_engines ≡ t + b.config.pause_duration_ms
tripped_by_stop e t CloseReason.sl b s le = tripped e t b le
tripped_by_stop e t CloseReason.liquidation b s le = tripped e t b le
tripped_by_stop e t CloseReason.other b s le = absurd (ground arith)

reset_recent :
    (e t : ℕ) (b : CircuitBreaker)
    → length (recent_sls e t (maybe_reset_day t b)) ≡ length (recent_sls e t b)
reset_recent e t b = rw (reset_stops t b, reset_config t b) refl

record_trade-IsHeld :
    (e t : ℕ) (pnl : ℤ) (reason : CloseReason) (b : CircuitBreaker)
    → Distinct b.paused_engines
    → is_stop reason ≡ true
    → b.config.max_consec_sl ≤ suc (length (recent_sls e t b))
    → IsHeld e t (t + b.config.pause_duration_ms) (record_trade e pnl reason t b)
unfolding record_trade
record_trade-IsHeld e t pnl reason b d s le =
    let r = maybe_reset_day t b in
    let p =
      tripped_by_stop e t reason (add_trade e pnl t r) s
        (ground (arith, le, reset_recent e t b, reset_config t b)) in
    record {
      distinct =
          Paused-Distinct b.paused_engines b.config.pause_duration_ms t
            (record_trade e pnl reason t b).paused_engines (record_trade-Paused e t pnl reason b) d;
      until = omega (
        arith,
        ap (get_or_zero e) (drawdown_paused (track_stop e reason t (add_trade e pnl t r))),
        p,
        ap (λ (c : CircuitBreakerConfig). c.pause_duration_ms) (reset_config t b),
      );
      lasting = omega (
        arith,
        ap (λ (c : CircuitBreakerConfig). c.pause_duration_ms)
            (record_trade_config e t pnl reason b),
      );
    }

-- Once an engine has as many stops within the window as the configuration allows, it may not trade
-- for the whole of the pause, whatever is asked or recorded meanwhile, for it or for others.
pub tripped_stays_paused :
    (e t pnow : ℕ) (pnl : ℤ) (reason : CloseReason) (vs : List Event) (b : CircuitBreaker)
    → Distinct b.paused_engines
    → is_stop reason ≡ true
    → b.config.max_consec_sl ≤ suc (length (recent_sls e t b))
    → Within t (t + b.config.pause_duration_ms) vs
    → pnow < t + b.config.pause_duration_ms
    → (can_trade e pnow (run vs (record_trade e pnl reason t b))).1 ≢ allowed
tripped_stays_paused e t pnow pnl reason vs b d s le w lt =
    let u = t + b.config.pause_duration_ms in
    IsHeld-can_trade e t u pnow (run vs (record_trade e pnl reason t b)) lt (
      run-IsHeld e t u vs (record_trade e pnl reason t b) w
        (record_trade-IsHeld e t pnl reason b d s le))
