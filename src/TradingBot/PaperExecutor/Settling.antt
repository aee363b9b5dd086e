-- ===== src/TradingBot/PaperExecutor/Settling.antt =====
-- The capital of the paper executor against its closed trades, and its circuit breaker.
use sur_protocol.Common.{
  ℕ, ◌-◌, ltb, Bool, true, false, ◌≡◌, refl, sym, ap, ◌∙◌, List, [], ◌∷◌, ◌++◌, map, if-elim,
}
use sur_protocol.Common.Doubles.{Double, sum_from}
use sur_protocol.TradingBot.PaperExecutor.{
  Position, Signal, OpenOptions, PaperTrade, BotConfig, PaperExecutor, init, register_signal,
  new_trade, settle, end_day, end_week, trigger, check_circuit_breakers, loss_reached,
  open_position, close_position,
}
use sur_protocol.TradingBot.PaperExecutor.Reporting.{Drawdown, draw_down}
use sur_protocol.TradingBot.PaperExecutor.Updates.{update_positions}

-- What the bot does with the executor.
pub data Event (F : Type 0) : Type 0 where
  signals : Event F
  opens : (id now : ℕ) → Signal F → (capital : F) → OpenOptions F → Event F
  closes : Position F → (price : F) → (reason now : ℕ) → Event F
  updates : (now : ℕ) → (price : F) → Event F

module _ {F : Type 0} ⦃d : Double F⦄ where
  abbrev pub step : Event F → PaperExecutor F → PaperExecutor F
  step signals e = register_signal e
  step (opens id now s capital o) e = (open_position id now s capital o e).0
  step (closes p price reason now) e = (close_position p price reason now e).0
  step (updates now price) e = (update_positions now price e).0

  abbrev pub run : List (Event F) → PaperExecutor F → PaperExecutor F
  run [] e = e
  run (v ∷ vs) e = run vs (step v e)

  abbrev net_of : PaperTrade F → F
  net_of t = t.net_pnl

  -- The capital is the starting capital with the net results of the closed trades, in their order.
  pub record IsSettled (e : PaperExecutor F) : Type 0 where
    pub capital : e.capital ≡ sum_from e.config.starting_capital (map net_of e.closed_trades)

  sum_from-push :
      (s : F) (ts : List (PaperTrade F)) (t : PaperTrade F)
      → sum_from s (map net_of (ts ++ t ∷ [])) ≡ d.add (sum_from s (map net_of ts)) t.net_pnl
  sum_from-push s [] t = refl
  sum_from-push s (x ∷ ts) t = sum_from-push (d.add s x.net_pnl) ts t

  -- What the breakers leave as it is; they are never untriggered.
  record Same (e f : PaperExecutor F) : Type 0 where
    config : f.config ≡ e.config
    capital : f.capital ≡ e.capital
    closed_trades : f.closed_trades ≡ e.closed_trades
    breaker : e.circuit_breaker_triggered ≡ true → f.circuit_breaker_triggered ≡ true

  Same-trans : (e f g : PaperExecutor F) → Same e f → Same f g → Same e g
  Same-trans e f g h k = record {
    config = k.config ∙ h.config;
    capital = k.capital ∙ h.capital;
    closed_trades = k.closed_trades ∙ h.closed_trades;
    breaker = λ b. k.breaker (h.breaker b);
  }

  end_day-Same : (now : ℕ) (e : PaperExecutor F) → Same e (end_day now e)
  end_day-Same now e =
      if-elim (Same e) (ltb 86400000 (now - e.day_start)) _ _
        (record { config = refl; capital = refl; closed_trades = refl; breaker = λ b. b })
        (record { config = refl; capital = refl; closed_trades = refl; breaker = λ b. b })

  end_week-Same : (now : ℕ) (e : PaperExecutor F) → Same e (end_week now e)
  end_week-Same now e =
      if-elim (Same e) (ltb 604800000 (now - e.week_start)) _ _
        (record { config = refl; capital = refl; closed_trades = refl; breaker = λ b. b })
        (record { config = refl; capital = refl; closed_trades = refl; breaker = λ b. b })

  trigger-Same : (b : Bool) (e : PaperExecutor F) → Same e (trigger b e)
  trigger-Same true e = record {
    config = refl;
    capital = refl;
    closed_trades = refl;
    breaker = λ b. refl;
  }
  trigger-Same false e = record {
    config = refl;
    capital = refl;
    closed_trades = refl;
    breaker = λ b. b;
  }

  check_circuit_breakers-Same :
      (now : ℕ) (e : PaperExecutor F) → Same e (check_circuit_breakers now e)
  unfolding check_circuit_breakers
  check_circuit_breakers-Same now e =
      let day : PaperExecutor F = end_day now e in
      let week : PaperExecutor F = end_week now day in
      let daily : Bool = loss_reached week.config week.daily_pnl week.config.max_daily_loss_pct in
      let first : PaperExecutor F = trigger daily week in
      Same-trans e week _ (Same-trans e day week (end_day-Same now e) (end_week-Same now day)) (
        Same-trans week first _ (trigger-Same daily week) (
          trigger-Same (loss_reached week.config week.weekly_pnl week.config.max_weekly_loss_pct)
            first))

  Same-IsSettled : (e f : PaperExecutor F) → Same e f → IsSettled e → IsSettled f
  Same-IsSettled e f h v = record { capital = rw (h.capital, h.config, h.closed_trades) v.capital }

  settle-IsSettled :
      (p : Position F) (t : PaperTrade F) (e : PaperExecutor F)
      → IsSettled e
      → IsSettled (settle p t e)
  settle-IsSettled p t e v = record {
    capital =
        ap (λ (x : F). d.add x t.net_pnl) v.capital
        ∙ sym (sum_from-push e.config.starting_capital e.closed_trades t);
  }

  step-IsSettled : (v : Event F) (e : PaperExecutor F) → IsSettled e → IsSettled (step v e)
  unfolding open_position close_position update_positions
  step-IsSettled signals e s = record { capital = s.capital }
  step-IsSettled (opens id now g capital o) e s = record { capital = s.capital }
  step-IsSettled (closes p price reason now) e s =
      let t = new_trade p price reason now in
      let f : PaperExecutor F = settle p t e in
      Same-IsSettled f (check_circuit_breakers now f) (check_circuit_breakers-Same now f)
        (settle-IsSettled p t e s)
  step-IsSettled (updates now price) e s = record { capital = s.capital }

  run_keeps : (vs : List (Event F)) (e : PaperExecutor F) → IsSettled e → IsSettled (run vs e)
  run_keeps [] e s = s
  run_keeps (v ∷ vs) e s = run_keeps vs (step v e) (step-IsSettled v e s)

  step_stays :
      (v : Event F) (e : PaperExecutor F)
      → e.circuit_breaker_triggered ≡ true
      → (step v e).circuit_breaker_triggered ≡ true
  unfolding open_position close_position update_positions
  step_stays signals e b = b
  step_stays (opens id now g capital o) e b = b
  step_stays (closes p price reason now) e b =
      (check_circuit_breakers-Same now (settle p (new_trade p price reason now) e)).breaker b
  step_stays (updates now price) e b = b

  -- Once triggered, the circuit breaker of the executor is triggered after any events: nothing sets
  -- it back.
  pub triggered_stays :
      (vs : List (Event F)) (e : PaperExecutor F)
      → e.circuit_breaker_triggered ≡ true
      → (run vs e).circuit_breaker_triggered ≡ true
  triggered_stays [] e b = b
  triggered_stays (v ∷ vs) e b = triggered_stays vs (step v e) (step_stays v e b)

  draw_down-running :
      (ts : List (PaperTrade F)) (x : Drawdown F)
      → (draw_down ts x).running_capital ≡ sum_from x.running_capital (map net_of ts)
  draw_down-running [] x = refl
  draw_down-running (t ∷ ts) x = draw_down-running ts _

  -- What the loop of `generateReport` over the closed trades arrives at.
  abbrev pub replayed : PaperExecutor F → F
  replayed e =
      let start = e.config.starting_capital in
      (draw_down e.closed_trades
        (record { peak = start; max_dd = d.of_nat 0; running_capital = start })).running_capital

  -- After any events of a new executor its capital is the starting capital with the net results of
  -- the closed trades, added in their order, and the loop of the report over the closed trades
  -- arrives at the same capital.
  pub run-IsSettled :
      (vs : List (Event F)) (now : ℕ) (config : BotConfig F)
      → let e = run vs (init now config) in IsSettled e × (replayed e ≡ e.capital)
  unfolding init
  run-IsSettled vs now config =
      let e : PaperExecutor F = run vs (init now config) in
      let v = run_keeps vs (init now config) (record { capital = refl }) in
      (v, draw_down-running e.closed_trades _ ∙ sym v.capital)
