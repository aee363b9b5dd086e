-- ===== src/TradingBot/PaperExecutor/Reporting.antt =====
-- The getters and `generateReport` of trading-bot/src/executors/paper-executor.ts. The fields of the
-- report that copy others (symbol, mode, trades) are left out.
use sur_protocol.Common.{
  ℕ, ◌-◌, Bool, List, [], ◌∷◌, Option, none, some, if◌then◌else◌, ltb, length, keep, map,
}
use sur_protocol.Common.Doubles.{Double, sum_from}
use sur_protocol.TradingBot.PaperExecutor.{PaperTrade, PaperExecutor, hundred}

-- `Report`
pub record Report (F : Type 0) : Type 0 where
  pub start_time : ℕ
  pub end_time : ℕ
  pub duration_hours : F
  pub starting_capital : F
  pub final_capital : F
  pub total_pnl : F
  pub total_pnl_pct : F
  pub total_trades : ℕ
  pub winning_trades : ℕ
  pub losing_trades : ℕ
  pub win_rate : F
  pub avg_win : F
  pub avg_loss : F
  pub profit_factor : F
  pub max_drawdown : F
  pub max_drawdown_pct : F
  pub best_trade : Option (PaperTrade F)
  pub worst_trade : Option (PaperTrade F)
  pub avg_trade_duration : F
  pub signals_generated : ℕ
  pub signals_acted_on : ℕ
  pub circuit_breaker_triggered : Bool

-- The state of the loop over the closed trades.
pub record Drawdown (F : Type 0) : Type 0 where
  pub peak : F
  pub max_dd : F
  pub running_capital : F

module _ {F : Type 0} ⦃d : Double F⦄ where
  -- `getClosedTradesAfter`
  pub closed_trades_after : ℕ → PaperExecutor F → ℕ
  closed_trades_after t e = length (keep (λ (x : PaperTrade F). ltb t x.close_time) e.closed_trades)

  -- "Max drawdown calculation"
  abbrev pub draw_down : List (PaperTrade F) → Drawdown F → Drawdown F
  draw_down [] s = s
  draw_down (t ∷ ts) s =
      let running = d.add s.running_capital t.net_pnl in
      let peak = if d.ltb s.peak running then running else s.peak in
      let dd = d.sub peak running in
      draw_down ts (record {
        peak = peak;
        max_dd = if d.ltb s.max_dd dd then dd else s.max_dd;
        running_capital = running;
      })

  -- `sum / count` where there is anything to count, and 0 otherwise
  abbrev pub average : F → ℕ → F
  average total n = if ltb 0 n then d.div total (d.of_nat n) else d.of_nat 0

  abbrev pub profit_factor_of : (gross loss : F) → F
  profit_factor_of gross loss =
      if d.ltb (d.of_nat 0) loss
      then d.div gross loss
      else if d.ltb (d.of_nat 0) gross
      then d.div (d.of_nat 1) (d.of_nat 0)
      else d.of_nat 0

  -- `reduce`, to the best and to the worst trade
  abbrev pub best_of : PaperTrade F → List (PaperTrade F) → PaperTrade F
  best_of best [] = best
  best_of best (t ∷ ts) = best_of (if d.ltb best.net_pnl t.net_pnl then t else best) ts

  abbrev pub worst_of : PaperTrade F → List (PaperTrade F) → PaperTrade F
  worst_of worst [] = worst
  worst_of worst (t ∷ ts) = worst_of (if d.ltb t.net_pnl worst.net_pnl then t else worst) ts

  abbrev pub best_trade_of : List (PaperTrade F) → Option (PaperTrade F)
  best_trade_of [] = none
  best_trade_of (t ∷ ts) = some (best_of t ts)

  abbrev pub worst_trade_of : List (PaperTrade F) → Option (PaperTrade F)
  worst_trade_of [] = none
  worst_trade_of (t ∷ ts) = some (worst_of t ts)

  abbrev pub net_sum : List (PaperTrade F) → F
  net_sum ts = sum_from (d.of_nat 0) (map (λ (t : PaperTrade F). t.net_pnl) ts)

  -- `start_time` is when the executor was made.
  pub generate_report : (start_time now : ℕ) → PaperExecutor F → Report F
  generate_report start_time now e =
      let start = e.config.starting_capital in
      let ts = e.closed_trades in
      let wins = keep (λ (t : PaperTrade F). d.ltb (d.of_nat 0) t.net_pnl) ts in
      let losses = keep (λ (t : PaperTrade F). d.leb t.net_pnl (d.of_nat 0)) ts in
      let gross = net_sum wins in
      let loss = d.abs (net_sum losses) in
      let s =
        draw_down ts (record { peak = start; max_dd = d.of_nat 0; running_capital = start }) in
      let spans = map (λ (t : PaperTrade F). d.of_nat (t.close_time - t.open_time)) ts in
      record {
        start_time = start_time;
        end_time = now;
        duration_hours = d.div (d.of_nat (now - start_time)) (d.of_nat 3600000);
        starting_capital = start;
        final_capital = e.capital;
        total_pnl = d.sub e.capital start;
        total_pnl_pct = d.mul (d.div (d.sub e.capital start) start) hundred;
        total_trades = length ts;
        winning_trades = length wins;
        losing_trades = length losses;
        win_rate = d.mul (average (d.of_nat (length wins)) (length ts)) hundred;
        avg_win = average gross (length wins);
        avg_loss = average loss (length losses);
        profit_factor = profit_factor_of gross loss;
        max_drawdown = s.max_dd;
        max_drawdown_pct =
            if d.ltb (d.of_nat 0) s.peak then d.mul (d.div s.max_dd s.peak) hundred else d.of_nat 0;
        best_trade = best_trade_of wins;
        worst_trade = worst_trade_of losses;
        avg_trade_duration = average (sum_from (d.of_nat 0) spans) (length ts);
        signals_generated = e.signals_generated;
        signals_acted_on = e.signals_acted_on;
        circuit_breaker_triggered = e.circuit_breaker_triggered;
      }
