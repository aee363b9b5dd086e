-- ===== src/TradingBot/PaperExecutor.antt =====
-- `PaperExecutor` of trading-bot/src/executors/paper-executor.ts, which trades on paper. Prices,
-- sizes and results are of the type `F` of a `Double`; times are milliseconds. The fields of a
-- position that are only copied (symbol, status, tags, engine, confidence, brainRegime) are left out,
-- and so are the lines that it logs.
use sur_protocol.Common.{
  ℕ, suc, ◌+◌, ◌-◌, Bool, true, false, not, ◌&&◌, List, [], ◌∷◌, ◌++◌, Option, none, some,
  if◌then◌else◌, leb, ltb, ◌==◌, length, keep,
}
use sur_protocol.Common.Doubles.{Double}
pub mod Updates
pub mod Settling
pub mod Reporting

pub data PositionSide : Type 0 where
  long short : PositionSide

pub data ExitReason : Type 0 where
  stop_hit target_hit trailing_hit liquidated : ExitReason

pub record Signal (F : Type 0) : Type 0 where
  pub side : PositionSide
  pub price : F
  pub suggested_leverage : F
  pub stop_loss : F
  pub take_profit : F

pub record OpenOptions (F : Type 0) : Type 0 where
  pub margin : Option F
  pub leverage : Option F
  pub trailing_activation_pct : Option F
  pub trailing_callback_pct : Option F

pub record Position (F : Type 0) : Type 0 where
  pub id : ℕ
  pub side : PositionSide
  pub entry_price : F
  pub quantity : F
  pub leverage : F
  pub margin : F
  pub stop_loss : F
  pub take_profit : F
  pub trailing_activated : Bool
  pub trailing_high_water : F
  pub open_time : ℕ
  pub pnl : F
  pub pnl_pct : F
  pub trailing_activation_pct : Option F
  pub trailing_callback_pct : Option F

-- `TradeRecord`; the reason is the text that the caller gives.
pub record PaperTrade (F : Type 0) : Type 0 where
  pub id : ℕ
  pub side : PositionSide
  pub entry_price : F
  pub exit_price : F
  pub quantity : F
  pub leverage : F
  pub margin : F
  pub pnl : F
  pub pnl_pct : F
  pub fees : F
  pub net_pnl : F
  pub open_time : ℕ
  pub close_time : ℕ
  pub close_reason : ℕ

pub record BotConfig (F : Type 0) : Type 0 where
  pub starting_capital : F
  pub position_size_pct : F
  pub trailing_activation_pct : F
  pub trailing_callback_pct : F
  pub max_daily_loss_pct : F
  pub max_weekly_loss_pct : F

pub record PaperExecutor (F : Type 0) : Type 0 where
  pub config : BotConfig F
  pub capital : F
  pub open_positions : List (Position F)
  pub closed_trades : List (PaperTrade F)
  pub signals_generated : ℕ
  pub signals_acted_on : ℕ
  pub daily_pnl : F
  pub weekly_pnl : F
  pub day_start : ℕ
  pub week_start : ℕ
  pub max_capital : F
  pub circuit_breaker_triggered : Bool

-- `a ?? b`
abbrev pub coalesce {ℓ} : {A : Type ℓ} → Option A → A → A
coalesce none b = b
coalesce (some a) b = a

module _ {F : Type 0} ⦃d : Double F⦄ where
  abbrev pub hundred : F
  hundred = d.of_nat 100

  abbrev pub taker_fee : F
  taker_fee = d.div (d.of_nat 2) (d.of_nat 10000)

  abbrev pub negate : F → F
  negate x = d.sub (d.of_nat 0) x

  unfoldable pub init : ℕ → BotConfig F → PaperExecutor F
  init now config = record {
    config = config;
    capital = config.starting_capital;
    open_positions = [];
    closed_trades = [];
    signals_generated = 0;
    signals_acted_on = 0;
    daily_pnl = d.of_nat 0;
    weekly_pnl = d.of_nat 0;
    day_start = now;
    week_start = now;
    max_capital = config.starting_capital;
    circuit_breaker_triggered = false;
  }

  abbrev pub register_signal : PaperExecutor F → PaperExecutor F
  register_signal e = record e { signals_generated = suc e.signals_generated }

  -- The position that a signal opens.
  abbrev pub new_position : BotConfig F → (id now : ℕ) → Signal F → F → OpenOptions F → Position F
  new_position config id now s capital o =
      let margin = coalesce o.margin (d.mul capital (d.div config.position_size_pct hundred)) in
      let leverage = coalesce o.leverage s.suggested_leverage in
      let notional = d.mul margin leverage in
      let entry_fee = d.mul notional taker_fee in
      record {
        id = id;
        side = s.side;
        entry_price = s.price;
        quantity = d.div notional s.price;
        leverage = leverage;
        margin = d.sub margin entry_fee;
        stop_loss = s.stop_loss;
        take_profit = s.take_profit;
        trailing_activated = false;
        trailing_high_water = s.price;
        open_time = now;
        pnl = negate entry_fee;
        pnl_pct = d.of_nat 0;
        trailing_activation_pct = o.trailing_activation_pct;
        trailing_callback_pct = o.trailing_callback_pct;
      }

  unfoldable pub open_position :
      (id now : ℕ) → Signal F → F → OpenOptions F → PaperExecutor F → PaperExecutor F × Position F
  open_position id now s capital o e =
      let p = new_position e.config id now s capital o in
      (
        record e {
          signals_acted_on = suc e.signals_acted_on;
          open_positions = e.open_positions ++ p ∷ [];
        },
        p,
      )

  -- What a price is above the entry of a long position, or below that of a short one.
  abbrev pub gain : PositionSide → (entry price : F) → F
  gain PositionSide.long entry price = d.sub price entry
  gain PositionSide.short entry price = d.sub entry price

  abbrev pub new_trade : Position F → F → (reason now : ℕ) → PaperTrade F
  new_trade p price reason now =
      let exit_fee = d.mul (d.mul p.quantity price) taker_fee in
      let raw = d.mul (gain p.side p.entry_price price) p.quantity in
      let fees = d.add (d.mul (d.mul p.quantity p.entry_price) taker_fee) exit_fee in
      let net = d.sub raw fees in
      record {
        id = p.id;
        side = p.side;
        entry_price = p.entry_price;
        exit_price = price;
        quantity = p.quantity;
        leverage = p.leverage;
        margin = p.margin;
        pnl = raw;
        pnl_pct = d.mul (d.div net p.margin) hundred;
        fees = fees;
        net_pnl = net;
        open_time = p.open_time;
        close_time = now;
        close_reason = reason;
      }

  -- `checkCircuitBreakers`: the ends of the day and of the week, and then the two limits.
  abbrev pub end_day : ℕ → PaperExecutor F → PaperExecutor F
  end_day now e =
      if ltb 86400000 (now - e.day_start)
      then record e { daily_pnl = d.of_nat 0; day_start = now }
      else e

  abbrev pub end_week : ℕ → PaperExecutor F → PaperExecutor F
  end_week now e =
      if ltb 604800000 (now - e.week_start)
      then record e { weekly_pnl = d.of_nat 0; week_start = now }
      else e

  abbrev pub loss_reached : BotConfig F → (pnl max_loss_pct : F) → Bool
  loss_reached config pnl max_loss_pct =
      d.leb (d.mul (d.div pnl config.starting_capital) hundred) (negate max_loss_pct)

  abbrev pub trigger : Bool → PaperExecutor F → PaperExecutor F
  trigger b e = if b then record e { circuit_breaker_triggered = true } else e

  unfoldable pub check_circuit_breakers : ℕ → PaperExecutor F → PaperExecutor F
  check_circuit_breakers now e =
      let e' = end_week now (end_day now e) in
      trigger (loss_reached e'.config e'.weekly_pnl e'.config.max_weekly_loss_pct)
        (trigger (loss_reached e'.config e'.daily_pnl e'.config.max_daily_loss_pct) e')

  abbrev pub settle : Position F → PaperTrade F → PaperExecutor F → PaperExecutor F
  settle p t e =
      let capital = d.add e.capital t.net_pnl in
      record e {
        capital = capital;
        daily_pnl = d.add e.daily_pnl t.net_pnl;
        weekly_pnl = d.add e.weekly_pnl t.net_pnl;
        max_capital = if d.ltb e.max_capital capital then capital else e.max_capital;
        open_positions = keep (λ (q : Position F). not (q.id == p.id)) e.open_positions;
        closed_trades = e.closed_trades ++ t ∷ [];
      }

  unfoldable pub close_position :
      Position F → F → (reason now : ℕ) → PaperExecutor F → PaperExecutor F × PaperTrade F
  close_position p price reason now e =
      let t = new_trade p price reason now in (check_circuit_breakers now (settle p t e), t)
