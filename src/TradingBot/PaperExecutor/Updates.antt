-- ===== src/TradingBot/PaperExecutor/Updates.antt =====
-- `updatePositions` of trading-bot/src/executors/paper-executor.ts.
use sur_protocol.Common.{
  ℕ, ◌-◌, Bool, true, not, ◌&&◌, List, [], ◌∷◌, Option, none, some, if◌then◌else◌, leb,
}
use sur_protocol.Common.Doubles.{Double}
use sur_protocol.TradingBot.PaperExecutor.{
  PositionSide, long, short, ExitReason, stop_hit, target_hit, trailing_hit, liquidated, Position,
  BotConfig, PaperExecutor, coalesce, hundred, gain,
}

module _ {F : Type 0} ⦃d : Double F⦄ where
  -- How far a price has moved in favour of the position, in per cent of the entry.
  abbrev pub price_move_pct : Position F → F → F
  price_move_pct p price = d.mul (d.div (gain p.side p.entry_price price) p.entry_price) hundred

  -- "Calculate current PnL"
  abbrev pub mark : F → Position F → Position F
  mark price p = record p {
    pnl = d.mul (gain p.side p.entry_price price) p.quantity;
    pnl_pct = d.mul (price_move_pct p price) p.leverage;
  }

  abbrev pub hits_stop : PositionSide → (price stop : F) → Bool
  hits_stop long price stop = d.leb price stop
  hits_stop short price stop = d.leb stop price

  abbrev pub hits_target : PositionSide → (price target : F) → Bool
  hits_target long price target = d.leb target price
  hits_target short price target = d.leb price target

  -- The start of the trailing stop.
  abbrev pub activates : BotConfig F → F → Position F → Bool
  activates config price p =
      not p.trailing_activated
      && d.leb (coalesce p.trailing_activation_pct config.trailing_activation_pct) p.pnl_pct
      && d.leb (d.div (d.of_nat 15) hundred) (price_move_pct p price)

  abbrev pub activate : BotConfig F → F → Position F → Position F
  activate config price p =
      if activates config price p
      then record p { trailing_activated = true; trailing_high_water = price }
      else p

  -- "Update high water mark"
  abbrev pub is_better : PositionSide → (price mark : F) → Bool
  is_better long price mark = d.ltb mark price
  is_better short price mark = d.ltb price mark

  abbrev pub raise_mark : F → Position F → Position F
  raise_mark price p =
      if is_better p.side price p.trailing_high_water
      then record p { trailing_high_water = price }
      else p

  abbrev pub min_profit_delta : Position F → F
  min_profit_delta p =
      if d.ltb (d.of_nat 0) p.quantity
      then d.div (d.div (d.of_nat 5) (d.of_nat 2)) p.quantity
      else d.of_nat 0

  -- Whether a price has come back to the trailing stop, which lies on the profitable side.
  abbrev pub trails : PositionSide → BotConfig F → F → Position F → Bool
  trails long config price p =
      let callback =
        d.div (coalesce p.trailing_callback_pct config.trailing_callback_pct) hundred in
      d.leb price (
        d.max (d.mul p.trailing_high_water (d.sub (d.of_nat 1) callback))
          (d.add p.entry_price (min_profit_delta p)))
  trails short config price p =
      let callback =
        d.div (coalesce p.trailing_callback_pct config.trailing_callback_pct) hundred in
      d.leb
        (d.min (d.mul p.trailing_high_water (d.add (d.of_nat 1) callback))
          (d.sub p.entry_price (min_profit_delta p)))
        price

  abbrev pub is_liquidated : Position F → Bool
  is_liquidated p =
      d.leb
        (d.mul (d.mul (d.div (d.of_nat 1) p.leverage) hundred) (d.div (d.of_nat 9) (d.of_nat 10)))
        (d.abs p.pnl_pct)
      && d.ltb p.pnl (d.of_nat 0)

  abbrev pub liquidation_check : Position F → Position F × Option ExitReason
  liquidation_check p = (p, if is_liquidated p then some liquidated else none)

  abbrev pub trailing_check :
      BotConfig F → (now : ℕ) → F → Position F → Position F × Option ExitReason
  trailing_check config now price p =
      if p.trailing_activated
      then (let q = raise_mark price p in
          if leb 60000 (now - q.open_time) && trails q.side config price q
          then (q, some trailing_hit)
          else liquidation_check q)
      else liquidation_check p

  -- One round of the loop: the position as it is left, and why it is to be closed.
  unfoldable pub update_position :
      BotConfig F → (now : ℕ) → F → Position F → Position F × Option ExitReason
  update_position config now price p =
      let q = mark price p in
      if hits_stop q.side price q.stop_loss
      then (q, some stop_hit)
      else if d.ltb (d.of_nat 0) q.take_profit && hits_target q.side price q.take_profit
      then (q, some target_hit)
      else trailing_check config now price (activate config price q)

  abbrev pub add_exit :
      Position F
      → Option ExitReason
      → List (Position F × ExitReason)
      → List (Position F × ExitReason)
  add_exit p none exits = exits
  add_exit p (some why) exits = (p, why) ∷ exits

  abbrev pub update_each :
      BotConfig F
      → (now : ℕ) → F
      → List (Position F)
      → List (Position F) × List (Position F × ExitReason)
  update_each config now price [] = ([], [])
  update_each config now price (p ∷ ps) =
      let (q, why) = update_position config now price p in
      let (qs, exits) = update_each config now price ps in (q ∷ qs, add_exit q why exits)

  -- The executor with the positions as they are left, and those to be closed.
  unfoldable pub update_positions :
      (now : ℕ) → F → PaperExecutor F → PaperExecutor F × List (Position F × ExitReason)
  update_positions now price e =
      let (ps, exits) = update_each e.config now price e.open_positions in
      (record e { open_positions = ps }, exits)
