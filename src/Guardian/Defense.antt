-- ===== src/Guardian/Defense.antt =====
-- The scan of risk-guardian/src/index.ts and its defensive actions. A trader is one number for all
-- spellings of an address, since the service compares them in lower case. Numbers are of the type
-- `F` of a `Double`.
use sur_protocol.Common.{
  ℕ, suc, Bool, true, List, [], ◌∷◌, ◌++◌, Option, none, some, if◌then◌else◌, length,
}
use sur_protocol.Common.Dict.{Dict}
use sur_protocol.Common.Doubles.{Double, or_nan, or_else}

pub data DefenseLevel : Type 0 where
  safe caution warning danger critical : DefenseLevel

pub data ActionType : Type 0 where
  alert add_margin reduce_position hedge emergency_close : ActionType

pub record GuardianConfig (F : Type 0) : Type 0 where
  pub trader : ℕ
  pub enabled : Bool
  pub alert_threshold : F
  pub defend_threshold : F
  pub reduce_threshold : F
  pub emergency_threshold : F
  pub auto_add_margin : Bool
  pub auto_reduce_size : Bool
  pub auto_hedge : Bool
  pub auto_emergency_close : Bool
  pub max_margin_to_add : F
  pub reduce_percentage : F

-- A position as the Agent API sends it, under either of two spellings of its fields.
pub record RawPosition (F : Type 0) : Type 0 where
  pub market : ℕ
  pub size : Option F
  pub mark_price : Option F
  pub mark_price_alias : Option F
  pub liquidation_price : Option F
  pub liquidation_alias : Option F

-- The text of an action: what was done at which distance. " (FAILED)" stands in it when the action
-- has no success.
pub data Detail (F : Type 0) : Type 0 where
  consider : (distance : F) → Detail F
  added : (amount distance : F) → Detail F
  closed : (percentage distance : F) → Detail F
  emergency : (distance : F) → Detail F

pub record GuardianAction (F : Type 0) : Type 0 where
  pub id : ℕ
  pub timestamp : ℕ
  pub trader : ℕ
  pub market : ℕ
  pub action : ActionType
  pub detail : Detail F
  pub notional_protected : F
  pub fee_bps : ℕ
  pub fee_charged : F
  pub success : Bool

-- The requests that a defense sends.
pub data Post (F : Type 0) : Type 0 where
  margin : (trader market : ℕ) → (amount : F) → Post F
  close : (trader market : ℕ) → (percentage : F) → Post F

-- What a defense does: the action that it logs, and the request that it sends to the Agent API.
pub record Defense (F : Type 0) : Type 0 where
  pub action : GuardianAction F
  pub request : Option (Post F)

-- The state of the service; `posts` are the requests that it has sent, the oldest first.
pub record Guardian (F : Type 0) : Type 0 where
  pub subscriptions : Dict ℕ (GuardianConfig F)
  pub action_log : List (GuardianAction F)
  pub scan_count : ℕ
  pub posts : List (Post F)

-- What the Agent API answers during a scan (none where the request fails), whether a request goes
-- through, and the id and time of the action with a number.
pub record Agent (F : Type 0) : Type 0 where
  pub positions : ℕ → Option (List (RawPosition F))
  pub balance : ℕ → Option F
  pub posted : Post F → Bool
  pub ids : ℕ → ℕ
  pub times : ℕ → ℕ

-- `GUARDIAN_FEE_BPS`
abbrev pub guardian_fee_bps : ℕ
guardian_fee_bps = 5

module _ {F : Type 0} ⦃d : Double F⦄ where
  unfoldable pub classify_risk : F → GuardianConfig F → DefenseLevel
  classify_risk distance c =
      if d.leb distance c.emergency_threshold
      then DefenseLevel.critical
      else if d.leb distance c.reduce_threshold
      then DefenseLevel.danger
      else if d.leb distance c.defend_threshold
      then DefenseLevel.warning
      else if d.leb distance c.alert_threshold
      then DefenseLevel.caution
      else DefenseLevel.safe

  -- `calculateDistanceToLiq`
  abbrev pub calculate_distance : (mark_price liquidation_price : F) → F
  calculate_distance m l =
      if d.leb l (d.of_nat 0)
      then d.of_nat 100
      else if d.leb m (d.of_nat 0)
      then d.of_nat 100
      else d.mul (d.div (d.abs (d.sub m l)) m) (d.of_nat 100)

  -- `fetchPositions` and `fetchBalance`
  abbrev pub fetch_positions : Agent F → ℕ → List (RawPosition F)
  fetch_positions agent trader = elim (agent.positions trader) [ none ↦ [] | some ps ↦ ps ]

  abbrev pub fetch_balance : Agent F → ℕ → F
  fetch_balance agent trader = or_else (agent.balance trader) (d.of_nat 0)

  -- The notional of a position and the fee on it. Only the first spelling of the price is read.
  abbrev pub notional : RawPosition F → F
  notional p = d.abs (d.mul (or_nan p.size) (or_nan p.mark_price))

  abbrev pub fee : RawPosition F → F
  fee p = d.div (d.mul (notional p) (d.of_nat guardian_fee_bps)) (d.of_nat 10000)

  -- `marginToAdd`
  abbrev pub margin_to_add : Agent F → ℕ → GuardianConfig F → F
  margin_to_add agent trader c =
      d.min c.max_margin_to_add
        (d.mul (fetch_balance agent trader) (d.div (d.of_nat 1) (d.of_nat 2)))

  -- The action that a defense ends with; `n` is the number of actions so far.
  abbrev pub new_action :
      Agent F → ℕ → ℕ → RawPosition F → ActionType → Detail F → F → Bool → GuardianAction F
  new_action agent n trader p action detail charged success = record {
    id = agent.ids n;
    timestamp = agent.times n;
    trader = trader;
    market = p.market;
    action = action;
    detail = detail;
    notional_protected = notional p;
    fee_bps = guardian_fee_bps;
    fee_charged = charged;
    success = success;
  }

  -- An alert, which sends nothing and is free.
  abbrev pub warn : Agent F → ℕ → ℕ → RawPosition F → F → Defense F
  warn agent n trader p distance = record {
    action = new_action agent n trader p ActionType.alert (consider distance) (d.of_nat 0) true;
    request = none;
  }

  -- An intervention: it sends the request and has success if the request goes through.
  abbrev pub intervene :
      Agent F → ℕ → ℕ → RawPosition F → ActionType → Detail F → Post F → Defense F
  intervene agent n trader p action detail request = record {
    action = new_action agent n trader p action detail (fee p) (agent.posted request);
    request = some request;
  }

  -- `executeDefense`; none is null, where the text stays empty.
  unfoldable pub execute_defense :
      Agent F → ℕ → ℕ → DefenseLevel → GuardianConfig F → RawPosition F → F → Option (Defense F)
  execute_defense agent n trader DefenseLevel.safe c p distance = none
  execute_defense agent n trader DefenseLevel.caution c p distance =
      some (warn agent n trader p distance)
  execute_defense agent n trader DefenseLevel.warning c p distance =
      let amount = margin_to_add agent trader c in
      if c.auto_add_margin
      then (if d.ltb (d.of_nat 10) amount
          then some (
              intervene agent n trader p ActionType.add_margin (added amount distance)
                (margin trader p.market amount))
          else none)
      else none
  execute_defense agent n trader DefenseLevel.danger c p distance =
      if c.auto_reduce_size
      then some (
          intervene agent n trader p ActionType.reduce_position
            (closed c.reduce_percentage distance) (close trader p.market c.reduce_percentage))
      else none
  execute_defense agent n trader DefenseLevel.critical c p distance =
      if c.auto_emergency_close
      then some (
          intervene agent n trader p ActionType.emergency_close (emergency distance)
            (close trader p.market (d.of_nat 100)))
      else none

  -- The request that is sent, and `actionLog.push`.
  abbrev pub record_defense : Option (Defense F) → Guardian F → Guardian F
  record_defense none g = g
  record_defense (some x) g = record g {
    action_log = g.action_log ++ x.action ∷ [];
    posts = elim x.request [ none ↦ g.posts | some r ↦ g.posts ++ r ∷ [] ];
  }

  abbrev pub distance_of : RawPosition F → F
  distance_of p =
      calculate_distance (or_else p.mark_price (or_else p.mark_price_alias (d.of_nat 0)))
        (or_else p.liquidation_price (or_else p.liquidation_alias (d.of_nat 0)))

  -- `!pos.size || pos.size === 0`
  abbrev pub is_flat : Option F → Bool
  is_flat none = true
  is_flat (some z) = d.is_falsy z

  abbrev pub guard_position :
      Agent F → ℕ → GuardianConfig F → RawPosition F → Guardian F → Guardian F
  guard_position agent trader c p g =
      if is_flat p.size
      then g
      else record_defense
          (execute_defense agent (length g.action_log) trader (classify_risk (distance_of p) c) c p
            (distance_of p))
          g

  abbrev pub guard_positions :
      Agent F → ℕ → GuardianConfig F → List (RawPosition F) → Guardian F → Guardian F
  guard_positions agent trader c [] g = g
  guard_positions agent trader c (p ∷ ps) g =
      guard_positions agent trader c ps (guard_position agent trader c p g)

  -- The traders, over the subscriptions that stand when the scan begins.
  abbrev pub guard_traders : Agent F → Dict ℕ (GuardianConfig F) → Guardian F → Guardian F
  guard_traders agent [] g = g
  guard_traders agent ((trader, c) ∷ rest) g =
      guard_traders agent rest
        (if c.enabled then guard_positions agent trader c (fetch_positions agent trader) g else g)

  -- `scanAll`
  unfoldable pub scan_all : Agent F → Guardian F → Guardian F
  scan_all agent g =
      guard_traders agent g.subscriptions (record g { scan_count = suc g.scan_count })
