-- ===== src/Guardian/Routes.antt =====
-- The routes of risk-guardian/src/index.ts that change or sum up the state.
use sur_protocol.Common.{
  ℕ, Bool, true, false, not, List, [], ◌∷◌, Option, none, some, keep, length, map, ◌==◌, nat_eq,
}
use sur_protocol.Common.Dict.{lookup, insert, erase}
use sur_protocol.Common.Doubles.{Double, sum_from}
use sur_protocol.Guardian.Defense.{GuardianConfig, Guardian, GuardianAction, ActionType}

-- The fields of a configuration that a request sets.
pub record Overrides (F : Type 0) : Type 0 where
  pub enabled : Option Bool
  pub alert_threshold : Option F
  pub defend_threshold : Option F
  pub reduce_threshold : Option F
  pub emergency_threshold : Option F
  pub auto_add_margin : Option Bool
  pub auto_reduce_size : Option Bool
  pub auto_hedge : Option Bool
  pub auto_emergency_close : Option Bool
  pub max_margin_to_add : Option F
  pub reduce_percentage : Option F

abbrev pub get_or {ℓ} : {A : Type ℓ} → A → Option A → A
get_or a none = a
get_or a (some b) = b

-- `{ ...config, ...overrides }`
abbrev pub override : {F : Type 0} → Overrides F → GuardianConfig F → GuardianConfig F
override o c = record {
  trader = c.trader;
  enabled = get_or c.enabled o.enabled;
  alert_threshold = get_or c.alert_threshold o.alert_threshold;
  defend_threshold = get_or c.defend_threshold o.defend_threshold;
  reduce_threshold = get_or c.reduce_threshold o.reduce_threshold;
  emergency_threshold = get_or c.emergency_threshold o.emergency_threshold;
  auto_add_margin = get_or c.auto_add_margin o.auto_add_margin;
  auto_reduce_size = get_or c.auto_reduce_size o.auto_reduce_size;
  auto_hedge = get_or c.auto_hedge o.auto_hedge;
  auto_emergency_close = get_or c.auto_emergency_close o.auto_emergency_close;
  max_margin_to_add = get_or c.max_margin_to_add o.max_margin_to_add;
  reduce_percentage = get_or c.reduce_percentage o.reduce_percentage;
}

-- The status code of an answer.
abbrev pub Status : Type 0
Status = ℕ

-- `a.action !== "alert"`
abbrev pub is_intervention : {F : Type 0} → GuardianAction F → Bool
is_intervention a = elim a.action [
  | ActionType.alert ↦ false
  | ActionType.add_margin ↦ true
  | ActionType.reduce_position ↦ true
  | ActionType.hedge ↦ true
  | ActionType.emergency_close ↦ true
]

pub record TraderStats (F : Type 0) : Type 0 where
  pub total_alerts : ℕ
  pub total_interventions : ℕ
  pub total_fees_charged : F
  pub last_action : Option (GuardianAction F)

abbrev pub last {ℓ} : {A : Type ℓ} → List A → Option A
last [] = none
last (x ∷ []) = some x
last (x ∷ y ∷ ys) = last (y ∷ ys)

module _ {F : Type 0} ⦃d : Double F⦄ where
  -- `DEFAULT_CONFIG`
  abbrev pub default_config : ℕ → GuardianConfig F
  default_config trader = record {
    trader = trader;
    enabled = true;
    alert_threshold = d.of_nat 30;
    defend_threshold = d.of_nat 20;
    reduce_threshold = d.of_nat 12;
    emergency_threshold = d.of_nat 5;
    auto_add_margin = true;
    auto_reduce_size = true;
    auto_hedge = false;
    auto_emergency_close = true;
    max_margin_to_add = d.of_nat 5000;
    reduce_percentage = d.of_nat 25;
  }

  -- POST /v1/guardian/subscribe
  unfoldable pub subscribe : Option ℕ → Overrides F → Guardian F → Guardian F × Status
  subscribe none o g = (g, 400)
  subscribe (some t) o g =
      (record g { subscriptions = insert t (override o (default_config t)) g.subscriptions }, 201)

  -- DELETE /v1/guardian/unsubscribe/:trader
  unfoldable pub unsubscribe : Option ℕ → Guardian F → Guardian F × Status
  unsubscribe none g = (g, 200)
  unsubscribe (some t) g = (record g { subscriptions = erase t g.subscriptions }, 200)

  -- POST /v1/guardian/config
  unfoldable pub update_config : Option ℕ → Overrides F → Guardian F → Guardian F × Status
  update_config none o g = (g, 400)
  update_config (some t) o g = elim (lookup t g.subscriptions) [
    | none ↦ (g, 404)
    | some c ↦ (record g { subscriptions = insert t (override o c) g.subscriptions }, 200)
  ]

  -- GET /v1/guardian/actions/:trader
  abbrev pub trader_actions : ℕ → Guardian F → List (GuardianAction F)
  trader_actions t g = keep (λ a. a.trader == t) g.action_log

  -- GET /v1/guardian/status/:trader
  unfoldable pub trader_status : ℕ → Guardian F → Option (TraderStats F)
  trader_status t g =
      let actions = trader_actions t g in
      elim (lookup t g.subscriptions) [
        | none ↦ none
        | some c ↦ some (record {
          total_alerts = length (keep (λ a. not (is_intervention a)) actions);
          total_interventions = length (keep is_intervention actions);
          total_fees_charged =
              sum_from (d.of_nat 0) (map (λ (a : GuardianAction F). a.fee_charged) actions);
          last_action = last actions;
        })
      ]

abbrev pub is_action : {F : Type 0} → ActionType → GuardianAction F → Bool
is_action ActionType.add_margin a = elim a.action [
  | ActionType.add_margin ↦ true
  | ActionType.alert ↦ false
  | ActionType.reduce_position ↦ false
  | ActionType.hedge ↦ false
  | ActionType.emergency_close ↦ false
]
is_action ActionType.reduce_position a = elim a.action [
  | ActionType.reduce_position ↦ true
  | ActionType.alert ↦ false
  | ActionType.add_margin ↦ false
  | ActionType.hedge ↦ false
  | ActionType.emergency_close ↦ false
]
is_action ActionType.emergency_close a = elim a.action [
  | ActionType.emergency_close ↦ true
  | ActionType.alert ↦ false
  | ActionType.add_margin ↦ false
  | ActionType.hedge ↦ false
  | ActionType.reduce_position ↦ false
]
is_action ActionType.hedge a = elim a.action [
  | ActionType.hedge ↦ true
  | ActionType.alert ↦ false
  | ActionType.add_margin ↦ false
  | ActionType.reduce_position ↦ false
  | ActionType.emergency_close ↦ false
]
is_action ActionType.alert a = not (is_intervention a)

-- GET /v1/guardian/stats
pub record GuardianStats (F : Type 0) : Type 0 where
  pub active_subscriptions : ℕ
  pub total_scans : ℕ
  pub total_alerts : ℕ
  pub total_interventions : ℕ
  pub total_notional_protected : F
  pub total_fees_collected : F
  pub add_margin : ℕ
  pub reduce_position : ℕ
  pub hedge : ℕ
  pub emergency_close : ℕ

pub guardian_stats : {F : Type 0} ⦃d : Double F⦄ → Guardian F → GuardianStats F
guardian_stats {F} ⦃d⦄ g =
    let interventions = keep is_intervention g.action_log in
    record {
      active_subscriptions = length g.subscriptions;
      total_scans = g.scan_count;
      total_alerts = length (keep (is_action ActionType.alert) g.action_log);
      total_interventions = length interventions;
      total_notional_protected =
          sum_from (d.of_nat 0)
            (map (λ (a : GuardianAction F). a.notional_protected) interventions);
      total_fees_collected =
          sum_from (d.of_nat 0) (map (λ (a : GuardianAction F). a.fee_charged) interventions);
      add_margin = length (keep (is_action ActionType.add_margin) g.action_log);
      reduce_position = length (keep (is_action ActionType.reduce_position) g.action_log);
      hedge = length (keep (is_action ActionType.hedge) g.action_log);
      emergency_close = length (keep (is_action ActionType.emergency_close) g.action_log);
    }
