-- ===== src/Guardian/Terms.antt =====
-- The terms on which the risk guardian acts on a position.
use sur_protocol.Common.{
  ℕ, ◌≤◌, true, false, ◌≡◌, refl, Option, none, some, arith, if-split, nat_eq,
}
use mathlib.Core.List.{Memᴰ}
use sur_protocol.Common.Dict.{Dict, lookup}
use sur_protocol.Common.Doubles.{Double, IsOrdered, or_nan, or_else}
use sur_protocol.Guardian.Defense.{
  DefenseLevel, ActionType, GuardianConfig, RawPosition, Detail, consider, added, closed, emergency,
  Defense, Post, margin, close, Agent, classify_risk, margin_to_add, fetch_positions,
  execute_defense, distance_of, is_flat,
}

-- How severe a level is.
abbrev pub severity : DefenseLevel → ℕ
severity DefenseLevel.safe = 0
severity DefenseLevel.caution = 1
severity DefenseLevel.warning = 2
severity DefenseLevel.danger = 3
severity DefenseLevel.critical = 4

module _ {F : Type 0} ⦃d : Double F⦄ where
  -- The nearer a position is to its liquidation, the higher its level or the same, whatever the
  -- thresholds are, if comparisons chain.
  pub classify_risk_monotone :
      (o : IsOrdered d) (x y : F) (c : GuardianConfig F)
      → d.leb x y ≡ true
      → severity (classify_risk y c) ≤ severity (classify_risk x c)
  unfolding classify_risk
  classify_risk_monotone o x y c h = ground (
    arith,
    h,
    o.trans x y c.emergency_threshold h,
    o.trans x y c.reduce_threshold h,
    o.trans x y c.defend_threshold h,
    o.trans x y c.alert_threshold h,
  )

  -- What an intervention costs: 5 in 10,000 of the size times the price.
  abbrev pub five_bps : RawPosition F → F
  five_bps p =
      d.div (d.mul (d.abs (d.mul (or_nan p.size) (or_nan p.mark_price))) (d.of_nat 5))
        (d.of_nat 10000)

  -- An intervention has sent the request `r`; it is charged, and its success is that of the request.
  pub record IsCharged (agent : Agent F) (p : RawPosition F) (x : Defense F) (r : Post F)
      : Type 0 where
    pub sent : x.request ≡ some r
    pub answered : x.action.success ≡ agent.posted r
    pub fee_charged : x.action.fee_charged ≡ five_bps p

  -- What the configuration `c` of a trader allows to do about the position `p`.
  abbrev pub IsAllowed :
      Agent F → GuardianConfig F → RawPosition F → Defense F → Detail F → ActionType → Type 0
  IsAllowed agent c p x (consider near) ActionType.alert =
      (d.leb (distance_of p) c.alert_threshold ≡ true)
      × (x.action.fee_charged ≡ d.of_nat 0)
      × (x.request ≡ none)
  IsAllowed agent c p x (added amount near) ActionType.add_margin =
      (d.leb (distance_of p) c.defend_threshold ≡ true)
      × (c.auto_add_margin ≡ true)
      × (d.ltb (d.of_nat 10) amount ≡ true)
      × (d.leb amount c.max_margin_to_add ≡ true)
      × (d.leb amount (
            d.mul (or_else (agent.balance x.action.trader) (d.of_nat 0))
              (d.div (d.of_nat 1) (d.of_nat 2)))
          ≡ true)
      × IsCharged agent p x (margin x.action.trader p.market amount)
  IsAllowed agent c p x (closed percentage near) ActionType.reduce_position =
      (d.leb (distance_of p) c.reduce_threshold ≡ true)
      × (c.auto_reduce_size ≡ true)
      × (percentage ≡ c.reduce_percentage)
      × IsCharged agent p x (close x.action.trader p.market c.reduce_percentage)
  IsAllowed agent c p x (emergency near) ActionType.emergency_close =
      (d.leb (distance_of p) c.emergency_threshold ≡ true)
      × (c.auto_emergency_close ≡ true)
      × IsCharged agent p x (close x.action.trader p.market (d.of_nat 100))
  IsAllowed agent c p x _ _ = ⊥

  -- A defense that the subscriptions consent to, of a position that the API reports.
  pub record IsConsented (agent : Agent F) (subs : Dict ℕ (GuardianConfig F)) (x : Defense F)
      : Type 0 where
    pub config : GuardianConfig F
    pub position : RawPosition F
    pub subscribed : lookup x.action.trader subs ≡ some config
    pub enabled : config.enabled ≡ true
    pub reported : Memᴰ position (fetch_positions agent x.action.trader)
    pub held : is_flat position.size ≡ false
    pub market : x.action.market ≡ position.market
    pub allowed : IsAllowed agent config position x x.action.detail x.action.action

  -- The thresholds that a level means.
  abbrev pub Reaches : DefenseLevel → F → GuardianConfig F → Type 0
  Reaches DefenseLevel.safe x c = Unit
  Reaches DefenseLevel.caution x c = d.leb x c.alert_threshold ≡ true
  Reaches DefenseLevel.warning x c = d.leb x c.defend_threshold ≡ true
  Reaches DefenseLevel.danger x c = d.leb x c.reduce_threshold ≡ true
  Reaches DefenseLevel.critical x c = d.leb x c.emergency_threshold ≡ true

  pub classify_risk-Reaches : (x : F) (c : GuardianConfig F) → Reaches (classify_risk x c) x c
  unfolding classify_risk
  classify_risk-Reaches x c =
      if-split (λ l. Reaches l x c) (d.leb x c.emergency_threshold) _ _ (λ h. h)
        (λ _.
          if-split (λ l. Reaches l x c) (d.leb x c.reduce_threshold) _ _ (λ h. h)
            (λ _.
              if-split (λ l. Reaches l x c) (d.leb x c.defend_threshold) _ _ (λ h. h)
                (λ _.
                  if-split (λ l. Reaches l x c) (d.leb x c.alert_threshold) _ _ (λ h. h)
                    (λ _. tt))))

  abbrev pub Holds : (Defense F → Type 0) → Option (Defense F) → Type 0
  Holds P none = Unit
  Holds P (some x) = P x

  abbrev pub Ours : Agent F → ℕ → GuardianConfig F → RawPosition F → Defense F → Type 0
  Ours agent trader c p x =
      (x.action.trader ≡ trader)
      × (x.action.market ≡ p.market)
      × IsAllowed agent c p x x.action.detail x.action.action

  pub execute_defense-Ours :
      (o : IsOrdered d) (agent : Agent F) (n trader : ℕ) (level : DefenseLevel)
      (c : GuardianConfig F) (p : RawPosition F)
      → Reaches level (distance_of p) c
      → Holds (Ours agent trader c p) (execute_defense agent n trader level c p (distance_of p))
  unfolding execute_defense
  execute_defense-Ours o agent n trader DefenseLevel.safe c p near = tt
  execute_defense-Ours o agent n trader DefenseLevel.caution c p near =
      (refl, refl, (near, refl, refl))
  execute_defense-Ours o agent n trader DefenseLevel.warning c p near =
      if-split (Holds (Ours agent trader c p)) c.auto_add_margin _ _
        (λ on.
          if-split (Holds (Ours agent trader c p))
            (d.ltb (d.of_nat 10) (margin_to_add agent trader c)) _ _
            (λ much. (
              refl,
              refl,
              (
                near,
                on,
                much,
                o.min_le _ _ _ much,
                o.min_le_right _ _ _ much,
                record { sent = refl; answered = refl; fee_charged = refl },
              ),
            ))
            (λ little. tt))
        (λ off. tt)
  execute_defense-Ours o agent n trader DefenseLevel.danger c p near =
      if-split (Holds (Ours agent trader c p)) c.auto_reduce_size _ _
        (λ on. (
          refl,
          refl,
          (near, on, refl, record { sent = refl; answered = refl; fee_charged = refl }),
        ))
        (λ off. tt)
  execute_defense-Ours o agent n trader DefenseLevel.critical c p near =
      if-split (Holds (Ours agent trader c p)) c.auto_emergency_close _ _
        (λ on.
          (refl, refl, (near, on, record { sent = refl; answered = refl; fee_charged = refl })))
        (λ off. tt)
