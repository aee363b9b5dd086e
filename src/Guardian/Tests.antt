-- ===== src/Guardian/Tests.antt =====
-- A guardian at work, with decimal numbers for the floating-point ones.
use sur_protocol.Common.{
  ℕ, ◌+◌, ◌-◌, ◌*◌, ◌/◌, ◌≤◌, true, false, ◌≡◌, refl, ◌≢◌, [], ◌∷◌, none, some, if◌then◌else◌, leb,
  ltb, ◌==◌, nat_eq, arith,
}
use mathlib.Core.List.{Memᴰ}
use sur_protocol.Common.Doubles.{Double, IsOrdered}
use sur_protocol.Guardian.Defense.{
  RawPosition, Defense, Guardian, Agent, margin, close, classify_risk, execute_defense, scan_all,
}
use sur_protocol.Guardian.Routes.{default_config, unsubscribe}
use sur_protocol.Guardian.Terms.{severity, classify_risk_monotone, IsConsented}
use sur_protocol.Guardian.Emergency.{scan_all-closes}
use sur_protocol.Guardian.Growth.{Extends}
use sur_protocol.Guardian.Consent.{scan_all-IsConsented, unsubscribe_quiet}

-- Decimal numbers with four places, as the number of their ten-thousandths.
instance abbrev fixed : Double ℕ
fixed = record {
  nan = 0;
  of_nat = λ n. n * 10000;
  add = λ x y. x + y;
  sub = λ x y. x - y;
  mul = λ x y. x * y / 10000;
  div = λ x y. x * 10000 / y;
  abs = λ x. x;
  min = λ x y. if leb x y then x else y;
  max = λ x y. if leb x y then y else x;
  leb = leb;
  ltb = ltb;
  is_falsy = λ x. x == 0;
}

fixed-IsOrdered : IsOrdered fixed
fixed-IsOrdered = record {
  trans = λ x y z h k. ground (arith, h, k);
  min_le = λ w x y h. ground (arith, h);
  min_le_right = λ w x y h. ground (arith, h);
}

-- A position of 3 at a price of 100, by its price of liquidation.
abbrev position : ℕ → RawPosition ℕ
position liquidation = record {
  market = 1;
  size = some 30000;
  mark_price = some 1000000;
  mark_price_alias = none;
  liquidation_price = some (liquidation * 10000);
  liquidation_alias = none;
}

-- Positions that are 15, 10 and 4 percent away from their liquidation, and a balance of 500.
abbrev agent : Agent ℕ
agent = record {
  positions = λ t. some (position 85 ∷ position 90 ∷ position 96 ∷ []);
  balance = λ t. some 5000000;
  posted = λ r. true;
  ids = λ n. n;
  times = λ n. 1000 + n;
}

abbrev guardian : Guardian ℕ
guardian = record {
  subscriptions =
      (7, default_config 7) ∷ (8, record (default_config 8) { auto_reduce_size = false }) ∷ [];
  action_log = [];
  scan_count = 0;
  posts = [];
}

-- The second trader does not let positions be reduced.
five_requests :
    (scan_all agent guardian).posts
    ≡ margin 7 1 2500000
      ∷ close 7 1 250000
      ∷ close 7 1 1000000
      ∷ margin 8 1 2500000
      ∷ close 8 1 1000000
      ∷ []
unfolding scan_all execute_defense classify_risk
five_requests = refl

nearer_is_worse :
    severity (classify_risk {F = ℕ} 200000 (default_config 7))
    ≤ severity (classify_risk {F = ℕ} 40000 (default_config 7))
nearer_is_worse = classify_risk_monotone fixed-IsOrdered 40000 200000 (default_config 7) refl

scan_all-IsConsented_example :
    Extends (IsConsented agent guardian.subscriptions) guardian (scan_all agent guardian)
scan_all-IsConsented_example =
    scan_all-IsConsented fixed-IsOrdered agent guardian (refl, (refl, tt))

no_longer_guarded :
    Extends
      (λ (x : Defense ℕ). x.action.trader ≢ 8)
      (unsubscribe (some 8) guardian).0
      (scan_all agent (unsubscribe (some 8) guardian).0)
no_longer_guarded = unsubscribe_quiet fixed-IsOrdered agent guardian 8 (refl, (refl, tt))

closes_the_third : Memᴰ (close 7 1 1000000) (scan_all agent guardian).posts
closes_the_third =
    scan_all-closes agent guardian 7 (default_config 7) (position 96) refl
      (Memᴰ.tail (Memᴰ.tail (Memᴰ.head refl)))
      (record { enabled = refl; switched_on = refl; held = refl; near = refl })
