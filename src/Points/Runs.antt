-- ===== src/Points/Runs.antt =====
-- A campaign over any trades and referrals.
use sur_protocol.Common.{
  ℕ, ◌≤◌, Bool, ◌≡◌, refl, sym, ap, List, [], ◌∷◌, Option, none, some, arith, if-elim, ◌==◌, nat_eq,
}
use sur_protocol.Common.Dict.{Dict, lookup, has}
use sur_protocol.Common.Doubles.{Double}
use sur_protocol.Points.Campaign.{
  PointsRecord, ReferralRecord, Campaign, Clock, get_or_create, save, next_streak, with_trade,
  add_bonus, credit_one, credit_referral_points, calculate_points_for_trade, register_referral,
}
use sur_protocol.Points.Ledger.{IsBooked, Fits, save-IsBooked}

-- What happens to a campaign.
pub data Event (F : Type 0) : Type 0 where
  trades : Clock → (trader : ℕ) → (volume : F) → Event F
  refers : (referrer referee code : ℕ) → Event F

module _ {F : Type 0} ⦃d : Double F⦄ where
  own_record :
      (c : Campaign F) (t : ℕ)
      → IsBooked c
      → get_or_create (get_or_create t c.records).trader c.records ≡ get_or_create t c.records
  own_record c t v = ap (λ (k : ℕ). get_or_create k c.records) (v.owner t)

  next_streak_le :
      (clock : Clock) (r : PointsRecord F) → r.streak_days ≤ 7 → next_streak clock r ≤ 7
  next_streak_le clock r h = ground (arith, h)

  with_trade-Fits :
      (c : Campaign F) (clock : Clock) (volume : F) (t : ℕ)
      → IsBooked c
      → let x = with_trade clock volume (get_or_create t c.records) in Fits c x.0 x.1
  with_trade-Fits c clock volume t v =
      let r : PointsRecord F = get_or_create t c.records in
      let same = own_record c t v in
      record {
        trader = refl;
        points =
            ap (λ (x : PointsRecord F). d.add x.points (with_trade clock volume r).1.points_earned)
              (sym same);
        trades = omega (arith, ap (λ (x : PointsRecord F). x.trade_count) same);
        streak = next_streak_le clock r (v.streak t);
      }

  add_bonus-Fits :
      (c : Campaign F) (referee : ℕ) (points : F) (t : ℕ)
      → IsBooked c
      → let x = add_bonus referee points (get_or_create t c.records) in Fits c x.0 x.1
  add_bonus-Fits c referee points t v =
      let r : PointsRecord F = get_or_create t c.records in
      let same = own_record c t v in
      record {
        trader = refl;
        points =
            ap (λ (x : PointsRecord F). d.add x.points (add_bonus referee points r).1.points_earned)
              (sym same);
        trades = omega (arith, ap (λ (x : PointsRecord F). x.trade_count) same);
        streak = v.streak t;
      }

  -- The referrals are no part of the books.
  relink :
      (c : Campaign F) (m : Dict ℕ (ReferralRecord F))
      → IsBooked c
      → IsBooked (record c { referrals = m })
  relink c m v = record { points = v.points; trades = v.trades; streak = v.streak; owner = v.owner }

  credit_one-IsBooked :
      (referee : ℕ) (points : F) (o : Option (ReferralRecord F)) (c : Campaign F)
      → IsBooked c
      → IsBooked (credit_one referee points o c)
  credit_one-IsBooked referee points none c v = v
  credit_one-IsBooked referee points (some link) c v =
      let x = add_bonus referee points (get_or_create link.referrer c.records) in
      relink (save x.0 x.1 c) _
        (save-IsBooked c x.0 x.1 (add_bonus-Fits c referee points link.referrer v) v)

  trade-IsBooked :
      (clock : Clock) (t : ℕ) (volume : F) (c : Campaign F)
      → IsBooked c
      → IsBooked (calculate_points_for_trade clock t volume c).0
  unfolding calculate_points_for_trade credit_referral_points
  trade-IsBooked clock t volume c v =
      let x = with_trade clock volume (get_or_create t c.records) in
      let c' = save x.0 x.1 c in
      credit_one-IsBooked t x.1.points_earned (lookup t c'.referrals) c'
        (save-IsBooked c x.0 x.1 (with_trade-Fits c clock volume t v) v)

  register_referral-IsBooked :
      (referrer referee code : ℕ) (c : Campaign F)
      → IsBooked c
      → IsBooked (register_referral referrer referee code c).0
  unfolding register_referral
  register_referral-IsBooked referrer referee code c v =
      if-elim (λ (x : Campaign F × Bool). IsBooked x.0) (referrer == referee) _ _ v
        (if-elim (λ (x : Campaign F × Bool). IsBooked x.0) (has referee c.referrals) _ _ v
          (relink c _ v))

  abbrev pub step : Event F → Campaign F → Campaign F
  step (trades clock t volume) c = (calculate_points_for_trade clock t volume c).0
  step (refers referrer referee code) c = (register_referral referrer referee code c).0

  abbrev pub run : List (Event F) → Campaign F → Campaign F
  run [] c = c
  run (e ∷ es) c = run es (step e c)

  step-IsBooked : (e : Event F) (c : Campaign F) → IsBooked c → IsBooked (step e c)
  step-IsBooked (trades clock t volume) c v = trade-IsBooked clock t volume c v
  step-IsBooked (refers referrer referee code) c v =
      register_referral-IsBooked referrer referee code c v

  run_keeps : (es : List (Event F)) (c : Campaign F) → IsBooked c → IsBooked (run es c)
  run_keeps [] c v = v
  run_keeps (e ∷ es) c v = run_keeps es (step e c) (step-IsBooked e c v)

  abbrev pub empty : Campaign F
  empty = record { records = []; history = []; referrals = [] }

  -- After any trades and referrals of a new campaign the records agree with the history: every trader
  -- has the points that the history adds up to for that trader, in its order, and the number of
  -- trades that it counts, and no streak is longer than seven days.
  pub run-IsBooked : (es : List (Event F)) → IsBooked (run es empty)
  run-IsBooked es = run_keeps es empty (record {
    points = λ t. refl;
    trades = λ t. refl;
    streak = λ t. omega arith;
    owner = λ t. refl;
  })
