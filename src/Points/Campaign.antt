-- ===== src/Points/Campaign.antt =====
-- The points engine of api/src/points/engine.ts without a database: its three stores in memory. A
-- trader is one number for all spellings of an address, which the engine puts in lower case. Days are
-- numbered; volumes and points are of the type `F` of a `Double`.
use sur_protocol.Common.{
  ℕ, suc, Bool, true, false, List, [], ◌∷◌, ◌++◌, Option, none, some, if◌then◌else◌, ◌==◌, length,
  take, map, nat_eq, sum_by, min,
}
use sur_protocol.Common.Dict.{Dict, lookup, insert, has}
use sur_protocol.Common.Doubles.{Double, sum_from}

pub record PointsRecord (F : Type 0) : Type 0 where
  pub trader : ℕ
  pub points : F
  pub total_volume : F
  pub trade_count : ℕ
  pub streak_days : ℕ
  pub last_trade_date : Option ℕ
  pub multiplier : F
  pub season : ℕ

-- The reason of an entry, with its metadata.
pub data PointsReason (F : Type 0) : Type 0 where
  trade : (volume tier_multiplier streak_multiplier : F) → PointsReason F
  referral : (referee : ℕ) → (referee_points : F) → PointsReason F

pub record PointsHistoryEntry (F : Type 0) : Type 0 where
  pub trader : ℕ
  pub points_earned : F
  pub reason : PointsReason F
  pub season : ℕ

pub record ReferralRecord (F : Type 0) : Type 0 where
  pub referrer : ℕ
  pub referee : ℕ
  pub referral_code : ℕ
  pub volume_from_referee : F
  pub points_earned : F

-- `memoryStore`, `memoryHistory` and `memoryReferrals` (by referee)
pub record Campaign (F : Type 0) : Type 0 where
  pub records : Dict ℕ (PointsRecord F)
  pub history : List (PointsHistoryEntry F)
  pub referrals : Dict ℕ (ReferralRecord F)

pub record CampaignStats (F : Type 0) : Type 0 where
  pub total_participants : ℕ
  pub total_volume : F
  pub total_points : F
  pub total_trades : ℕ

-- The dates of today and of yesterday, as the two calls of `toISOString` give them.
pub record Clock : Type 0 where
  pub today : ℕ
  pub yesterday : ℕ

abbrev pub current_season : ℕ
current_season = 1

abbrev pub max_streak_days : ℕ
max_streak_days = 7

abbrev pub is_day : ℕ → Option ℕ → Bool
is_day n none = false
is_day n (some k) = k == n

module _ {F : Type 0} ⦃d : Double F⦄ where
  -- `STREAK_BONUS_PER_DAY` and `REFERRAL_BONUS_RATE`
  abbrev pub tenth : F
  tenth = d.div (d.of_nat 1) (d.of_nat 10)

  unfoldable pub volume_tier_multiplier : F → F
  volume_tier_multiplier v =
      if d.leb (d.of_nat 100000) v
      then d.of_nat 3
      else if d.leb (d.of_nat 50000) v
      then d.of_nat 2
      else if d.leb (d.of_nat 10000) v
      then d.div (d.of_nat 3) (d.of_nat 2)
      else d.of_nat 1

  unfoldable pub streak_multiplier : ℕ → F
  streak_multiplier days = d.add (d.of_nat 1) (d.mul (d.of_nat (min days max_streak_days)) tenth)

  abbrev pub new_record : ℕ → PointsRecord F
  new_record trader = record {
    trader = trader;
    points = d.of_nat 0;
    total_volume = d.of_nat 0;
    trade_count = 0;
    streak_days = 0;
    last_trade_date = none;
    multiplier = d.of_nat 1;
    season = current_season;
  }

  abbrev pub or_new : ℕ → Option (PointsRecord F) → PointsRecord F
  or_new trader none = new_record trader
  or_new trader (some r) = r

  -- `getOrCreateRecord`; a new record is stored when it is saved, in the same place.
  abbrev pub get_or_create : ℕ → Dict ℕ (PointsRecord F) → PointsRecord F
  get_or_create trader m = or_new trader (lookup trader m)

  -- `saveRecord` and `saveHistory`
  abbrev pub save : PointsRecord F → PointsHistoryEntry F → Campaign F → Campaign F
  save r e c = record c { records = insert r.trader r c.records; history = c.history ++ e ∷ [] }

  -- "Process daily streak"
  abbrev pub next_streak : Clock → PointsRecord F → ℕ
  next_streak clock r =
      if is_day clock.today r.last_trade_date
      then r.streak_days
      else if is_day clock.yesterday r.last_trade_date
      then min (suc r.streak_days) max_streak_days
      else 1

  -- The record with a trade of a volume, and the entry for it.
  abbrev pub with_trade : Clock → F → PointsRecord F → PointsRecord F × PointsHistoryEntry F
  with_trade clock volume r =
      let total = d.add r.total_volume volume in
      let streak = next_streak clock r in
      let tier = volume_tier_multiplier total in
      let bonus = streak_multiplier streak in
      let all = d.mul tier bonus in
      let earned = d.mul (d.mul (d.div volume (d.of_nat 1000)) (d.of_nat 1)) all in
      (
        record r {
          total_volume = total;
          trade_count = suc r.trade_count;
          streak_days = streak;
          last_trade_date = some clock.today;
          points = d.add r.points earned;
          multiplier = all;
        },
        record {
          trader = r.trader;
          points_earned = earned;
          reason = trade volume tier bonus;
          season = current_season;
        },
      )

  abbrev pub add_bonus : ℕ → F → PointsRecord F → PointsRecord F × PointsHistoryEntry F
  add_bonus referee points r =
      let bonus = d.mul points tenth in
      (
        record r { points = d.add r.points bonus },
        record {
          trader = r.trader;
          points_earned = bonus;
          reason = referral referee points;
          season = current_season;
        },
      )

  -- `creditReferralPoints`, for the referral of the trader.
  abbrev pub credit_one : ℕ → F → Option (ReferralRecord F) → Campaign F → Campaign F
  credit_one referee points none c = c
  credit_one referee points (some link) c =
      let (r, e) = add_bonus referee points (get_or_create link.referrer c.records) in
      let c' = save r e c in
      record c' {
        referrals =
            insert referee
              (record link { points_earned = d.add link.points_earned (d.mul points tenth) })
              c.referrals;
      }

  unfoldable pub credit_referral_points : ℕ → F → Campaign F → Campaign F
  credit_referral_points referee points c = credit_one referee points (lookup referee c.referrals) c

  unfoldable pub calculate_points_for_trade : Clock → ℕ → F → Campaign F → Campaign F × F
  calculate_points_for_trade clock trader volume c =
      let (r, e) = with_trade clock volume (get_or_create trader c.records) in
      (credit_referral_points trader e.points_earned (save r e c), e.points_earned)

  unfoldable pub register_referral : (referrer referee code : ℕ) → Campaign F → Campaign F × Bool
  register_referral referrer referee code c =
      if referrer == referee then (c, false) else if has referee c.referrals then (c, false) else (
        record c {
          referrals =
              insert referee
                (record {
                  referrer = referrer;
                  referee = referee;
                  referral_code = code;
                  volume_from_referee = d.of_nat 0;
                  points_earned = d.of_nat 0;
                })
                c.referrals;
        },
        true,
      )

  abbrev pub in_season : ℕ → Dict ℕ (PointsRecord F) → List (PointsRecord F)
  in_season season [] = []
  in_season season ((k, r) ∷ m) =
      if r.season == season then r ∷ in_season season m else in_season season m

  -- `.sort((a, b) => b.points - a.points)`, for points that are numbers
  abbrev pub insert_by_points : PointsRecord F → List (PointsRecord F) → List (PointsRecord F)
  insert_by_points r [] = r ∷ []
  insert_by_points r (s ∷ ss) =
      if d.ltb r.points s.points then s ∷ insert_by_points r ss else r ∷ s ∷ ss

  abbrev pub sort_by_points : List (PointsRecord F) → List (PointsRecord F)
  sort_by_points [] = []
  sort_by_points (r ∷ rs) = insert_by_points r (sort_by_points rs)

  abbrev pub ranked_from : ℕ → List (PointsRecord F) → List (ℕ × PointsRecord F)
  ranked_from n [] = []
  ranked_from n (r ∷ rs) = (n, r) ∷ ranked_from (suc n) rs

  -- `getLeaderboard`, with the rank of each record
  pub leaderboard : ℕ → ℕ → Campaign F → List (ℕ × PointsRecord F)
  leaderboard season limit c =
      ranked_from 1 (take limit (sort_by_points (in_season season c.records)))

  -- `getCampaignStats`
  unfoldable pub campaign_stats : ℕ → Campaign F → CampaignStats F
  campaign_stats season c =
      let rs = in_season season c.records in
      record {
        total_participants = length rs;
        total_volume = sum_from (d.of_nat 0) (map (λ (r : PointsRecord F). r.total_volume) rs);
        total_points = sum_from (d.of_nat 0) (map (λ (r : PointsRecord F). r.points) rs);
        total_trades = sum_by (λ (r : PointsRecord F). r.trade_count) rs;
      }

  abbrev pub all_records : Dict ℕ (PointsRecord F) → List (PointsRecord F)
  all_records [] = []
  all_records ((k, r) ∷ m) = r ∷ all_records m

  -- `findIndex(...) + 1`, 0 where nothing is found
  abbrev pub rank_from : ℕ → ℕ → List (PointsRecord F) → ℕ
  rank_from n trader [] = 0
  rank_from n trader (r ∷ rs) = if r.trader == trader then n else rank_from (suc n) trader rs

  -- `getTraderPoints`: the record with its rank
  pub trader_points : ℕ → Campaign F → Option (PointsRecord F × ℕ)
  trader_points trader c = elim (lookup trader c.records) [
    | none ↦ none
    | some r ↦ some (r, rank_from 1 trader (sort_by_points (all_records c.records)))
  ]
