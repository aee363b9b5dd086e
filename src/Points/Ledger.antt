-- ===== src/Points/Ledger.antt =====
-- The records of the points engine against its history.
use sur_protocol.Common.{
  ℕ, ◌+◌, ◌≤◌, Bool, true, false, Bool-cases, ◌≡◌, refl, sym, ap, ◌∙◌, subst, inl, inr, List, [],
  ◌∷◌, ◌++◌, some, arith, if◌then◌else◌, ◌==◌, ==_iff, nat_eq,
}
use sur_protocol.Common.Dict.{Dict, lookup, insert, lookup-insert}
use sur_protocol.Common.Doubles.{Double}
use sur_protocol.Points.Campaign.{
  PointsRecord, PointsReason, trade, referral, PointsHistoryEntry, Campaign, or_new, get_or_create,
  save,
}

abbrev pub trades_in : {F : Type 0} → PointsReason F → ℕ
trades_in (trade v t b) = 1
trades_in (referral k p) = 0

-- The number of trades of a trader in a history.
abbrev pub trades_of : {F : Type 0} → ℕ → List (PointsHistoryEntry F) → ℕ
trades_of t [] = 0
trades_of t (e ∷ es) = if e.trader == t then trades_in e.reason + trades_of t es else trades_of t es

module _ {F : Type 0} ⦃d : Double F⦄ where
  -- The points of a trader added up over a history, in its order.
  abbrev pub points_from : ℕ → F → List (PointsHistoryEntry F) → F
  points_from t s [] = s
  points_from t s (e ∷ es) =
      if e.trader == t then points_from t (d.add s e.points_earned) es else points_from t s es

  points_from-push :
      (t : ℕ) (s : F) (es : List (PointsHistoryEntry F)) (e : PointsHistoryEntry F)
      → points_from t s (es ++ e ∷ [])
        ≡ (if e.trader == t then d.add (points_from t s es) e.points_earned else points_from t s es)
  points_from-push t s [] e = refl
  points_from-push t s (x ∷ es) e = elim (Bool-cases (x.trader == t)) [
    | inl mine ↦ rw (mine, if◌then◌else◌) (points_from-push t (d.add s x.points_earned) es e)
    | inr other ↦ rw (other, if◌then◌else◌) (points_from-push t s es e)
  ]

  trades_of-push :
      (t : ℕ) (es : List (PointsHistoryEntry F)) (e : PointsHistoryEntry F)
      → trades_of t (es ++ e ∷ [])
        ≡ (if e.trader == t then trades_of t es + trades_in e.reason else trades_of t es)
  trades_of-push t [] e = ground arith
  trades_of-push t (x ∷ es) e = ground (arith, trades_of-push t es e)

  -- The records of a campaign are those of its history: every trader has the points that the history
  -- adds up to, in its order and so to the last digit, and the trades that it counts; a streak is at
  -- most seven days.
  pub record IsBooked (c : Campaign F) : Type 0 where
    pub points : (t : ℕ) → (get_or_create t c.records).points ≡ points_from t (d.of_nat 0) c.history
    pub trades : (t : ℕ) → (get_or_create t c.records).trade_count ≡ trades_of t c.history
    pub streak : (t : ℕ) → (get_or_create t c.records).streak_days ≤ 7
    pub owner : (t : ℕ) → (get_or_create t c.records).trader ≡ t

  get_or_create-insert :
      (r : PointsRecord F) (t : ℕ) (m : Dict ℕ (PointsRecord F))
      → get_or_create t (insert r.trader r m) ≡ (if t == r.trader then r else get_or_create t m)
  get_or_create-insert r t m = ap (or_new t) (lookup-insert r.trader t r m) ∙ pushed (t == r.trader)
    where
      pushed :
          (b : Bool)
          → or_new t (if b then some r else lookup t m) ≡ (if b then r else get_or_create t m)
      pushed true = refl
      pushed false = refl

  -- An entry that a record is saved with.
  pub record Fits (c : Campaign F) (r : PointsRecord F) (e : PointsHistoryEntry F) : Type 0 where
    pub trader : e.trader ≡ r.trader
    pub points : r.points ≡ d.add (get_or_create r.trader c.records).points e.points_earned
    pub trades : r.trade_count ≡ (get_or_create r.trader c.records).trade_count + trades_in e.reason
    pub streak : r.streak_days ≤ 7

  -- What holds of every record, given that it holds of the saved one and of the others.
  saved_elim :
      (P : ℕ → PointsRecord F → Type 0) (c : Campaign F) (r : PointsRecord F)
      → P r.trader r
      → ((t : ℕ) → (t == r.trader) ≡ false → P t (get_or_create t c.records))
      → (t : ℕ) → P t (get_or_create t (insert r.trader r c.records))
  saved_elim P c r new old t =
      subst (P t) (sym (get_or_create-insert r t c.records)) (chosen (t == r.trader) refl)
    where
      chosen : (b : Bool) → (t == r.trader) ≡ b → P t (if b then r else get_or_create t c.records)
      chosen true e = subst (λ (k : ℕ). P k r) (sym ((==_iff t r.trader).0 e)) new
      chosen false e = old t e

  pub save-IsBooked :
      (c : Campaign F) (r : PointsRecord F) (e : PointsHistoryEntry F)
      → Fits c r e
      → IsBooked c
      → IsBooked (save r e c)
  save-IsBooked c r e h v = record {
    points =
        saved_elim
          (λ t (x : PointsRecord F). x.points ≡ points_from t (d.of_nat 0) (c.history ++ e ∷ [])) c
          r
          (h.points
            ∙ ap (λ (x : F). d.add x e.points_earned) (v.points r.trader)
            ∙ sym (pushed_mine c.history))
          (λ t other. (v.points t ∙ sym (pushed_other t c.history other)));
    trades =
        saved_elim (λ t (x : PointsRecord F). x.trade_count ≡ trades_of t (c.history ++ e ∷ [])) c r
          (ground (
            arith,
            h.trades,
            v.trades r.trader,
            trades_of-push r.trader c.history e,
            h.trader,
            ==_iff e.trader r.trader,
          ))
          (λ t other.
            (ground (
              arith,
              v.trades t,
              trades_of-push t c.history e,
              h.trader,
              other,
              ==_iff e.trader t,
              ==_iff t r.trader,
            )));
    streak =
        saved_elim (λ t (x : PointsRecord F). x.streak_days ≤ 7) c r h.streak
          (λ t other. v.streak t);
    owner = saved_elim (λ t (x : PointsRecord F). x.trader ≡ t) c r refl (λ t other. v.owner t);
  }
    where
      pushed_mine :
          (es : List (PointsHistoryEntry F))
          → points_from r.trader (d.of_nat 0) (es ++ e ∷ [])
            ≡ d.add (points_from r.trader (d.of_nat 0) es) e.points_earned
      pushed_mine es =
          let here : (e.trader == r.trader) ≡ true = (==_iff e.trader r.trader).1 h.trader in
          points_from-push r.trader (d.of_nat 0) es e ∙ rw (here, if◌then◌else◌) refl

      pushed_other :
          (t : ℕ) (es : List (PointsHistoryEntry F))
          → (t == r.trader) ≡ false
          → points_from t (d.of_nat 0) (es ++ e ∷ []) ≡ points_from t (d.of_nat 0) es
      pushed_other t es other =
          let there : (e.trader == t) ≡ false =
            ground (arith, h.trader, other, ==_iff e.trader t, ==_iff t r.trader) in
          points_from-push t (d.of_nat 0) es e ∙ rw (there, if◌then◌else◌) refl
