-- ===== src/Guardian/Emergency.antt =====
-- Positions that are about to be liquidated, in a scan of the risk guardian.
use sur_protocol.Common.{
  ℕ, suc, true, false, Bool-cases, ◌≡◌, refl, ap, subst, ◌∙◌, List, [], ◌∷◌, ◌++◌, Option, none,
  some, arith, if◌then◌else◌, if-elim, if-split, inl, inr, length, nat_eq, ◌==◌, ==_iff,
}
use mathlib.Core.List.{Memᴰ}
use mathlib.Core.List.Memᴰ
use sur_protocol.Common.Dict.{Dict, lookup}
use sur_protocol.Common.Doubles.{Double}
use sur_protocol.Guardian.Defense.{
  GuardianConfig, RawPosition, Defense, Post, close, Guardian, Agent, classify_risk,
  fetch_positions, execute_defense, record_defense, distance_of, is_flat, guard_position,
  guard_positions, guard_traders, scan_all,
}

lookup-Memᴰ {ℓ} : {A : Type ℓ} (k : ℕ) (a : A) (m : Dict ℕ A) → lookup k m ≡ some a → Memᴰ (k, a) m
lookup-Memᴰ k a [] e = absurd (ground (arith, e))
lookup-Memᴰ k a ((i, b) ∷ m) e = elim (Bool-cases (k == i)) [
  | inl hit ↦
      let here : a ≡ b = ground (arith, e, hit) in
      Memᴰ.head (ap (λ x. (x, a)) ((==_iff k i).0 hit) ∙ ap (λ y. (i, y)) here)
  | inr miss ↦ Memᴰ.tail (lookup-Memᴰ k a m (ground (arith, e, miss)))
]

module _ {F : Type 0} ⦃d : Double F⦄ (agent : Agent F) where
  record_defense-keeps :
      (r : Post F) (x : Option (Defense F)) (g : Guardian F)
      → Memᴰ r g.posts
      → Memᴰ r (record_defense x g).posts
  record_defense-keeps r none g m = m
  record_defense-keeps r (some x) g m = either x.request
    where
      either :
          (q : Option (Post F)) → Memᴰ r (elim q [ none ↦ g.posts | some p ↦ g.posts ++ p ∷ [] ])
      either none = m
      either (some p) = Memᴰ.append_left (p ∷ []) m

  guard_position-keeps :
      (r : Post F) (t : ℕ) (c : GuardianConfig F) (p : RawPosition F) (g : Guardian F)
      → Memᴰ r g.posts
      → Memᴰ r (guard_position agent t c p g).posts
  guard_position-keeps r t c p g m =
      if-elim (λ (x : Guardian F). Memᴰ r x.posts) (is_flat p.size) _ _ m
        (record_defense-keeps r
          (execute_defense agent (length g.action_log) t (classify_risk (distance_of p) c) c p
            (distance_of p))
          g m)

  guard_positions-keeps :
      (r : Post F) (t : ℕ) (c : GuardianConfig F) (ps : List (RawPosition F)) (g : Guardian F)
      → Memᴰ r g.posts
      → Memᴰ r (guard_positions agent t c ps g).posts
  guard_positions-keeps r t c [] g m = m
  guard_positions-keeps r t c (p ∷ ps) g m =
      guard_positions-keeps r t c ps (guard_position agent t c p g)
        (guard_position-keeps r t c p g m)

  guard_traders-keeps :
      (r : Post F) (rest : Dict ℕ (GuardianConfig F)) (g : Guardian F)
      → Memᴰ r g.posts
      → Memᴰ r (guard_traders agent rest g).posts
  guard_traders-keeps r [] g m = m
  guard_traders-keeps r ((t, c) ∷ rest) g m = guard_traders-keeps r rest _ (
      if-elim (λ (x : Guardian F). Memᴰ r x.posts) c.enabled _ _
        (guard_positions-keeps r t c (fetch_positions agent t) g m) m)

  -- A position that is held and at most as far from its liquidation as the threshold of an
  -- emergency, where the configuration lets it be closed.
  pub record IsEmergency (c : GuardianConfig F) (p : RawPosition F) : Type 0 where
    pub enabled : c.enabled ≡ true
    pub switched_on : c.auto_emergency_close ≡ true
    pub held : is_flat p.size ≡ false
    pub near : d.leb (distance_of p) c.emergency_threshold ≡ true

  guard_position-closes :
      (t : ℕ) (c : GuardianConfig F) (p : RawPosition F) (g : Guardian F)
      → IsEmergency c p
      → Memᴰ (close t p.market (d.of_nat 100)) (guard_position agent t c p g).posts
  unfolding classify_risk execute_defense
  guard_position-closes t c p g h =
      rw (h.held, h.near, h.switched_on) (Memᴰ.append_right g.posts (Memᴰ.head refl))

  guard_positions-closes :
      (t : ℕ) (c : GuardianConfig F) (p : RawPosition F) (ps : List (RawPosition F))
      (g : Guardian F)
      → IsEmergency c p
      → Memᴰ p ps
      → Memᴰ (close t p.market (d.of_nat 100)) (guard_positions agent t c ps g).posts
  guard_positions-closes t c p [] g h m = absurd (Memᴰ.not-nil m)
  guard_positions-closes t c p (q ∷ ps) g h (Memᴰ.head e) =
      guard_positions-keeps (close t p.market (d.of_nat 100)) t c ps (guard_position agent t c q g)
        (subst
          (λ (z : RawPosition F).
            Memᴰ (close t p.market (d.of_nat 100)) (guard_position agent t c z g).posts)
          e (guard_position-closes t c p g h))
  guard_positions-closes t c p (q ∷ ps) g h (Memᴰ.tail m) =
      guard_positions-closes t c p ps (guard_position agent t c q g) h m

  guard_traders-closes :
      (t : ℕ) (c : GuardianConfig F) (p : RawPosition F) (rest : Dict ℕ (GuardianConfig F))
      (g : Guardian F)
      → IsEmergency c p
      → Memᴰ p (fetch_positions agent t)
      → Memᴰ (t, c) rest
      → Memᴰ (close t p.market (d.of_nat 100)) (guard_traders agent rest g).posts
  guard_traders-closes t c p [] g h m k = absurd (Memᴰ.not-nil k)
  guard_traders-closes t c p ((u, b) ∷ rest) g h m (Memᴰ.head e) =
      guard_traders-keeps (close t p.market (d.of_nat 100)) rest _ (
        subst
          (λ (z : ℕ × GuardianConfig F).
            Memᴰ (close t p.market (d.of_nat 100))
              (if z.1.enabled
                then guard_positions agent z.0 z.1 (fetch_positions agent z.0) g
                else g).posts)
          e
          (if-split (λ (x : Guardian F). Memᴰ (close t p.market (d.of_nat 100)) x.posts) c.enabled _
            _ (λ on. guard_positions-closes t c p (fetch_positions agent t) g h m)
            (λ off. absurd (ground (arith, off, h.enabled)))))
  guard_traders-closes t c p ((u, b) ∷ rest) g h m (Memᴰ.tail k) =
      guard_traders-closes t c p rest _ h m k

  -- A scan sends the request that closes everything for every position in an emergency that the API
  -- reports of a subscribed trader.
  pub scan_all-closes :
      (g : Guardian F) (t : ℕ) (c : GuardianConfig F) (p : RawPosition F)
      → lookup t g.subscriptions ≡ some c
      → Memᴰ p (fetch_positions agent t)
      → IsEmergency c p
      → Memᴰ (close t p.market (d.of_nat 100)) (scan_all agent g).posts
  unfolding scan_all
  scan_all-closes g t c p known m h =
      guard_traders-closes t c p g.subscriptions (record g { scan_count = suc g.scan_count }) h m
        (lookup-Memᴰ t c g.subscriptions known)
