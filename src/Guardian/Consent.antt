-- ===== src/Guardian/Consent.antt =====
-- What the scans of the risk guardian do, and to whom.
use sur_protocol.Common.{
  ◌≢◌, ℕ, suc, true, false, ◌≡◌, refl, sym, ap, subst, ◌∙◌, List, [], ◌∷◌, Option, none, some,
  arith, if◌then◌else◌, if-split, length, All, All-map, nat_eq, ==_iff,
}
use mathlib.Core.List.{Memᴰ}
use sur_protocol.Common.Dict.{Dict, lookup, Distinct, erase, erase-Distinct, lookup-erase}
use sur_protocol.Common.Doubles.{Double, IsOrdered}
use sur_protocol.Guardian.Routes.{unsubscribe}
use sur_protocol.Guardian.Defense.{
  GuardianConfig, RawPosition, Defense, Guardian, Agent, classify_risk, fetch_positions,
  execute_defense, distance_of, is_flat, guard_position, guard_positions, guard_traders, scan_all,
}
use sur_protocol.Guardian.Terms.{
  IsConsented, Holds, Ours, classify_risk-Reaches, execute_defense-Ours,
}
use sur_protocol.Guardian.Growth.{Extends, Extends-refl, Extends-trans, record_defense-Extends}

module _ {F : Type 0} ⦃d : Double F⦄ where
  module _ (o : IsOrdered d) (agent : Agent F) (subs : Dict ℕ (GuardianConfig F)) where
    Ours-IsConsented :
        (trader : ℕ) (c : GuardianConfig F) (p : RawPosition F) (x : Defense F)
        → lookup trader subs ≡ some c
        → c.enabled ≡ true
        → Memᴰ p (fetch_positions agent trader)
        → is_flat p.size ≡ false
        → Ours agent trader c p x
        → IsConsented agent subs x
    Ours-IsConsented trader c p x known on there held h = record {
      config = c;
      position = p;
      subscribed = ap (λ (k : ℕ). lookup k subs) h.0 ∙ known;
      enabled = on;
      reported = subst (λ (k : ℕ). Memᴰ p (fetch_positions agent k)) (sym h.0) there;
      held = held;
      market = h.1;
      allowed = h.2;
    }

    Holds-map :
        (P Q : Defense F → Type 0) (r : Option (Defense F))
        → ((x : Defense F) → P x → Q x)
        → Holds P r
        → Holds Q r
    Holds-map P Q none f h = tt
    Holds-map P Q (some x) f h = f x h

    guard_position-Extends :
        (trader : ℕ) (c : GuardianConfig F) (p : RawPosition F) (g : Guardian F)
        → lookup trader subs ≡ some c
        → c.enabled ≡ true
        → Memᴰ p (fetch_positions agent trader)
        → Extends (IsConsented agent subs) g (guard_position agent trader c p g)
    guard_position-Extends trader c p g known on there =
        let n = length g.action_log in
        let level = classify_risk (distance_of p) c in
        let r = execute_defense agent n trader level c p (distance_of p) in
        if-split (Extends (IsConsented agent subs) g) (is_flat p.size) _ _
          (λ flat. Extends-refl (IsConsented agent subs) g)
          (λ held. record_defense-Extends (IsConsented agent subs) r g (
            Holds-map (Ours agent trader c p) (IsConsented agent subs) r
              (λ x h. Ours-IsConsented trader c p x known on there held h)
              (execute_defense-Ours o agent n trader level c p
                (classify_risk-Reaches (distance_of p) c))))

    guard_positions-Extends :
        (trader : ℕ) (c : GuardianConfig F) (ps : List (RawPosition F)) (g : Guardian F)
        → lookup trader subs ≡ some c
        → c.enabled ≡ true
        → ((p : RawPosition F) → Memᴰ p ps → Memᴰ p (fetch_positions agent trader))
        → Extends (IsConsented agent subs) g (guard_positions agent trader c ps g)
    guard_positions-Extends trader c [] g known on there = Extends-refl (IsConsented agent subs) g
    guard_positions-Extends trader c (p ∷ ps) g known on there =
        let next = guard_position agent trader c p g in
        Extends-trans (IsConsented agent subs) g next (guard_positions agent trader c ps next)
          (guard_position-Extends trader c p g known on (there p (Memᴰ.head refl)))
          (guard_positions-Extends trader c ps next known on (λ q m. there q (Memᴰ.tail m)))

    guard_traders-Extends :
        (rest : Dict ℕ (GuardianConfig F)) (g : Guardian F)
        → All (λ (e : ℕ × GuardianConfig F). lookup e.0 subs ≡ some e.1) rest
        → Extends (IsConsented agent subs) g (guard_traders agent rest g)
    guard_traders-Extends [] g known = Extends-refl (IsConsented agent subs) g
    guard_traders-Extends ((t, c) ∷ rest) g known =
        let next = if c.enabled then guard_positions agent t c (fetch_positions agent t) g else g in
        Extends-trans (IsConsented agent subs) g next (guard_traders agent rest next)
          (if-split (Extends (IsConsented agent subs) g) c.enabled _ _
            (λ on. guard_positions-Extends t c (fetch_positions agent t) g known.0 on (λ p m. m))
            (λ off. Extends-refl (IsConsented agent subs) g))
          (guard_traders-Extends rest next known.1)

  entries :
      (m : Dict ℕ (GuardianConfig F))
      → Distinct m
      → All (λ (e : ℕ × GuardianConfig F). lookup e.0 m ≡ some e.1) m
  entries [] v = tt
  entries ((t, c) ∷ m) v = (
    ground (arith, ==_iff t t),
    All-map (λ (e : ℕ × GuardianConfig F) h. ground (arith, h, v.0, ==_iff e.0 t)) m
        (entries m v.1),
  )

  -- Every action that a scan logs and every request that it sends come from one list of defenses.
  -- Each is for a subscribed trader that is enabled and a position of that trader that the API
  -- reports, at most as far from its liquidation as the threshold of its kind. It is a free alert
  -- that sends nothing; or margin is sent, above 10, up to the maximum of the configuration and to
  -- half the balance; or the percentage of the configuration is closed; or everything is closed in
  -- an emergency. An intervention has to be switched on in the configuration, sends just this one
  -- request, costs 5 in 10,000 of the notional, and succeeds if the request does. A hedge, which the
  -- header of the source lists, is never among them. It holds where a subscription stands once,
  -- comparisons chain, and a minimum is at most either number.
  pub scan_all-IsConsented :
      (o : IsOrdered d) (agent : Agent F) (g : Guardian F)
      → Distinct g.subscriptions
      → Extends (IsConsented agent g.subscriptions) g (scan_all agent g)
  unfolding scan_all
  scan_all-IsConsented o agent g v =
      let started : Guardian F = record g { scan_count = suc g.scan_count } in
      let e =
        guard_traders-Extends o agent g.subscriptions g.subscriptions started
          (entries g.subscriptions v) in
      record { new = e.new; logged = e.logged; sent = e.sent; all = e.all }

  -- After a trader has unsubscribed, a scan does nothing for that trader.
  pub unsubscribe_quiet :
      (o : IsOrdered d) (agent : Agent F) (g : Guardian F) (t : ℕ)
      → Distinct g.subscriptions
      → Extends
          (λ (x : Defense F). x.action.trader ≢ t)
          (unsubscribe (some t) g).0
          (scan_all agent (unsubscribe (some t) g).0)
  unfolding unsubscribe
  unsubscribe_quiet o agent g t v =
      let e =
        scan_all-IsConsented o agent (unsubscribe (some t) g).0
          (erase-Distinct t g.subscriptions v) in
      let other : (x : Defense F)
          → IsConsented agent (erase t g.subscriptions) x
          → x.action.trader ≢ t =
        λ x h same. ground (
          arith,
          lookup-erase t x.action.trader g.subscriptions v,
          h.subscribed,
          same,
          ==_iff x.action.trader t,
        ) in
      record { new = e.new; logged = e.logged; sent = e.sent; all = All-map other e.new e.all }
