-- ===== src/Engine/Matching/Policies.antt =====
-- The time in force of an order in `submitOrder`: FOK and PostOnly.
use sur_protocol.Common.{
  ℕ, zero, suc, ◌+◌, ◌-◌, ◌≤◌, ℤ, Bool, true, false, ◌&&◌, Bool-cases, ◌≡◌, refl, sym, ap, ◌∙◌, inl,
  inr, ◌⊎◌, List, [], ◌∷◌, ◌++◌, arith, if◌then◌else◌, ltb, All, keep, take, sum_by,
}
use sur_protocol.Types.{
  Side, OrderType, TimeInForce, OrderStatus, Order, PriceLevel, opposite, is_limit,
}
use sur_protocol.Engine.Book.{Levels, OrderBook, levels, better}
use sur_protocol.Engine.Book.Sorting.{Before, Sorted, sort_levels, sort_levels-Sorted}
use sur_protocol.Engine.Book.Validity.{IsResting, AllLevels, AllLevels-sort_levels}
use sur_protocol.Engine.Book.Makers.{orders_of, makers}
use sur_protocol.Engine.Book.Ranking.{best_price-eq-first_price}
use sur_protocol.Engine.Book.Depth.{views_of, top_levels-eq-views_of, visible-le-total}
use sur_protocol.Engine.Matching.Sweep.{sweep, Blocked}
use sur_protocol.Engine.Matching.Execution.{
  IsBookValid, side_of, match_order-Sweeps, traded, match_order_conserves,
}
use sur_protocol.Engine.Matching.Submit.{submit_order_cases}
use sur_protocol.Engine.Matching.{
  Env, MatchingEngine, Matched, match_order, refuses, falls_short, reaches, fills_from,
  can_fill_entirely, would_match, handle_remaining, execute, submit_order,
}

-- A sweep that is done does nothing.
sweep_done : (r : ℤ → Bool) (n : ℕ) (ms : List Order) → n ≡ 0 → (sweep r n ms).left ≡ 0
unfolding sweep
sweep_done r n [] e = e
sweep_done r n (m ∷ ms) e = ground arith

sweep-Blocked :
    (r : ℤ → Bool) (left : ℕ) (ms : List Order)
    → Blocked r ms
    → sweep r left ms ≡ record { rest = ms; left = left; fills = [] }
unfolding sweep
sweep-Blocked r left [] h = refl
sweep-Blocked r left (m ∷ ms) h = ground (arith, h)

-- A sweep through a level whose price is accepted takes all that the level holds, or is done.
sweep_level :
    (s : Side) (r : ℤ → Bool) (p : ℤ) (left : ℕ) (os rest : List Order)
    → r p ≡ false
    → All (IsResting s p) os
    → (sweep r left (os ++ rest)).left
      ≡ (sweep r (left - sum_by (λ (o : Order). o.remaining) os) rest).left
unfolding sweep
sweep_level s r p left [] rest h a = ap (λ n. (sweep r n rest).left) (omega arith)
sweep_level s r p left (m ∷ os) rest h a =
    let held = sum_by (λ (o : Order). o.remaining) os in
    let e : left - (m.remaining + held) ≡ left - m.remaining - held = omega arith in
    rw e (
      ground (
        arith,
        a.0.price,
        h,
        sweep_done r (left - m.remaining - held) rest,
        sweep_level s r p (left - m.remaining) os rest h a.1,
      ))

refuses_worse_at :
    (t : OrderType) (s : Side) (bound p q : ℤ)
    → (is_limit t && falls_short s bound p) ≡ true
    → better (opposite s) p q ≡ true
    → (is_limit t && falls_short s bound q) ≡ true
refuses_worse_at OrderType.limit Side.buy bound p q h k = ground arith
refuses_worse_at OrderType.limit Side.sell bound p q h k = ground arith
refuses_worse_at OrderType.market s bound p q h k = cc

abbrev seen : ℕ → Levels → List PriceLevel
seen n l = take n (keep (λ (v : PriceLevel). ltb 0 v.total_size) (views_of l))

-- Behind a refused price all levels are refused, so a fill must be complete before it.
fills_from_refused :
    (o : Order) (p : ℤ) (n left : ℕ) (l : Levels)
    → refuses o p ≡ true
    → Before (opposite o.side) p l
    → fills_from o left (seen n l) ≡ true
    → left ≡ 0
unfolding fills_from
fills_from_refused o p zero left l h b f = ground arith
fills_from_refused o p (suc n) left [] h b f = ground arith
fills_from_refused o p (suc n) left ((r, w) ∷ l) h b f = ground (
  arith,
  fills_from_refused o p (suc n) left l h b.1,
  refuses_worse_at o.order_type o.side o.price p r h b.0,
)

-- If the visible levels cover the order, the sweep over all orders fills it.
module _ (o : Order) where
  fills_from-sweep :
      (n left seen_left : ℕ) (l : Levels)
      → left ≤ seen_left
      → Sorted (opposite o.side) l
      → AllLevels (opposite o.side) l
      → fills_from o seen_left (seen n l) ≡ true
      → (sweep (refuses o) left (orders_of l)).left ≡ 0
  unfolding fills_from
  fills_from-sweep zero left seen_left l le d a f =
      sweep_done (refuses o) left (orders_of l) (ground arith)
  fills_from-sweep (suc n) left seen_left [] le d a f =
      sweep_done (refuses o) left [] (ground arith)
  fills_from-sweep (suc n) left seen_left ((p, q) ∷ l) le d a f =
      let held = sum_by (λ (x : Order). x.remaining) q.orders in
      elim (Bool-cases (refuses o p)) [
        | inl no_more ↦
            sweep_done (refuses o) left (q.orders ++ orders_of l)
              (ground (arith, no_more, fills_from_refused o p (suc n) seen_left l no_more d.0))
        | inr more ↦
            rw
              (sweep_level (opposite o.side) (refuses o) p left q.orders (orders_of l) more
                a.0.resting)
              (ground (
                arith,
                more,
                visible-le-total q a.0.accurate,
                sweep_done (refuses o) (left - held) (orders_of l),
                fills_from-sweep (suc n) (left - held) seen_left l,
                fills_from-sweep n (left - held)
                    (seen_left
                      - (if ltb seen_left q.visible_size then seen_left else q.visible_size))
                    l,
              ))
      ]

can_fill_entirely-sweep :
    (o : Order) (b : OrderBook)
    → IsBookValid b
    → can_fill_entirely o b ≡ true
    → (sweep (refuses o) o.remaining (makers (opposite o.side) b)).left ≡ 0
unfolding can_fill_entirely
can_fill_entirely-sweep o b v f =
    let s = opposite o.side in
    let h = side_of s b v in
    fills_from-sweep o 100 o.remaining o.remaining (sort_levels s (levels s b)) (omega arith)
      (sort_levels-Sorted s (levels s b) h.distinct) (AllLevels-sort_levels s (levels s b) h.sound)
      (sym (ap (fills_from o o.remaining) (top_levels-eq-views_of s b 100 h)) ∙ f)

-- An execution that leaves nothing of the taker reports it filled, with nothing remaining.
execute-filled :
    (o : Order) (g : MatchingEngine) (m : Matched)
    → m.taker.remaining ≡ 0
    → let r = (execute o g m).result in
      (r.status ≡ OrderStatus.filled) × (r.remaining ≡ 0) × (r.trades ≡ m.trades)
unfolding execute handle_remaining
execute-filled o g m e = rw e (ground (arith, e))

fok_executed :
    (env : Env) (o : Order) (g : MatchingEngine)
    → o.time_in_force ≡ TimeInForce.fok
    → can_fill_entirely o g.book ≡ false
    → let r = submit_order env o g in (r.engine ≡ g) × (r.result.trades ≡ [])
unfolding submit_order
fok_executed env o g t f = ground (arith, t, f)

-- A FOK order, on a valid book, is filled whole, with trades of its size, or it makes no trade and
-- leaves the engine as it was.
pub fok_all_or_nothing :
    (env : Env) (o : Order) (g : MatchingEngine)
    → IsBookValid g.book
    → o.time_in_force ≡ TimeInForce.fok
    → let r = submit_order env o g in
      ((r.engine ≡ g) × (r.result.trades ≡ []))
      ⊎ ((r.result.status ≡ OrderStatus.filled)
          × (r.result.remaining ≡ 0)
          × (traded r.result.trades ≡ o.remaining))
fok_all_or_nothing env o g v t = elim (Bool-cases (can_fill_entirely o g.book)) [
  | inr short ↦ inl (fok_executed env o g t short)
  | inl covered ↦ elim (submit_order_cases env o g) [
    | inl (same, none_made, _) ↦ inl (same, none_made)
    | inr e ↦
        let m = match_order env o g.book in
        let left : m.taker.remaining ≡ 0 =
          ap (λ (x : Order). x.remaining) (match_order-Sweeps env o g.book v).taker_left
          ∙ can_fill_entirely-sweep o g.book v covered in
        let x = execute-filled o g m left in
        let c = (match_order_conserves env o g.book v).0 in
        rw e (inr (x.0, x.1, rw x.2 (omega (arith, c, left))))
  ]
]

reaches_none : (s : Side) (p q : ℤ) → reaches s p q ≡ false → falls_short s p q ≡ true
reaches_none Side.buy p q h = ground arith
reaches_none Side.sell p q h = ground arith

would_match-Blocked :
    (o : Order) (b : OrderBook) (ms : List Order)
    → IsBookValid b
    → o.order_type ≡ OrderType.limit
    → makers (opposite o.side) b ≡ ms
    → would_match o b ≡ false
    → Blocked (refuses o) ms
unfolding would_match
would_match-Blocked o b [] v t e h = tt
would_match-Blocked o b (m ∷ ms) v t e h =
    let best = best_price-eq-first_price (opposite o.side) b (side_of (opposite o.side) b v) in
    ground (arith, best, e, t, h, reaches_none o.side o.price m.price)

post_only_refused :
    (env : Env) (o : Order) (g : MatchingEngine)
    → o.time_in_force ≡ TimeInForce.post_only
    → would_match o g.book ≡ true
    → let r = submit_order env o g in (r.engine ≡ g) × (r.result.trades ≡ [])
unfolding submit_order
post_only_refused env o g t f = ground (arith, t, f)

-- A PostOnly limit order, on a valid book, never trades: it takes nothing off the other side.
pub post_only_never_takes :
    (env : Env) (o : Order) (g : MatchingEngine)
    → IsBookValid g.book
    → o.time_in_force ≡ TimeInForce.post_only
    → o.order_type ≡ OrderType.limit
    → (submit_order env o g).result.trades ≡ []
unfolding execute
post_only_never_takes env o g v t l = elim (Bool-cases (would_match o g.book)) [
  | inl crossing ↦ (post_only_refused env o g t crossing).1
  | inr clear ↦ elim (submit_order_cases env o g) [
    | inl (_, none_made, _) ↦ none_made
    | inr e ↦
        let ms = makers (opposite o.side) g.book in
        let spec =
          sweep-Blocked (refuses o) o.remaining ms
            (would_match-Blocked o g.book ms v l refl clear) in
        rw (e, (match_order-Sweeps env o g.book v).trades, spec) refl
  ]
]
