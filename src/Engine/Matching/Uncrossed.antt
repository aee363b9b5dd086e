-- ===== src/Engine/Matching/Uncrossed.antt =====
-- Bids and asks against each other, across `submitOrder`.
use sur_protocol.Common.{
  ◌<◌, ℤ, ◌<ℤ◌, ltb_ℤ, true, false, ◌≡◌, refl, subst, sym, ap, ◌∙◌, inl, inr, List, [], ◌∷◌, arith,
  All, All-map,
}
use sur_protocol.Types.{Side, OrderType, Order, opposite}
use sur_protocol.Engine.Book.{OrderBook, better, place_order}
use sur_protocol.Engine.Book.Makers.{makers}
use sur_protocol.Engine.Book.Placing.{makers-place_order, opposite-place_order, place-All}
use sur_protocol.Engine.Book.Ranking.{IsRanked, makers-IsRanked}
use sur_protocol.Engine.Matching.Sweep.{Blocked, sweep_completes, sweep-All}
use sur_protocol.Engine.Matching.Loop.{Sweeps}
use sur_protocol.Engine.Matching.Execution.{
  IsBookValid, side_of, match_order-Sweeps, match_order-Keeps, match_order-IsBookValid,
}
use sur_protocol.Engine.Matching.Submit.{
  Handled, kept, placed, resting_order, refused, executed, submit_order-Outcome,
}
use sur_protocol.Engine.Matching.{
  Env, Matched, MatchingEngine, match_order, refuses, falls_short, submit_order,
}

-- Every price of the first list falls short of every price of the second, as the side has it.
abbrev pub Apart : Side → List Order → List Order → Type 0
Apart s xs ys = All (λ (x : Order). All (λ (y : Order). falls_short s x.price y.price ≡ true) ys) xs

-- Every resting bid is below every resting ask.
abbrev pub IsUncrossed : OrderBook → Type 0
IsUncrossed b =
    All (λ (bid : Order). All (λ (ask : Order). bid.price <ℤ ask.price) (makers Side.sell b))
      (makers Side.buy b)

Apart-nil : (s : Side) (ys : List Order) → Apart s ys []
Apart-nil s [] = tt
Apart-nil s (y ∷ ys) = (tt, Apart-nil s ys)

falls_short_flip : (s : Side) (p q : ℤ) → falls_short s p q ≡ falls_short (opposite s) q p
falls_short_flip Side.buy p q = refl
falls_short_flip Side.sell p q = refl

Apart-cons :
    (s : Side) (x : Order) (xs ys : List Order)
    → All (λ (y : Order). falls_short (opposite s) x.price y.price ≡ true) ys
    → Apart s ys xs
    → Apart s ys (x ∷ xs)
Apart-cons s x xs [] h a = tt
Apart-cons s x xs (y ∷ ys) h a =
    ((falls_short_flip s y.price x.price ∙ h.0, a.0), Apart-cons s x xs ys h.1 a.1)

Apart-flip : (s : Side) (xs ys : List Order) → Apart (opposite s) xs ys → Apart s ys xs
Apart-flip s [] ys a = Apart-nil s ys
Apart-flip s (x ∷ xs) ys a = Apart-cons s x xs ys a.0 (Apart-flip s xs ys a.1)

ltb_ℤ_iff : (p q : ℤ) → ltb_ℤ p q ≡ true → p <ℤ q
ltb_ℤ_iff p q h = ground arith

lt→ltb_ℤ : (p q : ℤ) → p <ℤ q → ltb_ℤ p q ≡ true
lt→ltb_ℤ p q h = ground arith

-- The two ways to say it, from either side of the book.
uncross_buy :
    (b : OrderBook) → IsUncrossed b → Apart Side.buy (makers Side.buy b) (makers Side.sell b)
uncross_buy b u =
    All-map (λ (x : Order) h. All-map (λ (y : Order) k. lt→ltb_ℤ x.price y.price k) _ h) _ u

joined_buy :
    (b : OrderBook) → Apart Side.buy (makers Side.buy b) (makers Side.sell b) → IsUncrossed b
joined_buy b a =
    All-map (λ (x : Order) h. All-map (λ (y : Order) k. ltb_ℤ_iff x.price y.price k) _ h) _ a

uncross : (s : Side) (b : OrderBook) → IsUncrossed b → Apart s (makers s b) (makers (opposite s) b)
uncross Side.buy b u = uncross_buy b u
uncross Side.sell b u =
    Apart-flip Side.sell (makers Side.buy b) (makers Side.sell b) (uncross_buy b u)

joined : (s : Side) (b : OrderBook) → Apart s (makers s b) (makers (opposite s) b) → IsUncrossed b
joined Side.buy b a = joined_buy b a
joined Side.sell b a = joined_buy b (Apart-flip Side.buy (makers Side.sell b) (makers Side.buy b) a)

falls_short_mono :
    (s : Side) (p q r : ℤ)
    → falls_short s p q ≡ true
    → better (opposite s) r q ≡ false
    → falls_short s p r ≡ true
falls_short_mono Side.buy p q r h k = ground arith
falls_short_mono Side.sell p q r h k = ground arith

-- If a limit order does not reach the best order of the other side, it reaches none.
Blocked-All :
    (s : Side) (o : Order) (ms : List Order)
    → o.order_type ≡ OrderType.limit
    → Blocked (refuses o) ms
    → IsRanked (opposite s) ms
    → o.side ≡ s
    → All (λ (y : Order). falls_short s o.price y.price ≡ true) ms
Blocked-All s o [] t h r e = tt
Blocked-All s o (m ∷ ms) t h r e =
    (short, All-map (λ (y : Order) k. falls_short_mono s o.price m.price y.price short k) ms r.0)
  where
    short : falls_short s o.price m.price ≡ true
    short = subst (λ x. falls_short x o.price m.price ≡ true) e (ground (arith, t, h))

module _ (env : Env) (o : Order) (b : OrderBook) (v : IsBookValid b) (u : IsUncrossed b) where
  -- After the match the own side is as it was, and of the other side nothing new is there.
  matched-Apart :
      let c = (match_order env o b).book in
      Apart o.side (makers o.side c) (makers (opposite o.side) c)
  matched-Apart =
      let h = match_order-Sweeps env o b v in
      let ms = makers (opposite o.side) b in
      rw ((match_order-Keeps env o b).own, h.rest)
        (All-map
          (λ (x : Order) k.
            sweep-All (λ p. falls_short o.side x.price p ≡ true) (refuses o) o.remaining ms k)
          (makers o.side b) (uncross o.side b u))

  -- What is left of a limit order is apart from the other side.
  left-Apart :
      o.order_type ≡ OrderType.limit
      → 0 < (match_order env o b).taker.remaining
      → All
          (λ (y : Order). falls_short o.side o.price y.price ≡ true)
          (makers (opposite o.side) (match_order env o b).book)
  left-Apart t more =
      Blocked-All o.side o _ t
        (elim (sweep_completes (refuses o) o.remaining ms) [
          | inl none_left ↦
              absurd (omega (arith, more, none_left, ap (λ (x : Order). x.remaining) h.taker_left))
          | inr blocked ↦ rw h.rest blocked
        ])
        (makers-IsRanked (opposite o.side) (match_order env o b).book h.valid) refl
    where
      ms : List Order
      ms = makers (opposite o.side) b

      h : Sweeps env o b ms (match_order env o b)
      h = match_order-Sweeps env o b v

-- Placing what is left of the order keeps the sides apart.
placed-IsUncrossed :
    (o : Order) (b : OrderBook)
    → IsBookValid b
    → Apart o.side (makers o.side b) (makers (opposite o.side) b)
    → All (λ (y : Order). falls_short o.side o.price y.price ≡ true) (makers (opposite o.side) b)
    → IsUncrossed (place_order o b)
placed-IsUncrossed o b v a h = joined o.side (place_order o b) (
    rw (opposite-place_order o b, makers-place_order o b (side_of o.side b v))
      (place-All
        (λ (x : Order).
          All (λ (y : Order). falls_short o.side x.price y.price ≡ true)
            (makers (opposite o.side) b))
        o.side o (makers o.side b) h a))

-- What is known of the taker and the book after the match.
record Ready (b : OrderBook) (t : Order) : Type 0 where
  apart : Apart t.side (makers t.side b) (makers (opposite t.side) b)
  left :
      t.order_type ≡ OrderType.limit
      → 0 < t.remaining
      → All (λ (y : Order). falls_short t.side t.price y.price ≡ true) (makers (opposite t.side) b)

match_order-Ready :
    (env : Env) (o : Order) (b : OrderBook)
    → IsBookValid b
    → IsUncrossed b
    → Ready (match_order env o b).book (match_order env o b).taker
match_order-Ready env o b v u =
    let e = (match_order-Sweeps env o b v).taker_left in
    subst (Ready (match_order env o b).book) (sym e) (record {
      apart = matched-Apart env o b v u;
      left =
          λ t more. left-Apart env o b v u t (subst (λ (x : Order). 0 < x.remaining) (sym e) more);
    })

Handled-IsUncrossed :
    (m : Matched) (b : OrderBook)
    → IsBookValid m.book
    → Ready m.book m.taker
    → Handled m b
    → IsUncrossed b
Handled-IsUncrossed m b v r (kept e) = rw e (joined m.taker.side m.book r.apart)
Handled-IsUncrossed m b v r (placed t more e) =
    rw e (placed-IsUncrossed (resting_order m) m.book v r.apart (r.left t more))

-- Submitting any order to a valid book in which every bid is below every ask leaves such a book:
-- whatever could trade against the order has traded.
pub submit_order-IsUncrossed :
    (env : Env) (o : Order) (g : MatchingEngine)
    → IsBookValid g.book
    → IsUncrossed g.book
    → IsUncrossed (submit_order env o g).engine.book
submit_order-IsUncrossed env o g v u = elim (submit_order-Outcome env o g) [
  | refused e ↦ rw e u
  | executed h ↦
      Handled-IsUncrossed (match_order env o g.book) _ (match_order-IsBookValid env o g.book v)
        (match_order-Ready env o g.book v u) h
]
