-- ===== src/Engine/Matching/Loop.antt =====
-- The loop of `matchOrder` against the sweep over the orders of the other side.
use sur_protocol.Common.{
  Option-cases, ◌⊎◌, ℕ, zero, suc, ◌-◌, ◌<◌, ◌≤◌, false, Bool-cases, ◌≡◌, subst, refl, sym, ap, ◌∙◌,
  inl, inr, List, [], ◌∷◌, Option, none, some, arith, if◌then◌else◌, leb, ltb, length,
}
use sur_protocol.Types.{Side, Order, opposite}
use sur_protocol.Engine.Queue.{first}
use sur_protocol.Engine.Book.{peek_best, OrderBook, levels, fill_best, count_trade}
use sur_protocol.Engine.Book.Validity.{IsSideValid}
use sur_protocol.Engine.Book.Makers.{
  makers, peek_best-eq-first, fill_head, makers-fill_best, fill_best-IsSideValid,
}
use sur_protocol.Engine.Book.Frame.{
  trade_count-fill_best, levels-count_trade, trade_count-count_trade,
}
use sur_protocol.Engine.Matching.Sweep.{Swept, sweep, trades_of}
use sur_protocol.Engine.Matching.{
  Env, Matched, Round, match_round, match_loop, refuses, fill_qty, make_trade,
}

-- What a round of the loop sees and does, in terms of the list.
abbrev pub next_taker : Order → Order → Order
next_taker taker m = record taker { remaining = taker.remaining - fill_qty taker m }

abbrev pub next_book : Order → Order → OrderBook → OrderBook
next_book taker m b = count_trade (fill_best (opposite taker.side) (fill_qty taker m) b).0

abbrev pub this_round : Env → Order → Order → OrderBook → Round
this_round env taker m b = record {
  trade = make_trade env b.trade_count taker m (fill_qty taker m);
  taker = next_taker taker m;
  book = next_book taker m b;
}

abbrev round_on : Env → Order → OrderBook → Option Order → Option Round
round_on env taker b none = none
round_on env taker b (some m) =
    if refuses taker m.price then none else some (this_round env taker m b)

match_round_lem :
    (env : Env) (taker : Order) (b : OrderBook) (ms : List Order)
    → IsSideValid (opposite taker.side) (levels (opposite taker.side) b)
    → makers (opposite taker.side) b ≡ ms
    → match_round env taker b
      ≡ (if leb taker.remaining 0 then none else round_on env taker b (first ms))
unfolding match_round
match_round_lem env taker b ms v e = ground (arith, peek_best-eq-first (opposite taker.side) b v, e)

makers-next_book :
    (taker m : Order) (b : OrderBook) (ms : List Order)
    → IsSideValid (opposite taker.side) (levels (opposite taker.side) b)
    → makers (opposite taker.side) b ≡ m ∷ ms
    → makers (opposite taker.side) (next_book taker m b) ≡ fill_head (fill_qty taker m) (m ∷ ms)
makers-next_book taker m b ms v e =
    rw
      (levels-count_trade (opposite taker.side)
        (fill_best (opposite taker.side) (fill_qty taker m) b).0)
      (makers-fill_best (opposite taker.side) (fill_qty taker m) b v
        ∙ ap (fill_head (fill_qty taker m)) e)

next_book-IsSideValid :
    (taker m : Order) (b : OrderBook) (ms : List Order)
    → IsSideValid (opposite taker.side) (levels (opposite taker.side) b)
    → makers (opposite taker.side) b ≡ m ∷ ms
    → IsSideValid (opposite taker.side) (levels (opposite taker.side) (next_book taker m b))
next_book-IsSideValid taker m b ms v e =
    rw
      (levels-count_trade (opposite taker.side)
        (fill_best (opposite taker.side) (fill_qty taker m) b).0)
      (fill_best-IsSideValid (opposite taker.side) (fill_qty taker m) b
        (λ o h. ground (arith, h, peek_best-eq-first (opposite taker.side) b v, e)) v)

trade_count-next_book :
    (taker m : Order) (b : OrderBook) → (next_book taker m b).trade_count ≡ suc b.trade_count
trade_count-next_book taker m b =
    trade_count-count_trade (fill_best (opposite taker.side) (fill_qty taker m) b).0
    ∙ ap suc (trade_count-fill_best (opposite taker.side) (fill_qty taker m) b)

-- What the loop leaves, by the sweep over the orders of the other side.
pub record Sweeps (env : Env) (taker : Order) (b : OrderBook) (ms : List Order) (r : Matched)
    : Type 0 where
  pub valid : IsSideValid (opposite taker.side) (levels (opposite taker.side) r.book)
  pub rest : makers (opposite taker.side) r.book ≡ (sweep (refuses taker) taker.remaining ms).rest
  pub taker_left :
      r.taker ≡ record taker { remaining = (sweep (refuses taker) taker.remaining ms).left }
  pub trades :
      r.trades
      ≡ trades_of
          (λ k. make_trade env k taker)
          b.trade_count
          (sweep (refuses taker) taker.remaining ms).fills

pub loop_end :
    (env : Env) (fuel : ℕ) (taker : Order) (b : OrderBook)
    → match_round env taker b ≡ none
    → match_loop env fuel taker b ≡ record { book = b; taker = taker; trades = [] }
unfolding match_loop
loop_end env zero taker b e = refl
loop_end env (suc fuel) taker b e = rw (e, match_loop) refl

pub loop_step :
    (env : Env) (fuel : ℕ) (taker : Order) (b : OrderBook) (r : Round)
    → match_round env taker b ≡ some r
    → match_loop env (suc fuel) taker b ≡ record (match_loop env fuel r.taker r.book) {
      trades = r.trade ∷ (match_loop env fuel r.taker r.book).trades;
    }
unfolding match_loop
loop_step env fuel taker b r e = rw (e, match_loop) refl

-- The loop stops: the other side is exhausted, the taker is filled, or the price is refused.
loop_stop :
    (env : Env) (fuel : ℕ) (taker : Order) (b : OrderBook) (ms : List Order)
    → IsSideValid (opposite taker.side) (levels (opposite taker.side) b)
    → makers (opposite taker.side) b ≡ ms
    → (if leb taker.remaining 0 then none else round_on env taker b (first ms)) ≡ none
    → sweep (refuses taker) taker.remaining ms
      ≡ record { rest = ms; left = taker.remaining; fills = [] }
    → Sweeps env taker b ms (match_loop env fuel taker b)
loop_stop env fuel taker b ms v e stop spec =
    rw (loop_end env fuel taker b (match_round_lem env taker b ms v e ∙ stop)) (record {
      valid = v;
      rest = e ∙ sym (ap (λ (w : Swept). w.rest) spec);
      taker_left = rw spec refl;
      trades = rw spec refl;
    })

-- The loop goes on: what the rest of it leaves, with the trade of this round in front.
loop_on :
    (env : Env) (fuel : ℕ) (taker m : Order) (b : OrderBook) (ms rest : List Order)
    → leb taker.remaining 0 ≡ false
    → refuses taker m.price ≡ false
    → IsSideValid (opposite taker.side) (levels (opposite taker.side) b)
    → makers (opposite taker.side) b ≡ m ∷ ms
    → fill_head (fill_qty taker m) (m ∷ ms) ≡ rest
    → sweep (refuses taker) taker.remaining (m ∷ ms)
      ≡ record (sweep (refuses taker) (taker.remaining - fill_qty taker m) rest) {
        fills =
            record { maker = m; qty = fill_qty taker m }
            ∷ (sweep (refuses taker) (taker.remaining - fill_qty taker m) rest).fills;
      }
    → Sweeps env
        (next_taker taker m)
        (next_book taker m b)
        rest
        (match_loop env fuel (next_taker taker m) (next_book taker m b))
    → Sweeps env taker b (m ∷ ms) (match_loop env (suc fuel) taker b)
loop_on env fuel taker m b ms rest more accepted v e after spec h =
    rw
      (loop_step env fuel taker b (this_round env taker m b)
        (match_round_lem env taker b (m ∷ ms) v e ∙ rw (more, accepted) refl))
      (record {
        valid = h.valid;
        rest = h.rest ∙ sym (ap (λ (w : Swept). w.rest) spec);
        taker_left = h.taker_left ∙ rw spec refl;
        trades = rw (spec, h.trades, trade_count-next_book taker m b) refl;
      })

-- With more fuel than orders the loop does what the sweep says.
pub match_loop-Sweeps :
    (env : Env) (ms : List Order) (fuel : ℕ) (taker : Order) (b : OrderBook)
    → suc (length ms) < fuel
    → IsSideValid (opposite taker.side) (levels (opposite taker.side) b)
    → makers (opposite taker.side) b ≡ ms
    → Sweeps env taker b ms (match_loop env fuel taker b)
unfolding sweep
match_loop-Sweeps env [] fuel taker b f v e = loop_stop env fuel taker b [] v e (ground arith) refl
match_loop-Sweeps env (m ∷ ms) zero taker b f v e = absurd (omega arith)
match_loop-Sweeps env (m ∷ ms) (suc fuel) taker b f v e =
    elim (Bool-cases (leb taker.remaining 0)) [
      | inl done ↦ loop_stop env (suc fuel) taker b (m ∷ ms) v e (rw done refl) (rw done refl)
      | inr more ↦ elim (Bool-cases (refuses taker m.price)) [
        | inl refused ↦
            loop_stop env (suc fuel) taker b (m ∷ ms) v e (rw (more, refused) refl)
              (rw (more, refused) refl)
        | inr accepted ↦ elim (Bool-cases (ltb taker.remaining m.remaining)) [
          | inl part ↦
              loop_on env fuel taker m b ms (fill_head (fill_qty taker m) (m ∷ ms)) more accepted v
                e refl (ground arith)
                (loop_stop env fuel (next_taker taker m) (next_book taker m b)
                  (fill_head (fill_qty taker m) (m ∷ ms)) (next_book-IsSideValid taker m b ms v e)
                  (makers-next_book taker m b ms v e) (ground arith) (ground arith))
          | inr whole ↦
              loop_on env fuel taker m b ms ms more accepted v e (ground arith) (ground arith) (
                match_loop-Sweeps env ms fuel (next_taker taker m) (next_book taker m b)
                  (omega arith) (next_book-IsSideValid taker m b ms v e)
                  (makers-next_book taker m b ms v e ∙ (ground arith)))
        ]
      ]
    ]

-- A round ends the loop, or fills the best order of the other side at a price that is not refused.
pub match_round_cases :
    (env : Env) (taker : Order) (b : OrderBook)
    → (match_round env taker b ≡ none)
      ⊎ ((m : Order) × (peek_best (opposite taker.side) b ≡ some m)
          × (refuses taker m.price ≡ false)
          × (match_round env taker b ≡ some (this_round env taker m b)))
unfolding match_round
match_round_cases env taker b = elim (Bool-cases (leb taker.remaining 0)) [
  | inl done ↦ inl (rw (done, match_round) refl)
  | inr more ↦ elim (Option-cases (peek_best (opposite taker.side) b)) [
    | inl e ↦ inl (rw (more, e, match_round) refl)
    | inr (m, e) ↦ elim (Bool-cases (refuses taker m.price)) [
      | inl r ↦ inl (ground (arith, e))
      | inr a ↦ inr (m, e, a, ground (arith, e))
    ]
  ]
]

-- The invariant rule of the loop: what every round keeps, the loop keeps. A round fills the best
-- order of the other side, by no more than that order has.
pub match_loop_inv {ℓ} :
    (s : Side) (P : OrderBook → Type ℓ)
    → ((qty : ℕ) (m : Order) (b : OrderBook)
        → peek_best (opposite s) b ≡ some m
        → qty ≤ m.remaining
        → P b
        → P (count_trade (fill_best (opposite s) qty b).0))
    → (env : Env) (fuel : ℕ) (taker : Order) (b : OrderBook) → taker.side ≡ s
    → P b
    → P (match_loop env fuel taker b).book
unfolding match_loop
match_loop_inv s P keep env zero taker b e h = h
match_loop_inv s P keep env (suc fuel) taker b e h = elim (match_round_cases env taker b) [
  | inl stop ↦ rw (loop_end env (suc fuel) taker b stop) h
  | inr (m, best, _, r) ↦ rw (loop_step env fuel taker b (this_round env taker m b) r) (
      match_loop_inv s P keep env fuel (next_taker taker m) (next_book taker m b) e (
        rw e (
          keep (fill_qty taker m) m b (subst (λ x. peek_best (opposite x) b ≡ some m) e best)
            (ground arith) h)))
]
