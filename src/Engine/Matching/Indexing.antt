-- ===== src/Engine/Matching/Indexing.antt =====
-- `orderIndex` across `submitOrder`.
use sur_protocol.Common.{
  ℕ, suc, ◌≤◌, ◌≡◌, refl, sym, subst, none, some, arith, List, [], ◌∷◌, nat_eq,
}
use sur_protocol.Common.Dict.{lookup, Distinct, lookup-erase}
use sur_protocol.Types.{Side, Order, opposite}
use sur_protocol.Engine.Book.{OrderBook, levels, fill_best, count_trade, peek_best}
use sur_protocol.Engine.Book.Frame.{levels-count_trade}
use sur_protocol.Engine.Book.Validity.{IsSideValid}
use sur_protocol.Engine.Book.Makers.{makers, fill_best-IsSideValid}
use sur_protocol.Engine.Book.Index.{Index, IsIndexed}
use sur_protocol.Engine.Book.Index.Steps.{
  index_after, index-fill_best, index-count_trade, fill_best-IsIndexed, place_order-IsIndexed,
}
use sur_protocol.Engine.Matching.Loop.{match_loop_inv}
use sur_protocol.Engine.Matching.Execution.{
  IsBookValid, side_of, match_order-Sweeps, match_order-IsBookValid,
}
use sur_protocol.Engine.Matching.Submit.{
  Handled, kept, placed, resting_order, refused, executed, submit_order-Outcome,
}
use sur_protocol.Engine.Matching.{
  Env, Matched, MatchingEngine, match_order, resting_count, submit_order,
}

lookup-index_after :
    (i qty : ℕ) (ms : List Order) (idx : Index)
    → Distinct idx
    → lookup i idx ≡ none
    → lookup i (index_after qty ms idx) ≡ none
lookup-index_after i qty [] idx d f = f
lookup-index_after i qty (m ∷ ms) idx d f = ground (arith, lookup-erase m.id i idx d)

-- What the rounds of the loop keep: a valid side, the index, and that an id is new.
record Steady (s : Side) (i : ℕ) (b : OrderBook) : Type 0 where
  valid : IsSideValid (opposite s) (levels (opposite s) b)
  indexed : IsIndexed b
  fresh : lookup i b.order_index ≡ none

round-Steady :
    (s : Side) (i qty : ℕ) (m : Order) (b : OrderBook)
    → peek_best (opposite s) b ≡ some m
    → qty ≤ m.remaining
    → Steady s i b
    → Steady s i (count_trade (fill_best (opposite s) qty b).0)
round-Steady s i qty m b best le h = record {
  valid =
      rw (levels-count_trade (opposite s) (fill_best (opposite s) qty b).0)
        (fill_best-IsSideValid (opposite s) qty b (λ o e. ground (arith, best, e, le)) h.valid);
  indexed = fill_best-IsIndexed (opposite s) qty b h.valid h.indexed;
  fresh =
      rw
        (
          index-count_trade (fill_best (opposite s) qty b).0,
          index-fill_best (opposite s) qty b h.valid,
        )
        (lookup-index_after i qty (makers (opposite s) b) b.order_index h.indexed.distinct h.fresh);
}

match_order-Steady :
    (env : Env) (i : ℕ) (taker : Order) (b : OrderBook)
    → Steady taker.side i b
    → Steady taker.side i (match_order env taker b).book
unfolding match_order
match_order-Steady env i taker b h =
    match_loop_inv taker.side (Steady taker.side i)
      (λ qty m c best le k. round-Steady taker.side i qty m c best le k) env
      (suc (suc (resting_count (levels (opposite taker.side) b)))) taker b refl h

Handled-IsIndexed :
    (m : Matched) (b : OrderBook)
    → IsBookValid m.book
    → IsIndexed m.book
    → lookup m.taker.id m.book.order_index ≡ none
    → Handled m b
    → IsIndexed b
Handled-IsIndexed m b v h f (kept e) = rw e h
Handled-IsIndexed m b v h f (placed _ _ e) =
    rw e (place_order-IsIndexed (resting_order m) m.book (side_of m.taker.side m.book v) f h)

-- Submitting an order with a new id to a valid book keeps the index: it lists every resting order
-- once, at its side and price, and nothing more.
pub submit_order-IsIndexed :
    (env : Env) (o : Order) (g : MatchingEngine)
    → IsBookValid g.book
    → IsIndexed g.book
    → lookup o.id g.book.order_index ≡ none
    → IsIndexed (submit_order env o g).engine.book
submit_order-IsIndexed env o g v h f = elim (submit_order-Outcome env o g) [
  | refused e ↦ rw e h
  | executed k ↦
      let s =
        match_order-Steady env o.id o g.book
          (record { valid = side_of (opposite o.side) g.book v; indexed = h; fresh = f }) in
      Handled-IsIndexed (match_order env o g.book) _ (match_order-IsBookValid env o g.book v)
        s.indexed
        (subst (λ (t : Order). lookup t.id (match_order env o g.book).book.order_index ≡ none)
          (sym (match_order-Sweeps env o g.book v).taker_left) s.fresh)
        k
]
