-- ===== src/Engine/Book/Index.antt =====
-- `orderIndex` against the orders that rest in the book.
pub mod Steps
use sur_protocol.Common.{
  ℕ, suc, ◌+◌, ◌-◌, ◌≤◌, ℤ, Bool, true, false, Bool-cases, ◌≡◌, refl, sym, ap, ◌∙◌, subst, inl, inr,
  List, [], ◌∷◌, ◌++◌, Option, none, some, arith, if◌then◌else◌, ◌==◌, leb, length, All, All-map,
  nat_eq, int_eq, length-append,
}
use sur_protocol.Common.Dict.{
  Dict, lookup, insert, erase, Distinct, lookup-insert, lookup-erase, insert-Distinct,
  erase-Distinct, length-insert, length-erase,
}
use sur_protocol.Types.{Side, Order, OrderStatus, opposite}
use sur_protocol.Engine.Queue.{OrderQueue, front, reduce_front, pop_front}
use sur_protocol.Engine.Book.{
  Levels, OrderBook, IndexEntry, levels, set_levels, best_price, fill_best, fill_level, place_order,
  count_trade, better,
}
use sur_protocol.Engine.Book.Validity.{IsSideValid}
use sur_protocol.Engine.Book.Makers.{
  makers, View, vacant, headed, view, HasHead, makers-HasHead, fill_head, makers-fill_best,
  fill_best-eq-fill_level, fill_best-vacant,
}
use sur_protocol.Engine.Book.Frame.{opposite-fill_best, levels-count_trade}
use sur_protocol.Engine.Book.Placing.{place, makers-place_order, opposite-place_order, place-All}

abbrev pub Index : Type 0
Index = Dict ℕ IndexEntry

-- No order of the list has the id `i`.
abbrev pub Without : ℕ → List Order → Type 0
Without i ms = All (λ (m : Order). (m.id == i) ≡ false) ms

abbrev pub DistinctIds : List Order → Type 0
DistinctIds [] = Unit
DistinctIds (m ∷ ms) = Without m.id ms × DistinctIds ms

-- Each order of a side has its entry.
abbrev pub Indexed : Side → Index → List Order → Type 0
Indexed s idx ms =
    All (λ (m : Order). lookup m.id idx ≡ some (record { side = s; price = m.price })) ms

-- The index of a book lists the orders that rest in it, each once, at its side and price.
pub record IsIndexed (b : OrderBook) : Type 0 where
  pub distinct : Distinct b.order_index
  pub bids : Indexed Side.buy b.order_index (makers Side.buy b)
  pub asks : Indexed Side.sell b.order_index (makers Side.sell b)
  pub bid_ids : DistinctIds (makers Side.buy b)
  pub ask_ids : DistinctIds (makers Side.sell b)
  pub counted : length b.order_index ≡ length (makers Side.buy b) + length (makers Side.sell b)

-- The same, from one side.
pub record Half (idx : Index) (s : Side) (ms ns : List Order) : Type 0 where
  pub distinct : Distinct idx
  pub own : Indexed s idx ms
  pub other : Indexed (opposite s) idx ns
  pub own_ids : DistinctIds ms
  pub other_ids : DistinctIds ns
  pub counted : length idx ≡ length ms + length ns

pub half :
    (s : Side) (b : OrderBook)
    → IsIndexed b
    → Half b.order_index s (makers s b) (makers (opposite s) b)
half Side.buy b h = record {
  distinct = h.distinct;
  own = h.bids;
  other = h.asks;
  own_ids = h.bid_ids;
  other_ids = h.ask_ids;
  counted = h.counted;
}
half Side.sell b h = record {
  distinct = h.distinct;
  own = h.asks;
  other = h.bids;
  own_ids = h.ask_ids;
  other_ids = h.bid_ids;
  counted = omega (arith, h.counted);
}

pub whole :
    (s : Side) (b : OrderBook)
    → Half b.order_index s (makers s b) (makers (opposite s) b)
    → IsIndexed b
whole Side.buy b h = record {
  distinct = h.distinct;
  bids = h.own;
  asks = h.other;
  bid_ids = h.own_ids;
  ask_ids = h.other_ids;
  counted = h.counted;
}
whole Side.sell b h = record {
  distinct = h.distinct;
  bids = h.other;
  asks = h.own;
  bid_ids = h.other_ids;
  ask_ids = h.own_ids;
  counted = omega (arith, h.counted);
}

pub Indexed-erase :
    (s : Side) (i : ℕ) (idx : Index) (ms : List Order)
    → Distinct idx
    → Without i ms
    → Indexed s idx ms
    → Indexed s (erase i idx) ms
Indexed-erase s i idx [] d w h = tt
Indexed-erase s i idx (m ∷ ms) d w h =
    (rw (lookup-erase i m.id idx d, w.0) h.0, Indexed-erase s i idx ms d w.1 h.1)

Indexed-insert :
    (s : Side) (i : ℕ) (e : IndexEntry) (idx : Index) (ms : List Order)
    → Without i ms
    → Indexed s idx ms
    → Indexed s (insert i e idx) ms
Indexed-insert s i e idx [] w h = tt
Indexed-insert s i e idx (m ∷ ms) w h =
    (rw (lookup-insert i m.id e idx, w.0) h.0, Indexed-insert s i e idx ms w.1 h.1)

-- An id that is indexed on one side, or nowhere, is no id of the other side.
Without-fresh :
    (s : Side) (i : ℕ) (idx : Index) (ms : List Order)
    → lookup i idx ≡ none
    → Indexed s idx ms
    → Without i ms
Without-fresh s i idx [] f h = tt
Without-fresh s i idx (m ∷ ms) f h = (ground (arith, f, h.0), Without-fresh s i idx ms f h.1)

pub Without-other :
    (s : Side) (i : ℕ) (p : ℤ) (idx : Index) (ms : List Order)
    → lookup i idx ≡ some (record { side = s; price = p })
    → Indexed (opposite s) idx ms
    → Without i ms
Without-other s i p idx [] f h = tt
Without-other Side.buy i p idx (m ∷ ms) f h =
    (ground (arith, f, h.0), Without-other Side.buy i p idx ms f h.1)
Without-other Side.sell i p idx (m ∷ ms) f h =
    (ground (arith, f, h.0), Without-other Side.sell i p idx ms f h.1)
