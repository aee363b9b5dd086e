-- ===== src/Engine/Book/Index/Steps.antt =====
-- `orderIndex` across a fill of the best order and across `placeOrder`.
use sur_protocol.Common.{
  ℕ, suc, ◌-◌, ℤ, false, Bool-cases, ◌≡◌, refl, inl, inr, List, [], ◌∷◌, none, some, arith,
  if◌then◌else◌, ◌==◌, leb, length, nat_eq, int_eq,
}
use sur_protocol.Common.Dict.{
  lookup, insert, erase, lookup-insert, insert-Distinct, erase-Distinct, length-insert,
  length-erase,
}
use sur_protocol.Types.{Side, Order, opposite}
use sur_protocol.Engine.Queue.{OrderQueue, front, reduce_front}
use sur_protocol.Engine.Book.{
  OrderBook, IndexEntry, levels, fill_best, fill_level, place_order, count_trade, better,
}
use sur_protocol.Engine.Book.Validity.{IsSideValid}
use sur_protocol.Engine.Book.Makers.{
  makers, vacant, headed, view, makers-HasHead, fill_head, makers-fill_best,
  fill_best-eq-fill_level, fill_best-vacant,
}
use sur_protocol.Engine.Book.Frame.{opposite-fill_best, levels-count_trade}
use sur_protocol.Engine.Book.Placing.{place, makers-place_order, opposite-place_order, place-All}
use sur_protocol.Engine.Book.Index.{
  Index, Without, DistinctIds, IsIndexed, Half, half, whole, Indexed-erase, Indexed-insert,
  Without-fresh, Without-other,
}

-- What a fill does to the index: an order with nothing left is dropped.
abbrev pub index_after : ℕ → List Order → Index → Index
index_after qty [] idx = idx
index_after qty (m ∷ ms) idx = if leb (m.remaining - qty) 0 then erase m.id idx else idx

index-fill_level :
    (s : Side) (qty : ℕ) (p : ℤ) (b : OrderBook) (q : OrderQueue) (o : Order) (os : List Order)
    → q.orders ≡ o ∷ os
    → (fill_level s qty p b q).0.order_index
      ≡ (if leb (o.remaining - qty) 0 then erase o.id b.order_index else b.order_index)
unfolding front reduce_front
index-fill_level Side.buy qty p b q o os e = ground (arith, e)
index-fill_level Side.sell qty p b q o os e = ground (arith, e)

pub index-fill_best :
    (s : Side) (qty : ℕ) (b : OrderBook)
    → IsSideValid s (levels s b)
    → (fill_best s qty b).0.order_index ≡ index_after qty (makers s b) b.order_index
index-fill_best s qty b v = elim (view s (levels s b) v) [
  | vacant e n ↦ rw (fill_best-vacant s qty b n, e) refl
  | headed p q o os l h ↦
      rw (fill_best-eq-fill_level s qty b p q o os l h, makers-HasHead s b p q o os l h)
        (index-fill_level s qty p b q o os h.orders)
]

fill_head-Without : (qty i : ℕ) (ms : List Order) → Without i ms → Without i (fill_head qty ms)
fill_head-Without qty i [] w = tt
fill_head-Without qty i (m ∷ ms) w = ground arith

fill_head-Half :
    (idx : Index) (s : Side) (qty : ℕ) (ms ns : List Order)
    → Half idx s ms ns
    → Half (index_after qty ms idx) s (fill_head qty ms) ns
fill_head-Half idx s qty [] ns h = h
fill_head-Half idx s qty (m ∷ ms) ns h = elim (Bool-cases (leb (m.remaining - qty) 0)) [
  | inr stays ↦ rw stays (record {
    distinct = h.distinct;
    own = (h.own.0, h.own.1);
    other = h.other;
    own_ids = (h.own_ids.0, h.own_ids.1);
    other_ids = h.other_ids;
    counted = h.counted;
  })
  | inl goes ↦ rw goes (record {
    distinct = erase-Distinct m.id idx h.distinct;
    own = Indexed-erase s m.id idx ms h.distinct h.own_ids.0 h.own.1;
    other =
        Indexed-erase (opposite s) m.id idx ns h.distinct
          (Without-other s m.id m.price idx ns h.own.0 h.other) h.other;
    own_ids = h.own_ids.1;
    other_ids = h.other_ids;
    counted = ground (arith, length-erase m.id idx, h.own.0, h.counted);
  })
]

-- Filling the best order of a side keeps the index.
pub fill_best-IsIndexed :
    (s : Side) (qty : ℕ) (b : OrderBook)
    → IsSideValid s (levels s b)
    → IsIndexed b
    → IsIndexed (count_trade (fill_best s qty b).0)
unfolding count_trade
fill_best-IsIndexed s qty b v h = whole s (count_trade (fill_best s qty b).0) (
    rw
      (
        levels-count_trade s (fill_best s qty b).0,
        levels-count_trade (opposite s) (fill_best s qty b).0,
        opposite-fill_best s qty b,
        makers-fill_best s qty b v,
        index-fill_best s qty b v,
      )
      (fill_head-Half b.order_index s qty (makers s b) (makers (opposite s) b) (half s b h)))

place-ids :
    (s : Side) (o : Order) (ms : List Order)
    → Without o.id ms
    → DistinctIds ms
    → DistinctIds (place s o ms)
unfolding place
place-ids s o [] w d = (tt, tt)
place-ids s o (m ∷ ms) w d = elim (Bool-cases (better s o.price m.price)) [
  | inl first ↦ rw first (w, d)
  | inr behind ↦ rw behind (
    place-All (λ (x : Order). (x.id == m.id) ≡ false) s o ms (ground (arith, w.0)) d.0,
    place-ids s o ms w.1 d.1,
  )
]

length-place : (s : Side) (o : Order) (ms : List Order) → length (place s o ms) ≡ suc (length ms)
unfolding place
length-place s o [] = refl
length-place s o (m ∷ ms) = ground (arith, length-place s o ms)

place-Half :
    (idx : Index) (s : Side) (o : Order) (ms ns : List Order)
    → lookup o.id idx ≡ none
    → Half idx s ms ns
    → Half (insert o.id (record { side = s; price = o.price }) idx) s (place s o ms) ns
place-Half idx s o ms ns f h =
    let e : IndexEntry = record { side = s; price = o.price } in
    let mine = Without-fresh s o.id idx ms f h.own in
    let theirs = Without-fresh (opposite s) o.id idx ns f h.other in
    record {
      distinct = insert-Distinct o.id e idx h.distinct;
      own =
          place-All
            (λ (x : Order).
              lookup x.id (insert o.id e idx) ≡ some (record { side = s; price = x.price }))
            s o ms (rw (lookup-insert o.id o.id e idx) (ground arith))
            (Indexed-insert s o.id e idx ms mine h.own);
      other = Indexed-insert (opposite s) o.id e idx ns theirs h.other;
      own_ids = place-ids s o ms mine h.own_ids;
      other_ids = h.other_ids;
      counted = ground (arith, length-insert o.id e idx, f, length-place s o ms, h.counted);
    }

index-place_order :
    (o : Order) (b : OrderBook)
    → (place_order o b).order_index
      ≡ insert o.id (record { side = o.side; price = o.price }) b.order_index
unfolding place_order
index-place_order o b = refl

-- Placing an order with a new id keeps the index.
pub place_order-IsIndexed :
    (o : Order) (b : OrderBook)
    → IsSideValid o.side (levels o.side b)
    → lookup o.id b.order_index ≡ none
    → IsIndexed b
    → IsIndexed (place_order o b)
place_order-IsIndexed o b v f h = whole o.side (place_order o b) (
    rw (opposite-place_order o b, makers-place_order o b v, index-place_order o b)
      (place-Half b.order_index o.side o (makers o.side b) (makers (opposite o.side) b) f
        (half o.side b h)))

pub index-count_trade : (b : OrderBook) → (count_trade b).order_index ≡ b.order_index
unfolding count_trade
index-count_trade b = refl
