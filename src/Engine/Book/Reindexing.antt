-- ===== src/Engine/Book/Reindexing.antt =====
-- `orderIndex` across `cancelOrder`.
use sur_protocol.Common.{
  suc, false, ◌≡◌, subst, List, [], ◌∷◌, ◌++◌, arith, ◌==◌, length, length-append, All, All-append,
  nat_eq, ap,
}
use sur_protocol.Common.Dict.{erase, erase-Distinct, length-erase}
use sur_protocol.Types.{Side, Order, opposite}
use sur_protocol.Engine.Book.{OrderBook, levels, cancel_order}
use sur_protocol.Engine.Book.Sorting.{sort_levels}
use sur_protocol.Engine.Book.Validity.{IsSideValid}
use sur_protocol.Engine.Book.Makers.{makers, orders_of}
use sur_protocol.Engine.Book.Index.{
  Index, Without, DistinctIds, IsIndexed, Half, half, whole, Indexed-erase, Without-other,
}
use sur_protocol.Engine.Book.Withdrawing.{cancel_order-makers, Without-before, Indexed-middle}

-- What holds of all orders of a list holds of all but one.
All-drop {ℓ} :
    (P : Order → Type ℓ) (ms ns : List Order) (o : Order) → All P (ms ++ o ∷ ns) → All P (ms ++ ns)
All-drop P [] ns o h = h.1
All-drop P (m ∷ ms) ns o h = (h.0, All-drop P ms ns o h.1)

DistinctIds-drop :
    (ms ns : List Order) (o : Order) → DistinctIds (ms ++ o ∷ ns) → DistinctIds (ms ++ ns)
DistinctIds-drop [] ns o d = d.1
DistinctIds-drop (m ∷ ms) ns o d =
    (All-drop (λ (x : Order). (x.id == m.id) ≡ false) ms ns o d.0, DistinctIds-drop ms ns o d.1)

Without-after : (ms ns : List Order) (o : Order) → DistinctIds (ms ++ o ∷ ns) → Without o.id ns
Without-after [] ns o d = d.0
Without-after (m ∷ ms) ns o d = Without-after ms ns o d.1

length-drop : (ms ns : List Order) (o : Order) → length (ms ++ o ∷ ns) ≡ suc (length (ms ++ ns))
length-drop ms ns o = omega (arith, length-append ms (o ∷ ns), length-append ms ns)

Half-drop :
    (idx : Index) (s : Side) (ms ns others : List Order) (o : Order)
    → Half idx s (ms ++ o ∷ ns) others
    → Half (erase o.id idx) s (ms ++ ns) others
Half-drop idx s ms ns others o h =
    let entry = Indexed-middle s idx ms ns o h.own in
    let rest : Without o.id (ms ++ ns) =
      All-append (λ (x : Order). (x.id == o.id) ≡ false) ms ns (Without-before ms ns o h.own_ids)
        (Without-after ms ns o h.own_ids) in
    record {
      distinct = erase-Distinct o.id idx h.distinct;
      own = Indexed-erase s o.id idx (ms ++ ns) h.distinct rest (All-drop _ ms ns o h.own);
      other =
          Indexed-erase (opposite s) o.id idx others h.distinct
            (Without-other s o.id o.price idx others entry h.other) h.other;
      own_ids = DistinctIds-drop ms ns o h.own_ids;
      other_ids = h.other_ids;
      counted = ground (arith, length-erase o.id idx, entry, h.counted, length-drop ms ns o);
    }

-- Cancelling an order that rests on a valid side of an indexed book leaves an indexed book: the
-- index lists the orders that still rest, each once, at its side and price, and nothing else.
pub cancel_order-IsIndexed :
    (s : Side) (b : OrderBook) (ms ns : List Order) (o : Order)
    → IsSideValid s (levels s b)
    → IsIndexed b
    → makers s b ≡ ms ++ o ∷ ns
    → IsIndexed (cancel_order b o.id).0
cancel_order-IsIndexed s b ms ns o v x e =
    let c = cancel_order-makers s b ms ns o v x e in
    let h = half s b x in
    let k =
      Half-drop b.order_index s ms ns (makers (opposite s) b) o
        (subst (λ os. Half b.order_index s os (makers (opposite s) b)) e h) in
    whole s (cancel_order b o.id).0
      (rw (c.1, ap (λ m. orders_of (sort_levels (opposite s) m)) c.2, c.3) k)
