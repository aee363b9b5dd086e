-- ===== src/Engine/Book/Withdrawing.antt =====
-- `cancelOrder` of the book, from the orders that rest in it.
use sur_protocol.Common.{
  ℕ, ℤ, false, Option-cases, ◌≡◌, refl, sym, ap, ◌∙◌, subst, inl, inr, List, [], ◌∷◌, ◌++◌, some,
  arith, ◌==◌, nat_eq, int_eq,
}
use sur_protocol.Common.Dict.{Dict, lookup, erase}
use sur_protocol.Types.{Side, Order, opposite}
use sur_protocol.Engine.Queue.{splice_id, OrderQueue, remove_by_id, without}
use sur_protocol.Engine.Queue.Accounting.{IsAccurate, remove_by_id-IsAccurate}
use sur_protocol.Common.{Bool-cases, All}
use sur_protocol.Engine.Book.{
  OrderBook, IndexEntry, levels, set_levels, store_level, cancel_order, cancel_at,
}
use sur_protocol.Engine.Book.Sorting.{sort_levels, lookup-sort_levels, sort_levels-Sorted}
use sur_protocol.Engine.Book.Validity.{
  IsSideValid, IsResting, AllLevels-sort_levels, AllLevels-lookup, store_level-IsSideValid,
}
use sur_protocol.Engine.Book.Makers.{orders_of, makers}
use sur_protocol.Engine.Book.Index.{Without, DistinctIds, Indexed, IsIndexed, half}
use sur_protocol.Engine.Book.Cancelling.{
  find_id, strip_id, splice_id-found, find_id-skip, strip_id-skip, find_id-Without, Without-absent,
  AtPrice, locate, Indexed-AtPrice, orders_of-store_level,
}

-- The book after an order has left the queue `q` of its level.
abbrev withdrawn : Side → ℤ → Order → OrderQueue → OrderBook → OrderBook
withdrawn s p o q b =
    record (set_levels s (store_level p (without q o (strip_id o.id q.orders)) (levels s b)) b) {
      order_index = erase o.id b.order_index;
    }

cancel_order-found :
    (s : Side) (p : ℤ) (o : Order) (q : OrderQueue) (b : OrderBook)
    → lookup o.id b.order_index ≡ some (record { side = s; price = p })
    → lookup p (levels s b) ≡ some q
    → find_id o.id q.orders ≡ some o
    → cancel_order b o.id ≡ (withdrawn s p o q b, some o)
unfolding cancel_order remove_by_id
cancel_order-found s p o q b e l f =
    rw (e, cancel_order)
      (rw (l, cancel_at) (rw (splice_id-found o.id q.orders o f, remove_by_id) refl))

levels-withdrawn :
    (s : Side) (p : ℤ) (o : Order) (q : OrderQueue) (b : OrderBook)
    → (levels s (withdrawn s p o q b)
        ≡ store_level p (without q o (strip_id o.id q.orders)) (levels s b))
      × (levels (opposite s) (withdrawn s p o q b) ≡ levels (opposite s) b)
levels-withdrawn Side.buy p o q b = (refl, refl)
levels-withdrawn Side.sell p o q b = (refl, refl)

index-withdrawn :
    (s : Side) (p : ℤ) (o : Order) (q : OrderQueue) (b : OrderBook)
    → (withdrawn s p o q b).order_index ≡ erase o.id b.order_index
index-withdrawn Side.buy p o q b = refl
index-withdrawn Side.sell p o q b = refl

-- A list in which an order stands, and ids are distinct.
Without-middle :
    (j : ℕ) (xs ys : List Order) (x : Order) → Without j (xs ++ x ∷ ys) → (x.id == j) ≡ false
Without-middle j [] ys x h = h.0
Without-middle j (z ∷ xs) ys x h = Without-middle j xs ys x h.1

pub Without-before : (ms ns : List Order) (o : Order) → DistinctIds (ms ++ o ∷ ns) → Without o.id ms
Without-before [] ns o d = tt
Without-before (m ∷ ms) ns o d =
    (ground (arith, Without-middle m.id ms ns o d.0), Without-before ms ns o d.1)

find_id-middle :
    (ms ns : List Order) (o : Order)
    → DistinctIds (ms ++ o ∷ ns)
    → find_id o.id (ms ++ o ∷ ns) ≡ some o
find_id-middle ms ns o d = find_id-skip o.id ms (o ∷ ns) (Without-before ms ns o d) ∙ ground arith

strip_id-middle :
    (ms ns : List Order) (o : Order)
    → DistinctIds (ms ++ o ∷ ns)
    → strip_id o.id (ms ++ o ∷ ns) ≡ ms ++ ns
strip_id-middle ms ns o d =
    strip_id-skip o.id ms (o ∷ ns) (Without-before ms ns o d) ∙ ap (λ os. ms ++ os) (ground arith)

pub Indexed-middle :
    (s : Side) (idx : Dict ℕ IndexEntry) (ms ns : List Order) (o : Order)
    → Indexed s idx (ms ++ o ∷ ns)
    → lookup o.id idx ≡ some (record { side = s; price = o.price })
Indexed-middle s idx [] ns o h = h.0
Indexed-middle s idx (m ∷ ms) ns o h = Indexed-middle s idx ms ns o h.1

-- What is known of an order that rests on a side: its entry, the queue at its price, and its place.
pub record IsFound (s : Side) (b : OrderBook) (o : Order) (q : OrderQueue) : Type 0 where
  pub at : AtPrice o.id o.price (makers s b)
  pub level : lookup o.price (levels s b) ≡ some q
  pub cancelled : cancel_order b o.id ≡ (withdrawn s o.price o q b, some o)
  pub taken : splice_id o.id q.orders ≡ some (o, strip_id o.id q.orders)

pub find_resting :
    (s : Side) (b : OrderBook) (ms ns : List Order) (o : Order)
    → IsSideValid s (levels s b)
    → IsIndexed b
    → makers s b ≡ ms ++ o ∷ ns
    → (q : OrderQueue) × IsFound s b o q
find_resting s b ms ns o v x e =
    let h = half s b x in
    let ids : DistinctIds (ms ++ o ∷ ns) = subst DistinctIds e h.own_ids in
    let entry = Indexed-middle s b.order_index ms ns o (subst (Indexed s b.order_index) e h.own) in
    let at : AtPrice o.id o.price (makers s b) =
      Indexed-AtPrice s o.id o.price b.order_index (makers s b) entry h.own in
    let found : find_id o.id (makers s b) ≡ some o =
      ap (find_id o.id) e ∙ find_id-middle ms ns o ids in
    elim (Option-cases (lookup o.price (levels s b))) [
      | inl missing ↦ absurd (
          ground (
            arith,
            found,
            find_id-Without o.id (makers s b) (
                Without-absent s o.id o.price (sort_levels s (levels s b))
                  (AllLevels-sort_levels s (levels s b) v.sound) at
                  (lookup-sort_levels s o.price (levels s b) v.distinct ∙ missing)),
          ))
      | inr (q, l) ↦
          let t =
            locate s o.id o.price q (sort_levels s (levels s b))
              (AllLevels-sort_levels s (levels s b) v.sound)
              (sort_levels-Sorted s (levels s b) v.distinct) at
              (lookup-sort_levels s o.price (levels s b) v.distinct ∙ l) in
          let here = sym t.found ∙ found in
          (
            q,
            record {
              at = at;
              level = l;
              cancelled = cancel_order-found s o.price o q b entry l here;
              taken = splice_id-found o.id q.orders o here;
            },
          )
    ]

-- Cancelling an order that rests on a valid side of an indexed book returns it, takes it and no
-- other out of the orders of that side, leaves the other side alone, and drops its id from the
-- index.
pub cancel_order-makers :
    (s : Side) (b : OrderBook) (ms ns : List Order) (o : Order)
    → IsSideValid s (levels s b)
    → IsIndexed b
    → makers s b ≡ ms ++ o ∷ ns
    → let (b', found) = cancel_order b o.id in
      (found ≡ some o)
      × (makers s b' ≡ ms ++ ns)
      × (levels (opposite s) b' ≡ levels (opposite s) b)
      × (b'.order_index ≡ erase o.id b.order_index)
cancel_order-makers s b ms ns o v x e =
    let (q, f) = find_resting s b ms ns o v x e in
    let k = levels-withdrawn s o.price o q b in
    let ids : DistinctIds (ms ++ o ∷ ns) = subst DistinctIds e (half s b x).own_ids in
    rw f.cancelled (
      refl,
      (ap (λ m. orders_of (sort_levels s m)) k.0
          ∙ orders_of-store_level s o.id o.price q (without q o (strip_id o.id q.orders))
              (levels s b) v f.level refl f.at
          ∙ ap (strip_id o.id) e
          ∙ strip_id-middle ms ns o ids),
      k.1,
      index-withdrawn s o.price o q b,
    )

strip_id-All {ℓ} : (P : Order → Type ℓ) (i : ℕ) (os : List Order) → All P os → All P (strip_id i os)
strip_id-All P i [] a = tt
strip_id-All P i (o ∷ os) a = elim (Bool-cases (o.id == i)) [
  | inl hit ↦ rw hit a.1
  | inr miss ↦ rw miss (a.0, strip_id-All P i os a.1)
]

-- Cancelling an order that rests on a valid side of an indexed book leaves the side valid: no
-- emptied level stays, and the totals of the level are the sums over the orders that are left.
pub cancel_order-IsSideValid :
    (s : Side) (b : OrderBook) (ms ns : List Order) (o : Order)
    → IsSideValid s (levels s b)
    → IsIndexed b
    → makers s b ≡ ms ++ o ∷ ns
    → IsSideValid s (levels s (cancel_order b o.id).0)
unfolding remove_by_id
cancel_order-IsSideValid s b ms ns o v x e =
    let (q, f) = find_resting s b ms ns o v x e in
    let lv = AllLevels-lookup s o.price q (levels s b) v.sound f.level in
    let rest = strip_id o.id q.orders in
    let accurate : IsAccurate (without q o rest) =
      subst (λ (w : OrderQueue). IsAccurate w) (rw (f.taken, remove_by_id) refl)
        (remove_by_id-IsAccurate q o.id lv.accurate) in
    rw (f.cancelled, (levels-withdrawn s o.price o q b).0)
      (store_level-IsSideValid s o.price (without q o rest) (levels s b) accurate
        (strip_id-All (IsResting s o.price) o.id q.orders lv.resting) v)
