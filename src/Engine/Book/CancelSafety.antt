-- ===== src/Engine/Book/CancelSafety.antt =====
-- `cancelOrder` of the book with any id.
use sur_protocol.Common.{
  ℕ, ◌≡◌, inl, inr, List, [], ◌∷◌, Option, none, some, Option-cases, Bool-cases, arith, All, nat_eq,
  int_eq,
}
use sur_protocol.Common.Dict.{lookup, erase}
use sur_protocol.Types.{Side, Order}
use sur_protocol.Engine.Queue.{OrderQueue, splice_id, remove_by_id, without}
use sur_protocol.Engine.Book.{
  OrderBook, IndexEntry, levels, set_levels, store_level, cancel_order, cancel_at, cancel_found,
}
use sur_protocol.Common.{ℤ, eqb_ℤ, subst, ◌++◌, All-append, All-append_left, All-append_right}
use sur_protocol.Common.Dict.{insert}
use sur_protocol.Engine.Queue.{is_empty}
use sur_protocol.Engine.Book.{Levels, better}
use sur_protocol.Engine.Book.Sorting.{insert_level, sort_levels}
use sur_protocol.Engine.Book.Makers.{orders_of}

-- The orders that are left of a queue after one is taken out by its id.
abbrev pub Leaves {ℓ} : (Order → Type ℓ) → Option (Order × List Order) → Type ℓ
Leaves P none = Unit
Leaves P (some (o, rest)) = P o × All P rest

pub splice_id-Leaves {ℓ} :
    (P : Order → Type ℓ) (i : ℕ) (os : List Order) → All P os → Leaves P (splice_id i os)
splice_id-Leaves P i [] a = tt
splice_id-Leaves P i (o ∷ os) a = ground (arith, a.0, splice_id-Leaves P i os a.1)

-- What a cancellation does: nothing, or it takes an order out of a level.
pub data Cancelled (b : OrderBook) (i : ℕ) : OrderBook × Option Order → Type 0 where
  absent : Cancelled b i (b, none)
  taken :
      (s : Side) (p : ℤ) (q : OrderQueue) (o : Order) (rest : List Order)
      → lookup p (levels s b) ≡ some q
      → splice_id i q.orders ≡ some (o, rest)
      → Cancelled b i (
        record (set_levels s (store_level p (without q o rest) (levels s b)) b) {
          order_index = erase i b.order_index;
        },
        some o,
      )

Cancelled-found :
    (b : OrderBook) (i : ℕ) (e : IndexEntry) (q : OrderQueue)
    → lookup e.price (levels e.side b) ≡ some q
    → Cancelled b i (cancel_found i e b (remove_by_id q i))
unfolding remove_by_id
Cancelled-found b i e q l = elim (Option-cases (splice_id i q.orders)) [
  | inl gone ↦ rw (gone, remove_by_id) absent
  | inr ((o, rest), found) ↦ rw (found, remove_by_id) (taken e.side e.price q o rest l found)
]

pub cancel_order-Cancelled : (b : OrderBook) (i : ℕ) → Cancelled b i (cancel_order b i)
unfolding cancel_order
cancel_order-Cancelled b i = elim (Option-cases (lookup i b.order_index)) [
  | inl missing ↦ rw (missing, cancel_order) absent
  | inr (e, known) ↦
      rw (known, cancel_order)
        (elim (Option-cases (lookup e.price (levels e.side b))) [
          | inl missing ↦ rw (missing, cancel_at) absent
          | inr (q, l) ↦ rw (l, cancel_at) (Cancelled-found b i e q l)
        ])
]

-- What holds of every order of some levels.
module _ {ℓ} (P : Order → Type ℓ) where
  All-insert_level :
      (s : Side) (p : ℤ) (q : OrderQueue) (l : Levels)
      → All P q.orders
      → All P (orders_of l)
      → All P (orders_of (insert_level s p q l))
  All-insert_level s p q [] h a = All-append P q.orders [] h tt
  All-insert_level s p q ((r, w) ∷ l) h a = elim (Bool-cases (better s p r)) [
    | inl first ↦ rw first (All-append P q.orders (w.orders ++ orders_of l) h a)
    | inr behind ↦ rw behind (
        All-append P w.orders (orders_of (insert_level s p q l))
          (All-append_left P w.orders (orders_of l) a)
          (All-insert_level s p q l h (All-append_right P w.orders (orders_of l) a)))
  ]

  All-sort_levels :
      (s : Side) (m : Levels) → All P (orders_of m) → All P (orders_of (sort_levels s m))
  All-sort_levels s [] a = tt
  All-sort_levels s ((p, q) ∷ m) a =
      All-insert_level s p q (sort_levels s m) (All-append_left P q.orders (orders_of m) a)
        (All-sort_levels s m (All-append_right P q.orders (orders_of m) a))

  All-of_insert_level :
      (s : Side) (p : ℤ) (q : OrderQueue) (l : Levels)
      → All P (orders_of (insert_level s p q l))
      → All P q.orders × All P (orders_of l)
  All-of_insert_level s p q [] a = (All-append_left P q.orders [] a, tt)
  All-of_insert_level s p q ((r, w) ∷ l) a = elim (Bool-cases (better s p r)) [
    | inl first ↦
        let a' : All P (q.orders ++ (w.orders ++ orders_of l)) = rw first at a in
        (
          All-append_left P q.orders (w.orders ++ orders_of l) a',
          All-append_right P q.orders (w.orders ++ orders_of l) a',
        )
    | inr behind ↦
        let a' : All P (w.orders ++ orders_of (insert_level s p q l)) = rw behind at a in
        let k =
          All-of_insert_level s p q l
            (All-append_right P w.orders (orders_of (insert_level s p q l)) a') in
        (
          k.0,
          All-append P w.orders (orders_of l)
              (All-append_left P w.orders (orders_of (insert_level s p q l)) a') k.1,
        )
  ]

  All-of_sort_levels :
      (s : Side) (m : Levels) → All P (orders_of (sort_levels s m)) → All P (orders_of m)
  All-of_sort_levels s [] a = tt
  All-of_sort_levels s ((p, q) ∷ m) a =
      let k = All-of_insert_level s p q (sort_levels s m) a in
      All-append P q.orders (orders_of m) k.0 (All-of_sort_levels s m k.1)

  All-lookup :
      (p : ℤ) (q : OrderQueue) (m : Levels)
      → All P (orders_of m)
      → lookup p m ≡ some q
      → All P q.orders
  All-lookup p q [] a e = absurd (ground arith)
  All-lookup p q ((r, w) ∷ m) a e = elim (Bool-cases (eqb_ℤ p r)) [
    | inl here ↦
        let same : w ≡ q = ground (arith, here, e) in
        subst (λ (x : OrderQueue). All P x.orders) same (All-append_left P w.orders (orders_of m) a)
    | inr below ↦
        All-lookup p q m (All-append_right P w.orders (orders_of m) a) (ground (arith, below, e))
  ]

  All-insert :
      (p : ℤ) (q : OrderQueue) (m : Levels)
      → All P q.orders
      → All P (orders_of m)
      → All P (orders_of (insert p q m))
  All-insert p q [] h a = All-append P q.orders [] h tt
  All-insert p q ((r, w) ∷ m) h a = elim (Bool-cases (eqb_ℤ p r)) [
    | inl here ↦
        rw here
          (All-append P q.orders (orders_of m) h (All-append_right P w.orders (orders_of m) a))
    | inr below ↦ rw below (
        All-append P w.orders (orders_of (insert p q m))
          (All-append_left P w.orders (orders_of m) a)
          (All-insert p q m h (All-append_right P w.orders (orders_of m) a)))
  ]

  All-erase : (p : ℤ) (m : Levels) → All P (orders_of m) → All P (orders_of (erase p m))
  All-erase p [] a = tt
  All-erase p ((r, w) ∷ m) a = elim (Bool-cases (eqb_ℤ p r)) [
    | inl here ↦ rw here (All-append_right P w.orders (orders_of m) a)
    | inr below ↦ rw below (
        All-append P w.orders (orders_of (erase p m)) (All-append_left P w.orders (orders_of m) a)
          (All-erase p m (All-append_right P w.orders (orders_of m) a)))
  ]

  All-store_level :
      (p : ℤ) (q : OrderQueue) (m : Levels)
      → All P q.orders
      → All P (orders_of m)
      → All P (orders_of (store_level p q m))
  All-store_level p q m h a = elim (Bool-cases (is_empty q)) [
    | inl gone ↦ rw (gone, store_level) (All-erase p m a)
    | inr stays ↦ rw (stays, store_level) (All-insert p q m h a)
  ]

  -- What holds of all orders of a side holds of those that are left.
  pub All-left :
      (s : Side) (p : ℤ) (q : OrderQueue) (i : ℕ) (o : Order) (rest : List Order) (m : Levels)
      → lookup p m ≡ some q
      → splice_id i q.orders ≡ some (o, rest)
      → All P (orders_of (sort_levels s m))
      → All P (orders_of (sort_levels s (store_level p (without q o rest) m)))
  All-left s p q i o rest m l f a =
      let b = All-of_sort_levels s m a in
      let k = subst (Leaves P) f (splice_id-Leaves P i q.orders (All-lookup p q m b l)) in
      All-sort_levels s (store_level p (without q o rest) m)
        (All-store_level p (without q o rest) m k.1 b)
