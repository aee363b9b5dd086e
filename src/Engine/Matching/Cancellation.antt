-- ===== src/Engine/Matching/Cancellation.antt =====
-- `cancelOrder` of the engine with any id: what it keeps.
use sur_protocol.Common.{
  ℕ, ℤ, ◌<ℤ◌, ◌≡◌, refl, subst, List, Option, some, All, All-map, nat_eq, int_eq,
}
use sur_protocol.Common.Dict.{lookup}
use sur_protocol.Types.{Side, Order}
use sur_protocol.Engine.Queue.{OrderQueue, splice_id, remove_by_id, without}
use sur_protocol.Engine.Queue.Accounting.{IsAccurate, remove_by_id-IsAccurate}
use sur_protocol.Engine.Book.{OrderBook, levels, store_level}
use sur_protocol.Engine.Book.Validity.{
  IsResting, IsSideValid, AllLevels-lookup, store_level-IsSideValid,
}
use sur_protocol.Engine.Book.Makers.{makers}
use sur_protocol.Engine.Book.CancelSafety.{
  Cancelled, absent, taken, cancel_order-Cancelled, All-left, Leaves, splice_id-Leaves,
}
use sur_protocol.Engine.Matching.Execution.{IsBookValid}
use sur_protocol.Engine.Matching.Uncrossed.{IsUncrossed}
use sur_protocol.Engine.Matching.{MatchingEngine, cancel}

taken-IsSideValid :
    (s : Side) (b : OrderBook) (i : ℕ) (p : ℤ) (q : OrderQueue) (o : Order) (rest : List Order)
    → lookup p (levels s b) ≡ some q
    → splice_id i q.orders ≡ some (o, rest)
    → IsSideValid s (levels s b)
    → IsSideValid s (store_level p (without q o rest) (levels s b))
unfolding remove_by_id
taken-IsSideValid s b i p q o rest l f v =
    let lv = AllLevels-lookup s p q (levels s b) v.sound l in
    let k =
      subst (Leaves (IsResting s p)) f (splice_id-Leaves (IsResting s p) i q.orders lv.resting) in
    let accurate : IsAccurate (without q o rest) =
      subst IsAccurate (rw (f, remove_by_id) refl) (remove_by_id-IsAccurate q i lv.accurate) in
    store_level-IsSideValid s p (without q o rest) (levels s b) accurate k.1 v

Cancelled-IsBookValid :
    {b : OrderBook} {i : ℕ} {r : OrderBook × Option Order}
    → Cancelled b i r
    → IsBookValid b
    → IsBookValid r.0
Cancelled-IsBookValid absent v = v
Cancelled-IsBookValid {b} {i} (taken Side.buy p q o rest l f) v = record {
  bids = taken-IsSideValid Side.buy b i p q o rest l f v.bids;
  asks = v.asks;
}
Cancelled-IsBookValid {b} {i} (taken Side.sell p q o rest l f) v = record {
  bids = v.bids;
  asks = taken-IsSideValid Side.sell b i p q o rest l f v.asks;
}

Cancelled-IsUncrossed :
    {b : OrderBook} {i : ℕ} {r : OrderBook × Option Order}
    → Cancelled b i r
    → IsUncrossed b
    → IsUncrossed r.0
Cancelled-IsUncrossed absent u = u
Cancelled-IsUncrossed {b} {i} (taken Side.buy p q o rest l f) u =
    All-left (λ (x : Order). All (λ (y : Order). x.price <ℤ y.price) (makers Side.sell b)) Side.buy
      p q i o rest b.bids l f u
Cancelled-IsUncrossed {b} {i} (taken Side.sell p q o rest l f) u =
    All-map
      (λ (x : Order) h.
        All-left (λ (y : Order). x.price <ℤ y.price) Side.sell p q i o rest b.asks l f h)
      (makers Side.buy b) u

-- Cancelling with any id, known or not, keeps a book valid.
pub cancel-IsBookValid :
    (g : MatchingEngine) (i : ℕ) → IsBookValid g.book → IsBookValid (cancel g i).0.book
unfolding cancel
cancel-IsBookValid g i v = Cancelled-IsBookValid (cancel_order-Cancelled g.book i) v

-- Cancelling with any id, known or not, keeps every bid below every ask.
pub cancel-IsUncrossed :
    (g : MatchingEngine) (i : ℕ) → IsUncrossed g.book → IsUncrossed (cancel g i).0.book
unfolding cancel
cancel-IsUncrossed g i u = Cancelled-IsUncrossed (cancel_order-Cancelled g.book i) u
