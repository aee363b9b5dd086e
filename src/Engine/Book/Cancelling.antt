-- ===== src/Engine/Book/Cancelling.antt =====
-- `cancelOrder` of the book against the list of resting orders.
use sur_protocol.Common.{
  ℕ, ℤ, eqb_ℤ, eqb_ℤ_iff, true, false, Bool-cases, ◌≡◌, refl, sym, ap, ◌∙◌, subst, inl, inr, List,
  [], ◌∷◌, ◌++◌, Option, none, some, arith, if◌then◌else◌, ◌==◌, ==_iff, All, All-append,
  All-append_left, All-append_right, nat_eq, int_eq,
}
use sur_protocol.Common.Dict.{Dict, lookup, insert, erase}
use sur_protocol.Types.{Side, Order}
use sur_protocol.Engine.Queue.{OrderQueue, splice_id, is_empty, no_orders}
use sur_protocol.Engine.Book.{Levels, IndexEntry, store_level}
use sur_protocol.Engine.Book.Sorting.{
  Sorted, sort_levels, lookup-sort_levels, sort_levels-Sorted, sort_levels-insert_present,
  sort_levels-erase, lookup-Before,
}
use sur_protocol.Engine.Book.Validity.{IsResting, AllLevels, IsSideValid, AllLevels-sort_levels}
use sur_protocol.Engine.Book.Makers.{orders_of}
use sur_protocol.Engine.Book.Index.{Without, Indexed}

-- The first order with an id, and a list without it.
abbrev pub find_id : ℕ → List Order → Option Order
find_id i [] = none
find_id i (o ∷ os) = if o.id == i then some o else find_id i os

abbrev pub strip_id : ℕ → List Order → List Order
strip_id i [] = []
strip_id i (o ∷ os) = if o.id == i then os else o ∷ strip_id i os

pub splice_id-found :
    (i : ℕ) (os : List Order) (o : Order)
    → find_id i os ≡ some o
    → splice_id i os ≡ some (o, strip_id i os)
splice_id-found i [] o e = absurd (ground arith)
splice_id-found i (x ∷ os) o e = ground (arith, splice_id-found i os o)

pub find_id-skip : (i : ℕ) (xs ys : List Order) → Without i xs → find_id i (xs ++ ys) ≡ find_id i ys
find_id-skip i [] ys w = refl
find_id-skip i (x ∷ xs) ys w = ground (arith, w.0, find_id-skip i xs ys w.1)

pub strip_id-skip :
    (i : ℕ) (xs ys : List Order) → Without i xs → strip_id i (xs ++ ys) ≡ xs ++ strip_id i ys
strip_id-skip i [] ys w = refl
strip_id-skip i (x ∷ xs) ys w = ground (arith, w.0, strip_id-skip i xs ys w.1)

pub find_id-Without : (i : ℕ) (xs : List Order) → Without i xs → find_id i xs ≡ none
find_id-Without i [] w = refl
find_id-Without i (x ∷ xs) w = ground (arith, w.0, find_id-Without i xs w.1)

strip_id-Without : (i : ℕ) (xs : List Order) → Without i xs → strip_id i xs ≡ xs
strip_id-Without i [] w = refl
strip_id-Without i (x ∷ xs) w = ground (arith, w.0, strip_id-Without i xs w.1)

find_id-stop : (i : ℕ) (xs ys : List Order) → Without i ys → find_id i (xs ++ ys) ≡ find_id i xs
find_id-stop i [] ys w = find_id-Without i ys w
find_id-stop i (x ∷ xs) ys w = ground (arith, find_id-stop i xs ys w)

strip_id-stop :
    (i : ℕ) (xs ys : List Order) → Without i ys → strip_id i (xs ++ ys) ≡ strip_id i xs ++ ys
strip_id-stop i [] ys w = strip_id-Without i ys w
strip_id-stop i (x ∷ xs) ys w = ground (arith, strip_id-stop i xs ys w)

-- An order with the id `i` can only be at the price `p`.
abbrev pub IsAtPrice : ℕ → ℤ → Order → Type 0
IsAtPrice i p o = (o.id == i) ≡ true → o.price ≡ p

abbrev pub AtPrice : ℕ → ℤ → List Order → Type 0
AtPrice i p os = All (IsAtPrice i p) os

Without-elsewhere :
    (s : Side) (i : ℕ) (p r : ℤ) (os : List Order)
    → eqb_ℤ p r ≡ false
    → All (IsResting s r) os
    → AtPrice i p os
    → Without i os
Without-elsewhere s i p r [] ne a h = tt
Without-elsewhere s i p r (o ∷ os) ne a h =
    (ground (arith, h.0, a.0.price, eqb_ℤ_iff p r), Without-elsewhere s i p r os ne a.1 h.1)

pub Without-absent :
    (s : Side) (i : ℕ) (p : ℤ) (l : Levels)
    → AllLevels s l
    → AtPrice i p (orders_of l)
    → lookup p l ≡ none
    → Without i (orders_of l)
Without-absent s i p [] a h e = tt
Without-absent s i p ((r, w) ∷ l) a h e =
    let ne : eqb_ℤ p r ≡ false = ground arith in
    All-append (λ (o : Order). (o.id == i) ≡ false) w.orders (orders_of l)
      (Without-elsewhere s i p r w.orders ne a.0.resting
        (All-append_left (IsAtPrice i p) w.orders (orders_of l) h))
      (Without-absent s i p l a.1 (All-append_right (IsAtPrice i p) w.orders (orders_of l) h)
        (ground (arith, ne, e)))

-- Where the order with an id is, among the sorted levels.
pub record IsLocated (i : ℕ) (p : ℤ) (q : OrderQueue) (l : Levels) : Type 0 where
  pub found : find_id i (orders_of l) ≡ find_id i q.orders
  replaced :
      (w : OrderQueue)
      → w.orders ≡ strip_id i q.orders
      → orders_of (insert p w l) ≡ strip_id i (orders_of l)
  removed : strip_id i q.orders ≡ [] → orders_of (erase p l) ≡ strip_id i (orders_of l)

pub locate :
    (s : Side) (i : ℕ) (p : ℤ) (q : OrderQueue) (l : Levels)
    → AllLevels s l
    → Sorted s l
    → AtPrice i p (orders_of l)
    → lookup p l ≡ some q
    → IsLocated i p q l
locate s i p q [] a d h e = absurd (ground arith)
locate s i p q ((r, w) ∷ l) a d h e = elim (Bool-cases (eqb_ℤ p r)) [
  | inl here ↦
      let e' : w ≡ q = ground (arith, here, e) in
      let same : p ≡ r = (eqb_ℤ_iff p r).0 here in
      let empty : lookup p l ≡ none =
        subst (λ x. lookup x l ≡ none) (sym same) (lookup-Before s r l d.0) in
      let rest =
        Without-absent s i p l a.1 (All-append_right (IsAtPrice i p) w.orders (orders_of l) h)
          empty in
      subst (λ x. IsLocated i p x ((r, w) ∷ l)) e'
        (record {
          found = find_id-stop i w.orders (orders_of l) rest;
          replaced = λ v ev.
              rw here (
                ap (λ os. os ++ orders_of l) ev
                ∙ sym (strip_id-stop i w.orders (orders_of l) rest));
          removed = λ gone. rw here (
              sym
                (strip_id-stop i w.orders (orders_of l) rest ∙ ap (λ os. os ++ orders_of l) gone));
        })
  | inr below ↦
      let t =
        locate s i p q l a.1 d.1 (All-append_right (IsAtPrice i p) w.orders (orders_of l) h)
          (ground (arith, below, e)) in
      let clear =
        Without-elsewhere s i p r w.orders below a.0.resting
          (All-append_left (IsAtPrice i p) w.orders (orders_of l) h) in
      record {
        found = find_id-skip i w.orders (orders_of l) clear ∙ t.found;
        replaced = λ v ev. rw below (
            ap (λ os. w.orders ++ os) (t.replaced v ev)
            ∙ sym (strip_id-skip i w.orders (orders_of l) clear));
        removed = λ gone. rw below (
            ap (λ os. w.orders ++ os) (t.removed gone)
            ∙ sym (strip_id-skip i w.orders (orders_of l) clear));
      }
]

-- An indexed order is at its price.
pub Indexed-AtPrice :
    (s : Side) (i : ℕ) (p : ℤ) (idx : Dict ℕ IndexEntry) (ms : List Order)
    → lookup i idx ≡ some (record { side = s; price = p })
    → Indexed s idx ms
    → AtPrice i p ms
Indexed-AtPrice s i p idx [] e h = tt
Indexed-AtPrice s i p idx (m ∷ ms) e h =
    ((λ same. ground (arith, e, h.0, ==_iff m.id i, same)), Indexed-AtPrice s i p idx ms e h.1)

no_orders_lem : (os : List Order) → no_orders os ≡ true → os ≡ []
no_orders_lem [] e = refl
no_orders_lem (o ∷ os) e = absurd (ground arith)

pub orders_of-store_level :
    (s : Side) (i : ℕ) (p : ℤ) (q w : OrderQueue) (m : Levels)
    → IsSideValid s m
    → lookup p m ≡ some q
    → w.orders ≡ strip_id i q.orders
    → AtPrice i p (orders_of (sort_levels s m))
    → orders_of (sort_levels s (store_level p w m)) ≡ strip_id i (orders_of (sort_levels s m))
unfolding is_empty
orders_of-store_level s i p q w m v e ew h =
    let t =
      locate s i p q (sort_levels s m) (AllLevels-sort_levels s m v.sound)
        (sort_levels-Sorted s m v.distinct) h (lookup-sort_levels s p m v.distinct ∙ e) in
    elim (Bool-cases (no_orders w.orders)) [
      | inl gone ↦
          rw (gone, store_level)
            (ap orders_of (sort_levels-erase s p m v.distinct)
              ∙ t.removed (sym ew ∙ no_orders_lem w.orders gone))
      | inr kept ↦
          rw (kept, store_level)
            (ap orders_of (sort_levels-insert_present s p w q m v.distinct e) ∙ t.replaced w ew)
    ]
