-- ===== src/Engine/Book/Depth.antt =====
-- The public view of a side: `topBids` and `topAsks` list its levels from the best on.
use sur_protocol.Common.{
  ℕ, ◌≤◌, ℤ, eqb_ℤ_iff, ◌≡◌, refl, sym, ap, ◌∙◌, List, [], ◌∷◌, some, arith, ltb, keep, take,
  sum_by, int_eq,
}
use sur_protocol.Common.Dict.{lookup, keys}
use sur_protocol.Types.{Side, Order, PriceLevel}
use sur_protocol.Engine.Queue.{OrderQueue, visible_part, visible_count}
use sur_protocol.Engine.Queue.Accounting.{IsAccurate}
use sur_protocol.Engine.Book.{
  Levels, OrderBook, levels, sorted_prices, queue_at, level_view, level_views, top_levels,
}
use sur_protocol.Engine.Book.Sorting.{
  Before, Sorted, sort_levels, keys-sort_levels, lookup-sort_levels, sort_levels-Sorted, better_ne,
}
use sur_protocol.Engine.Book.Validity.{IsSideValid}

-- A level as it is shown.
abbrev pub shown : ℤ → OrderQueue → PriceLevel
shown p q = record { price = p; total_size = q.visible_size; order_count = visible_count q }

abbrev pub views_of : Levels → List PriceLevel
views_of [] = []
views_of ((p, q) ∷ l) = shown p q ∷ views_of l

abbrev Found : Levels → Levels → Type 0
Found m [] = Unit
Found m ((p, q) ∷ l) = (lookup p m ≡ some q) × Found m l

Found-cons :
    (s : Side) (p : ℤ) (q : OrderQueue) (m l : Levels)
    → Before s p l
    → Found m l
    → Found ((p, q) ∷ m) l
Found-cons s p q m [] b f = tt
Found-cons s p q m ((r, w) ∷ l) b f =
    ground (arith, better_ne s p r b.0, eqb_ℤ_iff r p, eqb_ℤ_iff p r, Found-cons s p q m l b.1)

Found-self : (s : Side) (l : Levels) → Sorted s l → Found l l
Found-self s [] d = tt
Found-self s ((p, q) ∷ l) d =
    (ground (arith, eqb_ℤ_iff p p), Found-cons s p q l l d.0 (Found-self s l d.1))

Found-trans : (m n l : Levels) → ((p : ℤ) → lookup p m ≡ lookup p n) → Found n l → Found m l
Found-trans m n [] h f = tt
Found-trans m n ((p, q) ∷ l) h f = (h p ∙ f.0, Found-trans m n l h f.1)

level_views-keys : (m l : Levels) → Found m l → level_views m (keys l) ≡ views_of l
unfolding level_views level_view
level_views-keys m [] f = refl
level_views-keys m ((p, q) ∷ l) f =
    rw (f.0, queue_at) (ap (◌∷◌ (shown p q)) (level_views-keys m l f.1))

-- On a valid side the view shows the levels with something visible, from the best on.
pub top_levels-eq-views_of :
    (s : Side) (b : OrderBook) (n : ℕ)
    → IsSideValid s (levels s b)
    → top_levels s b n
      ≡ take n (keep (λ l. ltb 0 l.total_size) (views_of (sort_levels s (levels s b))))
unfolding top_levels sorted_prices
top_levels-eq-views_of s b n v =
    let m = levels s b in
    let found : Found m (sort_levels s m) =
      Found-trans m (sort_levels s m) (sort_levels s m)
        (λ p. sym (lookup-sort_levels s p m v.distinct))
        (Found-self s (sort_levels s m) (sort_levels-Sorted s m v.distinct)) in
    rw (← keys-sort_levels s m, level_views-keys m (sort_levels s m) found) refl

visible-le :
    (os : List Order)
    → sum_by (λ o. visible_part o o.remaining) os ≤ sum_by (λ (o : Order). o.remaining) os
visible-le [] = omega arith
visible-le (o ∷ os) = ground (arith, visible-le os)

-- What is shown of a level is at most what it holds.
pub visible-le-total :
    (q : OrderQueue) → IsAccurate q → q.visible_size ≤ sum_by (λ (o : Order). o.remaining) q.orders
visible-le-total q a = omega (arith, visible-le q.orders, a.visible)
