-- ===== src/Engine/Matching/Sweep.antt =====
-- Matching as one pass over a list of orders: the specification of `matchOrder`, without the book.
use sur_protocol.Common.{
  ℕ, suc, ◌+◌, ◌-◌, ◌≤◌, ◌<◌, ℤ, Bool, true, false, ◌≡◌, refl, inr, sum_by, ◌⊎◌, List, [], ◌∷◌,
  arith, if◌then◌else◌, leb, ltb, All,
}
use sur_protocol.Types.{Order, OrderStatus, Trade}

-- A fill of a maker by a quantity.
pub record Fill : Type 0 where
  pub maker : Order
  pub qty : ℕ

pub record Swept : Type 0 where
  pub rest : List Order
  pub left : ℕ
  pub fills : List Fill

-- Take from the orders in turn, until nothing is left to fill or a price is refused.
unfoldable pub sweep : (ℤ → Bool) → ℕ → List Order → Swept
sweep refused left [] = record { rest = []; left = left; fills = [] }
sweep refused left (m ∷ ms) =
    let r = sweep refused (left - m.remaining) ms in
    if leb left 0
    then record { rest = m ∷ ms; left = left; fills = [] }
    else if refused m.price
    then record { rest = m ∷ ms; left = left; fills = [] }
    else if ltb left m.remaining
    then record {
      rest =
          record m { remaining = m.remaining - left; status = OrderStatus.partially_filled } ∷ ms;
      left = 0;
      fills = record { maker = m; qty = left } ∷ [];
    }
    else record r { fills = record { maker = m; qty = m.remaining } ∷ r.fills }

-- The trades of the fills, numbered from k.
abbrev pub trades_of : (ℕ → Order → ℕ → Trade) → ℕ → List Fill → List Trade
trades_of mk k [] = []
trades_of mk k (f ∷ fs) = mk k f.maker f.qty ∷ trades_of mk (suc k) fs

abbrev pub filled : List Fill → ℕ
filled fs = sum_by (λ (f : Fill). f.qty) fs

-- What is filled of the taker is what its trades sum to, and the makers lose as much.
pub sweep_conserves :
    (refused : ℤ → Bool) (left : ℕ) (ms : List Order)
    → let w = sweep refused left ms in
      (w.left + filled w.fills ≡ left)
      × (sum_by (λ (o : Order). o.remaining) w.rest + filled w.fills
          ≡ sum_by (λ (o : Order). o.remaining) ms)
unfolding sweep
sweep_conserves refused left [] = (omega arith, omega arith)
sweep_conserves refused left (m ∷ ms) =
    ground (arith, sweep_conserves refused (left - m.remaining) ms)

-- No fill is at a price that the taker refuses, none is empty, and none is more than the maker has.
pub record IsFair (refused : ℤ → Bool) (f : Fill) : Type 0 where
  pub accepted : refused f.maker.price ≡ false
  pub some_filled : 0 < f.qty
  pub within : f.qty ≤ f.maker.remaining

pub sweep-IsFair :
    (refused : ℤ → Bool) (left : ℕ) (ms : List Order)
    → All (λ (o : Order). 0 < o.remaining) ms
    → All (IsFair refused) (sweep refused left ms).fills
unfolding sweep
sweep-IsFair refused left [] h = tt
sweep-IsFair refused left (m ∷ ms) h =
    ground (arith, sweep-IsFair refused (left - m.remaining) ms h.1)

-- The sweep ends because the taker is filled, the orders are used up, or the next price is refused.
abbrev pub Blocked : (ℤ → Bool) → List Order → Type 0
Blocked refused [] = Unit
Blocked refused (m ∷ ms) = refused m.price ≡ true

pub sweep_completes :
    (refused : ℤ → Bool) (left : ℕ) (ms : List Order)
    → let w = sweep refused left ms in (w.left ≡ 0) ⊎ Blocked refused w.rest
unfolding sweep
sweep_completes refused left [] = inr tt
sweep_completes refused left (m ∷ ms) =
    ground (arith, sweep_completes refused (left - m.remaining) ms)

-- Orders are served in their turn: the makers that traded are the first of the list, and every one
-- of them but the last is filled whole.
abbrev pub InTurn : List Fill → List Order → Type 0
InTurn [] ms = Unit
InTurn (f ∷ fs) [] = ⊥
InTurn (f ∷ []) (m ∷ ms) = f.maker ≡ m
InTurn (f ∷ g ∷ fs) (m ∷ ms) = (f.maker ≡ m) × (f.qty ≡ m.remaining) × InTurn (g ∷ fs) ms

InTurn-cons :
    (m : Order) (ms : List Order) (fs : List Fill)
    → InTurn fs ms
    → InTurn (record { maker = m; qty = m.remaining } ∷ fs) (m ∷ ms)
InTurn-cons m ms [] h = refl
InTurn-cons m ms (f ∷ fs) h = (refl, refl, h)

pub sweep-InTurn :
    (refused : ℤ → Bool) (left : ℕ) (ms : List Order) → InTurn (sweep refused left ms).fills ms
unfolding sweep
sweep-InTurn refused left [] = tt
sweep-InTurn refused left (m ∷ ms) = ground (
  arith,
  InTurn-cons m ms (sweep refused (left - m.remaining) ms).fills
      (sweep-InTurn refused (left - m.remaining) ms),
)

-- What holds of the prices of all orders holds of the prices of those that are left.
pub sweep-All {ℓ} :
    (P : ℤ → Type ℓ) (refused : ℤ → Bool) (left : ℕ) (ms : List Order)
    → All (λ (m : Order). P m.price) ms
    → All (λ (m : Order). P m.price) (sweep refused left ms).rest
unfolding sweep
sweep-All P refused left [] h = tt
sweep-All P refused left (m ∷ ms) h =
    ground (arith, sweep-All P refused (left - m.remaining) ms h.1)
