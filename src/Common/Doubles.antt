-- ===== src/Common/Doubles.antt =====
-- What the models use of JavaScript's numbers where they are floating-point: operations on a carrier
-- `F`. The operations are parameters; nothing is assumed of them but what a theorem names.
use sur_protocol.Common.{
  ◌+◌, ◌-◌, ◌*◌, ◌/◌, leb, ltb, ◌==◌, arith, ℕ, Bool, true, ◌≡◌, Option, none, some, List, [], ◌∷◌,
  if◌then◌else◌,
}

pub record Double (F : Type 0) : Type 0 where
  pub nan : F
  pub of_nat : ℕ → F
  pub add : F → F → F
  pub sub : F → F → F
  pub mul : F → F → F
  pub div : F → F → F
  pub abs : F → F
  pub min : F → F → F
  pub max : F → F → F
  pub leb : F → F → Bool
  pub ltb : F → F → Bool
  pub is_falsy : F → Bool

module _ {F : Type 0} ⦃d : Double F⦄ where
  -- A field that is missing takes part in arithmetic as NaN.
  abbrev pub or_nan : Option F → F
  or_nan none = d.nan
  or_nan (some x) = x

  -- `a || b`
  abbrev pub or_else : Option F → F → F
  or_else none y = y
  or_else (some x) y = if d.is_falsy x then y else x

  -- `xs.reduce((s, x) => s + x, 0)`
  abbrev pub sum_from : F → List F → F
  sum_from s [] = s
  sum_from s (x ∷ xs) = sum_from (d.add s x) xs

-- The comparisons of floating-point numbers chain, also where one of them is NaN, and a minimum above
-- some number, which NaN is not, is at most either of the two.
pub record IsOrdered {F : Type 0} (d : Double F) : Type 0 where
  pub trans : (x y z : F) → d.leb x y ≡ true → d.leb y z ≡ true → d.leb x z ≡ true
  pub min_le : (w x y : F) → d.ltb w (d.min x y) ≡ true → d.leb (d.min x y) x ≡ true
  pub min_le_right : (w x y : F) → d.ltb w (d.min x y) ≡ true → d.leb (d.min x y) y ≡ true

-- Whole numbers, with the division that rounds down: an instance to run the models with.
instance abbrev pub whole : Double ℕ
whole = record {
  nan = 0;
  of_nat = λ n. n;
  add = λ x y. x + y;
  sub = λ x y. x - y;
  mul = λ x y. x * y;
  div = λ x y. x / y;
  abs = λ x. x;
  min = λ x y. if leb x y then x else y;
  max = λ x y. if leb x y then y else x;
  leb = leb;
  ltb = ltb;
  is_falsy = λ x. x == 0;
}

pub whole-IsOrdered : IsOrdered whole
whole-IsOrdered = record {
  trans = λ x y z h k. ground (arith, h, k);
  min_le = λ w x y h. ground (arith, h);
  min_le_right = λ w x y h. ground (arith, h);
}
