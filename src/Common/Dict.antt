-- ===== src/Common/Dict.antt =====
-- A JavaScript `Map`: its entries in insertion order. `set` on a present key keeps the key's
-- place, and on a new key appends; `delete` drops the key.
use sur_protocol.Common.{
  ℕ, ◌+◌, suc, ◌≡◌, refl, Bool, Option, none, some, List, [], ◌∷◌, arith, if◌then◌else◌, Eq,
  is_some, length,
}

abbrev pub Dict {ℓ κ} : Type ℓ → Type κ → Type (ℓ ⊔ κ)
Dict K V = List (K × V)

module _ {ℓ κ} {K : Type ℓ} {V : Type κ} where
  -- `m.keys()`
  abbrev pub keys : Dict K V → List K
  keys [] = []
  keys ((j, w) ∷ m) = j ∷ keys m

module _ {ℓ κ} {K : Type ℓ} {V : Type κ} ⦃e : Eq K⦄ where
  -- `m.get(k)`
  abbrev pub lookup : K → Dict K V → Option V
  lookup k [] = none
  lookup k ((j, v) ∷ m) = if e.beq k j then some v else lookup k m

  -- `m.has(k)`
  abbrev pub has : K → Dict K V → Bool
  has k m = is_some (lookup k m)

  -- `m.set(k, v)`
  abbrev pub insert : K → V → Dict K V → Dict K V
  insert k v [] = (k, v) ∷ []
  insert k v ((j, w) ∷ m) = if e.beq k j then (j, v) ∷ m else (j, w) ∷ insert k v m

  -- `m.delete(k)`
  abbrev pub erase : K → Dict K V → Dict K V
  erase k [] = []
  erase k ((j, w) ∷ m) = if e.beq k j then m else (j, w) ∷ erase k m

  -- No key stands twice.
  abbrev pub Distinct : Dict K V → Type κ
  Distinct [] = Unit
  Distinct ((j, w) ∷ m) = (lookup j m ≡ none) × Distinct m

  pub lookup-insert :
      (k j : K) (v : V) (m : Dict K V)
      → lookup j (insert k v m) ≡ (if e.beq j k then some v else lookup j m)
  lookup-insert k j v [] = refl
  lookup-insert k j v ((i, w) ∷ m) =
      ground (arith, e.beq_iff k i, e.beq_iff j i, e.beq_iff j k, lookup-insert k j v m)

  pub lookup-erase :
      (k j : K) (m : Dict K V)
      → Distinct m
      → lookup j (erase k m) ≡ (if e.beq j k then none else lookup j m)
  lookup-erase k j [] d = ground arith
  lookup-erase k j ((i, w) ∷ m) d =
      ground (arith, e.beq_iff k i, e.beq_iff j i, e.beq_iff j k, lookup-erase k j m)

  pub insert-Distinct : (k : K) (v : V) (m : Dict K V) → Distinct m → Distinct (insert k v m)
  insert-Distinct k v [] d = (refl, tt)
  insert-Distinct k v ((i, w) ∷ m) d =
      ground (arith, insert-Distinct k v m, lookup-insert k i v m, e.beq_iff k i, e.beq_iff i k)

  pub erase-Distinct : (k : K) (m : Dict K V) → Distinct m → Distinct (erase k m)
  erase-Distinct k [] d = tt
  erase-Distinct k ((i, w) ∷ m) d =
      ground (arith, erase-Distinct k m, lookup-erase k i m, e.beq_iff k i, e.beq_iff i k)

  pub length-insert :
      (k : K) (v : V) (m : Dict K V)
      → length (insert k v m) ≡ (if has k m then length m else suc (length m))
  length-insert k v [] = refl
  length-insert k v ((i, w) ∷ m) = ground (arith, length-insert k v m)

  pub length-erase :
      (k : K) (m : Dict K V)
      → length m ≡ (if has k m then suc (length (erase k m)) else length (erase k m))
  length-erase k [] = refl
  length-erase k ((i, w) ∷ m) = ground (arith, length-erase k m)

  -- The sum of a number over the values.
  abbrev pub sum_values : (V → ℕ) → Dict K V → ℕ
  sum_values f [] = 0
  sum_values f ((j, w) ∷ m) = f w + sum_values f m

  pub sum_values-insert_new :
      (f : V → ℕ) (k : K) (v : V) (m : Dict K V)
      → lookup k m ≡ none
      → sum_values f (insert k v m) ≡ f v + sum_values f m
  sum_values-insert_new f k v [] h = refl
  sum_values-insert_new f k v ((i, w) ∷ m) h = ground (arith, sum_values-insert_new f k v m)

  pub sum_values-insert_present :
      (f : V → ℕ) (k : K) (v u : V) (m : Dict K V)
      → lookup k m ≡ some u
      → f u + sum_values f (insert k v m) ≡ f v + sum_values f m
  sum_values-insert_present f k v u [] h = absurd (ground arith)
  sum_values-insert_present f k v u ((i, w) ∷ m) h =
      ground (arith, sum_values-insert_present f k v u m)

  pub sum_values-erase :
      (f : V → ℕ) (k : K) (u : V) (m : Dict K V)
      → lookup k m ≡ some u
      → f u + sum_values f (erase k m) ≡ sum_values f m
  sum_values-erase f k u [] h = absurd (ground arith)
  sum_values-erase f k u ((i, w) ∷ m) h = ground (arith, sum_values-erase f k u m)
