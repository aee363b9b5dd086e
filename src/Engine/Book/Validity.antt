-- ===== src/Engine/Book/Validity.antt =====
-- What holds of the levels of one side, and how the updates of the map keep it.
use sur_protocol.Common.{
  ◌<◌, ℤ, eqb_ℤ_iff, false, ◌≡◌, Bool-cases, inl, inr, [], ◌∷◌, some, arith, All, int_eq,
}
use sur_protocol.Common.Dict.{lookup, insert, erase, Distinct, insert-Distinct, erase-Distinct}
use sur_protocol.Types.{Side, Order}
use sur_protocol.Engine.Queue.{OrderQueue, is_empty}
use sur_protocol.Engine.Queue.Accounting.{IsAccurate}
use sur_protocol.Engine.Book.{Levels, store_level}
use sur_protocol.Engine.Book.Sorting.{insert_level, sort_levels}

-- An order that rests at a price of a side, with something left to fill.
pub record IsResting (s : Side) (p : ℤ) (o : Order) : Type 0 where
  pub side : o.side ≡ s
  pub price : o.price ≡ p
  pub left : 0 < o.remaining

-- A level has orders, its totals are right, and its orders rest there.
pub record IsLevel (s : Side) (p : ℤ) (q : OrderQueue) : Type 0 where
  pub occupied : is_empty q ≡ false
  pub accurate : IsAccurate q
  pub resting : All (IsResting s p) q.orders

abbrev pub AllLevels : Side → Levels → Type 0
AllLevels s [] = Unit
AllLevels s ((p, q) ∷ m) = IsLevel s p q × AllLevels s m

pub record IsSideValid (s : Side) (m : Levels) : Type 0 where
  pub distinct : Distinct m
  pub sound : AllLevels s m

AllLevels-insert_level :
    (s : Side) (p : ℤ) (q : OrderQueue) (m : Levels)
    → IsLevel s p q
    → AllLevels s m
    → AllLevels s (insert_level s p q m)
AllLevels-insert_level s p q [] h a = (h, tt)
AllLevels-insert_level s p q ((r, w) ∷ m) h a = ground (arith, AllLevels-insert_level s p q m h)

pub AllLevels-sort_levels : (s : Side) (m : Levels) → AllLevels s m → AllLevels s (sort_levels s m)
AllLevels-sort_levels s [] a = tt
AllLevels-sort_levels s ((p, q) ∷ m) a =
    AllLevels-insert_level s p q (sort_levels s m) a.0 (AllLevels-sort_levels s m a.1)

pub AllLevels-lookup :
    (s : Side) (p : ℤ) (q : OrderQueue) (m : Levels)
    → AllLevels s m
    → lookup p m ≡ some q
    → IsLevel s p q
AllLevels-lookup s p q [] a e = absurd (ground arith)
AllLevels-lookup s p q ((r, w) ∷ m) a e =
    ground (arith, eqb_ℤ_iff p r, AllLevels-lookup s p q m a.1)

AllLevels-insert :
    (s : Side) (p : ℤ) (q : OrderQueue) (m : Levels)
    → IsLevel s p q
    → AllLevels s m
    → AllLevels s (insert p q m)
AllLevels-insert s p q [] h a = (h, tt)
AllLevels-insert s p q ((r, w) ∷ m) h a = ground (arith, eqb_ℤ_iff p r, AllLevels-insert s p q m h)

AllLevels-erase : (s : Side) (p : ℤ) (m : Levels) → AllLevels s m → AllLevels s (erase p m)
AllLevels-erase s p [] a = tt
AllLevels-erase s p (x ∷ m) a = ground (arith, AllLevels-erase s p m)

pub insert-IsSideValid :
    (s : Side) (p : ℤ) (q : OrderQueue) (m : Levels)
    → IsLevel s p q
    → IsSideValid s m
    → IsSideValid s (insert p q m)
insert-IsSideValid s p q m h v = record {
  distinct = insert-Distinct p q m v.distinct;
  sound = AllLevels-insert s p q m h v.sound;
}

pub erase-IsSideValid :
    (s : Side) (p : ℤ) (m : Levels) → IsSideValid s m → IsSideValid s (erase p m)
erase-IsSideValid s p m v = record {
  distinct = erase-Distinct p m v.distinct;
  sound = AllLevels-erase s p m v.sound;
}

-- Storing a changed queue: what is left of it must be a level only if it is kept.
pub store_level-IsSideValid :
    (s : Side) (p : ℤ) (q : OrderQueue) (m : Levels)
    → IsAccurate q
    → All (IsResting s p) q.orders
    → IsSideValid s m
    → IsSideValid s (store_level p q m)
store_level-IsSideValid s p q m a r v = elim (Bool-cases (is_empty q)) [
  | inl gone ↦ rw gone (erase-IsSideValid s p m v)
  | inr kept ↦
      rw kept (insert-IsSideValid s p q m (record { occupied = kept; accurate = a; resting = r }) v)
]
