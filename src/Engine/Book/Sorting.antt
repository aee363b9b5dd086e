-- ===== src/Engine/Book/Sorting.antt =====
-- The levels of one side in the order in which the side serves them: the source sorts the keys of
-- the map and looks each up; here the entries themselves are sorted, and both views agree.
use sur_protocol.Common.{
  ℤ, eqb_ℤ, eqb_ℤ_iff, true, false, ◌≡◌, refl, [], ◌∷◌, none, some, arith, if◌then◌else◌, int_eq,
}
use sur_protocol.Common.Dict.{lookup, insert, erase, keys, Distinct}
use sur_protocol.Types.{Side}
use sur_protocol.Engine.Queue.{OrderQueue}
use sur_protocol.Engine.Book.{Levels, better, insert_price, sort_prices}

-- `better` is a strict order on prices, and decides every two different ones.
pub better_irrefl : (s : Side) (p : ℤ) → better s p p ≡ false
better_irrefl Side.buy p = ground arith
better_irrefl Side.sell p = ground arith

pub better_asym : (s : Side) (p q : ℤ) → better s p q ≡ true → better s q p ≡ false
better_asym Side.buy p q h = ground arith
better_asym Side.sell p q h = ground arith

pub better_trans :
    (s : Side) (p q r : ℤ) → better s p q ≡ true → better s q r ≡ true → better s p r ≡ true
better_trans Side.buy p q r h k = ground arith
better_trans Side.sell p q r h k = ground arith

pub better_connex :
    (s : Side) (p q : ℤ) → eqb_ℤ p q ≡ false → better s p q ≡ false → better s q p ≡ true
better_connex Side.buy p q h k = ground arith
better_connex Side.sell p q h k = ground arith

pub better_ne : (s : Side) (p q : ℤ) → better s p q ≡ true → eqb_ℤ p q ≡ false
better_ne Side.buy p q h = ground arith
better_ne Side.sell p q h = ground arith

-- One entry among the sorted entries.
abbrev pub insert_level : Side → ℤ → OrderQueue → Levels → Levels
insert_level s p q [] = (p, q) ∷ []
insert_level s p q ((r, w) ∷ l) =
    if better s p r then (p, q) ∷ (r, w) ∷ l else (r, w) ∷ insert_level s p q l

abbrev pub sort_levels : Side → Levels → Levels
sort_levels s [] = []
sort_levels s ((p, q) ∷ m) = insert_level s p q (sort_levels s m)

keys-insert_level :
    (s : Side) (p : ℤ) (q : OrderQueue) (l : Levels)
    → keys (insert_level s p q l) ≡ insert_price s p (keys l)
keys-insert_level s p q [] = refl
keys-insert_level s p q ((r, w) ∷ l) = ground (arith, keys-insert_level s p q l)

pub keys-sort_levels : (s : Side) (m : Levels) → keys (sort_levels s m) ≡ sort_prices s (keys m)
keys-sort_levels s [] = refl
keys-sort_levels s ((p, q) ∷ m) =
    ground (arith, keys-insert_level s p q (sort_levels s m), keys-sort_levels s m)

lookup-insert_level :
    (s : Side) (p j : ℤ) (q : OrderQueue) (l : Levels)
    → lookup p l ≡ none
    → lookup j (insert_level s p q l) ≡ (if eqb_ℤ j p then some q else lookup j l)
lookup-insert_level s p j q [] h = refl
lookup-insert_level s p j q ((r, w) ∷ l) h =
    ground (arith, eqb_ℤ_iff p r, eqb_ℤ_iff j r, eqb_ℤ_iff j p, lookup-insert_level s p j q l)

pub lookup-sort_levels :
    (s : Side) (j : ℤ) (m : Levels) → Distinct m → lookup j (sort_levels s m) ≡ lookup j m
lookup-sort_levels s j [] d = refl
lookup-sort_levels s j ((p, q) ∷ m) d = ground (
  arith,
  lookup-sort_levels s j m,
  lookup-sort_levels s p m,
  lookup-insert_level s p j q (sort_levels s m),
)

-- Every entry comes strictly before the entries behind it.
abbrev pub Before : Side → ℤ → Levels → Type 0
Before s p [] = Unit
Before s p ((r, w) ∷ l) = (better s p r ≡ true) × Before s p l

abbrev pub Sorted : Side → Levels → Type 0
Sorted s [] = Unit
Sorted s ((p, q) ∷ l) = Before s p l × Sorted s l

Before-trans : (s : Side) (p r : ℤ) (l : Levels) → better s p r ≡ true → Before s r l → Before s p l
Before-trans s p r [] h b = tt
Before-trans s p r ((x, w) ∷ l) h b = (better_trans s p r x h b.0, Before-trans s p r l h b.1)

Before-insert_level :
    (s : Side) (r p : ℤ) (q : OrderQueue) (l : Levels)
    → better s r p ≡ true
    → Before s r l
    → Before s r (insert_level s p q l)
Before-insert_level s r p q [] h b = (h, tt)
Before-insert_level s r p q ((x, w) ∷ l) h b = ground (arith, Before-insert_level s r p q l)

insert_level-Sorted :
    (s : Side) (p : ℤ) (q : OrderQueue) (l : Levels)
    → lookup p l ≡ none
    → Sorted s l
    → Sorted s (insert_level s p q l)
insert_level-Sorted s p q [] h d = (tt, tt)
insert_level-Sorted s p q ((r, w) ∷ l) h d = ground (
  arith,
  better_connex s p r,
  Before-trans s p r l,
  Before-insert_level s r p q l,
  insert_level-Sorted s p q l,
)

pub sort_levels-Sorted : (s : Side) (m : Levels) → Distinct m → Sorted s (sort_levels s m)
sort_levels-Sorted s [] d = tt
sort_levels-Sorted s ((p, q) ∷ m) d = ground (
  arith,
  sort_levels-Sorted s m,
  lookup-sort_levels s p m,
  insert_level-Sorted s p q (sort_levels s m),
)

pub lookup-Before : (s : Side) (p : ℤ) (l : Levels) → Before s p l → lookup p l ≡ none
lookup-Before s p [] b = refl
lookup-Before s p ((r, w) ∷ l) b = ground (arith, better_ne s p r, lookup-Before s p l)

-- The three updates of the map, seen on the sorted entries.
insert_level_comm :
    (s : Side) (p r : ℤ) (q w : OrderQueue) (l : Levels)
    → eqb_ℤ p r ≡ false
    → insert_level s p q (insert_level s r w l) ≡ insert_level s r w (insert_level s p q l)
insert_level_comm s p r q w [] ne =
    ground (arith, better_connex s p r, better_asym s p r, better_asym s r p)
insert_level_comm s p r q w ((x, u) ∷ l) ne = ground (
  arith,
  better_connex s p r,
  better_asym s p r,
  better_asym s r p,
  better_trans s p r x,
  better_trans s r p x,
  insert_level_comm s p r q w l,
)

pub sort_levels-insert_new :
    (s : Side) (p : ℤ) (q : OrderQueue) (m : Levels)
    → lookup p m ≡ none
    → sort_levels s (insert p q m) ≡ insert_level s p q (sort_levels s m)
sort_levels-insert_new s p q [] h = refl
sort_levels-insert_new s p q ((r, w) ∷ m) h =
    ground (arith, sort_levels-insert_new s p q m, insert_level_comm s p r q w (sort_levels s m))

insert-insert_level :
    (s : Side) (p r : ℤ) (q w : OrderQueue) (u : OrderQueue) (l : Levels)
    → eqb_ℤ p r ≡ false
    → lookup p l ≡ some u
    → insert p q (insert_level s r w l) ≡ insert_level s r w (insert p q l)
insert-insert_level s p r q w u [] ne h = ground arith
insert-insert_level s p r q w u ((x, v) ∷ l) ne h =
    ground (arith, insert-insert_level s p r q w u l ne)

insert-insert_level_self :
    (s : Side) (p : ℤ) (q w : OrderQueue) (l : Levels)
    → lookup p l ≡ none
    → insert p q (insert_level s p w l) ≡ insert_level s p q l
insert-insert_level_self s p q w [] h = ground (arith, eqb_ℤ_iff p p)
insert-insert_level_self s p q w ((r, u) ∷ l) h =
    ground (arith, eqb_ℤ_iff p p, insert-insert_level_self s p q w l)

insert_level-Before :
    (s : Side) (p : ℤ) (q : OrderQueue) (l : Levels)
    → Before s p l
    → insert_level s p q l ≡ (p, q) ∷ l
insert_level-Before s p q [] b = refl
insert_level-Before s p q (x ∷ l) b = ground arith

erase-insert_level :
    (s : Side) (p r : ℤ) (w : OrderQueue) (l : Levels)
    → eqb_ℤ p r ≡ false
    → Sorted s l
    → erase p (insert_level s r w l) ≡ insert_level s r w (erase p l)
erase-insert_level s p r w [] ne d = ground arith
erase-insert_level s p r w ((x, u) ∷ l) ne d = ground (
  arith,
  eqb_ℤ_iff p x,
  Before-trans s r x l,
  insert_level-Before s r w l,
  erase-insert_level s p r w l,
)

erase-insert_level_self :
    (s : Side) (p : ℤ) (w : OrderQueue) (l : Levels)
    → lookup p l ≡ none
    → erase p (insert_level s p w l) ≡ l
erase-insert_level_self s p w [] h = ground (arith, eqb_ℤ_iff p p)
erase-insert_level_self s p w ((r, u) ∷ l) h =
    ground (arith, eqb_ℤ_iff p p, erase-insert_level_self s p w l)

pub sort_levels-insert_present :
    (s : Side) (p : ℤ) (q u : OrderQueue) (m : Levels)
    → Distinct m
    → lookup p m ≡ some u
    → sort_levels s (insert p q m) ≡ insert p q (sort_levels s m)
sort_levels-insert_present s p q u [] d h = ground arith
sort_levels-insert_present s p q u ((r, w) ∷ m) d h = ground (
  arith,
  eqb_ℤ_iff p r,
  sort_levels-insert_present s p q u m d.1,
  lookup-sort_levels s p m,
  lookup-sort_levels s r m,
  insert-insert_level s p r q w u (sort_levels s m),
  insert-insert_level_self s p q w (sort_levels s m),
)

pub sort_levels-erase :
    (s : Side) (p : ℤ) (m : Levels)
    → Distinct m
    → sort_levels s (erase p m) ≡ erase p (sort_levels s m)
sort_levels-erase s p [] d = refl
sort_levels-erase s p ((r, w) ∷ m) d = ground (
  arith,
  eqb_ℤ_iff p r,
  sort_levels-erase s p m d.1,
  sort_levels-Sorted s m,
  lookup-sort_levels s r m,
  erase-insert_level s p r w (sort_levels s m),
  erase-insert_level_self s p w (sort_levels s m),
)
