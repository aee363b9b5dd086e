-- ===== src/Keeper/Ranking.antt =====
-- Which positions a scan finds, in which order, and which of them a round liquidates.
use sur_protocol.Common.{
  All-append_left, All-append_right, take-drop, drop_full, length-take_le, ℕ, ◌≤◌, Bool, Bool-cases,
  ◌≡◌, ◌⊎◌, refl, ap, ◌∙◌, subst, inl, inr, List, [], ◌∷◌, ◌++◌, none, some, arith, leb, ltb,
  if◌then◌else◌, length, keep, take, drop, map, All, All-map,
}
use mathlib.Core.List.{Perm}
use mathlib.Core.List.Perm
use sur_protocol.Keeper.Tracker.{TrackedPosition, PositionKey, all_positions}
use sur_protocol.Keeper.Scanner.{
  LiquidationCandidate, LiquidationScanner, Chain, or_false, position_key, check_each,
  check_positions, candidate, collect, insert_candidate, sort_candidates, find_candidates, scan,
}
use sur_protocol.Keeper.Execution.{worthwhile}

abbrev Pays : LiquidationCandidate → LiquidationCandidate → Type 0
Pays c d = d.estimated_reward ≤ c.estimated_reward

-- The candidates by falling reward.
abbrev pub IsRanked : List LiquidationCandidate → Type 0
IsRanked [] = Unit
IsRanked (c ∷ cs) = All (Pays c) cs × IsRanked cs

insert_candidate-Pays :
    (e c : LiquidationCandidate) (cs : List LiquidationCandidate)
    → Pays e c
    → All (Pays e) cs
    → All (Pays e) (insert_candidate c cs)
insert_candidate-Pays e c [] h a = (h, tt)
insert_candidate-Pays e c (d ∷ ds) h a = ground (arith, insert_candidate-Pays e c ds h)

Pays-all :
    (c d : LiquidationCandidate) (cs : List LiquidationCandidate)
    → Pays c d
    → All (Pays d) cs
    → All (Pays c) cs
Pays-all c d cs h a = All-map (λ (x : LiquidationCandidate) k. omega (arith, h, k)) cs a

insert_candidate-IsRanked :
    (c : LiquidationCandidate) (cs : List LiquidationCandidate)
    → IsRanked cs
    → IsRanked (insert_candidate c cs)
insert_candidate-IsRanked c [] r = (tt, tt)
insert_candidate-IsRanked c (d ∷ ds) r =
    elim (Bool-cases (ltb c.estimated_reward d.estimated_reward)) [
      | inl less ↦
          rw (less, if◌then◌else◌)
            (
              insert_candidate-Pays d c ds (ground (arith, less)) r.0,
              insert_candidate-IsRanked c ds r.1,
            )
      | inr more ↦
          let h : Pays c d = ground (arith, more) in
          rw (more, if◌then◌else◌) ((h, Pays-all c d ds h r.0), r)
    ]

sort_candidates-IsRanked : (cs : List LiquidationCandidate) → IsRanked (sort_candidates cs)
sort_candidates-IsRanked [] = tt
sort_candidates-IsRanked (c ∷ cs) =
    insert_candidate-IsRanked c (sort_candidates cs) (sort_candidates-IsRanked cs)

insert_candidate-Perm :
    (c : LiquidationCandidate) (cs : List LiquidationCandidate)
    → Perm (insert_candidate c cs) (c ∷ cs)
insert_candidate-Perm c [] = Perm.rfl
insert_candidate-Perm c (d ∷ ds) = elim (Bool-cases (ltb c.estimated_reward d.estimated_reward)) [
  | inl less ↦
      rw (less, if◌then◌else◌)
        (Perm.trans (Perm.cons d (insert_candidate-Perm c ds)) (Perm.swap c d ds))
  | inr more ↦ rw (more, if◌then◌else◌) Perm.rfl
]

sort_candidates-Perm : (cs : List LiquidationCandidate) → Perm (sort_candidates cs) cs
sort_candidates-Perm [] = Perm.rfl
sort_candidates-Perm (c ∷ cs) =
    Perm.trans (insert_candidate-Perm c (sort_candidates cs))
      (Perm.cons c (sort_candidates-Perm cs))

-- What the contract says of a position; a call that fails counts as no.
abbrev pub is_due : Chain → TrackedPosition → Bool
is_due chain p = or_false (chain.is_liquidatable (position_key p))

-- A multicall that answers, answers each call as it would be answered alone.
abbrev pub IsConsistent : Chain → Type 0
IsConsistent chain =
    (keys : List PositionKey)
    → (chain.multicall keys ≡ none) ⊎ (chain.multicall keys ≡ some (map chain.is_liquidatable keys))

collect-check_each :
    (chain : Chain) (ps : List TrackedPosition)
    → collect ps (check_each chain ps) ≡ map candidate (keep (is_due chain) ps)
collect-check_each chain [] = refl
collect-check_each chain (p ∷ ps) = elim (Bool-cases (is_due chain p)) [
  | inl due ↦
      rw (due, if◌then◌else◌)
        (ap (λ (cs : List LiquidationCandidate). candidate p ∷ cs) (collect-check_each chain ps))
  | inr safe ↦ rw (safe, if◌then◌else◌) (collect-check_each chain ps)
]

map_answers :
    (chain : Chain) (ps : List TrackedPosition)
    → map or_false (map chain.is_liquidatable (map position_key ps)) ≡ check_each chain ps
map_answers chain [] = refl
map_answers chain (p ∷ ps) = ap (λ (bs : List Bool). is_due chain p ∷ bs) (map_answers chain ps)

check_positions-eq :
    (chain : Chain) (ps : List TrackedPosition)
    → IsConsistent chain
    → check_positions chain ps (chain.multicall (map position_key ps)) ≡ check_each chain ps
check_positions-eq chain ps h = elim (h (map position_key ps)) [
  | inl failed ↦ rw (failed, check_positions) refl
  | inr answered ↦ rw (answered, check_positions) (map_answers chain ps)
]

find_candidates-Perm :
    (chain : Chain) (ps : List TrackedPosition)
    → IsConsistent chain
    → Perm (find_candidates chain ps) (map candidate (keep (is_due chain) ps))
find_candidates-Perm chain [] h = Perm.rfl
find_candidates-Perm chain (p ∷ ps) h =
    let all = p ∷ ps in
    let cs = collect all (check_positions chain all (chain.multicall (map position_key all))) in
    subst (Perm (sort_candidates cs))
      (ap (collect all) (check_positions-eq chain all h) ∙ collect-check_each chain all)
      (sort_candidates-Perm cs)

find_candidates-IsRanked :
    (chain : Chain) (ps : List TrackedPosition) → IsRanked (find_candidates chain ps)
find_candidates-IsRanked chain [] = tt
find_candidates-IsRanked chain (p ∷ ps) =
    let all = p ∷ ps in
    sort_candidates-IsRanked
      (collect all (check_positions chain all (chain.multicall (map position_key all))))

-- A scan finds exactly the tracked positions that the contract calls liquidatable, each once and by
-- falling reward, whether the multicall answers or fails, if a multicall that answers does so as
-- the single calls would.
pub scan_lem :
    (chain : Chain) (s : LiquidationScanner)
    → IsConsistent chain
    → let cs = (scan chain s).1 in
      IsRanked cs × Perm cs (map candidate (keep (is_due chain) (all_positions s.tracker)))
unfolding scan
scan_lem chain s h = (
  find_candidates-IsRanked chain (all_positions s.tracker),
  find_candidates-Perm chain (all_positions s.tracker) h,
)

module _ (min_reward : ℕ) where
  abbrev pub is_paid : LiquidationCandidate → Bool
  is_paid c = leb min_reward c.estimated_reward

  keep-Pays :
      (e : LiquidationCandidate) (cs : List LiquidationCandidate)
      → All (Pays e) cs
      → All (Pays e) (keep is_paid cs)
  keep-Pays e [] a = tt
  keep-Pays e (c ∷ cs) a = ground (arith, keep-Pays e cs)

  keep-IsRanked : (cs : List LiquidationCandidate) → IsRanked cs → IsRanked (keep is_paid cs)
  keep-IsRanked [] r = tt
  keep-IsRanked (c ∷ cs) r = ground (arith, keep-IsRanked cs, keep-Pays c cs r.0)

  keep-paid :
      (cs : List LiquidationCandidate)
      → All (λ c. min_reward ≤ c.estimated_reward) (keep is_paid cs)
  keep-paid [] = tt
  keep-paid (c ∷ cs) = ground (arith, keep-paid cs)

ranked_apart :
    (xs ys : List LiquidationCandidate)
    → IsRanked (xs ++ ys)
    → All (λ (c : LiquidationCandidate). All (Pays c) ys) xs
ranked_apart [] ys r = tt
ranked_apart (x ∷ xs) ys r = (All-append_right (Pays x) xs ys r.0, ranked_apart xs ys r.1)

-- Of candidates by falling reward a round liquidates those that pay the minimum, as many as a batch
-- holds: all that it takes pay the minimum, they are no more than the batch holds, none that pays
-- the minimum is left out unless the batch is full, and none that is left out pays more than one
-- that is taken.
pub worthwhile_lem :
    (min_reward n : ℕ) (cs : List LiquidationCandidate)
    → IsRanked cs
    → let taken = worthwhile min_reward n cs in
      All (λ c. min_reward ≤ c.estimated_reward) taken
      × (length taken ≤ n)
      × ((left : List LiquidationCandidate) × (keep (is_paid min_reward) cs ≡ taken ++ left)
          × ((left ≡ []) ⊎ (length taken ≡ n))
          × All (λ (c : LiquidationCandidate). All (Pays c) left) taken)
unfolding worthwhile
worthwhile_lem min_reward n cs r =
    let paid = keep (is_paid min_reward) cs in
    let cut = take-drop n paid in
    (
      All-append_left (λ (c : LiquidationCandidate). min_reward ≤ c.estimated_reward) (take n paid)
          (drop n paid)
          (subst (All (λ (c : LiquidationCandidate). min_reward ≤ c.estimated_reward)) cut
            (keep-paid min_reward cs)),
      length-take_le n paid,
      (
        drop n paid,
        cut,
        drop_full n paid,
        ranked_apart (take n paid) (drop n paid)
            (subst IsRanked cut (keep-IsRanked min_reward cs r)),
      ),
    )
