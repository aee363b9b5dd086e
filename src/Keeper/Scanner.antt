-- ===== src/Keeper/Scanner.antt =====
-- `LiquidationScanner` of keeper/src/scanner.ts: its state and its scan.
use sur_protocol.Common.{
  ℕ, suc, ◌/◌, ℤ, Bool, false, List, [], ◌∷◌, Option, none, some, ltb, if◌then◌else◌, map,
}
use sur_protocol.Keeper.Tracker.{TrackedPosition, PositionKey, Positions, all_positions}

pub record LiquidationCandidate : Type 0 where
  pub market_id : ℕ
  pub trader : ℕ
  pub size : ℤ
  pub margin : ℕ
  pub estimated_reward : ℕ

pub record LiquidationResult : Type 0 where
  pub success : Bool
  pub market_id : ℕ
  pub trader : ℕ
  pub tx_hash : Option ℕ
  pub gas_used : Option ℕ
  pub reward : Option ℕ
  pub error : Option ℕ
  pub timestamp : ℕ

-- `KeeperStats`, without the uptime that `getStats` adds.
pub record KeeperStats : Type 0 where
  pub total_scans : ℕ
  pub total_liquidations : ℕ
  pub total_failed : ℕ
  pub total_reward_earned : ℕ
  pub total_gas_spent : ℕ
  pub started_at : ℕ

-- The scanner with its tracker's positions; `verifying` are the calls of `verifyPosition` that it
-- has started and does not wait for.
pub record LiquidationScanner : Type 0 where
  pub tracker : Positions
  pub stats : KeeperStats
  pub results : List LiquidationResult
  pub verifying : List PositionKey

unfoldable pub init : ℕ → Positions → LiquidationScanner
init now tracker = record {
  tracker = tracker;
  stats = record {
    total_scans = 0;
    total_liquidations = 0;
    total_failed = 0;
    total_reward_earned = 0;
    total_gas_spent = 0;
    started_at = now;
  };
  results = [];
  verifying = [];
}

-- What the contract answers during a scan: all at once, none where the multicall throws, and to a
-- single call, none where it throws. An entry of a multicall is none where its status is "failure".
pub record Chain : Type 0 where
  pub multicall : List PositionKey → Option (List (Option Bool))
  pub is_liquidatable : PositionKey → Option Bool

abbrev pub or_false : Option Bool → Bool
or_false none = false
or_false (some b) = b

abbrev pub position_key : TrackedPosition → PositionKey
position_key p = (p.market_id, p.trader)

abbrev pub check_each : Chain → List TrackedPosition → List Bool
check_each chain [] = []
check_each chain (p ∷ ps) = or_false (chain.is_liquidatable (position_key p)) ∷ check_each chain ps

abbrev pub check_positions : Chain → List TrackedPosition → Option (List (Option Bool)) → List Bool
check_positions chain ps (some answers) = map or_false answers
check_positions chain ps none = check_each chain ps

abbrev pub candidate : TrackedPosition → LiquidationCandidate
candidate p = record {
  market_id = p.market_id;
  trader = p.trader;
  size = p.size;
  margin = p.margin;
  estimated_reward = p.margin / 2;
}

-- "Collect candidates"
abbrev pub collect : List TrackedPosition → List Bool → List LiquidationCandidate
collect [] answers = []
collect (p ∷ ps) [] = []
collect (p ∷ ps) (b ∷ answers) = if b then candidate p ∷ collect ps answers else collect ps answers

-- `candidates.sort(...)`, which is stable.
abbrev pub insert_candidate :
    LiquidationCandidate → List LiquidationCandidate → List LiquidationCandidate
insert_candidate c [] = c ∷ []
insert_candidate c (d ∷ ds) =
    if ltb c.estimated_reward d.estimated_reward then d ∷ insert_candidate c ds else c ∷ d ∷ ds

abbrev pub sort_candidates : List LiquidationCandidate → List LiquidationCandidate
sort_candidates [] = []
sort_candidates (c ∷ cs) = insert_candidate c (sort_candidates cs)

abbrev pub find_candidates : Chain → List TrackedPosition → List LiquidationCandidate
find_candidates chain [] = []
find_candidates chain (p ∷ ps) =
    let all = p ∷ ps in
    sort_candidates
      (collect all (check_positions chain all (chain.multicall (map position_key all))))

unfoldable pub scan : Chain → LiquidationScanner → LiquidationScanner × List LiquidationCandidate
scan chain s = (
  record s { stats = record s.stats { total_scans = suc s.stats.total_scans } },
  find_candidates chain (all_positions s.tracker),
)
