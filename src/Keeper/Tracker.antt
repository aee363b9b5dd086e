-- ===== src/Keeper/Tracker.antt =====
-- `PositionTracker` of keeper/src/tracker.ts. Markets and traders are numbered (a trader's address
-- is compared in lower case, so that an address has one number).
use sur_protocol.Common.{
  ℕ, zero, suc, ◌+◌, ◌-◌, ◌≤◌, ◌<◌, ℤ, pos, eqb_ℤ, Bool, true, ◌&&◌, ◌≡◌, ◌↔◌, List, [], ◌∷◌,
  Option, none, some, arith, if◌then◌else◌, leb, ltb, ◌==◌, ==_iff, Eq, keep, length,
}
use sur_protocol.Common.Dict.{Dict, insert, erase}

pub record TrackedPosition : Type 0 where
  pub market_id : ℕ
  pub trader : ℕ
  pub size : ℤ
  pub entry_price : ℕ
  pub margin : ℕ
  pub last_seen : ℕ

-- `posKey`
abbrev pub PositionKey : Type 0
PositionKey = ℕ × ℕ

abbrev key_eqb : PositionKey → PositionKey → Bool
key_eqb (a, b) (c, d) = a == c && b == d

pub key_eqb_iff : (a b : PositionKey) → (key_eqb a b ≡ true) ↔ (a ≡ b)
key_eqb_iff (a, b) (c, d) = ground (arith, ==_iff a c, ==_iff b d)

instance abbrev pub key_eq : Eq PositionKey
key_eq = record { beq = key_eqb; beq_iff = key_eqb_iff }

abbrev pub Positions : Type 0
Positions = Dict PositionKey TrackedPosition

-- The logs of the contract that the tracker reads, with their arguments and block.
pub data Log : Type 0 where
  opened : (market trader : ℕ) → (size : ℤ) → (entry_price margin block : ℕ) → Log
  modified : (market trader : ℕ) → (size : ℤ) → (entry_price margin block : ℕ) → Log
  closed : (market trader block : ℕ) → Log
  liquidated : (market trader block : ℕ) → Log

-- `handleOpened`, `handleModified`, `handleClosed` and `handleLiquidated`
abbrev pub handle : Log → Positions → Positions
handle (opened m t s p g n) ps =
    insert (m, t)
      (record { market_id = m; trader = t; size = s; entry_price = p; margin = g; last_seen = n })
      ps
handle (modified m t s p g n) ps =
    if eqb_ℤ s (pos 0)
    then erase (m, t) ps
    else insert (m, t)
        (record { market_id = m; trader = t; size = s; entry_price = p; margin = g; last_seen = n })
        ps
handle (closed m t n) ps = erase (m, t) ps
handle (liquidated m t n) ps = erase (m, t) ps

abbrev pub handle_all : List Log → Positions → Positions
handle_all [] ps = ps
handle_all (l ∷ ls) ps = handle_all ls (handle l ps)

-- The four kinds of events that the client is asked for.
pub data Kind : Type 0 where
  position_opened position_modified position_closed position_liquidated : Kind

-- The blocks that one round of `syncFromEvents` asks for, both ends included.
pub record Range : Type 0 where
  pub from_block : ℕ
  pub to_block : ℕ

abbrev pub within : Range → ℕ → Bool
within r n = leb r.from_block n && leb n r.to_block

-- One round of the loop: the four kinds of events, one after the other. `get_logs` is what the
-- client's `getLogs` returns for a kind of event and a range.
abbrev pub sync_range : (Kind → Range → List Log) → Range → Positions → Positions
sync_range get_logs r ps = handle_all (get_logs position_liquidated r) (
    handle_all (get_logs position_closed r)
      (handle_all (get_logs position_modified r) (handle_all (get_logs position_opened r) ps)))

-- `start + CHUNK > currentBlock ? currentBlock : start + CHUNK`
abbrev range_end : ℕ → ℕ → ℕ
range_end start current = if ltb current (start + 5000) then current else start + 5000

-- The ranges of the loop from a block on.
abbrev pub ranges : ℕ → ℕ → ℕ → List Range
ranges zero start current = []
ranges (suc fuel) start current =
    let rest = ranges fuel (suc (range_end start current)) current in
    if leb start current
    then record { from_block = start; to_block = range_end start current } ∷ rest
    else []

abbrev sync_ranges : (Kind → Range → List Log) → List Range → Positions → Positions
sync_ranges get_logs [] ps = ps
sync_ranges get_logs (r ∷ rs) ps = sync_ranges get_logs rs (sync_range get_logs r ps)

-- `syncFromEvents`, with the current block that the client reports. Each round goes on by one block
-- at least, so as many rounds as blocks are enough.
abbrev pub sync_from_events : (Kind → Range → List Log) → ℕ → ℕ → Positions → Positions
sync_from_events get_logs from current ps =
    sync_ranges get_logs (ranges (suc current - from) from current) ps

-- `getAllPositions`, `positionCount` and `getPositionsByMarket`
abbrev pub all_positions : Positions → List TrackedPosition
all_positions [] = []
all_positions ((k, p) ∷ ps) = p ∷ all_positions ps

pub position_count : Positions → ℕ
position_count ps = length ps

pub positions_by_market : ℕ → Positions → List TrackedPosition
positions_by_market m ps = keep (λ p. p.market_id == m) (all_positions ps)

-- `verifyPosition`, with the position that the contract reports and the block.
abbrev pub verify_position : ℕ → ℕ → ℤ → ℕ → ℕ → ℕ → Positions → Positions × Option TrackedPosition
verify_position m t size price margin block ps =
    if eqb_ℤ size (pos 0) then (erase (m, t) ps, none) else (
      insert (m, t)
          (record {
            market_id = m;
            trader = t;
            size = size;
            entry_price = price;
            margin = margin;
            last_seen = block;
          })
          ps,
      some (record {
        market_id = m;
        trader = t;
        size = size;
        entry_price = price;
        margin = margin;
        last_seen = block;
      }),
    )

-- How many of the ranges a block is in.
abbrev pub times_in : ℕ → List Range → ℕ
times_in n [] = 0
times_in n (r ∷ rs) = (if within r n then 1 else 0) + times_in n rs

times_in-ranges :
    (fuel start current n : ℕ)
    → current < start + fuel
    → times_in n (ranges fuel start current) ≡ (if leb start n && leb n current then 1 else 0)
times_in-ranges zero start current n h = ground arith
times_in-ranges (suc fuel) start current n h =
    ground (arith, times_in-ranges fuel (suc (range_end start current)) current n)

abbrev pub AllShort : List Range → Type 0
AllShort [] = Unit
AllShort (r ∷ rs) = (r.to_block ≤ r.from_block + 5000) × AllShort rs

ranges-AllShort : (fuel start current : ℕ) → AllShort (ranges fuel start current)
ranges-AllShort zero start current = tt
ranges-AllShort (suc fuel) start current =
    ground (arith, ranges-AllShort fuel (suc (range_end start current)) current)

-- The rounds of a synchronisation ask for every block from the first to the current one exactly
-- once and for no other block, and for 5001 blocks at most each time.
pub ranges_lem :
    (from current : ℕ)
    → ((n : ℕ)
        → times_in n (ranges (suc current - from) from current)
          ≡ (if leb from n && leb n current then 1 else 0))
      × AllShort (ranges (suc current - from) from current)
ranges_lem from current = (
  λ n. times_in-ranges (suc current - from) from current n (omega arith),
  ranges-AllShort (suc current - from) from current,
)
