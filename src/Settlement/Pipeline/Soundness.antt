-- ===== src/Settlement/Pipeline/Soundness.antt =====
-- The batches of the pipeline against the calls of `flushBatch` that are under way.
use sur_protocol.Common.{
  ℕ, suc, ◌+◌, ◌≤◌, false, Bool-cases, ◌≡◌, refl, subst, List, [], ◌∷◌, Option, none, some, arith,
  if◌then◌else◌, length, nat_eq, inl, inr, ◌==◌, ==_iff, map, All,
}
use sur_protocol.Common.Dict.{
  Dict, lookup, insert, erase, Distinct, sum_values-insert_new, sum_values-insert_present,
  lookup-insert, lookup-erase, insert-Distinct, erase-Distinct, length-insert, length-erase,
}
use sur_protocol.Types.{BatchStatus, SettlementBatch, status_eqb}
use sur_protocol.Settlement.Pipeline.{
  PendingTrade, Flight, SettlementPipeline, requeue, init, flush_trades, submit_result,
  to_on_chain_trade, count_status, set_status, new_batch,
}

-- The status of the batch of a call: it waits for the submission, or for the receipt.
abbrev pub status_of : Option ℕ → BatchStatus
status_of none = BatchStatus.pending
status_of (some _) = BatchStatus.submitted

-- A trade that was queued again at most three times.
abbrev pub Bounded : List PendingTrade → Type 0
Bounded = All (λ (t : PendingTrade). t.requeue_count ≤ 3)

-- The batch of a call that is under way.
pub record IsTracked (k : ℕ) (f : Flight) (batches : Dict ℕ SettlementBatch) : Type 0 where
  pub batch : SettlementBatch
  pub found : lookup k batches ≡ some batch
  pub status : batch.status ≡ status_of f.tx_hash
  pub hash : batch.tx_hash ≡ f.tx_hash
  pub trades : batch.trades ≡ map to_on_chain_trade f.to_settle
  pub bounded : Bounded f.to_settle

pub record IsSound (p : SettlementPipeline) : Type 0 where
  pub new_flights : (k : ℕ) → p.batch_counter ≤ k → lookup k p.in_flight ≡ none
  pub new_batches : (k : ℕ) → p.batch_counter ≤ k → lookup k p.batches ≡ none
  pub distinct : Distinct p.in_flight
  pub tracked : (k : ℕ) (f : Flight) → lookup k p.in_flight ≡ some f → IsTracked k f p.batches
  pub bounded : Bounded p.pending_trades
  pub tally :
      count_status BatchStatus.confirmed p.batches
        + (count_status BatchStatus.failed p.batches + length p.in_flight)
      ≡ p.batch_counter

pub init-IsSound : (n : ℕ) → IsSound (init n)
unfolding init
init-IsSound n = record {
  new_flights = λ k _. refl;
  new_batches = λ k _. refl;
  distinct = tt;
  tracked = λ k f e. absurd (ground (arith, e));
  bounded = tt;
  tally = refl;
}

abbrev flag : BatchStatus → SettlementBatch → ℕ
flag st b = if status_eqb b.status st then 1 else 0

IsTracked-insert :
    (k j : ℕ) (f : Flight) (b : SettlementBatch) (m : Dict ℕ SettlementBatch)
    → (k == j) ≡ false
    → IsTracked k f m
    → IsTracked k f (insert j b m)
IsTracked-insert k j f b m ne t = record {
  batch = t.batch;
  found = rw (lookup-insert j k b m, ne) t.found;
  status = t.status;
  hash = t.hash;
  trades = t.trades;
  bounded = t.bounded;
}

-- All calls of a map have their batches.
abbrev Tracked : Dict ℕ Flight → Dict ℕ SettlementBatch → Type 0
Tracked flights m = (k : ℕ) (f : Flight) → lookup k flights ≡ some f → IsTracked k f m

-- Writing the call and the batch of one number, and ending a call, keep those of the others.
Tracked-insert :
    (n : ℕ) (g : Flight) (b : SettlementBatch) (flights : Dict ℕ Flight)
    (m : Dict ℕ SettlementBatch)
    → IsTracked n g (insert n b m)
    → Tracked flights m
    → Tracked (insert n g flights) (insert n b m)
Tracked-insert n g b flights m new h k f l = elim (Bool-cases (k == n)) [
  | inl same ↦
      let e : k ≡ n = (==_iff k n).0 same in
      let e' : g ≡ f = ground (arith, l, lookup-insert n k g flights, same) in
      subst (λ (x : ℕ × Flight). IsTracked x.0 x.1 (insert n b m)) (ground (arith, e, e')) new
  | inr other ↦
      IsTracked-insert k n f b m other
        (h k f (ground (arith, l, other, lookup-insert n k g flights)))
]

Tracked-erase :
    (n : ℕ) (b : SettlementBatch) (flights : Dict ℕ Flight) (m : Dict ℕ SettlementBatch)
    → Distinct flights
    → Tracked flights m
    → Tracked (erase n flights) (insert n b m)
Tracked-erase n b flights m d h k f l =
    let other : (k == n) ≡ false = ground (arith, l, lookup-erase n k flights d) in
    IsTracked-insert k n f b m other (h k f (ground (arith, l, other, lookup-erase n k flights d)))

pub lookup-insert_self :
    (n : ℕ) (b : SettlementBatch) (m : Dict ℕ SettlementBatch) → lookup n (insert n b m) ≡ some b
lookup-insert_self n b m = ground (arith, lookup-insert n n b m)

-- Creating a batch under the next number.
pub flush_trades-IsSound :
    (now : ℕ) (p : SettlementPipeline) (ts : List PendingTrade)
    → p.pending_trades ≡ ts
    → IsSound p
    → IsSound (flush_trades now p ts)
flush_trades-IsSound now p [] e h = h
flush_trades-IsSound now p (t ∷ ts) e h =
    let n = p.batch_counter in
    let b : SettlementBatch = new_batch now n (t ∷ ts) in
    let g : Flight = record { to_settle = t ∷ ts; tx_hash = none } in
    record {
      new_flights = λ k le. ground (arith, lookup-insert n k g p.in_flight, h.new_flights k);
      new_batches = λ k le. ground (arith, lookup-insert n k b p.batches, h.new_batches k);
      distinct = insert-Distinct n g p.in_flight h.distinct;
      tracked =
          Tracked-insert n g b p.in_flight p.batches
            (record {
              batch = b;
              found = lookup-insert_self n b p.batches;
              status = refl;
              hash = refl;
              trades = refl;
              bounded = subst Bounded e h.bounded;
            })
            h.tracked;
      bounded = tt;
      tally = ground (
        arith,
        h.tally,
        sum_values-insert_new (flag BatchStatus.confirmed) n b p.batches,
        sum_values-insert_new (flag BatchStatus.failed) n b p.batches,
        length-insert n g p.in_flight,
        h.new_flights n,
        h.new_batches n,
      );
    }

-- Changing the status of the batch of a call.
pub set_status-found :
    (id : ℕ) (st : BatchStatus) (hash : Option ℕ) (b : SettlementBatch) (m : Dict ℕ SettlementBatch)
    → lookup id m ≡ some b
    → set_status id st hash m ≡ insert id (record b { status = st; tx_hash = hash }) m
set_status-found id st hash b m e = ground (arith, e)

pub submitted-IsSound :
    (id hash : ℕ) (f : Flight) (p : SettlementPipeline)
    → lookup id p.in_flight ≡ some f
    → f.tx_hash ≡ none
    → IsSound p
    → IsSound (submit_result id f p (some hash)).0
submitted-IsSound id hash f p l e h =
    let t = h.tracked id f l in
    let g : Flight = record f { tx_hash = some hash } in
    let b : SettlementBatch = record (t.batch) {
      status = BatchStatus.submitted;
      tx_hash = some hash;
    } in
    rw (set_status-found id BatchStatus.submitted (some hash) t.batch p.batches t.found) (record {
      new_flights =
          λ k le. ground (arith, lookup-insert id k g p.in_flight, h.new_flights k, ==_iff k id, l);
      new_batches = λ k le.
          ground (arith, lookup-insert id k b p.batches, h.new_batches k, ==_iff k id, t.found);
      distinct = insert-Distinct id g p.in_flight h.distinct;
      tracked =
          Tracked-insert id g b p.in_flight p.batches
            (record {
              batch = b;
              found = lookup-insert_self id b p.batches;
              status = refl;
              hash = refl;
              trades = t.trades;
              bounded = t.bounded;
            })
            h.tracked;
      bounded = h.bounded;
      tally = ground (
        arith,
        h.tally,
        sum_values-insert_present (flag BatchStatus.confirmed) id b t.batch p.batches t.found,
        sum_values-insert_present (flag BatchStatus.failed) id b t.batch p.batches t.found,
        length-insert id g p.in_flight,
        l,
        e,
        t.status,
      );
    })

-- The two ways in which the batch of a call ends.
pub data IsFinal : BatchStatus → Type 0 where
  done : IsFinal BatchStatus.confirmed
  lost : IsFinal BatchStatus.failed

ended-tally :
    (st s : BatchStatus) (o : Option ℕ) (c f c' f' n n' m : ℕ)
    → IsFinal st
    → s ≡ status_of o
    → (if status_eqb s BatchStatus.confirmed then 1 else 0) + c'
      ≡ (if status_eqb st BatchStatus.confirmed then 1 else 0) + c
    → (if status_eqb s BatchStatus.failed then 1 else 0) + f'
      ≡ (if status_eqb st BatchStatus.failed then 1 else 0) + f
    → n ≡ suc n'
    → c + (f + n) ≡ m
    → c' + (f' + n') ≡ m
ended-tally st s none c f c' f' n n' m done e a b k h = ground (arith, e)
ended-tally st s none c f c' f' n n' m lost e a b k h = ground (arith, e)
ended-tally st s (some x) c f c' f' n n' m done e a b k h = ground (arith, e)
ended-tally st s (some x) c f c' f' n n' m lost e a b k h = ground (arith, e)

pub ended-IsSound :
    (id : ℕ) (f : Flight) (st : BatchStatus) (ts : List PendingTrade) (p : SettlementPipeline)
    → IsFinal st
    → lookup id p.in_flight ≡ some f
    → Bounded ts
    → IsSound p
    → IsSound (record p {
      pending_trades = ts;
      batches = set_status id st f.tx_hash p.batches;
      in_flight = erase id p.in_flight;
    })
ended-IsSound id f st ts p fin l bd h =
    let t = h.tracked id f l in
    let b : SettlementBatch = record (t.batch) { status = st; tx_hash = f.tx_hash } in
    rw (set_status-found id st f.tx_hash t.batch p.batches t.found) (record {
      new_flights =
          λ k le. ground (arith, lookup-erase id k p.in_flight h.distinct, h.new_flights k);
      new_batches = λ k le.
          ground (arith, lookup-insert id k b p.batches, h.new_batches k, ==_iff k id, t.found);
      distinct = erase-Distinct id p.in_flight h.distinct;
      tracked = Tracked-erase id b p.in_flight p.batches h.distinct h.tracked;
      bounded = bd;
      tally =
          ended-tally st t.batch.status f.tx_hash _ _ _ _ _ _ _ fin t.status
            (sum_values-insert_present (flag BatchStatus.confirmed) id b t.batch p.batches t.found)
            (sum_values-insert_present (flag BatchStatus.failed) id b t.batch p.batches t.found)
            (ground (arith, length-erase id p.in_flight, l)) h.tally;
    })

pub requeue-Bounded : (ts : List PendingTrade) → Bounded ts → Bounded (requeue ts)
requeue-Bounded [] b = tt
requeue-Bounded (t ∷ ts) b = ground (arith, requeue-Bounded ts b.1)
