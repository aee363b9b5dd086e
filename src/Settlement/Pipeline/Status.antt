-- ===== src/Settlement/Pipeline/Status.antt =====
-- The status of a batch across the events of the pipeline, and `getStats` after them.
use sur_protocol.Common.{
  ℕ, ◌+◌, Bool, true, false, Bool-cases, ◌≡◌, List, [], ◌∷◌, Option, none, some, arith, length,
  nat_eq, inl, inr, if◌then◌else◌, ◌==◌, ==_iff, leb,
}
use sur_protocol.Common.Dict.{Dict, lookup, insert, lookup-insert}
use sur_protocol.Types.{Trade, BatchStatus, SettlementBatch}
use sur_protocol.Settlement.Retry.{retry_with_backoff}
use sur_protocol.Settlement.Pipeline.{
  PendingTrade, Flight, SettlementPipeline, Outcome, ReceiptStatus, queue_trade, flush_batch,
  after_submit, after_receipt, start, stop, cache_order, init, queued, flush_trades, submit_result,
  receipt_result, get_stats, set_status, new_batch,
}
use sur_protocol.Settlement.Pipeline.Ledger.{
  Step, starts, stops, caches, queues, ticks, submits, settles, Run,
}
use sur_protocol.Settlement.Pipeline.Soundness.{
  IsSound, IsTracked, init-IsSound, set_status-found, status_of,
}
use sur_protocol.Settlement.Pipeline.Runs.{Run-IsSound, queued-IsSound}

-- What may become of the status of a batch, none before it is created.
pub data Change : Option BatchStatus → Option BatchStatus → Type 0 where
  same : {s : Option BatchStatus} → Change s s
  created : Change none (some BatchStatus.pending)
  sent : Change (some BatchStatus.pending) (some BatchStatus.submitted)
  unsent : Change (some BatchStatus.pending) (some BatchStatus.failed)
  confirmed : Change (some BatchStatus.submitted) (some BatchStatus.confirmed)
  failed : Change (some BatchStatus.submitted) (some BatchStatus.failed)

abbrev status_in : Option SettlementBatch → Option BatchStatus
status_in none = none
status_in (some b) = some b.status

abbrev pub status_at : ℕ → SettlementPipeline → Option BatchStatus
status_at k p = status_in (lookup k p.batches)

Change-insert :
    (id k : ℕ) (b : SettlementBatch) (m : Dict ℕ SettlementBatch)
    → Change (status_in (lookup id m)) (some b.status)
    → Change (status_in (lookup k m)) (status_in (lookup k (insert id b m)))
Change-insert id k b m c = elim (Bool-cases (k == id)) [
  | inl hit ↦ let e : k ≡ id = (==_iff k id).0 hit in rw (lookup-insert id k b m, hit) (rw e c)
  | inr miss ↦ rw (lookup-insert id k b m, miss) same
]

Change-set_status :
    (id k : ℕ) (st : BatchStatus) (hash : Option ℕ) (f : Flight) (m : Dict ℕ SettlementBatch)
    → IsTracked id f m
    → Change (some (status_of f.tx_hash)) (some st)
    → Change (status_in (lookup k m)) (status_in (lookup k (set_status id st hash m)))
Change-set_status id k st hash f m t c = rw (set_status-found id st hash t.batch m t.found) (
    Change-insert id k (record (t.batch) { status = st; tx_hash = hash }) m
      (rw (t.found, t.status) c))

Change-flush_trades :
    (now k : ℕ) (p : SettlementPipeline) (ts : List PendingTrade)
    → IsSound p
    → Change (status_at k p) (status_at k (flush_trades now p ts))
Change-flush_trades now k p [] h = same
Change-flush_trades now k p (t ∷ ts) h =
    Change-insert p.batch_counter k (new_batch now p.batch_counter (t ∷ ts)) p.batches
      (rw (h.new_batches p.batch_counter (omega arith)) created)

Change-submit_result :
    (id k : ℕ) (f : Flight) (p : SettlementPipeline) (r : Option ℕ)
    → IsTracked id f p.batches
    → f.tx_hash ≡ none
    → Change (status_at k p) (status_at k (submit_result id f p r).0)
Change-submit_result id k f p none t e =
    Change-set_status id k BatchStatus.failed f.tx_hash f p.batches t (rw e unsent)
Change-submit_result id k f p (some x) t e =
    Change-set_status id k BatchStatus.submitted (some x) f p.batches t (rw e sent)

Change-receipt_result :
    (id k hash : ℕ) (f : Flight) (p : SettlementPipeline) (r : Option ReceiptStatus)
    → IsTracked id f p.batches
    → f.tx_hash ≡ some hash
    → Change (status_at k p) (status_at k (receipt_result id f p r).0)
Change-receipt_result id k hash f p none t e =
    Change-set_status id k BatchStatus.failed f.tx_hash f p.batches t (rw e failed)
Change-receipt_result id k hash f p (some ReceiptStatus.success) t e =
    Change-set_status id k BatchStatus.confirmed f.tx_hash f p.batches t (rw e confirmed)
Change-receipt_result id k hash f p (some ReceiptStatus.reverted) t e =
    Change-set_status id k BatchStatus.failed f.tx_hash f p.batches t (rw e failed)

Change-either :
    (b : Bool) (k : ℕ) (p q r : SettlementPipeline)
    → Change (status_at k p) (status_at k q)
    → Change (status_at k p) (status_at k r)
    → Change (status_at k p) (status_at k (if b then q else r))
Change-either true k p q r c d = c
Change-either false k p q r c d = d

-- An event of a sound pipeline leaves the status of a batch, or creates it as pending, or moves it
-- from pending to submitted or failed, or from submitted to confirmed or failed. Confirmed and
-- failed are final.
pub Step-Change :
    {p q : SettlementPipeline} {ts : List Trade} {o : Outcome} (k : ℕ)
    → IsSound p
    → Step p ts o q
    → Change (status_at k p) (status_at k q)
unfolding start stop cache_order queue_trade flush_batch after_submit after_receipt
Step-Change {p} k h starts =
    Change-either p.running k p p (record p { running = true; timer = true }) same same
Step-Change {p} k h stops = same
Step-Change {p} k h (caches o) = same
Step-Change {p} k h (queues now t maker taker) =
    let q = queued t maker taker p in
    Change-either (leb p.max_batch_size (length q.pending_trades)) k p
      (flush_trades now q q.pending_trades) q
      (Change-flush_trades now k q q.pending_trades (queued-IsSound t maker taker p h)) same
Step-Change {p} k h (ticks now on) = Change-flush_trades now k p p.pending_trades h
Step-Change {p} k h (submits net id f l e) =
    Change-submit_result id k f p (retry_with_backoff net 3 1000).result (h.tracked id f l) e
Step-Change {p} k h (settles net id hash f l e) =
    Change-receipt_result id k hash f p (retry_with_backoff net 2 1000).result (h.tracked id f l) e

-- After any run from an empty pipeline, the batches of `getStats` that are confirmed and those that
-- failed are, with those under way, all the batches that were created.
pub get_stats_lem :
    (n : ℕ) {q : SettlementPipeline} {ts : List Trade} {o : Outcome}
    → Run (init n) ts o q
    → (get_stats q).confirmed + (get_stats q).failed + length q.in_flight
      ≡ (get_stats q).total_batches
unfolding get_stats
get_stats_lem n r = omega (arith, (Run-IsSound r (init-IsSound n)).tally)
