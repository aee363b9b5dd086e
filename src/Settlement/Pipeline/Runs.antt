-- ===== src/Settlement/Pipeline/Runs.antt =====
-- What every event of the pipeline keeps, and what holds after any run of events.
use sur_protocol.Common.{
  ℕ, ◌+◌, ◌≤◌, Bool, true, false, ◌≡◌, refl, List, [], ◌∷◌, ◌++◌, Option, none, some, arith, leb,
  length, nat_eq, All-append, sum_by, sum_by-append, if◌then◌else◌,
}
use sur_protocol.Common.Dict.{lookup}
use sur_protocol.Types.{Order, Trade, BatchStatus}
use sur_protocol.Settlement.Retry.{retry_with_backoff}
use sur_protocol.Settlement.Pipeline.{
  PendingTrade, Flight, SettlementPipeline, Outcome, ReceiptStatus, queue_trade, flush_batch,
  after_submit, after_receipt, requeue, start, stop, cache_order, queued, fail_batch, submit_result,
  receipt_result,
}
use sur_protocol.Settlement.Pipeline.Ledger.{
  Step, starts, stops, caches, queues, ticks, submits, settles, Run, idle, after, both, held, left,
  held-flush_trades, held-submit_result, held-receipt_result, weight-append,
}
use sur_protocol.Settlement.Pipeline.Soundness.{
  IsSound, flush_trades-IsSound, submitted-IsSound, ended-IsSound, requeue-Bounded, done, lost,
}

pub fail_batch-IsSound :
    (id : ℕ) (f : Flight) (p : SettlementPipeline)
    → lookup id p.in_flight ≡ some f
    → IsSound p
    → IsSound (fail_batch id f p).0
fail_batch-IsSound id f p l h =
    ended-IsSound id f BatchStatus.failed (p.pending_trades ++ requeue f.to_settle) p lost l
      (All-append (λ (t : PendingTrade). t.requeue_count ≤ 3) p.pending_trades (requeue f.to_settle)
        h.bounded (requeue-Bounded f.to_settle (h.tracked id f l).bounded))
      h

submit_result-IsSound :
    (id : ℕ) (f : Flight) (p : SettlementPipeline) (r : Option ℕ)
    → lookup id p.in_flight ≡ some f
    → f.tx_hash ≡ none
    → IsSound p
    → IsSound (submit_result id f p r).0
submit_result-IsSound id f p none l e h = fail_batch-IsSound id f p l h
submit_result-IsSound id f p (some hash) l e h = submitted-IsSound id hash f p l e h

receipt_result-IsSound :
    (id : ℕ) (f : Flight) (p : SettlementPipeline) (r : Option ReceiptStatus)
    → lookup id p.in_flight ≡ some f
    → IsSound p
    → IsSound (receipt_result id f p r).0
receipt_result-IsSound id f p none l h = fail_batch-IsSound id f p l h
receipt_result-IsSound id f p (some ReceiptStatus.success) l h =
    ended-IsSound id f BatchStatus.confirmed p.pending_trades p done l h.bounded h
receipt_result-IsSound id f p (some ReceiptStatus.reverted) l h =
    ended-IsSound id f BatchStatus.failed p.pending_trades p lost l h.bounded h

-- A change of fields that the invariant does not read.
abbrev retimed : Bool → Bool → SettlementPipeline → SettlementPipeline
retimed r t p = record p { running = r; timer = t }

retimed-IsSound : (r t : Bool) (p : SettlementPipeline) → IsSound p → IsSound (retimed r t p)
retimed-IsSound r t p h = record {
  new_flights = h.new_flights;
  new_batches = h.new_batches;
  distinct = h.distinct;
  tracked = h.tracked;
  bounded = h.bounded;
  tally = h.tally;
}

pub queued-IsSound :
    (t : Trade) (maker taker : Order) (p : SettlementPipeline)
    → IsSound p
    → IsSound (queued t maker taker p)
queued-IsSound t maker taker p h = record {
  new_flights = h.new_flights;
  new_batches = h.new_batches;
  distinct = h.distinct;
  tracked = h.tracked;
  bounded =
      All-append (λ (x : PendingTrade). x.requeue_count ≤ 3) p.pending_trades
        (record { trade = t; maker_order = maker; taker_order = taker; requeue_count = 0 } ∷ [])
        h.bounded (ground arith);
  tally = h.tally;
}

pub flush_batch-IsSound :
    (now : ℕ) (p : SettlementPipeline) → IsSound p → IsSound (flush_batch now p)
unfolding flush_batch
flush_batch-IsSound now p h = flush_trades-IsSound now p p.pending_trades refl h

either-IsSound :
    (b : Bool) (p q : SettlementPipeline) → IsSound p → IsSound q → IsSound (if b then p else q)
either-IsSound true p q h k = h
either-IsSound false p q h k = k

pub Step-IsSound :
    {p q : SettlementPipeline} {ts : List Trade} {o : Outcome}
    → Step p ts o q
    → IsSound p
    → IsSound q
unfolding start stop cache_order queue_trade after_submit after_receipt
Step-IsSound {p} starts h =
    either-IsSound p.running p (retimed true true p) h (retimed-IsSound true true p h)
Step-IsSound {p} stops h = retimed-IsSound false false p h
Step-IsSound {p} (caches o) h = record {
  new_flights = h.new_flights;
  new_batches = h.new_batches;
  distinct = h.distinct;
  tracked = h.tracked;
  bounded = h.bounded;
  tally = h.tally;
}
Step-IsSound {p} (queues now t maker taker) h =
    let k = queued-IsSound t maker taker p h in
    either-IsSound (leb p.max_batch_size (length (queued t maker taker p).pending_trades))
      (flush_batch now (queued t maker taker p)) (queued t maker taker p)
      (flush_batch-IsSound now (queued t maker taker p) k) k
Step-IsSound {p} (ticks now on) h = flush_batch-IsSound now p h
Step-IsSound {p} (submits net id f l e) h =
    submit_result-IsSound id f p (retry_with_backoff net 3 1000).result l e h
Step-IsSound {p} (settles net id hash f l e) h =
    receipt_result-IsSound id f p (retry_with_backoff net 2 1000).result l h

-- Any run of events keeps the pipeline sound: batch numbers from the counter on are unused, each
-- call under way has the batch with its own trades, in the status that the call waits in, no trade
-- that waits or is under way was queued again more than three times, and the confirmed batches, the
-- failed ones and those under way are as many as the counter says.
pub Run-IsSound :
    {p q : SettlementPipeline} {ts : List Trade} {o : Outcome}
    → Run p ts o q
    → IsSound p
    → IsSound q
Run-IsSound idle h = h
Run-IsSound (after r s) h = Step-IsSound s (Run-IsSound r h)

held-flush_batch :
    (w : Trade → ℕ) (now : ℕ) (p : SettlementPipeline)
    → IsSound p
    → held w (flush_batch now p) ≡ held w p
unfolding flush_batch
held-flush_batch w now p h =
    held-flush_trades w now p p.pending_trades (h.new_flights p.batch_counter (omega arith)) refl

held-queued :
    (w : Trade → ℕ) (t : Trade) (maker taker : Order) (p : SettlementPipeline)
    → held w (queued t maker taker p) ≡ held w p + w t
held-queued w t maker taker p = ground (
  arith,
  weight-append w p.pending_trades
      (record { trade = t; maker_order = maker; taker_order = taker; requeue_count = 0 } ∷ []),
)

held-queue_trade :
    (w : Trade → ℕ) (now : ℕ) (t : Trade) (maker taker : Order) (p : SettlementPipeline)
    → IsSound p
    → held w (queue_trade now t maker taker p) ≡ held w p + w t
unfolding queue_trade
held-queue_trade w now t maker taker p h = ground (
  arith,
  held-queued w t maker taker p,
  held-flush_batch w now (queued t maker taker p) (queued-IsSound t maker taker p h),
)

held-start : (w : Trade → ℕ) (p : SettlementPipeline) → held w (start p) ≡ held w p
unfolding start
held-start w p = ground arith

-- What an event takes in is what more is held and what leaves.
Step-conserves :
    (w : Trade → ℕ) {p q : SettlementPipeline} {ts : List Trade} {o : Outcome}
    → IsSound p
    → Step p ts o q
    → held w q + left w o ≡ held w p + sum_by w ts
unfolding stop cache_order after_submit after_receipt
Step-conserves w {p} h starts = omega (arith, held-start w p)
Step-conserves w {p} h stops = refl
Step-conserves w {p} h (caches o) = refl
Step-conserves w {p} h (queues now t maker taker) =
    omega (arith, held-queue_trade w now t maker taker p h)
Step-conserves w {p} h (ticks now on) = omega (arith, held-flush_batch w now p h)
Step-conserves w {p} h (submits net id f l e) =
    omega (arith, held-submit_result w id f p (retry_with_backoff net 3 1000).result l)
Step-conserves w {p} h (settles net id hash f l e) =
    omega (arith, held-receipt_result w id f p (retry_with_backoff net 2 1000).result l)

left-both : (w : Trade → ℕ) (a b : Outcome) → left w (both a b) ≡ left w a + left w b
left-both w a b = ground (
  arith,
  weight-append w a.stored b.stored,
  weight-append w a.reverted b.reverted,
  weight-append w a.given_up b.given_up,
)

-- Over any run of events, however the calls of `flushBatch` overlap, from a sound pipeline: the
-- trades held before and the trades queued are, in number and for any weight, the trades held
-- after, those stored, those of reverted transactions and those given up.
pub Run-conserves :
    (w : Trade → ℕ) {p q : SettlementPipeline} {ts : List Trade} {o : Outcome}
    → IsSound p
    → Run p ts o q
    → held w q + left w o ≡ held w p + sum_by w ts
Run-conserves w h idle = refl
Run-conserves w h (after {ts = ts} {us = us} {a = a} {b = b} r s) = omega (
  arith,
  Run-conserves w h r,
  Step-conserves w (Run-IsSound r h) s,
  left-both w a b,
  sum_by-append w ts us,
)
