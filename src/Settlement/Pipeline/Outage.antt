-- ===== src/Settlement/Pipeline/Outage.antt =====
-- The pipeline while every submission fails.
use sur_protocol.Common.{
  ℕ, suc, ◌≤◌, ◌≡◌, refl, List, [], ◌∷◌, none, some, Option-cases, inl, inr, arith, All, nat_eq,
  ◌∙◌, ap,
}
use sur_protocol.Common.Dict.{lookup, insert, lookup-insert}
use sur_protocol.Settlement.Retry.{retry_with_backoff}
use sur_protocol.Settlement.Pipeline.{
  PendingTrade, Flight, SettlementPipeline, flush_batch, flush_trades, after_submit, requeue,
}
use sur_protocol.Settlement.Pipeline.Soundness.{IsSound}
use sur_protocol.Settlement.Pipeline.Runs.{fail_batch-IsSound, flush_batch-IsSound}

-- What becomes of a call with every attempt to submit its batch failing.
abbrev resume : ℕ → SettlementPipeline → SettlementPipeline
resume id p = elim (lookup id p.in_flight) [
  | none ↦ p
  | some f ↦ (after_submit (λ _. none) id f p).0
]

-- A flush, and the failure of its batch.
abbrev pub failing_flush : ℕ → SettlementPipeline → SettlementPipeline
failing_flush now p = resume p.batch_counter (flush_batch now p)

resume-pending :
    (now : ℕ) (p : SettlementPipeline) (ts : List PendingTrade)
    → p.pending_trades ≡ ts
    → IsSound p
    → (resume p.batch_counter (flush_trades now p ts)).pending_trades ≡ requeue ts
unfolding after_submit retry_with_backoff
resume-pending now p [] e h = ground (arith, h.new_flights p.batch_counter, e)
resume-pending now p (t ∷ ts) e h =
    let g : Flight = record { to_settle = t ∷ ts; tx_hash = none } in
    let found : lookup p.batch_counter (insert p.batch_counter g p.in_flight) ≡ some g =
      ground (arith, lookup-insert p.batch_counter p.batch_counter g p.in_flight) in
    rw (found, resume) refl

resume-IsSound : (id : ℕ) (p : SettlementPipeline) → IsSound p → IsSound (resume id p)
unfolding after_submit retry_with_backoff
resume-IsSound id p h = elim (Option-cases (lookup id p.in_flight)) [
  | inl e ↦ rw (e, resume) h
  | inr (f, e) ↦ rw (e, resume) (fail_batch-IsSound id f p e h)
]

failing_flush-pending :
    (now : ℕ) (p : SettlementPipeline)
    → IsSound p
    → (failing_flush now p).pending_trades ≡ requeue p.pending_trades
unfolding flush_batch
failing_flush-pending now p h = resume-pending now p p.pending_trades refl h

failing_flush-IsSound :
    (now : ℕ) (p : SettlementPipeline) → IsSound p → IsSound (failing_flush now p)
failing_flush-IsSound now p h =
    resume-IsSound p.batch_counter (flush_batch now p) (flush_batch-IsSound now p h)

-- A round of `requeue` counts up, and drops what has been counted three times.
abbrev Counted : ℕ → List PendingTrade → Type 0
Counted n = All (λ (t : PendingTrade). n ≤ t.requeue_count)

requeue-Counted : (n : ℕ) (ts : List PendingTrade) → Counted n ts → Counted (suc n) (requeue ts)
requeue-Counted n [] c = tt
requeue-Counted n (t ∷ ts) c = ground (arith, requeue-Counted n ts c.1)

requeue_ends : (ts : List PendingTrade) → Counted 3 ts → requeue ts ≡ []
requeue_ends [] c = refl
requeue_ends (t ∷ ts) c = ground (arith, requeue_ends ts c.1)

Counted-none : (ts : List PendingTrade) → Counted 0 ts
Counted-none [] = tt
Counted-none (t ∷ ts) = (omega arith, Counted-none ts)

-- From a sound pipeline, four flushes whose submissions all fail leave nothing waiting: no trade is
-- tried for ever.
pub outage_ends :
    (a b c d : ℕ) (p : SettlementPipeline)
    → IsSound p
    → (failing_flush d (failing_flush c (failing_flush b (failing_flush a p)))).pending_trades ≡ []
outage_ends a b c d p h =
    let h1 = failing_flush-IsSound a p h in
    let h2 = failing_flush-IsSound b (failing_flush a p) h1 in
    let h3 = failing_flush-IsSound c (failing_flush b (failing_flush a p)) h2 in
    failing_flush-pending d (failing_flush c (failing_flush b (failing_flush a p))) h3
    ∙ ap requeue (
        failing_flush-pending c (failing_flush b (failing_flush a p)) h2
        ∙ ap requeue (
            failing_flush-pending b (failing_flush a p) h1
            ∙ ap requeue (failing_flush-pending a p h)))
    ∙ requeue_ends (requeue (requeue (requeue p.pending_trades))) (
        requeue-Counted 2 (requeue (requeue p.pending_trades)) (
          requeue-Counted 1 (requeue p.pending_trades)
            (requeue-Counted 0 p.pending_trades (Counted-none p.pending_trades))))
