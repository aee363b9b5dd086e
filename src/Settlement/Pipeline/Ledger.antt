-- ===== src/Settlement/Pipeline/Ledger.antt =====
-- The runs of the pipeline, and where every trade is in them.
use sur_protocol.Common.{
  ℕ, ◌+◌, true, ◌≡◌, refl, List, [], ◌∷◌, ◌++◌, Option, none, some, arith, sum_by, sum_by-append,
  nat_eq,
}
use sur_protocol.Common.Dict.{
  lookup, sum_values, sum_values-insert_new, sum_values-insert_present, sum_values-erase,
}
use sur_protocol.Types.{Order, Trade}
use sur_protocol.Settlement.Pipeline.{
  PendingTrade, Flight, SettlementPipeline, Outcome, nothing, ReceiptStatus, queue_trade,
  flush_batch, after_submit, after_receipt, requeue, dropped, start, stop, cache_order,
  flush_trades, fail_batch, submit_result, receipt_result,
}

-- One event of the pipeline: the trades that enter, and what leaves. A call of `flushBatch` goes on
-- when its retries have ended, in any order with the other calls.
pub data Step (p : SettlementPipeline) : List Trade → Outcome → SettlementPipeline → Type 0 where
  starts : Step p [] nothing (start p)
  stops : Step p [] nothing (stop p)
  caches : (o : Order) → Step p [] nothing (cache_order o p)
  queues :
      (now : ℕ) (t : Trade) (maker taker : Order)
      → Step p (t ∷ []) nothing (queue_trade now t maker taker p)
  ticks : (now : ℕ) → p.timer ≡ true → Step p [] nothing (flush_batch now p)
  submits :
      (net : ℕ → Option ℕ) (id : ℕ) (f : Flight)
      → lookup id p.in_flight ≡ some f
      → f.tx_hash ≡ none
      → Step p [] (after_submit net id f p).1 (after_submit net id f p).0
  settles :
      (net : ℕ → Option ReceiptStatus) (id hash : ℕ) (f : Flight)
      → lookup id p.in_flight ≡ some f
      → f.tx_hash ≡ some hash
      → Step p [] (after_receipt net id f p).1 (after_receipt net id f p).0

abbrev pub both : Outcome → Outcome → Outcome
both a b = record {
  stored = a.stored ++ b.stored;
  reverted = a.reverted ++ b.reverted;
  given_up = a.given_up ++ b.given_up;
}

-- Any number of events.
pub data Run (p : SettlementPipeline) : List Trade → Outcome → SettlementPipeline → Type 0 where
  idle : Run p [] nothing p
  after :
      {ts us : List Trade} {a b : Outcome} {q r : SettlementPipeline}
      → Run p ts a q
      → Step q us b r
      → Run p (ts ++ us) (both a b) r

module _ (w : Trade → ℕ) where
  -- What trades weigh. With a weight of 1 on some trades and 0 on others, how many there are.
  abbrev pub weight : List PendingTrade → ℕ
  weight = sum_by (λ t. w t.trade)

  abbrev pub left : Outcome → ℕ
  left o = weight o.stored + (weight o.reverted + weight o.given_up)

  -- What waits, and what is in a batch under way.
  abbrev pub held : SettlementPipeline → ℕ
  held p = weight p.pending_trades + sum_values (λ f. weight f.to_settle) p.in_flight

  weight-requeue : (ts : List PendingTrade) → weight (requeue ts) + weight (dropped ts) ≡ weight ts
  weight-requeue [] = refl
  weight-requeue (t ∷ ts) = ground (arith, weight-requeue ts)

  pub weight-append : (ts us : List PendingTrade) → weight (ts ++ us) ≡ weight ts + weight us
  weight-append ts us = sum_by-append (λ (t : PendingTrade). w t.trade) ts us

  pub held-flush_trades :
      (now : ℕ) (p : SettlementPipeline) (ts : List PendingTrade)
      → lookup p.batch_counter p.in_flight ≡ none
      → p.pending_trades ≡ ts
      → held (flush_trades now p ts) ≡ held p
  held-flush_trades now p [] fresh e = refl
  held-flush_trades now p (t ∷ ts) fresh e = ground (
    arith,
    sum_values-insert_new (λ (f : Flight). weight f.to_settle) p.batch_counter
        (record { to_settle = t ∷ ts; tx_hash = none }) p.in_flight fresh,
    e,
  )

  held-fail_batch :
      (id : ℕ) (f : Flight) (p : SettlementPipeline)
      → lookup id p.in_flight ≡ some f
      → held (fail_batch id f p).0 + left (fail_batch id f p).1 ≡ held p
  held-fail_batch id f p e = ground (
    arith,
    weight-append p.pending_trades (requeue f.to_settle),
    weight-requeue f.to_settle,
    sum_values-erase (λ (g : Flight). weight g.to_settle) id f p.in_flight e,
  )

  pub held-submit_result :
      (id : ℕ) (f : Flight) (p : SettlementPipeline) (r : Option ℕ)
      → lookup id p.in_flight ≡ some f
      → held (submit_result id f p r).0 + left (submit_result id f p r).1 ≡ held p
  held-submit_result id f p none e = held-fail_batch id f p e
  held-submit_result id f p (some hash) e = ground (
    arith,
    sum_values-insert_present (λ (g : Flight). weight g.to_settle) id
        (record f { tx_hash = some hash }) f p.in_flight e,
  )

  pub held-receipt_result :
      (id : ℕ) (f : Flight) (p : SettlementPipeline) (r : Option ReceiptStatus)
      → lookup id p.in_flight ≡ some f
      → held (receipt_result id f p r).0 + left (receipt_result id f p r).1 ≡ held p
  held-receipt_result id f p none e = held-fail_batch id f p e
  held-receipt_result id f p (some ReceiptStatus.success) e =
      ground (arith, sum_values-erase (λ (g : Flight). weight g.to_settle) id f p.in_flight e)
  held-receipt_result id f p (some ReceiptStatus.reverted) e =
      ground (arith, sum_values-erase (λ (g : Flight). weight g.to_settle) id f p.in_flight e)
