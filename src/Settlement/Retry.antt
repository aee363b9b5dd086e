-- ===== src/Settlement/Retry.antt =====
-- `retryWithBackoff` of api/src/settlement/pipeline.ts.
use sur_protocol.Common.{
  ℕ, zero, suc, ◌*◌, ◌^◌, ◌≤◌, ◌≡◌, List, [], ◌∷◌, Option, none, some, arith, All, length,
  if◌then◌else◌, leb,
}

-- What comes of the retries: the result, or none where the last error is thrown, and the waiting
-- times between attempts.
pub record Retried (A : Type 0) : Type 0 where
  pub result : Option A
  pub delays : List ℕ

-- `Math.min(baseDelayMs * Math.pow(2, attempt), 10_000)`
abbrev pub delay : ℕ → ℕ → ℕ
delay base attempt = if leb (base * 2 ^ attempt) 10000 then base * 2 ^ attempt else 10000

module _ {A : Type 0} where
  -- The loop from an attempt on, with the retries that are left. `fn` says what each attempt
  -- returns; none is an error.
  abbrev pub retry_from : (ℕ → Option A) → ℕ → ℕ → ℕ → Retried A
  retry_from fn base attempt zero = record { result = fn attempt; delays = [] }
  retry_from fn base attempt (suc left) = elim (fn attempt) [
    | some a ↦ record { result = some a; delays = [] }
    | none ↦
        let r = retry_from fn base (suc attempt) left in
        record r { delays = delay base attempt ∷ r.delays }
  ]

  unfoldable pub retry_with_backoff : (ℕ → Option A) → ℕ → ℕ → Retried A
  retry_with_backoff fn max_retries base = retry_from fn base 0 max_retries

  -- What the first attempts, up to one with a result, return.
  abbrev pub first_result : (ℕ → Option A) → ℕ → ℕ → Option A
  first_result fn attempt zero = none
  first_result fn attempt (suc n) = elim (fn attempt) [
    | some a ↦ some a
    | none ↦ first_result fn (suc attempt) n
  ]

  pub retry_from-result :
      (fn : ℕ → Option A) (base attempt left : ℕ)
      → (retry_from fn base attempt left).result ≡ first_result fn attempt (suc left)
  retry_from-result fn base attempt zero = ground arith
  retry_from-result fn base attempt (suc left) =
      ground (arith, retry_from-result fn base (suc attempt) left)

  pub retry_from-delays :
      (fn : ℕ → Option A) (base attempt left : ℕ)
      → (length (retry_from fn base attempt left).delays ≤ left)
        × All (λ d. d ≤ 10000) (retry_from fn base attempt left).delays
  retry_from-delays fn base attempt zero = ground arith
  retry_from-delays fn base attempt (suc left) =
      ground (arith, retry_from-delays fn base (suc attempt) left)

  -- The result is that of the first attempt that does not fail among the first and `max_retries`
  -- more, and none if all of them fail; there are at most `max_retries` waits, of at most 10
  -- seconds each.
  pub retry_with_backoff_lem :
      (fn : ℕ → Option A) (max_retries base : ℕ)
      → let r = retry_with_backoff fn max_retries base in
        (r.result ≡ first_result fn 0 (suc max_retries))
        × (length r.delays ≤ max_retries)
        × All (λ d. d ≤ 10000) r.delays
  unfolding retry_with_backoff
  retry_with_backoff_lem fn max_retries base =
      let d = retry_from-delays fn base 0 max_retries in
      (retry_from-result fn base 0 max_retries, d.0, d.1)
