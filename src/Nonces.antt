-- ===== src/Nonces.antt =====
-- `NonceManager` of api/src/nonce-manager.ts. `getNonce` is split at its await: without a nonce it
-- waits for the transaction count, and goes on when the count has come.
use sur_protocol.Common.{
  ℕ, zero, suc, ◌+◌, ◌-◌, ◌≡◌, refl, ap, ◌∙◌, true, List, [], ◌∷◌, Option, none, some, arith,
  if◌then◌else◌, ltb,
}
mod Tests

pub record NonceManager : Type 0 where
  pub current_nonce : Option ℕ
  pub pending_count : ℕ

abbrev pub init : NonceManager
init = record { current_nonce = none; pending_count = 0 }

-- `sync`, when the client has answered.
unfoldable pub sync : ℕ → NonceManager → NonceManager
sync count s = record { current_nonce = some count; pending_count = 0 }

-- `getNonce` where a nonce is known; none where the call waits for `sync`.
unfoldable pub get_nonce : NonceManager → NonceManager × Option ℕ
get_nonce s = elim s.current_nonce [
  | none ↦ (s, none)
  | some n ↦ (record s { pending_count = suc s.pending_count }, some (n + s.pending_count))
]

-- The rest of a `getNonce` that has waited.
abbrev pub resume_get_nonce : ℕ → NonceManager → NonceManager × Option ℕ
resume_get_nonce count s = get_nonce (sync count s)

unfoldable pub confirm_nonce : NonceManager → NonceManager
confirm_nonce s = elim s.current_nonce [
  | none ↦ s
  | some n ↦
      if ltb 0 s.pending_count
      then record { current_nonce = some (suc n); pending_count = s.pending_count - 1 }
      else s
]

unfoldable pub reject_nonce : NonceManager → NonceManager
reject_nonce s =
    if ltb 0 s.pending_count then record s { pending_count = s.pending_count - 1 } else s

-- `reset`, up to its `sync`.
unfoldable pub reset : NonceManager → NonceManager
reset s = record { current_nonce = none; pending_count = 0 }

-- What the users of a manager do between two synchronisations while no transaction is rejected.
pub data Use : Type 0 where
  takes : Use
  confirms : Use

abbrev pub cons_some : Option ℕ → List ℕ → List ℕ
cons_some none ns = ns
cons_some (some n) ns = n ∷ ns

-- The nonces that are handed out.
abbrev pub handed : List Use → NonceManager → List ℕ
handed [] s = []
handed (takes ∷ us) s = let (s', n) = get_nonce s in cons_some n (handed us s')
handed (confirms ∷ us) s = handed us (confirm_nonce s)

abbrev pub takings : List Use → ℕ
takings [] = 0
takings (takes ∷ us) = suc (takings us)
takings (confirms ∷ us) = takings us

abbrev pub count_up : ℕ → ℕ → List ℕ
count_up n zero = []
count_up n (suc k) = n ∷ count_up (suc n) k

-- Between two synchronisations, while no transaction is rejected, a manager hands out consecutive
-- nonces, from the first that is neither confirmed nor pending on: however the confirmations fall
-- between, no nonce is handed out twice and none is left out.
pub handed_lem :
    (us : List Use) (c p : ℕ)
    → handed us (record { current_nonce = some c; pending_count = p })
      ≡ count_up (c + p) (takings us)
unfolding get_nonce confirm_nonce
handed_lem [] c p = refl
handed_lem (takes ∷ us) c p =
    let next : c + suc p ≡ suc (c + p) = omega arith in
    ap (λ (ns : List ℕ). (c + p) ∷ ns)
      (handed_lem us c (suc p) ∙ ap (λ (n : ℕ). count_up n (takings us)) next)
handed_lem (confirms ∷ us) c zero = handed_lem us c zero
handed_lem (confirms ∷ us) c (suc p) =
    let pending : ltb 0 (suc p) ≡ true = ground arith in
    let same : suc c + (suc p - 1) ≡ c + suc p = omega arith in
    rw (pending, if◌then◌else◌)
      (handed_lem us (suc c) (suc p - 1) ∙ ap (λ (n : ℕ). count_up n (takings us)) same)
