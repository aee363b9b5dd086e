-- ===== src/Nonces/Tests.antt =====
-- A nonce manager at work.
use sur_protocol.Common.{◌≡◌, refl, [], ◌∷◌, some}
use sur_protocol.Nonces.{
  NonceManager, sync, get_nonce, reject_nonce, init, takes, confirms, handed, handed_lem,
  resume_get_nonce,
}

handed_lem_example :
    handed
      (takes ∷ takes ∷ confirms ∷ takes ∷ [])
      (record { current_nonce = some 7; pending_count = 1 })
    ≡ 8 ∷ 9 ∷ 10 ∷ []
handed_lem_example = handed_lem (takes ∷ takes ∷ confirms ∷ takes ∷ []) 7 1

-- Of two nonces in flight the first is rejected: the second is handed out again.
abbrev rejected : NonceManager
rejected = reject_nonce (get_nonce (get_nonce (sync 7 init)).0).0

handed_twice : (get_nonce (get_nonce (sync 7 init)).0).1 ≡ (get_nonce rejected).1
unfolding sync get_nonce reject_nonce
handed_twice = refl

-- Two calls that wait for the count at once get the same nonce.
same_for_both : (resume_get_nonce 7 init).1 ≡ (resume_get_nonce 7 (resume_get_nonce 7 init).0).1
unfolding sync get_nonce
same_for_both = refl
