-- ===== src/Errors.antt =====
-- The error codes of the receipt verifier (`ERROR_CODES`, ugk/invariants.py), and the pair
-- `(ok, error)` that every check returns.
pub data ErrorCode : Type 0 where
  signature_invalid issuer_mismatch no_canonical_path expired_edge : ErrorCode
  not_yet_admissible phase_mismatch capability_escalation : ErrorCode
  namespace_non_member non_canonical : ErrorCode

-- `(True, None)` or `(False, code)`.
pub data Check : Type 0 where
  ok : Check
  refused : ErrorCode → Check

-- `if not ok: return (False, err)`, and then the rest.
infixr 20 ◌then_check◌
abbrev pub ◌then_check◌ : Check → Check → Check
ok then_check c = c
(refused e) then_check c = refused e
