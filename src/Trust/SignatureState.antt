-- ===== src/Trust/SignatureState.antt =====
-- scripts/lib/signature-state.ts: the state of one signature from the verdicts that a verifier
-- computed. `chain_result` and `revocation_status` are texts, as at run time: the code takes
-- values outside of the declared unions into account.
pub mod Rules
mod Tests
use cdx_file_format_spec.Prelude.{String, Bool, true, false, not, ◌&&◌, ◌||◌, str_eq, if◌then◌else◌}

pub data SignatureState : Type 0 where
  valid invalid expired revoked untrusted unknown : SignatureState

pub record SignatureStateInputs : Type 0 where
  pub header_consistent : Bool
  pub signature_verifies : Bool
  pub chain_result : String
  pub revocation_status : String
  pub signing_time_within_validity : Bool
  pub cert_currently_expired : Bool
  pub reference_time_trusted : Bool

unfoldable pub evaluate_signature_state : SignatureStateInputs → SignatureState
evaluate_signature_state i =
    if not i.header_consistent || not i.signature_verifies
    then invalid
    else if i.reference_time_trusted && not i.signing_time_within_validity
    then invalid
    else if not (str_eq i.chain_result "anchored")
    then (if str_eq i.chain_result "unknown" then unknown else untrusted)
    else if not (str_eq i.revocation_status "good")
    then (if str_eq i.revocation_status "revoked" then revoked else unknown)
    else if i.cert_currently_expired
    then expired
    else valid

-- `p.state === 'valid'`.
abbrev pub is_valid_state : SignatureState → Bool
is_valid_state valid = true
is_valid_state _ = false
