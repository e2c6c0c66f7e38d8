-- ===== src/Trust/SignatureState/Tests.antt =====
-- Runs of the signature-state evaluator, and the theorems at concrete inputs.
use cdx_file_format_spec.Prelude.{◌≡◌, refl, ◌↔◌, true, false}
use cdx_file_format_spec.Trust.SignatureState.{
  SignatureStateInputs, valid, evaluate_signature_state, untrusted,
}
use cdx_file_format_spec.Trust.SignatureState.Rules.{
  precedence, first_match, evaluate-eq-first_match, IsAccepted, valid_iff, valid-untrusted_time,
}

abbrev good : SignatureStateInputs
good = record {
  header_consistent = true;
  signature_verifies = true;
  chain_result = "anchored";
  revocation_status = "good";
  signing_time_within_validity = true;
  cert_currently_expired = false;
  reference_time_trusted = true;
}

good_runs : evaluate_signature_state good ≡ valid
unfolding evaluate_signature_state
good_runs = refl

miscased_runs : evaluate_signature_state (record good { chain_result = "Anchored" }) ≡ untrusted
unfolding evaluate_signature_state
miscased_runs = refl

evaluate-eq-first_match_example : evaluate_signature_state good ≡ first_match precedence valid good
evaluate-eq-first_match_example = evaluate-eq-first_match good

valid_iff_example : (evaluate_signature_state good ≡ valid) ↔ IsAccepted good
valid_iff_example = valid_iff good

valid-untrusted_time_example :
    evaluate_signature_state (record good { reference_time_trusted = false }) ≡ valid
valid-untrusted_time_example = valid-untrusted_time good good_runs
