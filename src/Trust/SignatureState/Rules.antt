-- ===== src/Trust/SignatureState/Rules.antt =====
-- What the state machine of signature-state.ts decides: the precedence table of its documentation,
-- the allowlist behind `valid`, and the effect of a trusted reference time.
use cdx_file_format_spec.Prelude.{
  ◌≡◌, ◌↔◌, Bool, true, false, not, ◌&&◌, ◌||◌, List, [], ◌∷◌, arith, eq_iff, str_eq, if◌then◌else◌,
}
use cdx_file_format_spec.Trust.SignatureState.{
  SignatureState, valid, invalid, expired, revoked, untrusted, unknown, SignatureStateInputs,
  evaluate_signature_state,
}

-- One line of the table: when it applies, and the state that it gives.
pub record Rule : Type 0 where
  pub applies : SignatureStateInputs → Bool
  pub state : SignatureState

-- The first rule that applies decides.
abbrev pub first_match : List Rule → SignatureState → SignatureStateInputs → SignatureState
first_match [] d i = d
first_match (r ∷ rs) d i = if r.applies i then r.state else first_match rs d i

-- Rules 1 to 7 of the documentation; rule 8, `valid`, is the default.
abbrev pub precedence : List Rule
precedence =
    record { applies = λ i. not (i.header_consistent && i.signature_verifies); state = invalid }
    ∷ record {
      applies = λ i. not i.signing_time_within_validity && i.reference_time_trusted;
      state = invalid;
    }
    ∷ record { applies = λ i. str_eq i.chain_result "unknown"; state = unknown }
    ∷ record { applies = λ i. not (str_eq i.chain_result "anchored"); state = untrusted }
    ∷ record { applies = λ i. str_eq i.revocation_status "revoked"; state = revoked }
    ∷ record { applies = λ i. not (str_eq i.revocation_status "good"); state = unknown }
    ∷ record { applies = λ i. i.cert_currently_expired; state = expired }
    ∷ []

-- The evaluator is the precedence table of §3.8: for all inputs, also texts outside of the unions,
-- its state is that of the first of the eight rules that applies.
pub evaluate-eq-first_match :
    (i : SignatureStateInputs) → evaluate_signature_state i ≡ first_match precedence valid i
unfolding evaluate_signature_state
evaluate-eq-first_match i = ground (
  arith,
  eq_iff i.chain_result "unknown",
  eq_iff i.chain_result "anchored",
  eq_iff i.revocation_status "revoked",
  eq_iff i.revocation_status "good",
  eq_iff "unknown" "anchored",
  eq_iff "revoked" "good",
)

-- What `valid` stands for.
pub record IsAccepted (i : SignatureStateInputs) : Type 0 where
  pub header : i.header_consistent ≡ true
  pub signature : i.signature_verifies ≡ true
  pub anchored : i.chain_result ≡ "anchored"
  pub good : i.revocation_status ≡ "good"
  pub current : i.cert_currently_expired ≡ false
  pub in_window : (i.signing_time_within_validity || not i.reference_time_trusted) ≡ true

-- The trust path is an allowlist: the state is `valid` exactly if header and signature are good, the
-- chain is the text "anchored", revocation the text "good", the credential is not expired, and the
-- signing time is not provably outside of the validity window.
pub valid_iff : (i : SignatureStateInputs) → (evaluate_signature_state i ≡ valid) ↔ IsAccepted i
unfolding evaluate_signature_state
valid_iff i = ground (arith, eq_iff i.chain_result "anchored", eq_iff i.revocation_status "good")

-- A timestamp that does not validate poisons nothing: a signature that is `valid` under a trusted
-- reference time is still `valid` if only the trust in that time is lost.
pub valid-untrusted_time :
    (i : SignatureStateInputs)
    → evaluate_signature_state i ≡ valid
    → evaluate_signature_state (record i { reference_time_trusted = false }) ≡ valid
unfolding evaluate_signature_state
valid-untrusted_time i h = ground arith
