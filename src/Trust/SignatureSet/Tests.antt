-- ===== src/Trust/SignatureSet/Tests.antt =====
-- Runs of the signature-set evaluator, and the theorems at concrete inputs.
use cdx_file_format_spec.Prelude.{◌≡◌, refl, ◌≢◌, ◌↔◌, true, false, [], ◌∷◌, ok, err, All, Any}
use cdx_file_format_spec.Trust.SignatureState.{valid}
use cdx_file_format_spec.Trust.SignatureSet.{
  text, RequiredSigner, key_id, PresentSignerVerdict, RequiredSignersResult, Matcher,
  required_signer_matcher, evaluate_required_signers, not_one_kind,
}
use cdx_file_format_spec.Trust.SignatureSet.Integrity.{
  kind_name, matcher_iff, IsMet, satisfied_iff, missing_iff, IsAccepted,
  evaluate_required_signers_returns_iff,
}

abbrev alice : RequiredSigner
alice = ("did", text "did:web:a.example") ∷ []

abbrev bob : RequiredSigner
bob = ("jkt", text "did:web:a.example") ∷ []

abbrev by_alice : PresentSignerVerdict
by_alice = record { path = key_id; identity = "did:web:a.example"; state = valid }

abbrev for_alice : Matcher
for_alice = record { path = key_id; identity = "did:web:a.example" }

-- The same identity on another path does not satisfy the second entry.
abbrev outcome : RequiredSignersResult
outcome = record { satisfied = false; missing = bob ∷ [] }

cross_path : evaluate_required_signers (by_alice ∷ []) (alice ∷ bob ∷ []) ≡ ok outcome
unfolding evaluate_required_signers required_signer_matcher
cross_path = refl

two_kinds : required_signer_matcher (("did", text "x") ∷ ("jkt", text "y") ∷ []) ≡ err not_one_kind
unfolding required_signer_matcher
two_kinds = refl

matcher_iff_example :
    (required_signer_matcher alice ≡ ok for_alice)
    ↔ (for_alice.identity ≢ "") × (alice ≡ (kind_name for_alice.path, text for_alice.identity) ∷ [])
matcher_iff_example = matcher_iff alice for_alice

satisfied_iff_example : (outcome.satisfied ≡ true) ↔ All (IsMet (by_alice ∷ [])) (alice ∷ bob ∷ [])
satisfied_iff_example = satisfied_iff (by_alice ∷ []) (alice ∷ bob ∷ []) outcome cross_path

missing_iff_example :
    Any (λ x. x ≡ bob) outcome.missing
    ↔ Any (λ x. x ≡ bob) (alice ∷ bob ∷ []) × ¬ IsMet (by_alice ∷ []) bob
missing_iff_example = missing_iff (by_alice ∷ []) (alice ∷ bob ∷ []) outcome bob cross_path

alice_accepted : required_signer_matcher alice ≡ ok for_alice
unfolding required_signer_matcher
alice_accepted = refl

abbrev only_alice : RequiredSignersResult
only_alice = record { satisfied = false; missing = alice ∷ [] }

alice_missing : evaluate_required_signers [] (alice ∷ []) ≡ ok only_alice
unfolding evaluate_required_signers required_signer_matcher
alice_missing = refl

evaluate_required_signers_returns_iff_example : All IsAccepted (alice ∷ [])
evaluate_required_signers_returns_iff_example =
    (evaluate_required_signers_returns_iff [] (alice ∷ [])).0 (only_alice, alice_missing)
