-- ===== src/Trust/SignatureSet.antt =====
-- scripts/lib/signature-set.ts: is every required signer satisfied by a present signature?
-- An entry of the required set is the JS object as it arrives: its own keys, in order, with their
-- values. What the function throws is a `SetError`.
pub mod Integrity
mod Tests
use cdx_file_format_spec.Prelude.{
  ℕ, String, Bool, true, false, ◌&&◌, ◌||◌, not, List, [], ◌∷◌, ◌++◌, any, length, ltb, ◌==◌,
  str_eq, if◌then◌else◌, Result, ok, err, ◌>>=◌, Option, none, some,
}
use cdx_file_format_spec.Trust.SignatureState.{SignatureState, is_valid_state}

pub data FieldValue : Type 0 where
  undefined other : FieldValue
  text : String → FieldValue

abbrev pub RequiredSigner : Type 0
RequiredSigner = List (String × FieldValue)

pub data CredentialPath : Type 0 where
  x509 key_id webauthn : CredentialPath

pub record PresentSignerVerdict : Type 0 where
  pub path : CredentialPath
  pub identity : String
  pub state : SignatureState

pub record RequiredSignersResult : Type 0 where
  pub satisfied : Bool
  pub missing : List RequiredSigner

pub record Matcher : Type 0 where
  pub path : CredentialPath
  pub identity : String

pub data SetError : Type 0 where
  not_one_kind not_a_text : SetError

-- `rec[k]`
unfoldable pub field : String → RequiredSigner → FieldValue
field k [] = undefined
field k ((j, v) ∷ r) = if str_eq j k then v else field k r

abbrev pub is_defined : FieldValue → Bool
is_defined undefined = false
is_defined _ = true

-- `isStr`
abbrev pub non_empty : FieldValue → Option String
non_empty (text s) = if str_eq s "" then none else some s
non_empty _ = none

-- `kinds`: the identity kinds that the entry defines, in the order did, x5tS256, jkt.
unfoldable pub kinds : RequiredSigner → List (String × CredentialPath)
kinds r =
    let jkt = if is_defined (field "jkt" r) then ("jkt", webauthn) ∷ [] else [] in
    let x5t = if is_defined (field "x5tS256" r) then ("x5tS256", x509) ∷ jkt else jkt in
    if is_defined (field "did" r) then ("did", key_id) ∷ x5t else x5t

abbrev pub identity_of : CredentialPath → Option String → Result SetError Matcher
identity_of p none = err not_a_text
identity_of p (some s) = ok (record { path = p; identity = s })

-- The tests on `kinds.length` and on the number of keys, then the text of the one kind.
abbrev pub match_kind : RequiredSigner → List (String × CredentialPath) → Result SetError Matcher
match_kind r ((k, p) ∷ []) =
    if length r == 1 then identity_of p (non_empty (field k r)) else err not_one_kind
match_kind r _ = err not_one_kind

unfoldable pub required_signer_matcher : RequiredSigner → Result SetError Matcher
unfolding kinds field
required_signer_matcher r = match_kind r (kinds r)

abbrev pub same_path : CredentialPath → CredentialPath → Bool
same_path x509 x509 = true
same_path key_id key_id = true
same_path webauthn webauthn = true
same_path _ _ = false

-- `p.path === path && p.identity === identity && p.state === 'valid'`
unfoldable pub satisfies : Matcher → PresentSignerVerdict → Bool
satisfies m p = same_path p.path m.path && (str_eq p.identity m.identity && is_valid_state p.state)

-- The loop over `required`, with the entries found missing so far.
unfoldable pub missing_loop :
    List PresentSignerVerdict
    → List RequiredSigner
    → List RequiredSigner
    → Result SetError (List RequiredSigner)
missing_loop present missing [] = ok missing
missing_loop present missing (e ∷ es) = do
  m ← required_signer_matcher e
  missing_loop present (if any (satisfies m) present then missing else missing ++ e ∷ []) es

abbrev pub is_empty {ℓ} : {A : Type ℓ} → List A → Bool
is_empty [] = true
is_empty _ = false

unfoldable pub evaluate_required_signers :
    List PresentSignerVerdict → List RequiredSigner → Result SetError RequiredSignersResult
unfolding missing_loop satisfies
evaluate_required_signers present required = do
  missing ← missing_loop present [] required
  ok (record { satisfied = is_empty missing; missing = missing })
