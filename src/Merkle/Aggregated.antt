-- ===== src/Merkle/Aggregated.antt =====
-- scripts/lib/provenance-timestamp.ts: the untagged inclusion proof of an aggregated timestamp, and
-- the binding of a timestamp to a document id. Hashes are split by the code that block-merkle.ts
-- repeats (ContentHash); `digest name bytes` is Node's `createHash(name).update(bytes).digest()`.
pub mod BindingRule
mod Tests
use cdx_file_format_spec.Prelude.{
  ℕ, Bool, true, false, not, ◌&&◌, ◌||◌, List, [], ◌∷◌, ◌++◌, length, ltb, ◌==◌, if◌then◌else◌,
  Option, none, some, Result, ok, err, ◌>>=◌,
}
use cdx_file_format_spec.Merkle.ContentHash.{
  Units, Bytes, codes, MerkleError, unsupported, mixed_algorithms, not_an_array, path_too_long,
  malformed_element, type_error, DecodedHash, decode_content_hash,
}
use cdx_file_format_spec.Merkle.Block.{
  same_units, includes, block_hashes, inherited_keys, Position, left, right, PathElement, malformed,
  element,
}

-- A property of the timestamp object: absent, a text, or another value, told apart by a number.
pub data Field : Type 0 where
  missing : Field
  text : Units → Field
  other : ℕ → Field

abbrev pub as_text : Field → Option Units
as_text (text s) = some s
as_text _ = none

abbrev pub same_field : Field → Field → Bool
same_field missing missing = true
same_field (text s) (text t) = same_units s t
same_field (other m) (other n) = m == n
same_field _ _ = false

abbrev pub is_text : Field → Units → Bool
is_text f s = same_field f (text s)

-- The elements have the shape of those of the block tree.
abbrev pub MerklePathElement : Type 0
MerklePathElement = PathElement

pub record AggregatedProof : Type 0 where
  pub document_hash : Field
  pub path : Option (List MerklePathElement)

-- `proof` is `none` if it is undefined or null, and its `path` if that is no array.
pub record Timestamp : Type 0 where
  pub kind : Field
  pub hash : Field
  pub proof : Option AggregatedProof
  pub merkle_root : Field

pub data Problem : Type 0 where
  not_an_object hash_differs path_does_not_reproduce unknown_type not_bound : Problem
  verification_error : MerkleError → Problem

pub record TimestampBinding : Type 0 where
  pub kind : Field
  pub leaf : Field
  pub bound_to_document : Bool
  pub merkle_verified : Option Bool
  pub problems : List Problem

-- The own keys of MERKLE_HASHES, each mapped to itself.
abbrev pub merkle_hashes : List Units
merkle_hashes =
    codes "sha256" ∷ codes "sha384" ∷ codes "sha512" ∷ codes "sha3-256" ∷ codes "sha3-512" ∷ []

abbrev pub max_merkle_path : ℕ
max_merkle_path = 256

-- timestamp.proof?.documentHash, timestamp.proof?.path
abbrev pub document_hash_of : Option AggregatedProof → Field
document_hash_of none = missing
document_hash_of (some p) = p.document_hash

abbrev pub path_of : Option AggregatedProof → Option (List PathElement)
path_of none = none
path_of (some p) = p.path

module _ (digest : Units → Bytes → Bytes) where
  -- `createHash` refuses an inherited value.
  unfoldable pub hash_concat : Units → Bytes → Bytes → Result MerkleError Bytes
  hash_concat algorithm l r =
      if includes merkle_hashes algorithm
      then ok (digest algorithm (l ++ r))
      else if includes inherited_keys algorithm
      then err type_error
      else err unsupported

  abbrev pub concat_sibling : Units → Position → Bytes → Bytes → Result MerkleError Bytes
  concat_sibling algorithm left sib acc = hash_concat algorithm sib acc
  concat_sibling algorithm right sib acc = hash_concat algorithm acc sib

  unfoldable pub fold_merkle : Units → Bytes → List PathElement → Result MerkleError Bytes
  fold_merkle algorithm acc [] = ok acc
  fold_merkle algorithm acc (malformed ∷ path) = err malformed_element
  fold_merkle algorithm acc (element position hash ∷ path) = do
    sib ← decode_content_hash hash
    if same_units sib.algorithm algorithm
        then (do
          acc' ← concat_sibling algorithm position sib.bytes acc
          fold_merkle algorithm acc' path)
        else err mixed_algorithms

  unfoldable pub verify_merkle_inclusion :
      Option Units → Option (List PathElement) → Option Units → Result MerkleError Bool
  verify_merkle_inclusion leaf none root = err not_an_array
  verify_merkle_inclusion leaf (some path) root =
      if ltb max_merkle_path (length path) then err path_too_long else do
        d ← decode_content_hash leaf
        acc ← fold_merkle d.algorithm d.bytes path
        r ← decode_content_hash root
        if same_units r.algorithm d.algorithm
            then ok (same_units acc r.bytes)
            else err mixed_algorithms

  -- The catch clause: what was thrown is a problem, and the proof is not verified.
  abbrev pub proof_problems : Result MerkleError Bool → List Problem
  proof_problems (ok true) = []
  proof_problems (ok false) = path_does_not_reproduce ∷ []
  proof_problems (err e) = verification_error e ∷ []

  abbrev pub proof_verified : Result MerkleError Bool → Bool
  proof_verified (ok b) = b
  proof_verified (err e) = false

  -- The end of the function: is the leaf the document's id?
  unfoldable pub bind_leaf : Field → Field → Option Bool → List Problem → Units → TimestampBinding
  bind_leaf kind leaf verified problems document_id =
      let bound = is_text leaf document_id in
      record {
        kind = kind;
        leaf = leaf;
        bound_to_document = bound;
        merkle_verified = verified;
        problems = if bound then problems else problems ++ not_bound ∷ [];
      }

  unfoldable pub check_object : Timestamp → Units → TimestampBinding
  unfolding bind_leaf
  check_object t document_id =
      if is_text t.kind (codes "rfc3161") || is_text t.kind (codes "blockchain")
      then bind_leaf t.kind t.hash none [] document_id
      else if is_text t.kind (codes "aggregated")
      then (let leaf = document_hash_of t.proof in
          let run =
            verify_merkle_inclusion (as_text leaf) (path_of t.proof) (as_text t.merkle_root) in
          let differs = if same_field t.hash leaf then [] else hash_differs ∷ [] in
          bind_leaf t.kind leaf (some (proof_verified run)) (differs ++ proof_problems run)
            document_id)
      else record {
        kind = t.kind;
        leaf = missing;
        bound_to_document = false;
        merkle_verified = none;
        problems = unknown_type ∷ [];
      }

  -- `none` is null, or no object.
  unfoldable pub check_timestamp_binding : Option Timestamp → Units → TimestampBinding
  unfolding check_object
  check_timestamp_binding none document_id = record {
    kind = missing;
    leaf = missing;
    bound_to_document = false;
    merkle_verified = none;
    problems = not_an_object ∷ [];
  }
  check_timestamp_binding (some t) document_id = check_object t document_id
