-- ===== src/Merkle/Aggregated/BindingRule.antt =====
-- When provenance-timestamp.ts reports no problem.
use cdx_file_format_spec.Prelude.{◌≡◌, ◌↔◌, ◌⊎◌, true, [], ==_iff, some, ok, arith, ap}
use cdx_file_format_spec.Merkle.ContentHash.{Units, Bytes, codes}
use cdx_file_format_spec.Merkle.Block.{same_units}
use cdx_file_format_spec.Merkle.Block.Levels.{same_units_refl, same_units-eq}
use cdx_file_format_spec.Merkle.Aggregated.{
  Field, missing, text, other, as_text, same_field, Timestamp, document_hash_of, path_of,
  verify_merkle_inclusion, check_timestamp_binding,
}

same_field_iff : (f g : Field) → (same_field f g ≡ true) ↔ (f ≡ g)
same_field_iff missing missing = ground arith
same_field_iff missing (text t) = ground arith
same_field_iff missing (other n) = ground arith
same_field_iff (text s) missing = ground arith
same_field_iff (text s) (text t) = (λ h. ap text (same_units-eq s t h), λ e. same_text (cc e))
  where
    same_text : s ≡ t → same_units s t ≡ true
    same_text e = rw e (same_units_refl t)
same_field_iff (text s) (other n) = ground arith
same_field_iff (other m) missing = ground arith
same_field_iff (other m) (text t) = ground arith
same_field_iff (other m) (other n) = ground (arith, ==_iff m n)

-- The timestamp commits to the document directly.
pub record IsDirect (t : Timestamp) (document_id : Units) : Type 0 where
  pub kind : (t.kind ≡ text (codes "rfc3161")) ⊎ (t.kind ≡ text (codes "blockchain"))
  pub hash : t.hash ≡ text document_id

-- The timestamp commits to a Merkle root over it.
pub record IsAggregated (digest : Units → Bytes → Bytes) (t : Timestamp) (document_id : Units)
    : Type 0 where
  pub kind : t.kind ≡ text (codes "aggregated")
  pub hash : t.hash ≡ text document_id
  pub leaf : document_hash_of t.proof ≡ text document_id
  pub verified :
      verify_merkle_inclusion digest (some document_id) (path_of t.proof) (as_text t.merkle_root)
      ≡ ok true

module _ (digest : Units → Bytes → Bytes) where
  -- No problem is reported exactly if the binding holds: an rfc3161 or blockchain timestamp whose hash
  -- is the document's id, or an aggregated one whose hash and proof.documentHash both are, and whose
  -- path the verifier accepts from the document's id to the Merkle root.
  pub problems-nil_iff :
      (t : Timestamp) (document_id : Units)
      → ((check_timestamp_binding digest (some t) document_id).problems ≡ [])
        ↔ IsDirect t document_id ⊎ IsAggregated digest t document_id
  unfolding check_timestamp_binding
  problems-nil_iff t document_id = ground (
    arith,
    same_field_iff t.kind (text (codes "rfc3161")),
    same_field_iff t.kind (text (codes "blockchain")),
    same_field_iff t.kind (text (codes "aggregated")),
    same_field_iff t.hash (text document_id),
    same_field_iff (document_hash_of t.proof) (text document_id),
    same_field_iff t.hash (document_hash_of t.proof),
  )
