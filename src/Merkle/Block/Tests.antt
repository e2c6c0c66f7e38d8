-- ===== src/Merkle/Block/Tests.antt =====
-- Runs of the block tree with a small hash function, and the theorems at concrete inputs.
use cdx_file_format_spec.Prelude.{
  ◌≡◌, refl, ◌⊎◌, ◌+◌, ◌%◌, ◌*◌, true, List, [], ◌∷◌, ◌++◌, Option, some, ok, arith, ℕ,
}
use mathlib.Core.List.{foldl}
use cdx_file_format_spec.Merkle.ContentHash.{Units, Bytes, codes, DecodedHash, decode_content_hash}
use cdx_file_format_spec.Merkle.Block.{
  PathElement, element, left, node_hash_name, named, reduce_levels, next_level, decode_leaves,
  path_loop, fold_path, internal_node, block_leaf_hash, block_merkle_root,
  generate_block_inclusion_proof, verify_block_inclusion,
}
use cdx_file_format_spec.Merkle.Block.Levels.{IsHashFunction}
use cdx_file_format_spec.Merkle.Block.Inclusion.{verify-generate}
use cdx_file_format_spec.Merkle.Block.Binding.{Collision, verify_binds, leaf-internal_node}

-- A checksum of one byte stands for the hash function.
abbrev checksum : Units → Bytes → Bytes
checksum a bytes = (foldl (λ s b. (s * 3 + b) % 256) 7 bytes % 256) ∷ []

checksum-IsHashFunction : IsHashFunction checksum
checksum-IsHashFunction = record { bytes = λ a x. omega arith; size = λ a x. omega arith }

abbrev leaf : ℕ → Option Units
leaf n = some (codes "sha256:0" ++ n ∷ [])

abbrev leaf_hash : DecodedHash
leaf_hash = record { algorithm = codes "sha256"; bytes = 1 ∷ [] }

abbrev root : Units
root = codes "sha256:2a"

abbrev three : List (Option Units)
three = leaf b'2' ∷ leaf b'3' ∷ []

three_leaves : block_merkle_root checksum (leaf b'1' ∷ three) ≡ ok root
unfolding block_merkle_root reduce_levels next_level internal_node decode_leaves decode_content_hash
    node_hash_name
three_leaves = refl

-- The promoted leaf has one sibling, on the left.
abbrev last_path : List PathElement
last_path = element left (some (codes "sha256:cb")) ∷ []

last_path_runs : generate_block_inclusion_proof checksum (leaf b'1' ∷ three) 2 ≡ ok last_path
unfolding generate_block_inclusion_proof path_loop block_merkle_root reduce_levels next_level
    internal_node decode_leaves decode_content_hash node_hash_name
last_path_runs = refl

last_verifies : verify_block_inclusion checksum (leaf b'3') (some last_path) (some root) ≡ ok true
unfolding verify_block_inclusion fold_path internal_node decode_content_hash node_hash_name
last_verifies = refl

first_decodes : decode_content_hash (leaf b'1') ≡ ok leaf_hash
unfolding decode_content_hash
first_decodes = refl

sha256_known : node_hash_name (codes "sha256") ≡ ok (named (codes "sha256"))
unfolding node_hash_name
sha256_known = refl

verify-generate_example :
    (path : List PathElement) × (generate_block_inclusion_proof checksum (leaf b'1' ∷ three) 2
      ≡ ok path)
    × (verify_block_inclusion checksum (leaf b'3') (some path) (some root) ≡ ok true)
verify-generate_example =
    verify-generate checksum checksum-IsHashFunction (leaf b'1') three leaf_hash (codes "sha256")
      root 2 first_decodes sha256_known three_leaves (omega arith) (omega arith)

verify_binds_example :
    (decode_content_hash (leaf b'3') ≡ decode_content_hash (leaf b'3')) ⊎ Collision checksum
verify_binds_example =
    verify_binds checksum (leaf b'3') (leaf b'3') (some root) last_path last_verifies last_verifies

abbrev node_hash : DecodedHash
node_hash = record { algorithm = codes "sha256"; bytes = 203 ∷ [] }

node_runs : internal_node checksum (codes "sha256") (1 ∷ []) (2 ∷ []) ≡ ok (203 ∷ [])
unfolding internal_node node_hash_name
node_runs = refl

leaf_runs : block_leaf_hash checksum (140 ∷ []) (codes "sha256") ≡ ok (codes "sha256:cb")
unfolding block_leaf_hash node_hash_name
leaf_runs = refl

node_decodes : decode_content_hash (some (codes "sha256:cb")) ≡ ok node_hash
unfolding decode_content_hash
node_decodes = refl

leaf-internal_node_example : Collision checksum
leaf-internal_node_example =
    leaf-internal_node checksum (140 ∷ []) (codes "sha256") (1 ∷ []) (2 ∷ []) (codes "sha256:cb")
      node_hash checksum-IsHashFunction (omega arith) leaf_runs node_decodes node_runs
