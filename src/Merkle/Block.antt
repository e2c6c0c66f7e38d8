-- ===== src/Merkle/Block.antt =====
-- scripts/lib/block-merkle.ts: the cdx-bmt-1 tree over the leaf hashes of a document's blocks.
-- Node's `createHash(name).update(bytes).digest()` is the parameter `digest name bytes`, and the
-- canonical bytes of a block are the argument of `block_leaf_hash`. What a loop throws ends it.
pub mod Levels
pub mod PathLoop
pub mod Inclusion
pub mod Binding
mod Tests
pub use cdx_file_format_spec.Prelude.{same_units, includes}
use cdx_file_format_spec.Prelude.{
  ℕ, zero, suc, ◌+◌, ◌-◌, ◌/◌, ◌%◌, Bool, true, false, ◌&&◌, List, [], ◌∷◌, ◌++◌, length, get_or,
  ltb, leb, ◌==◌, if◌then◌else◌, Option, none, some, Result, ok, err, ◌>>=◌, ◌>>◌,
}
use cdx_file_format_spec.Merkle.ContentHash.{
  Units, Bytes, codes, MerkleError, not_a_text, malformed_hash, malformed_hex, unsupported,
  mixed_algorithms, empty_tree, index_out_of_range, not_an_array, path_too_long, malformed_element,
  type_error, DecodedHash, decode_content_hash, print_hash,
}

-- The own keys of BLOCK_HASHES, each mapped to itself.
abbrev pub block_hashes : List Units
block_hashes =
    codes "sha256" ∷ codes "sha384" ∷ codes "sha512" ∷ codes "sha3-256" ∷ codes "sha3-512" ∷ []

-- The keys that an object literal inherits: looking one up gives a value that is not `undefined`.
abbrev pub inherited_keys : List Units
inherited_keys =
    codes "constructor"
    ∷ codes "__proto__"
    ∷ codes "toString"
    ∷ codes "toLocaleString"
    ∷ codes "valueOf"
    ∷ codes "hasOwnProperty"
    ∷ codes "isPrototypeOf"
    ∷ codes "propertyIsEnumerable"
    ∷ codes "__defineGetter__"
    ∷ codes "__defineSetter__"
    ∷ codes "__lookupGetter__"
    ∷ codes "__lookupSetter__"
    ∷ []

-- What the look-up of an algorithm gives: a name for `createHash`, or an inherited value.
pub data NodeName : Type 0 where
  named : Units → NodeName
  inherited : NodeName

unfoldable pub node_hash_name : Units → Result MerkleError NodeName
node_hash_name a =
    if includes block_hashes a
    then ok (named a)
    else if includes inherited_keys a
    then ok inherited
    else err unsupported

pub data Position : Type 0 where
  left right : Position

-- An element of a proof as it arrives: `malformed` is null, no object, or of another position.
-- Its hash is `none` if it is no text.
pub data PathElement : Type 0 where
  malformed : PathElement
  element : Position → Option Units → PathElement

-- LEAF_TAG, INTERNAL_TAG
abbrev pub leaf_tag : ℕ
leaf_tag = 0

abbrev pub internal_tag : ℕ
internal_tag = 1

abbrev pub max_block_path : ℕ
max_block_path = 256

-- leaves.map(decode), each of the tree's algorithm.
unfoldable pub decode_leaves : Units → List (Option Units) → Result MerkleError (List Bytes)
decode_leaves algorithm [] = ok []
decode_leaves algorithm (l ∷ ls) = do
  d ← decode_content_hash l
  if same_units d.algorithm algorithm
      then (do rest ← decode_leaves algorithm ls; ok (d.bytes ∷ rest))
      else err mixed_algorithms

abbrev pub sibling : ℕ → ℕ
sibling pos = if pos % 2 == 0 then pos + 1 else pos - 1

abbrev pub path_element : Units → List Bytes → ℕ → PathElement
path_element algorithm level pos =
    element (if pos % 2 == 0 then right else left)
      (some (print_hash algorithm (get_or level (sibling pos) [])))

-- odd && pos === level.length - 1
abbrev pub is_promoted : List Bytes → ℕ → Bool
is_promoted level pos = length level % 2 == 1 && pos == length level - 1

module _ (digest : Units → Bytes → Bytes) where
  -- `createHash` refuses what is no text.
  abbrev pub create_hash : NodeName → Bytes → Result MerkleError Bytes
  create_hash (named a) bytes = ok (digest a bytes)
  create_hash inherited bytes = err type_error

  -- H(0x01 || left || right)
  unfoldable pub internal_node : Units → Bytes → Bytes → Result MerkleError Bytes
  internal_node algorithm l r = do
    name ← node_hash_name algorithm
    create_hash name (internal_tag ∷ l ++ r)

  -- H(0x00 || JCS(block))
  unfoldable pub block_leaf_hash : Bytes → Units → Result MerkleError Units
  block_leaf_hash jcs algorithm = do
    name ← node_hash_name algorithm
    bytes ← create_hash name (leaf_tag ∷ jcs)
    ok (print_hash algorithm bytes)

  -- One round of the loop: neighbours are joined, an odd last node goes up unchanged.
  unfoldable pub next_level : Units → List Bytes → Result MerkleError (List Bytes)
  next_level algorithm (l ∷ r ∷ rest) = do
    node ← internal_node algorithm l r
    up ← next_level algorithm rest
    ok (node ∷ up)
  next_level algorithm level = ok level

  -- while (level.length > 1). The fuel is the number of leaves.
  unfoldable pub reduce_levels : ℕ → Units → List Bytes → Result MerkleError (List Bytes)
  reduce_levels zero algorithm level = ok level
  reduce_levels (suc fuel) algorithm level = elim (ltb 1 (length level)) [
    | true ↦ next_level algorithm level >>= λ next. reduce_levels fuel algorithm next
    | false ↦ ok level
  ]

  unfoldable pub block_merkle_root : List (Option Units) → Result MerkleError Units
  block_merkle_root [] = err empty_tree
  block_merkle_root (leaf ∷ leaves) = do
    first ← decode_content_hash leaf
    node_hash_name first.algorithm
    level ← decode_leaves first.algorithm (leaf ∷ leaves)
    top ← reduce_levels (length level) first.algorithm level
    ok (print_hash first.algorithm (get_or top 0 []))

  -- The loop of the proof generator, with the path so far.
  unfoldable pub path_loop :
      ℕ → Units → List Bytes → ℕ → List PathElement → Result MerkleError (List PathElement)
  path_loop zero algorithm level pos path = ok path
  path_loop (suc fuel) algorithm level pos path = elim (ltb 1 (length level)) [
    | true ↦ next_level algorithm level >>= λ next. elim (is_promoted level pos) [
      | true ↦ path_loop fuel algorithm next (length next - 1) path
      | false ↦
          path_loop fuel algorithm next (pos / 2) (path ++ path_element algorithm level pos ∷ [])
    ]
    | false ↦ ok path
  ]

  -- The index is a natural number; a negative or fractional one is out of range as well.
  unfoldable pub generate_block_inclusion_proof :
      List (Option Units) → ℕ → Result MerkleError (List PathElement)
  generate_block_inclusion_proof [] index = err index_out_of_range
  generate_block_inclusion_proof (leaf ∷ leaves) index =
      if leb (length (leaf ∷ leaves)) index then err index_out_of_range else do
        block_merkle_root (leaf ∷ leaves)
        first ← decode_content_hash leaf
        level ← decode_leaves first.algorithm (leaf ∷ leaves)
        path_loop (length level) first.algorithm level index []

  -- A left sibling stands on the left.
  abbrev pub join_sibling : Units → Position → Bytes → Bytes → Result MerkleError Bytes
  join_sibling algorithm left sib acc = internal_node algorithm sib acc
  join_sibling algorithm right sib acc = internal_node algorithm acc sib

  -- The fold of the verifier over the path.
  unfoldable pub fold_path : Units → Bytes → List PathElement → Result MerkleError Bytes
  fold_path algorithm acc [] = ok acc
  fold_path algorithm acc (malformed ∷ path) = err malformed_element
  fold_path algorithm acc (element position hash ∷ path) = do
    sib ← decode_content_hash hash
    if same_units sib.algorithm algorithm
        then (do
          acc' ← join_sibling algorithm position sib.bytes acc
          fold_path algorithm acc' path)
        else err mixed_algorithms

  -- `none` is a path that is no array.
  unfoldable pub verify_block_inclusion :
      Option Units → Option (List PathElement) → Option Units → Result MerkleError Bool
  verify_block_inclusion leaf none root = err not_an_array
  verify_block_inclusion leaf (some path) root =
      if ltb max_block_path (length path) then err path_too_long else do
        d ← decode_content_hash leaf
        node_hash_name d.algorithm
        acc ← fold_path d.algorithm d.bytes path
        r ← decode_content_hash root
        if same_units r.algorithm d.algorithm
            then ok (same_units acc r.bytes)
            else err mixed_algorithms
