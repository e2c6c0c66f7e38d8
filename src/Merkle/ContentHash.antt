-- ===== src/Merkle/ContentHash.antt =====
-- `algorithm:hexdigest` texts, as both Merkle modules of scripts/lib split and print them. A text is
-- the list of its code units, and a Buffer the list of its bytes.
pub mod RoundTrip
pub use cdx_file_format_spec.Prelude.{Units, Bytes, codes}
use cdx_file_format_spec.Prelude.{
  ℕ, zero, suc, ◌+◌, ◌-◌, ◌*◌, ◌/◌, ◌%◌, String, Bool, true, false, ◌&&◌, ◌||◌, List, [], ◌∷◌, ◌++◌,
  all, length, take, drop, leb, ◌==◌, if◌then◌else◌, Option, none, some, Result, ok, err, ◌>>=◌,
}

-- Why a Merkle function throws. `type_error` is an exception of the run time, not of the module.
pub data MerkleError : Type 0 where
  not_a_text malformed_hash malformed_hex unsupported mixed_algorithms empty_tree : MerkleError
  index_out_of_range not_an_array path_too_long malformed_element type_error : MerkleError

pub record DecodedHash : Type 0 where
  pub algorithm : Units
  pub bytes : Bytes

-- h.indexOf(c)
abbrev pub index_of : ℕ → Units → Option ℕ
index_of c [] = none
index_of c (x ∷ xs) =
    if x == c then some 0 else (elim (index_of c xs) [ none ↦ none | some i ↦ some (suc i) ])

-- A digit of /[a-f0-9]/, and the number that it stands for.
abbrev pub is_hex : ℕ → Bool
is_hex c = (leb b'a' c && leb c b'f') || (leb b'0' c && leb c b'9')

abbrev pub hex_value : ℕ → ℕ
hex_value c = if leb c b'9' then c - b'0' else c - 87

abbrev pub hex_digit : ℕ → ℕ
hex_digit n = if leb n 9 then n + b'0' else n + 87

-- Buffer.from(hex, 'hex') at an even number of digits, and its inverse, .toString('hex').
abbrev pub from_hex : Units → Bytes
from_hex (a ∷ b ∷ rest) = (hex_value a * 16 + hex_value b) ∷ from_hex rest
from_hex _ = []

abbrev pub to_hex : Bytes → Units
to_hex [] = []
to_hex (b ∷ bs) = hex_digit (b / 16) ∷ hex_digit (b % 16) ∷ to_hex bs

-- `^[a-f0-9]+$` and the test on the parity.
abbrev pub is_hex_digest : Units → Bool
is_hex_digest hex = all is_hex hex && (leb 1 (length hex) && length hex % 2 == 0)

abbrev pub split_hash : Units → Option ℕ → Result MerkleError DecodedHash
split_hash h none = err malformed_hash
split_hash h (some zero) = err malformed_hash
split_hash h (some (suc i)) =
    let hex = drop (suc (suc i)) h in
    if is_hex_digest hex
    then ok (record { algorithm = take (suc i) h; bytes = from_hex hex })
    else err malformed_hex

-- `none` is a value that is no text.
unfoldable pub decode_content_hash : Option Units → Result MerkleError DecodedHash
decode_content_hash none = err not_a_text
decode_content_hash (some h) = split_hash h (index_of b':' h)

-- `${algorithm}:${bytes.toString('hex')}`
abbrev pub print_hash : Units → Bytes → Units
print_hash algorithm bytes = algorithm ++ b':' ∷ to_hex bytes
