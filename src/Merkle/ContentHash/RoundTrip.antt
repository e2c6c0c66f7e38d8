-- ===== src/Merkle/ContentHash/RoundTrip.antt =====
-- Printing a content hash and splitting it again.
use cdx_file_format_spec.Prelude.{
  ℕ, zero, suc, ◌*◌, ◌/◌, ◌%◌, ◌<◌, ◌≤◌, ◌≡◌, refl, ◌≢◌, true, [], ◌∷◌, ◌++◌, all, All, length,
  take, drop, Option, none, some, ok, arith, ap, sym, subst, ◌∙◌,
}
use cdx_file_format_spec.Merkle.ContentHash.{
  Units, Bytes, DecodedHash, index_of, is_hex, hex_value, hex_digit, from_hex, to_hex,
  is_hex_digest, split_hash, decode_content_hash, print_hash,
}

abbrev pub IsBytes : Bytes → Type 0
IsBytes = All (λ b. b < 256)

-- An algorithm's name: some text with no colon.
abbrev pub IsName : Units → Type 0
IsName a = (1 ≤ length a) × All (λ c. c ≢ b':') a

hex_digit-value : (n : ℕ) → n < 16 → (hex_value (hex_digit n) ≡ n) × (is_hex (hex_digit n) ≡ true)
hex_digit-value n h = ground arith

from_hex-to_hex : (bs : Bytes) → IsBytes bs → from_hex (to_hex bs) ≡ bs
from_hex-to_hex [] h = refl
from_hex-to_hex (b ∷ bs) h =
    ground (arith, hex_digit-value (b / 16), hex_digit-value (b % 16), from_hex-to_hex bs)

all-is_hex-to_hex : (bs : Bytes) → IsBytes bs → all is_hex (to_hex bs) ≡ true
all-is_hex-to_hex [] h = refl
all-is_hex-to_hex (b ∷ bs) h =
    ground (arith, hex_digit-value (b / 16), hex_digit-value (b % 16), all-is_hex-to_hex bs)

length-to_hex : (bs : Bytes) → length (to_hex bs) ≡ 2 * length bs
length-to_hex [] = refl
length-to_hex (b ∷ bs) = omega (arith, length-to_hex bs)

index_of-name :
    (a rest : Units) → All (λ c. c ≢ b':') a → index_of b':' (a ++ b':' ∷ rest) ≡ some (length a)
index_of-name [] rest h = refl
index_of-name (c ∷ a) rest h = ground (arith, index_of-name a rest)

take-name : (a rest : Units) → take (length a) (a ++ rest) ≡ a
take-name [] rest = refl
take-name (c ∷ a) rest = ap (λ x. c ∷ x) (take-name a rest)

drop-name : (a rest : Units) (c : ℕ) → drop (suc (length a)) (a ++ c ∷ rest) ≡ rest
drop-name [] rest c = refl
drop-name (x ∷ a) rest c = drop-name a rest c

is_hex_digest-to_hex : (bs : Bytes) → IsBytes bs → 1 ≤ length bs → is_hex_digest (to_hex bs) ≡ true
is_hex_digest-to_hex bs h size = ground (arith, all-is_hex-to_hex bs, length-to_hex bs)

pub split_hash-some :
    (h : Units) (o : Option ℕ) (i : ℕ)
    → o ≡ some (suc i)
    → is_hex_digest (drop (suc (suc i)) h) ≡ true
    → split_hash h o
      ≡ ok (record { algorithm = take (suc i) h; bytes = from_hex (drop (suc (suc i)) h) })
split_hash-some h o i e digest = rw (e, split_hash) (rw digest)

-- A printed hash is split into the algorithm and the bytes that were printed, if the name is not
-- empty and has no colon, and the digest has at least one byte.
pub decode-print_hash :
    (a : Units) (bs : Bytes)
    → IsName a
    → IsBytes bs
    → 1 ≤ length bs
    → decode_content_hash (some (print_hash a bs)) ≡ ok (record { algorithm = a; bytes = bs })
unfolding decode_content_hash
decode-print_hash [] bs name h size = absurd (omega arith)
decode-print_hash (c ∷ a) bs name h size =
    let hex = drop-name (c ∷ a) (to_hex bs) b':' in
    split_hash-some (print_hash (c ∷ a) bs) _ (length a) (index_of-name (c ∷ a) (to_hex bs) name.1)
      (rw hex (is_hex_digest-to_hex bs h size))
    ∙ rw (hex, take-name (c ∷ a) (b':' ∷ to_hex bs), from_hex-to_hex bs h)

from_hex-IsBytes : (hex : Units) → all is_hex hex ≡ true → IsBytes (from_hex hex)
from_hex-IsBytes [] h = tt
from_hex-IsBytes (a ∷ []) h = tt
from_hex-IsBytes (a ∷ b ∷ rest) h = (ground arith, from_hex-IsBytes rest (ground arith))

pub length-from_hex : (hex : Units) → length (from_hex hex) ≡ length hex / 2
length-from_hex [] = refl
length-from_hex (a ∷ []) = refl
length-from_hex (a ∷ b ∷ rest) = omega (arith, length-from_hex rest)

index_of-take :
    (h : Units) (i : ℕ)
    → index_of b':' h ≡ some i
    → (length (take i h) ≡ i) × All (λ c. c ≢ b':') (take i h)
index_of-take [] i e = cc
index_of-take (x ∷ xs) zero e = ground arith
index_of-take (x ∷ xs) (suc i) e = ground (arith, index_of-take xs i)

-- The inverse of `split_hash`, with the facts that it tested.
split_hash-ok :
    (h : Units) (o : Option ℕ) (d : DecodedHash)
    → split_hash h o ≡ ok d
    → (i : ℕ) × (o ≡ some (suc i))
      × (d.algorithm ≡ take (suc i) h)
      × (d.bytes ≡ from_hex (drop (suc (suc i)) h))
      × (is_hex_digest (drop (suc (suc i)) h) ≡ true)
split_hash-ok h none d e = cc
split_hash-ok h (some zero) d e = cc
split_hash-ok h (some (suc i)) d e = (i, refl, ground arith, ground arith, ground arith)

digest-IsBytes :
    (hex : Units) → is_hex_digest hex ≡ true → IsBytes (from_hex hex) × (1 ≤ length (from_hex hex))
digest-IsBytes hex h = (from_hex-IsBytes hex (ground arith), ground (arith, length-from_hex hex))

-- What is split off is a name with no colon, and at least one byte.
pub decode-IsBytes :
    (t : Option Units) (d : DecodedHash)
    → decode_content_hash t ≡ ok d
    → IsName d.algorithm × IsBytes d.bytes × (1 ≤ length d.bytes)
unfolding decode_content_hash
decode-IsBytes none d h = cc
decode-IsBytes (some t) d h =
    let (i, at, name, bytes, digest) = split_hash-ok t (index_of b':' t) d h in
    let digest_bytes = digest-IsBytes (drop (suc (suc i)) t) digest in
    let before = index_of-take t (suc i) at in
    (
      subst IsName (sym name) (omega (arith, before.0), before.1),
      subst IsBytes (sym bytes) digest_bytes.0,
      subst (λ x. 1 ≤ length x) (sym bytes) digest_bytes.1,
    )
