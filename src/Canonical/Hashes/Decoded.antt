-- ===== src/Canonical/Hashes/Decoded.antt =====
-- The two readers of `algorithm:hexdigest` values: canonicalize.ts asks for the length that the Merkle
-- modules do not.
use cdx_file_format_spec.Prelude.{
  ℕ, suc, zero, ◌*◌, ◌%◌, ◌≡◌, ◌≢◌, refl, map, All, List, [], ◌∷◌, same_units, Bool-cases, subst,
  ◌∙◌, ap, Bool, true, false, length, take, drop, some, Option-cases, inl, inr, ok, arith, Units,
  includes,
}
use cdx_file_format_spec.Merkle.ContentHash.{
  DecodedHash, index_of, is_hex_digest, from_hex, decode_content_hash,
}
use cdx_file_format_spec.Merkle.ContentHash.RoundTrip.{split_hash-some, length-from_hex}
use cdx_file_format_spec.Canonical.Hashes.{
  hex_digest_length, digest_length, algorithm_of, is_digest_of, is_valid_content_hash,
}

abbrev AllEven : List (Units × ℕ) → Type 0
AllEven table = All (λ (row : Units × ℕ). row.1 % 2 ≡ 0) table

digest_length-known :
    (a : Units) (n : ℕ) (table : List (Units × ℕ))
    → AllEven table
    → digest_length a table ≡ some n
    → (includes (map (λ (row : Units × ℕ). row.0) table) a ≡ true) × (n % 2 ≡ 0)
unfolding digest_length
digest_length-known a n [] even h = cc
digest_length-known a n ((b, m) ∷ table) (e, es) h = elim (Bool-cases (same_units b a)) [
  | inl t ↦ let same : m ≡ n = cc (rw t at h) in (rw t refl, subst (λ k. k % 2 ≡ 0) same e)
  | inr f ↦ let (known, rest) = digest_length-known a n table es (rw f at h) in (rw f known, rest)
]

table-AllEven : AllEven hex_digest_length
table-AllEven = (refl, (refl, (refl, (refl, (refl, (refl, tt))))))

digest-hex :
    (digest : Units) (n : ℕ)
    → is_digest_of (some n) digest ≡ true
    → n % 2 ≡ 0
    → (is_hex_digest digest ≡ true) × (length digest ≡ n)
digest-hex digest n h even = ground arith

twice : (hex : Units) (n : ℕ) → length hex ≡ n → n % 2 ≡ 0 → n ≡ 2 * length (from_hex hex)
twice hex n long even = omega (arith, long, even, length-from_hex hex)

-- What a valid hash is for both readers.
pub record IsReadable (h : Units) : Type 0 where
  pub read : DecodedHash
  pub decoded : decode_content_hash (some h) ≡ ok read
  pub algorithm : algorithm_of (some h) ≡ ok read.algorithm
  pub size : digest_length read.algorithm hex_digest_length ≡ some (2 * length read.bytes)

valid-IsReadable :
    (h : Units) (i n : ℕ)
    → index_of b':' h ≡ some (suc i)
    → digest_length (take (suc i) h) hex_digest_length ≡ some n
    → is_digest_of (some n) (drop (suc (suc i)) h) ≡ true
    → IsReadable h
unfolding decode_content_hash algorithm_of
valid-IsReadable h i n at known digest =
    let (listed, even) =
      digest_length-known (take (suc i) h) n hex_digest_length table-AllEven known in
    let (hex, long) = digest-hex (drop (suc (suc i)) h) n digest even in
    record {
      read = record { algorithm = take (suc i) h; bytes = from_hex (drop (suc (suc i)) h) };
      decoded = split_hash-some h (index_of b':' h) i at hex;
      algorithm = rw (at, listed) refl;
      size = known ∙ ap some (twice (drop (suc (suc i)) h) n long even);
    }

false-true : ◌≢◌ {A = Bool} false true
false-true h = cc

-- A value that `isValidContentHash` accepts is read by `algorithmOf` and by the `decodeContentHash` of
-- the Merkle modules, with one algorithm, and it has as many bytes as its algorithm asks for.
pub is_valid_content_hash-IsReadable :
    (h : Units) → is_valid_content_hash (some h) ≡ true → IsReadable h
unfolding is_valid_content_hash
is_valid_content_hash-IsReadable h v = elim (Option-cases (index_of b':' h)) [
  | inl e ↦ absurd (false-true (rw e at v))
  | inr (zero, e) ↦ absurd (false-true (rw e at v))
  | inr (suc i, e) ↦
      let v₁ : is_digest_of (digest_length (take (suc i) h) hex_digest_length)
            (drop (suc (suc i)) h)
          ≡ true =
        rw e at v in
      elim (Option-cases (digest_length (take (suc i) h) hex_digest_length)) [
        | inl f ↦ absurd (false-true (rw f at v₁))
        | inr (n, f) ↦ valid-IsReadable h i n e f (rw f at v₁)
      ]
]
