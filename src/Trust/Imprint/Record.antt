-- ===== src/Trust/Imprint/Record.antt =====
-- An imprint of timestamp.ts belongs to one signature record.
use cdx_file_format_spec.Prelude.{
  ℕ, ◌≡◌, refl, ◌⊎◌, inl, inr, true, false, not, ◌||◌, [], ◌∷◌, ◌++◌, all, ok, arith, unless-eq-ok,
}
use cdx_file_format_spec.Merkle.ContentHash.{Units}
use cdx_file_format_spec.Merkle.Block.{includes}
use cdx_file_format_spec.Merkle.Block.Binding.{Collision, collide}
use cdx_file_format_spec.Trust.Imprint.{
  unsupported_hash, not_base64url, imprint_hashes, is_base64url, signature_timestamp_imprint,
}

-- The join at "." has one splitting, if the first parts hold no ".".
join_injective :
    (p q s t : Units)
    → all is_base64url p ≡ true
    → all is_base64url q ≡ true
    → p ++ b'.' ∷ s ≡ q ++ b'.' ∷ t
    → (p ≡ q) × (s ≡ t)
join_injective [] [] s t h k e = (refl, cc e)
join_injective [] (d ∷ q) s t h k e = absurd (no_dot d q k (cc e))
  where
    no_dot : (c : ℕ) (r : Units) → all is_base64url (c ∷ r) ≡ true → b'.' ≡ c → ⊥
    no_dot c r m p = ground arith
join_injective (c ∷ p) [] s t h k e = absurd (no_dot c p h (cc e))
  where
    no_dot : (d : ℕ) (r : Units) → all is_base64url (d ∷ r) ≡ true → d ≡ b'.' → ⊥
    no_dot d r m q = ground arith
join_injective (c ∷ p) (d ∷ q) s t h k e =
    let (first, second) = join_injective p q s t (ground arith) (ground arith) (cc e) in
    (cc (e, first), second)

first_plain :
    (p s : Units)
    → (not (all is_base64url p) || not (all is_base64url s)) ≡ false
    → all is_base64url p ≡ true
first_plain p s h = ground arith

-- One token cannot bind two records: if two pairs of members have one imprint under one hash
-- algorithm, the pairs are the same, or they show a collision of the hash function.
pub imprint_binds :
    (digest : Units → Units → Units) (p q s t alg imprint : Units)
    → signature_timestamp_imprint digest p s alg ≡ ok imprint
    → signature_timestamp_imprint digest q t alg ≡ ok imprint
    → ((p ≡ q) × (s ≡ t)) ⊎ Collision digest
unfolding signature_timestamp_imprint
imprint_binds digest p q s t alg imprint h k =
    let (known, h₁) = unless-eq-ok (not (includes imprint_hashes alg)) unsupported_hash _ h in
    let (known', k₁) = unless-eq-ok (not (includes imprint_hashes alg)) unsupported_hash _ k in
    let (plain, h₂) =
      unless-eq-ok (not (all is_base64url p) || not (all is_base64url s)) not_base64url _ h₁ in
    let (plain', k₂) =
      unless-eq-ok (not (all is_base64url q) || not (all is_base64url t)) not_base64url _ k₁ in
    elim (collide digest alg (p ++ b'.' ∷ s) (q ++ b'.' ∷ t) (cc (h₂, k₂))) [
      | inl e ↦ inl (join_injective p q s t (first_plain p s plain) (first_plain q t plain') e)
      | inr c ↦ inr c
    ]
