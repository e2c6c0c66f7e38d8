-- ===== src/Canonical/StoredBytes/Scalars.antt =====
-- The scan of `isWellFormedUnicode` and UTF-16.
use cdx_file_format_spec.Prelude.{
  ℕ, ◌+◌, ◌-◌, ◌*◌, ◌/◌, ◌%◌, ◌≤◌, ◌<◌, true, false, List, [], ◌∷◌, All, if◌then◌else◌, Bool-cases,
  inl, inr, ltb, ◌≡◌, ◌↔◌, ◌⊎◌, refl, subst, Units, arith,
}
use cdx_file_format_spec.Canonical.StoredBytes.{is_high, is_low, is_well_formed_unicode}

abbrev pub IsScalar : ℕ → Type 0
IsScalar c = (c < 55296) ⊎ ((57344 ≤ c) × (c < 1114112))

-- UTF-16: a scalar value past the basic plane is a pair of surrogates.
unfoldable pub utf16 : List ℕ → Units
utf16 [] = []
utf16 (c ∷ cs) =
    let rest = utf16 cs in
    if ltb c 65536
    then c ∷ rest
    else (55296 + (c - 65536) / 1024) ∷ (56320 + (c - 65536) % 1024) ∷ rest

-- The scalar values of a text.
pub record IsEncoded (s : Units) : Type 0 where
  pub scalars : List ℕ
  pub all_scalars : All IsScalar scalars
  pub encoded : utf16 scalars ≡ s

nothing : IsEncoded []
unfolding utf16
nothing = record { scalars = []; all_scalars = tt; encoded = refl }

one :
    (c : ℕ) (s : Units)
    → c < 65536
    → is_high c ≡ false
    → is_low c ≡ false
    → IsEncoded s
    → IsEncoded (c ∷ s)
unfolding utf16
one c s b h l e =
    let scalar : IsScalar c = ground arith in
    let basic : ltb c 65536 ≡ true = ground arith in
    record {
      scalars = c ∷ e.scalars;
      all_scalars = (scalar, e.all_scalars);
      encoded = rw (basic, e.encoded) refl;
    }

pair :
    (c n : ℕ) (s : Units) → is_high c ≡ true → is_low n ≡ true → IsEncoded s → IsEncoded (c ∷ n ∷ s)
unfolding utf16
pair c n s h l e =
    let c₁ : 55296 ≤ c = ground arith in
    let c₂ : c ≤ 56319 = ground arith in
    let n₁ : 56320 ≤ n = ground arith in
    let n₂ : n ≤ 57343 = ground arith in
    let x = 65536 + (c - 55296) * 1024 + (n - 56320) in
    let scalar : IsScalar x = inr (omega (arith, c₁, c₂, n₁, n₂), omega (arith, c₁, c₂, n₁, n₂)) in
    let wide : ltb x 65536 ≡ false = ground arith in
    let high : 55296 + (x - 65536) / 1024 ≡ c = omega (arith, c₁, c₂, n₁, n₂) in
    let low : 56320 + (x - 65536) % 1024 ≡ n = omega (arith, c₁, c₂, n₁, n₂) in
    record {
      scalars = x ∷ e.scalars;
      all_scalars = (scalar, e.all_scalars);
      encoded = rw (wide, e.encoded, high, low) refl;
    }

well_formed-IsEncoded :
    (s : Units) → All (λ c. c < 65536) s → is_well_formed_unicode s ≡ true → IsEncoded s
unfolding is_well_formed_unicode
well_formed-IsEncoded [] b w = nothing
well_formed-IsEncoded (c ∷ []) (b, bs) w = one c [] b (ground arith) (ground arith) nothing
well_formed-IsEncoded (c ∷ n ∷ s) (b, (b', bs)) w =
    let after_pair = well_formed-IsEncoded s bs in
    let after_one = well_formed-IsEncoded (n ∷ s) (b', bs) in
    elim (Bool-cases (is_high c)) [
      | inl h ↦ pair c n s h (ground arith) (after_pair (ground arith))
      | inr h ↦ one c (n ∷ s) b h (ground arith) (after_one (ground arith))
    ]

well_formed_one :
    (c : ℕ) (s : Units)
    → is_high c ≡ false
    → is_low c ≡ false
    → is_well_formed_unicode s ≡ true
    → is_well_formed_unicode (c ∷ s) ≡ true
unfolding is_well_formed_unicode
well_formed_one c [] h l w = rw (h, l) refl
well_formed_one c (n ∷ s) h l w = rw (h, l) w

well_formed_pair :
    (c n : ℕ) (s : Units)
    → is_high c ≡ true
    → is_low n ≡ true
    → is_well_formed_unicode s ≡ true
    → is_well_formed_unicode (c ∷ n ∷ s) ≡ true
unfolding is_well_formed_unicode
well_formed_pair c n s h l w = rw (h, l) w

utf16-well_formed : (cs : List ℕ) → All IsScalar cs → is_well_formed_unicode (utf16 cs) ≡ true
unfolding utf16 is_well_formed_unicode
utf16-well_formed [] a = refl
utf16-well_formed (c ∷ cs) (a, others) =
    let rest = utf16-well_formed cs others in
    elim (Bool-cases (ltb c 65536)) [
      | inl e ↦ rw e (well_formed_one c (utf16 cs) (ground arith) (ground arith) rest)
      | inr e ↦ rw e (
          well_formed_pair (55296 + (c - 65536) / 1024) (56320 + (c - 65536) % 1024) (utf16 cs)
            (ground arith) (ground arith) rest)
    ]

-- Of texts of 16-bit code units, the scan accepts exactly the encodings of scalar values in UTF-16.
pub is_well_formed_unicode_iff :
    (s : Units) → All (λ c. c < 65536) s → (is_well_formed_unicode s ≡ true) ↔ IsEncoded s
is_well_formed_unicode_iff s b = (
  well_formed-IsEncoded s b,
  λ e.
      subst (λ t. is_well_formed_unicode t ≡ true) e.encoded
        (utf16-well_formed e.scalars e.all_scalars),
)
