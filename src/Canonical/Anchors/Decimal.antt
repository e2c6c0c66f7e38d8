-- ===== src/Canonical/Anchors/Decimal.antt =====
-- The digits of a number, and the names made of them.
use cdx_file_format_spec.Prelude.{
  ℕ, zero, suc, ◌+◌, ◌-◌, ◌*◌, ◌/◌, ◌%◌, ◌≤◌, true, false, [], ◌∷◌, ◌++◌, if_rule, Bool-cases, inl,
  inr, ltb, ◌≡◌, refl, sym, ap, ◌∙◌, Units, has_unit, arith,
}
use cdx_file_format_spec.Digits.{is_digit}
use cdx_file_format_spec.Canonical.Anchors.{
  decimal_loop, canonical_name, all_digits, is_canonical_name,
}

abbrev value : ℕ → Units → ℕ
value acc [] = acc
value acc (c ∷ s) = value (10 * acc + (c - b'0')) s

value-last : (acc : ℕ) (s : Units) (c : ℕ) → value acc (s ++ c ∷ []) ≡ 10 * value acc s + (c - b'0')
value-last acc [] c = refl
value-last acc (d ∷ s) c = value-last (10 * acc + (d - b'0')) s c

value-decimal : (fuel n : ℕ) → n ≤ fuel → value 0 (decimal_loop fuel n) ≡ n
unfolding decimal_loop
value-decimal zero n le = omega (arith, le)
value-decimal (suc fuel) n le = elim (Bool-cases (ltb n 10)) [
  | inl e ↦ rw e (omega arith)
  | inr e ↦
      let big : 10 ≤ n = ground arith in
      let rest = value-decimal fuel (n / 10) (omega (arith, le, big)) in
      rw e (value-last 0 (decimal_loop fuel (n / 10)) (b'0' + n % 10) ∙ omega (arith, rest))
]

pub canonical_name-injective : (i j : ℕ) → canonical_name i ≡ canonical_name j → i ≡ j
canonical_name-injective i j e =
    let digits : decimal_loop i i ≡ decimal_loop j j = cc e in
    sym (value-decimal i i (omega arith)) ∙ ap (value 0) digits ∙ value-decimal j j (omega arith)

digits-append :
    (s : Units) (c : ℕ) → all_digits s ≡ true → is_digit c ≡ true → all_digits (s ++ c ∷ []) ≡ true
digits-append [] c h d = ground (arith, d)
digits-append (x ∷ s) c h d = ground (arith, digits-append s c, h, d)

digits-decimal : (fuel n : ℕ) → all_digits (decimal_loop fuel n) ≡ true
unfolding decimal_loop
digits-decimal zero n = ground arith
digits-decimal (suc fuel) n =
    if_rule (λ s. all_digits s ≡ true) (ltb n 10) _ _ (λ e. ground arith)
      (λ _.
        digits-append (decimal_loop fuel (n / 10)) (b'0' + n % 10) (digits-decimal fuel (n / 10))
          (ground arith))

-- There is a first digit.
pub starts : (fuel n : ℕ) → (d : ℕ) × (s : Units) × (decimal_loop fuel n ≡ d ∷ s)
unfolding decimal_loop
starts zero n = (b'0' + n % 10, [], refl)
starts (suc fuel) n = elim (Bool-cases (ltb n 10)) [
  | inl e ↦ (b'0' + n, [], rw e refl)
  | inr e ↦ let (d, s, h) = starts fuel (n / 10) in (d, s ++ (b'0' + n % 10) ∷ [], rw (e, h) refl)
]

pub canonical_name-reserved : (i : ℕ) → is_canonical_name (canonical_name i) ≡ true
unfolding is_canonical_name
canonical_name-reserved i =
    let (d, s, h) = starts i i in
    let all : all_digits (d ∷ s) ≡ true = rw h at (digits-decimal i i) in rw h all

digits-plain : (s : Units) → all_digits s ≡ true → has_unit b'/' s ≡ false
unfolding has_unit
digits-plain [] h = refl
digits-plain (c ∷ s) h = ground (arith, digits-plain s)

pub canonical_name-plain : (i : ℕ) → has_unit b'/' (canonical_name i) ≡ false
unfolding has_unit
canonical_name-plain i = digits-plain (decimal_loop i i) (digits-decimal i i)
