-- ===== src/Digits/Order.antt =====
-- `compareDigits` is the order of the numbers.
use cdx_file_format_spec.Prelude.{
  ℕ, ◌+◌, ◌-◌, ◌*◌, ◌≤◌, ◌<◌, ◌≡◌, refl, ◌↔◌, inl, inr, Bool, true, false, not, ◌&&◌, [], ◌∷◌, All,
  length, ltb, ◌==◌, arith, Bool-cases, suc, sym, subst, ◌∙◌, if_rule,
}
use cdx_file_format_spec.Merkle.ContentHash.{Units}
use cdx_file_format_spec.Container.Bytes.{ℤ, pos, negsuc, sub_ℕ}
use cdx_file_format_spec.Digits.{
  is_digit, normalize_digits, less_units, compare_normal, compare_digits,
}

-- The number that digits stand for, behind a prefix of value `acc`.
unfoldable pub value_from : ℕ → Units → ℕ
value_from acc [] = acc
value_from acc (c ∷ cs) = value_from (10 * acc + (c - b'0')) cs

abbrev pub IsDigits : Units → Type 0
IsDigits d = All (λ c. is_digit c ≡ true) d

-- A larger prefix wins, if the digits behind it are at least as many.
value-lead :
    (a b : ℕ) (xs ys : Units)
    → a < b
    → length xs ≤ length ys
    → IsDigits xs
    → value_from a xs < value_from b ys
unfolding value_from
value-lead a b [] [] lt le d = lt
value-lead a b (x ∷ xs) [] lt le d = absurd (omega (arith, le))
value-lead a b [] (y ∷ ys) lt le d =
    value-lead a (10 * b + (y - b'0')) [] ys (omega (arith, lt)) (omega arith) tt
value-lead a b (x ∷ xs) (y ∷ ys) lt le (d, ds) =
    value-lead (10 * a + (x - b'0')) (10 * b + (y - b'0')) xs ys (ground arith) (omega (arith, le))
      ds

-- Texts of one length are ordered as their numbers.
value-less :
    (a : ℕ) (xs ys : Units)
    → length xs ≡ length ys
    → IsDigits xs
    → IsDigits ys
    → less_units xs ys ≡ true
    → value_from a xs < value_from a ys
unfolding value_from less_units
value-less a [] [] l d e h = cc
value-less a [] (y ∷ ys) l d e h = absurd (omega (arith, l))
value-less a (x ∷ xs) [] l d e h = cc
value-less a (x ∷ xs) (y ∷ ys) l (d, ds) (e, es) h = elim (Bool-cases (ltb x y)) [
  | inl lt ↦
      value-lead (10 * a + (x - b'0')) (10 * a + (y - b'0')) xs ys (ground arith) (omega (arith, l))
        ds
  | inr ge ↦
      let same : x ≡ y = ground arith in
      let rest : less_units xs ys ≡ true = ground arith in
      let less = value-less (10 * a + (y - b'0')) xs ys (omega (arith, l)) ds es rest in
      rw same less
]

value-same :
    (a : ℕ) (xs ys : Units)
    → length xs ≡ length ys
    → less_units xs ys ≡ false
    → less_units ys xs ≡ false
    → value_from a xs ≡ value_from a ys
unfolding value_from less_units
value-same a [] [] l h k = refl
value-same a [] (y ∷ ys) l h k = cc
value-same a (x ∷ xs) [] l h k = cc
value-same a (x ∷ xs) (y ∷ ys) l h k =
    let same : x ≡ y = ground arith in
    let one : less_units xs ys ≡ false = ground arith in
    let other : less_units ys xs ≡ false = ground arith in
    let equal = value-same (10 * a + (y - b'0')) xs ys (omega (arith, l)) one other in rw same equal

-- A text with no zero to strip.
abbrev pub IsNormal : Units → Type 0
IsNormal [] = ⊥
IsNormal (x ∷ []) = Unit
IsNormal (x ∷ y ∷ rest) = (x == b'0') ≡ false

normal-long :
    (xs ys : Units)
    → IsDigits xs
    → IsDigits ys
    → IsNormal xs
    → IsNormal ys
    → length xs < length ys
    → value_from 0 xs < value_from 0 ys
unfolding value_from
normal-long [] ys d e n m h = absurd n
normal-long (x ∷ xs) [] d e n m h = absurd m
normal-long (x ∷ xs) (y ∷ []) d e n m h = absurd (omega (arith, h))
normal-long (x ∷ xs) (y ∷ z ∷ zs) d (e, es) n m h =
    value-lead 0 (10 * 0 + (y - b'0')) (x ∷ xs) (z ∷ zs) (ground arith) (omega (arith, h)) d

leading_zero : (x : ℕ) (d : Units) → x ≡ b'0' → value_from 0 (x ∷ d) ≡ value_from 0 d
unfolding value_from
leading_zero x d h = rw h

abbrev pub is_negative : ℤ → Bool
is_negative (pos n) = false
is_negative (negsuc n) = true

-- What stripping zeros keeps.
pub record IsStripped (d n : Units) : Type 0 where
  pub digits : IsDigits n
  pub normal : IsNormal n
  pub value : value_from 0 n ≡ value_from 0 d

strip-IsStripped :
    (x : ℕ) (d : Units) → IsDigits (x ∷ d) → IsStripped (x ∷ d) (normalize_digits (x ∷ d))
unfolding normalize_digits
strip-IsStripped x [] ds = record { digits = ds; normal = tt; value = refl }
strip-IsStripped x (y ∷ rest) (dx, (dy, ds)) =
    if_rule (IsStripped (x ∷ y ∷ rest)) (x == b'0' && is_digit y) _ _
      (λ e.
        let zero_first : x ≡ b'0' = ground arith in
        let tail = strip-IsStripped y rest (dy, ds) in
        record {
          digits = tail.digits;
          normal = tail.normal;
          value = tail.value ∙ sym (leading_zero x (y ∷ rest) zero_first);
        })
      (λ e. record { digits = (dx, (dy, ds)); normal = ground arith; value = refl })

-- The sign of the result is the order of two numbers.
pub record IsOrder (z : ℤ) (m n : ℕ) : Type 0 where
  pub less : (is_negative z ≡ true) ↔ (m < n)
  pub equal : (z ≡ pos 0) ↔ (m ≡ n)

negative-IsOrder : (z : ℤ) (m n : ℕ) → is_negative z ≡ true → m < n → IsOrder z m n
negative-IsOrder (pos k) m n h lt = cc
negative-IsOrder (negsuc k) m n h lt = record {
  less = (λ _. lt, λ _. refl);
  equal = (λ e. cc, λ e. absurd (omega (arith, lt, e)));
}

positive-IsOrder : (k m n : ℕ) → n < m → IsOrder (pos (suc k)) m n
positive-IsOrder k m n lt = record {
  less = (λ e. cc, λ l. absurd (omega (arith, lt, l)));
  equal = (λ e. absurd (ground arith), λ e. absurd (omega (arith, lt, e)));
}

zero-IsOrder : (m n : ℕ) → m ≡ n → IsOrder (pos 0) m n
zero-IsOrder m n same = record {
  less = (λ e. cc, λ l. absurd (omega (arith, same, l)));
  equal = (λ _. same, λ _. refl);
}

sub-negative : (a b : ℕ) → a < b → is_negative (sub_ℕ a b) ≡ true
sub-negative a b h = ground arith

sub-positive : (a b : ℕ) → b < a → sub_ℕ a b ≡ pos (suc (a - b - 1))
sub-positive a b h = ground arith

compare_normal-IsOrder :
    (x y : Units)
    → IsDigits x
    → IsDigits y
    → IsNormal x
    → IsNormal y
    → IsOrder (compare_normal x y) (value_from 0 x) (value_from 0 y)
compare_normal-IsOrder x y d e n m =
    if_rule (λ z. IsOrder z (value_from 0 x) (value_from 0 y)) (not (length x == length y)) _ _
      (λ differ. elim (Bool-cases (ltb (length x) (length y))) [
        | inl lt ↦
            let shorter : length x < length y = ground arith in
            negative-IsOrder _ _ _ (sub-negative _ _ shorter) (normal-long x y d e n m shorter)
        | inr ge ↦
            let longer : length y < length x = ground arith in
            subst (λ z. IsOrder z (value_from 0 x) (value_from 0 y)) (sym (sub-positive _ _ longer))
              (positive-IsOrder _ _ _ (normal-long y x e d m n longer))
      ])
      (λ same.
        let equal : length x ≡ length y = ground arith in
        if_rule (λ z. IsOrder z (value_from 0 x) (value_from 0 y)) (less_units x y) _ _
          (λ lt. negative-IsOrder (negsuc 0) _ _ refl (value-less 0 x y equal d e lt))
          (λ ge.
            if_rule (λ z. IsOrder z (value_from 0 x) (value_from 0 y)) (less_units y x) _ _
              (λ gt. positive-IsOrder 0 _ _ (value-less 0 y x (sym equal) e d gt))
              (λ le. zero-IsOrder _ _ (value-same 0 x y equal ge le))))

-- For two texts of at least one decimal digit each, of any length and with any number of leading
-- zeros, the result is negative exactly if the first number is less than the second, and zero
-- exactly if they are equal.
pub compare_digits-IsOrder :
    (x y : ℕ) (a b : Units)
    → IsDigits (x ∷ a)
    → IsDigits (y ∷ b)
    → IsOrder (compare_digits (x ∷ a) (y ∷ b)) (value_from 0 (x ∷ a)) (value_from 0 (y ∷ b))
unfolding compare_digits
compare_digits-IsOrder x y a b d e =
    let one = strip-IsStripped x a d in
    let other = strip-IsStripped y b e in
    subst (λ n. IsOrder (compare_digits (x ∷ a) (y ∷ b)) (value_from 0 (x ∷ a)) n) other.value
      (subst
        (λ m. IsOrder (compare_digits (x ∷ a) (y ∷ b)) m (value_from 0 (normalize_digits (y ∷ b))))
        one.value
        (compare_normal-IsOrder (normalize_digits (x ∷ a)) (normalize_digits (y ∷ b)) one.digits
          other.digits one.normal other.normal))
