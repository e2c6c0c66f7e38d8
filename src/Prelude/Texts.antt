-- ===== src/Prelude/Texts.antt =====
-- Texts as lists of their code units, and the methods of JS strings that the code uses on them.
pub mod Order
use Prim.Native.Nat.{ℕ}
use Prim.Native.Char.{code}
use Prim.Native.String.{String}
use mathlib.Core.Path.{◌≡◌, ◌∙◌, refl, sym, ap}
use mathlib.Core.Logic.{◌≢◌, ◌↔◌}
use mathlib.Core.Bool.{Bool, true, false, ◌&&◌, ◌||◌}
use mathlib.Core.List.{List, [], ◌∷◌, ◌++◌}
use native.Mathlib.Omega.{arith}
use cdx_file_format_spec.Prelude.Tests.{◌==◌, ltb, if◌then◌else◌}

abbrev pub Units : Type 0
Units = List ℕ

abbrev pub Bytes : Type 0
Bytes = List ℕ

abbrev pub codes : String → Units
codes String.[] = []
codes (String.◌∷◌ c s) = code c ∷ codes s

abbrev pub same_units : Units → Units → Bool
same_units [] [] = true
same_units (a ∷ xs) (b ∷ ys) = a == b && same_units xs ys
same_units _ _ = false

pub same_units_refl : (a : Units) → same_units a a ≡ true
same_units_refl [] = refl
same_units_refl (c ∷ a) = ground (arith, same_units_refl a)

pub same_units-eq : (a b : Units) → same_units a b ≡ true → a ≡ b
same_units-eq [] [] h = refl
same_units-eq [] (d ∷ b) h = cc
same_units-eq (c ∷ a) [] h = cc
same_units-eq (c ∷ a) (d ∷ b) h = ground (arith, same_units-eq a b)

pub same_units_iff : (a b : Units) → (same_units a b ≡ true) ↔ (a ≡ b)
same_units_iff a b = (same_units-eq a b, λ e. ap (same_units a) (sym e) ∙ same_units_refl a)

pub same_units-false_iff : (a b : Units) → (same_units a b ≡ false) ↔ (a ≢ b)
same_units-false_iff a b = ground (arith, same_units_iff a b)

-- names.includes(a)
abbrev pub includes : List Units → Units → Bool
includes [] a = false
includes (x ∷ xs) a = if same_units x a then true else includes xs a

-- name.includes(c), with a character
unfoldable pub has_unit : ℕ → Units → Bool
has_unit c [] = false
has_unit c (x ∷ xs) = x == c || has_unit c xs

abbrev pub starts_with : ℕ → Units → Bool
starts_with c [] = false
starts_with c (x ∷ xs) = x == c

-- A first part in front of the parts that follow.
abbrev pub extend : ℕ → List Units → List Units
extend x [] = (x ∷ []) ∷ []
extend x (s ∷ ss) = (x ∷ s) ∷ ss

-- name.split(c), with a character
unfoldable pub split : ℕ → Units → List Units
split c [] = [] ∷ []
split c (x ∷ xs) = let rest = split c xs in if x == c then [] ∷ rest else extend x rest

-- parts.join(c), with a character
unfoldable pub join : ℕ → List Units → Units
join c [] = []
join c (s ∷ []) = s
join c (s ∷ t ∷ ss) = s ++ c ∷ join c (t ∷ ss)

-- x < y, on texts
unfoldable pub less_units : Units → Units → Bool
less_units [] [] = false
less_units [] (y ∷ ys) = true
less_units (x ∷ xs) [] = false
less_units (x ∷ xs) (y ∷ ys) = ltb x y || (x == y && less_units xs ys)
