-- ===== src/Prelude/Texts/Order.antt =====
-- The order `<` of JS on texts.
use mathlib.Core.Path.{◌≡◌, refl}
use mathlib.Core.Bool.{true, false}
use mathlib.Core.List.{[], ◌∷◌}
use native.Mathlib.Omega.{arith}
use cdx_file_format_spec.Prelude.Texts.{Units, less_units}

pub less_units_irrefl : (a : Units) → less_units a a ≡ false
unfolding less_units
less_units_irrefl [] = refl
less_units_irrefl (x ∷ xs) = ground (arith, less_units_irrefl xs)

pub less_units_asym : (a b : Units) → less_units a b ≡ true → less_units b a ≡ false
unfolding less_units
less_units_asym [] [] h = refl
less_units_asym [] (y ∷ b) h = refl
less_units_asym (x ∷ a) [] h = cc
less_units_asym (x ∷ a) (y ∷ b) h = ground (arith, less_units_asym a b)

pub less_units_total : (a b : Units) → less_units a b ≡ false → less_units b a ≡ false → a ≡ b
unfolding less_units
less_units_total [] [] h k = refl
less_units_total [] (y ∷ b) h k = cc
less_units_total (x ∷ a) [] h k = cc
less_units_total (x ∷ a) (y ∷ b) h k =
    let heads : x ≡ y = ground arith in
    let tails : a ≡ b = less_units_total a b (ground arith) (ground arith) in cc

pub less_units_trans :
    (a b c : Units) → less_units a b ≡ true → less_units b c ≡ true → less_units a c ≡ true
unfolding less_units
less_units_trans [] [] c h k = cc
less_units_trans [] (y ∷ b) [] h k = cc
less_units_trans [] (y ∷ b) (z ∷ c) h k = refl
less_units_trans (x ∷ a) [] c h k = cc
less_units_trans (x ∷ a) (y ∷ b) [] h k = cc
less_units_trans (x ∷ a) (y ∷ b) (z ∷ c) h k = ground (arith, less_units_trans a b c)
