-- ===== src/Container/Names/Silence.antt =====
-- When a list of reports is empty.
use cdx_file_format_spec.Prelude.{◌≡◌, refl, Bool, true, false, List, [], ◌∷◌, ◌++◌}
use cdx_file_format_spec.Container.Names.{Code, when}

pub append-nil_left {ℓ} : {A : Type ℓ} (xs ys : List A) → xs ++ ys ≡ [] → xs ≡ []
append-nil_left [] ys h = refl
append-nil_left (x ∷ xs) ys h = cc

pub append-nil_right {ℓ} : {A : Type ℓ} (xs ys : List A) → xs ++ ys ≡ [] → ys ≡ []
append-nil_right [] ys h = h
append-nil_right (x ∷ xs) ys h = cc

pub append-nil_both : (xs ys : List Code) → xs ≡ [] → ys ≡ [] → xs ++ ys ≡ []
append-nil_both [] ys h k = k
append-nil_both (x ∷ xs) ys h k = cc

pub when-nil : (b : Bool) (c : Code) → when b c ≡ [] → b ≡ false
when-nil true c h = cc
when-nil false c h = refl

pub when-false : (b : Bool) (c : Code) → b ≡ false → when b c ≡ []
when-false true c h = cc
when-false false c h = refl
