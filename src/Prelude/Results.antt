-- ===== src/Prelude/Results.antt =====
-- The result of code that returns a value or throws an error of type E.
use mathlib.Core.Bool.{Bool, true, false}
use cdx_file_format_spec.Prelude.Tests.{if◌then◌else◌}
use mathlib.Core.Path.{◌≡◌, refl}

pub data Result {ℓ κ} (E : Type ℓ) (A : Type κ) : Type (ℓ ⊔ κ) where
  ok : A → Result E A
  err : E → Result E A

infixl 5 ◌>>=◌ ◌>>◌
abbrev pub ◌>>=◌ {ℓ κ μ} :
    {Error : Type ℓ} {From : Type κ} {To : Type μ}
    → Result Error From
    → (From → Result Error To)
    → Result Error To
err thrown >>= next = err thrown
ok first >>= next = next first

abbrev pub ◌>>◌ {ℓ κ μ} :
    {Error : Type ℓ} {From : Type κ} {To : Type μ}
    → Result Error From
    → Result Error To
    → Result Error To
r >> after = r >>= λ ignored. after

-- A successful bind succeeded in both steps.
pub >>=-eq-ok {ℓ κ μ} :
    {Error : Type ℓ} {From : Type κ} {To : Type μ} (r : Result Error From)
    (next : From → Result Error To) {v : To}
    → (r >>= next) ≡ ok v
    → (first : From) × (r ≡ ok first) × (next first ≡ ok v)
>>=-eq-ok (err thrown) next e = cc
>>=-eq-ok (ok first) next e = (first, refl, e)

-- A guarded result that is there passed its guard.
pub guard-eq-ok {ℓ κ} :
    {E : Type ℓ} {A : Type κ} (b : Bool) (m : Result E A) (e : E) {a : A}
    → (if b then m else err e) ≡ ok a
    → (b ≡ true) × (m ≡ ok a)
guard-eq-ok true m e h = (refl, h)
guard-eq-ok false m e h = cc

-- So did one whose guard throws when it holds.
pub unless-eq-ok {ℓ κ} :
    {E : Type ℓ} {A : Type κ} (b : Bool) (e : E) (m : Result E A) {a : A}
    → (if b then err e else m) ≡ ok a
    → (b ≡ false) × (m ≡ ok a)
unless-eq-ok false e m h = (refl, h)
unless-eq-ok true e m h = cc

-- Binds nest either way, and may continue alike.
pub >>=_assoc {ℓ κ μ ν} :
    {E : Type ℓ} {A : Type κ} {B : Type μ} {C : Type ν} (r : Result E A) (f : A → Result E B)
    (g : B → Result E C)
    → (r >>= λ a. f a >>= g) ≡ (r >>= f >>= g)
>>=_assoc (err e) f g = refl
>>=_assoc (ok a) f g = refl

pub >>=_congr {ℓ κ μ} :
    {E : Type ℓ} {A : Type κ} {B : Type μ} (r : Result E A) (f g : A → Result E B)
    → ((a : A) → f a ≡ g a)
    → (r >>= f) ≡ (r >>= g)
>>=_congr (err e) f g h = refl
>>=_congr (ok a) f g h = h a
