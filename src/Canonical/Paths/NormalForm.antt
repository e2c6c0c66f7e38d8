-- ===== src/Canonical/Paths/NormalForm.antt =====
-- Normal paths: no empty segment, no `.`, and `..` at the start only.
use cdx_file_format_spec.Prelude.{
  ℕ, ◌≡◌, ◌≢◌, refl, false, ◌||◌, ◌==◌, List, [], ◌∷◌, ◌++◌, All, arith, if_rule, Units, codes,
  same_units, same_units_iff, has_unit, extend, split,
}
use cdx_file_format_spec.Canonical.Paths.{climb, push_segment, push_segments}

-- A segment that is kept as it is.
pub record IsPlain (s : Units) : Type 0 where
  pub some_unit : s ≢ []
  pub no_dot : s ≢ codes "."
  pub no_slash : has_unit b'/' s ≡ false

-- A stack of such segments, where only `..` stands below `..`.
abbrev pub IsNormal : List Units → Type 0
IsNormal [] = Unit
IsNormal (s ∷ out) = IsPlain s × (s ≡ codes ".." → All (λ t. t ≡ codes "..") out) × IsNormal out

dots-IsPlain : IsPlain (codes "..")
unfolding has_unit
dots-IsPlain = record { some_unit = λ e. cc; no_dot = λ e. cc; no_slash = refl }

climb-IsNormal : (out : List Units) → IsNormal out → IsNormal (climb out)
climb-IsNormal [] n = (dots-IsPlain, λ _. tt, tt)
climb-IsNormal (s ∷ out) (p, below, n) =
    if_rule IsNormal (same_units s (codes "..")) _ _
      (λ e.
        let dots = (same_units_iff s (codes "..")).0 e in
        (dots-IsPlain, λ _. (dots, below dots), (p, below, n)))
      (λ _. n)

pub push_segment-IsNormal :
    (out : List Units) (s : Units)
    → has_unit b'/' s ≡ false
    → IsNormal out
    → IsNormal (push_segment out s)
unfolding push_segment
push_segment-IsNormal out s whole n =
    if_rule IsNormal (same_units s [] || same_units s (codes ".")) _ _ (λ _. n)
      (λ kept.
        if_rule IsNormal (same_units s (codes "..")) _ _ (λ _. climb-IsNormal out n)
          (λ plain. (
            record {
              some_unit = λ e. cc (kept, (same_units_iff s []).1 e);
              no_dot = λ e. absurd (ground (arith, same_units_iff s (codes ".")));
              no_slash = whole;
            },
            λ e. absurd (ground (arith, same_units_iff s (codes ".."))),
            n,
          )))

push_segments-IsNormal :
    (out ss : List Units)
    → All (λ s. has_unit b'/' s ≡ false) ss
    → IsNormal out
    → IsNormal (push_segments out ss)
unfolding push_segments
push_segments-IsNormal out [] whole n = n
push_segments-IsNormal out (s ∷ ss) (w, ws) n =
    push_segments-IsNormal (push_segment out s) ss ws (push_segment-IsNormal out s w n)

extend-whole :
    (c x : ℕ) (ss : List Units)
    → (x == c) ≡ false
    → All (λ s. has_unit c s ≡ false) ss
    → All (λ s. has_unit c s ≡ false) (extend x ss)
unfolding has_unit
extend-whole c x [] h w = (ground arith, tt)
extend-whole c x (s ∷ ss) h (w, ws) = (ground arith, ws)

-- No part of a split text has the separator.
pub split-whole : (c : ℕ) (s : Units) → All (λ t. has_unit c t ≡ false) (split c s)
unfolding split has_unit
split-whole c [] = (refl, tt)
split-whole c (x ∷ xs) =
    if_rule (All (λ t. has_unit c t ≡ false)) (x == c) _ _ (λ _. (refl, split-whole c xs))
      (λ other. extend-whole c x (split c xs) other (split-whole c xs))

pub All-append : (P : Units → Type 0) (xs ys : List Units) → All P xs → All P ys → All P (xs ++ ys)
All-append P [] ys h k = k
All-append P (x ∷ xs) ys (h, hs) k = (h, All-append P xs ys hs k)

-- The stack of a path is normal.
pub stack-IsNormal : (p : Units) → IsNormal (push_segments [] (split b'/' p))
stack-IsNormal p = push_segments-IsNormal [] (split b'/' p) (split-whole b'/' p) tt
