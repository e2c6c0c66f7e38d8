-- ===== src/Canonical/Paths/Resolved.antt =====
-- What `normalizePath` makes of the segments of a path.
use cdx_file_format_spec.Prelude.{
  ◌≡◌, ◌≢◌, refl, sym, ap, ◌∙◌, subst, Bool-cases, true, false, ◌||◌, List, [], ◌∷◌, ◌++◌, All,
  arith, if_rule, inl, inr, ◌⊎◌, Units, codes, same_units, same_units_iff, same_units-false_iff,
  has_unit, split, join,
}
use mathlib.Core.List.{append_assoc, append-nil}
use cdx_file_format_spec.Canonical.Paths.{
  climb, push_segment, push_segments, from_bottom, normalize_path,
}
use cdx_file_format_spec.Canonical.Paths.NormalForm.{
  IsPlain, IsNormal, push_segment-IsNormal, split-whole, stack-IsNormal, All-append,
}

-- A segment that names something below where it stands.
abbrev pub IsName : Units → Type 0
IsName s = IsPlain s × (s ≢ codes "..")

-- One change of the segments of a path that leaves the place it leads to.
pub data Step : List Units → List Units → Type 0 where
  drop_empty : (ss : List Units) → Step ([] ∷ ss) ss
  drop_dot : (ss : List Units) → Step (codes "." ∷ ss) ss
  cancel : (s : Units) (ss : List Units) → IsName s → Step (s ∷ codes ".." ∷ ss) ss
  under : (s : Units) (ss ts : List Units) → Step ss ts → Step (s ∷ ss) (s ∷ ts)

pub data Reduces : List Units → List Units → Type 0 where
  done : (ss : List Units) → Reduces ss ss
  then_more : (ss ts us : List Units) → Step ss ts → Reduces ts us → Reduces ss us

-- The path `q` is written from segments that the path `p` reduces to: first `..` only, then names.
pub record IsResolution (p q : Units) : Type 0 where
  pub ups : List Units
  pub names : List Units
  pub only_ups : All (λ s. s ≡ codes "..") ups
  pub only_names : All IsName names
  pub reached : Reduces (split b'/' p) (ups ++ names)
  pub written : q ≡ join b'/' (ups ++ names)

below : (out ss ts : List Units) → Step ss ts → Step (out ++ ss) (out ++ ts)
below [] ss ts h = h
below (s ∷ out) ss ts h = Step.under s _ _ (below out ss ts h)

one : (ss ts : List Units) → Step ss ts → Reduces ss ts
one ss ts h = Reduces.then_more ss ts ts h (Reduces.done ts)

same : (ss ts : List Units) → ss ≡ ts → Reduces ss ts
same ss ts e = subst (Reduces ss) e (Reduces.done ss)

joined : (ss ts us : List Units) → Reduces ss ts → Reduces ts us → Reduces ss us
joined ss ts us (Reduces.done _) k = k
joined ss ts us (Reduces.then_more _ vs _ h hs) k =
    Reduces.then_more ss vs us h (joined vs ts us hs k)

from_bottom-push :
    (s : Units) (out ss : List Units) → from_bottom (s ∷ out) ++ ss ≡ from_bottom out ++ s ∷ ss
unfolding from_bottom
from_bottom-push s out ss = append_assoc (from_bottom out) (s ∷ []) ss

climb-Reduces :
    (out ss : List Units)
    → IsNormal out
    → Reduces (from_bottom out ++ codes ".." ∷ ss) (from_bottom (climb out) ++ ss)
climb-Reduces [] ss n = same _ _ (sym (from_bottom-push (codes "..") [] ss))
climb-Reduces (t ∷ out) ss (p, beneath, n) =
    if_rule (λ o. Reduces (from_bottom (t ∷ out) ++ codes ".." ∷ ss) (from_bottom o ++ ss))
      (same_units t (codes "..")) _ _
      (λ _. same _ _ (sym (from_bottom-push (codes "..") (t ∷ out) ss)))
      (λ other.
        subst (λ ts. Reduces ts (from_bottom out ++ ss))
          (sym (from_bottom-push t out (codes ".." ∷ ss)))
          (one _ _ (
            below (from_bottom out) _ _
              (Step.cancel t ss (p, (same_units-false_iff t (codes "..")).0 other)))))

push_segment-Reduces :
    (out : List Units) (s : Units) (ss : List Units)
    → IsNormal out
    → Reduces (from_bottom out ++ s ∷ ss) (from_bottom (push_segment out s) ++ ss)
unfolding push_segment
push_segment-Reduces out s ss n =
    if_rule (λ o. Reduces (from_bottom out ++ s ∷ ss) (from_bottom o ++ ss))
      (same_units s [] || same_units s (codes ".")) _ _
      (λ skipped. one _ _ (below (from_bottom out) _ _ (skip skipped)))
      (λ _.
        if_rule (λ o. Reduces (from_bottom out ++ s ∷ ss) (from_bottom o ++ ss))
          (same_units s (codes "..")) _ _
          (λ up.
            subst (λ t. Reduces (from_bottom out ++ t ∷ ss) (from_bottom (climb out) ++ ss))
              (sym ((same_units_iff s (codes "..")).0 up)) (climb-Reduces out ss n))
          (λ _. same _ _ (sym (from_bottom-push s out ss))))
  where
    either : (same_units s [] || same_units s (codes ".")) ≡ true → (s ≡ []) ⊎ (s ≡ codes ".")
    either h = ground (arith, same_units_iff s [], same_units_iff s (codes "."))

    skip : (same_units s [] || same_units s (codes ".")) ≡ true → Step (s ∷ ss) ss
    skip h = elim (either h) [
      | inl e ↦ subst (λ t. Step (t ∷ ss) ss) (sym e) (Step.drop_empty ss)
      | inr e ↦ subst (λ t. Step (t ∷ ss) ss) (sym e) (Step.drop_dot ss)
    ]

push_segments-Reduces :
    (out ss : List Units)
    → All (λ s. has_unit b'/' s ≡ false) ss
    → IsNormal out
    → Reduces (from_bottom out ++ ss) (from_bottom (push_segments out ss))
unfolding push_segments
push_segments-Reduces out [] w n = same _ _ (append-nil (from_bottom out))
push_segments-Reduces out (s ∷ ss) (w, ws) n =
    joined _ _ _ (push_segment-Reduces out s ss n)
      (push_segments-Reduces (push_segment out s) ss ws (push_segment-IsNormal out s w n))

-- The segments of a normal stack.
record IsParted (ss : List Units) : Type 0 where
  ups : List Units
  names : List Units
  parts : ss ≡ ups ++ names
  only_ups : All (λ s. s ≡ codes "..") ups
  only_names : All IsName names

from_bottom-ups :
    (out : List Units) → All (λ s. s ≡ codes "..") out → All (λ s. s ≡ codes "..") (from_bottom out)
unfolding from_bottom
from_bottom-ups [] h = tt
from_bottom-ups (s ∷ out) (h, hs) =
    All-append _ (from_bottom out) (s ∷ []) (from_bottom-ups out hs) (h, tt)

from_bottom-IsParted : (out : List Units) → IsNormal out → IsParted (from_bottom out)
unfolding from_bottom
from_bottom-IsParted [] n = record {
  ups = [];
  names = [];
  parts = refl;
  only_ups = tt;
  only_names = tt;
}
from_bottom-IsParted (s ∷ out) (p, beneath, n) = elim (Bool-cases (same_units s (codes ".."))) [
  | inl e ↦
      let up = (same_units_iff s (codes "..")).0 e in
      record {
        ups = from_bottom out ++ s ∷ [];
        names = [];
        parts = sym (append-nil (from_bottom out ++ s ∷ []));
        only_ups =
            All-append _ (from_bottom out) (s ∷ []) (from_bottom-ups out (beneath up)) (up, tt);
        only_names = tt;
      }
  | inr e ↦
      let lower = from_bottom-IsParted out n in
      record {
        ups = lower.ups;
        names = lower.names ++ s ∷ [];
        parts = ap (λ ts. ts ++ s ∷ []) lower.parts ∙ append_assoc lower.ups lower.names (s ∷ []);
        only_ups = lower.only_ups;
        only_names =
            All-append _ lower.names (s ∷ []) lower.only_names
              ((p, (same_units-false_iff s (codes "..")).0 e), tt);
      }
]

-- A path, of whatever text, is normalized to segments of two kinds, first `..` only and then names
-- that are neither empty nor `.` nor `..`, joined by slashes; and its own segments, as its slashes
-- divide it, come to these by steps that each drop an empty segment, drop a `.`, or drop a name
-- together with the `..` after it.
pub normalize_path-IsResolution : (p : Units) → IsResolution p (normalize_path p)
unfolding normalize_path
normalize_path-IsResolution p =
    let out = push_segments [] (split b'/' p) in
    let sorted = from_bottom-IsParted out (stack-IsNormal p) in
    record {
      ups = sorted.ups;
      names = sorted.names;
      only_ups = sorted.only_ups;
      only_names = sorted.only_names;
      reached =
          subst (Reduces (split b'/' p)) sorted.parts
            (push_segments-Reduces [] (split b'/' p) (split-whole b'/' p) tt);
      written = ap (join b'/') sorted.parts;
    }
