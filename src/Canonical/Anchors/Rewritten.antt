-- ===== src/Canonical/Anchors/Rewritten.antt =====
-- `rewriteContentAnchor` on distinct references.
use cdx_file_format_spec.Prelude.{
  ℕ, suc, ◌+◌, true, false, List, [], ◌∷◌, ◌++◌, some, ok, Bool-cases, Option-cases, inl, inr, ◌⊎◌,
  ◌==◌, ◌≡◌, refl, sym, ap, ◌∙◌, subst, get_elem?, Units, has_unit, same_units, same_units-eq,
  ==_iff, arith,
}
use cdx_file_format_spec.Canonical.Anchors.{
  RelabelMap, canonical_name, number_ids, name_of_id, is_canonical_name, before_slash, from_slash,
  rewritten, rewrite_content_anchor,
}
use cdx_file_format_spec.Canonical.Anchors.Decimal.{
  canonical_name-injective, canonical_name-reserved, canonical_name-plain,
}

-- An id and a suffix that starts at a slash are told apart again.
before-from_slash : (s : Units) → before_slash (from_slash s) ≡ []
before-from_slash [] = refl
before-from_slash (c ∷ s) = elim (Bool-cases (c == b'/')) [
  | inl e ↦ rw (e, e) refl
  | inr e ↦ rw e (before-from_slash s)
]

from-from_slash : (s : Units) → from_slash (from_slash s) ≡ from_slash s
from-from_slash [] = refl
from-from_slash (c ∷ s) = elim (Bool-cases (c == b'/')) [
  | inl e ↦ rw (e, e) refl
  | inr e ↦ rw e (from-from_slash s)
]

before-append : (n s : Units) → has_unit b'/' n ≡ false → before_slash (n ++ from_slash s) ≡ n
unfolding has_unit
before-append [] s h = before-from_slash s
before-append (c ∷ n) s h =
    let other : (c == b'/') ≡ false = ground (arith, h) in
    rw other (ap (◌∷◌ c) (before-append n s (ground (arith, h))))

from-append :
    (n s : Units) → has_unit b'/' n ≡ false → from_slash (n ++ from_slash s) ≡ from_slash s
unfolding has_unit
from-append [] s h = from-from_slash s
from-append (c ∷ n) s h =
    let other : (c == b'/') ≡ false = ground (arith, h) in
    rw other (from-append n s (ground (arith, h)))

before-from : (s : Units) → before_slash s ++ from_slash s ≡ s
before-from [] = refl
before-from (c ∷ s) = elim (Bool-cases (c == b'/')) [
  | inl e ↦ rw e refl
  | inr e ↦ rw e (ap (◌∷◌ c) (before-from s))
]

-- The place of an id whose name is found.
pub record IsNumbered (i : ℕ) (ids : List Units) (id name : Units) : Type 0 where
  pub place : ℕ
  pub named : name ≡ canonical_name (i + place)
  pub stands : get_elem? ids place ≡ some id

name_of_id-IsNumbered :
    (i : ℕ) (ids : List Units) (id name : Units)
    → name_of_id id (number_ids i ids) ≡ some name
    → IsNumbered i ids id name
unfolding name_of_id number_ids
name_of_id-IsNumbered i [] id name h = cc
name_of_id-IsNumbered i (key ∷ ids) id name h = elim (Bool-cases (same_units key id)) [
  | inl e ↦
      let found : canonical_name i ≡ name = cc (rw e at h) in
      let here : i ≡ i + 0 = omega arith in
      record {
        place = 0;
        named = sym found ∙ ap canonical_name here;
        stands = ap some (same_units-eq key id e);
      }
  | inr e ↦
      let later = name_of_id-IsNumbered (suc i) ids id name (rw e at h) in
      let shift : suc i + later.place ≡ i + suc later.place = omega arith in
      record {
        place = suc later.place;
        named = later.named ∙ ap canonical_name shift;
        stands = later.stands;
      }
]

-- A name belongs to one id.
name-injective :
    (ids : List Units) (id id' name : Units)
    → name_of_id id (number_ids 0 ids) ≡ some name
    → name_of_id id' (number_ids 0 ids) ≡ some name
    → id ≡ id'
name-injective ids id id' name h h' =
    let a = name_of_id-IsNumbered 0 ids id name h in
    let b = name_of_id-IsNumbered 0 ids id' name h' in
    let same : 0 + a.place ≡ 0 + b.place =
      canonical_name-injective (0 + a.place) (0 + b.place) (sym a.named ∙ b.named) in
    let place : a.place ≡ b.place = omega (arith, same) in
    let found : some id ≡ some id' = sym a.stands ∙ ap (get_elem? ids) place ∙ b.stands in cc found

-- A reference to an id with a name.
record IsMapped (map : RelabelMap) (value w : Units) : Type 0 where
  rest : Units
  name : Units
  refers : value ≡ b'#' ∷ rest
  found : name_of_id (before_slash rest) map ≡ some name
  to : w ≡ b'#' ∷ name ++ from_slash rest

-- What stays is no reference to a reserved name.
record IsVerbatim (value w : Units) : Type 0 where
  stays : value ≡ w
  free : (rest : Units) → value ≡ b'#' ∷ rest → is_canonical_name (before_slash rest) ≡ false

reference-cases :
    (map : RelabelMap) (rest w : Units)
    → rewritten (b'#' ∷ rest) rest (name_of_id (before_slash rest) map) ≡ ok w
    → IsMapped map (b'#' ∷ rest) w ⊎ IsVerbatim (b'#' ∷ rest) w
reference-cases map rest w h = elim (Option-cases (name_of_id (before_slash rest) map)) [
  | inl e ↦ elim (Bool-cases (is_canonical_name (before_slash rest))) [
    | inl f ↦ cc (rw (e, f) at h)
    | inr f ↦ inr record {
      stays = cc (rw (e, f) at h);
      free = λ r same.
          let tails : rest ≡ r = cc same in
          subst (λ t. is_canonical_name (before_slash t) ≡ false) tails f;
    }
  ]
  | inr (name, e) ↦
      inl record { rest = rest; name = name; refers = refl; found = e; to = cc (rw e at h) }
]

anchor-cases :
    (map : RelabelMap) (value w : Units)
    → rewrite_content_anchor value map ≡ ok w
    → IsMapped map value w ⊎ IsVerbatim value w
unfolding rewrite_content_anchor
anchor-cases map [] w h = inr record { stays = cc h; free = λ r same. cc same }
anchor-cases map (c ∷ rest) w h = elim (Bool-cases (c == b'#')) [
  | inl e ↦
      let hash : b'#' ≡ c = sym ((==_iff c b'#').0 e) in
      subst (λ d. IsMapped map (d ∷ rest) w ⊎ IsVerbatim (d ∷ rest) w) hash
        (reference-cases map rest w (
          subst (λ d. rewritten (d ∷ rest) rest (name_of_id (before_slash rest) map) ≡ ok w)
            (sym hash) (rw e at h)))
  | inr e ↦ inr record {
    stays = cc (rw e at h);
    free = λ r same. let hash : c ≡ b'#' = cc same in ground (arith, (==_iff c b'#').1 hash);
  }
]

module _ (ids : List Units) where
  abbrev numbered : RelabelMap
  numbered = number_ids 0 ids

  name-plain : (id name : Units) → name_of_id id numbered ≡ some name → has_unit b'/' name ≡ false
  name-plain id name h =
      let n = name_of_id-IsNumbered 0 ids id name h in
      subst (λ t. has_unit b'/' t ≡ false) (sym n.named) (canonical_name-plain (0 + n.place))

  name-reserved :
      (id name : Units) → name_of_id id numbered ≡ some name → is_canonical_name name ≡ true
  name-reserved id name h =
      let n = name_of_id-IsNumbered 0 ids id name h in
      subst (λ t. is_canonical_name t ≡ true) (sym n.named) (canonical_name-reserved (0 + n.place))

  both_mapped : (v v' w : Units) → IsMapped numbered v w → IsMapped numbered v' w → v ≡ v'
  both_mapped v v' w a b =
      let whole : a.name ++ from_slash a.rest ≡ b.name ++ from_slash b.rest =
        cc (sym a.to ∙ b.to) in
      let plain = name-plain (before_slash a.rest) a.name a.found in
      let plain' = name-plain (before_slash b.rest) b.name b.found in
      let names : a.name ≡ b.name =
        sym (before-append a.name a.rest plain)
        ∙ ap before_slash whole
        ∙ before-append b.name b.rest plain' in
      let suffixes : from_slash a.rest ≡ from_slash b.rest =
        sym (from-append a.name a.rest plain)
        ∙ ap from_slash whole
        ∙ from-append b.name b.rest plain' in
      let heads : before_slash a.rest ≡ before_slash b.rest =
        name-injective ids (before_slash a.rest) (before_slash b.rest) b.name
          (a.found ∙ ap some names) b.found in
      let rests : a.rest ≡ b.rest =
        sym (before-from a.rest)
        ∙ ap (λ t. t ++ from_slash a.rest) heads
        ∙ ap (◌++◌ (before_slash b.rest)) suffixes
        ∙ before-from b.rest in
      a.refers ∙ ap (◌∷◌ b'#') rests ∙ sym b.refers

  not_both : {A : Type 0} (v v' w : Units) → IsMapped numbered v w → IsVerbatim v' w → A
  not_both v v' w a b =
      let free = b.free (a.name ++ from_slash a.rest) (b.stays ∙ a.to) in
      let plain = name-plain (before_slash a.rest) a.name a.found in
      let reserved = name-reserved (before_slash a.rest) a.name a.found in
      let no : is_canonical_name a.name ≡ false =
        subst (λ t. is_canonical_name t ≡ false) (before-append a.name a.rest plain) free in
      cc (sym no ∙ reserved)

  -- References are told apart after their rewriting: if two values of a reference field are accepted
  -- and rewritten to one text, under the names given to any list of ids, they are one value.
  pub rewrite_content_anchor-injective :
      (v v' w : Units)
      → rewrite_content_anchor v numbered ≡ ok w
      → rewrite_content_anchor v' numbered ≡ ok w
      → v ≡ v'
  rewrite_content_anchor-injective v v' w h h' = elim (anchor-cases numbered v w h) [
    | inl a ↦ elim (anchor-cases numbered v' w h') [
      | inl b ↦ both_mapped v v' w a b
      | inr b ↦ not_both v v' w a b
    ]
    | inr a ↦ elim (anchor-cases numbered v' w h') [
      | inl b ↦ not_both v' v w b a
      | inr b ↦ a.stays ∙ sym b.stays
    ]
  ]
