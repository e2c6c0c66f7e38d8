-- ===== src/Canonical/Transform/Strip.antt =====
-- The value without its derived fields: how it is computed, and what is found in it.
use cdx_file_format_spec.Prelude.{
  Bool, true, false, ◌&&◌, Option, none, some, if◌then◌else◌, if_rule, Bool-cases, inl, inr, ◌≡◌,
  refl, sym, subst, Units, codes, same_units, same_units-eq,
}
use cdx_file_format_spec.Json.{
  Json, Number, Items, Members, null, bool, number, text, array, object, no_items, item, no_members,
  member, get, as_text, is_true,
}
use cdx_file_format_spec.Canonical.Transform.{is_kind, is_derived_field}

-- A text node's marks, which the walk of `canon` skips with all that is below them.
abbrev pub is_final : Option Units → Units → Bool
is_final kind key = is_kind kind (codes "text") && same_units key (codes "marks")

unfoldable mutual
  -- The value with no derived field in it but those in and below the marks of a text node.
  pub strip_derived : Json → Json
  strip_derived (array vs) = array (strip_items vs)
  strip_derived (object ms) = object (strip_members (as_text (get (codes "type") ms)) ms)
  strip_derived v = v

  pub strip_items : Items → Items
  strip_items no_items = no_items
  strip_items (item v vs) = item (strip_derived v) (strip_items vs)

  pub strip_members : Option Units → Members → Members
  strip_members kind no_members = no_members
  strip_members kind (member key v ms) =
      let rest = strip_members kind ms in
      let stripped = strip_derived v in
      if is_derived_field kind key
      then rest
      else member key (if is_final kind key then v else stripped) rest

pub as_text-strip : (v : Json) → as_text (some (strip_derived v)) ≡ as_text (some v)
unfolding strip_derived
as_text-strip (text s) = refl
as_text-strip _ = refl

pub is_true-strip : (v : Json) → is_true (some (strip_derived v)) ≡ is_true (some v)
unfolding strip_derived
is_true-strip (bool true) = refl
is_true-strip _ = refl

-- A function of a field that does not see the derived fields below it.
module _ {R : Type 0} (f : Option Json → R)
    (blind : (v : Json) → f (some (strip_derived v)) ≡ f (some v)) where
  pub get-strip :
      (kind : Option Units) (key : Units) (ms : Members)
      → is_derived_field kind key ≡ false
      → f (get key (strip_members kind ms)) ≡ f (get key ms)
  unfolding get strip_members
  get-strip kind key no_members h = refl
  get-strip kind key (member k v ms) h = elim (Bool-cases (same_units k key)) [
    | inl e ↦
        let d : is_derived_field kind k ≡ false =
          subst (λ j. is_derived_field kind j ≡ false) (sym (same_units-eq k key e)) h in
        rw (d, e)
          (if_rule (λ u. f (some u) ≡ f (some v)) (is_final kind k) v (strip_derived v) (λ _. refl)
            (λ _. blind v))
    | inr e ↦ rw e (
        if_rule (λ l. f (get key l) ≡ f (get key ms)) (is_derived_field kind k) _ _
          (λ _. get-strip kind key ms h) (λ _. rw e (get-strip kind key ms h)))
  ]

-- The marks of a text node stay as they are.
pub marks-strip :
    (kind : Option Units) (ms : Members)
    → is_kind kind (codes "text") ≡ true
    → is_derived_field kind (codes "marks") ≡ false
    → get (codes "marks") (strip_members kind ms) ≡ get (codes "marks") ms
unfolding get strip_members
marks-strip kind no_members t h = refl
marks-strip kind (member k v ms) t h = elim (Bool-cases (same_units k (codes "marks"))) [
  | inl e ↦
      let d : is_derived_field kind k ≡ false =
        subst (λ j. is_derived_field kind j ≡ false) (sym (same_units-eq k (codes "marks") e)) h in
      rw (d, e, t) refl
  | inr e ↦ rw e (
      if_rule (λ l. get (codes "marks") l ≡ get (codes "marks") ms) (is_derived_field kind k) _ _
        (λ _. marks-strip kind ms t h) (λ _. rw e (marks-strip kind ms t h)))
]

pub not_derived-type : (kind : Option Units) → is_derived_field kind (codes "type") ≡ false
unfolding is_derived_field
not_derived-type none = refl
not_derived-type (some kind) = refl

pub not_derived-source :
    (kind : Option Units)
    → (is_derived_field kind (codes "src") ≡ false)
      × ((is_derived_field kind (codes "image") ≡ false)
          × ((is_derived_field kind (codes "external") ≡ false)
              × (is_derived_field kind (codes "marks") ≡ false)))
unfolding is_derived_field
not_derived-source none = (refl, (refl, (refl, refl)))
not_derived-source (some kind) = (refl, (refl, (refl, refl)))

-- How the removal computes.
pub strip-member :
    (kind : Option Units) (key : Units) (v : Json) (ms : Members)
    → strip_members kind (member key v ms) ≡ (
        if is_derived_field kind key
        then strip_members kind ms
        else member key (if is_final kind key then v else strip_derived v) (strip_members kind ms))
unfolding strip_derived
strip-member kind key v ms = refl

pub strip-object :
    (ms : Members)
    → strip_derived (object ms) ≡ object (strip_members (as_text (get (codes "type") ms)) ms)
unfolding strip_derived
strip-object ms = refl

pub strip-array : (vs : Items) → strip_derived (array vs) ≡ array (strip_items vs)
unfolding strip_derived
strip-array vs = refl

pub strip-item :
    (v : Json) (vs : Items) → strip_items (item v vs) ≡ item (strip_derived v) (strip_items vs)
unfolding strip_derived
strip-item v vs = refl

pub strip-empty :
    (strip_items no_items ≡ no_items)
    × ((kind : Option Units) → strip_members kind no_members ≡ no_members)
unfolding strip_derived
strip-empty = (refl, λ kind. refl)

pub strip-null : strip_derived null ≡ null
unfolding strip_derived
strip-null = refl

pub strip-bool : (b : Bool) → strip_derived (bool b) ≡ (bool b)
unfolding strip_derived
strip-bool b = refl

pub strip-number : (n : Number) → strip_derived (number n) ≡ (number n)
unfolding strip_derived
strip-number n = refl

pub strip-text : (s : Units) → strip_derived (text s) ≡ (text s)
unfolding strip_derived
strip-text s = refl
