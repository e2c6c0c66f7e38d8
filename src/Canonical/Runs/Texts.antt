-- ===== src/Canonical/Runs/Texts.antt =====
-- The condition of the loop of `mergeAdjacentText` on text nodes and on others.
use cdx_file_format_spec.Prelude.{
  Bool, true, false, ◌&&◌, ◌||◌, ◌⊎◌, ◌↔◌, same_units_iff, same_units-false_iff, Option, none, some,
  Result, ok, ◌≡◌, ◌≢◌, refl, sym, ap, ◌∙◌, subst, Bool-cases, inl, inr, Units, codes, same_units,
  same_units-eq, arith,
}
use cdx_file_format_spec.Json.{
  Json, Members, null, bool, number, text, array, object, no_members, member, get, as_text, is_text,
}
use cdx_file_format_spec.Canonical.Errors.{CanonError}
use cdx_file_format_spec.Canonical.Marks.{Serializer, set_member}
use cdx_file_format_spec.Canonical.Runs.{
  is_plain, is_some, only_plain_keys, is_mergeable_text_node, value_of, with_value, marks_equal,
  absorbs,
}
use cdx_file_format_spec.Canonical.Runs.Assign.{
  get-set_other, get-with_value, marks-with_value, is_plain-with_value,
}
use cdx_file_format_spec.Canonical.Runs.Grouped.{
  OnlyTextKeys, IsTextNode, IsText, HasMarks, IsOther,
}

pub set-get : (k : Units) (v : Json) (ms : Members) → get k ms ≡ some v → set_member k v ms ≡ ms
unfolding get set_member
set-get k v no_members h = refl
set-get k v (member j w ms) h = elim (Bool-cases (same_units j k)) [
  | inl e ↦
      let h' : ◌≡◌ {A = Option Json} (some w) (some v) = rw e at h in
      let is : v ≡ w = cc h' in rw e (ap (λ x. member j x ms) is)
  | inr e ↦ let h' : get k ms ≡ some v = rw e at h in rw e (ap (member j w) (set-get k v ms h'))
]

three : (x y z : Bool) → (x && (y && z)) ≡ true → (x ≡ true) × (y ≡ true) × (z ≡ true)
three x y z h = ground arith

text-valued : (v : Option Json) → is_some (as_text v) ≡ true → (t : Units) × (v ≡ some (text t))
text-valued none h = cc
text-valued (some null) h = cc
text-valued (some (bool b)) h = cc
text-valued (some (number x)) h = cc
text-valued (some (text t)) h = (t, refl)
text-valued (some (array vs)) h = cc
text-valued (some (object ms)) h = cc

text-typed : (v : Option Json) (s : Units) → is_text v s ≡ true → v ≡ some (text s)
text-typed none s h = cc
text-typed (some null) s h = cc
text-typed (some (bool b)) s h = cc
text-typed (some (number x)) s h = cc
text-typed (some (text t)) s h = ap (λ u. some (text u)) (same_units-eq t s h)
text-typed (some (array vs)) s h = cc
text-typed (some (object ms)) s h = cc

one_of :
    (k a b c : Units)
    → ((same_units k a || (same_units k b || same_units k c)) ≡ true)
      ↔ ((k ≡ a) ⊎ ((k ≡ b) ⊎ (k ≡ c)))
one_of k a b c = (
  λ h. ground (arith, same_units_iff k a, same_units_iff k b, same_units_iff k c),
  λ h. ground (arith, same_units_iff k a, same_units_iff k b, same_units_iff k c),
)

and_split : (x y : Bool) → ((x && y) ≡ true) ↔ ((x ≡ true) × (y ≡ true))
and_split x y = (λ h. ground arith, λ h. ground arith)

only_plain_keys_iff : (ms : Members) → (only_plain_keys ms ≡ true) ↔ OnlyTextKeys ms
unfolding only_plain_keys
only_plain_keys_iff no_members = (λ _. tt, λ _. refl)
only_plain_keys_iff (member k v ms) =
    let keys = one_of k (codes "type") (codes "value") (codes "marks") in
    let rest = only_plain_keys_iff ms in
    let split =
      and_split
        (same_units k (codes "type")
          || (same_units k (codes "value") || same_units k (codes "marks")))
        (only_plain_keys ms) in
    (λ h. (keys.0 (split.0 h).0, rest.0 (split.0 h).1), λ (h, hs). split.1 (keys.1 h, rest.1 hs))

plain-IsTextNode : (ms : Members) → is_plain ms ≡ true → (t : Units) × IsTextNode ms t
unfolding is_plain
plain-IsTextNode ms h =
    let (kind, value, keys) =
      three (is_text (get (codes "type") ms) (codes "text"))
        (is_some (as_text (get (codes "value") ms))) (only_plain_keys ms) h in
    let (t, valued) = text-valued (get (codes "value") ms) value in
    (
      t,
      record {
        typed = text-typed (get (codes "type") ms) (codes "text") kind;
        valued = valued;
        keyed = (only_plain_keys_iff ms).0 keys;
      },
    )

IsTextNode-plain : (ms : Members) (t : Units) → IsTextNode ms t → is_plain ms ≡ true
unfolding is_plain
IsTextNode-plain ms t h =
    let kind = h.typed in
    let value = h.valued in
    let keys = (only_plain_keys_iff ms).1 h.keyed in rw (kind, value, keys) refl

module _ (jcs : Serializer) where
  pub data Kind (v : Json) : Type 0 where
    is_text_node : (ms : Members) (s t : Units) → v ≡ object ms → IsText jcs ms s t → Kind v
    is_other : is_mergeable_text_node v ≡ false → Kind v

  kind-object : (ms : Members) → HasMarks jcs (object ms) → Kind (object ms)
  unfolding is_mergeable_text_node
  kind-object ms h = elim (Bool-cases (is_plain ms)) [
    | inl e ↦
        let (t, node) = plain-IsTextNode ms e in
        let (s, written) = h ms t refl node in
        Kind.is_text_node ms s t refl (record { node = node; serialized = written })
    | inr e ↦ Kind.is_other e
  ]

  pub kind : (v : Json) → HasMarks jcs v → Kind v
  unfolding is_mergeable_text_node
  kind (object ms) h = kind-object ms h
  kind null h = Kind.is_other refl
  kind (bool b) h = Kind.is_other refl
  kind (number x) h = Kind.is_other refl
  kind (text t) h = Kind.is_other refl
  kind (array vs) h = Kind.is_other refl

  pub unmergeable-IsOther : (v : Json) → is_mergeable_text_node v ≡ false → IsOther jcs v
  unfolding is_mergeable_text_node
  unmergeable-IsOther v h ms s t e x =
      let h' : is_plain ms ≡ false = subst (λ u. is_mergeable_text_node u ≡ false) e h in
      cc (h', IsTextNode-plain ms t x.node)

  pub value_of-IsText : (ms : Members) (s t : Units) → IsText jcs ms s t → value_of ms ≡ t
  value_of-IsText ms s t h = let v = h.node.valued in rw v refl

  -- The marks and the value of a text node are the only ones.
  pub IsText-marks :
      (ms : Members) (s t s' t' : Units) → IsText jcs ms s t → IsText jcs ms s' t' → s ≡ s'
  IsText-marks ms s t s' t' h h' =
      let e : ◌≡◌ {A = Result CanonError Units} (ok s) (ok s') = sym h.serialized ∙ h'.serialized in
      cc e

  pub absorbs-text :
      (p m : Members) (s s' t t' : Units)
      → IsText jcs p s t
      → IsText jcs m s' t'
      → absorbs jcs (object p) (object m) ≡ ok (same_units s s')
  unfolding absorbs marks_equal is_mergeable_text_node
  absorbs-text p m s s' t t' h h' =
      let a = IsTextNode-plain p t h.node in
      let b = IsTextNode-plain m t' h'.node in
      let c = h.serialized in let d = h'.serialized in rw (a, b, c, d) refl

  pub absorbs-other :
      (prev v : Json) → is_mergeable_text_node v ≡ false → absorbs jcs prev v ≡ ok false
  unfolding absorbs
  absorbs-other prev v h = rw h refl

  pub other-absorbs :
      (prev v : Json) → is_mergeable_text_node prev ≡ false → absorbs jcs prev v ≡ ok false
  unfolding absorbs
  other-absorbs prev v h = elim (Bool-cases (is_mergeable_text_node v)) [
    | inl e ↦ rw (e, h) refl
    | inr e ↦ rw e refl
  ]

  -- The other members stay.
  pub get_other-with_value :
      (ms : Members) (u key : Units) → key ≢ codes "value" → get key (with_value u ms) ≡ get key ms
  get_other-with_value ms u key other =
      get-set_other (codes "value") key (text u) ms
        ((same_units-false_iff (codes "value") key).1 (λ e. other (sym e)))

  -- A text node with another value.
  pub appended-IsText :
      (p : Members) (s t u : Units) → IsText jcs p s t → IsText jcs (with_value u p) s u
  appended-IsText p s t u h =
      let plain = IsTextNode-plain p t h.node in
      let marks = marks-with_value u p in
      let (value, node) = plain-IsTextNode (with_value u p) (is_plain-with_value u p plain) in
      let two : ◌≡◌ {A = Option Json} (some (text value)) (some (text u)) =
        sym node.valued ∙ get-with_value u p plain in
      let same : value ≡ u = cc two in
      record {
        node = subst (IsTextNode (with_value u p)) same node;
        serialized = rw marks h.serialized;
      }
