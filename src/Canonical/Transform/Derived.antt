-- ===== src/Canonical/Transform/Derived.antt =====
-- `canon` and the derived fields.
use cdx_file_format_spec.Prelude.{
  Bool, false, ◌||◌, ◌∷◌, Option, none, some, Result, ok, ◌>>=◌, >>=_congr, if_rule, Bool-cases,
  inl, inr, ◌≡◌, refl, sym, ap, ◌∙◌, subst, Units, codes, same_units, same_units-eq, arith,
}
use cdx_file_format_spec.Json.{
  Json, Items, Members, null, bool, number, text, array, object, no_items, item, no_members, member,
  get, as_text, is_true,
}
use cdx_file_format_spec.Canonical.Errors.{CanonError}
use cdx_file_format_spec.Canonical.Assets.{AssetMap}
use cdx_file_format_spec.Canonical.Marks.{Serializer}
use cdx_file_format_spec.Canonical.Transform.{
  is_kind, is_deleted, is_derived_field, Edit, action, finish, own_edit, canon, canon_items,
  canon_members, finish_array, content_barrier_key,
}
use cdx_file_format_spec.Canonical.Transform.Strip.{
  is_final, strip_derived, strip_items, strip_members, as_text-strip, is_true-strip, get-strip,
  marks-strip, not_derived-type, not_derived-source, strip-member, strip-object, strip-array,
  strip-item, strip-empty, strip-null, strip-bool, strip-number, strip-text,
}

-- The two tests for a derived field agree.
is_deleted-eq :
    (kind : Option Units) (key : Units) → is_deleted kind key ≡ is_derived_field kind key
unfolding is_deleted is_derived_field
is_deleted-eq none key = refl
is_deleted-eq (some kind) key = elim (Bool-cases (same_units key (codes "display"))) [
  | inl e ↦
      subst (λ k. is_deleted (some kind) k ≡ is_derived_field (some kind) k)
        (sym (same_units-eq key (codes "display") e)) (ground arith)
  | inr e ↦ ground arith
]

module _ (jcs : Serializer) (assets : AssetMap) where
  own_edit-strip :
      (kind : Option Units) (ms : Members)
      → own_edit jcs assets kind (strip_members kind ms) ≡ own_edit jcs assets kind ms
  unfolding own_edit
  own_edit-strip kind ms =
      let (d₁, (d₂, (d₃, d₄))) = not_derived-source kind in
      let src = get-strip as_text as_text-strip kind (codes "src") ms d₁ in
      let image = get-strip as_text as_text-strip kind (codes "image") ms d₂ in
      let external = get-strip is_true is_true-strip kind (codes "external") ms d₃ in
      elim (Bool-cases (is_kind kind (codes "text"))) [
        | inl t ↦ let marks = marks-strip kind ms t d₄ in rw (src, image, external, marks) refl
        | inr t ↦ rw (src, image, external, t) refl
      ]

  -- The walk over an object of a kind.
  abbrev canon_object : Option Units → Bool → Members → Result CanonError Json
  canon_object kind blocked ms = own_edit jcs assets kind ms >>= λ edit.
      canon_members jcs assets kind edit blocked ms >>= λ done. ok (object done)

  canon-object :
      (key : Option Units) (blocked : Bool) (ms : Members)
      → canon jcs assets key blocked (object ms)
        ≡ canon_object (as_text (get (codes "type") ms)) blocked ms
  unfolding canon
  canon-object key blocked ms = refl

  canon-array :
      (key : Option Units) (blocked : Bool) (vs : Items)
      → canon jcs assets key blocked (array vs)
        ≡ (canon_items jcs assets key blocked vs >>= finish_array jcs assets key blocked)
  unfolding canon
  canon-array key blocked vs = refl

  canon_items-item :
      (key : Option Units) (blocked : Bool) (v : Json) (vs : Items)
      → canon_items jcs assets key blocked (item v vs) ≡ (
          canon jcs assets key blocked v >>= λ first.
          canon_items jcs assets key blocked vs >>= λ rest. ok (first ∷ rest))
  unfolding canon
  canon_items-item key blocked v vs = refl

  canon_members-member :
      (kind : Option Units) (edit : Edit) (blocked : Bool) (key : Units) (v : Json) (ms : Members)
      → canon_members jcs assets kind edit blocked (member key v ms)
        ≡ finish
            (action kind edit key)
            key
            (canon jcs assets (some key) (blocked || same_units key content_barrier_key) v)
            (canon_members jcs assets kind edit blocked ms)
  unfolding canon
  canon_members-member kind edit blocked key v ms = refl

  mutual
    canon-strip :
        (key : Option Units) (blocked : Bool) (v : Json)
        → canon jcs assets key blocked (strip_derived v) ≡ canon jcs assets key blocked v
    canon-strip key blocked (array vs) =
        ap (canon jcs assets key blocked) (strip-array vs)
        ∙ canon-array key blocked (strip_items vs)
        ∙ ap (λ r. r >>= finish_array jcs assets key blocked) (canon_items-strip key blocked vs)
        ∙ sym (canon-array key blocked vs)
    canon-strip key blocked (object ms) =
        let kind = as_text (get (codes "type") ms) in
        let same_kind =
          get-strip as_text as_text-strip kind (codes "type") ms (not_derived-type kind) in
        ap (canon jcs assets key blocked) (strip-object ms)
        ∙ canon-object key blocked (strip_members kind ms)
        ∙ ap (λ k. canon_object k blocked (strip_members kind ms)) same_kind
        ∙ ap
            (λ r. r >>= λ edit.
              canon_members jcs assets kind edit blocked (strip_members kind ms) >>= λ done.
              ok (object done))
            (own_edit-strip kind ms)
        ∙ >>=_congr (own_edit jcs assets kind ms) _ _ (λ edit.
          ap (λ r. r >>= λ done. ok (object done)) (canon_members-strip kind edit blocked ms))
        ∙ sym (canon-object key blocked ms)
    canon-strip key blocked null = ap (canon jcs assets key blocked) strip-null
    canon-strip key blocked (bool b) = ap (canon jcs assets key blocked) (strip-bool b)
    canon-strip key blocked (number n) = ap (canon jcs assets key blocked) (strip-number n)
    canon-strip key blocked (text s) = ap (canon jcs assets key blocked) (strip-text s)

    canon_items-strip :
        (key : Option Units) (blocked : Bool) (vs : Items)
        → canon_items jcs assets key blocked (strip_items vs)
          ≡ canon_items jcs assets key blocked vs
    canon_items-strip key blocked no_items = ap (canon_items jcs assets key blocked) strip-empty.0
    canon_items-strip key blocked (item v vs) =
        let first = canon-strip key blocked v in
        let rest = canon_items-strip key blocked vs in
        ap (canon_items jcs assets key blocked) (strip-item v vs)
        ∙ canon_items-item key blocked (strip_derived v) (strip_items vs)
        ∙ rw (first, rest) (sym (canon_items-item key blocked v vs))

    canon_members-strip :
        (kind : Option Units) (edit : Edit) (blocked : Bool) (ms : Members)
        → canon_members jcs assets kind edit blocked (strip_members kind ms)
          ≡ canon_members jcs assets kind edit blocked ms
    canon_members-strip kind edit blocked no_members =
        ap (canon_members jcs assets kind edit blocked) (strip-empty.1 kind)
    canon_members-strip kind edit blocked (member key v ms) =
        let walk = canon_members jcs assets kind edit blocked in
        let rest = canon_members-strip kind edit blocked ms in
        let inner = canon-strip (some key) (blocked || same_units key content_barrier_key) v in
        ap walk (strip-member kind key v ms)
        ∙ if_rule (λ l. walk l ≡ walk (member key v ms)) (is_derived_field kind key) _ _
            (λ d.
              rest
              ∙ sym (
                  canon_members-member kind edit blocked key v ms
                  ∙ rw (is_deleted-eq kind key ∙ d) refl))
            (λ _.
              if_rule (λ u. walk (member key u (strip_members kind ms)) ≡ walk (member key v ms))
                (is_final kind key) v (strip_derived v)
                (λ _.
                  canon_members-member kind edit blocked key v (strip_members kind ms)
                  ∙ rw rest (sym (canon_members-member kind edit blocked key v ms)))
                (λ _.
                  canon_members-member kind edit blocked key (strip_derived v)
                    (strip_members kind ms)
                  ∙ rw (rest, inner) (sym (canon_members-member kind edit blocked key v ms))))

  -- The derived fields of a content have no part in its canonical form: sync state in a typed node, the
  -- display of a measurement and the tokens of a code block, at any depth but in and below the marks
  -- of a text node, which `strip_derived` leaves as they are. Without the fields that it removes, the
  -- transform gives the same value, or throws the same error.
  pub canon-strip_derived :
      (v : Json) → canon jcs assets none false (strip_derived v) ≡ canon jcs assets none false v
  canon-strip_derived v = canon-strip none false v
