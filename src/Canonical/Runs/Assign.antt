-- ===== src/Canonical/Runs/Assign.antt =====
-- The assignment `prev.value = …` and the members of a text node.
use cdx_file_format_spec.Prelude.{
  Bool, true, false, ◌&&◌, ◌||◌, Option, none, some, ◌≡◌, refl, sym, ap, if_rule, Bool-cases, inl,
  inr, subst, Units, codes, same_units, same_units-eq, arith,
}
use cdx_file_format_spec.Json.{
  Json, Members, text, no_members, member, get, is_defined, as_text, is_text,
}
use cdx_file_format_spec.Canonical.Marks.{set_member}
use cdx_file_format_spec.Canonical.Runs.{only_plain_keys, is_plain, with_value, value_of, is_some}

pub get-set_same :
    (k : Units) (v : Json) (ms : Members)
    → is_defined (get k ms) ≡ true
    → get k (set_member k v ms) ≡ some v
unfolding get set_member
get-set_same k v no_members h = cc
get-set_same k v (member j w ms) h = elim (Bool-cases (same_units j k)) [
  | inl e ↦ rw (e, e) refl
  | inr e ↦ let h' : is_defined (get k ms) ≡ true = rw e at h in rw (e, e) (get-set_same k v ms h')
]

pub get-set_other :
    (k j : Units) (v : Json) (ms : Members)
    → same_units k j ≡ false
    → get j (set_member k v ms) ≡ get j ms
unfolding get set_member
get-set_other k j v no_members h = refl
get-set_other k j v (member i w ms) h = elim (Bool-cases (same_units i k)) [
  | inl e ↦
      let other : same_units i j ≡ false =
        subst (λ u. same_units u j ≡ false) (sym (same_units-eq i k e)) h in
      rw (e, other) refl
  | inr e ↦ rw (e, get-set_other k j v ms h) refl
]

pub set-set :
    (k : Units) (v w : Json) (ms : Members) → set_member k v (set_member k w ms) ≡ set_member k v ms
unfolding set_member
set-set k v w no_members = refl
set-set k v w (member j u ms) = elim (Bool-cases (same_units j k)) [
  | inl e ↦ rw (e, e) refl
  | inr e ↦ rw (e, e) (ap (member j u) (set-set k v w ms))
]

only_plain_keys-set :
    (k : Units) (v : Json) (ms : Members) → only_plain_keys (set_member k v ms) ≡ only_plain_keys ms
unfolding only_plain_keys set_member
only_plain_keys-set k v no_members = refl
only_plain_keys-set k v (member j w ms) =
    if_rule (λ l. only_plain_keys l ≡ only_plain_keys (member j w ms)) (same_units j k)
      (member j v ms) (member j w (set_member k v ms)) (λ _. refl)
      (λ _.
        ap
          (λ b.
            (same_units j (codes "type")
              || (same_units j (codes "value") || same_units j (codes "marks")))
            && b)
          (only_plain_keys-set k v ms))

-- A text node that can be merged has a value.
is_plain-has_value :
    (ms : Members) → is_plain ms ≡ true → is_defined (get (codes "value") ms) ≡ true
unfolding is_plain
is_plain-has_value ms h =
    go (get (codes "value") ms) (and_right (is_text (get (codes "type") ms) (codes "text")) _ h)
  where
    and_right : (x y : Bool) → (x && y) ≡ true → y ≡ true
    and_right x y h = ground arith

    go :
        (v : Option Json) → (is_some (as_text v) && only_plain_keys ms) ≡ true → is_defined v ≡ true
    go none h = cc
    go (some v) h = refl

pub get-with_value :
    (s : Units) (ms : Members)
    → is_plain ms ≡ true
    → get (codes "value") (with_value s ms) ≡ some (text s)
get-with_value s ms h = get-set_same (codes "value") (text s) ms (is_plain-has_value ms h)

pub value_of-with_value :
    (s : Units) (ms : Members) → is_plain ms ≡ true → value_of (with_value s ms) ≡ s
value_of-with_value s ms h = rw (get-with_value s ms h) refl

pub marks-with_value :
    (s : Units) (ms : Members) → get (codes "marks") (with_value s ms) ≡ get (codes "marks") ms
marks-with_value s ms = get-set_other (codes "value") (codes "marks") (text s) ms refl

type-with_value :
    (s : Units) (ms : Members) → get (codes "type") (with_value s ms) ≡ get (codes "type") ms
type-with_value s ms = get-set_other (codes "value") (codes "type") (text s) ms refl

pub is_plain-with_value :
    (s : Units) (ms : Members) → is_plain ms ≡ true → is_plain (with_value s ms) ≡ true
unfolding is_plain
is_plain-with_value s ms h =
    let value = get-with_value s ms h in
    let kind = type-with_value s ms in
    let keys = only_plain_keys-set (codes "value") (text s) ms in
    rw (value, kind, keys) (ground (arith, h))
