-- ===== src/Canonical/Transform/Nesting.antt =====
-- The nesting of a value without its derived fields.
use cdx_file_format_spec.Prelude.{
  suc, ◌≤◌, Option, if_rule, ◌≡◌, refl, sym, ap, ◌∙◌, subst, Units, codes, arith,
}
use Prim.Native.Nat.{max}
use cdx_file_format_spec.Json.{
  Json, Items, Members, null, bool, number, text, array, object, no_items, item, no_members, member,
  get, as_text,
}
use cdx_file_format_spec.Json.Size.{levels, levels_items, levels_members}
use cdx_file_format_spec.Canonical.Transform.{is_derived_field}
use cdx_file_format_spec.Canonical.Transform.Strip.{
  is_final, strip_derived, strip_items, strip_members, strip-member, strip-object, strip-array,
  strip-item, strip-empty, strip-null, strip-bool, strip-number, strip-text,
}

levels-array : (vs : Items) → levels (array vs) ≡ suc (levels_items vs)
unfolding levels
levels-array vs = refl

levels-object : (ms : Members) → levels (object ms) ≡ suc (levels_members ms)
unfolding levels
levels-object ms = refl

levels-item : (v : Json) (vs : Items) → levels_items (item v vs) ≡ max (levels v) (levels_items vs)
unfolding levels
levels-item v vs = refl

levels-member :
    (k : Units) (v : Json) (ms : Members)
    → levels_members (member k v ms) ≡ max (levels v) (levels_members ms)
unfolding levels
levels-member k v ms = refl

same_level : {v w : Json} → v ≡ w → levels v ≤ levels w
same_level {v} {w} e = let l : levels v ≡ levels w = ap levels e in omega (arith, l)

mutual
  pub levels-strip : (v : Json) → levels (strip_derived v) ≤ levels v
  levels-strip (array vs) =
      let l = ap levels (strip-array vs) ∙ levels-array (strip_items vs) in
      omega (arith, l, levels-array vs, levels_items-strip vs)
  levels-strip (object ms) =
      let kind = as_text (get (codes "type") ms) in
      let l = ap levels (strip-object ms) ∙ levels-object (strip_members kind ms) in
      omega (arith, l, levels-object ms, levels_members-strip kind ms)
  levels-strip null = same_level strip-null
  levels-strip (bool b) = same_level (strip-bool b)
  levels-strip (number n) = same_level (strip-number n)
  levels-strip (text s) = same_level (strip-text s)

  levels_items-strip : (vs : Items) → levels_items (strip_items vs) ≤ levels_items vs
  levels_items-strip no_items = let l = ap levels_items strip-empty.0 in omega (arith, l)
  levels_items-strip (item v vs) =
      let l = ap levels_items (strip-item v vs) ∙ levels-item (strip_derived v) (strip_items vs) in
      omega (arith, l, levels-item v vs, levels-strip v, levels_items-strip vs)

  levels_members-strip :
      (kind : Option Units) (ms : Members)
      → levels_members (strip_members kind ms) ≤ levels_members ms
  levels_members-strip kind no_members =
      let l = ap levels_members (strip-empty.1 kind) in omega (arith, l)
  levels_members-strip kind (member key v ms) =
      let rest = levels_members-strip kind ms in
      let whole = levels-member key v ms in
      let stripped = levels-member key (strip_derived v) (strip_members kind ms) in
      let same = levels-member key v (strip_members kind ms) in
      let below = levels-strip v in
      subst (λ l. levels_members l ≤ levels_members (member key v ms))
        (sym (strip-member kind key v ms))
        (if_rule (λ l. levels_members l ≤ levels_members (member key v ms))
          (is_derived_field kind key) _ _ (λ _. omega (arith, rest, whole))
          (λ _.
            if_rule
              (λ u.
                levels_members (member key u (strip_members kind ms))
                ≤ levels_members (member key v ms))
              (is_final kind key) v (strip_derived v) (λ _. omega (arith, rest, whole, same))
              (λ _. omega (arith, rest, whole, stripped, below))))
