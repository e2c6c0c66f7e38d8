-- ===== src/Canonical/Marks.antt =====
-- `normalizeMarks` and `sortDedupMarks`. The serializer of RFC 8785, a package, is the parameter `jcs`:
-- `none` if it gives no text. `sort` is the stable sort of JS, here by insertion.
pub mod Order
pub mod Dedup
pub mod Written
mod Tests
use cdx_file_format_spec.Prelude.{
  Bool, true, false, List, [], ◌∷◌, map, Option, none, some, Result, ok, err, ◌>>=◌, if◌then◌else◌,
  Units, codes, same_units, less_units,
}
use cdx_file_format_spec.Json.{
  Json, Items, Members, text, object, no_members, member, get, as_text, is_text,
}
use cdx_file_format_spec.Canonical.Errors.{CanonError, not_serializable}
use cdx_file_format_spec.Canonical.Assets.{AssetMap, resolve_asset_ref}

abbrev pub Serializer : Type 0
Serializer = Json → Option Units

abbrev pub of_serialized : Option Units → Result CanonError Units
of_serialized none = err not_serializable
of_serialized (some s) = ok s

-- A mark beside its serialization.
abbrev pub Keyed : Type 0
Keyed = Json × Units

-- It goes behind those that are not greater.
unfoldable pub insert_mark : Keyed → List Keyed → List Keyed
insert_mark m [] = m ∷ []
insert_mark m (n ∷ ns) =
    let rest = insert_mark m ns in if less_units m.1 n.1 then m ∷ n ∷ ns else n ∷ rest

unfoldable pub sort_marks : List Keyed → List Keyed → List Keyed
unfolding insert_mark
sort_marks sorted [] = sorted
sort_marks sorted (m ∷ ms) = sort_marks (insert_mark m sorted) ms

-- The loop with `lastJcs`.
abbrev pub is_last : Option Units → Units → Bool
is_last none s = false
is_last (some last) s = same_units last s

unfoldable pub dedup_marks : Option Units → List Keyed → List Keyed
dedup_marks last [] = []
dedup_marks last (m ∷ ms) =
    let skipped = dedup_marks last ms in
    let kept = dedup_marks (some m.1) ms in if is_last last m.1 then skipped else m ∷ kept

-- obj[key] = v, for a key that is there.
unfoldable pub set_member : Units → Json → Members → Members
set_member k v no_members = no_members
set_member k v (member j w ms) =
    let rest = set_member k v ms in if same_units j k then member j v ms else member j w rest

module _ (jcs : Serializer) where
  unfoldable pub jcs_of : Json → Result CanonError Units
  jcs_of v = of_serialized (jcs v)

  unfoldable pub key_marks : List Json → Result CanonError (List Keyed)
  unfolding jcs_of
  key_marks [] = ok []
  key_marks (m ∷ ms) = do s ← jcs_of m; rest ← key_marks ms; ok ((m, s) ∷ rest)

  unfoldable pub sort_dedup_marks : List Json → Result CanonError (List Json)
  unfolding key_marks sort_marks dedup_marks
  sort_dedup_marks marks = do
    keyed ← key_marks marks
    ok (map (λ (k : Keyed). k.0) (dedup_marks none (sort_marks [] keyed)))

  -- The href of a link.
  abbrev pub resolve_href : AssetMap → Members → Option Units → Result CanonError Json
  resolve_href assets ms none = ok (object ms)
  resolve_href assets ms (some href) = do
    resolved ← resolve_asset_ref href assets false
    ok (object (set_member (codes "href") (text resolved) ms))

  unfoldable pub resolve_mark : AssetMap → Json → Result CanonError Json
  unfolding set_member
  resolve_mark assets (object ms) =
      if is_text (get (codes "type") ms) (codes "link")
      then resolve_href assets ms (as_text (get (codes "href") ms))
      else ok (object ms)
  resolve_mark assets m = ok m

  unfoldable pub resolve_marks : AssetMap → List Json → Result CanonError (List Json)
  unfolding resolve_mark
  resolve_marks assets [] = ok []
  resolve_marks assets (m ∷ ms) = do
    m' ← resolve_mark assets m
    rest ← resolve_marks assets ms
    ok (m' ∷ rest)

  unfoldable pub normalize_marks : List Json → AssetMap → Result CanonError (List Json)
  unfolding resolve_marks sort_dedup_marks
  normalize_marks marks assets = do resolved ← resolve_marks assets marks; sort_dedup_marks resolved
