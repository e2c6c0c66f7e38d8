-- ===== src/Canonical/Ids/Rename.antt =====
-- `rewriteIds`, the tests for reserved names, and `alphaRenameIds`.
use cdx_file_format_spec.Prelude.{
  Bool, true, false, not, ◌&&◌, ◌||◌, List, [], ◌∷◌, Option, none, some, Result, ok, err, ◌>>=◌,
  if◌then◌else◌, Units, codes, same_units,
}
use cdx_file_format_spec.Json.{
  Json, Items, Members, text, array, object, no_items, item, no_members, member, get, as_text,
  to_list, of_list,
}
use cdx_file_format_spec.Canonical.Errors.{CanonError, duplicate_id, reserved_name}
use cdx_file_format_spec.Canonical.Marks.{Serializer, sort_dedup_marks, set_member}
use cdx_file_format_spec.Canonical.Transform.{is_block_content_key, content_barrier_key, is_kind}
use cdx_file_format_spec.Canonical.Anchors.{
  RelabelMap, relabel_map, rename_id, is_canonical_name, rewrite_content_anchor,
}
use cdx_file_format_spec.Canonical.Ids.{
  type_of, id_of, defined_id, is_array, CollectedIds, collect_defined_ids,
}

abbrev pub is_reserved_id : Option Units → Bool
is_reserved_id none = false
is_reserved_id (some id) = is_canonical_name id

-- A text node of block content with a reserved id.
abbrev pub is_reserved_node : Bool → Json → Bool
is_reserved_node in_content (object ms) =
    in_content && (is_kind (type_of ms) (codes "text") && is_reserved_id (id_of ms))
is_reserved_node in_content _ = false

unfoldable mutual
  unfolding is_canonical_name get

  pub forbid_canonical_text_ids : Option Units → Bool → Json → Result CanonError (Unit {0})
  forbid_canonical_text_ids key blocked (array vs) =
      forbid_items (not blocked && is_block_content_key key) key blocked vs
  forbid_canonical_text_ids key blocked (object ms) = forbid_members blocked ms
  forbid_canonical_text_ids key blocked _ = ok tt

  pub forbid_items : Bool → Option Units → Bool → Items → Result CanonError (Unit {0})
  forbid_items in_content key blocked no_items = ok tt
  forbid_items in_content key blocked (item v vs) =
      let below = forbid_canonical_text_ids key blocked v in
      let rest = forbid_items in_content key blocked vs in
      if is_reserved_node in_content v then err reserved_name else below >>= λ _. rest

  pub forbid_members : Bool → Members → Result CanonError (Unit {0})
  forbid_members blocked no_members = ok tt
  forbid_members blocked (member key v ms) = do
    below ← forbid_canonical_text_ids (some key) (blocked || same_units key content_barrier_key) v
    forbid_members blocked ms

abbrev pub is_anchor_ref_mark : Option Units → Bool
is_anchor_ref_mark kind =
    is_kind kind (codes "academic:theorem-ref")
    || (is_kind kind (codes "academic:equation-ref")
        || is_kind kind (codes "academic:algorithm-ref"))

-- obj[key] = rewriteContentAnchor(obj[key], map), if it is a text
abbrev pub rewrite_text : RelabelMap → Units → Members → Option Units → Result CanonError Members
rewrite_text map key ms none = ok ms
rewrite_text map key ms (some s) = do
  t ← rewrite_content_anchor s map
  ok (set_member key (text t) ms)

abbrev pub rewrite_field : RelabelMap → Units → Members → Result CanonError Members
rewrite_field map key ms = rewrite_text map key ms (as_text (get key ms))

abbrev pub rename_field : RelabelMap → Members → Option Units → Members
rename_field map ms none = ms
rename_field map ms (some id) = set_member (codes "id") (text (rename_id id map)) ms

-- obj.uses.map(…)
unfoldable pub rewrite_uses : RelabelMap → Items → Result CanonError Items
rewrite_uses map no_items = ok no_items
rewrite_uses map (item (text s) vs) = do
  t ← rewrite_content_anchor s map
  rest ← rewrite_uses map vs
  ok (item (text t) rest)
rewrite_uses map (item v vs) = do rest ← rewrite_uses map vs; ok (item v rest)

abbrev pub rewrite_uses_field : RelabelMap → Members → Option Json → Result CanonError Members
rewrite_uses_field map ms (some (array vs)) = do
  us ← rewrite_uses map vs
  ok (set_member (codes "uses") (array us) ms)
rewrite_uses_field map ms _ = ok ms

-- The references of a mark, and of a node outside of marks.
unfoldable pub rewrite_mark : RelabelMap → Members → Result CanonError Members
unfolding get set_member
rewrite_mark map ms =
    if is_kind (type_of ms) (codes "anchor")
    then ok (rename_field map ms (id_of ms))
    else if is_kind (type_of ms) (codes "link")
    then rewrite_field map (codes "href") ms
    else if is_anchor_ref_mark (type_of ms)
    then rewrite_field map (codes "target") ms
    else ok ms

unfoldable pub rewrite_node : RelabelMap → Option Units → Members → Result CanonError Members
unfolding rewrite_uses get
rewrite_node map kind ms =
    if is_kind kind (codes "academic:proof")
    then rewrite_field map (codes "of") ms
    else if is_kind kind (codes "academic:theorem")
    then rewrite_uses_field map ms (get (codes "uses") ms)
    else if is_kind kind (codes "semantic:ref") || is_kind kind (codes "presentation:reference")
    then rewrite_field map (codes "target") ms
    else ok ms

module _ (jcs : Serializer) (map : RelabelMap) where
  abbrev pub sort_array : Json → Result CanonError Json
  sort_array (array vs) = do sorted ← sort_dedup_marks jcs (to_list vs); ok (array (of_list sorted))
  sort_array v = ok v

  abbrev pub sort_if : Bool → Json → Result CanonError Json
  sort_if true v = sort_array v
  sort_if false v = ok v

  -- This node's own id and references, where its members are rewritten.
  abbrev pub rewrite_own : Bool → Bool → Option Units → Members → Result CanonError Members
  rewrite_own true in_array parent_key ms = rewrite_mark map ms
  rewrite_own false in_array parent_key ms =
      rewrite_node map (type_of ms) (rename_field map ms (defined_id ms false in_array parent_key))

  -- An array of marks is rewritten as one, with its members inside of marks.
  unfoldable mutual
    unfolding rewrite_mark rewrite_node defined_id

    pub rewrite_ids : Bool → Bool → Option Units → Json → Result CanonError Json
    rewrite_ids in_marks in_array parent_key (array vs) = do
      us ← rewrite_items in_marks parent_key vs
      ok (array us)
    rewrite_ids in_marks in_array parent_key (object ms) = do
      below ← rewrite_members (type_of ms) ms
      own ← rewrite_own in_marks in_array parent_key below
      ok (object own)
    rewrite_ids in_marks in_array parent_key v = ok v

    pub rewrite_items : Bool → Option Units → Items → Result CanonError Items
    rewrite_items in_marks parent_key no_items = ok no_items
    rewrite_items in_marks parent_key (item v vs) = do
      u ← rewrite_ids in_marks true parent_key v
      us ← rewrite_items in_marks parent_key vs
      ok (item u us)

    pub rewrite_members : Option Units → Members → Result CanonError Members
    rewrite_members kind no_members = ok no_members
    rewrite_members kind (member key v ms) = do
      below ← rewrite_ids (same_units key (codes "marks") && is_array v) false (some key) v
      u ←
          sort_if (same_units key (codes "marks") && (is_array v && is_kind kind (codes "text")))
            below
      us ← rewrite_members kind ms
      ok (member key u us)

abbrev pub any_reserved : List Units → Bool
any_reserved [] = false
any_reserved (id ∷ ids) = is_canonical_name id || any_reserved ids

-- The ids of a content are renamed after the three tests.
abbrev pub rename_collected : Serializer → Json → CollectedIds → Result CanonError Json
rename_collected jcs content collected =
    if collected.has_duplicate
    then err duplicate_id
    else if any_reserved collected.preserved_by_type
    then err reserved_name
    else (do
      allowed ← forbid_canonical_text_ids none false content
      rewrite_ids jcs (relabel_map collected.ids collected.preserved) false false none content)

unfoldable pub alpha_rename_ids : Serializer → Json → Result CanonError Json
unfolding collect_defined_ids rewrite_ids forbid_canonical_text_ids
alpha_rename_ids jcs content = rename_collected jcs content (collect_defined_ids content)
