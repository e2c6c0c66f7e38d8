-- ===== src/Canonical/Assets/Registered.antt =====
-- What the asset map of a manifest holds.
use cdx_file_format_spec.Prelude.{
  ◌≡◌, ◌≢◌, sym, ap, ◌∙◌, subst, ◌↔◌, ◌⊎◌, inl, inr, not, [], ◌∷◌, Option, none, some, Result, ok,
  err, >>=-eq-ok, unless-eq-ok, Bool-cases, Option-cases, Units, same_units, same_units_iff,
}
use cdx_file_format_spec.Json.{Json, Items, Members, no_items, item, no_members, member}
use cdx_file_format_spec.Canonical.Errors.{CanonError, malformed_asset_hash, bad_category}
use cdx_file_format_spec.Canonical.Paths.{is_valid_path_segment}
use cdx_file_format_spec.Canonical.Hashes.{is_valid_content_hash}
use cdx_file_format_spec.Canonical.StrictJson.{JsonRuntime}
use cdx_file_format_spec.Canonical.Assets.{
  AssetMap, asset_get, entry_of, archive_path, insert_asset, register_entry, register_entries,
  entries_of, assets_of, read_index, register_categories, build_asset_map,
}

-- An entry of an index registers a hash for an archive path.
pub record Registers (category path h : Units) (entry : Json) : Type 0 where
  pub own_path : Units
  pub named : entry_of entry ≡ some (own_path, h)
  pub joined : archive_path category own_path ≡ path

abbrev pub AnyItem : (Json → Type 0) → Items → Type 0
AnyItem P no_items = ⊥
AnyItem P (item v vs) = P v ⊎ AnyItem P vs

-- What an insertion adds.
abbrev Adds : AssetMap → Units → Units → AssetMap → Type 0
Adds map p h map' =
    (q k : Units) → (asset_get q map' ≡ some k) ↔ ((asset_get q map ≡ some k) ⊎ ((p ≡ q) × (h ≡ k)))

some-eq : {a b : Units} → ◌≡◌ {A = Option Units} (some a) (some b) → a ≡ b
some-eq e = cc

err-ok : {e : CanonError} {m : AssetMap} → ◌≢◌ {A = Result CanonError AssetMap} (err e) (ok m)
err-ok h = cc

insert_new : (map : AssetMap) (p h : Units) → asset_get p map ≡ none → Adds map p h ((p, h) ∷ map)
unfolding asset_get
insert_new map p h absent q k = elim (Bool-cases (same_units p q)) [
  | inl t ↦
      let same = (same_units_iff p q).0 t in
      let none_there : asset_get q map ≡ none = subst (λ x. asset_get x map ≡ none) same absent in
      (λ e. inr (same, some-eq (rw t at e)), elim [ inl e ↦ cc | inr (_, e) ↦ rw t (ap some e) ])
  | inr f ↦ (
    λ e. inl (rw f at e),
    elim [ inl e ↦ rw f e | inr (same, _) ↦ absurd (cc (f, (same_units_iff p q).1 same)) ],
  )
]

insert_again :
    (map : AssetMap) (p h existing : Units)
    → asset_get p map ≡ some existing
    → existing ≡ h
    → Adds map p h map
insert_again map p h existing found same q k = (
  inl,
  elim [
    | inl e ↦ e
    | inr (pq, hk) ↦ subst (λ x. asset_get x map ≡ some k) pq (found ∙ ap some (same ∙ hk))
  ],
)

insert_asset-Adds :
    (map : AssetMap) (p h : Units) (map' : AssetMap)
    → insert_asset map p h ≡ ok map'
    → Adds map p h map'
insert_asset-Adds map p h map' e = elim (Option-cases (asset_get p map)) [
  | inl absent ↦
      let made : (p, h) ∷ map ≡ map' = cc (rw (insert_asset, absent) at e) in
      subst (Adds map p h) made (insert_new map p h absent)
  | inr (existing, found) ↦ elim (Bool-cases (same_units existing h)) [
    | inl t ↦
        let made : map ≡ map' = cc (rw (insert_asset, found, t) at e) in
        subst (Adds map p h) made
          (insert_again map p h existing found ((same_units_iff existing h).0 t))
    | inr f ↦ absurd (err-ok (rw (insert_asset, found, f) at e))
  ]
]

none-some : {p : Units × Units} → ◌≢◌ {A = Option (Units × Units)} none (some p)
none-some h = cc

pair-eq :
    {a b c d : Units}
    → ◌≡◌ {A = Option (Units × Units)} (some (a, b)) (some (c, d))
    → (a ≡ c) × (b ≡ d)
pair-eq e = (cc e, cc e)

nothing-there : (path h : Units) → asset_get path [] ≢ some h
unfolding asset_get
nothing-there path h e = cc

module _ (category : Units) where
  register_entry-adds :
      (map map' : AssetMap) (entry : Json)
      → register_entry category map entry ≡ ok map'
      → (q k : Units)
      → (asset_get q map' ≡ some k) ↔ ((asset_get q map ≡ some k) ⊎ Registers category q k entry)
  unfolding register_entry
  register_entry-adds map map' entry e q k = elim (Option-cases (entry_of entry)) [
    | inl absent ↦
        let same : map ≡ map' = cc (rw (register_entry, absent) at e) in
        let nothing : Registers category q k entry → ⊥ = λ r. none-some (sym absent ∙ r.named) in
        subst
          (λ m.
            (asset_get q m ≡ some k) ↔ ((asset_get q map ≡ some k) ⊎ Registers category q k entry))
          same (inl, elim [ inl g ↦ g | inr r ↦ absurd (nothing r) ])
    | inr ((p, h), found) ↦
        let (valid, inserted) =
          unless-eq-ok (not (is_valid_content_hash (some h))) malformed_asset_hash
            (insert_asset map (archive_path category p) h) (rw (register_entry, found) at e) in
        let adds = insert_asset-Adds map (archive_path category p) h map' inserted q k in
        (
          λ g. elim (adds.0 g) [
            | inl old ↦ inl old
            | inr (path, hash) ↦
                inr (record {
                  own_path = p;
                  named = found ∙ ap (λ x. some (p, x)) hash;
                  joined = path;
                })
          ],
          elim [
            | inl old ↦ adds.1 (inl old)
            | inr r ↦
                let pair = pair-eq (sym found ∙ r.named) in
                adds.1 (inr (ap (archive_path category) pair.0 ∙ r.joined, pair.1))
          ],
        )
  ]

  register_entries-adds :
      (map map' : AssetMap) (entries : Items)
      → register_entries category map entries ≡ ok map'
      → (q k : Units)
      → (asset_get q map' ≡ some k)
        ↔ ((asset_get q map ≡ some k) ⊎ AnyItem (Registers category q k) entries)
  unfolding register_entries
  register_entries-adds map map' no_items e q k =
      let same : map ≡ map' = cc e in
      subst (λ m. (asset_get q m ≡ some k) ↔ ((asset_get q map ≡ some k) ⊎ ⊥)) same
        (inl, elim [ inl g ↦ g | inr z ↦ absurd z ])
  register_entries-adds map map' (item entry entries) e q k =
      let (middle, one, rest) = >>=-eq-ok (register_entry category map entry) _ e in
      let first = register_entry-adds map middle entry one q k in
      let more = register_entries-adds middle map' entries rest q k in
      (
        λ g. elim (more.0 g) [
          | inl m ↦ elim (first.0 m) [ inl old ↦ inl old | inr r ↦ inr (inl r) ]
          | inr r ↦ inr (inr r)
        ],
        elim [
          | inl old ↦ more.1 (inl (first.1 (inl old)))
          | inr (inl r) ↦ more.1 (inl (first.1 (inr r)))
          | inr (inr r) ↦ more.1 (inr r)
        ],
      )

module _ (runtime : JsonRuntime) (indexes : Units → Option Units) where
  -- An index of a category, as it is read, has such an entry.
  pub record IndexRegisters (category path h : Units) : Type 0 where
    pub index : Json
    pub opened : read_index runtime indexes (indexes category) ≡ ok index
    pub listed : AnyItem (Registers category path h) (entries_of index)

  abbrev pub AnyCategory : Members → Units → Units → Type 0
  AnyCategory no_members path h = ⊥
  AnyCategory (member category _ rest) path h =
      IndexRegisters category path h ⊎ AnyCategory rest path h

  same_index :
      {category path h : Units} {index : Json}
      → read_index runtime indexes (indexes category) ≡ ok index
      → IndexRegisters category path h
      → AnyItem (Registers category path h) (entries_of index)
  same_index {category} {path} {h} opened r =
      let e : r.index ≡ _ = cc (r.opened, opened) in
      subst (λ i. AnyItem (Registers category path h) (entries_of i)) e r.listed

  register_categories-adds :
      (map map' : AssetMap) (assets : Members)
      → register_categories runtime indexes map assets ≡ ok map'
      → (q k : Units)
      → (asset_get q map' ≡ some k) ↔ ((asset_get q map ≡ some k) ⊎ AnyCategory assets q k)
  unfolding register_categories
  register_categories-adds map map' no_members e q k =
      let same : map ≡ map' = cc e in
      subst (λ m. (asset_get q m ≡ some k) ↔ ((asset_get q map ≡ some k) ⊎ ⊥)) same
        (inl, elim [ inl g ↦ g | inr z ↦ absurd z ])
  register_categories-adds map map' (member category v rest) e q k =
      let (valid, e₁) = unless-eq-ok (not (is_valid_path_segment category)) bad_category _ e in
      let (index, opened, e₂) = >>=-eq-ok (read_index runtime indexes (indexes category)) _ e₁ in
      let (middle, one, e₃) = >>=-eq-ok (register_entries category map (entries_of index)) _ e₂ in
      let first = register_entries-adds category map middle (entries_of index) one q k in
      let more = register_categories-adds middle map' rest e₃ q k in
      (
        λ g. elim (more.0 g) [
          | inl m ↦ elim (first.0 m) [
            | inl old ↦ inl old
            | inr r ↦ inr (inl (record { index = index; opened = opened; listed = r }))
          ]
          | inr r ↦ inr (inr r)
        ],
        elim [
          | inl old ↦ more.1 (inl (first.1 (inl old)))
          | inr (inl r) ↦ more.1 (inl (first.1 (inr (same_index opened r))))
          | inr (inr r) ↦ more.1 (inr r)
        ],
      )

  -- If the map is built, it gives a path a hash exactly if the index of some category of the
  -- manifest registers that hash for it.
  pub build_asset_map_iff :
      (manifest : Json) (map : AssetMap) (path h : Units)
      → build_asset_map runtime indexes manifest ≡ ok map
      → (asset_get path map ≡ some h) ↔ AnyCategory (assets_of manifest) path h
  unfolding build_asset_map
  build_asset_map_iff manifest map path h e =
      let adds = register_categories-adds [] map (assets_of manifest) e path h in
      (
        λ g. elim (adds.0 g) [ inl z ↦ absurd (nothing-there path h z) | inr r ↦ r ],
        λ r. adds.1 (inr r),
      )
