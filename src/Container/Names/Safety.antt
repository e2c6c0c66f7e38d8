-- ===== src/Container/Names/Safety.antt =====
-- Which names `checkNameSafety` of zip-reader.ts accepts.
use cdx_file_format_spec.Prelude.{
  same_units_iff, same_units-false_iff, ℕ, ◌≡◌, ◌≢◌, refl, ap, ◌↔◌, ◌⊎◌, inl, inr, Bool, true,
  false, ◌||◌, List, [], ◌∷◌, ◌++◌, All, ◌==◌, ==_iff, if◌then◌else◌, arith, Bool-cases,
}
use cdx_file_format_spec.Merkle.ContentHash.{Units, Bytes, codes}
use cdx_file_format_spec.Merkle.Block.{same_units, includes}
use cdx_file_format_spec.Container.Platform.{Platform}
use cdx_file_format_spec.Container.Names.{
  unsafe_name, when, windows_device_names, has_unit, starts_with, ends_with, split, first_part,
  check_segment, check_segments, check_name_safety,
}
use cdx_file_format_spec.Container.Names.Silence.{
  append-nil_left, append-nil_right, append-nil_both, when-nil, when-false,
}

has_unit-false_iff : (c : ℕ) (s : Units) → (has_unit c s ≡ false) ↔ All (λ x. x ≢ c) s
unfolding has_unit
has_unit-false_iff c [] = (λ _. tt, λ _. refl)
has_unit-false_iff c (x ∷ xs) = ground (arith, has_unit-false_iff c xs)

starts_with-false_iff :
    (c : ℕ) (s : Units) → (starts_with c s ≡ false) ↔ ((rest : Units) → s ≢ c ∷ rest)
starts_with-false_iff c [] = (λ _ rest e. cc, λ _. refl)
starts_with-false_iff c (x ∷ xs) = (
  λ h rest e. cc (h, (==_iff x c).1 (cc e)),
  λ h. elim (Bool-cases (x == c)) [
    | inl e ↦ absurd (h xs (ap (λ y. y ∷ xs) ((==_iff x c).0 e)))
    | inr e ↦ e
  ],
)

includes-false_iff : (ns : List Units) (a : Units) → (includes ns a ≡ false) ↔ All (λ n. n ≢ a) ns
includes-false_iff [] a = (λ _. tt, λ _. refl)
includes-false_iff (n ∷ ns) a = ground (arith, same_units_iff n a, includes-false_iff ns a)

segment-nil_iff :
    (up dot d s v : Bool)
    → ((if up
          then unsafe_name ∷ []
          else if dot
          then []
          else when (d || s) unsafe_name ++ when v unsafe_name)
        ≡ [])
      ↔ ((up ≡ false) × ((dot ≡ true) ⊎ ((d ≡ false) × (s ≡ false) × (v ≡ false))))
segment-nil_iff up dot d s v = ground arith

one-nil : (unsafe_name ∷ []) ≢ []
one-nil h = cc

module _ (node : Platform) where
  -- A segment that is not `..`, and that is `.` or ends with no dot and no space, and is no name of a
  -- device before its first dot, in lower case.
  abbrev pub IsSafeSegment : Units → Type 0
  IsSafeSegment seg =
      (seg ≢ codes "..")
      × ((seg ≡ codes ".")
          ⊎ ((ends_with b'.' seg ≡ false)
              × (ends_with b' ' seg ≡ false)
              × (includes windows_device_names (node.lower_case (first_part (split b'.' seg)))
                  ≡ false)))

  check_segment-nil_iff : (seg : Units) → (check_segment node seg ≡ []) ↔ IsSafeSegment seg
  unfolding check_segment
  check_segment-nil_iff seg =
      let tests =
        segment-nil_iff (same_units seg (codes "..")) (same_units seg (codes "."))
          (ends_with b'.' seg) (ends_with b' ' seg)
          (includes windows_device_names (node.lower_case (first_part (split b'.' seg)))) in
      (
        λ h.
            let (up, rest) = tests.0 h in
            (
              (same_units-false_iff seg (codes "..")).0 up,
              elim rest [
                | inl dot ↦ inl ((same_units_iff seg (codes ".")).0 dot)
                | inr three ↦ inr three
              ],
            ),
        λ (up, rest). tests.1 (
          (same_units-false_iff seg (codes "..")).1 up,
          elim rest [
            | inl dot ↦ inl ((same_units_iff seg (codes ".")).1 dot)
            | inr three ↦ inr three
          ],
        ),
      )

  check_segments-nil_iff : (ss : List Units) → (check_segments node ss ≡ []) ↔ All IsSafeSegment ss
  unfolding check_segments
  check_segments-nil_iff [] = (λ _. tt, λ _. refl)
  check_segments-nil_iff (s ∷ ss) = (
    λ h. (
      (check_segment-nil_iff s).0 (append-nil_left _ _ h),
      (check_segments-nil_iff ss).0 (append-nil_right (check_segment node s) _ h),
    ),
    λ (first, rest).
        append-nil_both _ _ ((check_segment-nil_iff s).1 first)
          ((check_segments-nil_iff ss).1 rest),
  )

  -- A name that the reader accepts.
  pub record IsSafeName (raw : Bytes) : Type 0 where
    pub round_trip : node.encode_utf8 (node.decode_utf8 raw) ≡ raw
    pub no_backslash : All (λ c. c ≢ b'\\') (node.decode_utf8 raw)
    pub relative : (rest : Units) → node.decode_utf8 raw ≢ b'/' ∷ rest
    pub no_colon : All (λ c. c ≢ b':') (node.decode_utf8 raw)
    pub segments : All IsSafeSegment (split b'/' (node.decode_utf8 raw))

  name-IsSafeName :
      (raw : Bytes)
      → node.encode_utf8 (node.decode_utf8 raw) ≡ raw
      → (let name = node.decode_utf8 raw in
          when (has_unit b'\\' name) unsafe_name
          ++ (when (starts_with b'/' name) unsafe_name
              ++ (when (has_unit b':' name) unsafe_name ++ check_segments node (split b'/' name))))
        ≡ []
      → IsSafeName raw
  name-IsSafeName raw round h =
      let name = node.decode_utf8 raw in
      let h₁ = append-nil_right (when (has_unit b'\\' name) unsafe_name) _ h in
      let h₂ = append-nil_right (when (starts_with b'/' name) unsafe_name) _ h₁ in
      record {
        round_trip = round;
        no_backslash =
            (has_unit-false_iff b'\\' name).0 (when-nil _ unsafe_name (append-nil_left _ _ h));
        relative =
            (starts_with-false_iff b'/' name).0 (when-nil _ unsafe_name (append-nil_left _ _ h₁));
        no_colon =
            (has_unit-false_iff b':' name).0 (when-nil _ unsafe_name (append-nil_left _ _ h₂));
        segments =
            (check_segments-nil_iff _).0
              (append-nil_right (when (has_unit b':' name) unsafe_name) _ h₂);
      }

  safe-nil : (raw : Bytes) → IsSafeName raw → check_name_safety node raw ≡ []
  unfolding check_name_safety
  safe-nil raw s = rw ((same_units_iff _ raw).1 s.round_trip) (
      append-nil_both _ _ (when-false _ unsafe_name ((has_unit-false_iff _ _).1 s.no_backslash)) (
        append-nil_both _ _ (when-false _ unsafe_name ((starts_with-false_iff _ _).1 s.relative)) (
          append-nil_both _ _ (when-false _ unsafe_name ((has_unit-false_iff _ _).1 s.no_colon))
            ((check_segments-nil_iff _).1 s.segments))))

  -- A name is reported for nothing exactly if its bytes are well-formed UTF-8, it has no backslash
  -- and no colon, it does not start with a slash, and between its slashes there is no `..`, no
  -- segment but `.` that ends with a dot or a space, and no name of a Windows device.
  pub check_name_safety-nil_iff : (raw : Bytes) → (check_name_safety node raw ≡ []) ↔ IsSafeName raw
  unfolding check_name_safety
  check_name_safety-nil_iff raw = (
    λ h. elim (Bool-cases (same_units (node.encode_utf8 (node.decode_utf8 raw)) raw)) [
      | inl e ↦ name-IsSafeName raw ((same_units_iff _ raw).0 e) (rw e at h)
      | inr e ↦ absurd (one-nil (rw e at h))
    ],
    safe-nil raw,
  )
