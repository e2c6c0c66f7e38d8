-- ===== src/Container/Reader/Throws.antt =====
-- When `readArchive` of zip-reader.ts throws: every read is in range but the first of the central
-- directory.
use cdx_file_format_spec.Prelude.{
  ℕ, zero, suc, ◌+◌, ◌-◌, ◌≤◌, ◌<◌, ◌≡◌, ◌≢◌, refl, ◌↔◌, ap, sym, ◌∙◌, Bool, true, false, [],
  length, ltb, leb, ◌==◌, not, ◌||◌, if◌then◌else◌, Option, none, some, Result, ok, err, ◌>>=◌,
  arith, if_rule, Bool-cases, Option-cases, inl, inr,
}
use cdx_file_format_spec.Merkle.ContentHash.{Bytes}
use cdx_file_format_spec.Container.Bytes.{
  pos, negsuc, past_end, sub_ℕ, RangeError, out_of_range, read_u16, read_u32, read_u64,
}
use cdx_file_format_spec.Container.Platform.{Platform}
use cdx_file_format_spec.Container.Directory.{
  Eocd, sig_eocd, sig_eocd64, sig_eocd64_locator, sig_cd, locate_eocd, scan_eocd, eocd_at,
  locate_zip64, parse_central_directory, read_records, read_record,
}
use cdx_file_format_spec.Container.Inflate.{ReaderBounds}
use cdx_file_format_spec.Container.Reader.{read_archive}

-- The computation returns.
abbrev pub Returns : {A : Type 0} → Result RangeError A → Type 0
Returns {A} r = (a : A) × (r ≡ ok a)

ok-Returns : {A : Type 0} (a : A) → Returns (ok a)
ok-Returns a = (a, refl)

bind-Returns :
    {A B : Type 0} (r : Result RangeError A) (f : A → Result RangeError B)
    → Returns r
    → ((a : A) → Returns (f a))
    → Returns (r >>= f)
bind-Returns {A = A} r f (a, h) g =
    let (b, e) = g a in (b, ap (λ (x : Result RangeError A). x >>= f) h ∙ e)

if-Returns :
    {A : Type 0} (b : Bool) (x y : Result RangeError A)
    → (b ≡ true → Returns x)
    → (b ≡ false → Returns y)
    → Returns (if b then x else y)
if-Returns b x y f g = if_rule Returns b x y f g

guard-Returns : (b : Bool) (v : ℕ) → b ≡ true → Returns (if b then ok v else err out_of_range)
guard-Returns true v h = (v, refl)
guard-Returns false v h = cc

module _ (bytes : Bytes) where
  read_u16-Returns : (i : ℕ) → i + 2 ≤ length bytes → Returns (read_u16 bytes i)
  unfolding read_u16
  read_u16-Returns i h = guard-Returns (leb (i + 2) (length bytes)) _ (ground arith)

  read_u32-Returns : (i : ℕ) → i + 4 ≤ length bytes → Returns (read_u32 bytes i)
  unfolding read_u32
  read_u32-Returns i h = guard-Returns (leb (i + 4) (length bytes)) _ (ground arith)

  read_u64-Returns : (i : ℕ) → i + 8 ≤ length bytes → Returns (read_u64 bytes i)
  unfolding read_u64
  read_u64-Returns i h = guard-Returns (leb (i + 8) (length bytes)) _ (ground arith)

  locate_zip64-Returns : (i : ℕ) → i + 22 ≤ length bytes → Returns (locate_zip64 bytes i)
  unfolding locate_zip64
  locate_zip64-Returns i h =
      if-Returns (ltb i 20) _ _ (λ _. ok-Returns _)
        (λ late. bind-Returns _ _ (read_u32-Returns (i - 20) (ground arith)) (λ locator.
          if-Returns (not (locator == sig_eocd64_locator) || ltb (i - 20) 56) _ _
            (λ _. ok-Returns _)
            (λ deep. bind-Returns _ _ (read_u32-Returns (i - 76) (ground arith)) (λ signature.
              if-Returns (not (signature == sig_eocd64)) _ _ (λ _. ok-Returns _)
                (λ _. bind-Returns _ _ (read_u64-Returns (i - 76 + 32) (ground arith)) (λ count.
                  bind-Returns _ _ (read_u64-Returns (i - 76 + 40) (ground arith)) (λ size.
                    bind-Returns _ _ (read_u64-Returns (i - 76 + 48) (ground arith))
                      (λ offset. ok-Returns _))))))))

  eocd_at-Returns : (i : ℕ) → i + 22 ≤ length bytes → Returns (eocd_at bytes i)
  unfolding eocd_at
  eocd_at-Returns i h = bind-Returns _ _ (read_u32-Returns i (omega (arith, h))) (λ signature.
      if-Returns (not (signature == sig_eocd)) _ _ (λ _. ok-Returns _)
        (λ _. bind-Returns _ _ (read_u16-Returns (i + 20) (omega (arith, h))) (λ comment.
          if-Returns (not (i + 22 + comment == length bytes)) _ _ (λ _. ok-Returns _)
            (λ _. bind-Returns _ _ (read_u32-Returns (i + 16) (omega (arith, h))) (λ offset.
              bind-Returns _ _ (read_u32-Returns (i + 12) (omega (arith, h))) (λ size.
                bind-Returns _ _ (read_u16-Returns (i + 10) (omega (arith, h))) (λ count.
                  bind-Returns _ _ (read_u16-Returns (i + 4) (omega (arith, h))) (λ disk.
                    bind-Returns _ _ (read_u16-Returns (i + 6) (omega (arith, h))) (λ disk_cd.
                      bind-Returns _ _ (locate_zip64-Returns i h) (λ z64. ok-Returns _))))))))))

  else_rest-Returns :
      (found : Option Eocd) (rest : Result RangeError (Option Eocd))
      → Returns rest
      → Returns (elim found [ none ↦ rest | some e ↦ ok (some e) ])
  else_rest-Returns none rest h = h
  else_rest-Returns (some e) rest h = (some e, refl)

  scan_eocd-Returns : (min_pos i : ℕ) → i + 22 ≤ length bytes → Returns (scan_eocd bytes min_pos i)
  unfolding scan_eocd
  scan_eocd-Returns min_pos zero h =
      if-Returns (ltb 0 min_pos) _ _ (λ _. ok-Returns _) (λ _. eocd_at-Returns 0 h)
  scan_eocd-Returns min_pos (suc i) h =
      if-Returns (ltb (suc i) min_pos) _ _ (λ _. ok-Returns _)
        (λ _.
          bind-Returns _ _ (eocd_at-Returns (suc i) h)
            (λ found. else_rest-Returns found _ (scan_eocd-Returns min_pos i (omega (arith, h)))))

  locate_eocd-Returns : Returns (locate_eocd bytes)
  unfolding locate_eocd
  locate_eocd-Returns =
      if-Returns (ltb (length bytes) 22) _ _ (λ _. ok-Returns _)
        (λ long. scan_eocd-Returns _ (length bytes - 22) (ground arith))

module _ (node : Platform) (bytes : Bytes) where
  read_record-Returns : (p : ℕ) → p + 46 ≤ length bytes → Returns (read_record node bytes p)
  unfolding read_record
  read_record-Returns p h =
      bind-Returns _ _ (read_u16-Returns bytes (p + 4) (omega (arith, h))) (λ version.
        bind-Returns _ _ (read_u16-Returns bytes (p + 8) (omega (arith, h))) (λ flags.
          bind-Returns _ _ (read_u16-Returns bytes (p + 10) (omega (arith, h))) (λ method.
            bind-Returns _ _ (read_u32-Returns bytes (p + 16) (omega (arith, h))) (λ crc.
              bind-Returns _ _ (read_u32-Returns bytes (p + 20) (omega (arith, h))) (λ small.
                bind-Returns _ _ (read_u32-Returns bytes (p + 24) (omega (arith, h))) (λ large.
                  bind-Returns _ _ (read_u16-Returns bytes (p + 28) (omega (arith, h))) (λ name.
                    bind-Returns _ _ (read_u16-Returns bytes (p + 30) (omega (arith, h))) (λ extra.
                      bind-Returns _ _ (read_u16-Returns bytes (p + 32) (omega (arith, h)))
                        (λ comment.
                          bind-Returns _ _ (read_u32-Returns bytes (p + 38) (omega (arith, h)))
                            (λ attrs.
                              bind-Returns _ _ (read_u32-Returns bytes (p + 42) (omega (arith, h)))
                                (λ local. ok-Returns _)))))))))))

  read_records-Returns : (count p : ℕ) → Returns (read_records node bytes count p)
  unfolding read_records
  read_records-Returns zero p = ok-Returns (some [])
  read_records-Returns (suc count) p =
      if-Returns (ltb (length bytes) (p + 46)) _ _ (λ _. ok-Returns _)
        (λ room. bind-Returns _ _ (read_u32-Returns bytes p (ground arith)) (λ signature.
          if-Returns (not (signature == sig_cd)) _ _ (λ _. ok-Returns _)
            (λ _. bind-Returns _ _ (read_record-Returns p (ground arith)) (λ found.
              bind-Returns _ _ (read_records-Returns count found.1) (λ rest. ok-Returns _)))))

  -- From a start that is not negative, or with no record to read, nothing is out of range.
  parse-Returns : (p count : ℕ) → Returns (parse_central_directory node bytes (pos p) count)
  unfolding parse_central_directory
  parse-Returns p zero = ok-Returns (some [])
  parse-Returns p (suc count) =
      if-Returns (past_end (pos p) 46 bytes) _ _ (λ _. ok-Returns _)
        (λ _. read_records-Returns (suc count) p)

  not-Returns : {A : Type 0} (r : Result RangeError A) → Returns r → r ≢ err out_of_range
  not-Returns r (a, h) e = cc

  -- What a negative start makes of the first read.
  parse_negative :
      (n count : ℕ)
      → (parse_central_directory node bytes (negsuc n) count ≡ err out_of_range)
        ↔ ((0 < count) × (46 ≤ length bytes + suc n))
  unfolding parse_central_directory
  parse_negative n zero = ground arith
  parse_negative n (suc count) = ground arith

  parse-sub :
      (a b count : ℕ)
      → (parse_central_directory node bytes (sub_ℕ a b) count ≡ err out_of_range)
        ↔ ((a < b) × (0 < count) × (a + 46 ≤ length bytes + b))
  parse-sub a b count = elim (Bool-cases (leb b a)) [
    | inl e ↦ (
      λ h. absurd (not-Returns _ (parse-Returns (a - b) count) (rw e at h)),
      λ h. absurd (ground arith),
    )
    | inr e ↦ (
      λ h. let both = (parse_negative (b - a - 1) count).0 (rw e at h) in ground arith,
      λ (below, some_record, room).
          rw e ((parse_negative (b - a - 1) count).1 (some_record, ground arith)),
    )
  ]

  -- The reader throws exactly when an end-of-central-directory record is found that counts a record
  -- and declares a directory longer than the bytes before it, and the file is long enough for the
  -- test before the first read.
  abbrev pub IsThrowing : Type 0
  IsThrowing =
      (e : Eocd) × (locate_eocd bytes ≡ ok (some e))
      × (e.at < e.trailer_before + e.cd_size)
      × (0 < e.cd_count)
      × (e.at + 46 ≤ length bytes + (e.trailer_before + e.cd_size))

  bind_ok-throws :
      {A B : Type 0} (r : Result RangeError A) (f : A → B)
      → (r >>= λ a. ok (f a)) ≡ err out_of_range ↔ (r ≡ err out_of_range)
  bind_ok-throws (ok a) f = (λ h. cc, λ h. cc)
  bind_ok-throws (err out_of_range) f = (λ h. refl, λ h. refl)

  none-some : {e : Eocd} → ◌≢◌ {A = Option Eocd} none (some e)
  none-some h = cc

  same-ok : {a b : Option Eocd} → ◌≡◌ {A = Result RangeError (Option Eocd)} (ok a) (ok b) → a ≡ b
  same-ok h = cc

  -- For every platform, file and bounds, the reader throws a RangeError exactly when the file has
  -- an end-of-central-directory record that counts at least one record and declares a directory
  -- longer than the bytes before it (with its ZIP64 records counted), and the offset computed for the
  -- first record, though negative, leaves 46 bytes to the end of the file. In every other case it
  -- returns a list of entries and of findings.
  pub read_archive-throws_iff :
      (bounds : ReaderBounds) → (read_archive node bytes bounds ≡ err out_of_range) ↔ IsThrowing
  unfolding read_archive
  read_archive-throws_iff bounds =
      let (found, located) = locate_eocd-Returns bytes in
      elim (Option-cases found) [
        | inl e ↦ (
          λ h. absurd (not-Returns _ (_, refl) (rw (located, e) at h)),
          λ (at, is_at, _, _, _). absurd (none-some (sym e ∙ same-ok (sym located ∙ is_at))),
        )
        | inr (at, e) ↦ (
          λ h.
              let (below, counted, room) =
                (parse-sub at.at _ at.cd_count).0 ((bind_ok-throws _ _).0 (rw (located, e) at h)) in
              (at, located ∙ ap ok e, below, counted, room),
          λ (other, is_other, below, counted, room). rw is_other (
              (bind_ok-throws _ _).1
                ((parse-sub other.at _ other.cd_count).1 (below, counted, room))),
        )
      ]
