-- ===== src/Container/Reader/Clean.antt =====
-- What it means that `readArchive` of zip-reader.ts found nothing.
use cdx_file_format_spec.Prelude.{
  ℕ, ◌≤◌, ◌≡◌, refl, sym, ap, subst, ◌∙◌, true, List, [], ◌∷◌, map, ltb, All, Option, none, some,
  ok, >>=-eq-ok, arith, Option-cases, inl, inr,
}
use cdx_file_format_spec.Merkle.ContentHash.{Bytes}
use cdx_file_format_spec.Container.Bytes.{ℤ, crc32}
use cdx_file_format_spec.Container.Platform.{Platform}
use cdx_file_format_spec.Container.Names.{when, unreadable, decompression_bomb, detect_duplicates}
use cdx_file_format_spec.Container.Names.Distinct.{IsDistinct, detect_duplicates-IsDistinct}
use cdx_file_format_spec.Container.Names.Silence.{append-nil_left, append-nil_right, when-nil}
use cdx_file_format_spec.Container.Directory.{CdEntry, Eocd, locate_eocd, parse_central_directory}
use cdx_file_format_spec.Container.Inflate.{crc_matches, compare_crc, ReaderBounds, content}
use cdx_file_format_spec.Container.CrossCheck.{
  check_local_headers, cross_check_local_headers, check_first_file,
}
use cdx_file_format_spec.Container.Reader.{
  ArchiveResult, total_size, all_bombs, to_entry, all_entry_codes, directory_codes, volume_codes,
  cd_start_of, stub_delta_of, with_directory, read_archive,
}
use cdx_file_format_spec.Container.Reader.Intact.{IsIntact, one-ne-nil, All-IsIntact}

-- What an empty list of findings says of the whole archive.
pub record IsCleanArchive (node : Platform) (bytes : Bytes) (bounds : ReaderBounds)
    (r : ArchiveResult) : Type 0 where
  pub eocd : Eocd
  pub located : locate_eocd bytes ≡ ok (some eocd)
  pub central : List CdEntry
  pub parsed :
      parse_central_directory node bytes (cd_start_of eocd) eocd.cd_count ≡ ok (some central)
  pub entries : r.entries ≡ map (to_entry (stub_delta_of eocd)) central
  pub distinct : IsDistinct (map (λ c. c.name) central)
  pub distinct_in_lower_case : IsDistinct (map node.lower_case (map (λ c. c.name) central))
  pub total : total_size central ≤ bounds.max_total_size
  pub intact : All (IsIntact node bytes bounds (stub_delta_of eocd)) central

module _ (node : Platform) (bytes : Bytes) (bounds : ReaderBounds) where
  directory-clean :
      (central : List CdEntry) (delta cd_start : ℤ)
      → directory_codes node bytes bounds central delta cd_start ≡ []
      → (IsDistinct (map (λ c. c.name) central)
          × IsDistinct (map node.lower_case (map (λ c. c.name) central)))
        × (total_size central ≤ bounds.max_total_size)
        × All (IsIntact node bytes bounds delta) central
  unfolding directory_codes cross_check_local_headers
  directory-clean central delta cd_start h =
      let h₁ = append-nil_right (detect_duplicates node (map (λ c. c.name) central)) _ h in
      let h₂ = append-nil_right (all_entry_codes node central) _ h₁ in
      let local = append-nil_left (cross_check_local_headers bytes central delta cd_start) _ h₂ in
      let h₃ = append-nil_right (cross_check_local_headers bytes central delta cd_start) _ h₂ in
      let h₄ = append-nil_right (check_first_file node bytes) _ h₃ in
      let h₅ = append-nil_right (all_bombs bounds central) _ h₄ in
      let sum =
        when-nil (ltb bounds.max_total_size (total_size central)) decompression_bomb
          (append-nil_left _ _ h₅) in
      let h₆ =
        append-nil_right (when (ltb bounds.max_total_size (total_size central)) decompression_bomb)
          _ h₅ in
      (
        detect_duplicates-IsDistinct node (map (λ c. c.name) central) (append-nil_left _ _ h),
        ground arith,
        All-IsIntact node bytes bounds delta central (append-nil_left _ _ h₁)
            (append-nil_left (check_local_headers bytes delta central) _ local)
            (append-nil_left _ _ h₄) h₆,
      )

  with_directory-clean :
      (e : Eocd) (central : Option (List CdEntry))
      → locate_eocd bytes ≡ ok (some e)
      → parse_central_directory node bytes (cd_start_of e) e.cd_count ≡ ok central
      → (with_directory node bytes bounds e central).findings ≡ []
      → IsCleanArchive node bytes bounds (with_directory node bytes bounds e central)
  with_directory-clean e none at parsed h =
      absurd (one-ne-nil (append-nil_right (volume_codes e) (unreadable ∷ []) h))
  with_directory-clean e (some central) at parsed h =
      let (distinct, total, intact) =
        directory-clean central (stub_delta_of e) (cd_start_of e)
          (append-nil_right (volume_codes e) _ h) in
      record {
        eocd = e;
        located = at;
        central = central;
        parsed = parsed;
        entries = refl;
        distinct = distinct.0;
        distinct_in_lower_case = distinct.1;
        total = total;
        intact = intact;
      }

  -- A clean report can be trusted: if the reader returns no finding, it found the central directory,
  -- its entries are those of that directory, their paths are distinct, in lower case too, their
  -- declared sizes are in bounds one by one and together, and each one is not encrypted and no
  -- symbolic link of a Unix host, has a safe name, a method that is 0, 8 or 93 and a local header of
  -- its name, and its bytes decode to content with its CRC-32.
  pub read_archive-clean :
      (r : ArchiveResult)
      → read_archive node bytes bounds ≡ ok r
      → r.findings ≡ []
      → IsCleanArchive node bytes bounds r
  unfolding read_archive
  read_archive-clean r h silent =
      let (found, located, h₁) = >>=-eq-ok (locate_eocd bytes) _ h in
      elim (Option-cases found) [
        | inl e ↦
            let empty : ArchiveResult = record { entries = []; findings = unreadable ∷ [] } in
            let same : empty ≡ r = cc (rw e at h₁) in
            absurd (one-ne-nil (ap (λ (x : ArchiveResult). x.findings) same ∙ silent))
        | inr (e, is_found) ↦
            let (central, parsed, made) =
              >>=-eq-ok (parse_central_directory node bytes (cd_start_of e) e.cd_count) _
                (rw is_found at h₁) in
            let same : with_directory node bytes bounds e central ≡ r = cc made in
            subst (IsCleanArchive node bytes bounds) same (
              with_directory-clean e central (located ∙ ap ok is_found) parsed
                (ap (λ (x : ArchiveResult). x.findings) same ∙ silent))
      ]

  equal-compare :
      (out : Bytes) (crc : ℕ) → crc32 out ≡ crc → compare_crc crc (content out) ≡ ok true
  equal-compare out crc h = ground arith

  entry-crc_matches :
      (delta : ℤ) (c : CdEntry)
      → IsIntact node bytes bounds delta c
      → crc_matches node bytes (to_entry delta c) bounds ≡ ok true
  unfolding crc_matches
  entry-crc_matches delta c h =
      let (out, e, sum) = h.checked in ap (compare_crc c.crc) e ∙ equal-compare out c.crc sum

  All-crc_matches :
      (delta : ℤ) (cs : List CdEntry)
      → All (IsIntact node bytes bounds delta) cs
      → All (λ e. crc_matches node bytes e bounds ≡ ok true) (map (to_entry delta) cs)
  All-crc_matches delta [] h = tt
  All-crc_matches delta (c ∷ cs) (h, hs) =
      (entry-crc_matches delta c h, All-crc_matches delta cs hs)

  -- The callers that read on need no second look: in an archive about which the reader returns no
  -- finding, `crcMatches` returns true for every entry that the reader returns.
  pub clean-crc_matches :
      (r : ArchiveResult)
      → read_archive node bytes bounds ≡ ok r
      → r.findings ≡ []
      → All (λ e. crc_matches node bytes e bounds ≡ ok true) r.entries
  clean-crc_matches r h silent =
      let clean = read_archive-clean r h silent in
      subst (All (λ e. crc_matches node bytes e bounds ≡ ok true)) (sym clean.entries)
        (All-crc_matches (stub_delta_of clean.eocd) clean.central clean.intact)
