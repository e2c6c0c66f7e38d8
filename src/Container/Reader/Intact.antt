-- ===== src/Container/Reader/Intact.antt =====
-- Entries without a finding of the reader.
use Prim.Native.Nat.{bit_and}
use cdx_file_format_spec.Prelude.{
  ℕ, ◌≤◌, ◌≡◌, refl, ◌≢◌, ◌⊎◌, ap, Bool, true, false, not, ◌&&◌, ◌*◌, ◌/◌, ◌%◌, List, [], ◌∷◌, ltb,
  ◌==◌, All, Option, none, some, arith,
}
use cdx_file_format_spec.Merkle.ContentHash.{Bytes}
use cdx_file_format_spec.Merkle.Block.Levels.{same_units_refl, same_units-eq}
use cdx_file_format_spec.Container.Bytes.{ℤ, pos, ◌+ℤ◌, crc32}
use cdx_file_format_spec.Container.Platform.{Platform, Decoded, decoded, over_limit, undecodable}
use cdx_file_format_spec.Container.Names.{
  Code, when, symlink, encryption_used, compression_method_forbidden, lfh_cd_disagreement,
  decompression_bomb, check_name_safety,
}
use cdx_file_format_spec.Container.Names.Safety.{IsSafeName, check_name_safety-nil_iff}
use cdx_file_format_spec.Container.Names.Silence.{append-nil_left, append-nil_right, when-nil}
use cdx_file_format_spec.Container.Directory.{CdEntry}
use cdx_file_format_spec.Container.Inflate.{
  ReaderBounds, decompress, to_inflated, run_zstd, Inflated, content, failed, method_forbidden,
  method_unsupported, corrupt, bomb, is_permitted, inflate_entry,
}
use cdx_file_format_spec.Container.CrossCheck.{local_name, name_agrees, check_local_headers}
use cdx_file_format_spec.Container.Reader.{
  is_symlink, bomb_codes, all_bombs, to_entry, content_codes, entry_codes, all_entry_codes,
  crc_codes, all_crc_codes,
}

-- An entry about which nothing is reported: its name is safe, its method is Store, Deflate or
-- Zstandard, it is no symbolic link of Unix and not
-- encrypted, its size is in bounds, a local header has its name, and its bytes decode to content with
-- the declared checksum.
pub record IsIntact (node : Platform) (bytes : Bytes) (bounds : ReaderBounds) (delta : ℤ)
    (c : CdEntry) : Type 0 where
  pub safe : IsSafeName node c.raw_name
  pub permitted : (c.method ≡ 0) ⊎ ((c.method ≡ 8) ⊎ (c.method ≡ 93))
  pub no_link :
      c.version_made_by / 256 ≡ 3 → bit_and (c.external_attrs / 65536 % 65536) 0xf000 ≢ 0xa000
  pub plain : (c.flags % 2 == 1) ≡ false
  pub size : c.uncompressed_size ≤ bounds.max_entry_size
  pub header : local_name bytes (pos c.local_offset +ℤ delta) ≡ some c.raw_name
  pub checked :
      (out : Bytes) × (inflate_entry node bytes (to_entry delta c) bounds ≡ content out)
      × (crc32 out ≡ c.crc)

permitted-method : (m : ℕ) → is_permitted m ≡ true → (m ≡ 0) ⊎ ((m ≡ 8) ⊎ (m ≡ 93))
permitted-method m h = ground arith

no_symlink :
    (c : CdEntry)
    → is_symlink c ≡ false
    → c.version_made_by / 256 ≡ 3
    → bit_and (c.external_attrs / 65536 % 65536) 0xf000 ≢ 0xa000
unfolding is_symlink
no_symlink c h host link = ground arith

to_inflated-allowed : (d : Decoded) → to_inflated d ≢ failed method_forbidden
to_inflated-allowed (decoded out) e = cc
to_inflated-allowed over_limit e = cc
to_inflated-allowed undecodable e = cc

run_zstd-allowed :
    (z : Option (Bytes → ℕ → Decoded)) (stored : Bytes) (limit : ℕ)
    → run_zstd z stored limit ≢ failed method_forbidden
run_zstd-allowed none stored limit e = cc
run_zstd-allowed (some z) stored limit e = to_inflated-allowed (z stored limit) e

pub one-ne-nil : {c : Code} {cs : List Code} → ◌≢◌ {A = List Code} (c ∷ cs) []
one-ne-nil h = cc

not-false : (b : Bool) → not b ≡ false → b ≡ true
not-false true h = refl
not-false false h = cc

content_codes-nil :
    (crc : ℕ) (i : Inflated)
    → i ≢ failed method_forbidden
    → content_codes crc i ≡ []
    → (out : Bytes) × (i ≡ content out) × (crc32 out ≡ crc)
content_codes-nil crc (content bytes) n h = (bytes, refl, ground arith)
content_codes-nil crc (failed method_forbidden) n h = absurd (n refl)
content_codes-nil crc (failed method_unsupported) n h = cc
content_codes-nil crc (failed corrupt) n h = cc
content_codes-nil crc (failed bomb) n h = cc

name_agrees-eq :
    (found : Option Bytes) (raw : Bytes) → name_agrees found raw ≡ true → found ≡ some raw
name_agrees-eq none raw h = cc
name_agrees-eq (some f) raw h = ap some (same_units-eq f raw h)

module _ (node : Platform) (bytes : Bytes) (bounds : ReaderBounds) (delta : ℤ) where
  decompress-allowed :
      (m : ℕ) (stored : Bytes) (limit : ℕ)
      → decompress node m stored limit ≢ failed method_forbidden
  unfolding decompress
  decompress-allowed m stored limit e = ground (
    arith,
    to_inflated-allowed (node.inflate_raw stored limit),
    run_zstd-allowed node.zstd_decompress stored limit,
  )

  inflate_permitted :
      (c : CdEntry)
      → is_permitted c.method ≡ true
      → inflate_entry node bytes (to_entry delta c) bounds ≢ failed method_forbidden
  unfolding inflate_entry
  inflate_permitted c h e = ground (arith, decompress-allowed c.method)

  crc_codes-nil :
      (c : CdEntry)
      → is_permitted c.method ≡ true
      → bomb_codes bounds c ≡ []
      → local_name bytes (pos c.local_offset +ℤ delta) ≡ some c.raw_name
      → crc_codes node bytes bounds delta c ≡ []
      → (out : Bytes) × (inflate_entry node bytes (to_entry delta c) bounds ≡ content out)
        × (crc32 out ≡ c.crc)
  unfolding crc_codes
  crc_codes-nil c permitted no_bomb header h =
      content_codes-nil c.crc (inflate_entry node bytes (to_entry delta c) bounds)
        (inflate_permitted c permitted) (rw (no_bomb, header, same_units_refl c.raw_name) at h)

  bomb_codes-size :
      (c : CdEntry) → bomb_codes bounds c ≡ [] → c.uncompressed_size ≤ bounds.max_entry_size
  unfolding bomb_codes
  bomb_codes-size c h =
      let late = when-nil (ltb bounds.max_entry_size c.uncompressed_size) decompression_bomb (
        append-nil_right
          (when
            (ltb bounds.ratio_floor c.uncompressed_size
              && (ltb 0 c.compressed_size
                  && ltb (bounds.max_ratio * c.compressed_size) c.uncompressed_size))
            decompression_bomb)
          _ h) in
      ground arith

  -- One entry, from the silence of the four sweeps.
  entry-IsIntact :
      (c : CdEntry)
      → entry_codes node c ≡ []
      → when
          (not (name_agrees (local_name bytes (pos c.local_offset +ℤ delta)) c.raw_name))
          lfh_cd_disagreement
        ≡ []
      → bomb_codes bounds c ≡ []
      → crc_codes node bytes bounds delta c ≡ []
      → IsIntact node bytes bounds delta c
  unfolding entry_codes bomb_codes
  entry-IsIntact c h₁ h₂ h₃ h₄ =
      let named = append-nil_left (check_name_safety node c.raw_name) _ h₁ in
      let rest = append-nil_right (check_name_safety node c.raw_name) _ h₁ in
      let link = append-nil_left (when (is_symlink c) symlink) _ rest in
      let rest' = append-nil_right (when (is_symlink c) symlink) _ rest in
      let crypt = append-nil_left (when (c.flags % 2 == 1) encryption_used) _ rest' in
      let method = append-nil_right (when (c.flags % 2 == 1) encryption_used) _ rest' in
      let permitted : is_permitted c.method ≡ true =
        not-false (is_permitted c.method) (when-nil _ compression_method_forbidden method) in
      let agrees = not-false _ (when-nil _ lfh_cd_disagreement h₂) in
      let header = name_agrees-eq _ c.raw_name agrees in
      record {
        safe = (check_name_safety-nil_iff node c.raw_name).0 named;
        permitted = permitted-method c.method permitted;
        no_link = no_symlink c (when-nil (is_symlink c) symlink link);
        plain = when-nil _ encryption_used crypt;
        size = bomb_codes-size c h₃;
        header = header;
        checked = crc_codes-nil c permitted h₃ header h₄;
      }

  pub All-IsIntact :
      (cs : List CdEntry)
      → all_entry_codes node cs ≡ []
      → check_local_headers bytes delta cs ≡ []
      → all_bombs bounds cs ≡ []
      → all_crc_codes node bytes bounds delta cs ≡ []
      → All (IsIntact node bytes bounds delta) cs
  unfolding all_entry_codes check_local_headers all_bombs all_crc_codes
  All-IsIntact [] h₁ h₂ h₃ h₄ = tt
  All-IsIntact (c ∷ cs) h₁ h₂ h₃ h₄ = (
    entry-IsIntact c (append-nil_left _ _ h₁) (append-nil_left _ _ h₂) (append-nil_left _ _ h₃)
        (append-nil_left _ _ h₄),
    All-IsIntact cs (append-nil_right (entry_codes node c) _ h₁)
        (append-nil_right
          (when (not (name_agrees (local_name bytes (pos c.local_offset +ℤ delta)) c.raw_name))
            lfh_cd_disagreement)
          _ h₂)
        (append-nil_right (bomb_codes bounds c) _ h₃)
        (append-nil_right (crc_codes node bytes bounds delta c) _ h₄),
  )
