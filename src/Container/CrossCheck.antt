-- ===== src/Container/CrossCheck.antt =====
-- The local headers of zip-reader.ts: every entry of the central directory has one with its name,
-- and there is none besides. An offset that is in range is read without a test.
use cdx_file_format_spec.Prelude.{
  ℕ, zero, suc, ◌+◌, ◌/◌, ◌%◌, Bool, false, not, ◌&&◌, ◌||◌, List, [], ◌∷◌, ◌++◌, length, ltb, leb,
  ◌==◌, if◌then◌else◌, Option, none, some,
}
use cdx_file_format_spec.Merkle.ContentHash.{Units, Bytes, codes}
use cdx_file_format_spec.Merkle.Block.{same_units}
use cdx_file_format_spec.Container.Bytes.{ℤ, pos, negsuc, ◌+ℤ◌, u16_at, u32_at, subarray}
use cdx_file_format_spec.Container.Platform.{Platform}
use cdx_file_format_spec.Container.Names.{
  Code, lfh_cd_disagreement, data_outside_cd, first_file_not_manifest, when,
}
use cdx_file_format_spec.Container.Directory.{CdEntry, sig_lfh}

abbrev pub manifest_name : Units
manifest_name = codes "manifest.json"

abbrev pub sig_data_descriptor : ℕ
sig_data_descriptor = 0x08074b50

abbrev pub bytes_at_name : Bytes → ℕ → Bytes
bytes_at_name bytes off = subarray bytes (off + 30) (u16_at bytes (off + 26))

-- The name in the local header at an offset, if there is such a header.
unfoldable pub local_name : Bytes → ℤ → Option Bytes
local_name bytes (negsuc n) = none
local_name bytes (pos off) =
    if ltb (length bytes) (off + 30) || not (u32_at bytes off == sig_lfh)
    then none
    else some (bytes_at_name bytes off)

-- Does the entry have a local header with its name?
abbrev pub name_agrees : Option Bytes → Bytes → Bool
name_agrees none raw = false
name_agrees (some found) raw = same_units found raw

unfoldable pub check_local_headers : Bytes → ℤ → List CdEntry → List Code
check_local_headers bytes delta [] = []
check_local_headers bytes delta (c ∷ cs) =
    when (not (name_agrees (local_name bytes (pos c.local_offset +ℤ delta)) c.raw_name))
      lfh_cd_disagreement
    ++ check_local_headers bytes delta cs

-- The first signature of a local header, also behind a stub.
unfoldable pub first_local_header : Bytes → Option ℕ
first_local_header [] = none
first_local_header (b ∷ bs) =
    let rest = first_local_header bs in
    if leb 4 (length (b ∷ bs)) && u32_at (b ∷ bs) 0 == sig_lfh
    then some 0
    else (elim rest [ none ↦ none | some i ↦ some (suc i) ])

abbrev pub same_offset : ℤ → ℕ → Bool
same_offset (pos m) n = m == n
same_offset (negsuc m) n = false

-- cdByOffset.get(p): the entry that was set last.
unfoldable pub entry_at : ℤ → ℕ → List CdEntry → Option CdEntry
entry_at delta p [] = none
entry_at delta p (c ∷ cs) =
    let later = entry_at delta p cs in
    elim later [
      | some e ↦ some e
      | none ↦ if same_offset (pos c.local_offset +ℤ delta) p then some c else none
    ]

-- Behind the data of an entry, and behind its descriptor if it has one.
unfoldable pub next_header : Bytes → ℕ → CdEntry → ℕ
next_header bytes p c =
    let next = p + 30 + u16_at bytes (p + 26) + u16_at bytes (p + 28) + c.compressed_size in
    if c.flags / 8 % 2 == 1 && leb (next + 4) (length bytes)
    then next + (if u32_at bytes next == sig_data_descriptor then 16 else 12)
    else next

abbrev pub ends_before : ℕ → ℤ → Bool
ends_before n (pos m) = leb n m
ends_before n (negsuc m) = false

-- The loop from header to header; its number of steps is bounded by the code.
unfoldable pub walk_headers : ℕ → Bytes → List CdEntry → ℤ → ℤ → ℕ → List Code
unfolding next_header entry_at
walk_headers zero bytes central delta cd_start p = []
walk_headers (suc steps) bytes central delta cd_start p =
    if not (ends_before (p + 30) cd_start) || not (u32_at bytes p == sig_lfh)
    then []
    else elim (entry_at delta p central) [
      | none ↦ data_outside_cd ∷ []
      | some c ↦ walk_headers steps bytes central delta cd_start (next_header bytes p c)
    ]

unfoldable pub cross_check_local_headers : Bytes → List CdEntry → ℤ → ℤ → List Code
unfolding check_local_headers walk_headers first_local_header local_name ◌+ℤ◌
cross_check_local_headers bytes central delta cd_start =
    check_local_headers bytes delta central ++ (elim (first_local_header bytes) [
      | none ↦ []
      | some p ↦ walk_headers (length central + 1) bytes central delta cd_start p
    ])

unfoldable pub check_first_file : Platform → Bytes → List Code
unfolding first_local_header
check_first_file node bytes = elim (first_local_header bytes) [
  | none ↦ []
  | some off ↦
      if ltb (length bytes) (off + 30)
      then []
      else when (not (same_units (node.decode_utf8 (bytes_at_name bytes off)) manifest_name))
          first_file_not_manifest
]
