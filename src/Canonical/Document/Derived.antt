-- ===== src/Canonical/Document/Derived.antt =====
-- `computeDocumentId` and the derived fields of the content.
use cdx_file_format_spec.Prelude.{
  Bool, false, Option, none, Result, ok, err, ◌>>=◌, >>=-eq-ok, >>=_congr, ◌≡◌, refl, sym, ap, ◌∙◌,
  subst, Units, arith,
}
use cdx_file_format_spec.Json.{Json}
use cdx_file_format_spec.Canonical.Errors.{CanonError}
use cdx_file_format_spec.Canonical.Depth.{max_canonicalization_depth, assert_bounded_depth}
use cdx_file_format_spec.Canonical.Depth.Levels.{assert_bounded_depth_iff}
use cdx_file_format_spec.Canonical.StrictJson.{parse_strict_json}
use cdx_file_format_spec.Canonical.Metadata.{project_metadata}
use cdx_file_format_spec.Canonical.Assets.{build_asset_map}
use cdx_file_format_spec.Canonical.Hashes.{canonical_hash_name}
use cdx_file_format_spec.Canonical.Transform.{canon}
use cdx_file_format_spec.Canonical.Transform.Strip.{strip_derived}
use cdx_file_format_spec.Canonical.Transform.Derived.{canon-strip_derived}
use cdx_file_format_spec.Canonical.Transform.Nesting.{levels-strip}
use cdx_file_format_spec.Canonical.Document.{
  DocumentParts, Platform, finish_content, canonical_values, canonical_content, compute_document_id,
}

bounded-strip :
    (v : Json)
    → assert_bounded_depth v max_canonicalization_depth ≡ ok tt
    → assert_bounded_depth (strip_derived v) max_canonicalization_depth ≡ ok tt
bounded-strip v h =
    let fits = (assert_bounded_depth_iff max_canonicalization_depth v).0 h in
    (assert_bounded_depth_iff max_canonicalization_depth (strip_derived v)).1
      (omega (arith, fits, levels-strip v))

bind_same :
    {A : Type 0} (r r' : Result CanonError (Unit {0})) (s : Result CanonError A) {x : A}
    → (r ≡ ok tt → r' ≡ ok tt)
    → (r >>= λ _. s) ≡ ok x
    → (r' >>= λ _. s) ≡ ok x
bind_same (ok tt) r' s f h = let e = f refl in rw e h
bind_same (err e) r' s f h = cc

module _ (platform : Platform) where
  canonical_values-strip :
      (validate : Bool) (manifest content dublin_core : Json) (indexes : Units → Option Units)
      (out : Json)
      → canonical_values platform validate manifest content dublin_core indexes ≡ ok out
      → canonical_values platform validate manifest (strip_derived content) dublin_core indexes
        ≡ ok out
  unfolding canonical_values
  canonical_values-strip validate manifest content dublin_core indexes out h =
      bind_same (assert_bounded_depth content max_canonicalization_depth) _ _
        (bounded-strip content)
        (subst (λ s. (assert_bounded_depth content max_canonicalization_depth >>= λ _. s) ≡ ok out)
          (sym same) h)
    where
      same :
          (assert_bounded_depth dublin_core max_canonicalization_depth >>= λ _.
          build_asset_map platform.runtime indexes manifest >>= λ assets.
          project_metadata dublin_core >>= λ metadata.
          canon platform.jcs assets none false (strip_derived content)
          >>= finish_content platform validate metadata)
          ≡ (assert_bounded_depth dublin_core max_canonicalization_depth >>= λ _.
              build_asset_map platform.runtime indexes manifest >>= λ assets.
              project_metadata dublin_core >>= λ metadata.
              canon platform.jcs assets none false content
              >>= finish_content platform validate metadata)
      same = >>=_congr (assert_bounded_depth dublin_core max_canonicalization_depth) _ _ (λ _.
          >>=_congr (build_asset_map platform.runtime indexes manifest) _ _ (λ assets.
            >>=_congr (project_metadata dublin_core) _ _ (λ metadata.
              ap (λ r. r >>= finish_content platform validate metadata)
                (canon-strip_derived platform.jcs assets content))))

  abbrev pub with_content : DocumentParts → Units → DocumentParts
  with_content parts s = record {
    manifest = parts.manifest;
    content = s;
    dublin_core = parts.dublin_core;
    asset_indexes = parts.asset_indexes;
  }

  canonical_content-strip :
      (parts : DocumentParts) (s : Units) (validate : Bool) (content out : Json)
      → parse_strict_json platform.runtime parts.content ≡ ok content
      → parse_strict_json platform.runtime s ≡ ok (strip_derived content)
      → canonical_content platform parts validate ≡ ok out
      → canonical_content platform (with_content parts s) validate ≡ ok out
  unfolding canonical_content
  canonical_content-strip parts s validate content out p q h =
      let (manifest, pm, h₁) = >>=-eq-ok (parse_strict_json platform.runtime parts.manifest) _ h in
      let (c, pc, h₂) = >>=-eq-ok (parse_strict_json platform.runtime parts.content) _ h₁ in
      let (core, pd, h₃) = >>=-eq-ok (parse_strict_json platform.runtime parts.dublin_core) _ h₂ in
      let same : c ≡ content = cc (sym pc ∙ p) in
      let stripped = canonical_values-strip validate manifest content core parts.asset_indexes out (
        subst (λ v. canonical_values platform validate manifest v core parts.asset_indexes ≡ ok out)
          same h₃) in
      rw (pm, q, pd) stripped

  -- If the content of a document is replaced by a text of the same value without its derived fields,
  -- at any depth but in and below the marks of a text node, which `strip_derived` leaves as they are,
  -- then a document that had an id has the same id.
  pub compute_document_id-strip_derived :
      (parts : DocumentParts) (s : Units) (algorithm : Units) (validate : Bool) (content : Json)
      (id : Units)
      → parse_strict_json platform.runtime parts.content ≡ ok content
      → parse_strict_json platform.runtime s ≡ ok (strip_derived content)
      → compute_document_id platform parts algorithm validate ≡ ok id
      → compute_document_id platform (with_content parts s) algorithm validate ≡ ok id
  unfolding compute_document_id
  compute_document_id-strip_derived parts s algorithm validate content id p q h =
      let (name, pn, h₁) =
        >>=-eq-ok (canonical_hash_name platform.available platform.digest algorithm) _ h in
      let (out, pc, h₂) = >>=-eq-ok (canonical_content platform parts validate) _ h₁ in
      rw (pn, canonical_content-strip parts s validate content out p q pc) h₂
