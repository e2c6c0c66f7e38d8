-- ===== src/Canonical/StoredBytes/Tests.antt =====
-- Runs of `validateStoredByteInvariants`, with a normalization that composes one letter.
use cdx_file_format_spec.Prelude.{
  ℕ, ◌<◌, ◌&&◌, true, false, [], ◌∷◌, none, ok, err, ◌==◌, if◌then◌else◌, ◌≡◌, refl, Units, codes,
  All, arith,
}
use cdx_file_format_spec.Json.{
  Json, integer, number, text, array, object, no_items, item, no_members, member, get,
}
use cdx_file_format_spec.Canonical.Errors.{split_sequence, number_not_representable}
use cdx_file_format_spec.Canonical.StoredBytes.{
  is_well_formed_unicode, is_non_representable, stored_text_violation, check_string,
  check_concatenated_nfc, validate, validate_stored_byte_invariants,
}
use cdx_file_format_spec.Canonical.StoredBytes.Invariants.{
  IsStored, validate_stored_byte_invariants_iff,
}
use cdx_file_format_spec.Canonical.StoredBytes.Scalars.{IsEncoded, is_well_formed_unicode_iff}

abbrev acute : ℕ
acute = 769

abbrev put_letter : ℕ → Units → Units
put_letter c [] = c ∷ []
put_letter c (d ∷ s) = if c == b'e' && d == acute then 233 ∷ s else c ∷ d ∷ s

abbrev compose : Units → Units
compose [] = []
compose (c ∷ s) = put_letter c (compose s)

abbrev words : Units → Json
words s =
    object
      (member (codes "type") (text (codes "text")) (member (codes "value") (text s) no_members))

abbrev part : Json → Json → Json
part a b = object (member (codes "children") (array (item a (item b no_items))) no_members)

abbrev whole : Json
whole = part (words (codes "caf")) (words (233 ∷ []))

whole_accepted : validate_stored_byte_invariants compose whole ≡ ok tt
unfolding validate_stored_byte_invariants validate check_string stored_text_violation
    check_concatenated_nfc is_well_formed_unicode get
whole_accepted = refl

-- A letter and its accent, each in a node of its own.
divided_refused :
    validate_stored_byte_invariants compose (part (words (codes "cafe")) (words (acute ∷ [])))
    ≡ err split_sequence
unfolding validate_stored_byte_invariants validate check_string stored_text_violation
    check_concatenated_nfc is_well_formed_unicode get
divided_refused = refl

large_refused :
    validate_stored_byte_invariants compose (number (integer true 9007199254740992))
    ≡ err number_not_representable
unfolding validate_stored_byte_invariants validate is_non_representable
large_refused = refl

validate_stored_byte_invariants_iff_example : IsStored compose none false whole
validate_stored_byte_invariants_iff_example =
    (validate_stored_byte_invariants_iff compose whole).0 whole_accepted

abbrev astral : Units
astral = 55357 ∷ 56832 ∷ b'!' ∷ []

astral_accepted : is_well_formed_unicode astral ≡ true
unfolding is_well_formed_unicode
astral_accepted = refl

astral_units : All (λ c. c < 65536) astral
astral_units = (omega arith, (omega arith, (omega arith, tt)))

is_well_formed_unicode_iff_example : IsEncoded astral
is_well_formed_unicode_iff_example =
    (is_well_formed_unicode_iff astral astral_units).0 astral_accepted
