-- ===== src/Canonical/StoredBytes.antt =====
-- `validateStoredByteInvariants` and what it calls. Normalization Form C is the parameter `nfc`; the
-- code units of a text are numbers below 2^16, and `isWellFormedUnicode` is the scan of the code, which
-- stands in for the method of the runtime.
pub mod Invariants
pub mod Scalars
mod Tests
use cdx_file_format_spec.Prelude.{
  ℕ, suc, ◌+◌, Bool, true, false, not, ◌&&◌, ◌||◌, List, [], ◌∷◌, ◌++◌, Option, none, some, Result,
  ok, err, ◌>>=◌, if◌then◌else◌, leb, ltb, Units, codes, same_units,
}
use cdx_file_format_spec.Json.{
  Number, integer, fraction, not_finite, Json, Items, Members, null, bool, number, text, array,
  object, no_items, item, no_members, member, get, as_text, is_text,
}
use cdx_file_format_spec.Canonical.Errors.{
  CanonError, ill_formed, not_nfc, split_sequence, number_not_representable,
}
use cdx_file_format_spec.Canonical.Transform.{is_block_content_key, content_barrier_key}

-- code >= 0xd800 && code <= 0xdbff, and the other half
abbrev pub is_high : ℕ → Bool
is_high code = leb 55296 code && leb code 56319

abbrev pub is_low : ℕ → Bool
is_low code = leb 56320 code && leb code 57343

-- A high surrogate is followed by a low one, and a low one follows a high one.
unfoldable pub is_well_formed_unicode : Units → Bool
is_well_formed_unicode [] = true
is_well_formed_unicode (code ∷ []) = not (is_high code) && not (is_low code)
is_well_formed_unicode (code ∷ next ∷ rest) =
    let after_pair = is_well_formed_unicode rest in
    let after_one = is_well_formed_unicode (next ∷ rest) in
    if is_high code then is_low next && after_pair else not (is_low code) && after_one

abbrev pub max_safe_integer : ℕ
max_safe_integer = 9007199254740991

-- The sign of an integer does not matter.
unfoldable pub is_non_representable : Number → Bool
is_non_representable (integer negative magnitude) = ltb max_safe_integer magnitude
is_non_representable (fraction id) = false
is_non_representable (not_finite id) = true

-- The value of an element that continues a run of text nodes.
abbrev pub value_in_run : Bool → Json → Option Units
value_in_run true (object ms) =
    if is_text (get (codes "type") ms) (codes "text")
    then as_text (get (codes "value") ms)
    else none
value_in_run _ v = none

-- `run` and `runNodes`
abbrev pub Run : Type 0
Run = Units × ℕ

abbrev pub next_run : Run → Option Units → Run
next_run run none = ([], 0)
next_run run (some value) = (run.0 ++ value, suc run.1)

module _ (nfc : Units → Units) where
  unfoldable pub stored_text_violation : Units → Option CanonError
  stored_text_violation s =
      if not (is_well_formed_unicode s)
      then some ill_formed
      else if not (same_units (nfc s) s)
      then some not_nfc
      else none

  abbrev pub throw_any : Option CanonError → Result CanonError (Unit {0})
  throw_any none = ok tt
  throw_any (some e) = err e

  unfoldable pub check_string : Units → Result CanonError (Unit {0})
  unfolding stored_text_violation
  check_string s = throw_any (stored_text_violation s)

  unfoldable pub check_concatenated_nfc : Units → Result CanonError (Unit {0})
  check_concatenated_nfc run = if same_units (nfc run) run then ok tt else err split_sequence

  -- if (runNodes >= 2) checkConcatenatedNfc(run)
  abbrev pub close_run : Run → Result CanonError (Unit {0})
  close_run run = if leb 2 run.1 then check_concatenated_nfc run.0 else ok tt

  abbrev pub end_of_run : Run → Option Units → Result CanonError (Unit {0})
  end_of_run run none = close_run run
  end_of_run run (some value) = ok tt

  unfoldable mutual
    unfolding check_string

    pub validate : Option Units → Bool → Json → Result CanonError (Unit {0})
    validate key blocked (text s) = check_string s
    validate key blocked (number n) =
        if is_non_representable n then err number_not_representable else ok tt
    validate key blocked (array vs) =
        validate_items (not blocked && is_block_content_key key) key blocked ([], 0) vs
    validate key blocked (object ms) = validate_members blocked ms
    validate key blocked _ = ok tt

    pub validate_items : Bool → Option Units → Bool → Run → Items → Result CanonError (Unit {0})
    validate_items in_content key blocked run no_items = close_run run
    validate_items in_content key blocked run (item v vs) = do
      closed ← end_of_run run (value_in_run in_content v)
      checked ← validate key blocked v
      validate_items in_content key blocked (next_run run (value_in_run in_content v)) vs

    pub validate_members : Bool → Members → Result CanonError (Unit {0})
    validate_members blocked no_members = ok tt
    validate_members blocked (member key v ms) = do
      named ← check_string key
      checked ← validate (some key) (blocked || same_units key content_barrier_key) v
      validate_members blocked ms

  unfoldable pub validate_stored_byte_invariants : Json → Result CanonError (Unit {0})
  unfolding validate
  validate_stored_byte_invariants value = validate none false value
