-- ===== src/Canonical/StrictJson.antt =====
-- `parseStrictJson`: JSON.parse, and a scan of the text for repeated keys. `JSON.parse` is a parameter.
mod Tests
use cdx_file_format_spec.Prelude.{
  ℕ, zero, suc, Bool, true, false, ◌&&◌, ◌||◌, ◌==◌, List, [], ◌∷◌, ◌++◌, length, Option, none,
  some, Result, ok, err, ◌>>=◌, ◌>>◌, if◌then◌else◌, Units, codes, includes, has_unit,
}
use cdx_file_format_spec.Json.{Json}
use cdx_file_format_spec.Canonical.Errors.{
  CanonError, duplicate_key, not_json, resource_limit, unterminated, out_of_fuel,
}

-- What JSON.parse returns, or why it throws.
pub data Parsed : Type 0 where
  parsed : Json → Parsed
  syntax_error range_error : Parsed

pub record JsonRuntime : Type 0 where
  -- JSON.parse(text), and JSON.parse(raw) of a string literal
  pub parse : Units → Parsed
  pub parse_string : Units → Option Units

-- `keys` and `expectingKey` of an object.
pub data ScanFrame : Type 0 where
  array_frame : ScanFrame
  object_frame : List Units → Bool → ScanFrame

abbrev pub is_space : ℕ → Bool
is_space c = c == b' ' || (c == 9 || (c == 10 || c == 13))

abbrev pub is_structural_or_space : ℕ → Bool
is_structural_or_space c =
    is_space c
    || (c == b','
        || (c == b'{' || (c == b'}' || (c == b'[' || (c == b']' || (c == b':' || c == b'"'))))))

-- The rest of a string literal, up to its closing quote, and what follows it.
unfoldable pub string_end : Units → Option (Units × Units)
string_end [] = none
string_end (c ∷ []) = if c == b'"' then some (c ∷ [], []) else none
string_end (c ∷ d ∷ rest) =
    let escaped = string_end rest in
    let more = string_end (d ∷ rest) in
    if c == b'\\'
    then (elim escaped [ none ↦ none | some (raw, after) ↦ some (c ∷ d ∷ raw, after) ])
    else if c == b'"'
    then some (c ∷ [], d ∷ rest)
    else (elim more [ none ↦ none | some (raw, after) ↦ some (c ∷ raw, after) ])

-- while (i < n && !STRUCTURAL_OR_WS.has(text[i])) i++
unfoldable pub skip_token : Units → Units
skip_token [] = []
skip_token (c ∷ rest) =
    let more = skip_token rest in if is_structural_or_space c then c ∷ rest else more

abbrev pub expect_key : Bool → List ScanFrame → List ScanFrame
expect_key b (object_frame keys _ ∷ stack) = object_frame keys b ∷ stack
expect_key b stack = stack

abbrev pub pop_frame : List ScanFrame → List ScanFrame
pop_frame [] = []
pop_frame (_ ∷ stack) = stack

module _ (runtime : JsonRuntime) where
  -- A string literal: a key, if one is expected.
  abbrev pub scan_string : Units → List ScanFrame → Result CanonError (List ScanFrame)
  scan_string raw (object_frame keys true ∷ stack) = elim (runtime.parse_string raw) [
    | none ↦ err not_json
    | some key ↦
        if includes keys key then err duplicate_key else ok (object_frame (key ∷ keys) true ∷ stack)
  ]
  scan_string raw stack = ok stack

  -- The scan takes a unit of the text in each round at least: its length is enough fuel.
  unfoldable pub scan : ℕ → Units → List ScanFrame → Result CanonError (Unit {0})
  unfolding string_end skip_token
  scan fuel [] stack = ok tt
  scan zero (_ ∷ _) stack = err out_of_fuel
  scan (suc fuel) (c ∷ rest) stack =
      let next = scan fuel rest in
      let after_string : Result CanonError (Unit {0}) = elim (string_end rest) [
        | none ↦ err unterminated
        | some (raw, after) ↦ scan_string (c ∷ raw) stack >>= λ stack'. scan fuel after stack'
      ] in
      let after_token = scan fuel (skip_token rest) stack in
      if is_space c
      then next stack
      else if c == b'{'
      then next (object_frame [] true ∷ stack)
      else if c == b'['
      then next (array_frame ∷ stack)
      else if c == b'}' || c == b']'
      then next (pop_frame stack)
      else if c == b','
      then next (expect_key true stack)
      else if c == b':'
      then next (expect_key false stack)
      else if c == b'"'
      then after_string
      else after_token

  unfoldable pub detect_duplicate_keys : Units → Result CanonError (Unit {0})
  unfolding scan
  detect_duplicate_keys text = scan (length text) text []

  abbrev pub of_parsed : Parsed → Result CanonError Json
  of_parsed (parsed value) = ok value
  of_parsed syntax_error = err not_json
  of_parsed range_error = err resource_limit

  unfoldable pub parse_strict_json : Units → Result CanonError Json
  unfolding detect_duplicate_keys
  parse_strict_json text = do
    value ← of_parsed (runtime.parse text)
    detect_duplicate_keys text
    ok value
