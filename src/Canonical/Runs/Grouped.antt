-- ===== src/Canonical/Runs/Grouped.antt =====
-- What `mergeAdjacentText` should make of an array: one node for each of its longest runs of text nodes
-- with the same marks.
use cdx_file_format_spec.Prelude.{◌≡◌, ◌≢◌, ◌⊎◌, List, [], ◌∷◌, ◌++◌, some, ok, Units, codes}
use cdx_file_format_spec.Json.{Json, Members, text, object, no_members, member, get}
use cdx_file_format_spec.Canonical.Marks.{Serializer, jcs_of}
use cdx_file_format_spec.Canonical.Runs.{or_empty}

-- There is no key but these three.
abbrev pub OnlyTextKeys : Members → Type 0
OnlyTextKeys no_members = Unit
OnlyTextKeys (member key v ms) =
    ((key ≡ codes "type") ⊎ ((key ≡ codes "value") ⊎ (key ≡ codes "marks"))) × OnlyTextKeys ms

-- A text node that can be merged, with its value.
pub record IsTextNode (ms : Members) (value : Units) : Type 0 where
  pub typed : get (codes "type") ms ≡ some (text (codes "text"))
  pub valued : get (codes "value") ms ≡ some (text value)
  pub keyed : OnlyTextKeys ms

module _ (jcs : Serializer) where
  -- A text node that can be merged, its marks, as they are serialized, and its value.
  pub record IsText (ms : Members) (marks value : Units) : Type 0 where
    pub node : IsTextNode ms value
    pub serialized : jcs_of jcs (or_empty (get (codes "marks") ms)) ≡ ok marks

  -- If the node is a text node that can be merged, its marks are serialized.
  abbrev pub HasMarks : Json → Type 0
  HasMarks v =
      (ms : Members) (value : Units)
      → v ≡ object ms
      → IsTextNode ms value
      → (s : Units) × (jcs_of jcs (or_empty (get (codes "marks") ms)) ≡ ok s)

  -- Text nodes with these marks, and their values one after another.
  pub data IsRun (marks : Units) : List Json → Units → Type 0 where
    ended : IsRun marks [] []
    further :
        (ms : Members) (value : Units) (vs : List Json) (values : Units)
        → IsText ms marks value
        → IsRun marks vs values
        → IsRun marks (object ms ∷ vs) (value ++ values)

  -- No text node with these marks comes next.
  abbrev pub IsEnd : Units → List Json → Type 0
  IsEnd marks [] = Unit
  IsEnd marks (v ∷ vs) = (ms : Members) (value : Units) → v ≡ object ms → ¬ IsText ms marks value

  abbrev pub IsOther : Json → Type 0
  IsOther v = (ms : Members) (marks value : Units) → v ≡ object ms → ¬ IsText ms marks value

  -- Each longest run of text nodes with the same marks becomes one text node with the values of all and
  -- the other members of the first; every other node stays.
  pub data IsMerged : List Json → List Json → Type 0 where
    empty : IsMerged [] []
    other :
        (v : Json) (vs out : List Json) → IsOther v → IsMerged vs out → IsMerged (v ∷ vs) (v ∷ out)
    run :
        (ms node : Members) (marks value : Units) (vs : List Json) (values : Units)
        (rest out : List Json)
        → IsText ms marks value
        → IsRun marks vs values
        → IsEnd marks rest
        → IsTextNode node (value ++ values)
        → ((key : Units) → key ≢ codes "value" → get key node ≡ get key ms)
        → IsMerged rest out
        → IsMerged (object ms ∷ vs ++ rest) (object node ∷ out)
