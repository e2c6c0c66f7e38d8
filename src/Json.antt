-- ===== src/Json.antt =====
-- Values of JSON as the library holds them once they are parsed. The members of an object stand in
-- their order, and a key is found where it stands first: the parts are refused if a key is repeated.
pub mod Size
use cdx_file_format_spec.Prelude.{
  ℕ, suc, ◌+◌, Bool, true, false, List, [], ◌∷◌, Option, none, some, Units, same_units,
  if◌then◌else◌,
}

-- A finite number is an integer, with its sign and magnitude, or a fraction; the numbers that are no
-- integer, and those that are not finite, are told apart by a number.
pub data Number : Type 0 where
  integer : Bool → ℕ → Number
  fraction not_finite : ℕ → Number

mutual
  pub data Json : Type 0 where
    null : Json
    bool : Bool → Json
    number : Number → Json
    text : Units → Json
    array : Items → Json
    object : Members → Json

  pub data Items : Type 0 where
    no_items : Items
    item : Json → Items → Items

  pub data Members : Type 0 where
    no_members : Members
    member : Units → Json → Members → Members

-- value[key], `none` for undefined
unfoldable pub get : Units → Members → Option Json
get k no_members = none
get k (member j v ms) = if same_units j k then some v else get k ms

abbrev pub to_list : Items → List Json
to_list no_items = []
to_list (item v vs) = v ∷ to_list vs

abbrev pub of_list : List Json → Items
of_list [] = no_items
of_list (v ∷ vs) = item v (of_list vs)

-- typeof v === 'string', with the text
abbrev pub as_text : Option Json → Option Units
as_text (some (text s)) = some s
as_text _ = none

-- v === s, with a text s
abbrev pub is_text : Option Json → Units → Bool
is_text (some (text t)) s = same_units t s
is_text _ s = false

abbrev pub is_true : Option Json → Bool
is_true (some (bool true)) = true
is_true _ = false

abbrev pub is_defined : Option Json → Bool
is_defined none = false
is_defined (some v) = true
