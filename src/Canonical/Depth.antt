-- ===== src/Canonical/Depth.antt =====
-- `assertBoundedDepth`: the bound on nesting, tested with an explicit stack.
pub mod Levels
mod Tests
use cdx_file_format_spec.Prelude.{
  ℕ, zero, suc, ◌+◌, List, [], ◌∷◌, ltb, if◌then◌else◌, Result, ok, err,
}
use cdx_file_format_spec.Json.{
  Json, Items, Members, null, array, object, no_items, item, no_members, member,
}
use cdx_file_format_spec.Json.Size.{size}
use cdx_file_format_spec.Canonical.Errors.{CanonError, too_deep, out_of_fuel}

abbrev pub max_canonicalization_depth : ℕ
max_canonicalization_depth = 256

abbrev pub Stack : Type 0
Stack = List (Json × ℕ)

-- for (const child of children) stack.push({ node: child, depth })
abbrev pub push_items : Items → ℕ → Stack → Stack
push_items no_items depth stack = stack
push_items (item v vs) depth stack = push_items vs depth ((v, depth) ∷ stack)

abbrev pub push_members : Members → ℕ → Stack → Stack
push_members no_members depth stack = stack
push_members (member k v ms) depth stack = push_members ms depth ((v, depth) ∷ stack)

-- while (stack.length > 0). A round takes one value off, so the fuel is the number of values.
unfoldable pub depth_loop : ℕ → ℕ → Stack → Result CanonError (Unit {0})
depth_loop max_depth fuel [] = ok tt
depth_loop max_depth zero (_ ∷ _) = err out_of_fuel
depth_loop max_depth (suc fuel) ((array vs, depth) ∷ stack) =
    let next = depth_loop max_depth fuel (push_items vs (depth + 1) stack) in
    if ltb max_depth depth then err too_deep else next
depth_loop max_depth (suc fuel) ((object ms, depth) ∷ stack) =
    let next = depth_loop max_depth fuel (push_members ms (depth + 1) stack) in
    if ltb max_depth depth then err too_deep else next
depth_loop max_depth (suc fuel) (_ ∷ stack) = depth_loop max_depth fuel stack

unfoldable pub assert_bounded_depth : Json → ℕ → Result CanonError (Unit {0})
unfolding depth_loop
assert_bounded_depth root max_depth = depth_loop max_depth (size root) ((root, 1) ∷ [])
