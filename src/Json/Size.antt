-- ===== src/Json/Size.antt =====
-- The number of values in a value, and how deep its arrays and objects are nested.
use cdx_file_format_spec.Prelude.{ℕ, suc, ◌+◌, ◌≤◌, arith}
use Prim.Native.Nat.{max}
use cdx_file_format_spec.Json.{
  Json, Items, Members, array, object, no_items, item, no_members, member,
}

unfoldable mutual
  pub size : Json → ℕ
  size (array vs) = suc (size_items vs)
  size (object ms) = suc (size_members ms)
  size _ = 1

  pub size_items : Items → ℕ
  size_items no_items = 0
  size_items (item v vs) = size v + size_items vs

  pub size_members : Members → ℕ
  size_members no_members = 0
  size_members (member k v ms) = size v + size_members ms

unfoldable mutual
  pub levels : Json → ℕ
  levels (array vs) = suc (levels_items vs)
  levels (object ms) = suc (levels_members ms)
  levels _ = 0

  pub levels_items : Items → ℕ
  levels_items no_items = 0
  levels_items (item v vs) = max (levels v) (levels_items vs)

  pub levels_members : Members → ℕ
  levels_members no_members = 0
  levels_members (member k v ms) = max (levels v) (levels_members ms)

pub size_pos : (v : Json) → 1 ≤ size v
unfolding size
size_pos (array vs) = omega arith
size_pos (object ms) = omega arith
size_pos _ = omega arith
