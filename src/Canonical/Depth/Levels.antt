-- ===== src/Canonical/Depth/Levels.antt =====
-- The depth loop against the nesting of a value.
use cdx_file_format_spec.Prelude.{
  ℕ, zero, suc, ◌+◌, ◌≤◌, ◌<◌, ◌≡◌, refl, ◌↔◌, Bool, true, false, [], ◌∷◌, arith, ltb,
  if◌then◌else◌, Result, ok, err,
}
use cdx_file_format_spec.Json.{
  Json, Items, Members, null, bool, number, text, array, object, no_items, item, no_members, member,
}
use cdx_file_format_spec.Json.Size.{
  size, size_items, size_members, levels, levels_items, levels_members, size_pos,
}
use cdx_file_format_spec.Canonical.Errors.{CanonError, too_deep}
use cdx_file_format_spec.Canonical.Depth.{
  Stack, push_items, push_members, depth_loop, assert_bounded_depth,
}

-- The number of values in a stack.
abbrev weight : Stack → ℕ
weight [] = 0
weight ((v, depth) ∷ stack) = size v + weight stack

module _ (max_depth : ℕ) where
  -- What nests n levels deep, at some depth, stays within the bound; a value that nests nothing does.
  abbrev Fits : ℕ → ℕ → Type 0
  Fits n depth = 0 < n → n + depth ≤ max_depth + 1

  abbrev AllFit : Stack → Type 0
  AllFit [] = Unit
  AllFit ((v, depth) ∷ stack) = Fits (levels v) depth × AllFit stack

  push_items-AllFit :
      (vs : Items) (depth : ℕ) (stack : Stack)
      → AllFit (push_items vs depth stack) ↔ (Fits (levels_items vs) depth × AllFit stack)
  unfolding levels
  push_items-AllFit no_items depth stack =
      (λ f. (λ pos. absurd (omega (arith, pos)), f), λ (_, f). f)
  push_items-AllFit (item v vs) depth stack =
      let (to, from) = push_items-AllFit vs depth ((v, depth) ∷ stack) in
      (
        λ f. let (rest, (one, more)) = to f in (λ pos. ground arith, more),
        λ (f, more). from (λ pos. ground arith, (λ pos. ground arith, more)),
      )

  push_members-AllFit :
      (ms : Members) (depth : ℕ) (stack : Stack)
      → AllFit (push_members ms depth stack) ↔ (Fits (levels_members ms) depth × AllFit stack)
  unfolding levels
  push_members-AllFit no_members depth stack =
      (λ f. (λ pos. absurd (omega (arith, pos)), f), λ (_, f). f)
  push_members-AllFit (member k v ms) depth stack =
      let (to, from) = push_members-AllFit ms depth ((v, depth) ∷ stack) in
      (
        λ f. let (rest, (one, more)) = to f in (λ pos. ground arith, more),
        λ (f, more). from (λ pos. ground arith, (λ pos. ground arith, more)),
      )

push_items-weight :
    (vs : Items) (depth : ℕ) (stack : Stack)
    → weight (push_items vs depth stack) ≡ size_items vs + weight stack
unfolding size
push_items-weight no_items depth stack = omega arith
push_items-weight (item v vs) depth stack =
    omega (arith, push_items-weight vs depth ((v, depth) ∷ stack))

push_members-weight :
    (ms : Members) (depth : ℕ) (stack : Stack)
    → weight (push_members ms depth stack) ≡ size_members ms + weight stack
unfolding size
push_members-weight no_members depth stack = omega arith
push_members-weight (member k v ms) depth stack =
    omega (arith, push_members-weight ms depth ((v, depth) ∷ stack))

module _ (max_depth : ℕ) where
  guard_iff :
      (b : Bool) (next : Result CanonError (Unit {0}))
      → ((if b then err too_deep else next) ≡ ok tt) ↔ ((b ≡ false) × (next ≡ ok tt))
  guard_iff true next = (λ e. cc, λ (e, _). cc)
  guard_iff false next = (λ e. (refl, e), λ (_, e). e)

  nest-Fits :
      (n depth : ℕ)
      → ((ltb max_depth depth ≡ false) × Fits max_depth n (depth + 1))
        ↔ Fits max_depth (suc n) depth
  nest-Fits zero depth = ground arith
  nest-Fits (suc n) depth = ground arith

  -- A container: its children go on the stack.
  container_iff :
      (n depth : ℕ) (next : Result CanonError (Unit {0})) (stack pushed : Stack)
      → ((next ≡ ok tt) ↔ AllFit max_depth pushed)
      → (AllFit max_depth pushed ↔ (Fits max_depth n (depth + 1) × AllFit max_depth stack))
      → ((if ltb max_depth depth then err too_deep else next) ≡ ok tt)
        ↔ (Fits max_depth (suc n) depth × AllFit max_depth stack)
  container_iff n depth next stack pushed run push =
      let (open_guard, shut_guard) = guard_iff (ltb max_depth depth) next in
      let (to_nest, from_nest) = nest-Fits n depth in
      (
        λ e.
            let (below, done) = open_guard e in
            let (fits, rest) = push.0 (run.0 done) in (to_nest (below, fits), rest),
        λ (fits, rest).
            let (below, inner) = from_nest fits in shut_guard (below, run.1 (push.1 (inner, rest))),
      )

  scalar_iff :
      (depth : ℕ) (stack : Stack) {r : Result CanonError (Unit {0})}
      → ((r ≡ ok tt) ↔ AllFit max_depth stack)
      → (r ≡ ok tt) ↔ (Fits max_depth 0 depth × AllFit max_depth stack)
  scalar_iff depth stack (to, from) =
      (λ e. (λ pos. absurd (omega (arith, pos)), to e), λ (_, f). from f)

  within : (n : ℕ) → Fits max_depth n 1 → n ≤ max_depth
  within zero fits = omega arith
  within (suc n) fits = let h = fits (omega arith) in omega (arith, h)

  loop_iff :
      (fuel : ℕ) (stack : Stack)
      → weight stack ≤ fuel
      → (depth_loop max_depth fuel stack ≡ ok tt) ↔ AllFit max_depth stack
  unfolding depth_loop size levels
  loop_iff fuel [] h = (λ _. tt, λ _. refl)
  loop_iff zero ((v, depth) ∷ stack) h = absurd (omega (arith, h, size_pos v))
  loop_iff (suc fuel) ((array vs, depth) ∷ stack) h =
      container_iff (levels_items vs) depth _ stack (push_items vs (depth + 1) stack)
        (loop_iff fuel (push_items vs (depth + 1) stack)
          (omega (arith, h, push_items-weight vs (depth + 1) stack)))
        (push_items-AllFit max_depth vs (depth + 1) stack)
  loop_iff (suc fuel) ((object ms, depth) ∷ stack) h =
      container_iff (levels_members ms) depth _ stack (push_members ms (depth + 1) stack)
        (loop_iff fuel (push_members ms (depth + 1) stack)
          (omega (arith, h, push_members-weight ms (depth + 1) stack)))
        (push_members-AllFit max_depth ms (depth + 1) stack)
  loop_iff (suc fuel) ((null, depth) ∷ stack) h =
      scalar_iff depth stack (loop_iff fuel stack (omega (arith, h)))
  loop_iff (suc fuel) ((bool b, depth) ∷ stack) h =
      scalar_iff depth stack (loop_iff fuel stack (omega (arith, h)))
  loop_iff (suc fuel) ((number n, depth) ∷ stack) h =
      scalar_iff depth stack (loop_iff fuel stack (omega (arith, h)))
  loop_iff (suc fuel) ((text s, depth) ∷ stack) h =
      scalar_iff depth stack (loop_iff fuel stack (omega (arith, h)))

  -- A value is accepted exactly if its arrays and objects are nested no deeper than the bound.
  pub assert_bounded_depth_iff :
      (root : Json) → (assert_bounded_depth root max_depth ≡ ok tt) ↔ (levels root ≤ max_depth)
  unfolding assert_bounded_depth
  assert_bounded_depth_iff root =
      let (to, from) = loop_iff (size root) ((root, 1) ∷ []) (omega arith) in
      (
        λ e. let (fits, _) = to e in within (levels root) fits,
        λ h. from (λ pos. omega (arith, h), tt),
      )
