-- ===== src/Canonical/Runs/Split.antt =====
-- `mergeAdjacentText` on a text node that is divided in two.
use cdx_file_format_spec.Prelude.{
  Bool, true, false, ◌&&◌, List, [], ◌∷◌, ◌++◌, Result, ok, err, ◌>>=◌, >>=_assoc, >>=_congr,
  if◌then◌else◌, ◌≡◌, ◌≢◌, refl, sym, ap, ◌∙◌, subst, Units, codes, same_units_refl,
}
use mathlib.Core.List.{append_assoc}
use cdx_file_format_spec.Json.{Json, Members, text, object, get}
use cdx_file_format_spec.Canonical.Errors.{CanonError}
use cdx_file_format_spec.Canonical.Marks.{Serializer, jcs_of}
use cdx_file_format_spec.Canonical.Runs.{
  is_plain, is_mergeable_text_node, or_empty, members_of, value_of, with_value, append_value,
  marks_equal, absorbs, merge_step, merge_loop, merge_adjacent_text, bottom_up,
}
use cdx_file_format_spec.Canonical.Runs.Assign.{
  set-set, value_of-with_value, marks-with_value, is_plain-with_value,
}

guard-right :
    (x y : Bool) (r : Result CanonError Bool)
    → (if x && y then r else ok false) ≡ ok true
    → y ≡ true
guard-right true true r h = refl
guard-right true false r h = cc
guard-right false y r h = cc

false-true : ◌≢◌ {A = Bool} false true
false-true h = cc

module _ (jcs : Serializer) where
  absorbs-IsPlain :
      (prev v : Json)
      → absorbs jcs prev v ≡ ok true
      → (p : Members) × (prev ≡ object p) × (is_plain p ≡ true)
  unfolding absorbs marks_equal is_mergeable_text_node
  absorbs-IsPlain (object p) v h =
      (p, refl, guard-right (is_mergeable_text_node v) (is_plain p) _ h)
  absorbs-IsPlain Json.null v h =
      absurd (false-true (guard-right (is_mergeable_text_node v) false _ h))
  absorbs-IsPlain (Json.bool b) v h =
      absurd (false-true (guard-right (is_mergeable_text_node v) false _ h))
  absorbs-IsPlain (Json.number x) v h =
      absurd (false-true (guard-right (is_mergeable_text_node v) false _ h))
  absorbs-IsPlain (text s) v h =
      absurd (false-true (guard-right (is_mergeable_text_node v) false _ h))
  absorbs-IsPlain (Json.array vs) v h =
      absurd (false-true (guard-right (is_mergeable_text_node v) false _ h))

  -- What a node has absorbed does not change what it absorbs.
  absorbs-left :
      (p : Members) (x y : Json)
      → is_plain p ≡ true
      → absorbs jcs (append_value (object p) x) y ≡ absorbs jcs (object p) y
  unfolding absorbs marks_equal is_mergeable_text_node
  absorbs-left p x y h =
      let t = value_of p ++ value_of (members_of x) in
      let plain₁ = is_plain-with_value t p h in
      let marks₁ = marks-with_value t p in rw (plain₁, h, marks₁) refl

  module _ (ms : Members) (a b : Units) (s : Units) (plain : is_plain ms ≡ true)
      (marks : jcs_of jcs (or_empty (get (codes "marks") ms)) ≡ ok s) where
    abbrev node : Units → Json
    node t = object (with_value t ms)

    absorbs-node : (t u : Units) → absorbs jcs (node t) (node u) ≡ ok true
    unfolding absorbs marks_equal is_mergeable_text_node
    absorbs-node t u =
        let plain₁ = is_plain-with_value t ms plain in
        let plain₂ = is_plain-with_value u ms plain in
        let marks₁ = marks-with_value t ms in
        let marks₂ = marks-with_value u ms in
        rw (plain₁, plain₂, marks₁, marks₂, marks, same_units_refl s) refl

    append-node : append_value (node a) (node b) ≡ node (a ++ b)
    append-node =
        let value₁ = value_of-with_value a ms plain in
        let value₂ = value_of-with_value b ms plain in
        rw (value₁, value₂) (ap object (set-set (codes "value") (text (a ++ b)) (text a) ms))

    append-append :
        (p : Members)
        → is_plain p ≡ true
        → append_value (append_value (object p) (node a)) (node b)
          ≡ append_value (object p) (node (a ++ b))
    append-append p h =
        let value₁ = value_of-with_value a ms plain in
        let value₂ = value_of-with_value b ms plain in
        let value₃ = value_of-with_value (a ++ b) ms plain in
        let value₄ = value_of-with_value (value_of p ++ a) p h in
        rw (value₁, value₂, value₃, value₄)
          (ap object (
            set-set (codes "value") (text ((value_of p ++ a) ++ b)) (text (value_of p ++ a)) p
            ∙ ap (λ t. with_value t p) (append_assoc (value_of p) a b)))

    absorbs-right :
        (prev : Json) (t : Units) → absorbs jcs prev (node t) ≡ absorbs jcs prev (object ms)
    unfolding absorbs marks_equal is_mergeable_text_node
    absorbs-right prev t =
        let plain₁ = is_plain-with_value t ms plain in
        let marks₁ = marks-with_value t ms in rw (plain₁, plain, marks₁) refl

    -- Two steps over the parts are a step over the whole.
    abbrev StepsAlike : List Json → Type 0
    StepsAlike out =
        (merge_step jcs out (node a) >>= λ o. merge_step jcs o (node b))
        ≡ merge_step jcs out (node (a ++ b))

    absorbed-StepsAlike :
        (p : Members) (out : List Json)
        → is_plain p ≡ true
        → absorbs jcs (object p) (object ms) ≡ ok true
        → StepsAlike (object p ∷ out)
    unfolding merge_step
    absorbed-StepsAlike p out h e =
        let first = absorbs-right (object p) a ∙ e in
        let second = absorbs-left p (node a) (node b) h ∙ absorbs-right (object p) b ∙ e in
        let whole = absorbs-right (object p) (a ++ b) ∙ e in
        let joined = append-append p h in rw (first, second, whole, joined) refl

    step-StepsAlike :
        (prev : Json) (out : List Json) (r : Result CanonError Bool)
        → absorbs jcs prev (object ms) ≡ r
        → StepsAlike (prev ∷ out)
    unfolding merge_step
    step-StepsAlike prev out (err x) e =
        let first = absorbs-right prev a ∙ e in
        let whole = absorbs-right prev (a ++ b) ∙ e in rw (first, whole) refl
    step-StepsAlike prev out (ok false) e =
        let first = absorbs-right prev a ∙ e in
        let whole = absorbs-right prev (a ++ b) ∙ e in
        rw (first, whole, absorbs-node a b, append-node) refl
    step-StepsAlike prev out (ok true) e =
        let (p, is_p, h) = absorbs-IsPlain prev (object ms) e in
        subst (λ v. StepsAlike (v ∷ out)) (sym is_p)
          (absorbed-StepsAlike p out h (subst (λ v. absorbs jcs v (object ms) ≡ ok true) is_p e))

    merge_step-StepsAlike : (out : List Json) → StepsAlike out
    unfolding merge_step
    merge_step-StepsAlike [] = rw (absorbs-node a b, append-node) refl
    merge_step-StepsAlike (prev ∷ out) = step-StepsAlike prev out _ refl

    merge_loop-split :
        (out before after : List Json)
        → merge_loop jcs out (before ++ node a ∷ node b ∷ after)
          ≡ merge_loop jcs out (before ++ node (a ++ b) ∷ after)
    unfolding merge_loop
    merge_loop-split out [] after =
        >>=_assoc (merge_step jcs out (node a)) (λ o. merge_step jcs o (node b))
          (λ o. merge_loop jcs o after)
        ∙ ap (λ r. r >>= λ o. merge_loop jcs o after) (merge_step-StepsAlike out)
    merge_loop-split out (v ∷ before) after =
        >>=_congr (merge_step jcs out v) _ _ (λ o. merge_loop-split o before after)

    -- Where a text is divided does not matter: if `ms` is a mergeable text node whose marks are
    -- serialized, then its copies with the values `a` and `b`, side by side in an array, merge to what
    -- the one copy with the value `a ++ b` in their place gives, errors of the other nodes included.
    pub merge_adjacent_text-split :
        (before after : List Json)
        → merge_adjacent_text jcs (before ++ node a ∷ node b ∷ after)
          ≡ merge_adjacent_text jcs (before ++ node (a ++ b) ∷ after)
    unfolding merge_adjacent_text
    merge_adjacent_text-split before after =
        ap (λ r. r >>= λ out. ok (bottom_up out [])) (merge_loop-split [] before after)
