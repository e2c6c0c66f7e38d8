-- ===== src/Canonical/Runs/Merged.antt =====
-- The loop of `mergeAdjacentText` builds the longest runs.
use cdx_file_format_spec.Prelude.{
  false, List, [], ◌∷◌, ◌++◌, All, ok, ◌>>=◌, ◌≡◌, refl, sym, ap, ◌∙◌, subst, Bool-cases, inl, inr,
  Units, same_units, same_units-eq, same_units-false_iff,
}
use cdx_file_format_spec.Json.{Json, Members, object}
use cdx_file_format_spec.Canonical.Marks.{Serializer}
use cdx_file_format_spec.Canonical.Runs.{
  is_mergeable_text_node, with_value, absorbs, merge_step, merge_loop, merge_adjacent_text,
  bottom_up,
}
use cdx_file_format_spec.Canonical.Runs.Grouped.{IsText, HasMarks, IsEnd, IsMerged}
use cdx_file_format_spec.Canonical.Runs.Texts.{
  Kind, kind, unmergeable-IsOther, IsText-marks, absorbs-text, absorbs-other, other-absorbs,
  appended-IsText,
}
use cdx_file_format_spec.Canonical.Runs.Loop.{
  IsFinished, IsExtended, Finishes, extended-IsFinished, alone-IsExtended, pushed-IsFinished,
  absorbed-IsExtended,
}

module _ (jcs : Serializer) where
  -- Other marks end a run, and so does a node that is no text node.
  marks-IsEnd :
      (v : Json) (m : Members) (s s' u : Units) (vs : List Json)
      → v ≡ object m
      → IsText jcs m s' u
      → same_units s s' ≡ false
      → IsEnd jcs s (v ∷ vs)
  marks-IsEnd v m s s' u vs e k differ ms value e' x =
      let same : ms ≡ m = cc (e, e') in
      let one = IsText-marks jcs m s value s' u (subst (λ l. IsText jcs l s value) same x) k in
      (same_units-false_iff s s').0 differ one

  next-IsExtended :
      (p : Members) (s t : Units) (v : Json) (vs out : List Json)
      → IsText jcs p s t
      → HasMarks jcs v
      → Finishes jcs vs
      → Kind jcs v
      → IsExtended jcs p s t (v ∷ vs) out
  next-IsExtended p s t v vs out h hv f (Kind.is_other e) =
      alone-IsExtended jcs p s t (v ∷ vs) out h (λ ms value. unmergeable-IsOther jcs v e ms s value)
        (pushed-IsFinished jcs (object p) v out vs (absorbs-other jcs (object p) v e)
          (f.from_any v (object p ∷ out) hv))
  next-IsExtended p s t v vs out h hv f (Kind.is_text_node m s' u e k) =
      elim (Bool-cases (same_units s s')) [
        | inl same ↦
            let k' = subst (λ l. IsText jcs m l u) (sym (same_units-eq s s' same)) k in
            subst (λ w. IsExtended jcs p s t (w ∷ vs) out) (sym e)
              (absorbed-IsExtended jcs p m s t u vs out h k' (
                f.from_text (with_value (t ++ u) p) s (t ++ u) out
                  (appended-IsText jcs p s t (t ++ u) h)))
        | inr differ ↦
            let refuses : absorbs jcs (object p) v ≡ ok false =
              ap (absorbs jcs (object p)) e ∙ absorbs-text jcs p m s s' t u h k ∙ ap ok differ in
            alone-IsExtended jcs p s t (v ∷ vs) out h (marks-IsEnd v m s s' u vs e k differ)
              (pushed-IsFinished jcs (object p) v out vs refuses (f.from_any v (object p ∷ out) hv))
      ]

  -- On any node, from what happens on a text node and on another.
  any-IsFinished :
      (v : Json) (vs out : List Json)
      → ((p : Members) (s t : Units) → IsText jcs p s t → IsExtended jcs p s t vs out)
      → (is_mergeable_text_node v ≡ false → IsFinished jcs (v ∷ out) vs vs (v ∷ out))
      → Kind jcs v
      → IsFinished jcs (v ∷ out) vs (v ∷ vs) out
  any-IsFinished v vs out from_text from_other (Kind.is_text_node m s u e k) =
      subst (λ w. IsFinished jcs (w ∷ out) vs (w ∷ vs) out) (sym e)
        (extended-IsFinished jcs m s u vs out k (from_text m s u k))
  any-IsFinished v vs out from_text from_other (Kind.is_other e) =
      let x = from_other e in
      record {
        made = v ∷ x.made;
        result = x.result;
        merged = IsMerged.other v vs x.made (unmergeable-IsOther jcs v e) x.merged;
        ran = x.ran;
        written = x.written;
      }

  at_end : (stack : List Json) → IsFinished jcs stack [] [] stack
  unfolding merge_loop
  at_end stack = record {
    made = [];
    result = stack;
    merged = IsMerged.empty;
    ran = refl;
    written = refl;
  }

  loop-Finishes : (vs : List Json) → All (HasMarks jcs) vs → Finishes jcs vs
  loop-Finishes [] h =
      let from_text : (p : Members) (s t : Units) (out : List Json)
          → IsText jcs p s t
          → IsExtended jcs p s t [] out =
        λ p s t out k. alone-IsExtended jcs p s t [] out k tt (at_end (object p ∷ out)) in
      record {
        from_text = from_text;
        from_any = λ v out hv.
            any-IsFinished v [] out (λ p s t. from_text p s t out) (λ _. at_end (v ∷ out))
              (kind jcs v hv);
      }
  loop-Finishes (v ∷ vs) (hv, hs) =
      let f = loop-Finishes vs hs in
      let from_text : (p : Members) (s t : Units) (out : List Json)
          → IsText jcs p s t
          → IsExtended jcs p s t (v ∷ vs) out =
        λ p s t out k. next-IsExtended p s t v vs out k hv f (kind jcs v hv) in
      record {
        from_text = from_text;
        from_any = λ w out hw.
            any-IsFinished w (v ∷ vs) out (λ p s t. from_text p s t out)
              (λ e.
                pushed-IsFinished jcs w v out vs (other-absorbs jcs w v e)
                  (f.from_any v (w ∷ out) hv))
              (kind jcs w hw);
      }

  -- If the marks of every text node of an array that has a text for its value and no key but `type`,
  -- `value` and `marks` are serialized, the merge returns, and in its result each longest run of such
  -- nodes with equal marks, as they are serialized, is one such node, which has the values of all one
  -- after another and the other members of the first of them, and every other node is as it was, all
  -- in the order of the array.
  pub merge_adjacent_text-IsMerged :
      (arr : List Json)
      → All (HasMarks jcs) arr
      → (out : List Json) × (merge_adjacent_text jcs arr ≡ ok out) × IsMerged jcs arr out
  unfolding merge_adjacent_text merge_loop merge_step
  merge_adjacent_text-IsMerged [] h = ([], refl, IsMerged.empty)
  merge_adjacent_text-IsMerged (v ∷ vs) (hv, hs) =
      let f = loop-Finishes vs hs in
      let x = f.from_any v [] hv in
      (x.made, ap (λ r. r >>= λ out. ok (bottom_up out [])) x.ran ∙ ap ok x.written, x.merged)
