-- ===== src/Canonical/Runs/Loop.antt =====
-- What the loop of `mergeAdjacentText` leaves, and one turn of it.
use cdx_file_format_spec.Prelude.{
  false, List, [], ◌∷◌, ◌++◌, ok, ◌≡◌, refl, sym, ap, ◌∙◌, subst, Units, codes, same_units_refl,
}
use mathlib.Core.List.{append_assoc, append-nil}
use cdx_file_format_spec.Json.{Json, Members, text, object}
use cdx_file_format_spec.Canonical.Marks.{Serializer}
use cdx_file_format_spec.Canonical.Runs.{with_value, absorbs, merge_step, merge_loop, bottom_up}
use cdx_file_format_spec.Canonical.Runs.Assign.{set-set}
use cdx_file_format_spec.Canonical.Runs.Grouped.{IsText, HasMarks, IsRun, IsEnd, IsMerged}
use cdx_file_format_spec.Canonical.Runs.Texts.{
  appended-IsText, get_other-with_value, set-get, value_of-IsText, absorbs-text,
}

module _ (jcs : Serializer) where
  -- The loop from this stack over these nodes leaves `out` and, above it, `arr` merged.
  pub record IsFinished (stack vs arr out : List Json) : Type 0 where
    pub made : List Json
    pub result : List Json
    pub merged : IsMerged jcs arr made
    pub ran : merge_loop jcs stack vs ≡ ok result
    pub written : bottom_up result [] ≡ bottom_up out made

  -- The same from a text node on top, which absorbs the nodes of its run.
  pub record IsExtended (p : Members) (s t : Units) (vs out : List Json) : Type 0 where
    pub taken : List Json
    pub values : Units
    pub rest : List Json
    pub made : List Json
    pub result : List Json
    pub parts : vs ≡ taken ++ rest
    pub is_run : IsRun jcs s taken values
    pub is_end : IsEnd jcs s rest
    pub merged : IsMerged jcs rest made
    pub ran : merge_loop jcs (object p ∷ out) vs ≡ ok result
    pub written : bottom_up result [] ≡ bottom_up out (object (with_value (t ++ values) p) ∷ made)

  -- What the loop does with the nodes `vs`, whatever stands on top of the stack.
  pub record Finishes (vs : List Json) : Type 0 where
    pub from_text :
        (p : Members) (s t : Units) (out : List Json) → IsText jcs p s t → IsExtended p s t vs out
    pub from_any :
        (v : Json) (out : List Json) → HasMarks jcs v → IsFinished (v ∷ out) vs (v ∷ vs) out

  pub extended-IsFinished :
      (p : Members) (s t : Units) (vs out : List Json)
      → IsText jcs p s t
      → IsExtended p s t vs out
      → IsFinished (object p ∷ out) vs (object p ∷ vs) out
  extended-IsFinished p s t vs out h x = record {
    made = object (with_value (t ++ x.values) p) ∷ x.made;
    result = x.result;
    merged =
        subst (λ us. IsMerged jcs (object p ∷ us) (object (with_value (t ++ x.values) p) ∷ x.made))
          (sym x.parts)
          (IsMerged.run p (with_value (t ++ x.values) p) s t x.taken x.values x.rest x.made h
            x.is_run x.is_end (appended-IsText jcs p s t (t ++ x.values) h).node
            (get_other-with_value jcs p (t ++ x.values)) x.merged);
    ran = x.ran;
    written = x.written;
  }

  -- Nothing is absorbed: the text node is a run of its own.
  pub alone-IsExtended :
      (p : Members) (s t : Units) (vs out : List Json)
      → IsText jcs p s t
      → IsEnd jcs s vs
      → IsFinished (object p ∷ out) vs vs (object p ∷ out)
      → IsExtended p s t vs out
  alone-IsExtended p s t vs out h e x =
      let unit = append-nil t in
      let whole : with_value (t ++ []) p ≡ p =
        rw unit (set-get (codes "value") (text t) p h.node.valued) in
      record {
        taken = [];
        values = [];
        rest = vs;
        made = x.made;
        result = x.result;
        parts = refl;
        is_run = IsRun.ended;
        is_end = e;
        merged = x.merged;
        ran = x.ran;
        written = x.written ∙ ap (λ ms. bottom_up out (object ms ∷ x.made)) (sym whole);
      }

  -- A node that is not absorbed is pushed.
  pub pushed-IsFinished :
      (prev v : Json) (out vs : List Json)
      → absorbs jcs prev v ≡ ok false
      → IsFinished (v ∷ prev ∷ out) vs (v ∷ vs) (prev ∷ out)
      → IsFinished (prev ∷ out) (v ∷ vs) (v ∷ vs) (prev ∷ out)
  unfolding merge_loop merge_step
  pushed-IsFinished prev v out vs e x = record {
    made = x.made;
    result = x.result;
    merged = x.merged;
    ran = rw e x.ran;
    written = x.written;
  }

  -- A text node with the same marks is absorbed.
  pub absorbed-IsExtended :
      (p m : Members) (s t u : Units) (vs out : List Json)
      → IsText jcs p s t
      → IsText jcs m s u
      → IsExtended (with_value (t ++ u) p) s (t ++ u) vs out
      → IsExtended p s t (object m ∷ vs) out
  unfolding merge_loop merge_step
  absorbed-IsExtended p m s t u vs out h k x =
      let takes = absorbs-text jcs p m s s t u h k in
      let same = same_units_refl s in
      let first = value_of-IsText jcs p s t h in
      let second = value_of-IsText jcs m s u k in
      let again : with_value ((t ++ u) ++ x.values) (with_value (t ++ u) p)
          ≡ with_value (t ++ (u ++ x.values)) p =
        set-set (codes "value") (text ((t ++ u) ++ x.values)) (text (t ++ u)) p
        ∙ ap (λ l. with_value l p) (append_assoc t u x.values) in
      record {
        taken = object m ∷ x.taken;
        values = u ++ x.values;
        rest = x.rest;
        made = x.made;
        result = x.result;
        parts = ap (◌∷◌ (object m)) x.parts;
        is_run = IsRun.further m u x.taken x.values k x.is_run;
        is_end = x.is_end;
        merged = x.merged;
        ran = rw (takes, same, first, second) x.ran;
        written = x.written ∙ ap (λ ms. bottom_up out (object ms ∷ x.made)) again;
      }
