-- ===== src/Canonical/Marks/Written.antt =====
-- The marks of `sortDedupMarks` as they are written.
use cdx_file_format_spec.Prelude.{
  List, [], ◌∷◌, map, Option, none, some, Result, ok, ◌>>=◌, Units, includes, All, subst, >>=-eq-ok,
  ◌≡◌, refl, sym, ◌∙◌, if_rule, less_units,
}
use cdx_file_format_spec.Json.{Json}
use cdx_file_format_spec.Canonical.Errors.{CanonError}
use cdx_file_format_spec.Canonical.Marks.{
  Serializer, Keyed, insert_mark, sort_marks, dedup_marks, is_last, jcs_of, key_marks,
  sort_dedup_marks,
}
use cdx_file_format_spec.Canonical.Marks.Order.{texts, IsStrict, includes-sort, sort-IsAscending}
use cdx_file_format_spec.Canonical.Marks.Dedup.{
  dedup_marks-IsStrict, includes-dedup_marks, IsStrict-unique,
}

module _ (jcs : Serializer) where
  abbrev AllKeyed : List Keyed → Type 0
  AllKeyed = All (λ (k : Keyed). jcs_of jcs k.0 ≡ ok k.1)

  key_marks-AllKeyed : (ms : List Json) (ks : List Keyed) → key_marks jcs ms ≡ ok ks → AllKeyed ks
  unfolding key_marks
  key_marks-AllKeyed [] ks h = let e : [] ≡ ks = cc h in subst AllKeyed e tt
  key_marks-AllKeyed (m ∷ ms) ks h =
      let (s, keyed, h₁) = >>=-eq-ok (jcs_of jcs m) _ h in
      let (rest, run, h₂) = >>=-eq-ok (key_marks jcs ms) _ h₁ in
      let e : ((m, s) ∷ rest) ≡ ks = cc h₂ in
      subst AllKeyed e (keyed, key_marks-AllKeyed ms rest run)

  insert-AllKeyed :
      (m : Keyed) (ns : List Keyed)
      → jcs_of jcs m.0 ≡ ok m.1
      → AllKeyed ns
      → AllKeyed (insert_mark m ns)
  unfolding insert_mark
  insert-AllKeyed m [] h a = (h, tt)
  insert-AllKeyed m (n ∷ ns) h (k, a) =
      if_rule AllKeyed (less_units m.1 n.1) (m ∷ n ∷ ns) (n ∷ insert_mark m ns) (λ _. (h, (k, a)))
        (λ _. (k, insert-AllKeyed m ns h a))

  sort-AllKeyed :
      (sorted ms : List Keyed) → AllKeyed sorted → AllKeyed ms → AllKeyed (sort_marks sorted ms)
  unfolding sort_marks
  sort-AllKeyed sorted [] a b = a
  sort-AllKeyed sorted (m ∷ ms) a (h, b) =
      sort-AllKeyed (insert_mark m sorted) ms (insert-AllKeyed m sorted h a) b

  dedup-AllKeyed :
      (last : Option Units) (ms : List Keyed) → AllKeyed ms → AllKeyed (dedup_marks last ms)
  unfolding dedup_marks
  dedup-AllKeyed last [] a = tt
  dedup-AllKeyed last (m ∷ ms) (h, a) =
      if_rule AllKeyed (is_last last m.1) (dedup_marks last ms) (m ∷ dedup_marks (some m.1) ms)
        (λ _. dedup-AllKeyed last ms a) (λ _. (h, dedup-AllKeyed (some m.1) ms a))

  key_marks-keyed :
      (ks : List Keyed) → AllKeyed ks → key_marks jcs (map (λ (k : Keyed). k.0) ks) ≡ ok ks
  unfolding key_marks
  key_marks-keyed [] a = refl
  key_marks-keyed (k ∷ ks) (h, a) = rw (h, key_marks-keyed ks a) refl

  -- The marks that come out, beside their serializations.
  pub record IsWritten (given : List Keyed) (ms : List Json) : Type 0 where
    pub kept : List Keyed
    pub runs : sort_dedup_marks jcs ms ≡ ok (map (λ (k : Keyed). k.0) kept)
    pub written : key_marks jcs (map (λ (k : Keyed). k.0) kept) ≡ ok kept
    pub strict : IsStrict (texts kept)
    pub same : (s : Units) → includes (texts kept) s ≡ includes (texts given) s

  -- If every mark is serialized, the marks are sorted: the serializations of the result ascend strictly
  -- in the order of their code units, and they are the texts that occur among those of the marks.
  pub sort_dedup_marks-IsWritten :
      (ms : List Json) (given : List Keyed) → key_marks jcs ms ≡ ok given → IsWritten given ms
  unfolding sort_dedup_marks
  sort_dedup_marks-IsWritten ms given h =
      let sorted = sort_marks [] given in
      let kept = dedup_marks none sorted in
      record {
        kept = kept;
        runs = rw h refl;
        written = key_marks-keyed kept (
            dedup-AllKeyed none sorted (sort-AllKeyed [] given tt (key_marks-AllKeyed ms given h)));
        strict = dedup_marks-IsStrict sorted (sort-IsAscending [] given tt);
        same = λ s. includes-dedup_marks sorted s ∙ includes-sort [] given s;
      }

  abbrev pub written_as : Result CanonError (List Json) → Result CanonError (List Units)
  written_as r = do ms ← r; ks ← key_marks jcs ms; ok (texts ks)

  -- Two lists of marks with the same set of serializations, in whatever order and however often each
  -- occurs, come out as marks with the same serializations in the same order.
  pub sort_dedup_marks-same_written :
      (ms ns : List Json) (ks ls : List Keyed)
      → key_marks jcs ms ≡ ok ks
      → key_marks jcs ns ≡ ok ls
      → ((s : Units) → includes (texts ks) s ≡ includes (texts ls) s)
      → written_as (sort_dedup_marks jcs ms) ≡ written_as (sort_dedup_marks jcs ns)
  sort_dedup_marks-same_written ms ns ks ls h k e =
      let a = sort_dedup_marks-IsWritten ms ks h in
      let b = sort_dedup_marks-IsWritten ns ls k in
      let one =
        IsStrict-unique (texts a.kept) (texts b.kept) a.strict b.strict
          (λ s. a.same s ∙ e s ∙ sym (b.same s)) in
      rw (a.runs, b.runs, a.written, b.written, one) refl
