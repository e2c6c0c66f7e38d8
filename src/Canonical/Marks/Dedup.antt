-- ===== src/Canonical/Marks/Dedup.antt =====
-- The marks that are kept of sorted ones.
use cdx_file_format_spec.Prelude.{
  true, false, ◌||◌, List, [], ◌∷◌, none, some, Units, same_units, same_units_refl, same_units-eq,
  same_units-false_iff, less_units, includes, All, ◌≡◌, refl, sym, ap, ◌∙◌, subst, inl, inr,
  if_rule, Bool-cases, arith,
}
use cdx_file_format_spec.Prelude.Texts.Order.{less_units_irrefl, less_units_total, less_units_trans}
use cdx_file_format_spec.Canonical.Marks.{Keyed, dedup_marks}
use cdx_file_format_spec.Canonical.Marks.Order.{texts, IsAscending, IsStrict}

abbrev AllOver : Units → List Units → Type 0
AllOver s = All (λ t. less_units s t ≡ true)

AllOver-less : (s t : Units) (us : List Units) → less_units s t ≡ true → AllOver t us → AllOver s us
AllOver-less s t [] h a = tt
AllOver-less s t (u ∷ us) h (k, a) = (less_units_trans s t u h k, AllOver-less s t us h a)

over : (s t : Units) → less_units t s ≡ false → same_units s t ≡ false → less_units s t ≡ true
over s t h d = elim (Bool-cases (less_units s t)) [
  | inl l ↦ l
  | inr l ↦ absurd ((same_units-false_iff s t).0 d (less_units_total s t l h))
]

dedup-IsStrict :
    (s : Units) (ms : List Keyed)
    → All (λ t. less_units t s ≡ false) (texts ms)
    → IsAscending (texts ms)
    → AllOver s (texts (dedup_marks (some s) ms)) × IsStrict (texts (dedup_marks (some s) ms))
unfolding dedup_marks
dedup-IsStrict s [] k a = (tt, tt)
dedup-IsStrict s (m ∷ ms) (k, ks) (b, a) =
    if_rule (λ l. AllOver s (texts l) × IsStrict (texts l)) (same_units s m.1)
      (dedup_marks (some s) ms) (m ∷ dedup_marks (some m.1) ms) (λ _. dedup-IsStrict s ms ks a)
      (λ d.
        let less = over s m.1 k d in
        let (high, strict) = dedup-IsStrict m.1 ms b a in
        ((less, AllOver-less s m.1 _ less high), (high, strict)))

pub dedup_marks-IsStrict :
    (ms : List Keyed) → IsAscending (texts ms) → IsStrict (texts (dedup_marks none ms))
unfolding dedup_marks
dedup_marks-IsStrict [] a = tt
dedup_marks-IsStrict (m ∷ ms) (b, a) = dedup-IsStrict m.1 ms b a

includes-after :
    (s : Units) (ms : List Keyed) (t : Units)
    → (same_units s t || includes (texts (dedup_marks (some s) ms)) t)
      ≡ (same_units s t || includes (texts ms) t)
unfolding dedup_marks
includes-after s [] t = refl
includes-after s (m ∷ ms) t =
    if_rule
      (λ l.
        (same_units s t || includes (texts l) t) ≡ (same_units s t || includes (texts (m ∷ ms)) t))
      (same_units s m.1) (dedup_marks (some s) ms) (m ∷ dedup_marks (some m.1) ms)
      (λ e.
        let same : s ≡ m.1 = same_units-eq s m.1 e in
        ground (arith, includes-after s ms t, ap (λ r. same_units r t) same))
      (λ _. ground (arith, includes-after m.1 ms t))

pub includes-dedup_marks :
    (ms : List Keyed) (t : Units) → includes (texts (dedup_marks none ms)) t ≡ includes (texts ms) t
unfolding dedup_marks
includes-dedup_marks [] t = refl
includes-dedup_marks (m ∷ ms) t = ground (arith, includes-after m.1 ms t)

-- A text below a list is not in it.
absent : (s : Units) (us : List Units) → AllOver s us → includes us s ≡ false
absent s [] a = refl
absent s (u ∷ us) (h, a) =
    let differ : same_units u s ≡ false = (same_units-false_iff u s).1 (λ e.
      let l : less_units s u ≡ false =
        subst (λ r. less_units s r ≡ false) (sym e) (less_units_irrefl s) in
      cc) in
    ground (arith, absent s us a)

not_before :
    (s t : Units) (ss ts : List Units)
    → AllOver t ts
    → includes (s ∷ ss) s ≡ includes (t ∷ ts) s
    → less_units s t ≡ false
not_before s t ss ts a h = elim (Bool-cases (less_units s t)) [
  | inl l ↦
      let no = absent s (t ∷ ts) (l, AllOver-less s t ts l a) in
      ground (arith, no, same_units_refl s)
  | inr l ↦ l
]

-- Two strictly ascending lists of the same texts are one list.
pub IsStrict-unique :
    (ss ts : List Units)
    → IsStrict ss
    → IsStrict ts
    → ((u : Units) → includes ss u ≡ includes ts u)
    → ss ≡ ts
IsStrict-unique [] [] a b h = refl
IsStrict-unique [] (t ∷ ts) a b h = ground (arith, h t, same_units_refl t)
IsStrict-unique (s ∷ ss) [] a b h = ground (arith, h s, same_units_refl s)
IsStrict-unique (s ∷ ss) (t ∷ ts) (p, a) (q, b) h =
    let heads : s ≡ t =
      less_units_total s t (not_before s t ss ts q (h s)) (not_before t s ts ss p (sym (h t))) in
    let tails : ss ≡ ts = IsStrict-unique ss ts a b (λ u. elim (Bool-cases (same_units s u)) [
      | inl e ↦
          let at_s : s ≡ u = same_units-eq s u e in
          subst (λ v. includes ss v ≡ false) at_s (absent s ss p)
          ∙ sym (subst (λ v. includes ts v ≡ false) (sym heads ∙ at_s) (absent t ts q))
      | inr e ↦
          let e' : same_units t u ≡ false = subst (λ v. same_units v u ≡ false) heads e in
          ground (arith, h u)
    ]) in
    cc
