-- ===== src/Canonical/Marks/Order.antt =====
-- The sort of the marks, and the order of their serializations.
use cdx_file_format_spec.Prelude.{
  true, false, ◌||◌, List, [], ◌∷◌, Units, same_units, less_units, includes, All, ◌≡◌, ◌∙◌, inl,
  inr, if_rule, Bool-cases, arith,
}
use cdx_file_format_spec.Prelude.Texts.Order.{less_units_asym, less_units_trans}
use cdx_file_format_spec.Canonical.Marks.{Keyed, insert_mark, sort_marks}

-- The serializations.
abbrev pub texts : List Keyed → List Units
texts [] = []
texts (m ∷ ms) = m.1 ∷ texts ms

-- No text is greater than a later one, and each is less than the later ones.
abbrev pub IsAscending : List Units → Type 0
IsAscending [] = Unit
IsAscending (s ∷ ss) = All (λ t. less_units t s ≡ false) ss × IsAscending ss

abbrev pub IsStrict : List Units → Type 0
IsStrict [] = Unit
IsStrict (s ∷ ss) = All (λ t. less_units s t ≡ true) ss × IsStrict ss

includes-insert :
    (m : Keyed) (ns : List Keyed) (s : Units)
    → includes (texts (insert_mark m ns)) s ≡ (same_units m.1 s || includes (texts ns) s)
unfolding insert_mark
includes-insert m [] s = ground arith
includes-insert m (n ∷ ns) s =
    if_rule (λ l. includes (texts l) s ≡ (same_units m.1 s || includes (texts (n ∷ ns)) s))
      (less_units m.1 n.1) (m ∷ n ∷ ns) (n ∷ insert_mark m ns) (λ _. ground arith)
      (λ _. ground (arith, includes-insert m ns s))

pub includes-sort :
    (sorted ms : List Keyed) (s : Units)
    → includes (texts (sort_marks sorted ms)) s
      ≡ (includes (texts sorted) s || includes (texts ms) s)
unfolding sort_marks
includes-sort sorted [] s = ground arith
includes-sort sorted (m ∷ ms) s =
    includes-sort (insert_mark m sorted) ms s ∙ ground (arith, includes-insert m sorted s)

-- What is above a text.
abbrev AllAbove : Units → List Keyed → Type 0
AllAbove s ms = All (λ t. less_units t s ≡ false) (texts ms)

insert-AllAbove :
    (s : Units) (m : Keyed) (ns : List Keyed)
    → less_units m.1 s ≡ false
    → AllAbove s ns
    → AllAbove s (insert_mark m ns)
unfolding insert_mark
insert-AllAbove s m [] h a = (h, tt)
insert-AllAbove s m (n ∷ ns) h (k, a) =
    if_rule (AllAbove s) (less_units m.1 n.1) (m ∷ n ∷ ns) (n ∷ insert_mark m ns) (λ _. (h, (k, a)))
      (λ _. (k, insert-AllAbove s m ns h a))

-- What is not less than a text is not less than what is less than that.
above_trans :
    (s t u : Units) → less_units s t ≡ true → less_units u t ≡ false → less_units u s ≡ false
above_trans s t u h k = elim (Bool-cases (less_units u s)) [
  | inl l ↦ ground (arith, less_units_trans u s t l h)
  | inr l ↦ l
]

AllAbove-less :
    (s t : Units) (ms : List Keyed) → less_units s t ≡ true → AllAbove t ms → AllAbove s ms
AllAbove-less s t [] h a = tt
AllAbove-less s t (m ∷ ms) h (k, a) = (above_trans s t m.1 h k, AllAbove-less s t ms h a)

insert-IsAscending :
    (m : Keyed) (ns : List Keyed) → IsAscending (texts ns) → IsAscending (texts (insert_mark m ns))
unfolding insert_mark
insert-IsAscending m [] a = (tt, tt)
insert-IsAscending m (n ∷ ns) (b, a) =
    if_rule (λ l. IsAscending (texts l)) (less_units m.1 n.1) (m ∷ n ∷ ns) (n ∷ insert_mark m ns)
      (λ h. ((less_units_asym m.1 n.1 h, AllAbove-less m.1 n.1 ns h b), (b, a)))
      (λ h. (insert-AllAbove n.1 m ns h b, insert-IsAscending m ns a))

pub sort-IsAscending :
    (sorted ms : List Keyed)
    → IsAscending (texts sorted)
    → IsAscending (texts (sort_marks sorted ms))
unfolding sort_marks
sort-IsAscending sorted [] a = a
sort-IsAscending sorted (m ∷ ms) a =
    sort-IsAscending (insert_mark m sorted) ms (insert-IsAscending m sorted a)
