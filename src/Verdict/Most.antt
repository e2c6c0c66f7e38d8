-- ===== src/Verdict/Most.antt =====
-- The verdict of verdict.ts is the most severe disposition of the codes, in whatever order and
-- however often they were reported.
use cdx_file_format_spec.Prelude.{
  ◌≤◌, String, ◌≡◌, refl, sym, subst, ◌↔◌, ◌⊎◌, inl, inr, true, List, [], ◌∷◌, ◌++◌, All, Any,
  str_eq, str_eq_iff, Bool-cases, ltb, leb, if◌then◌else◌, Option, some, arith, if_rule,
}
use cdx_file_format_spec.Verdict.{
  Disposition, ignore, rank, worst_of, max_disposition, VerdictFinding, seen_has, disposition_of,
  given, finding_of, collect, resolve_verdict,
}

worst_of_iff :
    (t w : Disposition) (ds : List Disposition)
    → (rank t ≤ rank (worst_of w ds)) ↔ (rank t ≤ rank w) ⊎ Any (λ d. rank t ≤ rank d) ds
unfolding worst_of
worst_of_iff t w [] = ground arith
worst_of_iff t w (d ∷ ds) =
    ground (arith, worst_of_iff t (if ltb (rank w) (rank d) then d else w) ds)

-- A finding at least as severe as t.
abbrev pub Reaches : Disposition → Option Disposition → Type 0
Reaches t o = (d : Disposition) × (o ≡ some d) × (rank t ≤ rank d)

Reaches-given :
    (t : Disposition) (fs : List VerdictFinding)
    → Any (λ d. rank t ≤ rank d) (given fs) ↔ Any (λ f. Reaches t f.disposition) fs
unfolding given
Reaches-given t [] = (λ a. a, λ a. a)
Reaches-given t (f ∷ fs) = ground (arith, Reaches-given t fs)

Any-append :
    (P : VerdictFinding → Type 0) (xs : List VerdictFinding) (y : VerdictFinding)
    → Any P (xs ++ y ∷ []) ↔ Any P xs ⊎ P y
Any-append P [] y =
    (λ a. inr (elim a [ inl p ↦ p | inr z ↦ absurd z ]), elim [ inl z ↦ absurd z | inr p ↦ inl p ])
Any-append P (x ∷ xs) y = (
  elim [
    | inl p ↦ inl (inl p)
    | inr a ↦ elim ((Any-append P xs y).0 a) [ inl b ↦ inl (inr b) | inr q ↦ inr q ]
  ],
  elim [
    | inl a ↦ elim a [ inl p ↦ inl p | inr b ↦ inr ((Any-append P xs y).1 (inl b)) ]
    | inr q ↦ inr ((Any-append P xs y).1 (inr q))
  ],
)

All-seen :
    (P : String → Type 0) (c : String) (seen : List String)
    → All P seen
    → seen_has c seen ≡ true
    → P c
unfolding seen_has
All-seen P c [] h e = cc
All-seen P c (x ∷ xs) h e = elim (Bool-cases (str_eq x c)) [
  | inl t ↦ subst P ((str_eq_iff x c).0 t) h.0
  | inr f ↦ All-seen P c xs h.1 (rw f at e)
]

All-map {ℓ} :
    {A : Type ℓ} (P Q : A → Type 0) (xs : List A) → ((x : A) → P x → Q x) → All P xs → All Q xs
All-map P Q [] f h = h
All-map P Q (x ∷ xs) f h = (f x h.0, All-map P Q xs f h.1)

rank_ignore : (t : Disposition) → 1 ≤ rank t → rank t ≤ rank ignore → ⊥
unfolding rank
rank_ignore t h k = omega arith

module _ (vocab : String → Option String) (t : Disposition) where
  abbrev Severe : String → Type 0
  Severe c = Reaches t (disposition_of (vocab c))

  abbrev Found : List VerdictFinding → Type 0
  Found fs = Any (λ f. Reaches t f.disposition) fs

  -- A code that was seen before adds nothing to what is found.
  seen_again :
      (seen : List String) (fs gs : List VerdictFinding) (c : String) (cs : List String)
      → All (λ x. Severe x → Found fs) seen
      → seen_has c seen ≡ true
      → Found gs ↔ Found fs ⊎ Any Severe cs
      → Found gs ↔ Found fs ⊎ Any Severe (c ∷ cs)
  seen_again seen fs gs c cs h old ih = (
    λ a. elim (ih.0 a) [ inl b ↦ inl b | inr b ↦ inr (inr b) ],
    elim [
      | inl a ↦ ih.1 (inl a)
      | inr a ↦ elim a [
        | inl s ↦ ih.1 (inl (All-seen (λ x. Severe x → Found fs) c seen h old s))
        | inr b ↦ ih.1 (inr b)
      ]
    ],
  )

  -- A new code adds its finding.
  seen_first :
      (fs gs : List VerdictFinding) (c : String) (cs : List String)
      → Found gs ↔ Found (fs ++ finding_of vocab c ∷ []) ⊎ Any Severe cs
      → Found gs ↔ Found fs ⊎ Any Severe (c ∷ cs)
  seen_first fs gs c cs ih =
      let snoc = Any-append (λ f. Reaches t f.disposition) fs (finding_of vocab c) in
      (
        λ a. elim (ih.0 a) [
          | inl b ↦ elim (snoc.0 b) [ inl o ↦ inl o | inr n ↦ inr (inl n) ]
          | inr b ↦ inr (inr b)
        ],
        elim [
          | inl a ↦ ih.1 (inl (snoc.1 (inl a)))
          | inr a ↦ elim a [ inl n ↦ ih.1 (inl (snoc.1 (inr n))) | inr b ↦ ih.1 (inr b) ]
        ],
      )

  collect_iff :
      (seen : List String) (fs : List VerdictFinding) (cs : List String)
      → All (λ c. Severe c → Found fs) seen
      → Found (collect vocab seen fs cs) ↔ Found fs ⊎ Any Severe cs
  unfolding collect
  collect_iff seen fs [] h = (λ a. inl a, elim [ inl a ↦ a | inr z ↦ absurd z ])
  collect_iff seen fs (c ∷ cs) h =
      let snoc = Any-append (λ f. Reaches t f.disposition) fs (finding_of vocab c) in
      if_rule (λ l. Found l ↔ Found fs ⊎ Any Severe (c ∷ cs)) (seen_has c seen) _ _
        (λ old. seen_again seen fs (collect vocab seen fs cs) c cs h old (collect_iff seen fs cs h))
        λ _. seen_first fs (collect vocab (c ∷ seen) (fs ++ finding_of vocab c ∷ []) cs) c cs (
          collect_iff (c ∷ seen) (fs ++ finding_of vocab c ∷ []) cs (
            λ s. snoc.1 (inr s),
            All-map (λ x. Severe x → Found fs)
                (λ x. Severe x → Found (fs ++ finding_of vocab c ∷ [])) seen
                (λ x g s. snoc.1 (inl (g s))) h,
          ))

  -- The document's disposition is the most severe one: above `ignore`, it is at least as severe as t
  -- exactly if some reported code has a disposition in the vocabulary that is.
  pub resolve_verdict_iff :
      (codes : List String)
      → 1 ≤ rank t
      → (rank t ≤ rank (resolve_verdict vocab codes).document_disposition)
        ↔ Any (λ c. Reaches t (disposition_of (vocab c))) codes
  unfolding resolve_verdict max_disposition
  resolve_verdict_iff codes above =
      let most = worst_of_iff t ignore (given (collect vocab [] [] codes)) in
      let all_found = collect_iff [] [] codes tt in
      let kept = Reaches-given t (collect vocab [] [] codes) in
      (
        λ h. elim (most.0 h) [
          | inl z ↦ absurd (rank_ignore t above z)
          | inr a ↦ elim (all_found.0 (kept.0 a)) [ inl z ↦ absurd z | inr b ↦ b ]
        ],
        λ a. most.1 (inr (kept.1 (all_found.1 (inr a)))),
      )

rank_antisym : (a b : Disposition) → rank a ≤ rank b → rank b ≤ rank a → a ≡ b
unfolding rank
rank_antisym a b h k = ground arith

Any-witness :
    (P : String → Type 0) (xs : List String) → Any P xs → (c : String) × P c × Any (λ x. x ≡ c) xs
Any-witness P [] a = absurd a
Any-witness P (x ∷ xs) (inl p) = (x, p, inl refl)
Any-witness P (x ∷ xs) (inr a) = let (c, p, m) = Any-witness P xs a in (c, p, inr m)

Any-member :
    (P : String → Type 0) (c : String) (xs : List String) → P c → Any (λ x. x ≡ c) xs → Any P xs
Any-member P c [] p a = absurd a
Any-member P c (x ∷ xs) p (inl e) = inl (subst P (sym e) p)
Any-member P c (x ∷ xs) p (inr a) = inr (Any-member P c xs p a)

resolve_verdict_le :
    (vocab : String → Option String) (codes codes' : List String)
    → ((c : String) → Any (λ x. x ≡ c) codes → Any (λ x. x ≡ c) codes')
    → rank (resolve_verdict vocab codes).document_disposition
      ≤ rank (resolve_verdict vocab codes').document_disposition
resolve_verdict_le vocab codes codes' sub =
    let t = (resolve_verdict vocab codes).document_disposition in
    elim (Bool-cases (leb 1 (rank t))) [
      | inr z ↦ let none_bad : rank t ≡ 0 = ground arith in omega arith
      | inl above ↦
          let h : 1 ≤ rank t = ground arith in
          let reported = (resolve_verdict_iff vocab t codes h).0 (omega arith) in
          let (c, severe, member) =
            Any-witness (λ c. Reaches t (disposition_of (vocab c))) codes reported in
          (resolve_verdict_iff vocab t codes' h).1
            (Any-member (λ c. Reaches t (disposition_of (vocab c))) c codes' severe (sub c member))
    ]

-- Only the set of the codes counts: two reports with the same codes, in any order and any number,
-- have the same document disposition.
pub resolve_verdict_same :
    (vocab : String → Option String) (codes codes' : List String)
    → ((c : String) → Any (λ x. x ≡ c) codes ↔ Any (λ x. x ≡ c) codes')
    → (resolve_verdict vocab codes).document_disposition
      ≡ (resolve_verdict vocab codes').document_disposition
resolve_verdict_same vocab codes codes' same =
    rank_antisym (resolve_verdict vocab codes).document_disposition
      (resolve_verdict vocab codes').document_disposition
      (resolve_verdict_le vocab codes codes' (λ c. (same c).0))
      (resolve_verdict_le vocab codes' codes (λ c. (same c).1))
