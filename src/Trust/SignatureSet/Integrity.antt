-- ===== src/Trust/SignatureSet/Integrity.antt =====
-- What signature-set.ts decides: which entries are well formed, and which are missing.
use cdx_file_format_spec.Prelude.{
  String, ◌≡◌, refl, ◌≢◌, ◌↔◌, ◌⊎◌, inl, inr, true, List, [], ◌∷◌, ◌++◌, arith, eq_iff,
  if◌then◌else◌, any, All, Any, any-Any, ok, >>=-eq-ok, Bool-cases, subst, sym,
}
use cdx_file_format_spec.Trust.SignatureState.{SignatureState, valid, is_valid_state}
use cdx_file_format_spec.Trust.SignatureSet.{
  FieldValue, undefined, other, text, RequiredSigner, CredentialPath, x509, key_id, webauthn,
  PresentSignerVerdict, RequiredSignersResult, Matcher, match_kind, kinds, required_signer_matcher,
  same_path, satisfies, missing_loop, is_empty, evaluate_required_signers,
}

-- The identity kind that names a credential path.
abbrev pub kind_name : CredentialPath → String
kind_name x509 = "x5tS256"
kind_name key_id = "did"
kind_name webauthn = "jkt"

-- An object with one key.
one_kind :
    (k : String) (v : FieldValue) (m : Matcher)
    → (required_signer_matcher ((k, v) ∷ []) ≡ ok m)
      ↔ (m.identity ≢ "") × (k ≡ kind_name m.path) × (v ≡ text m.identity)
unfolding required_signer_matcher
one_kind k undefined m = ground arith
one_kind k other m = ground (arith, eq_iff k "did", eq_iff k "x5tS256", eq_iff k "jkt")
one_kind k (text s) m = ground (
  arith,
  eq_iff k "did",
  eq_iff k "x5tS256",
  eq_iff k "jkt",
  eq_iff "did" "x5tS256",
  eq_iff "did" "jkt",
  eq_iff "x5tS256" "jkt",
  eq_iff s "",
)

-- An object with more keys has no matcher.
match_kind-two :
    (e f : String × FieldValue) (r : RequiredSigner) (ks : List (String × CredentialPath))
    (m : Matcher)
    → match_kind (e ∷ f ∷ r) ks ≢ ok m
match_kind-two e f r [] m h = cc
match_kind-two e f r (k ∷ []) m h = ground arith
match_kind-two e f r (k ∷ l ∷ ks) m h = cc

two_keys :
    {e f g : String × FieldValue} {r : RequiredSigner}
    → ◌≢◌ {A = RequiredSigner} (e ∷ f ∷ r) (g ∷ [])
two_keys h = cc

-- An entry is accepted exactly if it is an object with one single key, one of the three identity
-- kinds, whose value is a text that is not empty; the matcher is then the path of that kind, and no
-- other, with that text.
pub matcher_iff :
    (r : RequiredSigner) (m : Matcher)
    → (required_signer_matcher r ≡ ok m)
      ↔ (m.identity ≢ "") × (r ≡ (kind_name m.path, text m.identity) ∷ [])
unfolding required_signer_matcher
matcher_iff [] m = ground arith
matcher_iff ((k, v) ∷ []) m = ground (arith, one_kind k v m)
matcher_iff ((k, v) ∷ e ∷ r) m = (
  λ h. absurd (match_kind-two (k, v) e r (kinds ((k, v) ∷ e ∷ r)) m h),
  λ h. absurd (two_keys h.1),
)

-- A present signature that meets a matcher.
pub record Meets (m : Matcher) (p : PresentSignerVerdict) : Type 0 where
  pub path : p.path ≡ m.path
  pub identity : p.identity ≡ m.identity
  pub state : p.state ≡ valid

same_path_iff : (p q : CredentialPath) → (same_path p q ≡ true) ↔ (p ≡ q)
same_path_iff p q = ground arith

is_valid_state_iff : (s : SignatureState) → (is_valid_state s ≡ true) ↔ (s ≡ valid)
is_valid_state_iff s = ground arith

satisfies_iff : (m : Matcher) (p : PresentSignerVerdict) → (satisfies m p ≡ true) ↔ Meets m p
unfolding satisfies
satisfies_iff m p =
    ground
      (arith, same_path_iff p.path m.path, eq_iff p.identity m.identity, is_valid_state_iff p.state)

-- The entry is well formed, and some present signature meets it.
abbrev pub IsMet : List PresentSignerVerdict → RequiredSigner → Type 0
IsMet present e = (m : Matcher) × (required_signer_matcher e ≡ ok m) × Any (Meets m) present

-- The entry is an object with one single key, one of the three identity kinds, whose value is a text
-- that is not empty.
abbrev pub IsAccepted : RequiredSigner → Type 0
IsAccepted e =
    (path : CredentialPath) × (identity : String) × (identity ≢ "")
    × (e ≡ (kind_name path, text identity) ∷ [])

has_matcher_iff :
    (e : RequiredSigner) → ((m : Matcher) × (required_signer_matcher e ≡ ok m)) ↔ IsAccepted e
has_matcher_iff e = (
  λ (h : (m : Matcher) × (required_signer_matcher e ≡ ok m)).
      let (some_text, shape) = (matcher_iff e h.0).0 h.1 in
      (h.0.path, h.0.identity, some_text, shape),
  λ (h : IsAccepted e).
      let m : Matcher = record { path = h.0; identity = h.1 } in
      (m, (matcher_iff e m).1 (h.2, h.3)),
)

any-satisfies_iff :
    (m : Matcher) (present : List PresentSignerVerdict)
    → (any (satisfies m) present ≡ true) ↔ Any (Meets m) present
any-satisfies_iff m present = any-Any (satisfies m) (Meets m) present (satisfies_iff m)

IsMet-iff :
    (present : List PresentSignerVerdict) (e : RequiredSigner) (m : Matcher)
    → required_signer_matcher e ≡ ok m
    → (any (satisfies m) present ≡ true) ↔ IsMet present e
IsMet-iff present e m h = (
  λ a. (m, h, (any-satisfies_iff m present).0 a),
  λ a. (any-satisfies_iff m present).1 (subst (λ x. Any (Meets x) present) (cc (h, a.1)) a.2),
)

-- One round of the loop, whose entry is met or is reported.
loop_round :
    (present : List PresentSignerVerdict) (acc : List RequiredSigner) (e : RequiredSigner)
    (es ms : List RequiredSigner)
    → missing_loop present acc (e ∷ es) ≡ ok ms
    → (IsMet present e × (missing_loop present acc es ≡ ok ms))
      ⊎ ((¬ IsMet present e) × (missing_loop present (acc ++ e ∷ []) es ≡ ok ms))
unfolding missing_loop
loop_round present acc e es ms h =
    let (m, em, rest) = >>=-eq-ok (required_signer_matcher e) _ h in
    elim (Bool-cases (any (satisfies m) present)) [
      | inl t ↦ inl ((IsMet-iff present e m em).0 t, rw t at rest)
      | inr f ↦ inr (λ a. cc (f, (IsMet-iff present e m em).1 a), rw f at rest)
    ]

snoc-ne-nil {ℓ} : {A : Type ℓ} (xs : List A) (x : A) → xs ++ x ∷ [] ≢ []
snoc-ne-nil [] x h = cc
snoc-ne-nil (y ∷ xs) x h = cc

loop-IsMet :
    (present : List PresentSignerVerdict) (acc es ms : List RequiredSigner)
    → missing_loop present acc es ≡ ok ms
    → (ms ≡ []) ↔ (acc ≡ []) × All (IsMet present) es
unfolding missing_loop
loop-IsMet present acc [] ms h = (λ e. (cc, tt), λ e. cc (h, e.0))
loop-IsMet present acc (e ∷ es) ms h = elim (loop_round present acc e es ms h) [
  | inl (met, rest) ↦
      let ih = loop-IsMet present acc es ms rest in
      (λ z. ((ih.0 z).0, (met, (ih.0 z).1)), λ z. ih.1 (z.0, z.1.1))
  | inr (unmet, rest) ↦
      let ih = loop-IsMet present (acc ++ e ∷ []) es ms rest in
      (λ z. absurd (snoc-ne-nil acc e (ih.0 z).0), λ z. absurd (unmet z.1.0))
]

Any-snoc :
    (x e : RequiredSigner) (acc : List RequiredSigner)
    → Any (λ y. y ≡ x) (acc ++ e ∷ []) ↔ Any (λ y. y ≡ x) acc ⊎ (e ≡ x)
Any-snoc x e [] = ground arith
Any-snoc x e (a ∷ acc) = ground (arith, Any-snoc x e acc)

loop_missing :
    (present : List PresentSignerVerdict) (x : RequiredSigner) (acc es ms : List RequiredSigner)
    → missing_loop present acc es ≡ ok ms
    → Any (λ y. y ≡ x) ms ↔ Any (λ y. y ≡ x) acc ⊎ (Any (λ y. y ≡ x) es × ¬ IsMet present x)
unfolding missing_loop
loop_missing present x acc [] ms h = (
  λ a. inl (subst (Any (λ y. y ≡ x)) (cc h) a),
  elim [ inl a ↦ subst (Any (λ y. y ≡ x)) (cc h) a | inr z ↦ absurd z.0 ],
)
loop_missing present x acc (e ∷ es) ms h = elim (loop_round present acc e es ms h) [
  | inl (met, rest) ↦
      let ih = loop_missing present x acc es ms rest in
      (
        λ a. elim (ih.0 a) [ inl b ↦ inl b | inr c ↦ inr (inr c.0, c.1) ],
        elim [
          | inl b ↦ ih.1 (inl b)
          | inr c ↦ elim c.0 [
            | inl p ↦ absurd (c.1 (subst (IsMet present) p met))
            | inr b ↦ ih.1 (inr (b, c.1))
          ]
        ],
      )
  | inr (unmet, rest) ↦
      let ih = loop_missing present x (acc ++ e ∷ []) es ms rest in
      (
        λ a. elim (ih.0 a) [
          | inl b ↦ elim ((Any-snoc x e acc).0 b) [
            | inl b' ↦ inl b'
            | inr p ↦ inr (inl p, subst (λ y. ¬ IsMet present y) p unmet)
          ]
          | inr c ↦ inr (inr c.0, c.1)
        ],
        elim [
          | inl b ↦ ih.1 (inl ((Any-snoc x e acc).1 (inl b)))
          | inr c ↦ elim c.0 [
            | inl p ↦ ih.1 (inl ((Any-snoc x e acc).1 (inr p)))
            | inr b ↦ ih.1 (inr (b, c.1))
          ]
        ],
      )
]

is_empty_iff {ℓ} : {A : Type ℓ} (xs : List A) → (is_empty xs ≡ true) ↔ (xs ≡ [])
is_empty_iff [] = (λ h. refl, λ h. refl)
is_empty_iff (x ∷ xs) = (λ h. cc, λ h. cc)

-- If the evaluation returns, the set is satisfied exactly if every required entry is met by a
-- present signature on its own path, with its identity and in state `valid`.
pub satisfied_iff :
    (present : List PresentSignerVerdict) (required : List RequiredSigner)
    (r : RequiredSignersResult)
    → evaluate_required_signers present required ≡ ok r
    → (r.satisfied ≡ true) ↔ All (IsMet present) required
unfolding evaluate_required_signers
satisfied_iff present required r h =
    let (ms, loop, result) = >>=-eq-ok (missing_loop present [] required) _ h in
    let ih = loop-IsMet present [] required ms loop in
    (
      λ t. (ih.0 ((is_empty_iff ms).0 (cc (t, result)))).1,
      λ a. cc (result, (is_empty_iff ms).1 (ih.1 (refl, a))),
    )

-- A reported entry is a required one that no present signature meets, and each of these is reported.
pub missing_iff :
    (present : List PresentSignerVerdict) (required : List RequiredSigner)
    (r : RequiredSignersResult) (e : RequiredSigner)
    → evaluate_required_signers present required ≡ ok r
    → Any (λ x. x ≡ e) r.missing ↔ Any (λ x. x ≡ e) required × ¬ IsMet present e
unfolding evaluate_required_signers
missing_iff present required r e h =
    let (ms, loop, result) = >>=-eq-ok (missing_loop present [] required) _ h in
    let ih = loop_missing present e [] required ms loop in
    let same : ms ≡ r.missing = cc result in
    (
      λ a. elim (ih.0 (subst (Any (λ x. x ≡ e)) (sym same) a)) [ inl b ↦ absurd b | inr c ↦ c ],
      λ a. subst (Any (λ x. x ≡ e)) same (ih.1 (inr a)),
    )

loop_iff :
    (present : List PresentSignerVerdict) (acc es : List RequiredSigner)
    → ((ms : List RequiredSigner) × (missing_loop present acc es ≡ ok ms)) ↔ All IsAccepted es
unfolding missing_loop
loop_iff present acc [] = (λ _. tt, λ _. (acc, refl))
loop_iff present acc (e ∷ es) =
    let entry = has_matcher_iff e in
    (
      λ (h : (ms : List RequiredSigner) × (missing_loop present acc (e ∷ es) ≡ ok ms)).
          let (m, found, h₁) = >>=-eq-ok (required_signer_matcher e) _ h.1 in
          (
            entry.0 (m, found),
            (loop_iff present (if any (satisfies m) present then acc else acc ++ e ∷ []) es).0
                (h.0, h₁),
          ),
      λ (h : IsAccepted e × All IsAccepted es).
          let (m, found) = entry.1 h.0 in
          let (ms, rest) =
            (loop_iff present (if any (satisfies m) present then acc else acc ++ e ∷ []) es).1
              h.1 in
          (ms, rw found rest),
    )

-- Whatever is present, the evaluation returns exactly if every entry of the required set is an object
-- with one single key, one of the three identity kinds, whose value is a text that is not empty.
pub evaluate_required_signers_returns_iff :
    (present : List PresentSignerVerdict) (required : List RequiredSigner)
    → ((r : RequiredSignersResult) × (evaluate_required_signers present required ≡ ok r))
      ↔ All IsAccepted required
unfolding evaluate_required_signers
evaluate_required_signers_returns_iff present required =
    let loop = loop_iff present [] required in
    (
      λ (h : (r : RequiredSignersResult) × (evaluate_required_signers present required ≡ ok r)).
          let (ms, ran, _) = >>=-eq-ok (missing_loop present [] required) _ h.1 in loop.0 (ms, ran),
      λ (h : All IsAccepted required).
          let (ms, ran) = loop.1 h in
          (record { satisfied = is_empty ms; missing = ms }, rw ran refl),
    )
