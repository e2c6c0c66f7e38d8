-- ===== src/Lineage/Chain.antt =====
-- What a verified lineage is, apart from any walk: every ancestor resolves, no advisory chain
-- contradicts its parent's, and the depth is the longest way to a root.
use cdx_file_format_spec.Prelude.{
  ℕ, ◌+◌, ◌<◌, ◌≤◌, String, ◌≡◌, ap, ◌∙◌, subst, inl, inr, false, List, [], ◌∷◌, Any, Option, some,
  arith,
}
use Prim.Native.Nat.{max}
use cdx_file_format_spec.Lineage.{LineageDoc, parents_of, to_list, contradicts}

module _ (resolve : String → Option LineageDoc) where
  mutual
    -- A verified document and its depth.
    pub data Chain : String → ℕ → Type 0 where
      root :
          {id : String} {n : ℕ} (doc : LineageDoc)
          → resolve id ≡ some doc
          → parents_of doc ≡ []
          → to_list doc.ancestors ≡ []
          → n ≡ 1
          → Chain id n
      node :
          {id : String} {n : ℕ} (doc : LineageDoc) (p : String) (ps : List String) (k : ℕ)
          → resolve id ≡ some doc
          → parents_of doc ≡ p ∷ ps
          → contradicts resolve doc ≡ false
          → Chains (p ∷ ps) k
          → n ≡ k + 1
          → Chain id n

    -- All documents of a list, and the greatest depth among them.
    pub data Chains : List String → ℕ → Type 0 where
      nil : {n : ℕ} → n ≡ 0 → Chains [] n
      cons :
          {p : String} {ps : List String} {n : ℕ} (m k : ℕ)
          → Chain p m
          → Chains ps k
          → n ≡ max m k
          → Chains (p ∷ ps) n

  -- One document resolves and names the other as a parent.
  pub record IsParent (id p : String) : Type 0 where
    pub doc : LineageDoc
    pub resolved : resolve id ≡ some doc
    pub named : Any (λ x. x ≡ p) (parents_of doc)

  -- One or more steps to a parent.
  pub data IsAncestor : String → String → Type 0 where
    parent : {id p : String} → IsParent id p → IsAncestor id p
    further : {id p q : String} → IsParent id p → IsAncestor p q → IsAncestor id q

  -- A verified document has one depth.
  mutual
    pub Chain-depth : {id : String} {m n : ℕ} → Chain id m → Chain id n → m ≡ n
    Chain-depth (root doc r e a h) (root doc' r' e' a' h') = omega arith
    Chain-depth (root doc r e a h) (node doc' p ps k r' e' c cs h') = cc
    Chain-depth (node doc p ps k r e c cs h) (root doc' r' e' a' h') = cc
    Chain-depth {n = n} (node doc p ps k r e c cs h) (node doc' p' ps' k' r' e' c' cs' h') =
        let same : p' ∷ ps' ≡ p ∷ ps = cc (r, r', e, e') in
        omega (arith, Chains-depth cs (subst (λ l. Chains l k') same cs'))

    pub Chains-depth : {ps : List String} {m n : ℕ} → Chains ps m → Chains ps n → m ≡ n
    Chains-depth (nil h) (nil h') = omega arith
    Chains-depth (cons m k c cs h) (cons m' k' c' cs' h') =
        omega (arith, Chain-depth c c', Chains-depth cs cs')

  Chains-member :
      {ps : List String} {k : ℕ} (p : String)
      → Chains ps k
      → Any (λ x. x ≡ p) ps
      → (m : ℕ) × Chain p m × (m ≤ k)
  Chains-member p (nil h) a = absurd a
  Chains-member p (cons {p = q} m k c cs h) (inl e) = (m, subst (λ x. Chain x m) e c, omega arith)
  Chains-member p (cons m k c cs h) (inr a) =
      let (j, d, le) = Chains-member p cs a in (j, d, omega arith)

  -- A parent of a verified document is verified, at a smaller depth.
  pub Chain-parent :
      {id : String} {n : ℕ} (p : String)
      → Chain id n
      → IsParent id p
      → (m : ℕ) × Chain p m × (m < n)
  Chain-parent p (root doc r e a h) par =
      let same : par.doc ≡ doc = cc (par.resolved, r) in
      absurd (subst (Any (λ x. x ≡ p)) (ap parents_of same ∙ e) par.named)
  Chain-parent p (node doc q ps k r e c cs h) par =
      let same : par.doc ≡ doc = cc (par.resolved, r) in
      let (m, d, le) =
        Chains-member p cs (subst (Any (λ x. x ≡ p)) (ap parents_of same ∙ e) par.named) in
      (m, d, omega arith)

  pub Chain-ancestor :
      {id : String} {q : String} (n : ℕ)
      → Chain id n
      → IsAncestor id q
      → (m : ℕ) × Chain q m × (m < n)
  Chain-ancestor n c (parent {p = p} par) = Chain-parent p c par
  Chain-ancestor n c (further {p = p} par above) =
      let (m, d, lt) = Chain-parent p c par in
      let (j, e, lt') = Chain-ancestor m d above in (j, e, omega arith)

  -- A verified document is not its own ancestor.
  pub Chain-acyclic : {id : String} (n : ℕ) → Chain id n → ¬ IsAncestor id id
  Chain-acyclic n c a =
      let (m, d, lt) = Chain-ancestor n c a in absurd (omega (arith, Chain-depth c d))
