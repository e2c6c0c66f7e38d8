-- ===== src/Canonical/StoredBytes/Invariants.antt =====
-- What `validateStoredByteInvariants` asks of a value, as a predicate, with the maximal runs of
-- text nodes of an array as a list.
use cdx_file_format_spec.Prelude.{
  suc, ◌+◌, ◌≤◌, Bool, true, false, not, ◌&&◌, ◌||◌, List, [], ◌∷◌, ◌++◌, length, All, Option, none,
  some, Result, ok, err, ◌>>=◌, if◌then◌else◌, Bool-cases, inl, inr, leb, leb→le, ◌≡◌, ◌↔◌, refl,
  sym, subst, Units, same_units, same_units_iff, arith,
}
use mathlib.Core.List.{append_assoc, append-nil}
use cdx_file_format_spec.Json.{
  Number, Json, Items, Members, null, bool, number, text, array, object, no_items, item, no_members,
  member,
}
use cdx_file_format_spec.Canonical.Errors.{CanonError, number_not_representable}
use cdx_file_format_spec.Canonical.Transform.{is_block_content_key, content_barrier_key}
use cdx_file_format_spec.Canonical.StoredBytes.{
  Run, is_well_formed_unicode, is_non_representable, value_in_run, next_run, stored_text_violation,
  check_string, check_concatenated_nfc, close_run, end_of_run, validate, validate_items,
  validate_members, validate_stored_byte_invariants,
}

abbrev concat : List Units → Units
concat [] = []
concat (s ∷ ss) = s ++ concat ss

-- A text node goes on with the run that follows it; another element stands between two runs.
abbrev pub prepend : Option Units → List (List Units) → List (List Units)
prepend none runs = [] ∷ runs
prepend (some s) [] = (s ∷ []) ∷ []
prepend (some s) (run ∷ runs) = (s ∷ run) ∷ runs

abbrev pub text_runs : Bool → Items → List (List Units)
text_runs in_content no_items = [] ∷ []
text_runs in_content (item v vs) = prepend (value_in_run in_content v) (text_runs in_content vs)

then_iff :
    (r s : Result CanonError (Unit {0})) → ((r >>= λ _. s) ≡ ok tt) ↔ ((r ≡ ok tt) × (s ≡ ok tt))
then_iff (ok tt) s = (λ h. (refl, h), λ (h : _ × _). h.1)
then_iff (err e) s = (λ h. cc, λ (h : _ × _). cc)

guard_false_iff :
    (b : Bool) (e : CanonError)
    → (◌≡◌ {A = Result CanonError (Unit {0})} (if b then err e else ok tt) (ok tt)) ↔ (b ≡ false)
guard_false_iff true e = (λ h. cc, λ h. cc)
guard_false_iff false e = (λ _. refl, λ _. refl)

iff_trans : {A B C : Type 0} → A ↔ B → B ↔ C → A ↔ C
iff_trans f g = (λ a. g.0 (f.0 a), λ c. f.1 (g.1 c))

iff_both : {A B C D : Type 0} → A ↔ B → C ↔ D → (A × C) ↔ (B × D)
iff_both f g = (λ (p : _ × _). (f.0 p.0, g.0 p.1), λ (p : _ × _). (f.1 p.0, g.1 p.1))

module _ (nfc : Units → Units) where
  abbrev pub IsText : Units → Type 0
  IsText s = (is_well_formed_unicode s ≡ true) × (nfc s ≡ s)

  -- A run of two or more text nodes, behind the part that is read, is in Normalization Form C.
  abbrev pub IsJoined : Run → List Units → Type 0
  IsJoined run values =
      2 ≤ run.1 + length values → nfc (run.0 ++ concat values) ≡ run.0 ++ concat values

  -- The first run goes on with what is read.
  abbrev AllJoined : Run → List (List Units) → Type 0
  AllJoined run [] = IsJoined run []
  AllJoined run (g ∷ gs) = IsJoined run g × All (IsJoined ([], 0)) gs

  unfoldable mutual
    -- Texts and keys are well formed and in Normalization Form C, numbers are representable, and so
    -- are the runs of text nodes where blocks have their content.
    pub IsStored : Option Units → Bool → Json → Type 0
    IsStored key blocked (text s) = IsText s
    IsStored key blocked (number n) = is_non_representable n ≡ false
    IsStored key blocked (array vs) =
        AllJoined ([], 0) (text_runs (not blocked && is_block_content_key key) vs)
        × ItemsStored key blocked vs
    IsStored key blocked (object ms) = MembersStored blocked ms
    IsStored key blocked _ = Unit

    pub ItemsStored : Option Units → Bool → Items → Type 0
    ItemsStored key blocked no_items = Unit
    ItemsStored key blocked (item v vs) = IsStored key blocked v × ItemsStored key blocked vs

    pub MembersStored : Bool → Members → Type 0
    MembersStored blocked no_members = Unit
    MembersStored blocked (member key v ms) =
        IsText key
        × (IsStored (some key) (blocked || same_units key content_barrier_key) v
            × MembersStored blocked ms)

  check_string_iff : (s : Units) → (check_string nfc s ≡ ok tt) ↔ IsText s
  unfolding check_string stored_text_violation
  check_string_iff s = elim (Bool-cases (is_well_formed_unicode s)) [
    | inl e ↦ elim (Bool-cases (same_units (nfc s) s)) [
      | inl f ↦ (λ _. (e, (same_units_iff (nfc s) s).0 f), λ _. rw (e, f) refl)
      | inr f ↦ (
        λ h. ground (arith, (rw (e, f) at h)),
        λ (h : _ × _). ground (arith, (same_units_iff (nfc s) s).1 h.1),
      )
    ]
    | inr e ↦ (λ h. ground (arith, (rw e at h)), λ (h : _ × _). ground arith)
  ]

  check_run_iff : (r : Units) → (check_concatenated_nfc nfc r ≡ ok tt) ↔ (nfc r ≡ r)
  unfolding check_concatenated_nfc
  check_run_iff r = elim (Bool-cases (same_units (nfc r) r)) [
    | inl f ↦ (λ _. (same_units_iff (nfc r) r).0 f, λ _. rw f refl)
    | inr f ↦
        (λ h. ground (arith, (rw f at h)), λ h. ground (arith, (same_units_iff (nfc r) r).1 h))
  ]

  close_run_iff : (run : Run) → (close_run nfc run ≡ ok tt) ↔ IsJoined run []
  close_run_iff run =
      let plain = append-nil run.0 in
      elim (Bool-cases (leb 2 run.1)) [
        | inl e ↦ (
          λ h _. subst (λ r. nfc r ≡ r) (sym plain) ((check_run_iff run.0).0 (rw e at h)),
          λ h. rw e (
              (check_run_iff run.0).1
                (subst (λ r. nfc r ≡ r) plain (h (omega (arith, leb→le 2 run.1 e))))),
        )
        | inr e ↦ (λ h le. ground arith, λ h. rw e refl)
      ]

  IsJoined-shift :
      (run : Run) (s : Units) (g : List Units)
      → IsJoined run (s ∷ g) ↔ IsJoined (run.0 ++ s, suc run.1) g
  IsJoined-shift run s g =
      let assoc = append_assoc run.0 s (concat g) in
      (
        λ h le. subst (λ r. nfc r ≡ r) (sym assoc) (h (omega (arith, le))),
        λ h le. subst (λ r. nfc r ≡ r) assoc (h (omega (arith, le))),
      )

  nothing_read : (gs : List (List Units)) → All (IsJoined ([], 0)) gs ↔ AllJoined ([], 0) gs
  nothing_read [] = (λ _ le. ground arith, λ _. tt)
  nothing_read (g ∷ gs) = (λ h. h, λ h. h)

  prepend_iff :
      (run : Run) (o : Option Units) (gs : List (List Units))
      → ((end_of_run nfc run o ≡ ok tt) × AllJoined (next_run run o) gs)
        ↔ AllJoined run (prepend o gs)
  prepend_iff run none gs =
      let close = close_run_iff run in
      let rest = nothing_read gs in
      (λ (h : _ × _). (close.0 h.0, rest.1 h.1), λ (h : _ × _). (close.1 h.0, rest.0 h.1))
  prepend_iff run (some s) [] =
      let shift = IsJoined-shift run s [] in
      (λ (h : _ × _). (shift.1 h.1, tt), λ (h : _ × _). (refl, shift.0 h.0))
  prepend_iff run (some s) (g ∷ gs) =
      let shift = IsJoined-shift run s g in
      (λ (h : _ × _). (shift.1 h.1.0, h.1.1), λ (h : _ × _). (refl, (shift.0 h.0, h.1)))

  number_iff :
      (n : Number)
      → (◌≡◌ {A = Result CanonError (Unit {0})}
          (if is_non_representable n then err number_not_representable else ok tt)
          (ok tt))
        ↔ (is_non_representable n ≡ false)
  number_iff n = guard_false_iff (is_non_representable n) number_not_representable

  mutual
    unfolding validate IsStored

    validate_iff :
        (key : Option Units) (blocked : Bool) (v : Json)
        → (validate nfc key blocked v ≡ ok tt) ↔ IsStored key blocked v
    validate_iff key blocked (text s) = check_string_iff s
    validate_iff key blocked (number n) = number_iff n
    validate_iff key blocked (array vs) =
        validate_items_iff (not blocked && is_block_content_key key) key blocked ([], 0) vs
    validate_iff key blocked (object ms) = validate_members_iff blocked ms
    validate_iff key blocked null = (λ _. tt, λ _. refl)
    validate_iff key blocked (bool b) = (λ _. tt, λ _. refl)

    validate_items_iff :
        (in_content : Bool) (key : Option Units) (blocked : Bool) (run : Run) (vs : Items)
        → (validate_items nfc in_content key blocked run vs ≡ ok tt)
          ↔ (AllJoined run (text_runs in_content vs) × ItemsStored key blocked vs)
    validate_items_iff in_content key blocked run no_items =
        let close = close_run_iff run in (λ h. ((close.0 h, tt), tt), λ (h : _ × _). close.1 h.0.0)
    validate_items_iff in_content key blocked run (item v vs) =
        let o = value_in_run in_content v in
        let here = validate_iff key blocked v in
        let rest = validate_items_iff in_content key blocked (next_run run o) vs in
        let runs = prepend_iff run o (text_runs in_content vs) in
        let outer = then_iff (end_of_run nfc run o) _ in
        let inner = then_iff (validate nfc key blocked v) _ in
        (
          λ h.
              let p = outer.0 h in
              let q = inner.0 p.1 in let r = rest.0 q.1 in (runs.0 (p.0, r.0), (here.0 q.0, r.1)),
          λ (h : _ × _).
              let p = runs.1 h.0 in outer.1 (p.0, inner.1 (here.1 h.1.0, rest.1 (p.1, h.1.1))),
        )

    validate_members_iff :
        (blocked : Bool) (ms : Members)
        → (validate_members nfc blocked ms ≡ ok tt) ↔ MembersStored blocked ms
    validate_members_iff blocked no_members = (λ _. tt, λ _. refl)
    validate_members_iff blocked (member key v ms) = iff_trans (then_iff (check_string nfc key) _) (
        iff_both (check_string_iff key) (
          iff_trans
            (then_iff (validate nfc (some key) (blocked || same_units key content_barrier_key) v) _)
            (iff_both (validate_iff (some key) (blocked || same_units key content_barrier_key) v)
              (validate_members_iff blocked ms))))

  -- The stored-byte invariants hold of a value exactly if the validation throws nothing: of each text
  -- and key, each number, and each maximal run of two or more text nodes in a position of block
  -- content.
  pub validate_stored_byte_invariants_iff :
      (value : Json)
      → (validate_stored_byte_invariants nfc value ≡ ok tt) ↔ IsStored none false value
  unfolding validate_stored_byte_invariants
  validate_stored_byte_invariants_iff value = validate_iff none false value
