-- ===== src/Finalization/Lineage.antt =====
-- The tables that app/services/finalization.py relates: initial and final measurements.
use mathlib.Core.Option
use sim_mdms_auto.Prelude.{
  ℕ, ◌≤◌, Bool, true, ◌&&◌, Option, none, some, List, ◌≡◌, sym, subst, ap, ◌∙◌, ◌==◌, ==→eq, arith,
  All, get, HasUniqueIds, count, unique-by, Option-cases, inl, inr, sql_eq,
}
use sim_mdms_auto.Model.{
  CanonicalMeasurement, InitialMeasurement, FinalMeasurement, initial_id, final_id, canonical_id,
}
use sim_mdms_auto.Finalization.{is_current_for}

abbrev pub of_canonical : ℕ → InitialMeasurement → Bool
of_canonical c r = sql_eq r.canonical_measurement_id c

-- a canonical measurement has at most one initial measurement
abbrev pub HasOneInitial : List InitialMeasurement → Type 0
HasOneInitial rows = (c : ℕ) → count (of_canonical c) rows ≤ 1

-- the initial measurement of a final one, where it has one, is the one of its canonical measurement
abbrev pub IsLinkedTo : List InitialMeasurement → ℕ → Option ℕ → Type 0
IsLinkedTo rows c none = Unit
IsLinkedTo rows c (some i) =
    (r : InitialMeasurement) × (get i rows ≡ some r) × (of_canonical c r ≡ true)

abbrev pub IsLinked : List InitialMeasurement → FinalMeasurement → Type 0
IsLinked rows f = IsLinkedTo rows f.canonical_measurement_id f.initial_measurement_id

pub link_of :
    (rows : List InitialMeasurement) (f : FinalMeasurement) (i : ℕ)
    → IsLinked rows f
    → f.initial_measurement_id ≡ some i
    → (r : InitialMeasurement) × (get i rows ≡ some r)
      × (of_canonical f.canonical_measurement_id r ≡ true)
link_of rows f i l h = subst (IsLinkedTo rows f.canonical_measurement_id) h l

abbrev pub current_of : ℕ → FinalMeasurement → Bool
current_of c f = f.is_current && f.canonical_measurement_id == c

pub record IsLineage (rows : List InitialMeasurement) (finals : List FinalMeasurement)
    : Type 0 where
  pub ids : HasUniqueIds finals
  pub linked : All (IsLinked rows) finals
  pub one_current : (c : ℕ) → count (current_of c) finals ≤ 1

some-inj {ℓ} : {A : Type ℓ} {a b : A} → some a ≡ some b → a ≡ b
some-inj h = Option.some-injective _ _ h

sql_eq-two : (o : Option ℕ) (a b : ℕ) → sql_eq o a ≡ true → sql_eq o b ≡ true → a ≡ b
sql_eq-two none a b h h' = absurd (cc)
sql_eq-two (some n) a b h h' = ground arith

-- an initial measurement of the store with its canonical measurement
pub record IsStored (rows : List InitialMeasurement) (r : InitialMeasurement)
    (c : CanonicalMeasurement) : Type 0 where
  pub found : get r.id rows ≡ some r
  pub mapped : of_canonical c.id r ≡ true

module _ (rows : List InitialMeasurement) (one : HasOneInitial rows) (r : InitialMeasurement)
    (c : CanonicalMeasurement) (st : IsStored rows r c) where
  -- on linked rows the query of `_get_current_final_measurement` asks for the canonical measurement
  pub is_current_for-linked :
      (f : FinalMeasurement)
      → IsLinked rows f
      → current_of c.id f ≡ true
      → is_current_for r c f ≡ true
  unfolding is_current_for
  is_current_for-linked f l h = elim (Option-cases f.initial_measurement_id) [
    | inl e ↦ rw e (ground arith)
    | inr (i, e) ↦
        let (s, q, m) = link_of rows f i l e in
        let same_row =
          unique-by (of_canonical c.id) i r.id rows s r (one c.id) q st.found
            (subst (λ k. of_canonical k s ≡ true) (==→eq _ _ (ground arith)) m) st.mapped in
        rw e (ground (arith, same_row))
  ]

  pub linked-is_current_for :
      (f : FinalMeasurement)
      → IsLinked rows f
      → is_current_for r c f ≡ true
      → current_of c.id f ≡ true
  unfolding is_current_for
  linked-is_current_for f l h = elim (Option-cases f.initial_measurement_id) [
    | inl e ↦ ground arith
    | inr (i, e) ↦
        let (s, q, m) = link_of rows f i l e in
        let is_r : i ≡ r.id = let h' = (rw e at h) in ground arith in
        let in_row = subst (λ o. o ≡ some s) (ap (λ n. get n rows) is_r) q in
        let m' =
          subst (λ x. of_canonical f.canonical_measurement_id x ≡ true)
            (some-inj (sym in_row ∙ st.found)) m in
        ground (
          arith,
          m',
          st.mapped,
          sql_eq-two r.canonical_measurement_id f.canonical_measurement_id c.id m' st.mapped,
        )
  ]
