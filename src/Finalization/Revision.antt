-- ===== src/Finalization/Revision.antt =====
-- Lemmas on app/services/finalization.py: writing one revision.
use sim_mdms_auto.Prelude.{
  ℕ, true, Option, none, some, List, [], ◌∷◌, ◌++◌, Text, ◌≡◌, refl, subst, ◌==◌, ==→eq, arith, All,
  All-both, All-append, any-false-All, All-any-false, get, get_self, get_unique, modify, All-modify,
  scalar, scalar_sound, scalar-none, All-scalar, HasUniqueIds-insert, HasUniqueIds-modify, count,
  count-append, any-count, count-modify_fail, count-update_where, count-update_where_fail, next_id,
  Bool-cases, Option-cases, inl, inr,
}
use sim_mdms_auto.Model.{
  CanonicalMeasurement, InitialMeasurement, FinalMeasurement, initial_id, final_id, canonical_id,
}
use sim_mdms_auto.Finalization.{
  is_current_for, revision_before, final_measurement_matches_initial, revise, new_final, adopt,
  retire,
}
use sim_mdms_auto.Finalization.Lineage.{
  HasOneInitial, IsStored, IsLinked, link_of, IsLineage, current_of, is_current_for-linked,
  linked-is_current_for,
}

module _ (rows : List InitialMeasurement) (one : HasOneInitial rows) (r : InitialMeasurement)
    (c : CanonicalMeasurement) (st : IsStored rows r c) (now : ℕ) (reason : Option Text) where
  adopt-IsLinked :
      (f : FinalMeasurement)
      → f.canonical_measurement_id ≡ c.id
      → IsLinked rows f
      → IsLinked rows (adopt r.id f)
  adopt-IsLinked f k l = elim (Option-cases f.initial_measurement_id) [
    | inl e ↦ rw e (r, st.found, rw k st.mapped)
    | inr (j, e) ↦ rw e (link_of rows f j l e)
  ]

  new_final-IsLinked :
      (n : ℕ) (o : Option FinalMeasurement) → IsLinked rows (new_final now n r c reason o)
  new_final-IsLinked n o = (r, st.found, st.mapped)

  insert-IsLineage :
      (o : Option FinalMeasurement) (finals : List FinalMeasurement)
      → IsLineage rows finals
      → count (current_of c.id) finals ≡ 0
      → IsLineage rows (finals ++ new_final now (next_id finals) r c reason o ∷ [])
  insert-IsLineage o finals v z = record {
    ids = HasUniqueIds-insert finals _ refl v.ids;
    linked =
        All-append (IsLinked rows) finals _ v.linked (new_final-IsLinked (next_id finals) o, tt);
    one_current = λ k. elim (Bool-cases (c.id == k)) [
      | inl e ↦ ground (
        arith,
        subst (λ m. count (current_of m) finals ≡ 0) (==→eq _ _ e) z,
        count-append (current_of k) finals (new_final now (next_id finals) r c reason o ∷ []),
      )
      | inr e ↦ ground (
        arith,
        v.one_current k,
        count-append (current_of k) finals (new_final now (next_id finals) r c reason o ∷ []),
      )
    ];
  }

  module _ (finals : List FinalMeasurement) (v : IsLineage rows finals) where
    none-current :
        scalar revision_before (is_current_for r c) finals ≡ none
        → count (current_of c.id) finals ≡ 0
    none-current h = any-count _ finals (
        All-any-false (current_of c.id) finals (
          All-both _ _ _ finals
            (λ x l no. elim (Bool-cases (current_of c.id x)) [
              | inl e ↦ absurd (cc (is_current_for-linked rows one r c st x l e, no))
              | inr e ↦ e
            ])
            v.linked (any-false-All (is_current_for r c) finals (scalar-none _ _ finals h))))

    module _ (f : FinalMeasurement)
        (h : scalar revision_before (is_current_for r c) finals ≡ some f) where
      pub stored : get f.id finals ≡ some f
      stored = All-scalar _ _ _ finals f (get_self finals v.ids) h

      current : current_of c.id f ≡ true
      current =
          linked-is_current_for rows one r c st f (All-scalar _ _ _ finals f v.linked h)
            (scalar_sound _ _ finals f h)

      alone : All (λ y. (y.id == f.id) ≡ true → y ≡ f) finals
      alone = get_unique f.id finals f (v.ids f.id) stored

      of_c : f.canonical_measurement_id ≡ c.id
      of_c = let h' = current in ==→eq _ _ (ground arith)

      adopt-IsLineage : IsLineage rows (modify f.id (adopt r.id) finals)
      unfolding modify
      adopt-IsLineage = record {
        ids = HasUniqueIds-modify f.id _ finals (λ _. refl) v.ids;
        linked =
            All-modify (IsLinked rows) f.id (adopt r.id) f finals alone (adopt-IsLinked f of_c)
              v.linked;
        one_current = λ k.
            rw
              (count-update_where (current_of k) (λ y. y.id == f.id) (adopt r.id) finals
                (λ _ _. refl))
              (v.one_current k);
      }

      retire-IsLineage : IsLineage rows (modify f.id (λ x. retire (adopt r.id x)) finals)
      unfolding modify
      retire-IsLineage = record {
        ids = HasUniqueIds-modify f.id _ finals (λ _. refl) v.ids;
        linked =
            All-modify (IsLinked rows) f.id (λ x. retire (adopt r.id x)) f finals alone
              (adopt-IsLinked f of_c) v.linked;
        one_current = λ k. omega (
          arith,
          count-update_where_fail (current_of k) (λ y. y.id == f.id) (λ x. retire (adopt r.id x))
              finals (λ _. refl),
          v.one_current k,
        );
      }

      retired-none : count (current_of c.id) (modify f.id (λ x. retire (adopt r.id x)) finals) ≡ 0
      retired-none = omega (
        arith,
        v.one_current c.id,
        count-modify_fail (current_of c.id) f.id (λ x. retire (adopt r.id x)) f finals stored
            current (λ _. refl),
      )

  pub revise-IsLineage :
      (o : Option FinalMeasurement) (finals : List FinalMeasurement)
      → IsLineage rows finals
      → scalar revision_before (is_current_for r c) finals ≡ o
      → IsLineage rows (revise now r c reason o finals).0
  unfolding revise
  revise-IsLineage none finals v h = insert-IsLineage none finals v (none-current finals v h)
  revise-IsLineage (some f) finals v h = elim (Bool-cases (final_measurement_matches_initial f r)) [
    | inl e ↦ rw e (adopt-IsLineage finals v f h)
    | inr e ↦
        rw e
          (insert-IsLineage (some f) _ (retire-IsLineage finals v f h) (retired-none finals v f h))
  ]
