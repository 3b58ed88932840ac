-- ===== src/Finalization/Repeat.antt =====
-- Properties of app/services/finalization.py, `create_or_get_final_measurement`.
use mathlib.Core.Option
use sim_mdms_auto.Prelude.{
  ℕ, ◌≤◌, Bool, true, false, Option, none, some, List, [], ◌∷◌, ◌++◌, Text, ◌≡◌, refl, subst,
  ==_refl, arith, All, All-both, get, get?, get_sound, get-insert, get-modify, modify, scalar,
  scalar_sound, scalar-only, count, next_id, Bool-cases, Option-cases, inl, inr, sql_eq, or_option,
  opt_eq, opt_text_eq_refl, eqb_ℤ_refl, ℤ,
}
use sim_mdms_auto.Model.{
  CanonicalMeasurement, InitialMeasurement, FinalMeasurement, initial_id, final_id, canonical_id,
}
use sim_mdms_auto.Store.{Db, canonical_of}
use sim_mdms_auto.Finalization.{
  is_current_for, revision_before, get_current_final_measurement, final_measurement_matches_initial,
  revise, new_final, adopt, create_from, create_or_get_final_measurement, opt_value_eq,
}
use sim_mdms_auto.Finalization.Lineage.{
  HasOneInitial, IsStored, IsLineage, current_of, linked-is_current_for,
}
use sim_mdms_auto.Finalization.Revision.{revise-IsLineage, stored}

opt_eq_refl : (o : Option ℕ) → opt_eq o o ≡ true
opt_eq_refl none = refl
opt_eq_refl (some n) = ==_refl n

opt_value_eq_refl : (o : Option ℤ) → opt_value_eq o o ≡ true
opt_value_eq_refl none = refl
opt_value_eq_refl (some n) = eqb_ℤ_refl n

count-implies :
    (p q : FinalMeasurement → Bool) (xs : List FinalMeasurement)
    → All (λ x. p x ≡ true → q x ≡ true) xs
    → count p xs ≤ count q xs
count-implies p q [] h = ground arith
count-implies p q (x ∷ xs) h = ground (arith, h.0, count-implies p q xs h.1)

-- the row is stored, is the current one of its initial measurement and holds its values
pub record IsResult (r : InitialMeasurement) (c : CanonicalMeasurement)
    (finals : List FinalMeasurement) (f : FinalMeasurement) : Type 0 where
  pub is_stored : get f.id finals ≡ some f
  pub is_current : is_current_for r c f ≡ true
  pub matches : final_measurement_matches_initial f r ≡ true
  pub owned : or_option f.initial_measurement_id (some r.id) ≡ f.initial_measurement_id

module _ (r : InitialMeasurement) (c : CanonicalMeasurement) (now : ℕ) (reason : Option Text) where
  insert-IsResult :
      (o : Option FinalMeasurement) (finals : List FinalMeasurement)
      → let f = new_final now (next_id finals) r c reason o in IsResult r c (finals ++ f ∷ []) f
  unfolding is_current_for final_measurement_matches_initial
  insert-IsResult o finals = record {
    is_stored = get-insert finals _ refl;
    is_current = rw (==_refl r.id) refl;
    matches = rw (opt_eq_refl r.measuring_component_id) (
        rw (opt_eq_refl r.device_id) (
          rw (opt_eq_refl r.service_point_id) (
            rw (opt_eq_refl r.measured_at) (
              rw (opt_value_eq_refl r.value) (
                rw (opt_text_eq_refl r.quality_code)
                  (rw (opt_text_eq_refl r.status_code) (opt_text_eq_refl r.unit_of_measure)))))));
    owned = refl;
  }

  adopt-IsResult :
      (f : FinalMeasurement) (finals : List FinalMeasurement)
      → get f.id finals ≡ some f
      → is_current_for r c f ≡ true
      → final_measurement_matches_initial f r ≡ true
      → IsResult r c (modify f.id (adopt r.id) finals) (adopt r.id f)
  unfolding is_current_for final_measurement_matches_initial
  adopt-IsResult f finals h cur m = record {
    is_stored =
        rw (get-modify f.id f.id (adopt r.id) finals (λ _. refl)) (rw h (rw (==_refl f.id) refl));
    is_current = elim (Option-cases f.initial_measurement_id) [
      | inl e ↦ rw e (ground (arith, rw e at cur))
      | inr (i, e) ↦ rw e (ground (arith, rw e at cur))
    ];
    matches = m;
    owned = elim (Option-cases f.initial_measurement_id) [
      | inl e ↦ rw e refl
      | inr (i, e) ↦ rw e refl
    ];
  }

module _ (rows : List InitialMeasurement) (one : HasOneInitial rows) (r : InitialMeasurement)
    (c : CanonicalMeasurement) (st : IsStored rows r c) where
  revise-IsResult :
      (now : ℕ) (reason : Option Text) (o : Option FinalMeasurement)
      (finals : List FinalMeasurement)
      → IsLineage rows finals
      → scalar revision_before (is_current_for r c) finals ≡ o
      → let (fs, f, _) = revise now r c reason o finals in IsResult r c fs f
  unfolding revise
  revise-IsResult now reason none finals v h = insert-IsResult r c now reason none finals
  revise-IsResult now reason (some f) finals v h =
      elim (Bool-cases (final_measurement_matches_initial f r)) [
        | inl e ↦ rw e (
            adopt-IsResult r c now reason f finals (stored rows one r c st now reason finals v f h)
              (scalar_sound _ _ finals f h) e)
        | inr e ↦ rw e (insert-IsResult r c now reason (some f) _)
      ]

  -- a result is found again, and is not written anew
  revise-again :
      (now : ℕ) (reason : Option Text) (finals : List FinalMeasurement) (f : FinalMeasurement)
      → IsLineage rows finals
      → IsResult r c finals f
      → let again =
          revise now r c reason (scalar revision_before (is_current_for r c) finals) finals in
        (again.1 ≡ f) × (again.2 ≡ false)
  unfolding revise
  revise-again now reason finals f v q =
      let alone = count-implies (is_current_for r c) (current_of c.id) finals (
        All-both _ _ _ finals (λ x l _. linked-is_current_for rows one r c st x l) v.linked
          v.linked) in
      rw
        (scalar-only revision_before (is_current_for r c) f.id finals f
          (omega (arith, alone, v.one_current c.id)) q.is_stored q.is_current)
        (rw q.matches (rw q.owned (refl, refl)))

mapped_from :
    (rows : List CanonicalMeasurement) (o : Option ℕ) (c : CanonicalMeasurement)
    → get? o rows ≡ some c
    → sql_eq o c.id ≡ true
mapped_from rows none c h = absurd (cc)
mapped_from rows (some n) c h = rw (get_sound n rows c h) (==_refl n)

IsStored-from :
    (db : Db) (r : InitialMeasurement) (c : CanonicalMeasurement)
    → get r.id db.initials ≡ some r
    → canonical_of db r ≡ some c
    → IsStored db.initials r c
unfolding canonical_of
IsStored-from db r c h k = record { found = h; mapped = mapped_from db.canonicals _ c k }

-- For a stored initial measurement with a canonical one, in a store where a canonical measurement has
-- at most one initial measurement and the final measurements have unique ids, stand over the initial
-- measurement of their canonical one and are at most once current for a canonical one, finalizing
-- returns a final measurement and changes no other table; what was assumed of the final measurements holds again; and the row
-- returned is stored, is current for the initial measurement and has its values.
pub create_or_get_final_measurement-IsLineage :
    (now : ℕ) (reason : Option Text) (db : Db) (r : InitialMeasurement) (c : CanonicalMeasurement)
    → HasOneInitial db.initials
    → get r.id db.initials ≡ some r
    → canonical_of db r ≡ some c
    → IsLineage db.initials db.finals
    → (db' : Db) × (f : FinalMeasurement) × (created : Bool) × (create_or_get_final_measurement now
          r reason db
        ≡ some (db', f, created))
      × (db' ≡ record db { finals = db'.finals })
      × IsLineage db'.initials db'.finals
      × IsResult r c db'.finals f
unfolding create_or_get_final_measurement create_from get_current_final_measurement
create_or_get_final_measurement-IsLineage now reason db r c one h k v =
    let st = IsStored-from db r c h k in
    let current = scalar revision_before (is_current_for r c) db.finals in
    let (fs, f, created) = revise now r c reason current db.finals in
    (
      record db { finals = fs },
      f,
      created,
      rw k refl,
      refl,
      revise-IsLineage db.initials one r c st now reason current db.finals v refl,
      revise-IsResult db.initials one r c st now reason current db.finals v refl,
    )

module _ (db : Db) (r : InitialMeasurement) (c : CanonicalMeasurement) (f : FinalMeasurement)
    (finals : List FinalMeasurement) (one : HasOneInitial db.initials) where
  second_call :
      (now : ℕ) (reason : Option Text)
      → IsStored db.initials r c
      → canonical_of db r ≡ some c
      → IsLineage db.initials finals
      → IsResult r c finals f
      → (db' : Db) × (create_or_get_final_measurement now r reason (record db { finals = finals })
          ≡ some (db', f, false))
  unfolding create_or_get_final_measurement create_from get_current_final_measurement canonical_of
  second_call now reason st k v q =
      let current = scalar revision_before (is_current_for r c) finals in
      let (fs, g, created) = revise now r c reason current finals in
      let (a, b) = revise-again db.initials one r c st now reason finals f v q in
      (record db { finals = fs }, rw k (rw a (rw b refl)))

-- Finalizing the same initial measurement again, at any time and with any reason, in a store where
-- the first call has just returned a final measurement, returns that same row and says that it is not
-- new; the conditions are those of the first call.
pub create_or_get_final_measurement_again :
    (now later : ℕ) (reason again : Option Text) (db db' : Db) (r : InitialMeasurement)
    (c : CanonicalMeasurement) (f : FinalMeasurement) (created : Bool)
    → HasOneInitial db.initials
    → get r.id db.initials ≡ some r
    → canonical_of db r ≡ some c
    → IsLineage db.initials db.finals
    → create_or_get_final_measurement now r reason db ≡ some (db', f, created)
    → (db'' : Db) × (create_or_get_final_measurement later r again db' ≡ some (db'', f, false))
unfolding create_or_get_final_measurement create_from get_current_final_measurement
create_or_get_final_measurement_again now later reason again db db' r c f created one h k v e =
    let st = IsStored-from db r c h k in
    let current = scalar revision_before (is_current_for r c) db.finals in
    let (fs, g, made) = revise now r c reason current db.finals in
    subst
      (λ (t : Db × FinalMeasurement × Bool).
        (db'' : Db) × (create_or_get_final_measurement later r again t.0 ≡ some (db'', t.1, false)))
      (Option.some-injective (record db { finals = fs }, g, made) (db', f, created) (rw k at e))
      (second_call db r c g fs one later again st k
        (revise-IsLineage db.initials one r c st now reason current db.finals v refl)
        (revise-IsResult db.initials one r c st now reason current db.finals v refl))
