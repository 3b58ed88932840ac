-- ===== src/ProcessingCore/Initials.antt =====
-- Properties of app/services/processing_core.py, `create_or_get_initial_measurement`.
use sim_mdms_auto.Prelude.{
  ℕ, true, false, some, List, [], ◌∷◌, ◌++◌, ◌≡◌, refl, subst, ◌==◌, ==→eq, ==_refl, arith,
  any-count, count, count-append, scalar, scalar-none, scalar_sound, scalar-snoc, HasUniqueIds,
  HasUniqueIds-insert, Option-cases, Bool-cases, inl, inr, next_id, get, All-mono,
}
use sim_mdms_auto.Model.{
  CanonicalMeasurement, InitialMeasurement, FinalMeasurement, initial_id, final_id,
}
use sim_mdms_auto.Store.{Db}
use sim_mdms_auto.ProcessingCore.{
  new_initial, initial_of, get_or_create, create_or_get_initial_measurement,
}
use sim_mdms_auto.Finalization.Lineage.{HasOneInitial, IsLinked, link_of, IsLineage, of_canonical}

get-append_some :
    (i : ℕ) (xs ys : List InitialMeasurement) (r : InitialMeasurement)
    → get i xs ≡ some r
    → get i (xs ++ ys) ≡ some r
unfolding get
get-append_some i [] ys r h = absurd (cc)
get-append_some i (x ∷ xs) ys r h = ground (arith, get-append_some i xs ys r)

IsLinked-append :
    (xs ys : List InitialMeasurement) (f : FinalMeasurement) → IsLinked xs f → IsLinked (xs ++ ys) f
IsLinked-append xs ys f l = elim (Option-cases f.initial_measurement_id) [
  | inl e ↦ rw e tt
  | inr (i, e) ↦ let (r, q, m) = link_of xs f i l e in rw e (r, get-append_some i xs ys r q, m)
]

insert-HasOneInitial :
    (now : ℕ) (c : CanonicalMeasurement) (rows : List InitialMeasurement)
    → count (of_canonical c.id) rows ≡ 0
    → HasOneInitial rows
    → HasOneInitial (rows ++ new_initial now (next_id rows) c ∷ [])
insert-HasOneInitial now c rows z one k = elim (Bool-cases (c.id == k)) [
  | inl e ↦ ground (
    arith,
    subst (λ m. count (of_canonical m) rows ≡ 0) (==→eq _ _ e) z,
    count-append (of_canonical k) rows (new_initial now (next_id rows) c ∷ []),
  )
  | inr e ↦
      ground
        (arith, one k, count-append (of_canonical k) rows (new_initial now (next_id rows) c ∷ []))
]

-- In a store with unique ids of initial measurements, at most one of them for a canonical measurement
-- and final measurements over the initial measurement of their canonical one, all three hold after an
-- initial measurement is made or found, and the row returned is of the canonical measurement.
pub create_or_get_initial_measurement-IsLineage :
    (now : ℕ) (c : CanonicalMeasurement) (db : Db)
    → HasUniqueIds db.initials
    → HasOneInitial db.initials
    → IsLineage db.initials db.finals
    → let (db', row, _) = create_or_get_initial_measurement now c db in
      HasUniqueIds db'.initials
      × HasOneInitial db'.initials
      × IsLineage db'.initials db'.finals
      × (of_canonical c.id row ≡ true)
unfolding create_or_get_initial_measurement get_or_create initial_of
create_or_get_initial_measurement-IsLineage now c db u one v =
    elim (Option-cases (scalar (λ _ _. false) (of_canonical c.id) db.initials)) [
      | inr (r, e) ↦ rw e (u, one, v, scalar_sound _ _ db.initials r e)
      | inl e ↦ rw e (
        HasUniqueIds-insert db.initials _ refl u,
        insert-HasOneInitial now c db.initials (any-count _ _ (scalar-none _ _ db.initials e)) one,
        record {
          ids = v.ids;
          linked =
              All-mono (IsLinked db.initials) _ db.finals (IsLinked-append db.initials _) v.linked;
          one_current = v.one_current;
        },
        ==_refl c.id,
      )
    ]

-- Asking again for the initial measurement of a canonical one gives the same row, not a new one, and
-- leaves the store as the first call left it.
create_or_get_initial_measurement_again :
    (now later : ℕ) (c : CanonicalMeasurement) (db : Db)
    → let (db', row, _) = create_or_get_initial_measurement now c db in
      create_or_get_initial_measurement later c db' ≡ (db', row, false)
unfolding create_or_get_initial_measurement get_or_create initial_of
create_or_get_initial_measurement_again now later c db =
    elim (Option-cases (scalar (λ _ _. false) (of_canonical c.id) db.initials)) [
      | inr (r, e) ↦ rw e (rw e refl)
      | inl e ↦ rw e (
          rw
            (scalar-snoc (λ _ _. false) (of_canonical c.id) db.initials
              (new_initial now (next_id db.initials) c) e (==_refl c.id))
            refl)
    ]
