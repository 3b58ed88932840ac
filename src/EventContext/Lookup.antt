-- ===== src/EventContext/Lookup.antt =====
-- Properties of app/services/event_context.py, `lookup_event_context_snapshot`.
use sim_mdms_auto.Prelude.{
  ℕ, Bool, true, false, ◌&&◌, ◌||◌, Option, none, some, List, [], ◌∷◌, ◌≡◌, refl, sym, subst, arith,
  any, any-append, any-select, any-order_by, select, order_by, Bool-cases, Option-cases, inl, inr,
  strip, non_empty, or_empty,
}
use sim_mdms_auto.Model.{
  HesReadRaw, HesEventRaw, InitialMeasurement, EventContextSnapshot, ContextType, outage, tamper,
  same_context,
}
use sim_mdms_auto.Store.{Db, raw_of}
use sim_mdms_auto.EventContext.{
  classify_event_context_type, has_event_context_type, in_window, event_before, classified,
  add_type, collect_types, primary_type, build_snapshot, snapshot_of_raw, snapshot_of_read,
  lookup_event_context_snapshot,
}

abbrev is_type : ContextType → Option ContextType → Bool
is_type t none = false
is_type t (some u) = same_context t u

-- the event's code is of the context type
abbrev pub event_is : ContextType → HesEventRaw → Bool
event_is t e = is_type t (classify_event_context_type e.event_code)

same_context_trans :
    (t u : ContextType) (ts : List ContextType)
    → any (same_context u) ts ≡ true
    → same_context t u ≡ true
    → any (same_context t) ts ≡ true
same_context_trans t u [] h e = h
same_context_trans t u (x ∷ xs) h e = ground (arith, same_context_trans t u xs)

add_type-any :
    (t : ContextType) (o : Option ContextType) (ts : List ContextType)
    → any (same_context t) (add_type o ts) ≡ (any (same_context t) ts || is_type t o)
unfolding add_type
add_type-any t none ts = ground arith
add_type-any t (some u) ts = elim (Bool-cases (any (same_context u) ts)) [
  | inl e ↦ rw e (ground (arith, same_context_trans t u ts e))
  | inr e ↦ rw e (rw (any-append (same_context t) ts (u ∷ [])) (ground arith))
]

collect_types-any :
    (t : ContextType) (ts : List ContextType) (es : List HesEventRaw)
    → any (same_context t) (collect_types ts es) ≡ (any (same_context t) ts || any (event_is t) es)
unfolding collect_types
collect_types-any t ts [] = ground arith
collect_types-any t ts (e ∷ es) =
    rw (collect_types-any t (add_type (classify_event_context_type e.event_code) ts) es)
      (rw (add_type-any t (classify_event_context_type e.event_code) ts) (ground arith))

-- without a classified event no event is of a type
unclassified :
    (t : ContextType) (es : List HesEventRaw) → classified es ≡ [] → any (event_is t) es ≡ false
unfolding classified select
unclassified t [] h = refl
unclassified t (e ∷ es) h = elim (Option-cases (classify_event_context_type e.event_code)) [
  | inl q ↦ rw q (unclassified t es (rw q at h))
  | inr (u, q) ↦ absurd (cc (rw q at h))
]

build_snapshot-has :
    (raw : HesReadRaw) (m tol : ℕ) (t : ContextType) (rows matched : List HesEventRaw)
    → classified rows ≡ matched
    → has_event_context_type (build_snapshot raw m tol matched (collect_types [] rows)) t
      ≡ any (event_is t) rows
unfolding build_snapshot has_event_context_type
build_snapshot-has raw m tol t rows [] h = sym (unclassified t rows h)
build_snapshot-has raw m tol t rows (x ∷ xs) h = collect_types-any t [] rows

-- For a measurement with a raw read and a time, the snapshot has a context type exactly if the source
-- system and the meter identifier of the read are not blank and some stored event in the window around
-- the time, of the same system and meter, has a code of that type.
pub lookup_event_context_snapshot-has :
    (db : Db) (row : InitialMeasurement) (tol : ℕ) (raw : HesReadRaw) (m : ℕ) (t : ContextType)
    → raw_of db row ≡ some raw
    → raw.measured_at ≡ some m
    → has_event_context_type (lookup_event_context_snapshot db row tol) t ≡ (
        non_empty (strip raw.source_system)
        && non_empty (strip (or_empty raw.meter_identifier))
        && any (λ e. in_window raw m tol e && event_is t e) db.hes_events)
unfolding lookup_event_context_snapshot snapshot_of_raw has_event_context_type
lookup_event_context_snapshot-has db row tol raw m t h k = rw h (
    rw k (elim (Bool-cases (non_empty (strip raw.source_system))) [
      | inr e ↦ rw e refl
      | inl e ↦ rw e (elim (Bool-cases (non_empty (strip (or_empty raw.meter_identifier)))) [
        | inr e' ↦ rw e' refl
        | inl e' ↦ rw e' (
            rw (sym (any-select (event_is t) (in_window raw m tol) db.hes_events)) (
              rw
                (sym (
                  any-order_by (event_is t) event_before
                    (select (in_window raw m tol) db.hes_events)))
                (build_snapshot-has raw m tol t
                  (order_by event_before (select (in_window raw m tol) db.hes_events)) _ refl)))
      ])
    ]))

abbrev IsPrimary : Option EventContextSnapshot → Type 0
IsPrimary none = Unit
IsPrimary (some s) =
    (any (same_context s.primary_context_type) s.matched_context_types ≡ true)
    × (same_context tamper s.primary_context_type
        ≡ any (same_context tamper) s.matched_context_types)

primary_type-first :
    (t : ContextType) (ts : List ContextType)
    → (any (same_context (primary_type (t ∷ ts))) (t ∷ ts) ≡ true)
      × (same_context tamper (primary_type (t ∷ ts)) ≡ any (same_context tamper) (t ∷ ts))
unfolding primary_type
primary_type-first outage ts = ground arith
primary_type-first tamper ts = ground arith

no_type :
    (es : List HesEventRaw)
    → any (event_is outage) es ≡ false
    → any (event_is tamper) es ≡ false
    → classified es ≡ []
unfolding classified select
no_type [] h h' = refl
no_type (e ∷ es) h h' = elim (Option-cases (classify_event_context_type e.event_code)) [
  | inl q ↦ rw q (no_type es (rw q at h) (rw q at h'))
  | inr (outage, q) ↦ absurd (cc (rw q at h))
  | inr (tamper, q) ↦ absurd (cc (rw q at h'))
]

build_snapshot-IsPrimary :
    (raw : HesReadRaw) (m tol : ℕ) (rows matched : List HesEventRaw) (types : List ContextType)
    → classified rows ≡ matched
    → collect_types [] rows ≡ types
    → IsPrimary (build_snapshot raw m tol matched types)
unfolding build_snapshot
build_snapshot-IsPrimary raw m tol rows [] types h k = tt
build_snapshot-IsPrimary raw m tol rows (x ∷ xs) [] h k = absurd (
    cc (
      h,
      no_type rows (rw k at (sym (collect_types-any outage [] rows)))
          (rw k at (sym (collect_types-any tamper [] rows))),
    ))
build_snapshot-IsPrimary raw m tol rows (x ∷ xs) (t ∷ ts) h k = primary_type-first t ts

snapshot_of_raw-IsPrimary :
    (db : Db) (tol : ℕ) (raw : HesReadRaw) (o : Option ℕ) → IsPrimary (snapshot_of_raw db tol raw o)
unfolding snapshot_of_raw
snapshot_of_raw-IsPrimary db tol raw none = tt
snapshot_of_raw-IsPrimary db tol raw (some m) =
    elim (Bool-cases (non_empty (strip raw.source_system))) [
      | inr e ↦ rw e tt
      | inl e ↦ rw e (elim (Bool-cases (non_empty (strip (or_empty raw.meter_identifier)))) [
        | inr e' ↦ rw e' tt
        | inl e' ↦ rw e' (
            build_snapshot-IsPrimary raw m tol
              (order_by event_before (select (in_window raw m tol) db.hes_events)) _ _ refl refl)
      ])
    ]

-- The primary type of a snapshot is one of its types, and it is tampering exactly if tampering is one.
lookup_event_context_snapshot-primary :
    (db : Db) (row : InitialMeasurement) (tol : ℕ) (s : EventContextSnapshot)
    → lookup_event_context_snapshot db row tol ≡ some s
    → (any (same_context s.primary_context_type) s.matched_context_types ≡ true)
      × (same_context tamper s.primary_context_type ≡ has_event_context_type (some s) tamper)
unfolding lookup_event_context_snapshot has_event_context_type
lookup_event_context_snapshot-primary db row tol s h = subst IsPrimary h (from (raw_of db row))
  where
    from : (o : Option HesReadRaw) → IsPrimary (snapshot_of_read db tol o)
    from none = tt
    from (some raw) = snapshot_of_raw-IsPrimary db tol raw raw.measured_at
