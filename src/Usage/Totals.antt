-- ===== src/Usage/Totals.antt =====
-- Properties of app/services/usage.py: what buckets add up to, and the payload of a bucket.
use sim_mdms_auto.Prelude.{
  All, is_some, true, ℕ, suc, ◌+◌, Option, none, some, ℤ, pos, ◌+ℤ◌, List, [], ◌∷◌, ◌≡◌, refl, sym,
  ap, ◌∙◌, arith, length, Bool-cases, Option-cases, inl, inr,
}
use mathlib.Core.Option.{some-injective}
use sim_mdms_auto.Model.{FinalMeasurement, HesReadRaw}
use sim_mdms_auto.Store.{Db}
use sim_mdms_auto.Billing.Rows.{HesSystem}
use sim_mdms_auto.Usage.Windows.{Zones, UsageType}
use sim_mdms_auto.Usage.Buckets.{
  FinalColumns, columns_of, final_columns, raw_of_final, UsageBucket, same_bucket, put_bucket,
  add_final, bucket_for, empty_bucket, build_usage_buckets,
}

add_swap : (a b c : ℤ) → (a +ℤ b) +ℤ c ≡ (a +ℤ c) +ℤ b
add_swap a b c = ground arith

add_assoc_ℤ : (a b c : ℤ) → (a +ℤ b) +ℤ c ≡ a +ℤ (b +ℤ c)
add_assoc_ℤ a b c = ground arith

add_zero : (a : ℤ) → pos 0 +ℤ a ≡ a
add_zero a = ground arith

-- the sum of the buckets' values, and the number of measurements in them
pub total : List UsageBucket → ℤ
total [] = pos 0
total (b ∷ bs) = b.usage_value +ℤ total bs

pub finals_in : List UsageBucket → ℕ
finals_in [] = 0
finals_in (b ∷ bs) = b.source_final_count + finals_in bs

abbrev pub value_or_zero : Option ℤ → ℤ
value_or_zero none = pos 0
value_or_zero (some v) = v

-- the sum of the values of final measurements
pub sum_of_finals : List FinalMeasurement → ℤ
sum_of_finals [] = pos 0
sum_of_finals (f ∷ fs) = value_or_zero f.value +ℤ sum_of_finals fs

columns-value :
    (a b c d : Option ℕ) (e : Option ℤ) (x : FinalColumns)
    → columns_of a b c d e ≡ some x
    → e ≡ some x.value
columns-value none b c d e x h = absurd (cc)
columns-value (some _) none c d e x h = absurd (cc)
columns-value (some _) (some _) none d e x h = absurd (cc)
columns-value (some _) (some _) (some _) none e x h = absurd (cc)
columns-value (some _) (some _) (some _) (some _) none x h = absurd (cc)
columns-value (some _) (some _) (some _) (some _) (some v) x h =
    ap (λ y. some y.value) (some-injective _ _ h)

final_columns-value :
    (f : FinalMeasurement) (c : FinalColumns)
    → final_columns f ≡ some c
    → value_or_zero f.value ≡ c.value
unfolding final_columns
final_columns-value f c h =
    rw
      (columns-value f.service_point_id f.measuring_component_id f.device_id f.measured_at f.value c
        h)
      refl

module _ (f : FinalMeasurement) (c : FinalColumns) (raw : Option HesReadRaw)
    (new : UsageBucket) where
  put_bucket-total :
      (bs : List UsageBucket)
      → new.usage_value ≡ pos 0
      → total (put_bucket new (add_final f c raw) bs) ≡ total bs +ℤ c.value
  unfolding put_bucket add_final total
  put_bucket-total [] z = rw z (ground arith)
  put_bucket-total (b ∷ bs) z = elim (Bool-cases (same_bucket new b)) [
    | inl e ↦ rw e (add_swap b.usage_value c.value (total bs))
    | inr e ↦ rw e (
        ap (λ t. b.usage_value +ℤ t) (put_bucket-total bs z)
        ∙ sym (add_assoc_ℤ b.usage_value (total bs) c.value))
  ]

  put_bucket-finals_in :
      (bs : List UsageBucket)
      → new.source_final_count ≡ 0
      → finals_in (put_bucket new (add_final f c raw) bs) ≡ suc (finals_in bs)
  unfolding put_bucket add_final finals_in
  put_bucket-finals_in [] z = omega arith
  put_bucket-finals_in (b ∷ bs) z = elim (Bool-cases (same_bucket new b)) [
    | inl e ↦ rw e (omega arith)
    | inr e ↦ rw e (omega (arith, put_bucket-finals_in bs z))
  ]

module _ (zones : Zones) (systems : List HesSystem) (db : Db) (type : UsageType) where
  bucket_for-empty :
      (c : FinalColumns) (raw : Option HesReadRaw)
      → ((bucket_for zones systems type c raw).usage_value ≡ pos 0)
        × ((bucket_for zones systems type c raw).source_final_count ≡ 0)
  unfolding bucket_for empty_bucket
  bucket_for-empty c raw = (refl, refl)

  -- Measurements that have their required columns can be put into buckets, which hold, together with
  -- what was in them, the sum of the measurements' values and their number: no measurement is lost or
  -- counted twice.
  pub build_usage_buckets-total :
      (fs : List FinalMeasurement) (bs : List UsageBucket)
      → All (λ f. is_some (final_columns f) ≡ true) fs
      → (bs' : List UsageBucket) × (build_usage_buckets zones systems db type fs bs ≡ some bs')
        × (total bs' ≡ total bs +ℤ sum_of_finals fs)
        × (finals_in bs' ≡ finals_in bs + length fs)
  unfolding build_usage_buckets sum_of_finals
  build_usage_buckets-total [] bs h = (bs, refl, ground arith, omega arith)
  build_usage_buckets-total (f ∷ fs) bs h = elim (Option-cases (final_columns f)) [
    | inl e ↦ absurd (cc (rw e at h.0))
    | inr (c, e) ↦
        let raw = raw_of_final db f in
        let new = bucket_for zones systems type c raw in
        let z = bucket_for-empty c raw in
        let (bs', built, values, number) =
          build_usage_buckets-total fs (put_bucket new (add_final f c raw) bs) h.1 in
        (
          bs',
          rw (e, build_usage_buckets) built,
          values
              ∙ (ap (λ t. t +ℤ sum_of_finals fs) (put_bucket-total f c raw new bs z.0)
                  ∙ (add_assoc_ℤ (total bs) c.value (sum_of_finals fs)
                      ∙ ap (λ v. total bs +ℤ (v +ℤ sum_of_finals fs))
                          (sym (final_columns-value f c e)))),
          omega (arith, number, put_bucket-finals_in f c raw new bs z.1),
        )
  ]
