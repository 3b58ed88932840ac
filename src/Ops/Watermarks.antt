-- ===== src/Ops/Watermarks.antt =====
-- Properties of app/services/pipeline.py, `upsert_processing_watermark`.
use sim_mdms_auto.Prelude.{
  ℕ, Bool, true, false, ◌&&◌, ◌||◌, Option, none, some, List, Text, ◌≡◌, refl, arith, leb, any,
  any-append, scalar, scalar_sound, All-scalar, HasUniqueIds, Bool-cases, Option-cases, inl, inr,
  next_id, get_self, any-modify_grow, any-get, get_unique, opt_text_eq_refl, any_self,
  HasUniqueIds-insert, HasUniqueIds-modify, ==_refl,
}
use sim_mdms_auto.Ops.Rows.{PipelineName, ProcessingWatermark, watermark_id}
use sim_mdms_auto.Ops.Pipeline.{same_scope, put_watermark, upsert_processing_watermark, name_index}
use sim_mdms_auto.Store.{Db}

-- some watermark of the scope is at the time or after it
abbrev pub reached : PipelineName → Option Text → Option Text → ℕ → List ProcessingWatermark → Bool
reached name source record_type t ws =
    any (λ w. same_scope name source record_type w && leb t w.last_processed_at) ws

module _ (name : PipelineName) (source record_type : Option Text) where
  same_scope_new :
      (n at : ℕ)
      → same_scope name source record_type (record {
        id = n;
        pipeline_name = name;
        source_system = source;
        record_type = record_type;
        last_processed_at = at;
      })
        ≡ true
  unfolding same_scope
  same_scope_new n at =
      ground
        (arith, ==_refl (name_index name), opt_text_eq_refl source, opt_text_eq_refl record_type)

  same_scope-moved :
      (at : ℕ) (w : ProcessingWatermark)
      → same_scope name source record_type (record w { last_processed_at = at })
        ≡ same_scope name source record_type w
  unfolding same_scope
  same_scope-moved at w = refl

  module _ (at t : ℕ) (ws : List ProcessingWatermark) (u : HasUniqueIds ws) where
    put-reached-none :
        reached name source record_type t (put_watermark name source record_type at none ws)
        ≡ (reached name source record_type t ws || leb t at)
    unfolding put_watermark
    put-reached-none =
        rw
          (any-append (λ w. same_scope name source record_type w && leb t w.last_processed_at) ws _)
          (rw (same_scope_new (next_id ws) at) (ground arith))

    put-reached-some :
        (w : ProcessingWatermark)
        → scalar (λ _ _. false) (same_scope name source record_type) ws ≡ some w
        → reached name source record_type t (put_watermark name source record_type at (some w) ws)
          ≡ (reached name source record_type t ws || leb t at)
    unfolding put_watermark
    put-reached-some w h =
        let in_scope = scalar_sound _ _ ws w h in
        let stored = All-scalar _ _ _ ws w (get_self ws u) h in
        let moved = same_scope-moved at w in
        elim (Bool-cases (leb w.last_processed_at at)) [
          | inl e ↦ rw e (
              ground (
                arith,
                moved,
                in_scope,
                any-get w.id ws w stored,
                any-modify_grow
                    (λ x. same_scope name source record_type x && leb t x.last_processed_at) w.id
                    (λ r. record r { last_processed_at = at }) w ws
                    (get_unique w.id ws w (u w.id) stored) (ground (arith, moved, in_scope)),
              ))
          | inr e ↦ rw e (
              ground (
                arith,
                in_scope,
                All-scalar _ _ _ ws w
                    (any_self
                      (λ _ x. same_scope name source record_type x && leb t x.last_processed_at) ws)
                    h,
              ))
        ]

-- Advancing a watermark of a table with unique ids keeps the ids unique, and afterwards the scope has
-- reached exactly the times that it had reached before and those up to the given one, so that a
-- watermark never moves back.
pub upsert_processing_watermark_advances :
    (name : PipelineName) (source record_type : Option Text) (at : ℕ) (db : Db)
    → HasUniqueIds db.watermarks
    → let db' = upsert_processing_watermark name source record_type at db in
      HasUniqueIds db'.watermarks
      × ((t : ℕ)
          → reached name source record_type t db'.watermarks
            ≡ (reached name source record_type t db.watermarks || leb t at))
unfolding upsert_processing_watermark put_watermark
upsert_processing_watermark_advances name source record_type at db u =
    elim (Option-cases (scalar (λ _ _. false) (same_scope name source record_type) db.watermarks)) [
      | inl e ↦ rw e (
        HasUniqueIds-insert db.watermarks _ refl u,
        λ t. put-reached-none name source record_type at t db.watermarks u,
      )
      | inr (w, e) ↦
          rw e (kept w, λ t. put-reached-some name source record_type at t db.watermarks u w e)
    ]
  where
    kept :
        (w : ProcessingWatermark)
        → HasUniqueIds (put_watermark name source record_type at (some w) db.watermarks)
    kept w = elim (Bool-cases (leb w.last_processed_at at)) [
      | inl b ↦ rw b (HasUniqueIds-modify w.id _ db.watermarks (λ _. refl) u)
      | inr b ↦ rw b u
    ]
