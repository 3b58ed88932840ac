-- ===== src/ReplayRequests/Active.antt =====
-- Properties of app/services/vee_replay_requests.py: active requests, creation and cancellation.
use sim_mdms_auto.Prelude.{
  or_option, ℕ, ◌≤◌, Bool, true, false, ◌&&◌, Option, none, some, List, [], ◌∷◌, ◌++◌, Text, ◌≡◌,
  refl, sym, subst, ap, ◌==◌, arith, any-count, count, count-append, count-update_where_fail,
  scalar, scalar-none, get, modify, HasUniqueIds, HasUniqueIds-insert, HasUniqueIds-modify,
  opt_text_eq→eq, Bool-cases, inl, inr, next_id, by_id_desc, get-modify_same,
}
use sim_mdms_auto.Model.Replay.{
  ReplayStatus, ReplayScope, VeeReplayRequest, replay_request_id, hes_system, ingest_batch,
  date_range,
}
use sim_mdms_auto.Model.{VeeException}
use sim_mdms_auto.Store.{Db}
use sim_mdms_auto.Ops.Events.{record_operational_event}
use sim_mdms_auto.ReplayRequests.{
  ReplayForm, ReplayError, ok, err, ◌>>=◌, is_same_active, is_active_request, same_scope_key,
  sql_opt_eq, find_existing_active_request, has_targets, select_representative_exceptions,
  new_request, add_request, create_vee_replay_request, found, may_cancel, cancelled_request,
  cancel_vee_replay_request,
}

pub record IsActiveOnce (rows : List VeeReplayRequest) : Type 0 where
  pub ids : HasUniqueIds rows
  pub one_active : (f : ReplayForm) → count (is_same_active f) rows ≤ 1

sql_opt_eq→eq : (a b : Option ℕ) → sql_opt_eq a b ≡ true → a ≡ b
sql_opt_eq→eq none none h = refl
sql_opt_eq→eq none (some n) h = absurd (cc)
sql_opt_eq→eq (some m) none h = absurd (cc)
sql_opt_eq→eq (some m) (some n) h = ground arith

count-cong :
    (p q : VeeReplayRequest → Bool) (rows : List VeeReplayRequest)
    → ((r : VeeReplayRequest) → p r ≡ q r)
    → count p rows ≡ count q rows
count-cong p q [] g = refl
count-cong p q (r ∷ rs) g = rw (g r) (omega (arith, count-cong p q rs g))

-- a form that finds the request made from another form finds what that form finds
module _ (f g : ReplayForm) (n k : ℕ) (r : VeeReplayRequest) where
  same_key :
      (s t u : ReplayScope)
      → same_scope_key s t f (new_request n g k) ≡ true
      → same_scope_key s u f r ≡ same_scope_key t u g r
  same_key hes_system hes_system hes_system h =
      ap (sql_opt_eq r.hes_system_id) (sym (sql_opt_eq→eq g.hes_system_id f.hes_system_id h))
  same_key ingest_batch ingest_batch ingest_batch h =
      ap (sql_opt_eq r.ingest_batch_id) (sym (sql_opt_eq→eq g.ingest_batch_id f.ingest_batch_id h))
  same_key date_range date_range date_range h =
      rw (sql_opt_eq→eq g.measured_at_from f.measured_at_from (ground arith)) (
        rw (sql_opt_eq→eq g.measured_at_to f.measured_at_to (ground arith))
          (rw (opt_text_eq→eq g.window_timezone_name f.window_timezone_name (ground arith)) refl))
  same_key hes_system hes_system _ h = refl
  same_key ingest_batch ingest_batch _ h = refl
  same_key date_range date_range _ h = refl
  same_key s t u h = absurd (ground arith)

  same_active :
      is_same_active f (new_request n g k) ≡ true → is_same_active f r ≡ is_same_active g r
  unfolding is_same_active
  same_active h =
      let key = same_key f.request_scope g.request_scope r.request_scope (ground arith) in
      ap (λ b. is_active_request r.status && b) key

insert-IsActiveOnce :
    (g : ReplayForm) (k : ℕ) (rows : List VeeReplayRequest)
    → count (is_same_active g) rows ≡ 0
    → IsActiveOnce rows
    → IsActiveOnce (rows ++ new_request (next_id rows) g k ∷ [])
insert-IsActiveOnce g k rows z v = record {
  ids = HasUniqueIds-insert rows _ refl v.ids;
  one_active = λ f.
      let new = new_request (next_id rows) g k in
      elim (Bool-cases (is_same_active f new)) [
        | inl e ↦ rw (count-append (is_same_active f) rows (new ∷ [])) (
            rw e (
              omega (
                arith,
                z,
                count-cong (is_same_active f) (is_same_active g) rows
                    (λ r. same_active f g (next_id rows) k r e),
              )))
        | inr e ↦
            rw (count-append (is_same_active f) rows (new ∷ []))
              (rw e (omega (arith, v.one_active f)))
      ];
}

added :
    (now : ℕ) (f : ReplayForm) (targets : List VeeException) (db : Db)
    → IsActiveOnce db.replay_requests
    → count (is_same_active f) db.replay_requests ≡ 0
    → IsActiveOnce (add_request now f targets db).0.replay_requests
unfolding add_request record_operational_event
added now f targets db v z = insert-IsActiveOnce f _ db.replay_requests z v

pub created_from :
    (now : ℕ) (f : ReplayForm) (db db' : Db) (request : VeeReplayRequest) (items : ℕ)
    → create_vee_replay_request now f db ≡ ok (db', request, items)
    → (scalar by_id_desc (is_same_active f) db.replay_requests ≡ none)
      × (has_targets (select_representative_exceptions f db) ≡ true)
      × (add_request now f (select_representative_exceptions f db) db ≡ (db', request, items))
unfolding create_vee_replay_request find_existing_active_request
created_from now f db db' request items h = ground arith

-- If request ids are unique and for each scope at most one request is queued or processing, then both
-- hold after any request is created.
pub create_vee_replay_request-IsActiveOnce :
    (now : ℕ) (f : ReplayForm) (db db' : Db) (request : VeeReplayRequest) (items : ℕ)
    → IsActiveOnce db.replay_requests
    → create_vee_replay_request now f db ≡ ok (db', request, items)
    → IsActiveOnce db'.replay_requests
create_vee_replay_request-IsActiveOnce now f db db' request items v h =
    let (free, _, e) = created_from now f db db' request items h in
    subst (λ (x : Db × VeeReplayRequest × ℕ). IsActiveOnce x.0.replay_requests) e
      (added now f (select_representative_exceptions f db) db v
        (any-count _ db.replay_requests (scalar-none by_id_desc _ db.replay_requests free)))

cancelled_from :
    (now n : ℕ) (by : Text) (account : Option ℕ) (memo : Option Text) (db db' : Db)
    → cancel_vee_replay_request now n by account memo db ≡ ok db'
    → (r : VeeReplayRequest) × (get n db.replay_requests ≡ some r)
      × (r.status ≡ ReplayStatus.queued)
      × (modify n (cancelled_request now by account memo) db.replay_requests ≡ db'.replay_requests)
unfolding cancel_vee_replay_request
cancelled_from now n by account memo db db' h = go (get n db.replay_requests) refl h
  where
    marked : Db
    marked = record db {
      replay_requests = modify n (cancelled_request now by account memo) db.replay_requests;
    }

    go :
        (o : Option VeeReplayRequest)
        → get n db.replay_requests ≡ o
        → (found o >>= λ r. may_cancel r.status >>= λ _. ok marked) ≡ ok db'
        → (r : VeeReplayRequest) × (get n db.replay_requests ≡ some r)
          × (r.status ≡ ReplayStatus.queued)
          × (marked.replay_requests ≡ db'.replay_requests)
    go none q h' = absurd (cc)
    go (some r) q h' = (r, q, ground arith, ground arith)

never-active :
    (f : ReplayForm) (now : ℕ) (by : Text) (account : Option ℕ) (memo : Option Text)
    (r : VeeReplayRequest)
    → is_same_active f (cancelled_request now by account memo r) ≡ false
unfolding is_same_active
never-active f now by account memo r = refl

-- the request before and after its cancellation
pub record IsCancellation (now : ℕ) (by : Text) (account : Option ℕ) (memo : Option Text)
    (old new : VeeReplayRequest) : Type 0 where
  pub status : new.status ≡ ReplayStatus.cancelled
  pub who : new.cancelled_by ≡ some by
  pub who_account : new.cancelled_by_user_account_id ≡ account
  pub time : new.cancelled_at ≡ some now
  pub memo_kept : new.operator_memo ≡ or_option memo old.operator_memo
  pub same_scope : new.request_scope ≡ old.request_scope
  pub same_targets : new.target_initial_count ≡ old.target_initial_count

cancelled_request-IsCancellation :
    (now : ℕ) (by : Text) (account : Option ℕ) (memo : Option Text) (r : VeeReplayRequest)
    → IsCancellation now by account memo r (cancelled_request now by account memo r)
cancelled_request-IsCancellation now by account memo r = record {
  status = refl;
  who = refl;
  who_account = refl;
  time = refl;
  memo_kept = refl;
  same_scope = refl;
  same_targets = refl;
}

-- A cancellation that succeeds is of a stored request that was queued. Afterwards that request is
-- cancelled, by the given person and account, now, with the given memo or the old one where none is
-- given; any later cancellation of it, by anyone, is refused as already cancelled; unique request ids
-- and one queued or processing request for each scope, which are assumed, are kept.
pub cancel_vee_replay_request_lem :
    (now n : ℕ) (by : Text) (account : Option ℕ) (memo : Option Text) (db db' : Db)
    → IsActiveOnce db.replay_requests
    → cancel_vee_replay_request now n by account memo db ≡ ok db'
    → (r : VeeReplayRequest) × (get n db.replay_requests ≡ some r)
      × (r.status ≡ ReplayStatus.queued)
      × (r' : VeeReplayRequest) × (get n db'.replay_requests ≡ some r')
      × IsCancellation now by account memo r r'
      × IsActiveOnce db'.replay_requests
      × ((later : ℕ) (by' : Text) (account' : Option ℕ) (memo' : Option Text)
          → cancel_vee_replay_request later n by' account' memo' db'
            ≡ err ReplayError.already_cancelled)
unfolding cancel_vee_replay_request modify
cancel_vee_replay_request_lem now n by account memo db db' v h =
    let (r, q, queued, e) = cancelled_from now n by account memo db db' h in
    let f = cancelled_request now by account memo in
    let row =
      subst (λ z. get n z ≡ some (f r)) e
        (get-modify_same n f db.replay_requests r (λ _. refl) q) in
    (
      r,
      q,
      queued,
      f r,
      row,
      cancelled_request-IsCancellation now by account memo r,
      subst IsActiveOnce e (record {
        ids = HasUniqueIds-modify n f db.replay_requests (λ _. refl) v.ids;
        one_active = λ g. omega (
          arith,
          v.one_active g,
          count-update_where_fail (is_same_active g) (λ x. x.id == n) f db.replay_requests
              (never-active g now by account memo),
        );
      }),
      λ later by' account' memo'. rw row refl,
    )
