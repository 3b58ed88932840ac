-- ===== src/VeeReplayProcessor/Finish.antt =====
-- Lemmas on app/services/vee_replay_processor.py: the loop over the items of a request.
use sim_mdms_auto.Prelude.{
  ℕ, ◌+◌, Bool, true, false, not, map, length, ◌++◌, any-append, any-false-All, update_where, ◌&&◌,
  Option, some, List, [], ◌∷◌, ◌≡◌, refl, sym, ap, subst, ◌∙◌, arith, modify, get, get-modify_same,
  All, All-mono, All-update_where, any, any_self, any-select, any-order_by, count,
  count-update_where, select, by_id, HasUniqueIds, HasUniqueIds-modify, ◌==◌, ==_refl,
  if◌then◌else◌, Bool-cases, inl, inr,
}
use sim_mdms_auto.Model.Replay.{
  VeeReplayRequest, VeeReplayRequestItem, ItemStatus, replay_request_id, replay_item_id,
}
use sim_mdms_auto.Store.{Db}
use sim_mdms_auto.Vee.Actions.{ActionError}
use sim_mdms_auto.Billing.Store.{BillingDb}
use sim_mdms_auto.Usage.Windows.{Zones}
use sim_mdms_auto.Prelude.{Text}
use sim_mdms_auto.VeeReplayProcessor.{
  processing_item, is_pending_of, is_queued, process_item, process_items, count_item, ItemCounts,
  pending_items, one_if, is_pending,
}
use sim_mdms_auto.VeeReplayProcessor.Requests.{
  is_done, KeepsRequest, EndsItem, process_item-IsItemStep,
}

-- each pending item of the request is one of these
abbrev pub AreLeft : ℕ → List VeeReplayRequestItem → List VeeReplayRequestItem → Type 0
AreLeft n left rows = All (λ x. is_pending_of n x ≡ true → any (λ i. x.id == i.id) left ≡ true) rows

after_processing :
    (n : ℕ) (i : VeeReplayRequestItem) (left : List VeeReplayRequestItem) (x : VeeReplayRequestItem)
    → (is_pending_of n x ≡ true → any (λ j. x.id == j.id) (i ∷ left) ≡ true)
    → is_pending_of n (if x.id == i.id then processing_item x else x) ≡ true
    → any (λ j. (if x.id == i.id then processing_item x else x).id == j.id) left ≡ true
after_processing n i left x h = elim (Bool-cases (x.id == i.id)) [
  | inl e ↦ rw e (λ p. absurd (ground arith))
  | inr e ↦ rw e (λ p. rw e at (h p))
]

done_not_pending : (s : ItemStatus) → is_done s ≡ true → is_pending s ≡ false
done_not_pending s h = ground arith

module _ (n : ℕ) (i : VeeReplayRequestItem) (left rows rows' : List VeeReplayRequestItem) where
  -- an item that is done is not left
  AreLeft-step : EndsItem i.id rows rows' → AreLeft n (i ∷ left) rows → AreLeft n left rows'
  unfolding modify
  AreLeft-step s h = subst (AreLeft n left) (sym s.changed) (
      All-update_where _ _ (λ x. x.id == i.id) s.change _ changed_row
        (All-update_where _ _ (λ x. x.id == i.id) processing_item rows
          (λ x. after_processing n i left x) h))
    where
      changed_row :
          (x : VeeReplayRequestItem)
          → (is_pending_of n x ≡ true → any (λ j. x.id == j.id) left ≡ true)
          → is_pending_of n (if x.id == i.id then s.change x else x) ≡ true
          → any (λ j. (if x.id == i.id then s.change x else x).id == j.id) left ≡ true
      changed_row x g = elim (Bool-cases (x.id == i.id)) [
        | inl e ↦
            rw e (λ p. absurd (ground (arith, done_not_pending (s.change x).status (s.ended x))))
        | inr e ↦ rw e g
      ]

-- the pending items that a run loads are all that are left
pub pending-AreLeft : (n : ℕ) (db : Db) → AreLeft n (pending_items n db) db.replay_items
unfolding pending_items
pending-AreLeft n db =
    All-mono _ _ db.replay_items
      (λ x h p.
        any-order_by (λ i. x.id == i.id) by_id (select (is_pending_of n) db.replay_items)
        ∙ (any-select (λ i. x.id == i.id) (is_pending_of n) db.replay_items
            ∙ h (ground (arith, p, ==_refl x.id))))
      (any_self (λ x i. is_pending_of n i && x.id == i.id) db.replay_items)

-- the ids of the items of a table
abbrev pub item_ids : List VeeReplayRequestItem → List ℕ
item_ids rows = map (λ i. i.id) rows

-- each of these items is completed or failed in the table
abbrev pub AreDone : List VeeReplayRequestItem → List VeeReplayRequestItem → Type 0
AreDone done rows = All (λ x. any (λ j. x.id == j.id) done ≡ true → is_done x.status ≡ true) rows

item_ids-update_where :
    (p : VeeReplayRequestItem → Bool) (f : VeeReplayRequestItem → VeeReplayRequestItem)
    (rows : List VeeReplayRequestItem)
    → ((x : VeeReplayRequestItem) → (f x).id ≡ x.id)
    → item_ids (update_where p f rows) ≡ item_ids rows
unfolding update_where
item_ids-update_where p f [] same = refl
item_ids-update_where p f (x ∷ xs) same = elim (Bool-cases (p x)) [
  | inl e ↦ rw (e, same x, item_ids-update_where p f xs same) refl
  | inr e ↦ rw (e, item_ids-update_where p f xs same) refl
]

module _ (i : VeeReplayRequestItem) (rows rows' : List VeeReplayRequestItem)
    (s : EndsItem i.id rows rows') where
  item_ids-step : item_ids rows' ≡ item_ids rows
  unfolding modify
  item_ids-step =
      ap item_ids s.changed
      ∙ (item_ids-update_where (λ x. x.id == i.id) s.change _ s.same_id
          ∙ item_ids-update_where (λ x. x.id == i.id) processing_item rows (λ x. refl))

  -- an item that is worked on is done, and those that were done before stay so
  AreDone-step : (done : List VeeReplayRequestItem) → AreDone done rows → AreDone (i ∷ done) rows'
  unfolding modify
  AreDone-step done h = subst (AreDone (i ∷ done)) (sym s.changed) (
      All-update_where (λ x. Was x) _ (λ x. x.id == i.id) s.change _ second
        (All-update_where _ (λ x. Was x) (λ x. x.id == i.id) processing_item rows first h))
    where
      Was : VeeReplayRequestItem → Type 0
      Was x = (x.id == i.id) ≡ false → any (λ j. x.id == j.id) done ≡ true → is_done x.status ≡ true

      first :
          (x : VeeReplayRequestItem)
          → (any (λ j. x.id == j.id) done ≡ true → is_done x.status ≡ true)
          → Was (if x.id == i.id then processing_item x else x)
      first x g = elim (Bool-cases (x.id == i.id)) [
        | inl e ↦ rw e (λ q. absurd (cc (q, e)))
        | inr e ↦ rw e (λ q. g)
      ]

      worked :
          (x : VeeReplayRequestItem) (b : Bool)
          → (x.id == i.id) ≡ b
          → Was x
          → any (λ j. (if b then s.change x else x).id == j.id) (i ∷ done) ≡ true
          → is_done (if b then s.change x else x).status ≡ true
      worked x true e g q = s.ended x
      worked x false e g q = g e (rw e at q)

      second :
          (x : VeeReplayRequestItem)
          → Was x
          → any (λ j. (if x.id == i.id then s.change x else x).id == j.id) (i ∷ done) ≡ true
          → is_done (if x.id == i.id then s.change x else x).status ≡ true
      second x = worked x (x.id == i.id) refl

-- the requests from one point of a run to a later one: ids stay unique, no request comes to or leaves
-- the queue, and the one with this id keeps its status and counts these failures
pub record IsSteady (n failed : ℕ) (rows rows' : List VeeReplayRequest) : Type 0 where
  pub ids : HasUniqueIds rows → HasUniqueIds rows'
  pub queued : count (λ r. is_queued r.status) rows' ≡ count (λ r. is_queued r.status) rows
  pub found :
      (r : VeeReplayRequest)
      → get n rows ≡ some r
      → (r' : VeeReplayRequest) × (get n rows' ≡ some r')
        × (r'.status ≡ r.status)
        × (r'.failed_count ≡ r.failed_count + failed)

pub IsSteady-refl : (n : ℕ) (rows : List VeeReplayRequest) → IsSteady n 0 rows rows
IsSteady-refl n rows = record {
  ids = λ u. u;
  queued = refl;
  found = λ r e. (r, e, refl, omega arith);
}

pub IsSteady-trans :
    (n j k : ℕ) (a b c : List VeeReplayRequest)
    → IsSteady n j a b
    → IsSteady n k b c
    → IsSteady n (j + k) a c
IsSteady-trans n j k a b c p q = record {
  ids = λ u. q.ids (p.ids u);
  queued = q.queued ∙ p.queued;
  found = λ r e.
      let (r', e', s', f') = p.found r e in
      let (r'', e'', s'', f'') = q.found r' e' in (r'', e'', s'' ∙ s', omega (arith, f', f''));
}

kept-IsSteady :
    (n failed : ℕ) (rows rows' : List VeeReplayRequest)
    → KeepsRequest n failed rows rows'
    → IsSteady n failed rows rows'
kept-IsSteady n failed rows rows' k = subst (IsSteady n failed rows) (sym k.changed) steady
  where
    steady : IsSteady n failed rows (modify n k.change rows)
    steady = record {
      ids = HasUniqueIds-modify n k.change rows k.same_id;
      queued =
          unfold modify in
          count-update_where (λ r. is_queued r.status) (λ r. r.id == n) k.change rows
            (λ r _. ap is_queued (k.same_status r));
      found = λ r e.
          (k.change r, get-modify_same n k.change rows r k.same_id e, k.same_status r, k.counted r);
    }

-- what the loop over these items leaves, from one store and count to another
pub record IsWorked (n : ℕ) (is : List VeeReplayRequestItem) (db db' : Db) (c c' : ItemCounts)
    : Type 0 where
  pub failed : ℕ
  pub failures : c'.failed ≡ c.failed + failed
  pub all_counted : c'.succeeded + c'.failed ≡ c.succeeded + c.failed + length is
  pub left : AreLeft n [] db'.replay_items
  pub same_ids : item_ids db'.replay_items ≡ item_ids db.replay_items
  pub steady : IsSteady n failed db.replay_requests db'.replay_requests

count_item_failed :
    (b : Bool) (c : ItemCounts) → (count_item b c).failed ≡ c.failed + one_if (not b)
count_item_failed true c = omega arith
count_item_failed false c = refl

count_item_all :
    (b : Bool) (c : ItemCounts)
    → (count_item b c).succeeded + (count_item b c).failed ≡ c.succeeded + c.failed + 1
count_item_all true c = omega arith
count_item_all false c = omega arith

AreDone-swap :
    (i : VeeReplayRequestItem) (is done rows : List VeeReplayRequestItem)
    → AreDone (is ++ i ∷ done) rows
    → AreDone ((i ∷ is) ++ done) rows
AreDone-swap i is done rows h =
    All-mono _ _ rows
      (λ x g e. g (
        ground (
          arith,
          e,
          any-append (λ j. x.id == j.id) is done,
          any-append (λ j. x.id == j.id) is (i ∷ done),
        )))
      h

module _ (zones : Zones) (error_text : Option ActionError → Text) (now : ℕ)
    (processed_by : Text) where
  -- the loop works on every item that it was given
  pub process_items_lem :
      (n : ℕ) (is : List VeeReplayRequestItem) (db : BillingDb) (c : ItemCounts)
      → AreLeft n is db.core.replay_items
      → let result = process_items zones error_text now processed_by n is db c in
        IsWorked n is db.core result.0.core c result.1
  unfolding process_items
  process_items_lem n [] db c h = record {
    failed = 0;
    failures = omega arith;
    all_counted = omega arith;
    left = h;
    same_ids = refl;
    steady = IsSteady-refl n db.core.replay_requests;
  }
  process_items_lem n (i ∷ is) db c h =
      let result = process_item zones error_text now processed_by n i db in
      let step = process_item-IsItemStep zones error_text now processed_by n i db in
      let rest =
        process_items_lem n is result.0 (count_item result.1 c)
          (AreLeft-step n i is db.core.replay_items result.0.core.replay_items step.items h) in
      record {
        failed = one_if (not result.1) + rest.failed;
        failures = omega (arith, rest.failures, count_item_failed result.1 c);
        all_counted = omega (arith, rest.all_counted, count_item_all result.1 c);
        left = rest.left;
        same_ids =
            rest.same_ids
            ∙ item_ids-step i db.core.replay_items result.0.core.replay_items step.items;
        steady =
            IsSteady-trans n (one_if (not result.1)) rest.failed db.core.replay_requests
              result.0.core.replay_requests _
              (kept-IsSteady n (one_if (not result.1)) db.core.replay_requests
                result.0.core.replay_requests step.requests)
              rest.steady;
      }

  -- each item that it was given is completed or failed, as are those done before
  process_items-AreDone_before :
      (n : ℕ) (is done : List VeeReplayRequestItem) (db : BillingDb) (c : ItemCounts)
      → AreDone done db.core.replay_items
      → AreDone
          (is ++ done)
          (process_items zones error_text now processed_by n is db c).0.core.replay_items
  unfolding process_items
  process_items-AreDone_before n [] done db c h = h
  process_items-AreDone_before n (i ∷ is) done db c h =
      let result = process_item zones error_text now processed_by n i db in
      let step = process_item-IsItemStep zones error_text now processed_by n i db in
      AreDone-swap i is done _ (
        process_items-AreDone_before n is (i ∷ done) result.0 (count_item result.1 c)
          (AreDone-step i db.core.replay_items result.0.core.replay_items step.items done h))

  pub process_items-AreDone :
      (n : ℕ) (is : List VeeReplayRequestItem) (db : BillingDb) (c : ItemCounts)
      → AreDone is (process_items zones error_text now processed_by n is db c).0.core.replay_items
  process_items-AreDone n is db c =
      All-mono _ _ _ (λ x g e. g (ground (arith, e, any-append (λ j. x.id == j.id) is [])))
        (process_items-AreDone_before n is [] db c (
          All-mono _ _ db.core.replay_items (λ x g e. absurd (cc e))
            (any-false-All (λ x. false) db.core.replay_items (never db.core.replay_items))))
    where
      never : (rows : List VeeReplayRequestItem) → any (λ x. false) rows ≡ false
      never [] = refl
      never (x ∷ xs) = never xs
