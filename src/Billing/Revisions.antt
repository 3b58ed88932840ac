-- ===== src/Billing/Revisions.antt =====
-- What `calculate_bill_determinants` (app/services/bill_determinants.py) and
-- `calculate_bill_charges` (app/services/bill_charges.py) share: the loop that revises a table from
-- a list of source rows. The session does not flush inside the loop, so each query reads the table
-- as it was stored when the run began, while the row that it returns is the session's object.
use sim_mdms_auto.Prelude.{
  ℕ, ◌+◌, Bool, true, false, Option, none, some, List, [], ◌∷◌, ◌++◌, ltb, if◌then◌else◌, scalar,
  get, modify, next_id, HasId,
}

pub data CalculationStatus : Type 0 where
  complete partial blocked : CalculationStatus

-- the operations by which the two calculations differ
pub record Revising (U K P A : Type 0) : Type 0 where
  pub key : U → K
  -- none where the calculation raises
  pub payload : U → Option P
  pub status : P → CalculationStatus
  pub current : K → A → Bool
  pub same : U → P → A → Bool
  pub retire : A → A
  -- the id of the new row, and the row that it supersedes
  pub make : U → P → ℕ → Option A → A
  pub period_end : U → ℕ

pub record Tally : Type 0 where
  pub created : ℕ
  pub superseded : ℕ
  pub reused : ℕ
  pub complete : ℕ
  pub partial : ℕ
  pub blocked : ℕ
  pub latest : Option ℕ

abbrev pub no_rows : Tally
no_rows = record {
  created = 0;
  superseded = 0;
  reused = 0;
  complete = 0;
  partial = 0;
  blocked = 0;
  latest = none;
}

abbrev pub count_status : CalculationStatus → Tally → Tally
count_status CalculationStatus.complete t = record t { complete = t.complete + 1 }
count_status CalculationStatus.partial t = record t { partial = t.partial + 1 }
count_status CalculationStatus.blocked t = record t { blocked = t.blocked + 1 }

abbrev pub later : ℕ → Option ℕ → ℕ
later t none = t
later t (some s) = if ltb s t then t else s

abbrev pub see_end : ℕ → Tally → Tally
see_end t tally = record tally { latest = some (later t tally.latest) }

pub record Progress (A : Type 0) : Type 0 where
  pub rows : List A
  pub tally : Tally

module _ {U K P A : Type 0} ⦃k : HasId A⦄ (g : Revising U K P A) where
  -- the session's object for a row that a query returned
  abbrev pub session_row : Option A → List A → Option A
  session_row none rows = none
  session_row (some r) rows = get (k.row_id r) rows

  unfoldable pub find_current : U → List A → List A → Option A
  find_current u stored rows = session_row (scalar (λ _ _. false) (g.current (g.key u)) stored) rows

  abbrev pub supersede : U → P → A → List A → List A
  supersede u p r rows =
      let retired = modify (k.row_id r) g.retire rows in
      retired ++ g.make u p (next_id retired) (some r) ∷ []

  unfoldable pub revise_rows : U → P → Option A → Progress A → Progress A
  revise_rows u p none s = record {
    rows = s.rows ++ g.make u p (next_id s.rows) none ∷ [];
    tally = record s.tally { created = s.tally.created + 1 };
  }
  revise_rows u p (some r) s =
      if g.same u p r
      then record s { tally = record s.tally { reused = s.tally.reused + 1 } }
      else record {
        rows = supersede u p r s.rows;
        tally = record s.tally { superseded = s.tally.superseded + 1 };
      }

  unfoldable pub revise_from : List A → U → P → Progress A → Progress A
  unfolding find_current revise_rows
  revise_from stored u p s =
      let counted = record s { tally = count_status (g.status p) s.tally } in
      let revised = revise_rows u p (find_current u stored s.rows) counted in
      record revised { tally = see_end (g.period_end u) revised.tally }

  -- the result says whether the loop came to its end
  unfoldable pub revise_all : List A → List U → Progress A → Progress A × Bool
  unfolding revise_from
  revise_all stored [] s = (s, true)
  revise_all stored (u ∷ us) s = elim (g.payload u) [
    | none ↦ (s, false)
    | some p ↦ revise_all stored us (revise_from stored u p s)
  ]
