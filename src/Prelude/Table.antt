-- ===== src/Prelude/Table.antt =====
-- A table is the list of its rows. The queries of the services, and what they return.
use Prim.Native.Nat.{ℕ, suc, max}
use mathlib.Core.Bool.{Bool}
use mathlib.Core.Option.{Option, none, some}
use mathlib.Core.List.{List, [], ◌∷◌}
use sim_mdms_auto.Prelude.Tests.{ltb, ◌==◌, if◌then◌else◌}

-- Every mapped row has an integer primary key.
pub record HasId {ℓ} (A : Type ℓ) : Type ℓ where
  pub row_id : A → ℕ

module _ {ℓ} {A : Type ℓ} where
  -- WHERE
  unfoldable pub select : (A → Bool) → List A → List A
  select p [] = []
  select p (x ∷ xs) = let rest = select p xs in if p x then x ∷ rest else rest

  abbrev pub pick : (A → A → Bool) → A → Option A → Option A
  pick before x none = some x
  pick before x (some y) = if before y x then some y else some x

  -- ORDER BY … LIMIT 1: the first of the rows that no other row precedes
  unfoldable pub first_by : (A → A → Bool) → List A → Option A
  first_by before [] = none
  first_by before (x ∷ xs) = pick before x (first_by before xs)

  unfoldable pub scalar : (A → A → Bool) → (A → Bool) → List A → Option A
  scalar before p xs = first_by before (select p xs)

  -- UPDATE … WHERE
  unfoldable pub update_where : (A → Bool) → (A → A) → List A → List A
  update_where p f [] = []
  update_where p f (x ∷ xs) = (if p x then f x else x) ∷ update_where p f xs

  unfoldable pub insert_by : (A → A → Bool) → A → List A → List A
  insert_by before x [] = x ∷ []
  insert_by before x (y ∷ ys) =
      let rest = y ∷ ys in
      let deeper = y ∷ insert_by before x ys in if before y x then deeper else x ∷ rest

  -- ORDER BY, stable
  unfoldable pub order_by : (A → A → Bool) → List A → List A
  unfolding insert_by
  order_by before [] = []
  order_by before (x ∷ xs) = insert_by before x (order_by before xs)

module _ {ℓ} {A : Type ℓ} ⦃k : HasId A⦄ where
  abbrev pub by_id : A → A → Bool
  by_id x y = ltb (k.row_id x) (k.row_id y)

  abbrev pub by_id_desc : A → A → Bool
  by_id_desc x y = ltb (k.row_id y) (k.row_id x)

  -- `session.get(Model, id)`
  unfoldable pub get : ℕ → List A → Option A
  get n [] = none
  get n (x ∷ xs) = if k.row_id x == n then some x else get n xs

  abbrev pub get? : Option ℕ → List A → Option A
  get? none xs = none
  get? (some n) xs = get n xs

  unfoldable pub max_id : List A → ℕ
  max_id [] = 0
  max_id (x ∷ xs) = max (k.row_id x) (max_id xs)

  -- the id that an insert gives: above every id of the table
  unfoldable pub next_id : List A → ℕ
  unfolding max_id
  next_id xs = suc (max_id xs)

  -- a change of the row with this id
  unfoldable pub modify : ℕ → (A → A) → List A → List A
  modify n f xs = update_where (λ x. k.row_id x == n) f xs
