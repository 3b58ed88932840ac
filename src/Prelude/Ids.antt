-- ===== src/Prelude/Ids.antt =====
-- Primary keys: what reads and changes by id do, and that inserts keep ids unique.
use Prim.Native.Nat.{ℕ, suc, ◌≤◌, ◌<◌}
use mathlib.Core.Path.{◌≡◌, refl, subst}
use mathlib.Core.Logic.{inl, inr}
use mathlib.Core.Bool.{true}
use mathlib.Core.Option.{Option, none, some, some-injective}
use mathlib.Core.Option
use mathlib.Core.List.{List, [], ◌∷◌, ◌++◌}
use native.Mathlib.Omega.{arith}
use sim_mdms_auto.Prelude.Tests.{◌==◌, if◌then◌else◌, Bool-cases, ==→eq, is_some}
use sim_mdms_auto.Prelude.Lists.{All}
use sim_mdms_auto.Prelude.Table.{HasId, update_where, get, max_id, next_id, modify}
use sim_mdms_auto.Prelude.Queries.{count, count-append, count-update_where}

is_some-map {ℓ} : {A : Type ℓ} (f : A → A) (o : Option A) → is_some (Option.map f o) ≡ is_some o
is_some-map f none = refl
is_some-map f (some a) = refl

module _ {ℓ} {A : Type ℓ} ⦃k : HasId A⦄ where
  pub get_sound : (n : ℕ) (xs : List A) (r : A) → get n xs ≡ some r → k.row_id r ≡ n
  unfolding get
  get_sound n [] r h = absurd (cc)
  get_sound n (x ∷ xs) r h = elim (Bool-cases (k.row_id x == n)) [
    | inl e ↦ subst (λ y. k.row_id y ≡ n) (some-injective _ _ (rw e at h)) (==→eq _ _ e)
    | inr e ↦ get_sound n xs r (rw e at h)
  ]

  pub All-get {κ} :
      (P : A → Type κ) (n : ℕ) (xs : List A) (r : A) → All P xs → get n xs ≡ some r → P r
  unfolding get
  All-get P n [] r h e = absurd (cc)
  All-get P n (x ∷ xs) r h e = elim (Bool-cases (k.row_id x == n)) [
    | inl b ↦ subst P (some-injective _ _ (rw b at e)) h.0
    | inr b ↦ All-get P n xs r h.1 (rw b at e)
  ]

  ids-below : (b : ℕ) (xs : List A) → max_id xs ≤ b → All (λ x. k.row_id x ≤ b) xs
  unfolding max_id
  ids-below b [] h = tt
  ids-below b (x ∷ xs) h = (omega arith, ids-below b xs (omega arith))

  -- the id of an insert is new
  pub next_id-fresh : (xs : List A) → All (λ x. k.row_id x < next_id xs) xs
  unfolding next_id
  next_id-fresh xs = go xs (ids-below (max_id xs) xs (omega arith))
    where
      go :
          (ys : List A)
          → All (λ x. k.row_id x ≤ max_id xs) ys
          → All (λ x. k.row_id x < suc (max_id xs)) ys
      go [] h = tt
      go (y ∷ ys) h = (omega (arith, h.0), go ys h.1)

  -- no row has the id that the next insert gives
  pub count-next_id : (xs : List A) → count (λ x. k.row_id x == next_id xs) xs ≡ 0
  count-next_id xs = go xs (next_id-fresh xs)
    where
      go :
          (ys : List A)
          → All (λ x. k.row_id x < next_id xs) ys
          → count (λ x. k.row_id x == next_id xs) ys ≡ 0
      go [] h = refl
      go (y ∷ ys) h = ground (arith, h.0, go ys h.1)

  -- a change that keeps the ids is seen by a read of the same id, and by no other
  pub get-modify :
      (n m : ℕ) (f : A → A) (xs : List A)
      → ((x : A) → k.row_id (f x) ≡ k.row_id x)
      → get m (modify n f xs) ≡ (if n == m then Option.map f (get m xs) else get m xs)
  unfolding get modify update_where
  get-modify n m f [] g = ground arith
  get-modify n m f (x ∷ xs) g = ground (arith, g x, get-modify n m f xs g)

  abbrev pub HasUniqueIds : List A → Type 0
  HasUniqueIds xs = (n : ℕ) → count (λ x. k.row_id x == n) xs ≤ 1

  -- an insert under the next id keeps the ids unique
  pub HasUniqueIds-insert :
      (xs : List A) (r : A)
      → k.row_id r ≡ next_id xs
      → HasUniqueIds xs
      → HasUniqueIds (xs ++ r ∷ [])
  HasUniqueIds-insert xs r e u n =
      rw (count-append (λ x. k.row_id x == n) xs (r ∷ [])) (elim (Bool-cases (next_id xs == n)) [
        | inl q ↦ rw e (
            rw q (
              rw (subst (λ m. count (λ x. k.row_id x == m) xs ≡ 0) (==→eq _ _ q) (count-next_id xs))
                (omega arith)))
        | inr q ↦ rw e (rw q (omega (arith, u n)))
      ])

  pub HasUniqueIds-modify :
      (m : ℕ) (f : A → A) (xs : List A)
      → ((x : A) → k.row_id (f x) ≡ k.row_id x)
      → HasUniqueIds xs
      → HasUniqueIds (modify m f xs)
  unfolding modify
  HasUniqueIds-modify m f xs same u n =
      rw
        (count-update_where (λ x. k.row_id x == n) (λ x. k.row_id x == m) f xs (λ x _. rw (same x)))
        (u n)

  none-with-id :
      (n : ℕ) (P : A → Type ℓ) (xs : List A)
      → count (λ x. k.row_id x == n) xs ≡ 0
      → All (λ x. (k.row_id x == n) ≡ true → P x) xs
  none-with-id n P [] h = tt
  none-with-id n P (x ∷ xs) h = elim (Bool-cases (k.row_id x == n)) [
    | inl e ↦ absurd (ground arith)
    | inr e ↦ (λ e'. absurd (cc), none-with-id n P xs (ground arith))
  ]

  -- the row that `get` returns is the only one with its id
  pub get_unique :
      (n : ℕ) (xs : List A) (r : A)
      → count (λ x. k.row_id x == n) xs ≤ 1
      → get n xs ≡ some r
      → All (λ x. (k.row_id x == n) ≡ true → x ≡ r) xs
  unfolding get
  get_unique n [] r u h = tt
  get_unique n (x ∷ xs) r u h = elim (Bool-cases (k.row_id x == n)) [
    | inl e ↦ (λ _. some-injective _ _ (rw e at h), none-with-id n (λ y. y ≡ r) xs (ground arith))
    | inr e ↦ (λ e'. absurd (cc), get_unique n xs r (ground arith) (rw e at h))
  ]

  pub get-modify_some :
      (n m : ℕ) (f : A → A) (xs : List A)
      → ((x : A) → k.row_id (f x) ≡ k.row_id x)
      → is_some (get m (modify n f xs)) ≡ is_some (get m xs)
  get-modify_some n m f xs g =
      rw (get-modify n m f xs g)
        (elim (Bool-cases (n == m)) [ inl e ↦ rw e (is_some-map f (get m xs)) | inr e ↦ rw e refl ])
