-- ===== src/Prelude/Queries.antt =====
-- What the queries and updates of a table return and keep.
use Prim.Native.Nat.{ℕ, suc, ◌+◌, ◌≤◌}
use mathlib.Core.Path.{◌≡◌, refl, sym, ap, subst}
use mathlib.Core.Logic.{inl, inr}
use mathlib.Core.Bool.{Bool, true, false, not, ◌&&◌}
use mathlib.Core.Option.{Option, none, some, some-injective}
use mathlib.Core.List.{List, [], ◌∷◌, ◌++◌}
use native.Mathlib.Omega.{arith}
use sim_mdms_auto.Prelude.Tests.{if◌then◌else◌, Bool-cases, Option-cases}
use sim_mdms_auto.Prelude.Lists.{length, All, All-mono, any}
use sim_mdms_auto.Prelude.Table.{select, pick, first_by, scalar, update_where}

module _ {ℓ} {A : Type ℓ} where
  -- how many rows pass a test
  abbrev pub count : (A → Bool) → List A → ℕ
  count p [] = 0
  count p (x ∷ xs) = (if p x then 1 else 0) + count p xs

  pub count-append : (p : A → Bool) (xs ys : List A) → count p (xs ++ ys) ≡ count p xs + count p ys
  count-append p [] ys = omega arith
  count-append p (x ∷ xs) ys = omega (arith, count-append p xs ys)

  pub any-count : (p : A → Bool) (xs : List A) → any p xs ≡ false → count p xs ≡ 0
  any-count p [] h = refl
  any-count p (x ∷ xs) h = ground (arith, any-count p xs)

  pub select-All : (p : A → Bool) (xs : List A) → All (λ x. p x ≡ true) (select p xs)
  unfolding select
  select-All p [] = tt
  select-All p (x ∷ xs) = elim (Bool-cases (p x)) [
    | inl e ↦ rw e (e, select-All p xs)
    | inr e ↦ rw e (select-All p xs)
  ]

  pub All-select {κ} :
      (P : A → Type κ) (p : A → Bool) (xs : List A) → All P xs → All P (select p xs)
  unfolding select
  All-select P p [] h = tt
  All-select P p (x ∷ xs) h = elim (Bool-cases (p x)) [
    | inl e ↦ rw e (h.0, All-select P p xs h.1)
    | inr e ↦ rw e (All-select P p xs h.1)
  ]

  pub first_by-none : (before : A → A → Bool) (xs : List A) → first_by before xs ≡ none → xs ≡ []
  unfolding first_by
  first_by-none before [] h = refl
  first_by-none before (x ∷ xs) h = elim (Option-cases (first_by before xs)) [
    | inl e ↦ ground arith
    | inr e ↦ ground (arith, e.1)
  ]

  pub All-first_by {κ} :
      (P : A → Type κ) (before : A → A → Bool) (xs : List A) (r : A)
      → All P xs
      → first_by before xs ≡ some r
      → P r
  unfolding first_by
  All-first_by P before [] r h e = absurd (cc)
  All-first_by P before (x ∷ xs) r h e =
      go (first_by before xs) (λ y. All-first_by P before xs y h.1) e
    where
      go : (o : Option A) → ((y : A) → o ≡ some y → P y) → pick before x o ≡ some r → P r
      go none ih e' = subst P (some-injective _ _ e') h.0
      go (some y) ih e' = elim (Bool-cases (before y x)) [
        | inl b ↦ subst P (some-injective _ _ (rw b at e')) (ih y refl)
        | inr b ↦ subst P (some-injective _ _ (rw b at e')) h.0
      ]

  -- the row that a query returns passes its test
  pub scalar_sound :
      (before : A → A → Bool) (p : A → Bool) (xs : List A) (r : A)
      → scalar before p xs ≡ some r
      → p r ≡ true
  unfolding scalar
  scalar_sound before p xs r =
      All-first_by (λ x. p x ≡ true) before (select p xs) r (select-All p xs)

  pub All-scalar {κ} :
      (P : A → Type κ) (before : A → A → Bool) (p : A → Bool) (xs : List A) (r : A)
      → All P xs
      → scalar before p xs ≡ some r
      → P r
  unfolding scalar
  All-scalar P before p xs r h = All-first_by P before (select p xs) r (All-select P p xs h)

  select-nil : (p : A → Bool) (xs : List A) → select p xs ≡ [] → any p xs ≡ false
  unfolding select
  select-nil p [] h = refl
  select-nil p (x ∷ xs) h = ground (arith, select-nil p xs)

  -- a query that finds nothing has no row to find
  pub scalar-none :
      (before : A → A → Bool) (p : A → Bool) (xs : List A)
      → scalar before p xs ≡ none
      → any p xs ≡ false
  unfolding scalar
  scalar-none before p xs h = select-nil p xs (first_by-none before (select p xs) h)

  pub any-false-All : (p : A → Bool) (xs : List A) → any p xs ≡ false → All (λ x. p x ≡ false) xs
  any-false-All p [] h = tt
  any-false-All p (x ∷ xs) h = (ground arith, any-false-All p xs (ground arith))

  pub All-any-false : (p : A → Bool) (xs : List A) → All (λ x. p x ≡ false) xs → any p xs ≡ false
  All-any-false p [] h = refl
  All-any-false p (x ∷ xs) h = ground (arith, h.0, All-any-false p xs h.1)

  pub All-update_where {κ μ} :
      (P : A → Type κ) (Q : A → Type μ) (p : A → Bool) (f : A → A) (xs : List A)
      → ((x : A) → P x → Q (if p x then f x else x))
      → All P xs
      → All Q (update_where p f xs)
  unfolding update_where
  All-update_where P Q p f [] g h = tt
  All-update_where P Q p f (x ∷ xs) g h = (g x h.0, All-update_where P Q p f xs g h.1)

  -- an update that leaves a test alone leaves its count alone
  pub count-update_where :
      (q p : A → Bool) (f : A → A) (xs : List A)
      → ((x : A) → p x ≡ true → q (f x) ≡ q x)
      → count q (update_where p f xs) ≡ count q xs
  unfolding update_where
  count-update_where q p f [] g = refl
  count-update_where q p f (x ∷ xs) g = elim (Bool-cases (p x)) [
    | inl e ↦ rw e (rw (g x e) (omega (arith, count-update_where q p f xs g)))
    | inr e ↦ rw e (omega (arith, count-update_where q p f xs g))
  ]

  -- the same where the update is only known to leave the test alone on the rows of the table
  pub count-update_where-All :
      (q p : A → Bool) (f : A → A) (xs : List A)
      → All (λ x. p x ≡ true → q (f x) ≡ q x) xs
      → count q (update_where p f xs) ≡ count q xs
  unfolding update_where
  count-update_where-All q p f [] g = refl
  count-update_where-All q p f (x ∷ xs) g = elim (Bool-cases (p x)) [
    | inl e ↦ rw e (rw (g.0 e) (omega (arith, count-update_where-All q p f xs g.1)))
    | inr e ↦ rw e (omega (arith, count-update_where-All q p f xs g.1))
  ]

  pub length-update_where :
      (p : A → Bool) (f : A → A) (xs : List A) → length (update_where p f xs) ≡ length xs
  unfolding update_where
  length-update_where p f [] = refl
  length-update_where p f (x ∷ xs) = ap suc (length-update_where p f xs)

  -- an update adds at most the rows that it touches to those that pass outside it
  pub count-update_where-le :
      (q p : A → Bool) (f : A → A) (xs : List A)
      → count q (update_where p f xs) ≤ count (λ x. q x && not (p x)) xs + count p xs
  unfolding update_where
  count-update_where-le q p f [] = omega arith
  count-update_where-le q p f (x ∷ xs) = ground (arith, count-update_where-le q p f xs)

  -- an update takes away no more than the rows that it changes
  pub count-update_where-ge :
      (q p : A → Bool) (f : A → A) (xs : List A)
      → count q xs ≤ count q (update_where p f xs) + count p xs
  unfolding update_where
  count-update_where-ge q p f [] = omega arith
  count-update_where-ge q p f (x ∷ xs) = ground (arith, count-update_where-ge q p f xs)

  -- an update whose results all fail a test does not raise its count
  pub count-update_where_fail :
      (q p : A → Bool) (f : A → A) (xs : List A)
      → ((x : A) → q (f x) ≡ false)
      → count q (update_where p f xs) ≤ count q xs
  unfolding update_where
  count-update_where_fail q p f [] g = omega arith
  count-update_where_fail q p f (x ∷ xs) g = ground (arith, g x, count-update_where_fail q p f xs g)

  pub count-zero_any : (p : A → Bool) (xs : List A) → count p xs ≡ 0 → any p xs ≡ false
  count-zero_any p [] h = refl
  count-zero_any p (x ∷ xs) h = ground (arith, count-zero_any p xs)

  -- a query over rows that all fail its test finds nothing
  pub scalar-of-none :
      (before : A → A → Bool) (p : A → Bool) (xs : List A)
      → any p xs ≡ false
      → scalar before p xs ≡ none
  scalar-of-none before p xs h = elim (Option-cases (scalar before p xs)) [
    | inl e ↦ e
    | inr (r, e) ↦ absurd (
        cc (
          scalar_sound before p xs r e,
          All-scalar (λ x. p x ≡ false) before p xs r (any-false-All p xs h) e,
        ))
  ]

  select-snoc :
      (p : A → Bool) (xs : List A) (x : A)
      → any p xs ≡ false
      → p x ≡ true
      → select p (xs ++ x ∷ []) ≡ x ∷ []
  unfolding select
  select-snoc p [] x h e = rw e
  select-snoc p (y ∷ ys) x h e = ground (arith, select-snoc p ys x (ground arith) e)

  -- a new row is found where no row was found before
  pub scalar-snoc :
      (before : A → A → Bool) (p : A → Bool) (xs : List A) (x : A)
      → scalar before p xs ≡ none
      → p x ≡ true
      → scalar before p (xs ++ x ∷ []) ≡ some x
  unfolding scalar first_by
  scalar-snoc before p xs x h e = rw (select-snoc p xs x (scalar-none before p xs h) e)

  pub length-select : (p : A → Bool) (xs : List A) → length (select p xs) ≡ count p xs
  unfolding select
  length-select p [] = refl
  length-select p (x ∷ xs) = ground (arith, length-select p xs)

  -- what passes the test among rows whose selection satisfies a predicate, satisfies it
  All-unselect {κ} :
      (P : A → Type κ) (p : A → Bool) (xs : List A)
      → All P (select p xs)
      → All (λ x. p x ≡ true → P x) xs
  unfolding select
  All-unselect P p [] h = tt
  All-unselect P p (x ∷ xs) h = elim (Bool-cases (p x)) [
    | inl e ↦
        let both : All P (x ∷ select p xs) = rw e at h in (λ _. both.0, All-unselect P p xs both.1)
    | inr e ↦ (λ q. absurd (cc (q, e)), All-unselect P p xs (rw e at h))
  ]

  module _ (before le : A → A → Bool) (itself : (x : A) → le x x ≡ true)
      (chain : (x y z : A) → le x y ≡ true → le y z ≡ true → le x z ≡ true)
      (first : (x y : A) → before y x ≡ true → le x y ≡ true)
      (second : (x y : A) → before y x ≡ false → le y x ≡ true) where
    first_by-last :
        (xs : List A) (r : A) → first_by before xs ≡ some r → All (λ x. le x r ≡ true) xs
    unfolding first_by
    first_by-last [] r h = tt
    first_by-last (x ∷ xs) r h = go (first_by before xs) refl (first_by-last xs) h
      where
        go :
            (o : Option A)
            → first_by before xs ≡ o
            → ((y : A) → first_by before xs ≡ some y → All (λ z. le z y ≡ true) xs)
            → pick before x o ≡ some r
            → All (λ z. le z r ≡ true) (x ∷ xs)
        go none e ih h' = (
          subst (λ z. le x z ≡ true) (some-injective _ _ h') (itself x),
          subst (All (λ z. le z r ≡ true)) (sym (first_by-none before xs e)) tt,
        )
        go (some y) e ih h' = elim (Bool-cases (before y x)) [
          | inl b ↦
              subst (λ z. All (λ w. le w z ≡ true) (x ∷ xs)) (some-injective _ _ (rw b at h'))
                (first x y b, ih y e)
          | inr b ↦
              subst (λ z. All (λ w. le w z ≡ true) (x ∷ xs)) (some-injective _ _ (rw b at h'))
                (itself x, All-mono _ _ xs (λ w g. chain w y x g (second x y b)) (ih y e))
        ]

    -- a query with an order returns the row that no row which passes its test comes after
    pub scalar-last :
        (p : A → Bool) (xs : List A) (r : A)
        → scalar before p xs ≡ some r
        → All (λ x. p x ≡ true → le x r ≡ true) xs
    unfolding scalar
    scalar-last p xs r h = All-unselect (λ x. le x r ≡ true) p xs (first_by-last (select p xs) r h)
