-- ===== src/Prelude/Unique.antt =====
-- Lemmas on tables with unique primary keys: reads, single changes and queries for one row.
use Prim.Native.Nat.{ℕ, suc, ◌≤◌, ◌<◌}
use mathlib.Core.Path.{◌≡◌, refl, sym, subst}
use mathlib.Core.Logic.{inl, inr}
use mathlib.Core.Bool.{Bool, true, false, ◌||◌, ◌&&◌}
use mathlib.Core.Option.{none, some, some-injective}
use mathlib.Core.List.{List, [], ◌∷◌, ◌++◌}
use native.Mathlib.Omega.{arith}
use sim_mdms_auto.Prelude.Tests.{◌==◌, Bool-cases, ==→eq}
use sim_mdms_auto.Prelude.Lists.{All, All-mono, any}
use sim_mdms_auto.Prelude.Table.{
  HasId, select, first_by, scalar, update_where, get, next_id, modify,
}
use sim_mdms_auto.Prelude.Queries.{
  count, count-update_where, count-update_where_fail, count-zero_any, any-false-All, scalar-of-none,
}
use sim_mdms_auto.Prelude.Ids.{All-get, next_id-fresh, get-modify, HasUniqueIds}

module _ {ℓ} {A : Type ℓ} ⦃k : HasId A⦄ where
  count-get :
      (n : ℕ) (xs : List A) (r : A) → get n xs ≡ some r → 1 ≤ count (λ x. k.row_id x == n) xs
  unfolding get
  count-get n [] r h = absurd (cc)
  count-get n (x ∷ xs) r h = elim (Bool-cases (k.row_id x == n)) [
    | inl e ↦ rw e (omega arith)
    | inr e ↦ rw e (omega (arith, count-get n xs r (rw e at h)))
  ]

  -- with unique ids, `get` finds every row under its own id
  pub get_self : (xs : List A) → HasUniqueIds xs → All (λ x. get (k.row_id x) xs ≡ some x) xs
  unfolding get
  get_self [] u = tt
  get_self (x ∷ xs) u = (
    ground arith,
    All-mono _ _ xs
        (λ y h. elim (Bool-cases (k.row_id x == k.row_id y)) [
          | inl e ↦ absurd (omega (arith, rw e at (u (k.row_id y)), count-get _ xs y h))
          | inr e ↦ rw e h
        ])
        (get_self xs (λ n. omega (arith, u n))),
  )

  -- what a change of the one row with an id does to a test that the change can only make true
  pub any-modify_grow :
      (q : A → Bool) (n : ℕ) (f : A → A) (r : A) (xs : List A)
      → All (λ x. (k.row_id x == n) ≡ true → x ≡ r) xs
      → (q r ≡ true → q (f r) ≡ true)
      → any q (modify n f xs) ≡ (any q xs || (any (λ x. k.row_id x == n) xs && q (f r)))
  unfolding modify update_where
  any-modify_grow q n f r [] one g = refl
  any-modify_grow q n f r (x ∷ xs) one g = elim (Bool-cases (k.row_id x == n)) [
    | inl e ↦ rw e (rw (one.0 e) (ground (arith, g, any-modify_grow q n f r xs one.1 g)))
    | inr e ↦ rw e (ground (arith, any-modify_grow q n f r xs one.1 g))
  ]

  pub any-get :
      (n : ℕ) (xs : List A) (r : A) → get n xs ≡ some r → any (λ x. k.row_id x == n) xs ≡ true
  unfolding get
  any-get n [] r h = absurd (cc)
  any-get n (x ∷ xs) r h = elim (Bool-cases (k.row_id x == n)) [
    | inl e ↦ rw e refl
    | inr e ↦ rw e (any-get n xs r (rw e at h))
  ]

  found-absent :
      (p : A → Bool) (n : ℕ) (xs : List A) (r : A)
      → count p xs ≡ 0
      → get n xs ≡ some r
      → p r ≡ true
      → ⊥
  found-absent p n xs r u h pr =
      cc (pr, All-get (λ y. p y ≡ false) n xs r (any-false-All p xs (count-zero_any p xs u)) h)

  -- two rows under a test that at most one row passes are one row
  pub unique-by :
      (p : A → Bool) (i j : ℕ) (xs : List A) (r s : A)
      → count p xs ≤ 1
      → get i xs ≡ some r
      → get j xs ≡ some s
      → p r ≡ true
      → p s ≡ true
      → i ≡ j
  unfolding get
  unique-by p i j [] r s u hr hs pr ps = absurd (cc)
  unique-by p i j (x ∷ xs) r s u hr hs pr ps = elim (Bool-cases (k.row_id x == i)) [
    | inl e ↦ elim (Bool-cases (k.row_id x == j)) [
      | inl e' ↦ omega (arith, ==→eq _ _ e, ==→eq _ _ e')
      | inr e' ↦
          let px = subst (λ y. p y ≡ true) (sym (some-injective _ _ (rw e at hr))) pr in
          absurd (found-absent p j xs s (omega (arith, rw px at u)) (rw e' at hs) ps)
    ]
    | inr e ↦ elim (Bool-cases (k.row_id x == j)) [
      | inl e' ↦
          let px = subst (λ y. p y ≡ true) (sym (some-injective _ _ (rw e' at hs))) ps in
          absurd (found-absent p i xs r (omega (arith, rw px at u)) (rw e at hr) pr)
      | inr e' ↦ unique-by p i j xs r s (omega (arith, u)) (rw e at hr) (rw e' at hs) pr ps
    ]
  ]

  -- a change that makes the one row with an id fail a test lowers the count of that test
  pub count-modify_fail :
      (q : A → Bool) (n : ℕ) (f : A → A) (r : A) (xs : List A)
      → get n xs ≡ some r
      → q r ≡ true
      → ((x : A) → q (f x) ≡ false)
      → suc (count q (modify n f xs)) ≤ count q xs
  unfolding get modify update_where
  count-modify_fail q n f r [] h qr g = absurd (cc)
  count-modify_fail q n f r (x ∷ xs) h qr g = elim (Bool-cases (k.row_id x == n)) [
    | inl e ↦
        let qx = subst (λ y. q y ≡ true) (sym (some-injective _ _ (rw e at h))) qr in
        rw e (
          rw qx (rw (g x) (omega (arith, count-update_where_fail q (λ y. k.row_id y == n) f xs g))))
    | inr e ↦ rw e (omega (arith, count-modify_fail q n f r xs (rw e at h) qr g))
  ]

  -- the new row is found under the id that the insert gave it
  pub get-insert :
      (xs : List A) (r : A) → k.row_id r ≡ next_id xs → get (next_id xs) (xs ++ r ∷ []) ≡ some r
  unfolding get
  get-insert xs r e = go xs (next_id-fresh xs)
    where
      go :
          (ys : List A)
          → All (λ x. k.row_id x < next_id xs) ys
          → get (next_id xs) (ys ++ r ∷ []) ≡ some r
      go [] h = rw e (ground arith)
      go (y ∷ ys) h = ground (arith, h.0, go ys h.1)

  none-selected :
      (before : A → A → Bool) (p : A → Bool) (ys : List A)
      → count p ys ≡ 0
      → first_by before (select p ys) ≡ none
  unfolding scalar
  none-selected before p ys z = scalar-of-none before p ys (count-zero_any p ys z)

  -- a query whose test only one row passes returns that row
  pub scalar-only :
      (before : A → A → Bool) (p : A → Bool) (n : ℕ) (xs : List A) (r : A)
      → count p xs ≤ 1
      → get n xs ≡ some r
      → p r ≡ true
      → scalar before p xs ≡ some r
  unfolding get scalar first_by select
  scalar-only before p n [] r u h pr = absurd (cc)
  scalar-only before p n (x ∷ xs) r u h pr = elim (Bool-cases (k.row_id x == n)) [
    | inl e ↦
        let px = subst (λ y. p y ≡ true) (sym (some-injective _ _ (rw e at h))) pr in
        rw px (rw (none-selected before p xs (omega (arith, rw px at u))) (rw e at h))
    | inr e ↦ elim (Bool-cases (p x)) [
      | inl px ↦ absurd (found-absent p n xs r (omega (arith, rw px at u)) (rw e at h) pr)
      | inr px ↦ rw px (scalar-only before p n xs r (omega (arith, rw px at u)) (rw e at h) pr)
    ]
  ]

  -- the one row with an id changed: a predicate holds if it held and the change keeps it on that row
  pub All-modify {κ} :
      (P : A → Type κ) (n : ℕ) (f : A → A) (r : A) (xs : List A)
      → All (λ x. (k.row_id x == n) ≡ true → x ≡ r) xs
      → (P r → P (f r))
      → All P xs
      → All P (modify n f xs)
  unfolding modify update_where
  All-modify P n f r [] one g h = tt
  All-modify P n f r (x ∷ xs) one g h = elim (Bool-cases (k.row_id x == n)) [
    | inl e ↦ (
      rw e (subst (λ z. P (f z)) (sym (one.0 e)) (g (subst P (one.0 e) h.0))),
      All-modify P n f r xs one.1 g h.1,
    )
    | inr e ↦ (rw e h.0, All-modify P n f r xs one.1 g h.1)
  ]

  pub HasUniqueIds-update_where :
      (p : A → Bool) (f : A → A) (xs : List A)
      → ((x : A) → k.row_id (f x) ≡ k.row_id x)
      → HasUniqueIds xs
      → HasUniqueIds (update_where p f xs)
  HasUniqueIds-update_where p f xs same u n =
      rw (count-update_where (λ x. k.row_id x == n) p f xs (λ x _. rw (same x))) (u n)

  pub get-modify_same :
      (n : ℕ) (f : A → A) (xs : List A) (r : A)
      → ((x : A) → k.row_id (f x) ≡ k.row_id x)
      → get n xs ≡ some r
      → get n (modify n f xs) ≡ some (f r)
  get-modify_same n f xs r same h = rw (get-modify n n f xs same) (rw h (ground arith))
