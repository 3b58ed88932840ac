-- ===== src/Prelude/Some.antt =====
-- Whether some row passes a test, through queries, sorts and updates.
use Prim.Native.Nat.{ℕ, zero, suc}
use mathlib.Core.Path.{◌≡◌, refl}
use mathlib.Core.Logic.{inl, inr}
use mathlib.Core.Bool.{Bool, true, false, ◌||◌, ◌&&◌}
use mathlib.Core.List.{List, [], ◌∷◌}
use native.Mathlib.Omega.{arith}
use sim_mdms_auto.Prelude.Tests.{if◌then◌else◌, Bool-cases}
use sim_mdms_auto.Prelude.Lists.{take, All, All-mono, any}
use sim_mdms_auto.Prelude.Table.{select, update_where, insert_by, order_by}

module _ {ℓ} {A : Type ℓ} where
  pub any-cong : (p q : A → Bool) (xs : List A) → All (λ x. p x ≡ q x) xs → any p xs ≡ any q xs
  any-cong p q [] h = refl
  any-cong p q (x ∷ xs) h = ground (arith, h.0, any-cong p q xs h.1)

  pub any-select : (p q : A → Bool) (xs : List A) → any p (select q xs) ≡ any (λ x. q x && p x) xs
  unfolding select
  any-select p q [] = refl
  any-select p q (x ∷ xs) = ground (arith, any-select p q xs)

  any-insert_by :
      (p : A → Bool) (before : A → A → Bool) (x : A) (xs : List A)
      → any p (insert_by before x xs) ≡ (p x || any p xs)
  unfolding insert_by
  any-insert_by p before x [] = refl
  any-insert_by p before x (y ∷ ys) = ground (arith, any-insert_by p before x ys)

  -- sorting loses no row
  pub any-order_by :
      (p : A → Bool) (before : A → A → Bool) (xs : List A) → any p (order_by before xs) ≡ any p xs
  unfolding order_by
  any-order_by p before [] = refl
  any-order_by p before (x ∷ xs) =
      ground (arith, any-insert_by p before x (order_by before xs), any-order_by p before xs)

  -- each row finds itself
  pub any_self : (q : A → A → Bool) (xs : List A) → All (λ x. q x x ≡ true → any (q x) xs ≡ true) xs
  any_self q [] = tt
  any_self q (x ∷ xs) =
      (λ e. ground arith, All-mono _ _ xs (λ y h e. ground (arith, h e)) (any_self q xs))

  pub any-imp :
      (p q : A → Bool) (xs : List A)
      → ((x : A) → p x ≡ true → q x ≡ true)
      → any q xs ≡ false
      → any p xs ≡ false
  any-imp p q [] g h = refl
  any-imp p q (x ∷ xs) g h = ground (arith, g x, any-imp p q xs g)

  pub any-update_where :
      (q q' p : A → Bool) (f : A → A) (xs : List A)
      → ((x : A) → q' (if p x then f x else x) ≡ true → q x ≡ true)
      → any q xs ≡ false
      → any q' (update_where p f xs) ≡ false
  unfolding update_where
  any-update_where q q' p f [] g h = refl
  any-update_where q q' p f (x ∷ xs) g h = elim (Bool-cases (p x)) [
    | inl e ↦ rw e (ground (arith, (rw e at (g x)), any-update_where q q' p f xs g))
    | inr e ↦ rw e (ground (arith, (rw e at (g x)), any-update_where q q' p f xs g))
  ]

  pub any-never : (xs : List A) → any (λ _. false) xs ≡ false
  any-never [] = refl
  any-never (x ∷ xs) = any-never xs

  All-insert_by {κ} :
      (P : A → Type κ) (before : A → A → Bool) (x : A) (xs : List A)
      → P x
      → All P xs
      → All P (insert_by before x xs)
  unfolding insert_by
  All-insert_by P before x [] h hs = (h, tt)
  All-insert_by P before x (y ∷ ys) h hs = elim (Bool-cases (before y x)) [
    | inl e ↦ rw e (hs.0, All-insert_by P before x ys h hs.1)
    | inr e ↦ rw e (h, hs)
  ]

  pub All-order_by {κ} :
      (P : A → Type κ) (before : A → A → Bool) (xs : List A) → All P xs → All P (order_by before xs)
  unfolding order_by
  All-order_by P before [] h = tt
  All-order_by P before (x ∷ xs) h =
      All-insert_by P before x (order_by before xs) h.0 (All-order_by P before xs h.1)

  pub All-take {κ} : (P : A → Type κ) (n : ℕ) (xs : List A) → All P xs → All P (take n xs)
  All-take P zero xs h = tt
  All-take P (suc n) [] h = tt
  All-take P (suc n) (x ∷ xs) h = (h.0, All-take P n xs h.1)
