-- ===== src/Billing/Money/Bounds.antt =====
-- Properties of the decimal arithmetic of app/services/bill_charges.py.
use sim_mdms_auto.Prelude.{
  ℕ, suc, ◌-◌, leb, Bool-cases, inl, inr, ◌+◌, ◌*◌, ◌/◌, ◌^◌, ◌≤◌, ◌<◌, true, some, ℤ, ◌≡◌, refl,
  arith,
}
use native.Mathlib.Nat.{pow-succ', one-le-pow, div-lt_iff_lt-mul, div-mul-le_self, lt-div-mul-add}
use sim_mdms_auto.Billing.Money.{
  quantize_up, Decimal, RateInput, Rate, normalize_rate, abs, is_negative, signed, differ, fits,
  multiply, quantize_down, charge_amount_of,
}

fits_small : (n : ℕ) → n < 10 ^ 28 → fits n ≡ true
fits_small n h = ground arith

multiply_exact : (a b : ℕ) → a * b < 10 ^ 28 → multiply a b ≡ a * b
unfolding multiply
multiply_exact a b h = rw (fits_small (a * b) h) refl

quantize_down-some :
    (n : ℕ) → n < 10 ^ 28 → quantize_down (10 ^ 8) n ≡ some ((n + 50_000_000) / 100_000_000)
unfolding quantize_down
quantize_down-some n h = ground arith

-- An amount is within half a ten-thousandth of the product of quantity and rate, a tie going away
-- from zero, and has the product's sign, where the product has at most 28 digits.
pub charge_amount_of_bounds :
    (quantity rate : ℤ)
    → abs quantity * abs rate < 10 ^ 28
    → (n : ℕ) × (charge_amount_of quantity rate
        ≡ some (signed (differ (is_negative quantity) (is_negative rate)) n))
      × (n * 100_000_000 ≤ abs quantity * abs rate + 50_000_000)
      × (abs quantity * abs rate < n * 100_000_000 + 50_000_000)
unfolding charge_amount_of
charge_amount_of_bounds quantity rate h = (
  (abs quantity * abs rate + 50_000_000) / 100_000_000,
  rw (multiply_exact (abs quantity) (abs rate) h)
      (rw (quantize_down-some (abs quantity * abs rate) h) refl),
  omega arith,
  omega arith,
)

quantize_up-fits : (n factor : ℕ) → n * factor < 10 ^ 28 → quantize_up factor n ≡ some (n * factor)
unfolding quantize_up
quantize_up-fits n factor h = rw (fits_small (n * factor) h) refl

-- the unit is twice a half
half_unit : (m : ℕ) → 10 ^ suc m ≡ 2 * (5 * 10 ^ m)
half_unit m = omega (arith, pow-succ' 10 m)

half_unit_pos : (m : ℕ) → 0 < 5 * 10 ^ m
half_unit_pos m = omega (arith, one-le-pow m 10 (omega arith))

module _ (c unit half : ℕ) (e : unit ≡ 2 * half) (positive : 0 < half) where
  nearest_fits : c < 10 ^ 28 → (c + unit / 2) / unit < 10 ^ 28
  nearest_fits b = (div-lt_iff_lt-mul (omega arith)).1 (omega arith)

  quantize_down-fits : c < 10 ^ 28 → quantize_down unit c ≡ some ((c + unit / 2) / unit)
  unfolding quantize_down
  quantize_down-fits b = rw (fits_small ((c + unit / 2) / unit) (nearest_fits b)) refl

  nearest_low : 2 * ((c + unit / 2) / unit * unit) ≤ 2 * c + unit
  nearest_low = omega (arith, div-mul-le_self (c + unit / 2) unit)

  nearest_high : 2 * c < 2 * ((c + unit / 2) / unit * unit) + unit
  nearest_high = omega (arith, lt-div-mul-add {a = c + unit / 2} {b = unit} (omega arith))

-- A decimal rate whose coefficient, scaled to eight places where it has fewer, has at most 28 digits is
-- normalised, with its sign, to the nearest multiple of the eighth place, a tie going away from zero;
-- with up to eight places it keeps its value.
pub normalize_rate_bounds :
    (d : Decimal)
    → d.coefficient * 10 ^ (8 - d.places) < 10 ^ 28
    → (n : ℕ) × (normalize_rate (RateInput.decimal d)
        ≡ Rate.normalized (some (signed d.negative n)))
      × (2 * (n * 10 ^ (d.places - 8))
          ≤ 2 * (d.coefficient * 10 ^ (8 - d.places)) + 10 ^ (d.places - 8))
      × (2 * (d.coefficient * 10 ^ (8 - d.places))
          < 2 * (n * 10 ^ (d.places - 8)) + 10 ^ (d.places - 8))
unfolding normalize_rate
normalize_rate_bounds d b = elim (Bool-cases (leb d.places 8)) [
  | inl e ↦
      let none_dropped : d.places - 8 ≡ 0 = ground arith in
      let n = d.coefficient * 10 ^ (8 - d.places) in
      (
        n,
        rw (e, quantize_up-fits d.coefficient (10 ^ (8 - d.places)) b) refl,
        rw none_dropped (omega arith),
        rw none_dropped (omega arith),
      )
  | inr e ↦
      let none_added : 8 - d.places ≡ 0 = ground arith in
      let m = d.places - 9 in
      let more : d.places - 8 ≡ suc m = ground arith in
      let unit = 10 ^ suc m in
      let half = 5 * 10 ^ m in
      let c = d.coefficient in
      let small : c < 10 ^ 28 = omega (arith, rw none_added at b) in
      let fits_down = quantize_down-fits c unit half (half_unit m) (half_unit_pos m) small in
      let low = nearest_low c unit half (half_unit m) (half_unit_pos m) in
      let high = nearest_high c unit half (half_unit m) (half_unit_pos m) in
      (
        (c + unit / 2) / unit,
        rw (e, more, fits_down) refl,
        rw (none_added, more) (omega (arith, low)),
        rw (none_added, more) (omega (arith, high)),
      )
]
