-- ===== src/Billing/Money.antt =====
-- The decimal arithmetic of app/services/bill_charges.py, in Python's default context of 28 digits.
-- A quantity counts ten-thousandths, a rate hundred-millionths, so that a product counts units of
-- the twelfth place.
pub mod Bounds
use sim_mdms_auto.Prelude.{
  ℕ, zero, suc, ◌+◌, ◌-◌, ◌*◌, ◌/◌, ◌%◌, ◌^◌, ◌≤◌, ◌<◌, Bool, true, false, Option, none, some, ℤ,
  pos_part, neg_part, ltb, leb, ◌==◌, if◌then◌else◌, pos, negsuc,
}

abbrev pub abs : ℤ → ℕ
abs a = pos_part a + neg_part a

abbrev pub is_negative : ℤ → Bool
is_negative a = ltb 0 (neg_part a)

abbrev pub signed : Bool → ℕ → ℤ
signed false n = pos n
signed true zero = pos 0
signed true (suc n) = negsuc n

abbrev pub differ : Bool → Bool → Bool
differ true b = if b then false else true
differ false b = b

-- a coefficient has at most 28 digits
abbrev pub fits : ℕ → Bool
fits n = ltb n (10 ^ 28)

-- nearest multiple, ties to the even one
unfoldable pub round_half_even : ℕ → ℕ → ℕ
round_half_even n d =
    let q = n / d in
    let r = n % d in
    if ltb (2 * r) d
    then q * d
    else if ltb d (2 * r)
    then (q + 1) * d
    else if q % 2 == 0
    then q * d
    else (q + 1) * d

-- the power of ten that leaves 28 digits; a product of stored numbers has at most 47 digits
unfoldable pub precision_unit : ℕ → ℕ → ℕ
precision_unit zero n = 1
precision_unit (suc fuel) n =
    let wider = 10 * precision_unit fuel (n / 10) in if fits n then 1 else wider

-- `quantity * rate`, rounded to the precision of the context
unfoldable pub multiply : ℕ → ℕ → ℕ
unfolding round_half_even precision_unit
multiply a b = let n = a * b in if fits n then n else round_half_even n (precision_unit 20 n)

-- `quantize(..., ROUND_HALF_UP)` that drops the places of `unit`; none is `InvalidOperation`
unfoldable pub quantize_down : ℕ → ℕ → Option ℕ
quantize_down unit n = let q = (n + unit / 2) / unit in if fits q then some q else none

-- `quantize` that adds places
unfoldable pub quantize_up : ℕ → ℕ → Option ℕ
quantize_up factor n = let q = n * factor in if fits q then some q else none

abbrev pub with_sign : Bool → Option ℕ → Option ℤ
with_sign s none = none
with_sign s (some n) = some (signed s n)

-- (quantity_value * unit_rate_value).quantize(_CHARGE_SCALE, rounding=ROUND_HALF_UP)
unfoldable pub charge_amount_of : ℤ → ℤ → Option ℤ
unfolding multiply quantize_down
charge_amount_of quantity rate =
    with_sign (differ (is_negative quantity) (is_negative rate))
      (quantize_down (10 ^ 8) (multiply (abs quantity) (abs rate)))

-- a finite `Decimal` with at most this many places
pub record Decimal : Type 0 where
  pub negative : Bool
  pub coefficient : ℕ
  pub places : ℕ

-- what a caller passes as the rate
pub data RateInput : Type 0 where
  absent unreadable : RateInput
  decimal : Decimal → RateInput

pub data Rate : Type 0 where
  -- `InvalidOperation`
  invalid : Rate
  normalized : Option ℤ → Rate

abbrev pub quantized_rate : Decimal → Option ℕ
quantized_rate d =
    if leb d.places 8
    then quantize_up (10 ^ (8 - d.places)) d.coefficient
    else quantize_down (10 ^ (d.places - 8)) d.coefficient

abbrev pub rate_of : Bool → Option ℕ → Rate
rate_of s none = Rate.invalid
rate_of s (some n) = Rate.normalized (some (signed s n))

unfoldable pub normalize_rate : RateInput → Rate
unfolding quantize_up quantize_down
normalize_rate RateInput.absent = Rate.normalized none
normalize_rate RateInput.unreadable = Rate.invalid
normalize_rate (RateInput.decimal d) = rate_of d.negative (quantized_rate d)
