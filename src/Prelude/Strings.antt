-- ===== src/Prelude/Strings.antt =====
-- Text as the list of its code points, with the string methods that the services call.
use Prim.Native.Nat.{ℕ, ◌+◌, ◌-◌}
use Prim.Native.Char.{code}
use Prim.Native.String.{String}
use mathlib.Core.Path.{◌≡◌, refl}
use mathlib.Core.Bool.{Bool, true, false, ◌&&◌, ◌||◌}
use mathlib.Core.Option.{Option, none, some}
use mathlib.Core.List.{List, [], ◌∷◌, map, reverse}
use native.Mathlib.Omega.{arith}
use sim_mdms_auto.Prelude.Tests.{leb, ◌==◌, if◌then◌else◌, ==_refl}

abbrev pub Text : Type 0
Text = List ℕ

-- the code points of a literal
abbrev pub codes : String → Text
codes String.[] = []
codes (String.◌∷◌ c s) = code c ∷ codes s

unfoldable pub text_eq : Text → Text → Bool
text_eq [] [] = true
text_eq [] (b ∷ t) = false
text_eq (a ∷ s) [] = false
text_eq (a ∷ s) (b ∷ t) = (a == b) && text_eq s t

pub text_eq→eq : (s t : Text) → text_eq s t ≡ true → s ≡ t
unfolding text_eq
text_eq→eq [] [] h = refl
text_eq→eq [] (b ∷ t) h = cc
text_eq→eq (a ∷ s) [] h = cc
text_eq→eq (a ∷ s) (b ∷ t) h = ground (arith, text_eq→eq s t)

pub text_eq_refl : (s : Text) → text_eq s s ≡ true
unfolding text_eq
text_eq_refl [] = refl
text_eq_refl (a ∷ s) = ground (arith, ==_refl a, text_eq_refl s)

abbrev pub opt_text_eq : Option Text → Option Text → Bool
opt_text_eq none none = true
opt_text_eq none (some _) = false
opt_text_eq (some _) none = false
opt_text_eq (some s) (some t) = text_eq s t

pub opt_text_eq→eq : (s t : Option Text) → opt_text_eq s t ≡ true → s ≡ t
opt_text_eq→eq none none h = refl
opt_text_eq→eq none (some t) h = cc
opt_text_eq→eq (some s) none h = cc
opt_text_eq→eq (some s) (some t) h = cc (text_eq→eq s t h)

pub opt_text_eq_refl : (s : Option Text) → opt_text_eq s s ≡ true
opt_text_eq_refl none = refl
opt_text_eq_refl (some s) = text_eq_refl s

-- `column == value` in SQL, where a NULL column matches no value
abbrev pub sql_text_eq : Option Text → Text → Bool
sql_text_eq none t = false
sql_text_eq (some s) t = text_eq s t

-- `str.isspace` of one code point
is_space : ℕ → Bool
is_space c =
    (leb 9 c && leb c 13)
    || (leb 28 c && leb c 32)
    || c == 133
    || c == 160
    || c == 5760
    || (leb 8192 c && leb c 8202)
    || c == 8232
    || c == 8233
    || c == 8239
    || c == 8287
    || c == 12288

lstrip : Text → Text
lstrip [] = []
lstrip (c ∷ s) = if is_space c then lstrip s else c ∷ s

unfoldable pub strip : Text → Text
unfolding lstrip is_space
strip s = reverse (lstrip (reverse (lstrip s)))

-- `str.lower` and `str.upper` on ASCII letters; other code points stay
unfoldable pub lower : Text → Text
lower = map (λ c. if leb b'A' c && leb c b'Z' then c + 32 else c)

unfoldable pub upper : Text → Text
upper = map (λ c. if leb b'a' c && leb c b'z' then c - 32 else c)

-- the truth value of a text
abbrev pub non_empty : Text → Bool
non_empty [] = false
non_empty (_ ∷ _) = true

-- `value or ""`
abbrev pub or_empty : Option Text → Text
or_empty none = []
or_empty (some s) = s

-- `s or None`
abbrev pub or_none : Text → Option Text
or_none [] = none
or_none (c ∷ s) = some (c ∷ s)

-- `(value or "").strip() or None`
unfoldable pub normalized : Option Text → Option Text
unfolding strip
normalized o = or_none (strip (or_empty o))

pub strip_example : strip (codes "  kWh ") ≡ codes "kWh"
unfolding strip
strip_example = refl

pub upper_example : upper (codes "power_Fail") ≡ codes "POWER_FAIL"
unfolding upper
upper_example = refl
