-- ===== src/Float64.antt =====
-- Go's `float64` as its IEEE 754 bit pattern, a number below 2^64. Comparisons and the truncation to
-- an integer are exact; the arithmetic is in its child.
pub mod Arithmetic
use forgeiq.Prelude.{
  ℕ, ◌+◌, ◌-◌, ◌*◌, ◌/◌, ◌%◌, ◌^◌, ◌≡◌, refl, Bool, true, false, not, ◌&&◌, ◌||◌, ℤ, pos, negsuc,
  negate, ltb, leb, eqb, ltb_ℤ, if◌then◌else◌,
}

pub record Float64 : Type 0 where
  pub bits : ℕ

-- The bits below the sign, and the exponent and the fraction in them.
abbrev pub magnitude : Float64 → ℕ
magnitude f = f.bits % 2 ^ 63

abbrev pub is_negative : Float64 → Bool
is_negative f = leb (2 ^ 63) f.bits

unfoldable pub is_nan : Float64 → Bool
is_nan f = ltb (2047 * 2 ^ 52) (magnitude f)

-- Numbers that are not NaN are ordered as these integers are; both zeros are 0.
abbrev pub order_key : Float64 → ℤ
order_key f = if is_negative f then negate (magnitude f) else pos (magnitude f)

unfoldable pub lt : Float64 → Float64 → Bool
unfolding is_nan
lt a b = not (is_nan a) && (not (is_nan b) && ltb_ℤ (order_key a) (order_key b))

unfoldable pub eq : Float64 → Float64 → Bool
unfolding is_nan
eq a b =
    not (is_nan a)
    && (not (is_nan b)
        && (not (ltb_ℤ (order_key a) (order_key b)) && not (ltb_ℤ (order_key b) (order_key a))))

unfoldable pub le : Float64 → Float64 → Bool
unfolding lt eq
le a b = lt a b || eq a b

exponent : Float64 → ℕ
exponent f = magnitude f / 2 ^ 52

-- The value is `mantissa * 2 ^ (scale - 1075)`.
unfoldable pub mantissa : Float64 → ℕ
unfolding exponent
mantissa f =
    let fraction = magnitude f % 2 ^ 52 in
    if eqb (exponent f) 0 then fraction else fraction + 2 ^ 52

unfoldable pub scale : Float64 → ℕ
unfolding exponent
scale f = if eqb (exponent f) 0 then 1 else exponent f

-- The least 64-bit integer, which the conversion of an out-of-range number gives on amd64.
abbrev min_int64 : ℤ
min_int64 = negsuc (2 ^ 63 - 1)

-- From exponent 63 on the value is out of the range of `int`.
-- `int(f)`: towards zero.
unfoldable pub to_int : Float64 → ℤ
unfolding mantissa scale
to_int f =
    if leb (1023 + 63) (scale f)
    then min_int64
    else let whole =
        if leb 1075 (scale f)
        then mantissa f * 2 ^ (scale f - 1075)
        else mantissa f / 2 ^ (1075 - scale f) in
      if is_negative f then negate whole else pos whole

-- 0.9, 1, 10, -2 and a NaN
abbrev pub nine_tenths : Float64
nine_tenths = record { bits = 0x3FECCCCCCCCCCCCD }

abbrev pub one : Float64
one = record { bits = 0x3FF0000000000000 }

abbrev pub ten : Float64
ten = record { bits = 0x4024000000000000 }

abbrev minus_two : Float64
minus_two = record { bits = 0xC000000000000000 }

abbrev pub nan : Float64
nan = record { bits = 0x7FF8000000000000 }

conversions : (to_int nine_tenths ≡ pos 0) × (to_int ten ≡ pos 10) × (to_int minus_two ≡ negsuc 1)
unfolding to_int
conversions = (refl, refl, refl)

comparisons :
    (lt nine_tenths one ≡ true)
    × (lt minus_two nine_tenths ≡ true)
    × (lt nan one ≡ false)
    × (eq nan nan ≡ false)
    × (le ten ten ≡ true)
unfolding le
comparisons = (refl, refl, refl, refl, refl)
