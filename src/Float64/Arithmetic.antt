-- ===== src/Float64/Arithmetic.antt =====
-- Go's arithmetic on `float64`: IEEE 754, rounded to the nearest number, ties to even.
use forgeiq.Prelude.{
  ℕ, zero, suc, ◌+◌, ◌-◌, ◌*◌, ◌/◌, ◌%◌, ◌^◌, ◌≡◌, refl, Bool, false, not, ◌&&◌, ◌||◌, ltb, leb,
  eqb, if◌then◌else◌,
}
use forgeiq.Float64.{
  Float64, magnitude, is_negative, is_nan, mantissa, scale, one, ten, nan, nine_tenths,
}

-- The number of binary digits; the fuel is at least that number.
bit_length : ℕ → ℕ → ℕ
bit_length zero n = 0
bit_length (suc f) n = let rest = bit_length f (n / 2) in if eqb n 0 then 0 else rest + 1

abbrev sign_bit : Bool → ℕ
sign_bit negative = if negative then 2 ^ 63 else 0

abbrev infinity_bits : ℕ
infinity_bits = 2047 * 2 ^ 52

abbrev is_infinite : Float64 → Bool
is_infinite f = eqb (magnitude f) infinity_bits

abbrev is_zero : Float64 → Bool
is_zero f = eqb (magnitude f) 0

abbrev signed : Bool → ℕ → Float64
signed negative m = record { bits = sign_bit negative + m }

-- `n / 2 ^ d`, to the nearest, ties to even.
shift_right : ℕ → ℕ → ℕ
shift_right n zero = n
shift_right n (suc d) =
    let q = n / 2 ^ suc d in
    let r = n % 2 ^ suc d in if ltb (2 ^ d) r || (eqb r (2 ^ d) && eqb (q % 2) 1) then q + 1 else q

-- The number nearest to `n * 2 ^ (x - 4000)`, with the given sign. A carry out of the fraction goes
-- into the exponent. No sum or product of two numbers has more than 2,200 digits here.
round_scaled : Bool → ℕ → ℕ → Float64
unfolding bit_length shift_right
round_scaled negative n x =
    let top = x + bit_length 2_200 n in
    let s = if leb top 2_979 then 1 else top - 2_978 in
    let q =
      if leb (s + 2_925) x then n * 2 ^ (x - (s + 2_925)) else shift_right n (s + 2_925 - x) in
    let m = (s - 1) * 2 ^ 52 + q in
    if eqb n 0
    then signed negative 0
    else if leb infinity_bits m
    then signed negative infinity_bits
    else signed negative m

abbrev differ : Bool → Bool → Bool
differ a b = (a && not b) || (b && not a)

unfoldable pub neg : Float64 → Float64
neg f = signed (not (is_negative f)) (magnitude f)

-- `math.Abs`
unfoldable pub abs : Float64 → Float64
abs f = signed false (magnitude f)

unfoldable pub add : Float64 → Float64 → Float64
unfolding is_nan mantissa scale round_scaled
add a b =
    let s = if leb (scale a) (scale b) then scale a else scale b in
    let m = mantissa a * 2 ^ (scale a - s) in
    let n = mantissa b * 2 ^ (scale b - s) in
    if is_nan a
      || (is_nan b || (is_infinite a && (is_infinite b && differ (is_negative a) (is_negative b))))
    then nan
    else if is_infinite a
    then a
    else if is_infinite b
    then b
    else if not (differ (is_negative a) (is_negative b))
    then round_scaled (is_negative a) (m + n) (s + 2_925)
    else if ltb n m
    then round_scaled (is_negative a) (m - n) (s + 2_925)
    else if ltb m n
    then round_scaled (is_negative b) (n - m) (s + 2_925)
    else signed false 0

unfoldable pub sub : Float64 → Float64 → Float64
unfolding add neg
sub a b = add a (neg b)

unfoldable pub mul : Float64 → Float64 → Float64
unfolding is_nan mantissa scale round_scaled
mul a b =
    let negative = differ (is_negative a) (is_negative b) in
    if is_nan a || (is_nan b || ((is_infinite a && is_zero b) || (is_infinite b && is_zero a)))
    then nan
    else if is_infinite a || is_infinite b
    then signed negative infinity_bits
    else round_scaled negative (mantissa a * mantissa b) (scale a + scale b + 1_850)

-- The quotient has at least 67 digits; a last digit 1 stands for a remainder.
unfoldable pub div : Float64 → Float64 → Float64
unfolding is_nan mantissa scale round_scaled
div a b =
    let negative = differ (is_negative a) (is_negative b) in
    let n = mantissa a * 2 ^ 120 in
    let rest = if eqb (n % mantissa b) 0 then 0 else 1 in
    if is_nan a || (is_nan b || ((is_infinite a && is_infinite b) || (is_zero a && is_zero b)))
    then nan
    else if is_infinite a || is_zero b
    then signed negative infinity_bits
    else if is_infinite b
    then signed negative 0
    else round_scaled negative (2 * (n / mantissa b) + rest) (3_879 + scale a - scale b)

-- 0, 0.1, 5, 50
abbrev pub zero_float : Float64
zero_float = record { bits = 0 }

abbrev pub one_tenth : Float64
one_tenth = record { bits = 0x3FB999999999999A }

abbrev pub five : Float64
five = record { bits = 0x4014000000000000 }

abbrev pub fifty : Float64
fifty = record { bits = 0x4049000000000000 }

sums :
    (add nine_tenths one_tenth ≡ one)
    × (sub one nine_tenths ≡ record { bits = 0x3FB9999999999998 })
    × (add (add one_tenth one_tenth) one_tenth ≡ record { bits = 0x3FD3333333333334 })
    × (sub ten ten ≡ zero_float)
unfolding add sub neg
sums = (refl, refl, refl, refl)

products :
    (mul five ten ≡ fifty)
    × (div one ten ≡ one_tenth)
    × (mul one_tenth one_tenth ≡ record { bits = 0x3F847AE147AE147C })
    × (div fifty ten ≡ five)
unfolding mul div
products = (refl, refl, refl, refl)

extremes :
    (add (record { bits = 0x7FEFFFFFFFFFFFFF }) (record { bits = 0x7FEFFFFFFFFFFFFF })
      ≡ record { bits = 0x7FF0000000000000 })
    × (div (record { bits = 1 }) (record { bits = 0x4000000000000000 }) ≡ zero_float)
    × (div one zero_float ≡ record { bits = 0x7FF0000000000000 })
unfolding add div
extremes = (refl, refl, refl)
