-- ===== src/Routing/Weights.antt =====
-- The bounds of the runtime weight and of the sampled index.
use forgeiq.Routing.Router.{sum_from, sample_size, softmax_weights, sampled_index, pick_index}
use forgeiq.Routing.{ScoredAgent, RouteRequest, RouterOptions, Chance}
use forgeiq.Routing.Order.{lt-order_key, eq-order_key}
use forgeiq.Float64.{magnitude, lt, le, is_nan, is_negative, order_key}
use forgeiq.Routing.Score.{hash_seed, clamp_weight}
use forgeiq.Float64.Arithmetic.{add, mul, zero_float, neg}
use forgeiq.Float64.{lt, le, is_nan, Float64}
use forgeiq.Prelude.{
  length-take-le, if-holds, [], ◌-◌, take, ap, ◌∷◌, ◌+◌, pos_part, ◌≤◌, length, ◌<◌, List, zero,
  suc, negate, pos, ℕ, refl, inr, inl, Bool-cases, true, false, ◌≡◌, ltb_ℤ, arith,
}

-- Between -m and m.
abbrev pub IsWithin : Float64 → Float64 → Type 0
IsWithin m w = (le (neg m) w ≡ true) × (le w m ≡ true)

magnitude-neg : (f : Float64) → magnitude (neg f) ≡ magnitude f
unfolding neg
magnitude-neg f = elim (Bool-cases (is_negative f)) [
  | inl e ↦ rw e (omega arith)
  | inr e ↦ rw e (omega arith)
]

is_nan-neg : (f : Float64) → is_nan f ≡ false → is_nan (neg f) ≡ false
unfolding is_nan
is_nan-neg f h = rw (magnitude-neg f) h

-- On numbers, of two one is at most the other.
le-of-lt : (a b : Float64) → is_nan a ≡ false → is_nan b ≡ false → lt a b ≡ false → le b a ≡ true
unfolding le
le-of-lt a b h k n =
    let m : ltb_ℤ (order_key a) (order_key b) ≡ false = rw (lt-order_key a b h k) at n in
    rw (lt-order_key b a k h, eq-order_key b a k h, m) (ground arith)

not-lt-of-le :
    (a b : Float64) → is_nan a ≡ false → is_nan b ≡ false → le a b ≡ true → lt b a ≡ false
unfolding le
not-lt-of-le a b h k n =
    let m = rw (lt-order_key a b h k, eq-order_key a b h k) at n in
    rw (lt-order_key b a k h) (ground arith)

is_nan-of-lt : (a b : Float64) → lt a b ≡ true → is_nan b ≡ false
unfolding lt
is_nan-of-lt a b h = ground arith

le_refl : (a : Float64) → is_nan a ≡ false → le a a ≡ true
le_refl a h = le-of-lt a a h h (rw (lt-order_key a a h h) (ground arith))

pos-negate : (n k : ℕ) → ltb_ℤ (pos n) (negate k) ≡ false
pos-negate n zero = ground arith
pos-negate n (suc k) = ground arith

-- A negative number is not above zero.
is_negative-of-lt : (m : Float64) → lt zero_float m ≡ true → is_negative m ≡ false
unfolding is_nan
is_negative-of-lt m h = elim (Bool-cases (is_negative m)) [
  | inl e ↦
      let k = rw (lt-order_key zero_float m refl (is_nan-of-lt zero_float m h)) at h in
      absurd (cc (k, pos-negate 0 (magnitude m)))
  | inr e ↦ e
]

is_negative-neg : (m : Float64) → is_negative m ≡ false → is_negative (neg m) ≡ true
unfolding neg
is_negative-neg m e = rw e (ground arith)

-- A positive number is above its negation.
lt-neg : (m : Float64) → lt zero_float m ≡ true → lt m (neg m) ≡ false
lt-neg m h =
    let n = is_nan-of-lt zero_float m h in
    let e = is_negative-of-lt m h in
    rw (lt-order_key m (neg m) n (is_nan-neg m n), e, is_negative-neg m e)
      (pos-negate (magnitude m) (magnitude (neg m)))

-- A runtime weight that is a number is brought between the bound, a positive number, and its
-- negation, and is unchanged where it lies there.
pub clamp_weight-IsWithin :
    (m w : Float64)
    → is_nan w ≡ false
    → lt zero_float m ≡ true
    → IsWithin m (clamp_weight m w) × (IsWithin m w → clamp_weight m w ≡ w)
unfolding clamp_weight
clamp_weight-IsWithin m w h p =
    let n = is_nan-of-lt zero_float m p in
    let k = is_nan-neg m n in
    let apart = lt-neg m p in
    let low = le-of-lt m (neg m) n k apart in
    (
      elim (Bool-cases (lt m w)) [
        | inl e ↦ rw (e, apart) (low, le_refl m n)
        | inr e ↦ rw e (elim (Bool-cases (lt w (neg m))) [
          | inl f ↦ rw f (le_refl (neg m) k, low)
          | inr f ↦ rw f (le-of-lt w (neg m) h k f, le-of-lt m w n h e)
        ])
      ],
      λ q. rw (not-lt-of-le w m h n q.1, not-lt-of-le (neg m) w k h q.0) refl,
    )

pick_index_bounds :
    (ch : Chance) (opt : RouterOptions) (req : RouteRequest) (x acc : Float64) (i : ℕ)
    (ws : List Float64)
    → pick_index ch opt req x acc i ws ≤ i + length ws - 1
unfolding pick_index
pick_index_bounds ch opt req x acc i [] = omega arith
pick_index_bounds ch opt req x acc i (w ∷ ws) =
    if-holds (λ k. k ≤ i + suc (length ws) - 1) (le x (add acc w)) _ _ (λ e. omega arith)
      (λ e. omega (arith, pick_index_bounds ch opt req x (add acc w) (i + 1) ws))

length-softmax_weights :
    (ch : Chance) (opt : RouterOptions) (req : RouteRequest) (m : Float64) (cs : List ScoredAgent)
    → length (softmax_weights ch opt req m cs) ≡ length cs
unfolding softmax_weights
length-softmax_weights ch opt req m [] = refl
length-softmax_weights ch opt req m (c ∷ cs) = ap suc (length-softmax_weights ch opt req m cs)

sample_size_bounds :
    (ch : Chance) (opt : RouterOptions) (req : RouteRequest) (n : ℕ)
    → 0 < n
    → (0 < sample_size ch opt req n)
      × (sample_size ch opt req n ≤ n)
      × (ltb_ℤ (pos 0) opt.softmax_top_n ≡ true
          → sample_size ch opt req n ≤ pos_part opt.softmax_top_n)
sample_size_bounds ch opt req n h = ground arith

-- The index that softmax draws lies below the size of the sample, whatever the random number and the
-- exponentials are; the sample is no larger than the list of the candidates, so the index is in
-- range, nor than a positive `SoftmaxTopN`.
pub sampled_index-lt :
    (ch : Chance) (opt : RouterOptions) (req : RouteRequest) (best : ScoredAgent)
    (rest : List ScoredAgent)
    → let n = length (best ∷ rest) in
      (sampled_index ch opt req best (best ∷ rest) < sample_size ch opt req n)
      × (sample_size ch opt req n ≤ n)
      × (ltb_ℤ (pos 0) opt.softmax_top_n ≡ true
          → sample_size ch opt req n ≤ pos_part opt.softmax_top_n)
unfolding sampled_index
sampled_index-lt ch opt req best rest =
    let n = length (best ∷ rest) in
    let (positive, small, top) = sample_size_bounds ch opt req n (omega arith) in
    let cs = take (sample_size ch opt req n) (best ∷ rest) in
    (
      omega (
        arith,
        positive,
        pick_index_bounds ch opt req
            (mul (ch.float64 (hash_seed ch req))
              (sum_from ch opt req zero_float (softmax_weights ch opt req best.score cs)))
            zero_float 0 (softmax_weights ch opt req best.score cs),
        length-softmax_weights ch opt req best.score cs,
        length-take-le (sample_size ch opt req n) (best ∷ rest),
      ),
      small,
      top,
    )
