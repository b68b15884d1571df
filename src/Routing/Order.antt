-- ===== src/Routing/Order.antt =====
-- The order of the candidates is a strict weak order, as long as no score is NaN.
use forgeiq.Prelude.{
  ◌≡◌, refl, Bool, true, false, not, ◌&&◌, String, ℤ, ltb_ℤ, IsWeakOrder, arith, if◌then◌else◌,
}
use forgeiq.Text.{str_lt}
use forgeiq.Float64.{Float64, order_key, is_nan, lt, eq}
use forgeiq.Routing.{ScoredAgent}
use forgeiq.Routing.Router.{goes_before}

str_lt_asym : (a b : String) → str_lt a b ≡ true → str_lt b a ≡ false
unfolding str_lt
str_lt_asym a String.[] h = absurd (cc)
str_lt_asym String.[] (String.◌∷◌ d t) h = refl
str_lt_asym (String.◌∷◌ c s) (String.◌∷◌ d t) h = ground (arith, str_lt_asym s t)

str_lt_negtrans : (a b c : String) → str_lt a b ≡ false → str_lt b c ≡ false → str_lt a c ≡ false
unfolding str_lt
str_lt_negtrans a b String.[] h k = refl
str_lt_negtrans a String.[] (String.◌∷◌ d t) h k = absurd (cc)
str_lt_negtrans String.[] (String.◌∷◌ c s) (String.◌∷◌ d t) h k = absurd (cc)
str_lt_negtrans (String.◌∷◌ b r) (String.◌∷◌ c s) (String.◌∷◌ d t) h k =
    ground (arith, str_lt_negtrans r s t)

-- The order by keys, the greatest first, with a tie decided by `tie`.
abbrev key_before : ℤ → ℤ → Bool → Bool
key_before x y tie = if not (ltb_ℤ x y) && not (ltb_ℤ y x) then tie else ltb_ℤ y x

key_before_asym :
    (x y : ℤ) (p q : Bool)
    → (p ≡ true → q ≡ false)
    → key_before x y p ≡ true
    → key_before y x q ≡ false
key_before_asym x y p q f h = ground (arith, f)

key_before_negtrans :
    (x y z : ℤ) (p q r : Bool)
    → (p ≡ false → q ≡ false → r ≡ false)
    → key_before x y p ≡ false
    → key_before y z q ≡ false
    → key_before x z r ≡ false
key_before_negtrans x y z p q r f h k = ground (arith, f)

-- On numbers that are not NaN the comparisons are those of the keys.
pub lt-order_key :
    (a b : Float64)
    → is_nan a ≡ false
    → is_nan b ≡ false
    → lt a b ≡ ltb_ℤ (order_key a) (order_key b)
unfolding lt
lt-order_key a b h k = rw (h, k) refl

pub eq-order_key :
    (a b : Float64)
    → is_nan a ≡ false
    → is_nan b ≡ false
    → eq a b ≡ (not (ltb_ℤ (order_key a) (order_key b)) && not (ltb_ℤ (order_key b) (order_key a)))
unfolding eq
eq-order_key a b h k = rw (h, k) refl

abbrev pub IsNumber : ScoredAgent → Type 0
IsNumber c = is_nan c.score ≡ false

goes_before-key :
    (c d : ScoredAgent)
    → IsNumber c
    → IsNumber d
    → goes_before c d
      ≡ key_before (order_key c.score) (order_key d.score) (str_lt c.agent.id d.agent.id)
unfolding goes_before
goes_before-key c d h k =
    rw (eq-order_key c.score d.score h k, lt-order_key d.score c.score k h) refl

pub goes_before-IsWeakOrder : IsWeakOrder goes_before IsNumber
goes_before-IsWeakOrder = record {
  asym = λ a b p q h. rw (goes_before-key b a q p) (
      key_before_asym (order_key a.score) (order_key b.score) (str_lt a.agent.id b.agent.id)
        (str_lt b.agent.id a.agent.id) (str_lt_asym a.agent.id b.agent.id)
        (rw (goes_before-key a b p q) at h));
  negtrans = λ a b c p q r h k. rw (goes_before-key a c p r) (
      key_before_negtrans (order_key a.score) (order_key b.score) (order_key c.score)
        (str_lt a.agent.id b.agent.id) (str_lt b.agent.id c.agent.id) (str_lt a.agent.id c.agent.id)
        (str_lt_negtrans a.agent.id b.agent.id c.agent.id) (rw (goes_before-key a b p q) at h)
        (rw (goes_before-key b c q r) at k));
}
