-- ===== src/Text/Trim.antt =====
-- `strings.TrimSpace` leaves no white space at either end, so trimming twice is trimming once.
use Prim.Native.Char.{Char, code}
use forgeiq.Prelude.{eqb, ℕ, ◌≡◌, refl, ◌∙◌, ap, ◌⊎◌, inl, inr, false, String, Bool-cases}
use forgeiq.Text.{
  keep_unless, trim_right_char, is_space, trim_left, trim_right, trim_space, keep_char,
}

trim_left-cases :
    (s : String)
    → (trim_left s ≡ "")
      ⊎ ((c : Char) × (t : String) × (trim_left s ≡ String.◌∷◌ c t) × (is_space (code c) ≡ false))
unfolding trim_left
trim_left-cases String.[] = inl refl
trim_left-cases (String.◌∷◌ c s) = elim (Bool-cases (is_space (code c))) [
  | inl e ↦ rw e (trim_left-cases s)
  | inr e ↦ rw e (inr (c, s, refl, e))
]

keep_char-head :
    (c : Char) (t : String)
    → is_space (code c) ≡ false
    → (u : String) × (keep_char c t ≡ String.◌∷◌ c u)
keep_char-head c String.[] h = rw h ("", refl)
keep_char-head c (String.◌∷◌ d t) h = (String.◌∷◌ d t, refl)

keep_char-trim_right :
    (c : Char) (t : String) → trim_right t ≡ t → trim_right (keep_char c t) ≡ keep_char c t
unfolding trim_right
keep_char-trim_right c String.[] h = elim (Bool-cases (is_space (code c))) [
  | inl e ↦ rw e refl
  | inr e ↦ rw e (rw e refl)
]
keep_char-trim_right c (String.◌∷◌ d t) h = ap (keep_char c) h

trim_right_idem : (s : String) → trim_right (trim_right s) ≡ trim_right s
unfolding trim_right
trim_right_idem String.[] = refl
trim_right_idem (String.◌∷◌ c s) = keep_char-trim_right c (trim_right s) (trim_right_idem s)

trim_left-trim_right :
    (c : Char) (t : String)
    → is_space (code c) ≡ false
    → trim_left (trim_right (String.◌∷◌ c t)) ≡ trim_right (String.◌∷◌ c t)
unfolding trim_left trim_right
trim_left-trim_right c t h = let (u, e) = keep_char-head c (trim_right t) h in rw (e, h) refl

pub trim_space_idem : (s : String) → trim_space (trim_space s) ≡ trim_space s
unfolding trim_space
trim_space_idem s = elim (trim_left-cases s) [
  | inl e ↦ rw e refl
  | inr p ↦
      let (c, t, e, h) = p in
      rw e (ap trim_right (trim_left-trim_right c t h) ∙ trim_right_idem (String.◌∷◌ c t))
]

keep_unless-trim_right_char :
    (cut : ℕ) (c : Char) (t : String)
    → trim_right_char cut t ≡ t
    → trim_right_char cut (keep_unless cut c t) ≡ keep_unless cut c t
unfolding trim_right_char
keep_unless-trim_right_char cut c String.[] h = elim (Bool-cases (eqb (code c) cut)) [
  | inl e ↦ rw e refl
  | inr e ↦ rw e (rw e refl)
]
keep_unless-trim_right_char cut c (String.◌∷◌ d t) h = ap (keep_unless cut c) h

pub trim_right_char_idem :
    (cut : ℕ) (s : String) → trim_right_char cut (trim_right_char cut s) ≡ trim_right_char cut s
unfolding trim_right_char
trim_right_char_idem cut String.[] = refl
trim_right_char_idem cut (String.◌∷◌ c s) =
    keep_unless-trim_right_char cut c (trim_right_char cut s) (trim_right_char_idem cut s)
