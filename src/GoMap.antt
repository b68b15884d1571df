-- ===== src/GoMap.antt =====
-- Go's `map[string]V`: an association list with one entry for each key. Reading a missing key gives
-- `none`; a write replaces the entry of its key in place or adds one at the end.
use forgeiq.Prelude.{
  String, ◌≡◌, refl, Bool, Option, none, some, List, [], ◌∷◌, arith, ◌==◌, eq_iff, if◌then◌else◌,
  is_some,
}

abbrev pub GoMap {ℓ} : Type ℓ → Type ℓ
GoMap V = List (String × V)

module _ {ℓ} {V : Type ℓ} where
  -- `v, ok := m[k]`
  unfoldable pub get : GoMap V → String → Option V
  get [] k = none
  get ((j, v) ∷ m) k = if j == k then some v else get m k

  -- `m[k] = v`
  unfoldable pub put : GoMap V → String → V → GoMap V
  put [] k v = (k, v) ∷ []
  put ((j, w) ∷ m) k v = if j == k then (j, v) ∷ m else (j, w) ∷ put m k v

  -- `_, ok := m[k]`
  abbrev pub has_key : GoMap V → String → Bool
  has_key m k = is_some (get m k)

  pub get-put :
      (m : GoMap V) (k j : String) (v : V)
      → get (put m k v) j ≡ (if k == j then some v else get m j)
  unfolding get put
  get-put [] k j v = refl
  get-put ((i, w) ∷ m) k j v = ground (arith, eq_iff i k, eq_iff i j, eq_iff k j, get-put m k j v)

  pub get-put_self : (m : GoMap V) (k : String) (v : V) → get (put m k v) k ≡ some v
  get-put_self m k v = ground (arith, get-put m k k v, eq_iff k k)

-- `m[k]` of a string map: the zero value where the key is missing.
abbrev pub get_str : GoMap String → String → String
get_str m k = elim (get m k) [ none ↦ "" | some v ↦ v ]
