-- ===== src/Text/Prefix.antt =====
-- A text that begins with another.
use text.Mathlib.TextPositions.{starts_with-append}
use text.Mathlib.Text.{starts_with}
use forgeiq.Prelude.{String, concat, ◌≡◌, false, Bool-cases, inl, inr, eq_iff, ◌==◌}

-- What begins with `p` is no text that does not.
pub concat-ne : (p r j : String) → starts_with j p ≡ false → (concat p r == j) ≡ false
concat-ne p r j h = elim (Bool-cases (concat p r == j)) [
  | inl e ↦
      let same : concat p r ≡ j = (eq_iff (concat p r) j).0 e in
      absurd (cc (h, rw same at (starts_with-append p r)))
  | inr e ↦ e
]
