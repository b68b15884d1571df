-- ===== src/Prelude/Strings.antt =====
-- Membership in a list of texts, as the program's `contains` and `has` helpers test it.
use Prim.Native.String.{String}
use mathlib.Core.Path.{◌≡◌, sym}
use mathlib.Core.Logic.Or
use mathlib.Core.Logic.{inl, inr, ◌≢◌}
use mathlib.Core.Bool.{Bool, true, false, Bool-set}
use mathlib.Core.List.{
  List, [], ◌∷◌, Mem, mem-cons_self, mem-cons_of_mem, mem-cons, not-mem-nil, mem-cast,
}
use text.Mathlib.Text.{◌==◌}
use text.Mathlib.TextEquality.{eq_iff}
use native.Mathlib.Omega.{arith}
use forgeiq.Prelude.Tests.{if◌then◌else◌, Bool-cases}

-- `contains` of internal/controlplane/orchestrator/orchestrator.go, and the same helper elsewhere
unfoldable pub contains : List String → String → Bool
contains [] x = false
contains (v ∷ xs) x = if v == x then true else contains xs x

pub contains→mem : (xs : List String) (x : String) → contains xs x ≡ true → Mem x xs
unfolding contains
contains→mem [] x h = cc
contains→mem (v ∷ xs) x h = elim (Bool-cases (v == x)) [
  | inl e ↦ mem-cast (sym ((eq_iff v x).0 e)) mem-cons_self
  | inr e ↦ mem-cons_of_mem v (contains→mem xs x (rw e at h))
]

pub mem→contains : (xs : List String) (x : String) → Mem x xs → contains xs x ≡ true
unfolding contains
mem→contains [] x m = absurd (not-mem-nil m)
mem→contains (v ∷ xs) x m =
    Or.elim (Bool-set _ _) (mem-cons.0 m) (λ e. ground (arith, eq_iff v x))
      (λ rest. ground (arith, mem→contains xs x rest))

pub ne_of_==_false : (a b : String) → (a == b) ≡ false → a ≢ b
ne_of_==_false a b h e = absurd (cc ((eq_iff a b).1 e))
