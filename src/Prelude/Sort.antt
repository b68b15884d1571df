-- ===== src/Prelude/Sort.antt =====
-- `sort.SliceStable`: the stable sort by a `less` function. Go documents its result only for a strict
-- weak order, where it is the one that insertion gives too.
use mathlib.Core.Path.{◌≡◌}
use mathlib.Core.Logic.{inr, inl, ◌↔◌}
use mathlib.Core.Bool.{Bool, true, false}
use mathlib.Core.List.{List, [], ◌∷◌}
use forgeiq.Prelude.Tests.{if◌then◌else◌, Bool-cases}
use forgeiq.Prelude.Lists.{All, All-map}

module _ {ℓ} {A : Type ℓ} (less : A → A → Bool) where
  -- `x` comes from before `ys`, so it stays before its equals.
  unfoldable pub insert_stable : A → List A → List A
  insert_stable x [] = x ∷ []
  insert_stable x (y ∷ ys) = if less y x then y ∷ insert_stable x ys else x ∷ y ∷ ys

  unfoldable pub sort_stable : List A → List A
  unfolding insert_stable
  sort_stable [] = []
  sort_stable (x ∷ xs) = insert_stable x (sort_stable xs)

  module _ {κ} (P : A → Type κ) where
    insert_stable-All : (x : A) (ys : List A) → All P (insert_stable x ys) ↔ (P x × All P ys)
    unfolding insert_stable
    insert_stable-All x [] = (λ h. h, λ h. h)
    insert_stable-All x (y ∷ ys) =
        let (to, from) = insert_stable-All x ys in
        elim (Bool-cases (less y x)) [
          | inl e ↦
              rw e (λ h. let (a, b) = to h.1 in (a, (h.0, b)), λ h. (h.1.0, from (h.0, h.1.1)))
          | inr e ↦ rw e (λ h. h, λ h. h)
        ]

    -- What holds of all elements does before and after.
    pub sort_stable-All : (xs : List A) → All P (sort_stable xs) ↔ All P xs
    unfolding sort_stable
    sort_stable-All [] = (λ h. h, λ h. h)
    sort_stable-All (x ∷ xs) =
        let (to, from) = insert_stable-All x (sort_stable xs) in
        let (back, forth) = sort_stable-All xs in
        (λ h. let (a, b) = to h in (a, back b), λ h. from (h.0, forth h.1))

  -- `less` is asymmetric, and its negation is transitive, on the elements with `Q`.
  pub record IsWeakOrder {κ} (Q : A → Type κ) : Type (ℓ ⊔ κ) where
    pub asym : (a b : A) → Q a → Q b → less a b ≡ true → less b a ≡ false
    pub negtrans :
        (a b c : A) → Q a → Q b → Q c → less a b ≡ false → less b c ≡ false → less a c ≡ false

  -- The first element, and that none of the list is less.
  abbrev pub HasLeast {κ} : (A → Type κ) → List A → Type κ
  HasLeast Q [] = Unit
  HasLeast Q (x ∷ xs) = Q x × All (λ y. Q y × (less y x ≡ false)) xs

  module _ {κ} {Q : A → Type κ} (o : IsWeakOrder Q) where
    open o use {asym, negtrans}

    insert_stable-HasLeast :
        (x : A) (ys : List A) → Q x → HasLeast Q ys → HasLeast Q (insert_stable x ys)
    unfolding insert_stable
    insert_stable-HasLeast x [] q h = (q, tt)
    insert_stable-HasLeast x (y ∷ ys) q h = elim (Bool-cases (less y x)) [
      | inl e ↦ rw e (
        h.0,
        (insert_stable-All (λ z. Q z × (less z y ≡ false)) x ys).1 ((q, asym y x h.0 q e), h.1),
      )
      | inr e ↦
          let later = All-map _ _ ys (λ z p. (p.0, negtrans z y x p.0 h.0 q p.1 e)) h.1 in
          let others : All (λ z. Q z × (less z x ≡ false)) (y ∷ ys) = ((h.0, e), later) in
          rw e (q, others)
    ]

    -- The head of the sorted list is a least element.
    pub sort_stable-HasLeast : (xs : List A) → All Q xs → HasLeast Q (sort_stable xs)
    unfolding sort_stable
    sort_stable-HasLeast [] h = tt
    sort_stable-HasLeast (x ∷ xs) h =
        insert_stable-HasLeast x (sort_stable xs) h.0 (sort_stable-HasLeast xs h.1)
