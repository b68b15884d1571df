-- ===== src/RateLimit/Window.antt =====
-- The recent part of a log of requests.
use forgeiq.Prelude.{
  ℕ, ◌≤◌, String, ◌≡◌, refl, sym, ◌∙◌, ap, true, inl, inr, List, [], ◌∷◌, ◌++◌, ℤ, length,
  if◌then◌else◌, ◌==◌, arith, Bool-cases,
}
use forgeiq.RateLimit.{is_recent, recent, Arrival}

-- The times at which an identifier's requests were let through.
unfoldable pub times_for : String → List Arrival → List ℕ
times_for id [] = []
times_for id (a ∷ xs) = if a.identifier == id then a.at_time ∷ times_for id xs else times_for id xs

pub times_for-append :
    (id : String) (xs : List Arrival) (a : Arrival)
    → times_for id (xs ++ a ∷ [])
      ≡ times_for id xs ++ (if a.identifier == id then a.at_time ∷ [] else [])
unfolding times_for
times_for-append id [] a = refl
times_for-append id (x ∷ xs) a = elim (Bool-cases (x.identifier == id)) [
  | inl e ↦ rw e (ap (λ ts. x.at_time ∷ ts) (times_for-append id xs a))
  | inr e ↦ rw e (times_for-append id xs a)
]

module _ (window : ℤ) where
  pub recent-append :
      (now : ℕ) (xs ys : List ℕ)
      → recent window now (xs ++ ys) ≡ recent window now xs ++ recent window now ys
  unfolding recent
  recent-append now [] ys = refl
  recent-append now (x ∷ xs) ys = elim (Bool-cases (is_recent window now x)) [
    | inl e ↦ rw e (ap (λ ts. x ∷ ts) (recent-append now xs ys))
    | inr e ↦ rw e (recent-append now xs ys)
  ]

  pub length-recent-le : (now : ℕ) (xs : List ℕ) → length (recent window now xs) ≤ length xs
  unfolding recent
  length-recent-le now [] = omega arith
  length-recent-le now (x ∷ xs) = elim (Bool-cases (is_recent window now x)) [
    | inl e ↦ rw e (omega (arith, length-recent-le now xs))
    | inr e ↦ rw e (omega (arith, length-recent-le now xs))
  ]

  pub is_recent-earlier :
      (now later t : ℕ)
      → now ≤ later
      → is_recent window later t ≡ true
      → is_recent window now t ≡ true
  is_recent-earlier now later t h r = ground arith

  -- Forgetting what is old now loses nothing that is recent later.
  pub recent-recent :
      (now later : ℕ) (xs : List ℕ)
      → now ≤ later
      → recent window later (recent window now xs) ≡ recent window later xs
  unfolding recent
  recent-recent now later [] h = refl
  recent-recent now later (x ∷ xs) h = elim (Bool-cases (is_recent window now x)) [
    | inl e ↦ rw e (elim (Bool-cases (is_recent window later x)) [
      | inl f ↦ rw f (ap (λ ts. x ∷ ts) (recent-recent now later xs h))
      | inr f ↦ rw f (recent-recent now later xs h)
    ])
    | inr e ↦ rw e (elim (Bool-cases (is_recent window later x)) [
      | inl f ↦ cc (e, is_recent-earlier now later x h f)
      | inr f ↦ rw f (recent-recent now later xs h)
    ])
  ]

  -- The log and the history agree on what is recent, from now on.
  abbrev pub Tracks : ℕ → List ℕ → List ℕ → Type 0
  Tracks now log history =
      (later : ℕ) → now ≤ later → recent window later log ≡ recent window later history

  pub Tracks-push :
      (last now : ℕ) (log history : List ℕ)
      → last ≤ now
      → Tracks last log history
      → Tracks now (recent window now log ++ now ∷ []) (history ++ now ∷ [])
  Tracks-push last now log history h t later l =
      recent-append later (recent window now log) (now ∷ [])
      ∙ ap (λ ts. ts ++ recent window later (now ∷ []))
          (recent-recent now later log l ∙ t later (omega (arith, h, l)))
      ∙ sym (recent-append later history (now ∷ []))
