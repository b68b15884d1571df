-- ===== src/RateLimit/Limit.antt =====
-- The limiter lets through no more than its limit in any window, and refuses only what would exceed
-- it.
use forgeiq.Prelude.{
  append-nil, subst, ℕ, ◌+◌, ◌≤◌, String, ◌≡◌, refl, ◌∙◌, Bool, true, inl, inr, List, [], ◌∷◌, ◌++◌,
  ℤ, pos, negsuc, pos_part, ltb_ℤ, length, length-append, if◌then◌else◌, ◌==◌, eq_iff, arith,
  Bool-cases,
}
use forgeiq.GoMap.{get, put, get-put}
use forgeiq.RateLimit.{
  RateLimiter, new_rate_limiter, recent, times_of, valid_requests, allow, Arrival, serve,
}
use forgeiq.RateLimit.Window.{times_for, times_for-append, length-recent-le, Tracks, Tracks-push}

-- What is known after the request at the time `last`: the log of each identifier agrees with what was
-- let through, and what is recent is within the limit.
abbrev IsExact : RateLimiter → List Arrival → ℕ → Type 0
IsExact rl passed last =
    (id : String)
    → Tracks rl.window last (times_of (get rl.requests id)) (times_for id passed)
      × ((now : ℕ)
          → last ≤ now
          → length (recent rl.window now (times_for id passed)) ≤ pos_part rl.limit)

-- The times do not decrease.
abbrev pub IsOrdered : ℕ → List Arrival → Type 0
IsOrdered last [] = Unit
IsOrdered last (a ∷ more) = (last ≤ a.at_time) × IsOrdered a.at_time more

abbrev pub last_time : ℕ → List Arrival → ℕ
last_time last [] = last
last_time last (a ∷ more) = last_time a.at_time more

IsExact-later :
    (rl : RateLimiter) (passed : List Arrival) (last now : ℕ)
    → last ≤ now
    → IsExact rl passed last
    → IsExact rl passed now
IsExact-later rl passed last now h x id = (
  λ later l. (x id).0 later (omega (arith, h, l)),
  λ later l. (x id).1 later (omega (arith, h, l)),
)

fits : (n : ℕ) (limit : ℤ) → ltb_ℤ (pos n) limit ≡ true → n + 1 ≤ pos_part limit
fits n (pos k) h = ground arith
fits n (negsuc k) h = ground arith

module _ (rl : RateLimiter) (passed : List Arrival) (last : ℕ) (a : Arrival) where
  abbrev valid : List ℕ
  valid = valid_requests rl a.identifier a.at_time

  abbrev noted : RateLimiter
  noted = record rl { requests = put rl.requests a.identifier (valid ++ a.at_time ∷ []) }

  abbrev IsBoth : List ℕ → List ℕ → Type 0
  IsBoth log history =
      Tracks rl.window a.at_time log history
      × ((now : ℕ) → a.at_time ≤ now → length (recent rl.window now history) ≤ pos_part rl.limit)

  own-IsBoth :
      last ≤ a.at_time
      → IsExact rl passed last
      → ltb_ℤ (pos (length valid)) rl.limit ≡ true
      → IsBoth (valid ++ a.at_time ∷ []) (times_for a.identifier passed ++ a.at_time ∷ [])
  own-IsBoth h x r =
      let t =
        Tracks-push rl.window last a.at_time (times_of (get rl.requests a.identifier))
          (times_for a.identifier passed) h (x a.identifier).0 in
      (
        t,
        λ now l. rw⁻¹ (t now l) (
            omega (
              arith,
              length-recent-le rl.window now (valid ++ a.at_time ∷ []),
              length-append valid (a.at_time ∷ []),
              fits (length valid) rl.limit r,
            )),
      )

  push-IsExact :
      last ≤ a.at_time
      → IsExact rl passed last
      → ltb_ℤ (pos (length valid)) rl.limit ≡ true
      → IsExact noted (passed ++ a ∷ []) a.at_time
  push-IsExact h x r id = elim (Bool-cases (a.identifier == id)) [
    | inl e ↦
        rw
          (
            get-put rl.requests a.identifier id (valid ++ a.at_time ∷ []),
            times_for-append id passed a,
            e,
          )
          (subst (λ i. IsBoth (valid ++ a.at_time ∷ []) (times_for i passed ++ a.at_time ∷ []))
            ((eq_iff a.identifier id).0 e) (own-IsBoth h x r))
    | inr e ↦
        rw
          (
            get-put rl.requests a.identifier id (valid ++ a.at_time ∷ []),
            times_for-append id passed a,
            e,
            append-nil (times_for id passed),
          )
          (IsExact-later rl passed last a.at_time h x id)
  ]

  abbrev passed_after : Bool → List Arrival
  passed_after b = if b then passed ++ a ∷ [] else passed

  allow-IsExact :
      last ≤ a.at_time
      → IsExact rl passed last
      → IsExact
          (allow rl a.identifier a.at_time).0
          (passed_after (allow rl a.identifier a.at_time).1)
          a.at_time
  unfolding allow
  allow-IsExact h x = elim (Bool-cases (ltb_ℤ (pos (length valid)) rl.limit)) [
    | inl e ↦ rw e (push-IsExact h x e)
    | inr e ↦ rw e (IsExact-later rl passed last a.at_time h x)
  ]

new-IsExact : (limit window : ℤ) → IsExact (new_rate_limiter limit window) [] 0
unfolding times_for recent get
new-IsExact limit window id = (λ later l. refl, λ now l. omega arith)

serve-IsExact :
    (rl : RateLimiter) (passed arrivals : List Arrival) (last : ℕ)
    → IsOrdered last arrivals
    → IsExact rl passed last
    → IsExact (serve rl passed arrivals).0 (serve rl passed arrivals).1 (last_time last arrivals)
unfolding serve
serve-IsExact rl passed [] last o x = x
serve-IsExact rl passed (a ∷ more) last o x =
    serve-IsExact (allow rl a.identifier a.at_time).0 _ more a.at_time o.1
      (allow-IsExact rl passed last a o.0 x)

allow-keeps :
    (rl : RateLimiter) (id : String) (now : ℕ)
    → ((allow rl id now).0.limit ≡ rl.limit) × ((allow rl id now).0.window ≡ rl.window)
unfolding allow
allow-keeps rl id now =
    elim (Bool-cases (ltb_ℤ (pos (length (valid_requests rl id now))) rl.limit)) [
      | inl e ↦ rw e (refl, refl)
      | inr e ↦ rw e (refl, refl)
    ]

allow-answer :
    (rl : RateLimiter) (id : String) (now : ℕ)
    → (allow rl id now).1 ≡ ltb_ℤ (pos (length (valid_requests rl id now))) rl.limit
unfolding allow
allow-answer rl id now =
    elim (Bool-cases (ltb_ℤ (pos (length (valid_requests rl id now))) rl.limit)) [
      | inl e ↦ rw e refl
      | inr e ↦ rw e refl
    ]

serve-keeps :
    (rl : RateLimiter) (passed arrivals : List Arrival)
    → ((serve rl passed arrivals).0.limit ≡ rl.limit)
      × ((serve rl passed arrivals).0.window ≡ rl.window)
unfolding serve
serve-keeps rl passed [] = (refl, refl)
serve-keeps rl passed (a ∷ more) =
    let k = allow-keeps rl a.identifier a.at_time in
    let r = serve-keeps (allow rl a.identifier a.at_time).0 _ more in (r.0 ∙ k.0, r.1 ∙ k.1)

-- After any requests at times that do not decrease: of each identifier's requests, at most `limit`
-- (none where it is negative) of those let through lie in the window that ends at a time not before
-- the last request.
pub serve_within_limit :
    (limit window : ℤ) (arrivals : List Arrival) (id : String) (now : ℕ)
    → IsOrdered 0 arrivals
    → last_time 0 arrivals ≤ now
    → length
        (recent window now (times_for id (serve (new_rate_limiter limit window) [] arrivals).1))
      ≤ pos_part limit
serve_within_limit limit window arrivals id now o l =
    let k = serve-keeps (new_rate_limiter limit window) [] arrivals in
    let x =
      serve-IsExact (new_rate_limiter limit window) [] arrivals 0 o (new-IsExact limit window) in
    rw (k.0, k.1) at ((x id).1 now l)

-- After any requests at times that do not decrease, a further one at a later or the same time is let
-- through exactly when its identifier has, in the window that ends at the request, fewer than `limit`
-- requests that were let through.
pub allow_exactly :
    (limit window : ℤ) (arrivals : List Arrival) (id : String) (now : ℕ)
    → IsOrdered 0 arrivals
    → last_time 0 arrivals ≤ now
    → (allow (serve (new_rate_limiter limit window) [] arrivals).0 id now).1
      ≡ ltb_ℤ
          (pos (
            length (
              recent window now
                (times_for id (serve (new_rate_limiter limit window) [] arrivals).1))))
          limit
allow_exactly limit window arrivals id now o l =
    let k = serve-keeps (new_rate_limiter limit window) [] arrivals in
    let x =
      serve-IsExact (new_rate_limiter limit window) [] arrivals 0 o (new-IsExact limit window) in
    allow-answer (serve (new_rate_limiter limit window) [] arrivals).0 id now
    ∙ rw ((x id).0 now l, k.0, k.1) refl
