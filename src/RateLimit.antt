-- ===== src/RateLimit.antt =====
-- The request limiter of internal/middleware/ratelimit.go: for each identifier, a log of the times of
-- the requests that were let through.
pub mod Window
pub mod Limit
use forgeiq.Prelude.{
  ℕ, ◌+◌, String, Bool, true, false, not, Option, none, some, List, [], ◌∷◌, ◌++◌, ℤ, pos, pos_part,
  neg_part, ltb, ltb_ℤ, length, if◌then◌else◌, ◌==◌,
}
use forgeiq.GoMap.{GoMap, get, put}

-- Times are nanoseconds since some origin; `window` is a signed duration.
pub record RateLimiter : Type 0 where
  pub requests : GoMap (List ℕ)
  pub limit : ℤ
  pub window : ℤ

abbrev pub new_rate_limiter : ℤ → ℤ → RateLimiter
new_rate_limiter limit window = record { requests = []; limit = limit; window = window }

-- `t.After(now.Add(-window))`
abbrev pub is_recent : ℤ → ℕ → ℕ → Bool
is_recent window now t = ltb (now + neg_part window) (t + pos_part window)

-- The loop that collects `validRequests`.
unfoldable pub recent : ℤ → ℕ → List ℕ → List ℕ
recent window now [] = []
recent window now (t ∷ ts) =
    if is_recent window now t then t ∷ recent window now ts else recent window now ts

-- A missing key reads as the nil slice.
abbrev pub times_of : Option (List ℕ) → List ℕ
times_of none = []
times_of (some ts) = ts

abbrev pub valid_requests : RateLimiter → String → ℕ → List ℕ
valid_requests rl identifier now = recent rl.window now (times_of (get rl.requests identifier))

-- `Allow` at the time `now`. A request that is refused leaves the log as it is.
unfoldable pub allow : RateLimiter → String → ℕ → RateLimiter × Bool
unfolding get put
allow rl identifier now =
    let valid = valid_requests rl identifier now in
    if not (ltb_ℤ (pos (length valid)) rl.limit)
    then (rl, false)
    else (record rl { requests = put rl.requests identifier (valid ++ now ∷ []) }, true)

pub record Request : Type 0 where
  pub remote_addr : String
  -- the header X-Forwarded-For, "" where it is not given
  pub forwarded_for : String

pub data Response : Type 0 where
  served too_many_requests : Response

abbrev pub identifier_of : Request → String
identifier_of r = if not (r.forwarded_for == "") then r.forwarded_for else r.remote_addr

abbrev pub respond : Bool → Response
respond true = served
respond false = too_many_requests

-- `RateLimitMiddleware`: the next handler is called, or the answer is 429.
abbrev pub rate_limit_middleware : RateLimiter → Request → ℕ → RateLimiter × Response
rate_limit_middleware rl r now =
    let answer = allow rl (identifier_of r) now in (answer.0, respond answer.1)

-- A request and the time at which the limiter sees it.
pub record Arrival : Type 0 where
  pub identifier : String
  pub at_time : ℕ

-- The requests in their order, with those let through so far in `passed`.
unfoldable pub serve : RateLimiter → List Arrival → List Arrival → RateLimiter × List Arrival
serve rl passed [] = (rl, passed)
serve rl passed (a ∷ more) =
    let answer = allow rl a.identifier a.at_time in
    serve answer.0 (if answer.1 then passed ++ a ∷ [] else passed) more
