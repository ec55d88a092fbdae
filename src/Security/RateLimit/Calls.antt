-- ===== src/Security/RateLimit/Calls.antt =====
-- The calls of the rate limiter at their instants, and what they do to the map of buckets.
use cube_core.Base.{
  refl, ℕ, ◌+◌, ◌*◌, ◌^◌, ◌≤◌, ◌<◌, ◌≡◌, ◌⊎◌, ◌&&◌, List, [], ◌∷◌, none, some, ltb, if◌then◌else◌,
  arith,
}
use cube_core.Base.Maps.{Map, IsMap, find, put, find-put}
use cube_core.Security.RateLimit.{
  RateLimitKey, RateLimitConfig, Bucket, RateLimiter, signed_less, same_key, limit_key, bucket_of,
  allow_n, kept, gc,
}

-- A request for tokens, or a collection of what was idle.
pub data Call : Type 0 where
  asks : RateLimitKey → ℕ → Call
  sweeps : ℕ → Call

unfoldable pub step : RateLimiter → ℕ → Call → RateLimiter
step l now (asks key n) = (allow_n l now key n).0
step l now (sweeps idle) = (gc l now idle).0

-- The tokens that one call gives to the key. A request for no tokens is granted and takes none.
unfoldable pub taken : RateLimiter → RateLimitKey → ℕ → Call → ℕ
taken l k now (asks key n) =
    if same_key key k && signed_less 0 n && (allow_n l now key n).1 then n else 0
taken l k now (sweeps idle) = 0

-- The tokens that calls at their instants give to the key.
unfoldable pub grants : RateLimiter → RateLimitKey → List (ℕ × Call) → ℕ
grants l k [] = 0
grants l k ((now, call) ∷ cs) = taken l k now call + grants (step l now call) k cs

unfoldable pub run : RateLimiter → List (ℕ × Call) → RateLimiter
run l [] = l
run l ((now, call) ∷ cs) = run (step l now call) cs

-- A number of tokens is a word; a collection waits until an idle bucket has filled up.
abbrev pub IsCall : RateLimitConfig → Call → Type 0
IsCall c (asks key n) = n < 2 ^ 64
IsCall c (sweeps idle) = (idle ≡ 0) ⊎ (c.interval * c.capacity ≤ c.refill * idle)

-- The instants do not go back, and the latest ends them.
abbrev pub IsSchedule : RateLimitConfig → ℕ → ℕ → List (ℕ × Call) → Type 0
IsSchedule c latest before [] = before ≤ latest
IsSchedule c latest before ((now, call) ∷ cs) =
    (before ≤ now) × (IsCall c call × IsSchedule c latest now cs)

pub schedule_ends :
    (c : RateLimitConfig) (latest before : ℕ) (cs : List (ℕ × Call))
    → IsSchedule c latest before cs
    → before ≤ latest
schedule_ends c latest before [] h = h
schedule_ends c latest before ((now, call) ∷ cs) h =
    omega (arith, h.0, schedule_ends c latest now cs h.1.1)

pub bucket_of-put :
    (l : RateLimiter) (j k : RateLimitKey) (b : Bucket) (now : ℕ)
    → bucket_of (record l { bkt = put j b l.bkt }) k now
      ≡ (if same_key j k then b else bucket_of l k now)
unfolding bucket_of
bucket_of-put l j k b now = ground (arith, find-put j k b l.bkt)

find-kept :
    (now idle : ℕ) (k : RateLimitKey) (m : Map RateLimitKey Bucket)
    → IsMap m
    → find k (kept now idle m).0
      ≡ (elim (find k m) [ none ↦ none | some b ↦ if ltb (b.at + idle) now then none else some b ])
unfolding kept find
find-kept now idle k [] h = refl
find-kept now idle k ((j, b) ∷ m) h =
    ground (arith, find-kept now idle k m h.1, limit_key.eq_iff j k, h.0)

pub kept-IsMap : (now idle : ℕ) (m : Map RateLimitKey Bucket) → IsMap m → IsMap (kept now idle m).0
unfolding kept
kept-IsMap now idle [] h = tt
kept-IsMap now idle ((j, b) ∷ m) h =
    ground (arith, kept-IsMap now idle m h.1, find-kept now idle j m h.1, h.0)

-- A collected bucket is full when it is asked for again.
pub bucket_of-kept :
    (l : RateLimiter) (k : RateLimitKey) (now idle next : ℕ)
    → IsMap l.bkt
    → bucket_of (record l { bkt = (kept now idle l.bkt).0 }) k next ≡ (
        if ltb ((bucket_of l k next).at + idle) now
        then record { tokens = l.cfg.capacity; at = next }
        else bucket_of l k next)
unfolding bucket_of
bucket_of-kept l k now idle next h = ground (arith, find-kept now idle k l.bkt h)
