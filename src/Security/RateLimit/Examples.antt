-- ===== src/Security/RateLimit/Examples.antt =====
-- A small bucket that two keys ask.
use cube_core.Base.{ℕ, ◌+◌, ◌-◌, ◌*◌, ◌≤◌, ◌≡◌, refl, List, [], ◌∷◌, true, inr, arith}
use cube_core.Base.Maps.{find, put}
use cube_core.Security.RateLimit.{
  RateLimitKey, RateLimitConfig, normalize, new_rate_limiter, allow_n, refill_bucket, refill_from,
  add_tokens, signed_less, bucket_of, kept, gc, same_key,
}
use cube_core.Security.RateLimit.Calls.{Call, asks, sweeps, grants, run, step, taken}
use cube_core.Security.RateLimit.Bound.{grants_le, allow_n-run}

abbrev config : RateLimitConfig
config = record { capacity = 3; refill = 2; interval = 10 }

abbrev mine : RateLimitKey
mine = record { owner_id = 1; action = 4 }

abbrev other : RateLimitKey
other = record { owner_id = 2; action = 4 }

abbrev calls : List (ℕ × Call)
calls =
    (5, asks mine 2)
    ∷ (6, asks mine 2)
    ∷ (6, asks other 3)
    ∷ (16, asks mine 2)
    ∷ (100, sweeps 20)
    ∷ []

grants_le_example : 10 * grants (new_rate_limiter config) mine calls ≤ 10 * 3 + 2 * (100 - 5)
unfolding normalize
grants_le_example = grants_le config mine 5 100 calls (omega arith) (omega arith) (
  omega arith,
  (
    omega arith,
    (
      omega arith,
      (
        omega arith,
        (
          omega arith,
          (
            omega arith,
            (omega arith, (omega arith, (omega arith, (inr (omega arith), omega arith)))),
          ),
        ),
      ),
    ),
  ),
)

allow_n-run_example : (allow_n (run (new_rate_limiter config) calls) 120 mine 3).1 ≡ true
unfolding normalize
allow_n-run_example =
    allow_n-run config mine 5 100 120 3 calls (omega arith) (omega arith)
      (
        omega arith,
        (
          omega arith,
          (
            omega arith,
            (
              omega arith,
              (
                omega arith,
                (
                  omega arith,
                  (omega arith, (omega arith, (omega arith, (inr (omega arith), omega arith)))),
                ),
              ),
            ),
          ),
        ),
      )
      (omega arith) (omega arith) (omega arith) (omega arith)

-- Two of the three requests are granted.
granted : grants (new_rate_limiter config) mine calls ≡ 4
unfolding grants taken step new_rate_limiter normalize allow_n gc kept bucket_of find put
    refill_bucket refill_from add_tokens signed_less same_key
granted = refl

-- A collection that does not wait hands the key a second bucket at once.
collected_early :
    grants
      (new_rate_limiter (record { capacity = 3; refill = 1; interval = 100 }))
      mine
      ((5, asks mine 3) ∷ (50, asks mine 3) ∷ (60, sweeps 10) ∷ (61, asks mine 3) ∷ [])
    ≡ 6
unfolding grants taken step new_rate_limiter normalize allow_n gc kept bucket_of find put
    refill_bucket refill_from add_tokens signed_less same_key
collected_early = refl
