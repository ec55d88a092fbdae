-- ===== src/Security/RateLimit/Bound.antt =====
-- What the rate limiter lets one key have, whatever is asked of it, and what it does not keep from it.
use native.Mathlib.Nat.{mul-le-mul_right, mul-le-mul_left}
use cube_core.Base.{
  Option-cases, ◌∙◌, ◌/◌, refl, ℕ, ◌+◌, ◌-◌, ◌*◌, ◌^◌, ◌≤◌, ◌<◌, ◌≡◌, ◌⊎◌, inl, inr, true, List, [],
  ◌∷◌, arith, subst, sym,
}
use cube_core.Base.Maps.{find}
use cube_core.Security.RateLimit.{
  RateLimitKey, RateLimitConfig, RateLimiter, limit_key, normalize, new_rate_limiter, refill_bucket,
  bucket_of, allow_n, gc,
}
use cube_core.Security.RateLimit.Refill.{
  refill_bucket_fills, div_mono, signed_less_small, IsRoomy, Owes,
}
use cube_core.Security.RateLimit.Calls.{
  run, Call, asks, sweeps, step, taken, grants, IsCall, IsSchedule, schedule_ends,
}
use cube_core.Security.RateLimit.Books.{Books, later-Books, allow_n-Books, gc-Books}

step-Books :
    (l : RateLimiter) (k : RateLimitKey) (start given before now latest : ℕ) (call : Call)
    → IsRoomy l.cfg latest
    → 1 ≤ start
    → Books l k start given before
    → before ≤ now
    → now ≤ latest
    → IsCall l.cfg call
    → Books (step l now call) k start (given + taken l k now call) now
unfolding step taken
step-Books l k start given before now latest (asks j n) r s books past upto h =
    allow_n-Books l k j start given before now latest n r s books past upto h
step-Books l k start given before now latest (sweeps idle) r s books past upto h =
    later-Books (gc l now idle).0 k start given (given + 0) now now
      (gc-Books l k start given before now idle books past h) (omega arith) (omega arith)

step_cfg : (l : RateLimiter) (now : ℕ) (call : Call) → (step l now call).cfg ≡ l.cfg
unfolding step allow_n gc
step_cfg l now (asks j n) = ground arith
step_cfg l now (sweeps idle) = ground arith

run_cfg : (l : RateLimiter) (cs : List (ℕ × Call)) → (run l cs).cfg ≡ l.cfg
unfolding run
run_cfg l [] = refl
run_cfg l ((now, call) ∷ cs) = run_cfg (step l now call) cs ∙ step_cfg l now call

run-Books :
    (l : RateLimiter) (k : RateLimitKey) (start given before latest : ℕ) (cs : List (ℕ × Call))
    → IsRoomy l.cfg latest
    → 1 ≤ start
    → Books l k start given before
    → IsSchedule l.cfg latest before cs
    → Books (run l cs) k start (given + grants l k cs) latest
unfolding grants run
run-Books l k start given before latest [] r s books h =
    later-Books l k start given (given + 0) before latest books h (omega arith)
run-Books l k start given before latest ((now, call) ∷ cs) r s books h =
    let same = sym (step_cfg l now call) in
    let next =
      step-Books l k start given before now latest call r s books h.0
        (schedule_ends l.cfg latest now cs h.1.1) h.1.0 in
    let rest =
      run-Books (step l now call) k start (given + taken l k now call) now latest cs
        (subst (λ c. IsRoomy c latest) same r) s next
        (subst (λ c. IsSchedule c latest now cs) same h.1.1) in
    subst (λ g. Books (run (step l now call) cs) k start g latest) (omega arith) rest

new_rate_limiter-Books :
    (cfg : RateLimitConfig) (k : RateLimitKey) (start : ℕ)
    → Books (new_rate_limiter cfg) k start 0 start
unfolding new_rate_limiter bucket_of find
new_rate_limiter-Books cfg k start = record {
  is_map = tt;
  in_order =
      λ now h. record { since = h; until = omega arith; cap = omega arith; owed = omega arith };
}

normalize-IsRoomy :
    (cfg : RateLimitConfig) (latest : ℕ)
    → (normalize cfg).capacity + latest / (normalize cfg).interval * (normalize cfg).refill < 2 ^ 63
    → IsRoomy (normalize cfg) latest
unfolding normalize
normalize-IsRoomy cfg latest h = record {
  has_interval = ground arith;
  has_capacity = ground arith;
  has_room = h;
}

-- Whatever a new rate limiter is asked, by this key or others, and however often idle buckets are
-- collected in between, the tokens that it gives to a key from the first instant to the latest are at
-- most a full bucket and the refill for the time that has passed. The instants do not go back, the
-- refills fit an `int64`, and a collection spares a bucket that had no time to fill up.
pub grants_le :
    (cfg : RateLimitConfig) (k : RateLimitKey) (start latest : ℕ) (cs : List (ℕ × Call))
    → 1 ≤ start
    → (normalize cfg).capacity + latest / (normalize cfg).interval * (normalize cfg).refill < 2 ^ 63
    → IsSchedule (normalize cfg) latest start cs
    → (normalize cfg).interval * grants (new_rate_limiter cfg) k cs
      ≤ (normalize cfg).interval * (normalize cfg).capacity
        + (normalize cfg).refill * (latest - start)
unfolding new_rate_limiter
grants_le cfg k start latest cs s room h =
    let books =
      run-Books (new_rate_limiter cfg) k start 0 start latest cs (normalize-IsRoomy cfg latest room)
        s (new_rate_limiter-Books cfg k start) h in
    let o = books.in_order latest (omega arith) in
    let c = run_cfg (new_rate_limiter cfg) cs in
    let owed =
      subst
        (λ (c : RateLimitConfig).
          Owes c start (0 + grants (new_rate_limiter cfg) k cs)
            (bucket_of (run (new_rate_limiter cfg) cs) k latest) latest)
        c o in
    let most : (normalize cfg).refill
          * ((bucket_of (run (new_rate_limiter cfg) cs) k latest).at - start)
        ≤ (normalize cfg).refill * (latest - start) =
      mul-le-mul_left (normalize cfg).refill (omega (arith, owed.until)) in
    omega (arith, owed.owed, most)

-- A bucket that is asked for is full, or stood at the instant before.
bucket_settled :
    (l : RateLimiter) (k : RateLimitKey) (start given before now : ℕ)
    → Books l k start given before
    → ((bucket_of l k now).tokens ≡ l.cfg.capacity) ⊎ ((bucket_of l k now).at ≤ before)
unfolding bucket_of
bucket_settled l k start given before now books =
    let o : (bucket_of l k before).at ≤ before = (books.in_order before (omega arith)).until in
    elim (Option-cases (find k l.bkt)) [
      | inl free ↦ inl (ground (arith, free))
      | inr (b, held) ↦ inr (ground (arith, held, o))
    ]

-- A key whose bucket had the time to fill up.
allow_n-full :
    (l : RateLimiter) (k : RateLimitKey) (start given before now n : ℕ)
    → IsRoomy l.cfg now
    → 1 ≤ start
    → Books l k start given before
    → before ≤ now
    → now - start < 2 ^ 63
    → l.cfg.capacity ≤ (now - before) / l.cfg.interval * l.cfg.refill
    → n ≤ l.cfg.capacity
    → (allow_n l now k n).1 ≡ true
unfolding allow_n
allow_n-full l k start given before now n r s books past short long few =
    let b = bucket_of l k now in
    let o = books.in_order now past in
    let waited : (b.tokens ≡ l.cfg.capacity)
        ⊎ (l.cfg.capacity ≤ (now - b.at) / l.cfg.interval * l.cfg.refill) =
      elim (bucket_settled l k start given before now books) [
        | inl full ↦ inl full
        | inr old ↦ inr (
            omega (
              arith,
              long,
              mul-le-mul_right l.cfg.refill (
                  div_mono (now - before) (now - b.at) l.cfg.interval r.has_interval
                    (omega (arith, old))),
            ))
      ] in
    let full =
      refill_bucket_fills l.cfg now now b r (omega (arith, o.since)) (omega arith) o.cap
        (omega (arith, o.since)) waited in
    ground (
      arith,
      full,
      signed_less_small (refill_bucket l.cfg b now).tokens n (omega (arith, full, r.has_room))
          (omega (arith, r.has_room)),
    )

-- After any calls, a key is granted a request of at most a full bucket when enough time has passed
-- since the latest of them for an empty bucket to fill up. The instants do not go back, the refills
-- fit an `int64` and the time since the first instant a duration, and a collection spares a bucket
-- that had no time to fill up.
pub allow_n-run :
    (cfg : RateLimitConfig) (k : RateLimitKey) (start latest now n : ℕ) (cs : List (ℕ × Call))
    → 1 ≤ start
    → (normalize cfg).capacity + now / (normalize cfg).interval * (normalize cfg).refill < 2 ^ 63
    → IsSchedule (normalize cfg) latest start cs
    → latest ≤ now
    → now - start < 2 ^ 63
    → (normalize cfg).capacity ≤ (now - latest) / (normalize cfg).interval * (normalize cfg).refill
    → n ≤ (normalize cfg).capacity
    → (allow_n (run (new_rate_limiter cfg) cs) now k n).1 ≡ true
unfolding new_rate_limiter
allow_n-run cfg k start latest now n cs s room h past short long few =
    let sooner : latest / (normalize cfg).interval * (normalize cfg).refill
        ≤ now / (normalize cfg).interval * (normalize cfg).refill =
      mul-le-mul_right (normalize cfg).refill (
        div_mono latest now (normalize cfg).interval (normalize-IsRoomy cfg now room).has_interval
          past) in
    let books =
      run-Books (new_rate_limiter cfg) k start 0 start latest cs
        (normalize-IsRoomy cfg latest (omega arith)) s (new_rate_limiter-Books cfg k start) h in
    let c = sym (run_cfg (new_rate_limiter cfg) cs) in
    allow_n-full (run (new_rate_limiter cfg) cs) k start (0 + grants (new_rate_limiter cfg) k cs)
      latest now n (subst (λ c. IsRoomy c now) c (normalize-IsRoomy cfg now room)) s books past
      short
      (subst (λ (c : RateLimitConfig). c.capacity ≤ (now - latest) / c.interval * c.refill) c long)
      (subst (λ (c : RateLimitConfig). n ≤ c.capacity) c few)
