-- ===== src/Security/RateLimit/Spending.antt =====
-- One bucket of the rate limiter when tokens are taken, time passes, or it is made anew.
use native.Mathlib.Nat.{mul-le-mul_left}
use cube_core.Base.{◌%◌, ℕ, ◌+◌, ◌-◌, ◌*◌, ◌^◌, ◌≤◌, ◌<◌, ◌≡◌, true, false, arith, ap, subst}
use cube_core.Security.RateLimit.{RateLimitConfig, Bucket, signed_less, limit_key}
use cube_core.Security.RateLimit.Refill.{signed_less_small, IsRoomy, Owes}

signed_positive : (n : ℕ) → n < 2 ^ 64 → signed_less 0 n ≡ true → n < 2 ^ 63
unfolding signed_less
signed_positive n h k = ground arith

-- Tokens that are taken are given.
take-Owes :
    (c : RateLimitConfig) (start given n now : ℕ) (b : Bucket)
    → Owes c start given b now
    → n ≤ b.tokens
    → Owes c start (given + n) (record b { tokens = b.tokens - n }) now
take-Owes c start given n now b o h = record {
  since = o.since;
  until = o.until;
  cap = omega (arith, o.cap);
  owed =
      let parts : c.interval * (b.tokens - n) + c.interval * n ≡ c.interval * b.tokens =
        let whole : b.tokens - n + n ≡ b.tokens = omega arith in
        omega (arith, ap (λ t. c.interval * t) whole) in
      omega (arith, o.owed, parts);
}

-- The subtraction of `AllowN`, on words.
pub spend-Owes :
    (c : RateLimitConfig) (start given n now latest : ℕ) (b : Bucket)
    → IsRoomy c latest
    → Owes c start given b now
    → n < 2 ^ 64
    → signed_less 0 n ≡ true
    → signed_less b.tokens n ≡ false
    → Owes c start (given + n) (record b { tokens = (b.tokens + (2 ^ 64 - n)) % 2 ^ 64 }) now
spend-Owes c start given n now latest b r o small pos enough =
    let room : b.tokens < 2 ^ 63 = omega (arith, o.cap, r.has_room) in
    let few : n < 2 ^ 63 = signed_positive n small pos in
    let covered : n ≤ b.tokens = ground (arith, enough, signed_less_small b.tokens n room few) in
    let left : b.tokens - n ≡ (b.tokens + (2 ^ 64 - n)) % 2 ^ 64 = omega arith in
    subst (λ t. Owes c start (given + n) (record b { tokens = t }) now) left
      (take-Owes c start given n now b o covered)

-- A later instant.
pub later-Owes :
    (c : RateLimitConfig) (start given before now : ℕ) (b : Bucket)
    → Owes c start given b before
    → before ≤ now
    → Owes c start given b now
later-Owes c start given before now b o h = record {
  since = o.since;
  until = omega (arith, o.until);
  cap = o.cap;
  owed = o.owed;
}

-- A bucket that is made anew once the old one had the time to fill up.
pub renew-Owes :
    (c : RateLimitConfig) (start given before now idle : ℕ) (b : Bucket)
    → Owes c start given b before
    → c.interval * c.capacity ≤ c.refill * idle
    → b.at + idle ≤ now
    → Owes c start given (record { tokens = c.capacity; at = now }) now
renew-Owes c start given before now idle b o h k = record {
  since = omega (arith, o.since);
  until = omega arith;
  cap = omega arith;
  owed =
      let room : c.refill * (b.at - start + idle) ≤ c.refill * (now - start) =
        mul-le-mul_left c.refill (omega (arith, o.since)) in
      omega (arith, o.owed, room);
}
