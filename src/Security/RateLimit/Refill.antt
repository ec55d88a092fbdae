-- ===== src/Security/RateLimit/Refill.antt =====
-- One bucket of the rate limiter: what it may have given away by an instant.
use native.Mathlib.Nat.{
  mul-le-mul_left, mul-le-mul_right, div-mul-le_self, le-div_iff_mul-le, div-eq_of_lt,
}
use cube_core.Base.{
  ◌⊎◌, ℕ, ◌+◌, ◌-◌, ◌*◌, ◌/◌, ◌^◌, ◌≤◌, ◌<◌, ◌≡◌, min, Bool, true, false, ltb, arith, ap, subst,
  sym, ◌∙◌, if◌then◌else◌,
}
use cube_core.Security.RateLimit.{
  RateLimitConfig, Bucket, signed_less, add_tokens, refill_bucket, refill_from,
}

pub div_mono : (a b k : ℕ) → 1 ≤ k → a ≤ b → a / k ≤ b / k
div_mono a b k h l = (le-div_iff_mul-le h).1 (omega (arith, div-mul-le_self a k))

-- The comparison of small words is that of numbers.
pub signed_less_small : (a b : ℕ) → a < 2 ^ 63 → b < 2 ^ 63 → signed_less a b ≡ ltb a b
unfolding signed_less
signed_less_small a b h k = ground arith

-- A normalised configuration whose refills fit an `int64` up to an instant.
pub record IsRoomy (c : RateLimitConfig) (latest : ℕ) : Type 0 where
  pub has_interval : 1 ≤ c.interval
  pub has_capacity : 1 ≤ c.capacity
  pub has_room : c.capacity + latest / c.interval * c.refill < 2 ^ 63

-- The bucket is not overfull, and what was given away together with what is left is at most a full
-- bucket and the refills since the start.
pub record Owes (c : RateLimitConfig) (start given : ℕ) (b : Bucket) (now : ℕ) : Type 0 where
  pub since : start ≤ b.at
  pub until : b.at ≤ now
  pub cap : b.tokens ≤ c.capacity
  pub owed :
      c.interval * given + c.interval * b.tokens
      ≤ c.interval * c.capacity + c.refill * (b.at - start)

add_tokens_lem :
    (c : RateLimitConfig) (latest tokens steps : ℕ)
    → IsRoomy c latest
    → tokens ≤ c.capacity
    → steps ≤ latest / c.interval
    → add_tokens c tokens steps ≡ min c.capacity (tokens + steps * c.refill)
unfolding add_tokens
add_tokens_lem c latest tokens steps r h k =
    let room : steps * c.refill ≤ latest / c.interval * c.refill = mul-le-mul_right c.refill k in
    ground (arith, r.has_room, room, signed_less_small c.capacity (tokens + steps * c.refill))

-- So many refills as fit before the instant.
refills-Owes :
    (c : RateLimitConfig) (start given before now latest steps : ℕ) (b : Bucket)
    → IsRoomy c latest
    → Owes c start given b before
    → now ≤ latest
    → steps * c.interval ≤ now - b.at
    → b.at ≤ now
    → Owes c start given
        (record { tokens = add_tokens c b.tokens steps; at = b.at + steps * c.interval })
        now
refills-Owes c start given before now latest steps b r o l fits past =
    let few : steps ≤ latest / c.interval = (le-div_iff_mul-le r.has_interval).1 (omega arith) in
    let new = add_tokens_lem c latest b.tokens steps r o.cap few in
    let less : c.interval * add_tokens c b.tokens steps
        ≤ c.interval * (b.tokens + steps * c.refill) =
      mul-le-mul_left c.interval (omega (arith, new)) in
    let later : b.at + steps * c.interval - start ≡ (b.at - start) + steps * c.interval =
      omega (arith, o.since) in
    record {
      since = omega (arith, o.since);
      until = omega arith;
      cap = omega (arith, new);
      owed = omega (arith, o.owed, less, ap (λ t. c.refill * t) later);
    }

either : (P : Bucket → Type 0) (t : Bool) {x y : Bucket} → P x → P y → P (if t then x else y)
either P true p q = p
either P false p q = q

refill_bucket-from :
    (c : RateLimitConfig) (b : Bucket) (now : ℕ)
    → 1 ≤ b.at
    → refill_bucket c b now ≡ refill_from c b.tokens b.at now
unfolding refill_bucket
refill_bucket-from c b now h = ap (λ a. refill_from c b.tokens a now) (ground arith)

pub refill_bucket-Owes :
    (c : RateLimitConfig) (start given before now latest : ℕ) (b : Bucket)
    → IsRoomy c latest
    → 1 ≤ start
    → Owes c start given b before
    → before ≤ now
    → now ≤ latest
    → Owes c start given (refill_bucket c b now) now
unfolding refill_from
refill_bucket-Owes c start given before now latest b r h o k l =
    let most = min (now - b.at) (2 ^ 63 - 1) in
    let moved =
      refills-Owes c start given before now latest (most / c.interval) b r o l
        (omega (arith, div-mul-le_self most c.interval)) (omega (arith, o.until)) in
    subst (λ x. Owes c start given x now)
      (sym (refill_bucket-from c b now (omega (arith, o.since))))
      (either (λ x. Owes c start given x now) (ltb most c.interval)
        (record { since = o.since; until = omega (arith, o.until); cap = o.cap; owed = o.owed })
        moved)

-- A bucket that was full, or was not touched for long enough, is full.
pub refill_bucket_fills :
    (c : RateLimitConfig) (now latest : ℕ) (b : Bucket)
    → IsRoomy c latest
    → 1 ≤ b.at
    → now ≤ latest
    → b.tokens ≤ c.capacity
    → now - b.at < 2 ^ 63
    → (b.tokens ≡ c.capacity) ⊎ (c.capacity ≤ (now - b.at) / c.interval * c.refill)
    → (refill_bucket c b now).tokens ≡ c.capacity
unfolding refill_from
refill_bucket_fills c now latest b r k h l small f =
    let few = div_mono (now - b.at) latest c.interval r.has_interval (omega arith) in
    let new = add_tokens_lem c latest b.tokens ((now - b.at) / c.interval) r l few in
    let none : now - b.at < c.interval → (now - b.at) / c.interval * c.refill ≡ 0 =
      λ short. omega (arith, ap (λ q. q * c.refill) (div-eq_of_lt short)) in
    let all : min (now - b.at) (2 ^ 63 - 1) ≡ now - b.at = omega arith in
    ap (λ (x : Bucket). x.tokens) (refill_bucket-from c b now k) ∙ ground (arith, f, new, all, none)
