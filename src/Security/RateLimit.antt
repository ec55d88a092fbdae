-- ===== src/Security/RateLimit.antt =====
-- security/ratelimit.go: buckets of tokens by owner and action. An `int64` is its word, compared with
-- its sign; the configuration's numbers that are not positive are 0. An instant is the number of
-- nanoseconds since Go's zero time, and the clock's answer is an argument.
pub mod Refill
pub mod Calls
pub mod Spending
pub mod Books
pub mod Bound
mod Examples
use cube_core.Base.{
  ℕ, zero, suc, ◌+◌, ◌-◌, ◌*◌, ◌/◌, ◌%◌, ◌^◌, ◌≡◌, ◌↔◌, min, Bool, true, false, not, ◌&&◌, ◌||◌,
  List, [], ◌∷◌, none, some, length, ltb, ◌==◌, ==_iff, if◌then◌else◌, arith,
}
use cube_core.Base.Keys.{Key}
use cube_core.Base.Maps.{Map, find, put}

pub record RateLimitKey : Type 0 where
  pub owner_id : ℕ
  pub action : ℕ

unfoldable pub same_key : RateLimitKey → RateLimitKey → Bool
same_key a b = (a.owner_id == b.owner_id) && (a.action == b.action)

unfoldable pub less_key : RateLimitKey → RateLimitKey → Bool
less_key a b = if a.owner_id == b.owner_id then ltb a.action b.action else ltb a.owner_id b.owner_id

pub same_key_iff : (a b : RateLimitKey) → (same_key a b ≡ true) ↔ (a ≡ b)
unfolding same_key
same_key_iff a b = ground arith

pub less_key_irrefl : (a : RateLimitKey) → less_key a a ≡ false
unfolding less_key
less_key_irrefl a = ground arith

pub less_key_trans :
    (a b c : RateLimitKey) → less_key a b ≡ true → less_key b c ≡ true → less_key a c ≡ true
unfolding less_key
less_key_trans a b c h k = ground arith

pub less_key_connex : (a b : RateLimitKey) → less_key a b ≡ false → less_key b a ≡ false → a ≡ b
unfolding less_key
less_key_connex a b h k = ground arith

instance abbrev pub limit_key : Key RateLimitKey
limit_key = record {
  lt = less_key;
  eq = same_key;
  eq_iff = same_key_iff;
  lt_irrefl = less_key_irrefl;
  lt_trans = less_key_trans;
  lt_connex = less_key_connex;
}

pub record RateLimitConfig : Type 0 where
  pub capacity : ℕ
  pub refill : ℕ
  pub interval : ℕ

pub record Bucket : Type 0 where
  pub tokens : ℕ
  pub at : ℕ

pub record RateLimiter : Type 0 where
  pub cfg : RateLimitConfig
  pub bkt : Map RateLimitKey Bucket

-- `a < b` for the words of two `int64`s.
unfoldable pub signed_less : ℕ → ℕ → Bool
signed_less a b = ltb ((a + 2 ^ 63) % 2 ^ 64) ((b + 2 ^ 63) % 2 ^ 64)

unfoldable pub normalize : RateLimitConfig → RateLimitConfig
normalize c =
    let capacity = if c.capacity == 0 then 20 else c.capacity in
    record {
      capacity = capacity;
      refill = if c.refill == 0 then capacity else c.refill;
      interval = if c.interval == 0 then 1000000000 else c.interval;
    }

unfoldable pub new_rate_limiter : RateLimitConfig → RateLimiter
new_rate_limiter cfg = record { cfg = normalize cfg; bkt = [] }

-- The tokens after `steps` refills.
unfoldable pub add_tokens : RateLimitConfig → ℕ → ℕ → ℕ
add_tokens c tokens steps =
    let total = (tokens + steps * c.refill % 2 ^ 64) % 2 ^ 64 in
    if signed_less c.capacity total then c.capacity else total

-- The refills between two instants. `time.Sub` stops at the longest duration; a bucket from the
-- future has no elapsed time.
unfoldable pub refill_from : RateLimitConfig → ℕ → ℕ → ℕ → Bucket
refill_from c tokens at now =
    let elapsed = min (now - at) (2 ^ 63 - 1) in
    if ltb elapsed c.interval then record { tokens = tokens; at = at } else record {
      tokens = add_tokens c tokens (elapsed / c.interval);
      at = at + elapsed / c.interval * c.interval;
    }

unfoldable pub refill_bucket : RateLimitConfig → Bucket → ℕ → Bucket
refill_bucket c b now = refill_from c b.tokens (if b.at == 0 then now else b.at) now

-- The key's bucket, or a new one, which is full.
unfoldable pub bucket_of : RateLimiter → RateLimitKey → ℕ → Bucket
bucket_of l key now = elim (find key l.bkt) [
  | some b ↦ b
  | none ↦ record { tokens = l.cfg.capacity; at = now }
]

unfoldable pub allow_n : RateLimiter → ℕ → RateLimitKey → ℕ → RateLimiter × Bool
allow_n l now key n =
    if not (signed_less 0 n)
    then (l, true)
    else let b = refill_bucket l.cfg (bucket_of l key now) now in
      if signed_less b.tokens n then (record l { bkt = put key b l.bkt }, false) else (
        record l { bkt = put key (record b { tokens = (b.tokens + (2 ^ 64 - n)) % 2 ^ 64 }) l.bkt },
        true,
      )

unfoldable allow : RateLimiter → ℕ → RateLimitKey → RateLimiter × Bool
allow l now key = allow_n l now key 1

-- The loop of `GC`: what is kept, and how many are removed.
unfoldable pub kept : ℕ → ℕ → Map RateLimitKey Bucket → Map RateLimitKey Bucket × ℕ
kept now idle [] = ([], 0)
kept now idle ((k, b) ∷ m) =
    let (rest, removed) = kept now idle m in
    if ltb (b.at + idle) now then (rest, suc removed) else ((k, b) ∷ rest, removed)

unfoldable pub gc : RateLimiter → ℕ → ℕ → RateLimiter × ℕ
gc l now idle =
    if idle == 0
    then (l, 0)
    else let (rest, removed) = kept now idle l.bkt in (record l { bkt = rest }, removed)

unfoldable size : RateLimiter → ℕ
size l = length l.bkt
