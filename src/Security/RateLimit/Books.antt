-- ===== src/Security/RateLimit/Books.antt =====
-- What each call of the rate limiter does to the bucket of one key.
use cube_core.Base.{
  refl, ◌==◌, ◌%◌, ℕ, ◌+◌, ◌-◌, ◌*◌, ◌^◌, ◌≤◌, ◌<◌, ◌≡◌, ◌⊎◌, inl, inr, Bool, true, false, ◌&&◌,
  ltb, if◌then◌else◌, arith, subst, sym, Bool-cases,
}
use cube_core.Base.Maps.{IsMap, put, put-IsMap}
use cube_core.Security.RateLimit.{
  RateLimitKey, Bucket, RateLimiter, signed_less, same_key, limit_key, refill_bucket, bucket_of,
  allow_n, kept, gc,
}
use cube_core.Security.RateLimit.Refill.{IsRoomy, Owes, refill_bucket-Owes}
use cube_core.Security.RateLimit.Calls.{bucket_of-kept, asks, taken, bucket_of-put, kept-IsMap}
use cube_core.Security.RateLimit.Spending.{spend-Owes, renew-Owes, later-Owes}

-- The key's bucket, whenever it is asked for next, is in order.
pub record Books (l : RateLimiter) (k : RateLimitKey) (start given before : ℕ) : Type 0 where
  pub is_map : IsMap l.bkt
  pub in_order : (now : ℕ) → before ≤ now → Owes l.cfg start given (bucket_of l k now) now

pub later-Books :
    (l : RateLimiter) (k : RateLimitKey) (start given given' before now : ℕ)
    → Books l k start given before
    → before ≤ now
    → given' ≡ given
    → Books l k start given' now
later-Books l k start given given' before now books past same = record {
  is_map = books.is_map;
  in_order = λ next h.
      subst (λ g. Owes l.cfg start g (bucket_of l k next) next) (sym same)
        (books.in_order next (omega arith));
}

-- A new bucket for one key.
put-Books :
    (l : RateLimiter) (k j : RateLimitKey) (start given given' before now : ℕ) (b : Bucket)
    → Books l k start given before
    → before ≤ now
    → (same_key j k ≡ true → Owes l.cfg start given' b now)
    → (same_key j k ≡ false → given' ≡ given)
    → Books (record l { bkt = put j b l.bkt }) k start given' now
put-Books l k j start given given' before now b books past same other = record {
  is_map = put-IsMap j b l.bkt books.is_map;
  in_order = λ next h.
      subst (λ x. Owes l.cfg start given' x next) (sym (bucket_of-put l j k b next))
        (elim (Bool-cases (same_key j k)) [
          | inl y ↦
              subst (λ t. Owes l.cfg start given' (if t then b else bucket_of l k next) next)
                (sym y) (later-Owes l.cfg start given' now next b (same y) h)
          | inr y ↦
              subst (λ t. Owes l.cfg start given' (if t then b else bucket_of l k next) next)
                (sym y)
                (subst (λ g. Owes l.cfg start g (bucket_of l k next) next) (sym (other y))
                  (books.in_order next (omega arith)))
        ]);
}

-- What a request comes to.
allow_n-cases :
    (l : RateLimiter) (now n : ℕ) (j : RateLimitKey)
    → let b = refill_bucket l.cfg (bucket_of l j now) now in
      ((signed_less 0 n ≡ false) × (allow_n l now j n ≡ (l, true)))
      ⊎ ((signed_less 0 n ≡ true)
          × (((signed_less b.tokens n ≡ true)
                × (allow_n l now j n ≡ (record l { bkt = put j b l.bkt }, false)))
              ⊎ ((signed_less b.tokens n ≡ false)
                  × (allow_n l now j n ≡ (
                    record l {
                      bkt = put j (record b { tokens = (b.tokens + (2 ^ 64 - n)) % 2 ^ 64 }) l.bkt;
                    },
                    true,
                  )))))
unfolding allow_n
allow_n-cases l now n j = ground arith

pub allow_n-Books :
    (l : RateLimiter) (k j : RateLimitKey) (start given before now latest n : ℕ)
    → IsRoomy l.cfg latest
    → 1 ≤ start
    → Books l k start given before
    → before ≤ now
    → now ≤ latest
    → n < 2 ^ 64
    → Books (allow_n l now j n).0 k start (given + taken l k now (asks j n)) now
unfolding allow_n taken
allow_n-Books l k j start given before now latest n r s books past upto small =
    let b = refill_bucket l.cfg (bucket_of l j now) now in
    let got : Bool → ℕ = λ yes. given + (if same_key j k && signed_less 0 n && yes then n else 0) in
    let move : (x : RateLimiter × Bool)
        → allow_n l now j n ≡ x
        → Books x.0 k start (got x.1) now
        → Books (allow_n l now j n).0 k start (given + taken l k now (asks j n)) now =
      λ x same done.
        subst (λ (x : RateLimiter × Bool). Books x.0 k start (got x.1) now) (sym same) done in
    let full : same_key j k ≡ true → Owes l.cfg start given b now = λ y.
      subst (λ i. Owes l.cfg start given (refill_bucket l.cfg (bucket_of l i now) now) now)
        (sym ((limit_key.eq_iff j k).0 y))
        (refill_bucket-Owes l.cfg start given now now latest (bucket_of l k now) r s
          (books.in_order now past) (omega arith) upto) in
    elim (allow_n-cases l now n j) [
      | inl (free, same) ↦
          move (l, true) same
            (later-Books l k start given (got true) before now books past (ground (arith, free)))
      | inr (pos, inl (short, same)) ↦
          move (record l { bkt = put j b l.bkt }, false) same
            (put-Books l k j start given (got false) before now b books past
              (λ y. subst (λ g. Owes l.cfg start g b now) (ground arith) (full y))
              (λ y. ground arith))
      | inr (pos, inr (enough, same)) ↦
          move
            (
              record l {
                bkt = put j (record b { tokens = (b.tokens + (2 ^ 64 - n)) % 2 ^ 64 }) l.bkt;
              },
              true,
            )
            same
            (put-Books l k j start given (got true) before now _ books past
              (λ y.
                subst
                  (λ g.
                    Owes l.cfg start g (record b { tokens = (b.tokens + (2 ^ 64 - n)) % 2 ^ 64 })
                      now)
                  (ground (arith, y, pos))
                  (spend-Owes l.cfg start given n now latest b r (full y) small pos enough))
              (λ y. ground (arith, y)))
    ]

sweep-Books :
    (l : RateLimiter) (k : RateLimitKey) (start given before now idle : ℕ)
    → Books l k start given before
    → before ≤ now
    → l.cfg.interval * l.cfg.capacity ≤ l.cfg.refill * idle
    → Books (record l { bkt = (kept now idle l.bkt).0 }) k start given now
sweep-Books l k start given before now idle books past room = record {
  is_map = kept-IsMap now idle l.bkt books.is_map;
  in_order = λ next h.
      let o = books.in_order next (omega arith) in
      let b = bucket_of l k next in
      subst (λ x. Owes l.cfg start given x next)
        (sym (bucket_of-kept l k now idle next books.is_map))
        (elim (Bool-cases (ltb (b.at + idle) now)) [
          | inl y ↦
              subst
                (λ t.
                  Owes l.cfg start given
                    (if t then record { tokens = l.cfg.capacity; at = next } else b) next)
                (sym y) (renew-Owes l.cfg start given next next idle b o room (ground (arith, y)))
          | inr y ↦
              subst
                (λ t.
                  Owes l.cfg start given
                    (if t then record { tokens = l.cfg.capacity; at = next } else b) next)
                (sym y) o
        ]);
}

pub gc-Books :
    (l : RateLimiter) (k : RateLimitKey) (start given before now idle : ℕ)
    → Books l k start given before
    → before ≤ now
    → (idle ≡ 0) ⊎ (l.cfg.interval * l.cfg.capacity ≤ l.cfg.refill * idle)
    → Books (gc l now idle).0 k start given now
unfolding gc
gc-Books l k start given before now idle books past h = elim (Bool-cases (idle == 0)) [
  | inl y ↦
      subst (λ (x : RateLimiter). Books x k start given now) (ground (arith, y))
        (later-Books l k start given given before now books past refl)
  | inr y ↦
      subst (λ (x : RateLimiter). Books x k start given now) (ground (arith, y))
        (sweep-Books l k start given before now idle books past
          (elim h [ inl none_idle ↦ absurd (ground (arith, y, none_idle)) | inr room ↦ room ]))
]
