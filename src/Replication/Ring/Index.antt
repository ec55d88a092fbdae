-- ===== src/Replication/Ring/Index.antt =====
-- The index by tick agrees with the positions of the snapshots.
use mathlib.Core.Option
use cube_core.Base.{
  ◌⊎◌, subst, All-append, All-map, lt→ltb, Option-cases, Option-cases, ℕ, suc, ◌-◌, ◌≤◌, ◌<◌, ◌≡◌,
  refl, sym, ap, ◌∙◌, inl, inr, true, List, [], ◌∷◌, ◌++◌, Option, none, some, length,
  length-append, ltb, ◌==◌, if◌then◌else◌, All, arith, Bool-cases,
}
use cube_core.Base.Results.{ok}
use cube_core.Base.Keys.{nat_key}
use cube_core.Base.Maps.{Map, find, delete, find-put, find-delete}
use cube_core.Base.Sorting.{Above, Ascending}
use cube_core.Replication.Types.{validate_meta, Snapshot}
use cube_core.Replication.Ring.{SnapshotRing, new_ring, shift, evict, append, add}

abbrev pub tick_of : Snapshot → ℕ
tick_of s = s.meta.tick

-- The position of a tick in the retained snapshots.
abbrev pub index_of : ℕ → List Snapshot → Option ℕ
index_of t [] = none
index_of t (x ∷ xs) = if x.meta.tick == t then some 0 else Option.map suc (index_of t xs)

-- The tick of the last snapshot, 0 where there is none.
abbrev pub last_tick : List Snapshot → ℕ
last_tick [] = 0
last_tick (x ∷ []) = x.meta.tick
last_tick (x ∷ y ∷ xs) = last_tick (y ∷ xs)

-- What eviction and addition keep: the bound, ticks that rise up to the newest, and an index that
-- holds the position of every retained tick and nothing else.
pub record IsIndexed (r : SnapshotRing) : Type 0 where
  pub roomy : 0 < r.capacity
  pub bounded : length r.items ≤ r.capacity
  pub rising : Ascending (λ (s : Snapshot). s.meta.tick) r.items
  pub ticking : All (λ (s : Snapshot). 0 < s.meta.tick) r.items
  pub older : All (λ (s : Snapshot). s.meta.tick ≤ r.latest) r.items
  pub indexed : (t : ℕ) → find t r.by_tick ≡ index_of t r.items

-- Between two calls the newest tick is that of the last snapshot, too.
pub record IsRing (r : SnapshotRing) : Type 0 where
  pub inner : IsIndexed r
  pub newest : r.latest ≡ last_tick r.items

find-shift : (t : ℕ) (m : Map ℕ ℕ) → find t (shift m) ≡ Option.map (λ i. i - 1) (find t m)
unfolding find shift
find-shift t [] = refl
find-shift t ((j, i) ∷ m) = ground (arith, find-shift t m)

index_of-Above : (t : ℕ) (xs : List Snapshot) → Above tick_of t xs → index_of t xs ≡ none
index_of-Above t [] a = refl
index_of-Above t (x ∷ xs) a = ground (arith, index_of-Above t xs a.1)

evict_index :
    (t : ℕ) (x : Snapshot) (xs : List Snapshot) (m : Map ℕ ℕ)
    → Above tick_of x.meta.tick xs
    → find t m ≡ index_of t (x ∷ xs)
    → find t (shift (delete x.meta.tick m)) ≡ index_of t xs
evict_index t x xs m a h =
    find-shift t (delete x.meta.tick m)
    ∙ ap (Option.map (λ i. i - 1)) (find-delete x.meta.tick t m)
    ∙ elim (Bool-cases (x.meta.tick == t)) [
      | inl e ↦ ground (arith, index_of-Above x.meta.tick xs a)
      | inr e ↦ elim (Option-cases (index_of t xs)) [
        | inl n ↦ ground (arith, h)
        | inr (i, n) ↦ ground (arith, h)
      ]
    ]

evict_full :
    (r : SnapshotRing) (x : Snapshot) (xs : List Snapshot)
    → r.items ≡ x ∷ xs
    → IsIndexed r
    → IsIndexed (record r { items = xs; by_tick = shift (delete x.meta.tick r.by_tick) })
evict_full r x xs e v =
    let rising = subst (Ascending tick_of) e v.rising in
    let ticking = subst (All (λ s. 0 < s.meta.tick)) e v.ticking in
    let older = subst (All (λ s. s.meta.tick ≤ r.latest)) e v.older in
    record {
      roomy = v.roomy;
      bounded = omega (arith, v.bounded, ap length e);
      rising = rising.1;
      ticking = ticking.1;
      older = older.1;
      indexed = λ t. evict_index t x xs r.by_tick rising.0 (v.indexed t ∙ ap (index_of t) e);
    }

pub evict-IsIndexed : (r : SnapshotRing) → IsIndexed r → IsIndexed (evict r)
unfolding evict
evict-IsIndexed r v = elim (Bool-cases (length r.items == r.capacity)) [
  | inr e ↦ rw (e, evict) v
  | inl e ↦ go r.items refl e
]
  where
    go :
        (xs : List Snapshot)
        → r.items ≡ xs
        → (length r.items == r.capacity) ≡ true
        → IsIndexed (evict r)
    go [] p e = absurd (ground (arith, v.roomy, p))
    go (x ∷ xs) p e = rw (e, p, evict) (evict_full r x xs p v)

-- A full ring has room again.
pub evict_roomy : (r : SnapshotRing) → IsIndexed r → length (evict r).items < (evict r).capacity
unfolding evict
evict_roomy r v = go r.items refl
  where
    go : (xs : List Snapshot) → r.items ≡ xs → length (evict r).items < (evict r).capacity
    go [] p = ground (arith, v.roomy, v.bounded)
    go (x ∷ xs) p = ground (arith, v.bounded)

index_of-append :
    (t : ℕ) (xs : List Snapshot) (s : Snapshot)
    → index_of t (xs ++ s ∷ []) ≡ (elim (index_of t xs) [
      | none ↦ if s.meta.tick == t then some (length xs) else none
      | some i ↦ some i
    ])
index_of-append t [] s = ground arith
index_of-append t (x ∷ xs) s = ground (arith, index_of-append t xs s)

Ascending-append :
    (xs : List Snapshot) (s : Snapshot)
    → Ascending tick_of xs
    → All (λ x. x.meta.tick < s.meta.tick) xs
    → Ascending tick_of (xs ++ s ∷ [])
Ascending-append [] s a b = (tt, tt)
Ascending-append (x ∷ xs) s a b = (
  All-append (λ y. ltb x.meta.tick y.meta.tick ≡ true) xs (s ∷ []) a.0
      (lt→ltb x.meta.tick s.meta.tick b.0, tt),
  Ascending-append xs s a.1 b.1,
)

index_of-older : (t : ℕ) (xs : List Snapshot) → All (λ x. x.meta.tick < t) xs → index_of t xs ≡ none
index_of-older t [] h = refl
index_of-older t (x ∷ xs) h = ground (arith, index_of-older t xs h.1)

append-IsIndexed :
    (r : SnapshotRing) (s : Snapshot)
    → IsIndexed r
    → length r.items < r.capacity
    → 0 < s.meta.tick
    → All (λ (x : Snapshot). x.meta.tick < s.meta.tick) r.items
    → IsIndexed (append r s)
unfolding append
append-IsIndexed r s v room pos old = record {
  roomy = v.roomy;
  bounded = omega (arith, length-append r.items (s ∷ []));
  rising = Ascending-append r.items s v.rising old;
  ticking = All-append (λ (x : Snapshot). 0 < x.meta.tick) r.items (s ∷ []) v.ticking (pos, tt);
  older =
      All-append (λ (x : Snapshot). x.meta.tick ≤ s.meta.tick) r.items (s ∷ [])
        (All-map (λ (x : Snapshot). x.meta.tick < s.meta.tick) (λ x. x.meta.tick ≤ s.meta.tick)
          (λ x h. omega arith) r.items old)
        (omega arith, tt);
  indexed = λ t.
      find-put s.meta.tick t (length r.items) r.by_tick
      ∙ ground
          (arith, v.indexed t, index_of-append t r.items s, index_of-older s.meta.tick r.items old);
}

last_tick-append : (xs : List Snapshot) (s : Snapshot) → last_tick (xs ++ s ∷ []) ≡ s.meta.tick
last_tick-append [] s = refl
last_tick-append (x ∷ []) s = refl
last_tick-append (x ∷ y ∷ xs) s = last_tick-append (y ∷ xs) s

evict_latest : (r : SnapshotRing) → (evict r).latest ≡ r.latest
unfolding evict
evict_latest r = go r.items refl
  where
    go : (xs : List Snapshot) → r.items ≡ xs → (evict r).latest ≡ r.latest
    go [] p = ground arith
    go (x ∷ xs) p = ground arith

-- A new ring satisfies the invariant; `Add` keeps it, and so does `Reset`.
pub new_ring-IsRing : (capacity : ℕ) → IsRing (new_ring capacity)
unfolding new_ring find
new_ring-IsRing capacity = record {
  inner = record {
    roomy = ground arith;
    bounded = ground arith;
    rising = tt;
    ticking = tt;
    older = tt;
    indexed = λ t. refl;
  };
  newest = refl;
}

newest_append :
    (r : SnapshotRing) (s : Snapshot) → (append r s).latest ≡ last_tick (append r s).items
unfolding append
newest_append r s = sym (last_tick-append r.items s)

older-lt :
    (xs : List Snapshot) (n t : ℕ)
    → All (λ (x : Snapshot). x.meta.tick ≤ n) xs
    → All (λ (x : Snapshot). 0 < x.meta.tick) xs
    → (n ≡ 0) ⊎ (n < t)
    → All (λ (x : Snapshot). x.meta.tick < t) xs
older-lt [] n t h k o = tt
older-lt (x ∷ xs) n t h k o = (ground (arith, h.0, k.0), older-lt xs n t h.1 k.1 o)

pub add-IsRing :
    (r : SnapshotRing) (s : Snapshot) (q : SnapshotRing) → IsRing r → add r s ≡ ok q → IsRing q
unfolding add validate_meta
add-IsRing r s q v h =
    let u = evict-IsIndexed r v.inner in
    let q_eq : append (evict r) s ≡ q = ground arith in
    let pos : 0 < s.meta.tick = ground arith in
    let rises : (r.latest ≡ 0) ⊎ (r.latest < s.meta.tick) = ground arith in
    let old : All (λ (x : Snapshot). x.meta.tick < s.meta.tick) (evict r).items =
      older-lt (evict r).items (evict r).latest s.meta.tick u.older u.ticking
        (rw (evict_latest r) rises) in
    subst IsRing q_eq (record {
      inner = append-IsIndexed (evict r) s u (evict_roomy r v.inner) pos old;
      newest = newest_append (evict r) s;
    })
