-- ===== src/Replication/Ring/History.antt =====
-- The ring against the history of all snapshots that it accepted.
use cube_core.Base.{
  zero, ℕ, suc, ◌-◌, ◌≤◌, ◌<◌, ◌≡◌, refl, sym, ap, ◌∙◌, inl, inr, List, [], ◌∷◌, ◌++◌, none, some,
  length, length-append, length-drop, drop, drop-append_le, drop-suc, get_elem?, ltb, ◌==◌,
  if◌then◌else◌, All, arith, Bool-cases,
}
use cube_core.Base.Results.{ok, err, Result-cases}
use cube_core.Base.Keys.{nat_key}
use cube_core.Base.Sorting.{find_by}
use cube_core.Replication.Types.{Error, validate_meta, Snapshot}
use cube_core.Replication.Ring.{SnapshotRing, new_ring, evict, append, add, get}
use cube_core.Replication.Ring.Index.{
  tick_of, index_of, last_tick, IsRing, add-IsRing, new_ring-IsRing,
}

elem-index_of :
    (t : ℕ) (xs : List Snapshot)
    → (elim (index_of t xs) [ none ↦ none | some i ↦ get_elem? xs i ]) ≡ find_by tick_of t xs
unfolding find_by
elem-index_of t [] = refl
elem-index_of t (x ∷ xs) = ground (arith, elem-index_of t xs)

find_by_zero :
    (xs : List Snapshot) → All (λ (s : Snapshot). 0 < s.meta.tick) xs → find_by tick_of 0 xs ≡ none
unfolding find_by
find_by_zero [] h = refl
find_by_zero (x ∷ xs) h = ground (arith, find_by_zero xs h.1)

-- `Get` finds exactly the retained snapshot of the tick.
pub get-find_by :
    (r : SnapshotRing) (t : ℕ)
    → IsRing r
    → get r t ≡ find_by (λ (s : Snapshot). s.meta.tick) t r.items
unfolding get
get-find_by r t v =
    ground (arith, v.inner.indexed t, elem-index_of t r.items, find_by_zero r.items v.inner.ticking)

-- A publisher that goes on after a refusal.
unfoldable pub add_all : SnapshotRing → List Snapshot → SnapshotRing
add_all r [] = r
add_all r (s ∷ ss) = elim (add r s) [ ok q ↦ add_all q ss | err e ↦ add_all r ss ]

-- The specification: all snapshots with valid metadata whose tick lies above every earlier one.
unfoldable pub accept : List Snapshot → Snapshot → List Snapshot
accept h s = elim (validate_meta s.meta) [
  | ok u ↦ if ltb (last_tick h) s.meta.tick then h ++ s ∷ [] else h
  | err e ↦ h
]

unfoldable pub accept_all : List Snapshot → List Snapshot → List Snapshot
accept_all h [] = h
accept_all h (s ∷ ss) = accept_all (accept h s) ss

unfoldable pub last_n : ℕ → List Snapshot → List Snapshot
last_n n h = drop (length h - n) h

record Shows (r : SnapshotRing) (h : List Snapshot) : Type 0 where
  ring : IsRing r
  window : r.items ≡ last_n r.capacity h
  newest : r.latest ≡ last_tick h

last_n-append_short :
    (n : ℕ) (h : List Snapshot) (s : Snapshot)
    → length h < n
    → last_n n (h ++ s ∷ []) ≡ last_n n h ++ s ∷ []
unfolding last_n
last_n-append_short n h s short =
    let none_left : length (h ++ s ∷ []) - n ≡ 0 = omega (arith, length-append h (s ∷ [])) in
    let none_left' : length h - n ≡ 0 = omega arith in rw (none_left, none_left') refl

last_n-append_long :
    (n : ℕ) (h : List Snapshot) (s x : Snapshot) (xs : List Snapshot)
    → n ≤ length h
    → last_n n h ≡ x ∷ xs
    → last_n n (h ++ s ∷ []) ≡ xs ++ s ∷ []
unfolding last_n
last_n-append_long n h s x xs long e =
    let shorter : suc (length h - n) ≤ length h =
      omega (arith, ap length e, length-drop (length h - n) h) in
    let one_more : length (h ++ s ∷ []) - n ≡ suc (length h - n) =
      omega (arith, length-append h (s ∷ [])) in
    ap (λ k. drop k (h ++ s ∷ [])) one_more
    ∙ drop-append_le (suc (length h - n)) h (s ∷ []) shorter
    ∙ ap (λ ys. ys ++ s ∷ []) (drop-suc (length h - n) h e)

length-last_n : (n : ℕ) (h : List Snapshot) → length (last_n n h) ≡ length h - (length h - n)
unfolding last_n
length-last_n n h = length-drop (length h - n) h

items_evicted :
    (r : SnapshotRing) (s : Snapshot) (h xs : List Snapshot)
    → r.items ≡ xs
    → Shows r h
    → (evict r).items ++ s ∷ [] ≡ last_n r.capacity (h ++ s ∷ [])
unfolding evict
items_evicted r s h [] e v =
    let short : length h < r.capacity =
      omega
        (arith, v.ring.inner.roomy, ap length v.window, ap length e, length-last_n r.capacity h) in
    ground (arith, v.ring.inner.roomy, last_n-append_short r.capacity h s short, v.window, e)
items_evicted r s h (x ∷ xs) e v = elim (Bool-cases (length r.items == r.capacity)) [
  | inl full ↦
      let long : r.capacity ≤ length h =
        ground (arith, ap length v.window, length-last_n r.capacity h) in
      rw (full, e, evict) (sym (last_n-append_long r.capacity h s x xs long (sym v.window ∙ e)))
  | inr room ↦
      let short : length h < r.capacity =
        ground (arith, v.ring.inner.bounded, ap length v.window, length-last_n r.capacity h) in
      rw (room, evict)
        (ap (λ ys. ys ++ s ∷ []) v.window ∙ sym (last_n-append_short r.capacity h s short))
]

last_tick-append : (xs : List Snapshot) (s : Snapshot) → last_tick (xs ++ s ∷ []) ≡ s.meta.tick
last_tick-append [] s = refl
last_tick-append (x ∷ []) s = refl
last_tick-append (x ∷ y ∷ xs) s = last_tick-append (y ∷ xs) s

evict_capacity : (r : SnapshotRing) → (evict r).capacity ≡ r.capacity
unfolding evict
evict_capacity r = go r.items refl
  where
    go : (xs : List Snapshot) → r.items ≡ xs → (evict r).capacity ≡ r.capacity
    go [] p = ground arith
    go (x ∷ xs) p = ground arith

-- An accepted snapshot joins the history, a refused one changes neither.
add-Shows :
    (r q : SnapshotRing) (s : Snapshot) (h : List Snapshot)
    → Shows r h
    → add r s ≡ ok q
    → (q.capacity ≡ r.capacity) × Shows q (accept h s)
unfolding add accept validate_meta append
add-Shows r q s h v e =
    let made : append (evict r) s ≡ q = ground arith in
    let joins : accept h s ≡ h ++ s ∷ [] = ground (arith, v.newest) in
    let size : q.capacity ≡ r.capacity =
      ap (λ (k : SnapshotRing). k.capacity) (sym made) ∙ evict_capacity r in
    (
      size,
      rw joins (record {
        ring = add-IsRing r s q v.ring e;
        window =
            ap (λ (k : SnapshotRing). k.items) (sym made)
            ∙ items_evicted r s h r.items refl v
            ∙ ap (λ n. last_n n (h ++ s ∷ [])) (sym size);
        newest = ap (λ (k : SnapshotRing). k.latest) (sym made) ∙ sym (last_tick-append h s);
      }),
    )

add-err :
    (r : SnapshotRing) (s : Snapshot) (h : List Snapshot) (x : Error)
    → Shows r h
    → add r s ≡ err x
    → accept h s ≡ h
unfolding add accept validate_meta
add-err r s h x v e = ground (arith, v.newest)

add_all-Shows :
    (r : SnapshotRing) (h ss : List Snapshot)
    → Shows r h
    → ((add_all r ss).capacity ≡ r.capacity) × Shows (add_all r ss) (accept_all h ss)
unfolding add_all accept_all
add_all-Shows r h [] v = (refl, v)
add_all-Shows r h (s ∷ ss) v = elim (Result-cases (add r s)) [
  | inl (q, e) ↦
      let step = add-Shows r q s h v e in
      let rest = add_all-Shows q (accept h s) ss step.1 in rw (e, add_all) (rest.0 ∙ step.0, rest.1)
  | inr (x, e) ↦ rw (e, add_all) (add_all-Shows r (accept h s) ss (rw (add-err r s h x v e) v))
]

drop_nil : (n : ℕ) → drop n (let xs : List Snapshot = [] in xs) ≡ []
drop_nil zero = refl
drop_nil (suc n) = refl

-- After any publications a ring of some capacity finds under every tick exactly what the last
-- snapshots of the history hold, as many as the capacity: those with valid metadata whose tick lies
-- above all ticks before. A capacity of 0 stands for 64.
pub get-add_all :
    (capacity : ℕ) (ss : List Snapshot) (t : ℕ)
    → get (add_all (new_ring capacity) ss) t
      ≡ find_by
          (λ (s : Snapshot). s.meta.tick)
          t
          (last_n (if capacity == 0 then 64 else capacity) (accept_all [] ss))
unfolding new_ring last_n
get-add_all capacity ss t =
    let start : Shows (new_ring capacity) [] = record {
      ring = new_ring-IsRing capacity;
      window = sym (drop_nil _);
      newest = refl;
    } in
    let r = add_all-Shows (new_ring capacity) [] ss start in
    get-find_by (add_all (new_ring capacity) ss) t r.1.ring
    ∙ ap (find_by tick_of t) (r.1.window ∙ ap (λ n. last_n n (accept_all [] ss)) r.0)
