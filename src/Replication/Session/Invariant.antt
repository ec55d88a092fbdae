-- ===== src/Replication/Session/Invariant.antt =====
-- The invariant of a session, and that every method keeps it.
use cube_core.Base.{
  if_both, ℕ, ◌≤◌, ◌≡◌, refl, inl, inr, Bool, true, false, not, ◌||◌, List, [], ◌∷◌, ◌++◌, none,
  some, length, ltb, leb, ◌==◌, if◌then◌else◌, All, All-append, All-map, arith, Bool-cases,
}
use cube_core.Base.Keys.{nat_key}
use cube_core.Base.Maps.{Map, find, put, delete, find-put, find-delete}
use cube_core.Base.Ordered.{IsKeyed, put-IsKeyed, delete-IsKeyed}
use cube_core.Base.Sorting.{Distinct, Absent}
use cube_core.Replication.Types.{Snapshot}
use cube_core.Replication.Session.{
  Outcome, SessionState, ControlMessage, dispatch_control, handle_control, acknowledge, prepare,
  trim_order, trim_sent, remember, commit_prepared,
}

abbrev pub tick_of : Snapshot → ℕ
tick_of s = s.meta.tick

abbrev pub held : ℕ → Map ℕ Snapshot → Bool
held t m = elim (find t m) [ none ↦ false | some s ↦ true ]

abbrev pub contains : ℕ → List ℕ → Bool
contains t [] = false
contains t (x ∷ xs) = (x == t) || contains t xs

-- The history of sent snapshots: each under its own tick, the queue of ticks listing exactly the
-- ticks of the map, each once.
pub record IsHistory (order : List ℕ) (sent : Map ℕ Snapshot) : Type 0 where
  pub keyed : IsKeyed (λ (s : Snapshot). s.meta.tick) sent
  pub listed : (t : ℕ) → held t sent ≡ contains t order
  pub distinct : Distinct (λ (t : ℕ). t) order

-- The history is bounded, and no retained or acknowledged tick lies above the last one sent.
pub record IsSession (s : SessionState) : Type 0 where
  pub history : IsHistory s.sent_order s.sent
  pub bounded : length s.sent_order ≤ s.max_history
  pub recent : All (λ t. t ≤ s.last_sent) s.sent_order
  pub acked : s.ack_tick ≤ s.last_sent

contains-Absent : (t : ℕ) (xs : List ℕ) → Absent (λ (u : ℕ). u) t xs → contains t xs ≡ false
contains-Absent t [] a = refl
contains-Absent t (x ∷ xs) a = ground (arith, contains-Absent t xs a.1)

drop_oldest :
    (t : ℕ) (ts : List ℕ) (m : Map ℕ Snapshot) → IsHistory (t ∷ ts) m → IsHistory ts (delete t m)
drop_oldest t ts m h = record {
  keyed = delete-IsKeyed tick_of t m h.keyed;
  listed = λ u. ground (arith, h.listed u, find-delete t u m, contains-Absent t ts h.distinct.0);
  distinct = h.distinct.1;
}

trim-IsHistory :
    (n : ℕ) (order : List ℕ) (m : Map ℕ Snapshot)
    → IsHistory order m
    → IsHistory (trim_order n order) (trim_sent n order m)
unfolding trim_order trim_sent
trim-IsHistory n [] m h = h
trim-IsHistory n (t ∷ ts) m h = elim (Bool-cases (ltb n (length (t ∷ ts)))) [
  | inl e ↦ rw (e, trim_order, trim_sent) (trim-IsHistory n ts (delete t m) (drop_oldest t ts m h))
  | inr e ↦ rw (e, trim_order, trim_sent) h
]

length-trim_order-le : (n : ℕ) (order : List ℕ) → length (trim_order n order) ≤ n
unfolding trim_order
length-trim_order-le n [] = omega arith
length-trim_order-le n (t ∷ ts) = ground (arith, length-trim_order-le n ts)

All-trim_order :
    (P : ℕ → Type 0) (n : ℕ) (order : List ℕ) → All P order → All P (trim_order n order)
unfolding trim_order
All-trim_order P n [] h = tt
All-trim_order P n (t ∷ ts) h = elim (Bool-cases (ltb n (length (t ∷ ts)))) [
  | inl e ↦ rw (e, trim_order) (All-trim_order P n ts h.1)
  | inr e ↦ rw (e, trim_order) h
]

contains-append : (t u : ℕ) (xs : List ℕ) → contains t (xs ++ u ∷ []) ≡ (contains t xs || (u == t))
contains-append t u [] = ground arith
contains-append t u (x ∷ xs) = ground (arith, contains-append t u xs)

Absent-contains : (t : ℕ) (xs : List ℕ) → contains t xs ≡ false → Absent (λ (u : ℕ). u) t xs
Absent-contains t [] h = tt
Absent-contains t (x ∷ xs) h = (ground arith, Absent-contains t xs (ground arith))

Distinct-append :
    (u : ℕ) (xs : List ℕ)
    → Distinct (λ (t : ℕ). t) xs
    → contains u xs ≡ false
    → Distinct (λ (t : ℕ). t) (xs ++ u ∷ [])
Distinct-append u [] d h = (tt, tt)
Distinct-append u (x ∷ xs) d h = (
  All-append (λ y. (x == y) ≡ false) xs (u ∷ []) d.0 (ground arith, tt),
  Distinct-append u xs d.1 (ground arith),
)

sent_again :
    (s : Snapshot) (order : List ℕ) (m : Map ℕ Snapshot)
    → IsHistory order m
    → IsHistory
        (if held s.meta.tick m then order else order ++ s.meta.tick ∷ [])
        (put s.meta.tick s m)
sent_again s order m h = elim (Bool-cases (held s.meta.tick m)) [
  | inl e ↦ rw e (record {
    keyed = put-IsKeyed tick_of s m h.keyed;
    listed = λ u. ground (arith, h.listed u, h.listed s.meta.tick, find-put s.meta.tick u s m, e);
    distinct = h.distinct;
  })
  | inr e ↦ rw e (record {
    keyed = put-IsKeyed tick_of s m h.keyed;
    listed = λ u.
        ground (arith, h.listed u, find-put s.meta.tick u s m, contains-append u s.meta.tick order);
    distinct = Distinct-append s.meta.tick order h.distinct (ground (arith, h.listed s.meta.tick));
  })
]

-- The ticks that the history lists once a snapshot has joined it.
order_after : SessionState → ℕ → List ℕ
order_after s t = if held t s.sent then s.sent_order else s.sent_order ++ t ∷ []

last_after : SessionState → ℕ → ℕ
last_after s t = if ltb s.last_sent t then t else s.last_sent

order_after-recent :
    (s : SessionState) (t : ℕ)
    → All (λ u. u ≤ s.last_sent) s.sent_order
    → All (λ u. u ≤ last_after s t) (order_after s t)
unfolding order_after last_after
order_after-recent s t h =
    let grown : All (λ u. u ≤ last_after s t) s.sent_order =
      All-map (λ u. u ≤ s.last_sent) (λ u. u ≤ last_after s t) (λ u k. ground arith) s.sent_order
        h in
    elim (Bool-cases (held t s.sent)) [
      | inl e ↦ rw e grown
      | inr e ↦
          rw e (All-append (λ u. u ≤ last_after s t) s.sent_order (t ∷ []) grown (ground arith, tt))
    ]

remember-IsSession : (s : SessionState) (x : Snapshot) → IsSession s → IsSession (remember s x)
unfolding remember order_after last_after
remember-IsSession s x v = record {
  history =
      trim-IsHistory s.max_history (order_after s x.meta.tick) (put x.meta.tick x s.sent)
        (sent_again x s.sent_order s.sent v.history);
  bounded = length-trim_order-le s.max_history (order_after s x.meta.tick);
  recent =
      All-trim_order (λ u. u ≤ last_after s x.meta.tick) s.max_history (order_after s x.meta.tick)
        (order_after-recent s x.meta.tick v.recent);
  acked = ground (arith, v.acked);
}

-- The invariant reads five fields; a change of others keeps it.
pub same_history :
    (s t : SessionState)
    → t.sent ≡ s.sent
    → t.sent_order ≡ s.sent_order
    → t.max_history ≡ s.max_history
    → t.last_sent ≡ s.last_sent
    → t.ack_tick ≤ t.last_sent
    → IsSession s
    → IsSession t
same_history s t e1 e2 e3 e4 a v = record {
  history = rw (e1, e2) v.history;
  bounded = rw (e2, e3) v.bounded;
  recent = rw (e2, e4) v.recent;
  acked = a;
}

pub commit_prepared-IsSession :
    (s : SessionState) (x : Snapshot) (sequence generation : ℕ) (full : Bool)
    → IsSession s
    → IsSession (commit_prepared s x sequence generation full).0
unfolding commit_prepared
commit_prepared-IsSession s x sequence generation full v =
    let t : SessionState = record s { committed = sequence } in
    let k : SessionState = remember t x in
    let u : SessionState = record k { force_full = if full then false else k.force_full } in
    let kept : IsSession k =
      remember-IsSession t x (same_history s t refl refl refl refl v.acked v) in
    if_both {A = Outcome (Unit {0})} (λ o. IsSession o.0) s.closed v
      (if_both {A = Outcome (Unit {0})} (λ o. IsSession o.0)
        (not (generation == s.generation) || leb sequence s.committed) v
        (same_history k u refl refl refl refl kept.acked kept))

dispatch_control-IsSession :
    (s : SessionState) (m : ControlMessage) (latest : ℕ)
    → IsSession s
    → IsSession (dispatch_control s m latest).0
unfolding dispatch_control
dispatch_control-IsSession s m latest v =
    same_history s (dispatch_control s m latest).0 (ground arith) (ground arith) (ground arith)
      (ground arith) (ground (arith, v.acked)) v

pub handle_control-IsSession :
    (s : SessionState) (m : ControlMessage) (latest : ℕ)
    → IsSession s
    → IsSession (handle_control s m latest).0
unfolding handle_control
handle_control-IsSession s m latest v =
    let t : SessionState = record s { control_seq = m.sequence } in
    if_both {A = Outcome (Unit {0})} (λ o. IsSession o.0) s.closed v
      (if_both {A = Outcome (Unit {0})} (λ o. IsSession o.0) (leb m.sequence s.control_seq) v
        (dispatch_control-IsSession t m latest (same_history s t refl refl refl refl v.acked v)))

pub acknowledge-IsSession :
    (s : SessionState) (tick latest : ℕ) → IsSession s → IsSession (acknowledge s tick latest).0
unfolding acknowledge
acknowledge-IsSession s tick latest v =
    same_history s (acknowledge s tick latest).0 (ground arith) (ground arith) (ground arith)
      (ground arith) (ground (arith, v.acked)) v

pub prepare-IsSession :
    (s : SessionState) (target : ℕ) → IsSession s → IsSession (prepare s target).0
unfolding prepare
prepare-IsSession s target v =
    same_history s (prepare s target).0 (ground arith) (ground arith) (ground arith) (ground arith)
      (ground (arith, v.acked)) v
