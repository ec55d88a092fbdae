-- ===== src/Replication/Replicator/Invariant.antt =====
-- What holds of the sessions of a replicator, and what each change of one keeps.
use cube_core.Base.{
  ◌++◌, if◌then◌else◌, ◌⊎◌, subst, ◌∙◌, sym, ap, Bool-cases, ℕ, ◌≡◌, ◌≢◌, Bool, List, [], ◌∷◌, none,
  some, ltb, length, ◌==◌, arith, inl, inr, Option-cases,
}
use cube_core.Base.Results.{ok}
use cube_core.Base.Keys.{nat_key}
use cube_core.Base.Maps.{Map, find, put, delete, find-put, find-delete}
use cube_core.Replication.Types.{Limits, Snapshot, SessionInfo}
use cube_core.Replication.Snapshot.{new_snapshot}
use cube_core.Replication.Session.{
  is_sent, first_state, ControlMessage, SessionState, trim_sent, remember, commit_prepared, prepare,
  prepare_base, acknowledge, handle_control, dispatch_control, force_full, set_quality_tier, close,
}
use cube_core.Replication.Session.Calls.{
  first_state-IsSession, controls, commits, acknowledges, forces, closes, sets_tier, prepares, step,
  step-IsSession,
}
use cube_core.Replication.Session.Invariant.{IsSession}
use cube_core.Replication.Replicator.Sessions.{force_full_all, close_all, close_place}

-- A snapshot that `NewSnapshot` gives back unchanged.
abbrev pub IsFixed : Limits → Snapshot → Type 0
IsFixed l x = new_snapshot x.meta x.objects l ≡ ok x

-- A sound session that only retains snapshots in normal form.
pub record IsGood (l : Limits) (s : SessionState) : Type 0 where
  pub sound : IsSession s
  pub retained : (t : ℕ) (x : Snapshot) → find t s.sent ≡ some x → IsFixed l x

-- Every session is good, and every identifier leads to one.
pub record IsStore (l : Limits) (sessions : Map ℕ ℕ) (store : Map ℕ SessionState) : Type 0 where
  pub good : (place : ℕ) (s : SessionState) → find place store ≡ some s → IsGood l s
  pub placed : (id place : ℕ) → find id sessions ≡ some place → find place store ≢ none

find-trim_sent :
    (n t : ℕ) (ts : List ℕ) (m : Map ℕ Snapshot) (x : Snapshot)
    → find t (trim_sent n ts m) ≡ some x
    → find t m ≡ some x
unfolding trim_sent
find-trim_sent n t [] m x e = e
find-trim_sent n t (u ∷ ts) m x e = elim (Bool-cases (ltb n (length (u ∷ ts)))) [
  | inl c ↦
      let later = find-trim_sent n t ts (delete u m) x (ground (arith, c, e)) in
      ground (arith, later, find-delete u t m)
  | inr c ↦ ground (arith, c, e)
]

find-remember :
    (s : SessionState) (x : Snapshot) (k : ℕ) (y : Snapshot)
    → find k (remember s x).sent ≡ some y
    → (find k s.sent ≡ some y) ⊎ (x ≡ y)
unfolding remember
find-remember s x k y e =
    let inside =
      find-trim_sent s.max_history k (remember_order s x) (put x.meta.tick x s.sent) y e in
    ground (arith, inside, find-put x.meta.tick k x s.sent)
  where
    remember_order : SessionState → Snapshot → List ℕ
    remember_order t z =
        if is_sent z.meta.tick t.sent then t.sent_order else t.sent_order ++ z.meta.tick ∷ []

commit_prepared-sent :
    (s : SessionState) (x : Snapshot) (sequence generation : ℕ) (full : Bool)
    → ((commit_prepared s x sequence generation full).0.sent ≡ s.sent)
      ⊎ ((commit_prepared s x sequence generation full).0.sent
          ≡ (remember (record s { committed = sequence }) x).sent)
unfolding commit_prepared
commit_prepared-sent s x sequence generation full = ground arith

-- A session call that retains nothing new.
module _ (l : Limits) (s : SessionState) (v : IsGood l s) where
  same-IsGood : (t : SessionState) → IsSession t → t.sent ≡ s.sent → IsGood l t
  same-IsGood t sound same = record {
    sound = sound;
    retained = λ k x e. v.retained k x (ap (find k) (sym same) ∙ e);
  }

  pub acknowledge-IsGood : (tick latest : ℕ) → IsGood l (acknowledge s tick latest).0
  unfolding acknowledge step
  acknowledge-IsGood tick latest =
      same-IsGood _ (step-IsSession s (acknowledges tick latest) v.sound) (ground arith)

  pub handle_control-IsGood :
      (m : ControlMessage) (latest : ℕ) → IsGood l (handle_control s m latest).0
  unfolding handle_control dispatch_control step
  handle_control-IsGood m latest =
      same-IsGood _ (step-IsSession s (controls m latest) v.sound) (ground arith)

  pub force_full-IsGood : IsGood l (force_full s)
  unfolding force_full step
  force_full-IsGood = same-IsGood _ (step-IsSession s forces v.sound) (ground arith)

  pub set_quality_tier-IsGood : (tier : ℕ) → IsGood l (set_quality_tier s tier).0
  unfolding set_quality_tier step
  set_quality_tier-IsGood tier =
      same-IsGood _ (step-IsSession s (sets_tier tier) v.sound) (ground arith)

  pub prepare-IsGood : (target : ℕ) → IsGood l (prepare s target).0
  unfolding prepare prepare_base step
  prepare-IsGood target = same-IsGood _ (step-IsSession s (prepares target) v.sound) (ground arith)

  pub close-IsGood : IsGood l (close s)
  unfolding close step find
  close-IsGood = record {
    sound = step-IsSession s closes v.sound;
    retained = λ k x e. absurd (cc e);
  }

  pub commit_prepared-IsGood :
      (x : Snapshot) (sequence generation : ℕ) (full : Bool)
      → IsFixed l x
      → IsGood l (commit_prepared s x sequence generation full).0
  unfolding step
  commit_prepared-IsGood x sequence generation full fixed = record {
    sound = step-IsSession s (commits x sequence generation full) v.sound;
    retained = λ k y e. elim (commit_prepared-sent s x sequence generation full) [
      | inl same ↦ v.retained k y (ap (find k) (sym same) ∙ e)
      | inr new ↦
          elim (find-remember (record s { committed = sequence }) x k y
            (ap (find k) (sym new) ∙ e)) [
              | inl old ↦ v.retained k y old
              | inr it ↦ subst (IsFixed l) it fixed
            ]
    ];
  }

-- Sessions of a store change one at a time.
module _ (l : Limits) (sessions : Map ℕ ℕ) (store : Map ℕ SessionState)
    (v : IsStore l sessions store) where
  pub put-IsStore :
      (place : ℕ) (s : SessionState) → IsGood l s → IsStore l sessions (put place s store)
  put-IsStore place s g = record {
    good = λ p t e. elim (Bool-cases (place == p)) [
      | inl here ↦ subst (IsGood l) {x = s} (ground (arith, e, here, find-put place p s store)) g
      | inr other ↦ v.good p t (ground (arith, e, other, find-put place p s store))
    ];
    placed = λ id p e n. ground (arith, v.placed id p e, find-put place p s store, n);
  }

  pub delete-IsStore : (id : ℕ) → IsStore l (delete id sessions) store
  delete-IsStore id = record {
    good = v.good;
    placed = λ i p e. v.placed i p (ground (arith, e, find-delete id i sessions));
  }

  pub none-IsStore : IsStore l [] store
  unfolding find
  none-IsStore = record { good = v.good; placed = λ i p e. absurd (cc e) }

  pub close_place-IsStore : (place : ℕ) → IsStore l sessions (close_place store place)
  unfolding close_place
  close_place-IsStore place = elim (Option-cases (find place store)) [
    | inl e ↦ rw (e, close_place) v
    | inr (s, e) ↦
        rw (e, close_place) (put-IsStore place (close s) (close-IsGood l s (v.good place s e)))
  ]

  pub add-IsStore :
      (id place : ℕ) (s : SessionState)
      → IsGood l s
      → IsStore l (put id place sessions) (put place s store)
  add-IsStore id place s g =
      let w = put-IsStore place s g in
      record {
        good = w.good;
        placed = λ i p e n.
            ground
              (arith, e, find-put id i place sessions, w.placed i p, n, find-put place p s store);
      }

pub force_full_all-IsStore :
    (l : Limits) (sessions m : Map ℕ ℕ) (store : Map ℕ SessionState)
    → IsStore l sessions store
    → IsStore l sessions (force_full_all m store)
unfolding force_full_all
force_full_all-IsStore l sessions [] store v = v
force_full_all-IsStore l sessions ((id, place) ∷ m) store v =
    elim (Option-cases (find place store)) [
      | inl e ↦ rw (e, force_full_all) (force_full_all-IsStore l sessions m store v)
      | inr (s, e) ↦
          rw (e, force_full_all)
            (force_full_all-IsStore l sessions m (put place (force_full s) store) (
              put-IsStore l sessions store v place (force_full s)
                (force_full-IsGood l s (v.good place s e))))
    ]

pub close_all-IsStore :
    (l : Limits) (sessions m : Map ℕ ℕ) (store : Map ℕ SessionState)
    → IsStore l sessions store
    → IsStore l sessions (close_all m store)
unfolding close_all
close_all-IsStore l sessions [] store v = v
close_all-IsStore l sessions ((id, place) ∷ m) store v =
    close_all-IsStore l sessions m (close_place store place)
      (close_place-IsStore l sessions store v place)

pub first_state-IsGood : (l : Limits) (info : SessionInfo) → IsGood l (first_state info)
unfolding first_state find
first_state-IsGood l info = record {
  sound = first_state-IsSession info;
  retained = λ t x e. absurd (cc e);
}
