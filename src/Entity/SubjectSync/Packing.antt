-- ===== src/Entity/SubjectSync/Packing.antt =====
-- What a preparation covers, and what its end leaves to the next one.
use cube_core.Entity.SubjectSync.Capture.{
  captured_as, capture_snapshot, capture_updates, capture_result,
}
use cube_core.Base.Results.{Result, Result-cases, ok}
use cube_core.Base.{
  ◌∙◌, sym, ◌==◌, if◌then◌else◌, Option-cases, some, true, ℕ, ap, false, refl, subst, All, ◌+◌, ◌^◌,
  ◌%◌, ◌≡◌, inl, inr, arith, map, List, [], ◌∷◌,
}
use cube_core.Entity.Profiles.{SyncProfile, normalize_sync_profiles}
use cube_core.Entity.SubjectSync.{
  sync_full_reason_resync, sync_full_reason_none, SyncError, SubjectSyncPacker, FrozenSyncPayload,
  ok, SubjectSyncUpdate, SubjectSyncState,
}
use cube_core.Entity.SubjectSync.Prepare.{
  update_of, packed_as, pack_updates, Begun, PreparedSubjectSync, begin_prepare, end_prepare,
  prepare,
}

-- What an update says of the state that it was prepared from, and what the packer was asked for it:
-- the bits that were dirty, or the whole subject where that was due.
pub record Describes (s : SubjectSyncState) (packer : SubjectSyncPacker) (u : SubjectSyncUpdate)
    : Type 0 where
  pub subject_is : u.subject_id ≡ s.subject_id
  pub namespace_is : u.namespace ≡ s.namespace
  pub kind_is : u.subject_kind ≡ s.subject_kind
  pub version_is : u.version ≡ (s.version + 1) % 2 ^ 64
  pub base_is : u.base_version ≡ s.version
  pub mask_is : u.mask ≡ s.dirty_mask
  pub full_is : u.full ≡ s.full_dirty
  pub packed_full : s.full_dirty ≡ true → packer.pack_subject_snapshot u.profile ≡ ok u.payload
  pub packed_delta :
      s.full_dirty ≡ false → packer.pack_subject_delta u.profile s.dirty_mask ≡ ok u.payload

-- What a preparation takes from the state.
record BegunFrom (s t : SubjectSyncState) (b : Begun) : Type 0 where
  subject_is : b.subject_id ≡ s.subject_id
  namespace_is : b.namespace ≡ s.namespace
  kind_is : b.subject_kind ≡ s.subject_kind
  version_is : b.version ≡ (s.version + 1) % 2 ^ 64
  base_is : b.base_version ≡ s.version
  mask_is : b.mask ≡ s.dirty_mask
  full_is : b.full ≡ s.full_dirty
  generation_is : b.generation ≡ s.dirty_generation
  token_is : b.token ≡ (s.next_token + 1) % 2 ^ 64
  packer_is : s.packer ≡ some b.packer
  state_is : record s { next_token = b.token; inflight_token = b.token } ≡ t

begun-from : (s t : SubjectSyncState) (b : Begun) → begin_prepare s ≡ (t, ok b) → BegunFrom s t b
unfolding begin_prepare
begun-from s t b h = elim (Option-cases s.packer) [
  | inl n ↦ absurd (ground arith)
  | inr (packer, e) ↦ record {
    subject_is = ground arith;
    namespace_is = ground arith;
    kind_is = ground arith;
    version_is = ground arith;
    base_is = ground arith;
    mask_is = ground arith;
    full_is = ground arith;
    generation_is = ground arith;
    token_is = ground arith;
    packer_is = ground arith;
    state_is = ground arith;
  }
]

described :
    (s t : SubjectSyncState) (b : Begun) (p : SyncProfile) (payload : FrozenSyncPayload)
    → begin_prepare s ≡ (t, ok b)
    → packed_as b p ≡ ok payload
    → Describes s b.packer (update_of b p payload)
described s t b p payload begun q =
    let from = begun-from s t b begun in
    record {
      subject_is = from.subject_is;
      namespace_is = from.namespace_is;
      kind_is = from.kind_is;
      version_is = from.version_is;
      base_is = from.base_is;
      mask_is = from.mask_is;
      full_is = from.full_is;
      packed_full = λ whole. ground (arith, from.full_is, whole, q);
      packed_delta = λ part.
          ap (λ m. b.packer.pack_subject_delta p m) (sym from.mask_is)
          ∙ ground (arith, from.full_is, part, q);
    }

pack_updates_lem :
    (s t : SubjectSyncState) (b : Begun) (ps : List SyncProfile) (us : List SubjectSyncUpdate)
    → begin_prepare s ≡ (t, ok b)
    → pack_updates b ps ≡ ok us
    → (map (λ (u : SubjectSyncUpdate). u.profile) us ≡ ps) × All (Describes s b.packer) us
unfolding pack_updates
pack_updates_lem s t b [] us begun h = subst Packed {x = []} (ground arith) (refl, tt)
  where
    Packed : List SubjectSyncUpdate → Type 0
    Packed xs = (map (λ (u : SubjectSyncUpdate). u.profile) xs ≡ []) × All (Describes s b.packer) xs
pack_updates_lem s t b (p ∷ ps) us begun h = elim (Result-cases (pack_updates b ps)) [
  | inr (e, r) ↦ absurd (ground arith)
  | inl (rest, r) ↦ elim (Result-cases (packed_as b p)) [
    | inr (e, q) ↦ absurd (ground arith)
    | inl (payload, q) ↦
        let tail = pack_updates_lem s t b ps rest begun r in
        subst Packed {x = update_of b p payload ∷ rest} (ground arith)
          (ap (◌∷◌ p) tail.0, (described s t b p payload begun q, tail.1))
  ]
]
  where
    Packed : List SubjectSyncUpdate → Type 0
    Packed xs =
        (map (λ (u : SubjectSyncUpdate). u.profile) xs ≡ p ∷ ps) × All (Describes s b.packer) xs

-- A preparation that succeeds makes one update for every normalised profile, in their order. Each has
-- the subject and the next version of the state, and its payload is what the state's packer answered
-- for the profile and exactly the bits that were dirty, or for the profile as a whole where that was
-- due. The preparation is under way with the next token, and nothing else of the state has changed.
pub prepare_lem :
    (s t : SubjectSyncState) (profiles : List SyncProfile) (p : PreparedSubjectSync)
    → prepare s profiles ≡ (t, ok p)
    → (p.base_version ≡ s.version)
      × (p.version ≡ (s.version + 1) % 2 ^ 64)
      × (p.generation ≡ s.dirty_generation)
      × (p.token ≡ (s.next_token + 1) % 2 ^ 64)
      × (p.finished ≡ false)
      × (t ≡ record s { next_token = p.token; inflight_token = p.token })
      × (map (λ (u : SubjectSyncUpdate). u.profile) p.updates ≡ normalize_sync_profiles profiles)
      × ((packer : SubjectSyncPacker) × (s.packer ≡ some packer)
          × All (Describes s packer) p.updates)
unfolding prepare end_prepare
prepare_lem s t profiles p h = elim (Result-cases (begin_prepare s).1) [
  | inr (e, r) ↦ absurd (ground arith)
  | inl (b, r) ↦ elim (Result-cases (pack_updates b (normalize_sync_profiles profiles))) [
    | inr (e, q) ↦ absurd (ground arith)
    | inl (us, q) ↦
        let begun : begin_prepare s ≡ (t, ok b) = ground arith in
        let made = pack_updates_lem s t b (normalize_sync_profiles profiles) us begun q in
        let same : us ≡ p.updates = ground arith in
        let from = begun-from s t b begun in
        (
          ground (arith, from.base_is),
          ground (arith, from.version_is),
          ground (arith, from.generation_is),
          ground (arith, from.token_is),
          ground arith,
          sym from.state_is
              ∙ ap (λ k. record s { next_token = k; inflight_token = k }) (ground arith),
          ground (arith, made.0),
          (b.packer, from.packer_is, subst (All (Describes s b.packer)) same made.1),
        )
  ]
]

-- An update of a snapshot.
pub record Shows (packer : SubjectSyncPacker) (s : SubjectSyncState) (u : SubjectSyncUpdate)
    : Type 0 where
  pub version_is : u.version ≡ s.version
  pub base_is : u.base_version ≡ s.version
  pub full_is : u.full ≡ true
  pub packed : packer.pack_subject_snapshot u.profile ≡ ok u.payload

capture_updates_lem :
    (packer : SubjectSyncPacker) (s : SubjectSyncState) (reason : ℕ) (ps : List SyncProfile)
    (us : List SubjectSyncUpdate)
    → capture_updates packer s reason ps ≡ ok us
    → (map (λ (u : SubjectSyncUpdate). u.profile) us ≡ ps) × All (Shows packer s) us
unfolding capture_updates
capture_updates_lem packer s reason [] us h = subst Packed {x = []} (ground arith) (refl, tt)
  where
    Packed : List SubjectSyncUpdate → Type 0
    Packed xs = (map (λ (u : SubjectSyncUpdate). u.profile) xs ≡ []) × All (Shows packer s) xs
capture_updates_lem packer s reason (p ∷ ps) us h =
    elim (Result-cases (capture_updates packer s reason ps)) [
      | inr (e, r) ↦ absurd (ground arith)
      | inl (rest, r) ↦ elim (Result-cases (packer.pack_subject_snapshot p)) [
        | inr (e, q) ↦ absurd (ground arith)
        | inl (payload, q) ↦
            let tail = capture_updates_lem packer s reason ps rest r in
            subst Packed {x = captured_as s reason p payload ∷ rest} (ground arith)
              (ap (◌∷◌ p) tail.0, (shown payload q, tail.1))
      ]
    ]
  where
    Packed : List SubjectSyncUpdate → Type 0
    Packed xs = (map (λ (u : SubjectSyncUpdate). u.profile) xs ≡ p ∷ ps) × All (Shows packer s) xs

    shown :
        (payload : FrozenSyncPayload)
        → packer.pack_subject_snapshot p ≡ ok payload
        → Shows packer s (captured_as s reason p payload)
    shown payload q = record { version_is = refl; base_is = refl; full_is = refl; packed = q }

captured :
    (s : SubjectSyncState) (profiles : List SyncProfile) (reason : ℕ) (us : List SubjectSyncUpdate)
    → capture_result s profiles reason ≡ ok us
    → (packer : SubjectSyncPacker) × (s.packer ≡ some packer)
      × (map (λ (u : SubjectSyncUpdate). u.profile) us ≡ normalize_sync_profiles profiles)
      × All (Shows packer s) us
unfolding capture_result
captured s profiles reason us h = elim (Option-cases s.packer) [
  | inl n ↦ absurd (ground arith)
  | inr (packer, e) ↦
      let why : ℕ = if reason == sync_full_reason_none then sync_full_reason_resync else reason in
      let made =
        capture_updates_lem packer s why (normalize_sync_profiles profiles) us (ground arith) in
      (packer, e, made.0, made.1)
]

-- Whatever a capture answers, it changes nothing of the state but its last error. One that succeeds
-- has a packer, and makes one full update for every normalised profile, in their order, at the
-- current version.
pub capture_snapshot_lem :
    (s t : SubjectSyncState) (profiles : List SyncProfile) (reason : ℕ)
    (r : Result SyncError (List SubjectSyncUpdate))
    → capture_snapshot s profiles reason ≡ (t, r)
    → (record s { last_error = t.last_error } ≡ t)
      × ((us : List SubjectSyncUpdate)
          → r ≡ ok us
          → (packer : SubjectSyncPacker) × (s.packer ≡ some packer)
            × (map (λ (u : SubjectSyncUpdate). u.profile) us ≡ normalize_sync_profiles profiles)
            × All (Shows packer s) us)
unfolding capture_snapshot
capture_snapshot_lem s t profiles reason r h = (
  elim (Result-cases (capture_result s profiles reason)) [
    | inl (us, q) ↦ ground arith
    | inr (e, q) ↦ ground arith
  ],
  λ us k. captured s profiles reason us (ground arith),
)
