-- ===== src/Entity/Profiles.antt =====
-- entity/subject_sync.go: the profiles of a subject, without repetition and in order.
use cube_core.Base.Bytes.{
  bytes_less_connex, bytes_less_trans, bytes_less_irrefl, bytes_equal_iff, bytes_less, bytes_equal,
}
use cube_core.Base.{
  some, none, ◌↔◌, not, arith, ◌&&◌, Bool, true, false, ℕ, ◌≡◌, List, [], ◌∷◌, map, if◌then◌else◌,
  ltb, ◌==◌,
}
use cube_core.Base.Keys.{Key}
use cube_core.Base.Sorting.{find_by, sort_by}
use cube_core.Base.Ordered.{put_all, values}

pub record SyncProfile : Type 0 where
  pub key : List ℕ
  pub lod : ℕ
  pub schema_version : ℕ

-- The bytes of "default".
abbrev pub default_key : List ℕ
default_key = 100 ∷ 101 ∷ 102 ∷ 97 ∷ 117 ∷ 108 ∷ 116 ∷ []

unfoldable pub normalize_profile : SyncProfile → SyncProfile
normalize_profile p = if bytes_equal p.key [] then record p { key = default_key } else p

abbrev pub default_profile : SyncProfile
default_profile = record { key = default_key; lod = 0; schema_version = 0 }

-- The order of the sort.
unfoldable pub less_profile : SyncProfile → SyncProfile → Bool
less_profile p q =
    if not (bytes_equal p.key q.key)
    then bytes_less p.key q.key
    else if not (p.lod == q.lod)
    then ltb p.lod q.lod
    else ltb p.schema_version q.schema_version

unfoldable pub same_profile : SyncProfile → SyncProfile → Bool
same_profile p q =
    bytes_equal p.key q.key && (p.lod == q.lod) && (p.schema_version == q.schema_version)

pub same_profile_iff : (p q : SyncProfile) → (same_profile p q ≡ true) ↔ (p ≡ q)
unfolding same_profile
same_profile_iff p q = ground (arith, bytes_equal_iff p.key q.key)

pub less_profile_irrefl : (p : SyncProfile) → less_profile p p ≡ false
unfolding less_profile
less_profile_irrefl p = ground (arith, bytes_less_irrefl p.key)

pub less_profile_trans :
    (p q r : SyncProfile)
    → less_profile p q ≡ true
    → less_profile q r ≡ true
    → less_profile p r ≡ true
unfolding less_profile
less_profile_trans p q r h k = ground (
  arith,
  bytes_equal_iff p.key q.key,
  bytes_equal_iff q.key r.key,
  bytes_equal_iff p.key r.key,
  bytes_less_trans p.key q.key r.key,
  bytes_less_trans p.key q.key p.key,
  bytes_less_irrefl p.key,
)

pub less_profile_connex :
    (p q : SyncProfile) → less_profile p q ≡ false → less_profile q p ≡ false → p ≡ q
unfolding less_profile
less_profile_connex p q h k =
    ground (
      arith,
      bytes_equal_iff p.key q.key,
      bytes_equal_iff q.key p.key,
      bytes_less_connex p.key q.key,
    )

instance abbrev pub profile_key : Key SyncProfile
profile_key = record {
  lt = less_profile;
  eq = same_profile;
  eq_iff = same_profile_iff;
  lt_irrefl = less_profile_irrefl;
  lt_trans = less_profile_trans;
  lt_connex = less_profile_connex;
}

-- The first statement: without profiles there is the default one.
abbrev pub given_profiles : List SyncProfile → List SyncProfile
given_profiles [] = default_profile ∷ []
given_profiles (p ∷ ps) = p ∷ ps

-- The set `unique` is a map from each profile to itself.
unfoldable pub normalize_sync_profiles : List SyncProfile → List SyncProfile
normalize_sync_profiles profiles =
    sort_by (λ p. p)
      (values (put_all (λ p. p) (map normalize_profile (given_profiles profiles)) []))

-- Whether a list has a profile.
unfoldable pub held : SyncProfile → List SyncProfile → Bool
held p ps = elim (find_by (λ (q : SyncProfile). q) p ps) [ none ↦ false | some q ↦ true ]
