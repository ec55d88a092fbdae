-- ===== src/Base/Keys.antt =====
-- Keys of maps and of sorts: a type with a strict total order and a test of equality.
use Prim.Native.Nat.{ℕ}
use mathlib.Core.Path.{◌≡◌}
use mathlib.Core.Logic.{◌↔◌}
use mathlib.Core.Bool.{Bool, true, false}
use native.Mathlib.Omega.{arith}
use cube_core.Base.Tests.{ltb, ◌==◌, ==_iff}

pub record Key (K : Type 0) : Type 0 where
  pub lt : K → K → Bool
  pub eq : K → K → Bool
  pub eq_iff : (a b : K) → (eq a b ≡ true) ↔ (a ≡ b)
  pub lt_irrefl : (a : K) → lt a a ≡ false
  pub lt_trans : (a b c : K) → lt a b ≡ true → lt b c ≡ true → lt a c ≡ true
  pub lt_connex : (a b : K) → lt a b ≡ false → lt b a ≡ false → a ≡ b

module _ {K : Type 0} (e : Key K) where
  pub eq_refl : (a : K) → e.eq a a ≡ true
  eq_refl a = (e.eq_iff a a).1 (λ i. a)

  pub lt-ne : (a b : K) → e.lt a b ≡ true → e.eq a b ≡ false
  lt-ne a b h = ground (arith, e.eq_iff a b, e.lt_irrefl b)

  pub gt-ne : (a b : K) → e.lt a b ≡ true → e.eq b a ≡ false
  gt-ne a b h = ground (arith, e.eq_iff b a, e.lt_irrefl b)

pub nat_lt_irrefl : (a : ℕ) → ltb a a ≡ false
nat_lt_irrefl a = ground arith

pub nat_lt_trans : (a b c : ℕ) → ltb a b ≡ true → ltb b c ≡ true → ltb a c ≡ true
nat_lt_trans a b c h k = ground arith

pub nat_lt_connex : (a b : ℕ) → ltb a b ≡ false → ltb b a ≡ false → a ≡ b
nat_lt_connex a b h k = ground arith

instance abbrev pub nat_key : Key ℕ
nat_key = record {
  lt = λ a b. ltb a b;
  eq = λ a b. a == b;
  eq_iff = ==_iff;
  lt_irrefl = nat_lt_irrefl;
  lt_trans = nat_lt_trans;
  lt_connex = nat_lt_connex;
}

module _ {K : Type 0} (e : Key K) where
  -- The order read as "not after".
  pub not_lt_trans : (a b c : K) → e.lt b a ≡ false → e.lt c b ≡ false → e.lt c a ≡ false
  not_lt_trans a b c h k = ground (arith, e.lt_connex b c, e.lt_trans b c a)

  pub lt_of_lt_of_not_lt : (a b c : K) → e.lt a b ≡ true → e.lt c b ≡ false → e.lt a c ≡ true
  lt_of_lt_of_not_lt a b c h k = ground (arith, e.lt_connex b c, e.lt_trans a b c)

  pub lt_of_apart : (a b : K) → e.lt b a ≡ false → e.eq b a ≡ false → e.lt a b ≡ true
  lt_of_apart a b h k = ground (arith, e.lt_connex a b, e.eq_iff b a)

  pub lt_asymm : (a b : K) → e.lt a b ≡ true → e.lt b a ≡ false
  lt_asymm a b h = ground (arith, e.lt_trans a b a, e.lt_irrefl a)
