-- ===== src/Base/Bytes.antt =====
-- Byte strings as lists of numbers: `bytes.Equal`, and the big-endian words of `encoding/binary`.
use Prim.Native.Nat.{ℕ, zero, suc, ◌+◌, ◌*◌, ◌/◌, ◌%◌, ◌^◌, ◌<◌}
use mathlib.Core.Path.{◌≡◌, refl, ◌∙◌}
use mathlib.Core.Logic.{◌↔◌}
use mathlib.Core.Bool.{Bool, true, false, ◌&&◌}
use mathlib.Core.List.{List, [], ◌∷◌, ◌++◌}
use native.Mathlib.Omega.{arith}
use native.Mathlib.Nat.{pow-suc}
use cube_core.Base.Tests.{◌==◌, ltb, if◌then◌else◌}
use cube_core.Base.Keys.{Key}
use cube_core.Base.Lists.{length, length-append}

unfoldable pub bytes_equal : List ℕ → List ℕ → Bool
bytes_equal [] [] = true
bytes_equal [] (y ∷ ys) = false
bytes_equal (x ∷ xs) [] = false
bytes_equal (x ∷ xs) (y ∷ ys) = (x == y) && bytes_equal xs ys

pub bytes_equal_iff : (xs ys : List ℕ) → (bytes_equal xs ys ≡ true) ↔ (xs ≡ ys)
unfolding bytes_equal
bytes_equal_iff [] [] = ground arith
bytes_equal_iff [] (y ∷ ys) = ground arith
bytes_equal_iff (x ∷ xs) [] = ground arith
bytes_equal_iff (x ∷ xs) (y ∷ ys) = ground (arith, bytes_equal_iff xs ys)

-- `binary.BigEndian.PutUint…`: the lowest `w` bytes of a number, the highest first.
unfoldable pub put_be : ℕ → ℕ → List ℕ
put_be zero v = []
put_be (suc w) v = put_be w (v / 256) ++ (v % 256) ∷ []

-- `binary.BigEndian.Uint…`: the number that a byte string spells, over what was read before.
unfoldable pub read_be : ℕ → List ℕ → ℕ
read_be acc [] = acc
read_be acc (b ∷ bs) = read_be (acc * 256 + b) bs

pub length-put_be : (w v : ℕ) → length (put_be w v) ≡ w
unfolding put_be
length-put_be zero v = refl
length-put_be (suc w) v =
    omega (arith, length-append (put_be w (v / 256)) ((v % 256) ∷ []), length-put_be w (v / 256))

read_be-append : (acc : ℕ) (xs ys : List ℕ) → read_be acc (xs ++ ys) ≡ read_be (read_be acc xs) ys
unfolding read_be
read_be-append acc [] ys = refl
read_be-append acc (x ∷ xs) ys = read_be-append (acc * 256 + x) xs ys

shorter : (w v : ℕ) → v < 256 ^ suc w → v / 256 < 256 ^ w
shorter w v h = omega (arith, pow-suc 256 w)

-- A word that fits comes back.
pub read_be-put_be : (w v : ℕ) → v < 256 ^ w → read_be 0 (put_be w v) ≡ v
unfolding put_be read_be
read_be-put_be zero v h = omega arith
read_be-put_be (suc w) v h =
    read_be-append 0 (put_be w (v / 256)) ((v % 256) ∷ [])
    ∙ omega (arith, read_be-put_be w (v / 256) (shorter w v h))

-- `<` on strings.
unfoldable pub bytes_less : List ℕ → List ℕ → Bool
bytes_less xs [] = false
bytes_less [] (y ∷ ys) = true
bytes_less (x ∷ xs) (y ∷ ys) = if x == y then bytes_less xs ys else ltb x y

pub bytes_less_irrefl : (xs : List ℕ) → bytes_less xs xs ≡ false
unfolding bytes_less
bytes_less_irrefl [] = refl
bytes_less_irrefl (x ∷ xs) = ground (arith, bytes_less_irrefl xs)

pub bytes_less_trans :
    (xs ys zs : List ℕ)
    → bytes_less xs ys ≡ true
    → bytes_less ys zs ≡ true
    → bytes_less xs zs ≡ true
unfolding bytes_less
bytes_less_trans xs ys [] h k = ground arith
bytes_less_trans xs [] (z ∷ zs) h k = ground arith
bytes_less_trans [] (y ∷ ys) (z ∷ zs) h k = refl
bytes_less_trans (x ∷ xs) (y ∷ ys) (z ∷ zs) h k = ground (arith, bytes_less_trans xs ys zs)

pub bytes_less_connex :
    (xs ys : List ℕ) → bytes_less xs ys ≡ false → bytes_less ys xs ≡ false → xs ≡ ys
unfolding bytes_less
bytes_less_connex [] [] h k = refl
bytes_less_connex [] (y ∷ ys) h k = ground arith
bytes_less_connex (x ∷ xs) [] h k = ground arith
bytes_less_connex (x ∷ xs) (y ∷ ys) h k = ground (arith, bytes_less_connex xs ys)

instance abbrev pub bytes_key : Key (List ℕ)
bytes_key = record {
  lt = bytes_less;
  eq = bytes_equal;
  eq_iff = bytes_equal_iff;
  lt_irrefl = bytes_less_irrefl;
  lt_trans = bytes_less_trans;
  lt_connex = bytes_less_connex;
}
