-- ===== src/Base/Ordered.antt =====
-- Lists in ascending order are known by their searches; the values of a map in order of the keys.
use Prim.Native.Nat.{◌+◌, ◌≤◌}
use mathlib.Core.Path.{◌≡◌, refl, ap, ap₂}
use mathlib.Core.Logic.{inl, inr}
use mathlib.Core.Bool.{true}
use mathlib.Core.Option.{none, some}
use mathlib.Core.List.{List, [], ◌∷◌}
use native.Mathlib.Omega.{arith}
use cube_core.Base.Tests.{Bool-cases}
use cube_core.Base.Lists.{length}
use cube_core.Base.Keys.{Key, eq_refl}
use cube_core.Base.Maps.{length-put-le, Map, find, put, delete, find-put, find-delete}
use cube_core.Base.Sorting.{
  find_by-Absent, find_by, Above, Absent, Ascending, Distinct, find_by-Above, Above-trans,
}

-- `for _, v := range m`.
abbrev pub values : {A K : Type 0} → Map K A → List A
values [] = []
values ((k, v) ∷ m) = v ∷ values m

module _ {A K : Type 0} ⦃e : Key K⦄ (key : A → K) where
  find_by_self : (x : A) (xs : List A) → find_by key (key x) (x ∷ xs) ≡ some x
  unfolding find_by
  find_by_self x xs = rw (eq_refl e (key x))

  find_by_below :
      (k : K) (x : A) (xs : List A)
      → e.lt k (key x) ≡ true
      → Above key (key x) xs
      → find_by key k (x ∷ xs) ≡ none
  find_by_below k x xs h a = find_by-Above key k (x ∷ xs) (h, Above-trans key k (key x) xs h a)

  same_head :
      (x y : A) (xs ys : List A)
      → Ascending key (x ∷ xs)
      → Ascending key (y ∷ ys)
      → ((k : K) → find_by key k (x ∷ xs) ≡ find_by key k (y ∷ ys))
      → key x ≡ key y
  same_head x y xs ys a b h = elim (Bool-cases (e.lt (key x) (key y))) [
    | inl c ↦ cc (h (key x), find_by_self x xs, find_by_below (key x) y ys c b.0)
    | inr c ↦ elim (Bool-cases (e.lt (key y) (key x))) [
      | inl d ↦ cc (h (key y), find_by_self y ys, find_by_below (key y) x xs d a.0)
      | inr d ↦ e.lt_connex (key x) (key y) c d
    ]
  ]

  same_tail :
      (x y : A) (xs ys : List A) (k : K)
      → key x ≡ key y
      → Above key (key x) xs
      → Above key (key y) ys
      → find_by key k (x ∷ xs) ≡ find_by key k (y ∷ ys)
      → find_by key k xs ≡ find_by key k ys
  unfolding find_by
  same_tail x y xs ys k p a b h = ground (
    arith,
    e.eq_iff (key x) k,
    e.eq_iff (key y) k,
    find_by-Above key (key x) xs a,
    find_by-Above key (key y) ys b,
  )

  same_record :
      (x y : A) (xs ys : List A)
      → key x ≡ key y
      → find_by key (key x) (x ∷ xs) ≡ find_by key (key x) (y ∷ ys)
      → x ≡ y
  same_record x y xs ys keys h =
      cc (h, find_by_self x xs, find_by_self y ys, ap (λ k. find_by key k (y ∷ ys)) keys)

  -- Two ascending lists in which every key finds the same record are the same list.
  pub Ascending-ext :
      (xs ys : List A)
      → Ascending key xs
      → Ascending key ys
      → ((k : K) → find_by key k xs ≡ find_by key k ys)
      → xs ≡ ys
  Ascending-ext [] [] a b h = refl
  Ascending-ext [] (y ∷ ys) a b h = cc (h (key y), find_by_self y ys, nothing)
    where
      nothing : find_by key (key y) [] ≡ none
      nothing = find_by-Above key (key y) [] tt
  Ascending-ext (x ∷ xs) [] a b h = cc (h (key x), find_by_self x xs, nothing)
    where
      nothing : find_by key (key x) [] ≡ none
      nothing = find_by-Above key (key x) [] tt
  Ascending-ext (x ∷ xs) (y ∷ ys) a b h =
      let keys = same_head x y xs ys a b h in
      ap₂ ◌∷◌ (same_record x y xs ys keys (h (key x)))
        (Ascending-ext xs ys a.1 b.1 (λ k. same_tail x y xs ys k keys a.0 b.0 (h k)))

  -- Every entry stands under the key of its value, and no key stands twice.
  abbrev pub IsKeyed : Map K A → Type 0
  IsKeyed [] = Unit
  IsKeyed ((k, v) ∷ m) = (key v ≡ k) × (find k m ≡ none) × IsKeyed m

  pub length-values : (m : Map K A) → length (values m) ≡ length m
  length-values [] = refl
  length-values ((k, v) ∷ m) = omega (arith, length-values m)

  pub find_by-values : (k : K) (m : Map K A) → IsKeyed m → find_by key k (values m) ≡ find k m
  unfolding find_by find
  find_by-values k [] h = refl
  find_by-values k ((j, v) ∷ m) h = ground (arith, find_by-values k m h.2)

  Absent-values : (k : K) (m : Map K A) → IsKeyed m → find k m ≡ none → Absent key k (values m)
  unfolding find
  Absent-values k [] h n = tt
  Absent-values k ((j, v) ∷ m) h n =
      (ground (arith, e.eq_iff j k, e.eq_iff k (key v)), Absent-values k m h.2 (ground arith))

  pub values-Distinct : (m : Map K A) → IsKeyed m → Distinct key (values m)
  values-Distinct [] h = tt
  values-Distinct ((k, v) ∷ m) h =
      (Absent-values (key v) m h.2 (ground arith), values-Distinct m h.2)

  pub put-IsKeyed : (v : A) (m : Map K A) → IsKeyed m → IsKeyed (put (key v) v m)
  unfolding put find
  put-IsKeyed v [] h = (refl, refl, tt)
  put-IsKeyed v ((j, w) ∷ m) h =
      ground
        (arith, put-IsKeyed v m h.2, find-put (key v) j v m, e.eq_iff j (key v), e.eq_iff (key v) j)

  pub delete-IsKeyed : (k : K) (m : Map K A) → IsKeyed m → IsKeyed (delete k m)
  unfolding delete find
  delete-IsKeyed k [] h = tt
  delete-IsKeyed k ((j, w) ∷ m) h = ground (arith, delete-IsKeyed k m h.2, find-delete k j m)

-- `for _, x := range xs { m[key(x)] = x }`.
module _ {A K : Type 0} ⦃e : Key K⦄ where
  unfoldable pub put_all : (A → K) → List A → Map K A → Map K A
  put_all key [] m = m
  put_all key (x ∷ xs) m = put_all key xs (put (key x) x m)

module _ {A K : Type 0} ⦃e : Key K⦄ (key : A → K) where
  pub put_all-IsKeyed : (xs : List A) (m : Map K A) → IsKeyed key m → IsKeyed key (put_all key xs m)
  unfolding put_all
  put_all-IsKeyed [] m h = h
  put_all-IsKeyed (x ∷ xs) m h = put_all-IsKeyed xs (put (key x) x m) (put-IsKeyed key x m h)

  pub length-put_all-le :
      (xs : List A) (m : Map K A) → length (put_all key xs m) ≤ length xs + length m
  unfolding put_all
  length-put_all-le [] m = omega arith
  length-put_all-le (x ∷ xs) m =
      omega (arith, length-put_all-le xs (put (key x) x m), length-put-le (key x) x m)

  pub find-put_all :
      (k : K) (xs : List A) (m : Map K A)
      → Distinct key xs
      → find k (put_all key xs m) ≡ (elim (find_by key k xs) [ none ↦ find k m | some x ↦ some x ])
  unfolding put_all find_by
  find-put_all k [] m d = refl
  find-put_all k (x ∷ xs) m d = ground (
    arith,
    find-put_all k xs (put (key x) x m) d.1,
    find-put (key x) k x m,
    e.eq_iff (key x) k,
    find_by-Absent key (key x) xs d.0,
  )
