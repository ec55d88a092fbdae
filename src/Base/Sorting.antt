-- ===== src/Base/Sorting.antt =====
-- Sorting records by a key (`sort.Slice` with a strict order, and the hand-written insertion
-- sorts), the search of a list by key, and lists in strictly ascending order of their keys.
use mathlib.Core.Path.{◌≡◌, refl, ap, ◌∙◌}
use mathlib.Core.Logic.{inl, inr}
use mathlib.Core.Bool.{true, false}
use mathlib.Core.Option.{Option, none, some}
use mathlib.Core.List.{List, [], ◌∷◌, map}
use native.Mathlib.Omega.{arith}
use cube_core.Base.Tests.{if◌then◌else◌, Bool-cases}
use cube_core.Base.Lists.{length, All, All-map}
use cube_core.Base.Keys.{not_lt_trans, lt_of_lt_of_not_lt, lt_of_apart, lt_asymm, Key, lt-ne, gt-ne}

module _ {A K : Type 0} ⦃e : Key K⦄ where
  -- The first record with the key.
  unfoldable pub find_by : (A → K) → K → List A → Option A
  find_by key k [] = none
  find_by key k (x ∷ xs) = if e.eq (key x) k then some x else find_by key k xs

  unfoldable pub insert_by : (A → K) → A → List A → List A
  insert_by key x [] = x ∷ []
  insert_by key x (y ∷ ys) = if e.lt (key y) (key x) then y ∷ insert_by key x ys else x ∷ y ∷ ys

  unfoldable pub sort_by : (A → K) → List A → List A
  unfolding insert_by
  sort_by key [] = []
  sort_by key (x ∷ xs) = insert_by key x (sort_by key xs)

  -- Every key lies above `k`.
  abbrev pub Above : (A → K) → K → List A → Type 0
  Above key k = All (λ y. e.lt k (key y) ≡ true)

  abbrev pub Absent : (A → K) → K → List A → Type 0
  Absent key k = All (λ y. e.eq k (key y) ≡ false)

  -- Strictly ascending, so without a repeated key.
  abbrev pub Ascending : (A → K) → List A → Type 0
  Ascending key [] = Unit
  Ascending key (x ∷ xs) = Above key (key x) xs × Ascending key xs

  abbrev pub Distinct : (A → K) → List A → Type 0
  Distinct key [] = Unit
  Distinct key (x ∷ xs) = Absent key (key x) xs × Distinct key xs

module _ {A K : Type 0} ⦃e : Key K⦄ (key : A → K) where
  pub find_by-Above : (k : K) (xs : List A) → Above key k xs → find_by key k xs ≡ none
  unfolding find_by
  find_by-Above k [] h = refl
  find_by-Above k (x ∷ xs) h = rw (gt-ne e k (key x) h.0) (find_by-Above k xs h.1)

  pub find_by-Absent : (k : K) (xs : List A) → Absent key k xs → find_by key k xs ≡ none
  unfolding find_by
  find_by-Absent k [] h = refl
  find_by-Absent k (x ∷ xs) h =
      ground (arith, e.eq_iff (key x) k, e.eq_iff k (key x), find_by-Absent k xs h.1)

  pub Above-trans : (j k : K) (xs : List A) → e.lt j k ≡ true → Above key k xs → Above key j xs
  Above-trans j k [] h a = tt
  Above-trans j k (x ∷ xs) h a = (e.lt_trans j k (key x) h a.0, Above-trans j k xs h a.1)

  pub find_by-insert_by :
      (k : K) (x : A) (ys : List A)
      → find_by key k (insert_by key x ys) ≡ (if e.eq (key x) k then some x else find_by key k ys)
  unfolding find_by insert_by
  find_by-insert_by k x [] = refl
  find_by-insert_by k x (y ∷ ys) =
      ground
        (arith, find_by-insert_by k x ys, e.eq_iff (key x) k, e.eq_iff (key y) k, e.lt_irrefl k)

  pub find_by-sort_by : (k : K) (xs : List A) → find_by key k (sort_by key xs) ≡ find_by key k xs
  unfolding find_by sort_by
  find_by-sort_by k [] = refl
  find_by-sort_by k (x ∷ xs) =
      find_by-insert_by k x (sort_by key xs)
      ∙ ap (λ r. if e.eq (key x) k then some x else r) (find_by-sort_by k xs)

  pub length-insert_by : (x : A) (ys : List A) → length (insert_by key x ys) ≡ length (x ∷ ys)
  unfolding insert_by
  length-insert_by x [] = refl
  length-insert_by x (y ∷ ys) = ground (arith, length-insert_by x ys)

  pub length-sort_by : (xs : List A) → length (sort_by key xs) ≡ length xs
  unfolding sort_by
  length-sort_by [] = refl
  length-sort_by (x ∷ xs) = omega (arith, length-insert_by x (sort_by key xs), length-sort_by xs)

  -- `P` of every entry survives a sort.
  pub All-insert_by {κ} :
      (P : A → Type κ) (x : A) (ys : List A) → P x → All P ys → All P (insert_by key x ys)
  unfolding insert_by
  All-insert_by P x [] px h = (px, tt)
  All-insert_by P x (y ∷ ys) px h = elim (Bool-cases (e.lt (key y) (key x))) [
    | inl c ↦ rw c (h.0, All-insert_by P x ys px h.1)
    | inr c ↦ rw c (px, h)
  ]

  pub All-sort_by {κ} : (P : A → Type κ) (xs : List A) → All P xs → All P (sort_by key xs)
  unfolding sort_by
  All-sort_by P [] h = tt
  All-sort_by P (x ∷ xs) h = All-insert_by P x (sort_by key xs) h.0 (All-sort_by P xs h.1)

  insert_by-Ascending :
      (x : A) (ys : List A)
      → Absent key (key x) ys
      → Ascending key ys
      → Ascending key (insert_by key x ys)
  unfolding insert_by
  insert_by-Ascending x [] n a = (tt, tt)
  insert_by-Ascending x (y ∷ ys) n a = elim (Bool-cases (e.lt (key y) (key x))) [
    | inl c ↦ rw c (
      All-insert_by (λ z. e.lt (key y) (key z) ≡ true) x ys c a.0,
      insert_by-Ascending x ys n.1 a.1,
    )
    | inr c ↦
        let above : e.lt (key x) (key y) ≡ true =
          ground (arith, e.lt_connex (key x) (key y), e.eq_iff (key x) (key y)) in
        rw c ((above, Above-trans (key x) (key y) ys above a.0), a)
  ]

  pub sort_by-Ascending : (xs : List A) → Distinct key xs → Ascending key (sort_by key xs)
  unfolding sort_by
  sort_by-Ascending [] d = tt
  sort_by-Ascending (x ∷ xs) d =
      insert_by-Ascending x (sort_by key xs)
        (All-sort_by (λ y. e.eq (key x) (key y) ≡ false) xs d.0) (sort_by-Ascending xs d.1)

  pub Ascending-Distinct : (xs : List A) → Ascending key xs → Distinct key xs
  Ascending-Distinct [] a = tt
  Ascending-Distinct (x ∷ xs) a = (go xs a.0, Ascending-Distinct xs a.1)
    where
      go : (ys : List A) → Above key (key x) ys → Absent key (key x) ys
      go [] h = tt
      go (y ∷ ys) h = (lt-ne e (key x) (key y) h.0, go ys h.1)

  insert_by-map :
      (f : A → A)
      → ((a : A) → key (f a) ≡ key a)
      → (x : A) (ys : List A) → insert_by key (f x) (map f ys) ≡ map f (insert_by key x ys)
  unfolding insert_by
  insert_by-map f h x [] = refl
  insert_by-map f h x (y ∷ ys) = ground (arith, h x, h y, insert_by-map f h x ys)

  -- A change that keeps the keys commutes with the sort.
  pub sort_by-map :
      (f : A → A)
      → ((a : A) → key (f a) ≡ key a)
      → (xs : List A) → sort_by key (map f xs) ≡ map f (sort_by key xs)
  unfolding sort_by
  sort_by-map f h [] = refl
  sort_by-map f h (x ∷ xs) =
      ap (insert_by key (f x)) (sort_by-map f h xs) ∙ insert_by-map f h x (sort_by key xs)

-- The order that a sort gives where keys repeat.
module _ {A K : Type 0} ⦃e : Key K⦄ (key : A → K) where
  abbrev pub Sorted : List A → Type 0
  Sorted [] = Unit
  Sorted (x ∷ xs) = All (λ y. e.lt (key y) (key x) ≡ false) xs × Sorted xs

  -- No record has the key of the one before it, nor the first the key `k`.
  abbrev pub Apart : K → List A → Type 0
  Apart k [] = Unit
  Apart k (x ∷ xs) = (e.eq (key x) k ≡ false) × Apart (key x) xs

module _ {A K : Type 0} ⦃e : Key K⦄ (key : A → K) where
  insert_by-Sorted : (x : A) (ys : List A) → Sorted key ys → Sorted key (insert_by key x ys)
  unfolding insert_by
  insert_by-Sorted x [] s = (tt, tt)
  insert_by-Sorted x (y ∷ ys) s = elim (Bool-cases (e.lt (key y) (key x))) [
    | inl c ↦ rw c (
      All-insert_by key (λ z. e.lt (key z) (key y) ≡ false) x ys (lt_asymm e (key y) (key x) c) s.0,
      insert_by-Sorted x ys s.1,
    )
    | inr c ↦ rw c (
      (
        c,
        All-map (λ z. e.lt (key z) (key y) ≡ false) (λ z. e.lt (key z) (key x) ≡ false)
            (λ z. not_lt_trans e (key x) (key y) (key z) c) ys s.0,
      ),
      s,
    )
  ]

  pub sort_by-Sorted : (xs : List A) → Sorted key (sort_by key xs)
  unfolding sort_by
  sort_by-Sorted [] = tt
  sort_by-Sorted (x ∷ xs) = insert_by-Sorted x (sort_by key xs) (sort_by-Sorted xs)

  insert_by-front :
      (x : A) (ys : List A)
      → All (λ y. e.lt (key y) (key x) ≡ false) ys
      → insert_by key x ys ≡ x ∷ ys
  unfolding insert_by
  insert_by-front x [] a = refl
  insert_by-front x (y ∷ ys) a = rw a.0

  -- A list in order stays as it is.
  pub sort_by_id : (xs : List A) → Sorted key xs → sort_by key xs ≡ xs
  unfolding sort_by
  sort_by_id [] a = refl
  sort_by_id (x ∷ xs) a = rw (sort_by_id xs a.1) (insert_by-front x xs a.0)

  pub Ascending-Sorted : (xs : List A) → Ascending key xs → Sorted key xs
  Ascending-Sorted [] a = tt
  Ascending-Sorted (x ∷ xs) a = (
    All-map (λ y. e.lt (key x) (key y) ≡ true) (λ y. e.lt (key y) (key x) ≡ false)
        (λ y. lt_asymm e (key x) (key y)) xs a.0,
    Ascending-Sorted xs a.1,
  )

  pub Sorted-Ascending :
      (x : A) (xs : List A) → Sorted key (x ∷ xs) → Apart key (key x) xs → Ascending key (x ∷ xs)
  Sorted-Ascending x [] s a = (tt, tt)
  Sorted-Ascending x (y ∷ ys) s a =
      let below = lt_of_apart e (key x) (key y) s.0.0 a.0 in
      (
        (
          below,
          All-map (λ z. e.lt (key z) (key y) ≡ false) (λ z. e.lt (key x) (key z) ≡ true)
              (λ z. lt_of_lt_of_not_lt e (key x) (key y) (key z) below) ys s.1.0,
        ),
        Sorted-Ascending y ys s.1 a.1,
      )
