-- ===== src/Replication/Schema/Listing.antt =====
-- The schemas of a registry in the order of their identifiers.
use cube_core.Base.Keys.{nat_key}
use cube_core.Base.{
  false, ◌==◌, if◌then◌else◌, refl, inr, inl, some, none, Bool-cases, All-map, ◌≤◌, ℕ, ◌≡◌, true,
  List, [], ◌∷◌, All, ltb, arith,
}
use cube_core.Base.Sorting.{find_by-Absent, find_by, Ascending, Absent, Distinct}
use cube_core.Replication.Schema.{ComponentSchema, sink, sort_from, reverse_onto, sort_schemas}

abbrev id_of : ComponentSchema → ℕ
id_of s = s.type_id

-- Every identifier lies below `n`.
abbrev Below : ℕ → List ComponentSchema → Type 0
Below n = All (λ y. ltb y.type_id n ≡ true)

-- The sorted part of the list, which is kept in reverse.
abbrev Descending : List ComponentSchema → Type 0
Descending [] = Unit
Descending (x ∷ xs) = Below x.type_id xs × Descending xs

Below-trans : (n m : ℕ) (xs : List ComponentSchema) → ltb n m ≡ true → Below n xs → Below m xs
Below-trans n m [] h b = tt
Below-trans n m (x ∷ xs) h b = (ground arith, Below-trans n m xs h b.1)

Below-find_by :
    (n k : ℕ) (xs : List ComponentSchema) → n ≤ k → Below n xs → find_by id_of k xs ≡ none
unfolding find_by
Below-find_by n k [] le b = refl
Below-find_by n k (x ∷ xs) le b = ground (arith, b.0, Below-find_by n k xs le b.1)

sink-Below :
    (n : ℕ) (x : ComponentSchema) (ys : List ComponentSchema)
    → ltb x.type_id n ≡ true
    → Below n ys
    → Below n (sink x ys)
unfolding sink
sink-Below n x [] h b = (h, tt)
sink-Below n x (y ∷ ys) h b = elim (Bool-cases (ltb x.type_id y.type_id)) [
  | inl c ↦ rw c (b.0, sink-Below n x ys h b.1)
  | inr c ↦ rw c (h, b)
]

sink-Descending :
    (x : ComponentSchema) (ys : List ComponentSchema)
    → Absent id_of x.type_id ys
    → Descending ys
    → Descending (sink x ys)
unfolding sink
sink-Descending x [] n d = (tt, tt)
sink-Descending x (y ∷ ys) n d = elim (Bool-cases (ltb x.type_id y.type_id)) [
  | inl c ↦ rw c (sink-Below y.type_id x ys c d.0, sink-Descending x ys n.1 d.1)
  | inr c ↦
      let above : ltb y.type_id x.type_id ≡ true = ground (arith, n.0) in
      rw c ((above, Below-trans y.type_id x.type_id ys above d.0), d)
]

find_by-sink :
    (k : ℕ) (x : ComponentSchema) (ys : List ComponentSchema)
    → find_by id_of k (sink x ys) ≡ (if x.type_id == k then some x else find_by id_of k ys)
unfolding find_by sink
find_by-sink k x [] = refl
find_by-sink k x (y ∷ ys) = ground (arith, find_by-sink k x ys)

Absent-sink :
    (k : ℕ) (x : ComponentSchema) (ys : List ComponentSchema)
    → (k == x.type_id) ≡ false
    → Absent id_of k ys
    → Absent id_of k (sink x ys)
unfolding sink
Absent-sink k x [] h a = (h, tt)
Absent-sink k x (y ∷ ys) h a = elim (Bool-cases (ltb x.type_id y.type_id)) [
  | inl c ↦ rw c (a.0, Absent-sink k x ys h a.1)
  | inr c ↦ rw c (h, a)
]

-- No identifier of `xs` stands in `ys`.
abbrev Disjoint : List ComponentSchema → List ComponentSchema → Type 0
Disjoint [] ys = Unit
Disjoint (x ∷ xs) ys = Absent id_of x.type_id ys × Disjoint xs ys

Disjoint-sink :
    (x : ComponentSchema) (xs ys : List ComponentSchema)
    → Absent id_of x.type_id xs
    → Disjoint xs ys
    → Disjoint xs (sink x ys)
Disjoint-sink x [] ys a d = tt
Disjoint-sink x (z ∷ xs) ys a d =
    (Absent-sink z.type_id x ys (ground (arith, a.0)) d.0, Disjoint-sink x xs ys a.1 d.1)

sort_from-Descending :
    (done xs : List ComponentSchema)
    → Descending done
    → Distinct id_of xs
    → Disjoint xs done
    → Descending (sort_from done xs)
unfolding sort_from
sort_from-Descending done [] d n j = d
sort_from-Descending done (x ∷ xs) d n j =
    sort_from-Descending (sink x done) xs (sink-Descending x done j.0 d) n.1
      (Disjoint-sink x xs done n.0 j.1)

find_by-sort_from :
    (k : ℕ) (done xs : List ComponentSchema)
    → Distinct id_of xs
    → find_by id_of k (sort_from done xs)
      ≡ (elim (find_by id_of k xs) [ none ↦ find_by id_of k done | some x ↦ some x ])
unfolding sort_from find_by
find_by-sort_from k done [] n = refl
find_by-sort_from k done (x ∷ xs) n = ground (
  arith,
  find_by-sort_from k (sink x done) xs n.1,
  find_by-sink k x done,
  find_by-Absent id_of x.type_id xs n.0,
)

reverse_onto-Ascending :
    (xs out : List ComponentSchema)
    → Descending xs
    → Ascending id_of out
    → All (λ y. Below y.type_id xs) out
    → Ascending id_of (reverse_onto xs out)
unfolding reverse_onto
reverse_onto-Ascending [] out d a b = a
reverse_onto-Ascending (x ∷ xs) out d a b =
    reverse_onto-Ascending xs (x ∷ out) d.1 (All-map _ _ (λ y h. h.0) out b, a)
      (d.0, All-map _ _ (λ y h. h.1) out b)

find_by-reverse_onto :
    (k : ℕ) (xs out : List ComponentSchema)
    → Descending xs
    → find_by id_of k (reverse_onto xs out)
      ≡ (elim (find_by id_of k xs) [ none ↦ find_by id_of k out | some x ↦ some x ])
unfolding reverse_onto find_by
find_by-reverse_onto k [] out d = refl
find_by-reverse_onto k (x ∷ xs) out d = ground (
  arith,
  find_by-reverse_onto k xs (x ∷ out) d.1,
  Below-find_by x.type_id x.type_id xs (omega arith) d.0,
)

pub sort_schemas-Ascending :
    (xs : List ComponentSchema)
    → Distinct (λ (s : ComponentSchema). s.type_id) xs
    → Ascending (λ (s : ComponentSchema). s.type_id) (sort_schemas xs)
unfolding sort_schemas
sort_schemas-Ascending xs n =
    reverse_onto-Ascending (sort_from [] xs) [] (sort_from-Descending [] xs tt n (nowhere xs)) tt tt
  where
    nowhere : (ys : List ComponentSchema) → Disjoint ys []
    nowhere [] = tt
    nowhere (y ∷ ys) = (tt, nowhere ys)

pub find_by-sort_schemas :
    (k : ℕ) (xs : List ComponentSchema)
    → Distinct (λ (s : ComponentSchema). s.type_id) xs
    → find_by (λ (s : ComponentSchema). s.type_id) k (sort_schemas xs)
      ≡ find_by (λ (s : ComponentSchema). s.type_id) k xs
unfolding sort_schemas find_by
find_by-sort_schemas k xs n = ground (
  arith,
  find_by-reverse_onto k (sort_from [] xs) [] (sort_from-Descending [] xs tt n (nowhere xs)),
  find_by-sort_from k [] xs n,
)
  where
    nowhere : (ys : List ComponentSchema) → Disjoint ys []
    nowhere [] = tt
    nowhere (y ∷ ys) = (tt, nowhere ys)
