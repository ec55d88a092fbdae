-- ===== src/Replication/Delta/Components.antt =====
-- The components of one object: a delta between two lists, applied to the first, gives the second.
use cube_core.Base.{
  ℕ, ◌+◌, ◌≤◌, ◌≡◌, refl, sym, ap, ◌∙◌, ◌⊎◌, inl, inr, false, List, [], ◌∷◌, map, Option, none,
  some, length, ltb, ◌==◌, if◌then◌else◌, All, arith, Bool-cases,
}
use cube_core.Base.Results.{ok}
use cube_core.Base.Keys.{nat_key}
use cube_core.Base.Maps.{
  Map, find, put, delete, find-put, find-delete, length-put-le, length-delete-le,
}
use cube_core.Base.Ordered.{
  find_by-values, values-Distinct, length-put_all-le, Ascending-ext, find-put_all, put_all-IsKeyed,
  values, put_all, IsKeyed, put-IsKeyed, delete-IsKeyed,
}
use cube_core.Base.Sorting.{
  find_by-sort_by, sort_by-Ascending, Ascending-Distinct, find_by-Above, Above-trans, find_by,
  Above, Ascending,
}
use cube_core.Base.Bytes.{bytes_equal_iff}
use cube_core.Replication.Types.{
  Limits, ComponentState, ComponentDelta, component_set, component_remove,
}
use cube_core.Replication.Snapshot.{sort_components}
use cube_core.Replication.Snapshot.Checks.{FitsComponent}
use cube_core.Replication.Delta.{
  set_component_delta, remove_component_delta, component_changed, diff_components, component_of,
  apply_component, apply_components, apply_component_deltas,
}

abbrev pub type_of : ComponentState → ℕ
type_of c = c.type_id

-- What one delta makes of the component under a type.
abbrev patch : ℕ → Option ComponentState → ComponentDelta → Option ComponentState
patch k o d =
    if d.type_id == k
    then (if d.operation == component_set then some (component_of d) else none)
    else o

track : ℕ → Option ComponentState → List ComponentDelta → Option ComponentState
track k o [] = o
track k o (d ∷ ds) = track k (patch k o d) ds

-- A delta that cannot be refused but for the number of components.
abbrev FitsDelta : Limits → ComponentDelta → Type 0
FitsDelta l d =
    ((d.type_id == 0) ≡ false)
    × (((d.operation ≡ component_set)
          × ((d.schema_version == 0) ≡ false)
          × (length d.bytes ≤ l.max_component_bytes))
        ⊎ (d.operation ≡ component_remove))

sets : List ComponentDelta → ℕ
sets [] = 0
sets (d ∷ ds) = if d.operation == component_set then 1 + sets ds else sets ds

step_lem :
    (l : Limits) (m : Map ℕ ComponentState) (d : ComponentDelta)
    → FitsDelta l d
    → IsKeyed type_of m
    → length m + sets (d ∷ []) ≤ l.max_components_per_object
    → (m' : Map ℕ ComponentState) × (apply_component l m d ≡ ok m')
      × IsKeyed type_of m'
      × (length m' ≤ length m + sets (d ∷ []))
      × ((k : ℕ) → find k m' ≡ patch k (find k m) d)
unfolding apply_component sets
step_lem l m d (typed, inl (op, versioned, sized)) keyed room = (
  put d.type_id (component_of d) m,
  ground (arith, length-put-le d.type_id (component_of d) m),
  put-IsKeyed type_of (component_of d) m keyed,
  ground (arith, length-put-le d.type_id (component_of d) m),
  λ k. ground (arith, find-put d.type_id k (component_of d) m),
)
step_lem l m d (typed, inr op) keyed room = (
  delete d.type_id m,
  ground (arith, length-delete-le d.type_id m),
  delete-IsKeyed type_of d.type_id m keyed,
  ground (arith, length-delete-le d.type_id m),
  λ k. ground (arith, find-delete d.type_id k m),
)

-- Deltas that fit are all applied, and what stands under a type is what they make of it in turn.
apply_components_lem :
    (l : Limits) (m : Map ℕ ComponentState) (ds : List ComponentDelta)
    → All (FitsDelta l) ds
    → IsKeyed type_of m
    → length m + sets ds ≤ l.max_components_per_object
    → (m' : Map ℕ ComponentState) × (apply_components l m ds ≡ ok m')
      × IsKeyed type_of m'
      × ((k : ℕ) → find k m' ≡ track k (find k m) ds)
unfolding apply_components track sets
apply_components_lem l m [] fits keyed room = (m, refl, keyed, λ k. refl)
apply_components_lem l m (d ∷ ds) fits keyed room =
    let s = step_lem l m d fits.0 keyed (ground arith) in
    let r = apply_components_lem l s.0 ds fits.1 s.2 (ground arith) in
    (r.0, rw s.1 r.1, r.2, λ k. r.3 k ∙ ap (λ o. track k o ds) (s.4 k))

diff_components-FitsDelta :
    (l : Limits) (bs cs : List ComponentState)
    → All (FitsComponent l) bs
    → All (FitsComponent l) cs
    → All (FitsDelta l) (diff_components bs cs)
unfolding diff_components
diff_components-FitsDelta l [] [] hb hc = tt
diff_components-FitsDelta l [] (c ∷ cs) hb hc = (
  (hc.0.typed, inl (refl, hc.0.versioned, hc.0.sized)),
  diff_components-FitsDelta l [] cs hb hc.1,
)
diff_components-FitsDelta l (b ∷ bs) [] hb hc =
    ((hb.0.typed, inr refl), diff_components-FitsDelta l bs [] hb.1 hc)
diff_components-FitsDelta l (b ∷ bs) (c ∷ cs) hb hc =
    let removed : FitsDelta l (remove_component_delta b) = (hb.0.typed, inr refl) in
    let stored : FitsDelta l (set_component_delta c) =
      (hc.0.typed, inl (refl, hc.0.versioned, hc.0.sized)) in
    let r1 = diff_components-FitsDelta l bs (c ∷ cs) hb.1 hc in
    let r2 = diff_components-FitsDelta l (b ∷ bs) cs hb hc.1 in
    let r3 = diff_components-FitsDelta l bs cs hb.1 hc.1 in
    elim (Bool-cases (ltb b.type_id c.type_id)) [
      | inl x ↦ rw (x, diff_components) (removed, r1)
      | inr x ↦ elim (Bool-cases (ltb c.type_id b.type_id)) [
        | inl y ↦ rw (x, y, diff_components) (stored, r2)
        | inr y ↦ elim (Bool-cases (component_changed b c)) [
          | inl z ↦ rw (x, y, z, diff_components) (stored, r3)
          | inr z ↦ rw (x, y, z, diff_components) r3
        ]
      ]
    ]

sets-diff_components-le : (bs cs : List ComponentState) → sets (diff_components bs cs) ≤ length cs
unfolding diff_components sets
sets-diff_components-le [] [] = omega arith
sets-diff_components-le [] (c ∷ cs) = ground (arith, sets-diff_components-le [] cs)
sets-diff_components-le (b ∷ bs) [] = ground (arith, sets-diff_components-le bs [])
sets-diff_components-le (b ∷ bs) (c ∷ cs) = ground (
  arith,
  sets-diff_components-le bs (c ∷ cs),
  sets-diff_components-le (b ∷ bs) cs,
  sets-diff_components-le bs cs,
)

-- A type below both lists is not touched.
track-below :
    (k : ℕ) (o : Option ComponentState) (bs cs : List ComponentState)
    → Above type_of k bs
    → Above type_of k cs
    → track k o (diff_components bs cs) ≡ o
unfolding diff_components track
track-below k o [] [] hb hc = refl
track-below k o [] (c ∷ cs) hb hc = ground (arith, track-below k o [] cs hb hc.1)
track-below k o (b ∷ bs) [] hb hc = ground (arith, track-below k o bs [] hb.1 hc)
track-below k o (b ∷ bs) (c ∷ cs) hb hc = ground (
  arith,
  track-below k o bs (c ∷ cs) hb.1 hc,
  track-below k o (b ∷ bs) cs hb hc.1,
  track-below k o bs cs hb.1 hc.1,
)

unchanged : (b c : ComponentState) → b.type_id ≡ c.type_id → component_changed b c ≡ false → b ≡ c
unfolding component_changed
unchanged b c t h = ground (arith, bytes_equal_iff b.bytes c.bytes)

track-diff_components :
    (k : ℕ) (bs cs : List ComponentState)
    → Ascending type_of bs
    → Ascending type_of cs
    → track k (find_by type_of k bs) (diff_components bs cs) ≡ find_by type_of k cs
unfolding diff_components track find_by
track-diff_components k [] [] hb hc = refl
track-diff_components k [] (c ∷ cs) hb hc =
    ground (arith, track-diff_components k [] cs hb hc.1, track-below k (some c) [] cs tt)
track-diff_components k (b ∷ bs) [] hb hc =
    ground (arith, track-diff_components k bs [] hb.1 hc, track-below k none bs [])
track-diff_components k (b ∷ bs) (c ∷ cs) hb hc = elim (Bool-cases (ltb b.type_id c.type_id)) [
  | inl x ↦
      let above : Above type_of b.type_id (c ∷ cs) =
        (x, Above-trans type_of b.type_id c.type_id cs x hc.0) in
      ground (
        arith,
        track-diff_components k bs (c ∷ cs) hb.1 hc,
        track-below b.type_id none bs (c ∷ cs) hb.0 above,
        find_by-Above type_of b.type_id cs above.1,
      )
  | inr x ↦ elim (Bool-cases (ltb c.type_id b.type_id)) [
    | inl y ↦
        let above : Above type_of c.type_id (b ∷ bs) =
          (y, Above-trans type_of c.type_id b.type_id bs y hb.0) in
        ground (
          arith,
          track-diff_components k (b ∷ bs) cs hb hc.1,
          track-below c.type_id (some c) (b ∷ bs) cs above hc.0,
        )
    | inr y ↦
        let same : c.type_id ≡ b.type_id = ground arith in
        let above : Above type_of c.type_id bs = rw same hb.0 in
        ground (
          arith,
          track-diff_components k bs cs hb.1 hc.1,
          track-below c.type_id (some c) bs cs above hc.0,
          unchanged b c,
        )
  ]
]

find-put_all_nil :
    (k : ℕ) (bs : List ComponentState)
    → Ascending type_of bs
    → find k (put_all type_of bs []) ≡ find_by type_of k bs
unfolding find
find-put_all_nil k bs a =
    find-put_all type_of k bs [] (Ascending-Distinct type_of bs a)
    ∙ some_or_none (find_by type_of k bs)
  where
    some_or_none : (o : Option ComponentState) → (elim o [ none ↦ none | some x ↦ some x ]) ≡ o
    some_or_none none = refl
    some_or_none (some x) = refl

-- The difference of two sorted component lists, applied to the first, gives the second once it is
-- sorted, if the object has room for both.
pub apply_component_deltas-diff_components :
    (l : Limits) (bs cs : List ComponentState)
    → All (FitsComponent l) bs
    → All (FitsComponent l) cs
    → Ascending (λ (c : ComponentState). c.type_id) bs
    → Ascending (λ (c : ComponentState). c.type_id) cs
    → length bs + length cs ≤ l.max_components_per_object
    → (out : List ComponentState) × (apply_component_deltas bs (diff_components bs cs) l ≡ ok out)
      × (sort_components out ≡ cs)
unfolding apply_component_deltas
apply_component_deltas-diff_components l bs cs fb fc ab ac room =
    let start : Map ℕ ComponentState = put_all type_of bs [] in
    let r =
      apply_components_lem l start (diff_components bs cs) (diff_components-FitsDelta l bs cs fb fc)
        (put_all-IsKeyed type_of bs [] tt)
        (omega (arith, length-put_all-le type_of bs [], sets-diff_components-le bs cs)) in
    (
      values r.0,
      rw r.1,
      Ascending-ext type_of (sort_components (values r.0)) cs
          (sort_by-Ascending type_of (values r.0) (values-Distinct type_of r.0 r.2)) ac
          (λ k.
            find_by-sort_by type_of k (values r.0)
            ∙ find_by-values type_of k r.0 r.2
            ∙ r.3 k
            ∙ ap (λ o. track k o (diff_components bs cs)) (find-put_all_nil k bs ab)
            ∙ track-diff_components k bs cs ab ac),
    )

-- An empty difference means that the lists are the same.
pub diff_components-nil :
    (bs cs : List ComponentState)
    → Ascending (λ (c : ComponentState). c.type_id) bs
    → Ascending (λ (c : ComponentState). c.type_id) cs
    → diff_components bs cs ≡ []
    → bs ≡ cs
unfolding track
diff_components-nil bs cs ab ac h =
    Ascending-ext type_of bs cs ab ac
      (λ k. ap (track k (find_by type_of k bs)) (sym h) ∙ track-diff_components k bs cs ab ac)

pub map_set-diff_components :
    (cs : List ComponentState) → map set_component_delta cs ≡ diff_components [] cs
unfolding diff_components
map_set-diff_components [] = refl
map_set-diff_components (c ∷ cs) = ap (◌∷◌ (set_component_delta c)) (map_set-diff_components cs)
