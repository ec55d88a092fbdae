-- ===== src/Entity/Ids/Generator/Invariant.antt =====
-- What holds between the steps of the goroutines, and what each move keeps.
use cube_core.Base.{
  subst, if_cases, ap, if_both, ℕ, ◌+◌, ◌*◌, ◌^◌, ◌≤◌, ◌<◌, ◌≡◌, refl, Bool, true, false, List, [],
  ◌∷◌, ◌==◌, arith,
}
use cube_core.Base.Results.{Result, ok}
use cube_core.Entity.Ids.Generator.{
  GenError, block_size, max_block_no, Pc, top, loaded_next, loaded_both, rotates, acquired, granted,
  stored_next, finishes, waits, World, block_start, move_to,
}

-- Descending from below a bound, and positive, so without a repetition.
abbrev pub Below : ℕ → List ℕ → Type 0
Below bound [] = Unit
Below bound (x ∷ xs) = (0 < x) × (x < bound) × Below x xs

-- The part of `rotateBlock` that one goroutine at a time is in.
abbrev pub in_rotation : Pc → Bool
in_rotation top = false
in_rotation (loaded_next n) = false
in_rotation (loaded_both n e) = false
in_rotation rotates = false
in_rotation acquired = true
in_rotation (granted block) = true
in_rotation (stored_next block) = true
in_rotation finishes = true
in_rotation waits = false

module _ (acquire : ℕ → Result GenError ℕ)
    (growing : (n m a b : ℕ) → n < m → acquire n ≡ ok a → acquire m ≡ ok b → a < b) where
  -- Every later block lies above this one.
  abbrev pub Newest : ℕ → ℕ → Type 0
  Newest calls block = (n b : ℕ) → calls ≤ n → acquire n ≡ ok b → block < b

  -- What a goroutine knows of `next`, `end` and the calls of the allocator.
  abbrev pub Knows : ℕ → ℕ → ℕ → Pc → Type 0
  Knows next end calls top = Unit
  Knows next end calls (loaded_next n) = Unit
  Knows next end calls (loaded_both n e) = e ≤ end
  Knows next end calls rotates = Unit
  Knows next end calls acquired = next ≤ end
  Knows next end calls (granted block) =
      (next ≤ end) × (end ≤ block * block_size) × (block ≤ max_block_no) × Newest calls block
  Knows next end calls (stored_next block) =
      (next ≡ block_start block)
      × (end ≤ block * block_size)
      × (block ≤ max_block_no)
      × Newest calls block
  Knows next end calls finishes = next ≤ end
  Knows next end calls waits = Unit

  Knows-issue :
      (next end calls : ℕ) (pc : Pc)
      → next < end
      → Knows next end calls pc
      → Knows (next + 1) end calls pc
  unfolding block_start
  Knows-issue next end calls top lt k = tt
  Knows-issue next end calls (loaded_next n) lt k = tt
  Knows-issue next end calls (loaded_both n e) lt k = k
  Knows-issue next end calls rotates lt k = tt
  Knows-issue next end calls acquired lt k = omega (arith, lt)
  Knows-issue next end calls (granted block) lt k = (omega (arith, lt), k.1, k.2, k.3)
  Knows-issue next end calls (stored_next block) lt k = absurd (ground (arith, lt, k.0, k.1))
  Knows-issue next end calls finishes lt k = omega (arith, lt)
  Knows-issue next end calls waits lt k = tt

  Knows-outside :
      (next end calls next' end' calls' : ℕ) (pc : Pc)
      → in_rotation pc ≡ false
      → end ≤ end'
      → Knows next end calls pc
      → Knows next' end' calls' pc
  Knows-outside next end calls next' end' calls' top out le k = tt
  Knows-outside next end calls next' end' calls' (loaded_next n) out le k = tt
  Knows-outside next end calls next' end' calls' (loaded_both n e) out le k = omega (arith, le, k)
  Knows-outside next end calls next' end' calls' rotates out le k = tt
  Knows-outside next end calls next' end' calls' acquired out le k = absurd (cc out)
  Knows-outside next end calls next' end' calls' (granted block) out le k = absurd (cc out)
  Knows-outside next end calls next' end' calls' (stored_next block) out le k = absurd (cc out)
  Knows-outside next end calls next' end' calls' finishes out le k = absurd (cc out)
  Knows-outside next end calls next' end' calls' waits out le k = tt

  pub record IsWorld (w : World) : Type 0 where
    pub issued_below : Below w.next w.issued
    pub positive : 0 < w.next
    pub bounded : w.end ≤ 2 ^ 51
    pub next_bounded : w.next ≤ 2 ^ 51
    pub knows : (t : ℕ) → Knows w.next w.end w.calls (w.threads t)
    pub alone :
        (t u : ℕ) → in_rotation (w.threads t) ≡ true → in_rotation (w.threads u) ≡ true → t ≡ u
    pub flagged : (t : ℕ) → in_rotation (w.threads t) ≡ true → w.rotating ≡ true
    pub at_rest : ((t : ℕ) → in_rotation (w.threads t) ≡ false) → w.next ≤ w.end
    pub future : (n b : ℕ) → w.calls ≤ n → acquire n ≡ ok b → w.end ≤ b * block_size

  -- A goroutine moves and the words stay.
  pub move-IsWorld :
      (w : World) (t : ℕ) (pc : Pc)
      → IsWorld w
      → Knows w.next w.end w.calls pc
      → (in_rotation pc ≡ true → in_rotation (w.threads t) ≡ true)
      → (in_rotation (w.threads t) ≡ true → in_rotation pc ≡ true)
      → IsWorld (move_to t pc w)
  unfolding move_to
  move-IsWorld w t pc v k inside outside = record {
    issued_below = v.issued_below;
    positive = v.positive;
    bounded = v.bounded;
    next_bounded = v.next_bounded;
    knows = λ u. if_both (Knows w.next w.end w.calls) (u == t) k (v.knows u);
    alone = λ u x a b. ground (arith, v.alone u x, v.alone t x, v.alone u t, inside);
    flagged = λ u a. ground (arith, v.flagged u, v.flagged t, inside);
    at_rest = λ none_in.
        v.at_rest λ u. ground (arith, none_in u, none_in t, outside, ap w.threads {x = u} {y = t});
    future = v.future;
  }

  -- The goroutine that rotates changes the words and goes on.
  pub advance-IsWorld :
      (w : World) (t : ℕ) (pc : Pc) (next' end' calls' : ℕ)
      → IsWorld w
      → in_rotation (w.threads t) ≡ true
      → in_rotation pc ≡ true
      → Below next' w.issued
      → 0 < next'
      → next' ≤ 2 ^ 51
      → end' ≤ 2 ^ 51
      → w.end ≤ end'
      → Knows next' end' calls' pc
      → ((n b : ℕ) → calls' ≤ n → acquire n ≡ ok b → end' ≤ b * block_size)
      → IsWorld (move_to t pc (record w { next = next'; end = end'; calls = calls' }))
  unfolding move_to
  advance-IsWorld w t pc next' end' calls' v was is below some_next next_bound bound grown k later =
      record {
        issued_below = below;
        positive = some_next;
        bounded = bound;
        next_bounded = next_bound;
        knows = λ u.
            if_cases (Knows next' end' calls') (u == t) (λ same. k)
              λ other.
                Knows-outside w.next w.end w.calls next' end' calls' (w.threads u)
                  (ground (arith, v.alone u t, was, other)) grown (v.knows u);
        alone = λ u x a b. ground (arith, v.alone u x, v.alone t x, v.alone u t, was);
        flagged = λ u a. v.flagged t was;
        at_rest = λ none_in. absurd (ground (arith, none_in t, is));
        future = later;
      }

  pub enter-IsWorld :
      (w : World) (t : ℕ)
      → IsWorld w
      → w.rotating ≡ false
      → IsWorld (move_to t acquired (record w { rotating = true }))
  unfolding move_to
  enter-IsWorld w t v free =
      let nobody : (u : ℕ) → in_rotation (w.threads u) ≡ false =
        λ u. ground (arith, v.flagged u, free) in
      record {
        issued_below = v.issued_below;
        positive = v.positive;
        bounded = v.bounded;
        next_bounded = v.next_bounded;
        knows = λ u. if_both (Knows w.next w.end w.calls) (u == t) (v.at_rest nobody) (v.knows u);
        alone = λ u x a b. ground (arith, nobody u, nobody x);
        flagged = λ u a. refl;
        at_rest = λ none_in. v.at_rest nobody;
        future = v.future;
      }

  pub leave-IsWorld :
      (w : World) (t : ℕ)
      → IsWorld w
      → w.threads t ≡ finishes
      → IsWorld (move_to t top (record w { rotating = false }))
  unfolding move_to
  leave-IsWorld w t v at =
      let was : in_rotation (w.threads t) ≡ true = ap in_rotation at in
      let k : w.next ≤ w.end = subst (Knows w.next w.end w.calls) at (v.knows t) in
      record {
        issued_below = v.issued_below;
        positive = v.positive;
        bounded = v.bounded;
        next_bounded = v.next_bounded;
        knows = λ u. if_both (Knows w.next w.end w.calls) (u == t) tt (v.knows u);
        alone = λ u x a b. ground (arith, v.alone u x);
        flagged = λ u a. absurd (ground (arith, v.alone u t, was));
        at_rest = λ none_in. k;
        future = v.future;
      }

  pub issue-IsWorld :
      (w : World) (t n e : ℕ)
      → IsWorld w
      → w.threads t ≡ loaded_both n e
      → n < e
      → w.next ≡ n
      → IsWorld (move_to t top (record w { next = n + 1; issued = n ∷ w.issued }))
  unfolding move_to
  issue-IsWorld w t n e v at lt same =
      let was : in_rotation (w.threads t) ≡ false = ap in_rotation at in
      let k : e ≤ w.end = subst (Knows w.next w.end w.calls) at (v.knows t) in
      let room : w.next < w.end = omega (arith, k, lt, same) in
      record {
        issued_below = (
          omega (arith, v.positive, same),
          omega arith,
          subst (λ x. Below x w.issued) same v.issued_below,
        );
        positive = omega arith;
        bounded = v.bounded;
        next_bounded = omega (arith, room, v.bounded, same);
        knows = λ u. if_both (Knows (n + 1) w.end w.calls) (u == t) tt (
            subst (λ x. Knows (x + 1) w.end w.calls (w.threads u)) same
              (Knows-issue w.next w.end w.calls (w.threads u) room (v.knows u)));
        alone = λ u x a b. ground (arith, v.alone u x);
        flagged = λ u a. ground (arith, v.flagged u);
        at_rest = λ none_in. omega (arith, room, same);
        future = v.future;
      }
