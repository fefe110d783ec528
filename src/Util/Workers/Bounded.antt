-- ===== src/Util/Workers/Bounded.antt =====
-- How many calls run at once, and that the pool comes to its end.
use switchpilot.Prelude.{
  ℕ, zero, suc, ◌+◌, ◌*◌, ◌≤◌, ◌<◌, ◌≡◌, ◌⊎◌, inl, inr, refl, ap, ◌∙◌, Bool, true, false, List, [],
  ◌∷◌, Option, none, some, is_some, get_elem?, ◌++◌, length, length-append, arith,
}
use switchpilot.Util.Workers.{
  Workers, Turn, take_next, settle_at, smaller, remove_at, workers_for, take_from, settle_one, turn,
  for_each_limit,
}

length-remove_at {ℓ} :
    {A : Type ℓ} (i : ℕ) (xs : List A) {x : A}
    → get_elem? xs i ≡ some x
    → suc (length (remove_at i xs)) ≡ length xs
unfolding remove_at
length-remove_at i [] e = absurd (cc)
length-remove_at zero (x ∷ xs) e = refl
length-remove_at (suc i) (x ∷ xs) e = omega (arith, length-remove_at i xs e)

abbrev pub one_if : Bool → ℕ
one_if true = 1
one_if false = 0

-- How many entries of a list pass a test.
unfoldable pub number {ℓ} : {A : Type ℓ} → (A → Bool) → List A → ℕ
number p [] = 0
number p (x ∷ xs) = one_if (p x) + number p xs

number-append {ℓ} :
    {A : Type ℓ} (p : A → Bool) (xs ys : List A) → number p (xs ++ ys) ≡ number p xs + number p ys
unfolding number
number-append p [] ys = omega arith
number-append p (x ∷ xs) ys = omega (arith, number-append p xs ys)

number-one {ℓ} : {A : Type ℓ} (p : A → Bool) (x : A) → number p (x ∷ []) ≡ one_if (p x)
unfolding number
number-one p x = omega arith

number-remove_at {ℓ} :
    {A : Type ℓ} (p : A → Bool) (i : ℕ) (xs : List A) {x : A}
    → get_elem? xs i ≡ some x
    → one_if (p x) + number p (remove_at i xs) ≡ number p xs
unfolding remove_at number
number-remove_at p i [] e = absurd (cc)
number-remove_at p zero (y ∷ xs) {x} e =
    let same : y ≡ x = cc in let b : p y ≡ p x = ap p same in rw b refl
number-remove_at p (suc i) (y ∷ xs) e = omega (arith, number-remove_at p i xs e)

smaller_le : (m n : ℕ) → smaller m n ≤ m
smaller_le m n = ground arith

smaller_pos : (m n : ℕ) → 0 < m → 0 < n → 0 < smaller m n
smaller_pos m n h k = ground (arith, h, k)

module _ {ℓ} {A : Type ℓ} where
  -- The steps that are left: two for an item that waits, one for an item whose call runs.
  abbrev pub steps_left : Workers A → ℕ
  steps_left w = 2 * length w.queue + length w.active

  -- Whether a turn does something: a take needs a free worker and an item, an end a running call.
  abbrev pub may_take : ℕ → List A → Bool
  may_take zero queue = false
  may_take (suc free) [] = false
  may_take (suc free) (x ∷ queue) = true

  abbrev pub counts : Turn → Workers A → Bool
  counts take_next w = may_take w.free w.queue
  counts (settle_at i ok) w = is_some (get_elem? w.active i)

  unfoldable pub counted : List Turn → Workers A → ℕ
  counted [] w = 0
  counted (t ∷ turns) w = one_if (counts t w) + counted turns (turn t w)

  record Kept (w v : Workers A) (b : Bool) : Type 0 where
    seats : v.free + length v.active ≡ w.free + length w.active
    left : one_if b + steps_left v ≡ steps_left w
    whole :
        length v.settled + length v.active + length v.queue
        ≡ length w.settled + length w.active + length w.queue

  take_from-Kept :
      (free : ℕ) (queue : List A) (w : Workers A)
      → w.free ≡ free
      → w.queue ≡ queue
      → Kept w (take_from free queue w) (may_take free queue)
  take_from-Kept zero queue w e f = record { seats = refl; left = omega arith; whole = refl }
  take_from-Kept (suc free) [] w e f = record { seats = refl; left = omega arith; whole = refl }
  take_from-Kept (suc free) (x ∷ queue) w e f =
      let n = length-append w.active (x ∷ []) in
      let q : length w.queue ≡ suc (length queue) = ap length f in
      record {
        seats = omega (arith, n, e);
        left = omega (arith, n, q);
        whole = omega (arith, n, q);
      }

  settle_one-Kept :
      (i : ℕ) (ok : Bool) (found : Option A) (w : Workers A)
      → get_elem? w.active i ≡ found
      → Kept w (settle_one i ok found w) (is_some found)
  settle_one-Kept i ok none w e = record { seats = refl; left = omega arith; whole = refl }
  settle_one-Kept i ok (some x) w e =
      let n = length-remove_at i w.active e in
      let m = length-append w.settled (x ∷ []) in
      record { seats = omega (arith, n); left = omega (arith, n); whole = omega (arith, n, m) }

  turn-Kept : (t : Turn) (w : Workers A) → Kept w (turn t w) (counts t w)
  unfolding turn
  turn-Kept take_next w = take_from-Kept w.free w.queue w refl refl
  turn-Kept (settle_at i ok) w = settle_one-Kept i ok (get_elem? w.active i) w refl

  for_each_limit-Kept :
      (turns : List Turn) (w : Workers A)
      → ((for_each_limit turns w).free + length (for_each_limit turns w).active
          ≡ w.free + length w.active)
        × (counted turns w + steps_left (for_each_limit turns w) ≡ steps_left w)
        × (length (for_each_limit turns w).settled
              + length (for_each_limit turns w).active
              + length (for_each_limit turns w).queue
            ≡ length w.settled + length w.active + length w.queue)
  unfolding for_each_limit counted
  for_each_limit-Kept [] w = (refl, omega arith, refl)
  for_each_limit-Kept (t ∷ turns) w =
      let one = turn-Kept t w in
      let (seats, left, whole) = for_each_limit-Kept turns (turn t w) in
      (seats ∙ one.seats, omega (arith, left, one.left), whole ∙ one.whole)

  -- The items in the pool that pass a test: those that settled, those that run, those that wait.
  abbrev pub held : (A → Bool) → Workers A → ℕ
  held p w = number p w.settled + number p w.active + number p w.queue

  take_from-held :
      (p : A → Bool) (free : ℕ) (queue : List A) (w : Workers A)
      → w.queue ≡ queue
      → held p (take_from free queue w) ≡ held p w
  unfolding number
  take_from-held p zero queue w f = refl
  take_from-held p (suc free) [] w f = refl
  take_from-held p (suc free) (x ∷ queue) w f =
      let n = number-append p w.active (x ∷ []) in
      let q : number p w.queue ≡ one_if (p x) + number p queue = ap (number p) f in
      omega (arith, n, number-one p x, q)

  settle_one-held :
      (p : A → Bool) (i : ℕ) (ok : Bool) (found : Option A) (w : Workers A)
      → get_elem? w.active i ≡ found
      → held p (settle_one i ok found w) ≡ held p w
  settle_one-held p i ok none w e = refl
  settle_one-held p i ok (some x) w e =
      let n = number-remove_at p i w.active e in
      let m = number-append p w.settled (x ∷ []) in omega (arith, n, m, number-one p x)

  turn-held : (p : A → Bool) (t : Turn) (w : Workers A) → held p (turn t w) ≡ held p w
  unfolding turn
  turn-held p take_next w = take_from-held p w.free w.queue w refl
  turn-held p (settle_at i ok) w = settle_one-held p i ok (get_elem? w.active i) w refl

  for_each_limit-held :
      (p : A → Bool) (turns : List Turn) (w : Workers A)
      → held p (for_each_limit turns w) ≡ held p w
  unfolding for_each_limit
  for_each_limit-held p [] w = refl
  for_each_limit-held p (t ∷ turns) w = for_each_limit-held p turns (turn t w) ∙ turn-held p t w

  held_start :
      (p : A → Bool) (limit : ℕ) (items : List A)
      → held p (workers_for limit items) ≡ number p items
  unfolding number
  held_start p limit items = omega arith

  -- Some turn can be taken as long as an item waits or runs.
  go_on :
      (free : ℕ) (queue active : List A)
      → 0 < free + length active
      → (2 * length queue + length active ≡ 0)
        ⊎ ((may_take free queue ≡ true) ⊎ (is_some (get_elem? active 0) ≡ true))
  go_on free queue (x ∷ active) h = inr (inr refl)
  go_on free [] [] h = inl (omega arith)
  go_on zero (x ∷ queue) [] h = absurd (omega (arith, h))
  go_on (suc free) (x ∷ queue) [] h = inr (inl refl)

  goes_on :
      (w : Workers A)
      → 0 < w.free + length w.active
      → (steps_left w ≡ 0) ⊎ ((t : Turn) × (counts t w ≡ true))
  goes_on w some_seat = elim (go_on w.free w.queue w.active some_seat) [
    | inl over ↦ inl over
    | inr (inl may) ↦ inr (take_next, may)
    | inr (inr there) ↦ inr (settle_at 0 true, there)
  ]

  any_item : (items : List A) → (length items ≡ 0) ⊎ (0 < length items)
  any_item [] = inl refl
  any_item (x ∷ items) = inr (omega arith)

  -- With a limit that is not zero, at most so many calls run at once as it says. No item is lost and
  -- none is taken twice: of the items that pass a test, whichever test it is, as many have settled,
  -- run or wait as there were to begin with. Two turns are counted for each item that has settled and
  -- one for each that runs. The pool never stands still before the end: either every item has
  -- settled, or some turn can be taken. A call that fails settles like any other.
  pub for_each_limit-ends :
      (limit : ℕ) (items : List A) (turns : List Turn) (p : A → Bool)
      → 0 < limit
      → let start = workers_for limit items in
        let after = for_each_limit turns start in
        (length after.active ≤ limit)
        × (counted turns start + steps_left after ≡ 2 * length items)
        × (number p after.settled + number p after.active + number p after.queue ≡ number p items)
        × ((length after.settled ≡ length items) ⊎ ((t : Turn) × (counts t after ≡ true)))
  for_each_limit-ends limit items turns p some_limit =
      let (seats, left, whole) = for_each_limit-Kept turns (workers_for limit items) in
      let few = smaller_le limit (length items) in
      (
        omega (arith, seats, few),
        omega (arith, left),
        for_each_limit-held p turns (workers_for limit items) ∙ held_start p limit items,
        stands,
      )
    where
      stands :
          (length (for_each_limit turns (workers_for limit items)).settled ≡ length items)
          ⊎ ((t : Turn) × (counts t (for_each_limit turns (workers_for limit items)) ≡ true))
      stands =
          let (seats, left, whole) = for_each_limit-Kept turns (workers_for limit items) in
          elim (any_item items) [
            | inl none_at_all ↦ inl (omega (arith, whole, none_at_all))
            | inr some_item ↦
                let some_seat = smaller_pos limit (length items) some_limit some_item in
                elim (goes_on (for_each_limit turns (workers_for limit items))
                  (omega (arith, seats, some_seat))) [
                    | inl over ↦ inl (omega (arith, whole, over))
                    | inr next ↦ inr next
                  ]
          ]
