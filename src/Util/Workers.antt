-- ===== src/Util/Workers.antt =====
-- The bounded worker pool (backend/src/util/concurrency.ts) as a machine: a worker that is free takes
-- the next item, and a call of `fn` that runs settles, well or not. `active` are the items whose call
-- runs.
pub mod Bounded
use switchpilot.Prelude.{
  ℕ, zero, suc, ◌+◌, ◌-◌, Bool, true, false, List, [], ◌∷◌, ◌++◌, Option, none, some, get_elem?,
  length, ltb, if◌then◌else◌,
}

pub record Workers {ℓ} (A : Type ℓ) : Type ℓ where
  pub free : ℕ
  pub queue : List A
  pub active : List A
  pub settled : List A
  pub errors : List A

pub data Turn : Type 0 where
  take_next : Turn
  settle_at : ℕ → Bool → Turn

-- `Math.min`
abbrev pub smaller : ℕ → ℕ → ℕ
smaller m n = if ltb m n then m else n

unfoldable pub remove_at {ℓ} : {A : Type ℓ} → ℕ → List A → List A
remove_at i [] = []
remove_at zero (x ∷ xs) = xs
remove_at (suc i) (x ∷ xs) = x ∷ remove_at i xs

module _ {ℓ} {A : Type ℓ} where
  abbrev pub workers_for : ℕ → List A → Workers A
  workers_for limit items = record {
    free = smaller limit (length items);
    queue = items;
    active = [];
    settled = [];
    errors = [];
  }

  abbrev pub take_from : ℕ → List A → Workers A → Workers A
  take_from zero queue w = w
  take_from (suc free) [] w = w
  take_from (suc free) (x ∷ queue) w = record w {
    free = free;
    queue = queue;
    active = w.active ++ x ∷ [];
  }

  abbrev pub settle_one : ℕ → Bool → Option A → Workers A → Workers A
  settle_one i ok none w = w
  settle_one i ok (some x) w = record w {
    free = suc w.free;
    active = remove_at i w.active;
    settled = w.settled ++ x ∷ [];
    errors = if ok then w.errors else w.errors ++ x ∷ [];
  }

  unfoldable pub turn : Turn → Workers A → Workers A
  unfolding remove_at
  turn take_next w = take_from w.free w.queue w
  turn (settle_at i ok) w = settle_one i ok (get_elem? w.active i) w

  -- forEachLimit, by the turns that happen.
  unfoldable pub for_each_limit : List Turn → Workers A → Workers A
  unfolding turn
  for_each_limit [] w = w
  for_each_limit (t ∷ turns) w = for_each_limit turns (turn t w)
