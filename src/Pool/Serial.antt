-- ===== src/Pool/Serial.antt =====
-- How many calls drive the device at once.
use switchpilot.Prelude.{
  ℕ, zero, suc, ◌+◌, ◌<◌, ◌≤◌, ◌≡◌, refl, sym, subst, inl, inr, Bool, true, false, not, ◌&&◌, List,
  [], ◌∷◌, Option, none, some, is_some, All, Bool-cases, arith, if◌then◌else◌,
}
use switchpilot.Pool.{
  Entry, Pool, idle_ttl_ms, Event, call, begin_current, finish_current, begin_orphan, finish_orphan,
  sweep, evict_device, evict, evict_entry, finished, is_idle, entry_at, set_entry, hand_over,
  begin_orphan_of, finish_orphan_of, finish_of, sweep_of, begin_of, step, steps,
}

abbrev pub one_if : Bool → ℕ
one_if true = 1
one_if false = 0

abbrev pub runs : Entry → Bool
runs e = is_some e.running

abbrev pub current_runs : Option Entry → Bool
current_runs none = false
current_runs (some e) = runs e

unfoldable pub running_orphans : List Entry → ℕ
running_orphans [] = 0
running_orphans (e ∷ entries) = one_if (runs e) + running_orphans entries

-- The calls that run on the device.
abbrev pub running_calls : Pool → ℕ
running_calls p = one_if (current_runs p.current) + running_orphans p.orphans

abbrev pub is_idle_now : ℕ → Option Entry → Bool
is_idle_now now none = false
is_idle_now now (some e) = is_idle now e

-- Whether an event evicts no entry on which a call runs: no sweep comes more than 90 seconds after
-- the start of a call that still runs, and no evictDevice while one runs.
abbrev pub spares : Event → Pool → Bool
spares (sweep now) p = not (current_runs p.current && is_idle_now now p.current)
spares evict_device p = not (current_runs p.current)
spares _ p = true

unfoldable pub all_spare : List Event → Pool → Bool
all_spare [] p = true
all_spare (e ∷ events) p = spares e p && all_spare events (step e p)

-- No orphan runs a call.
abbrev pub Quiet : List Entry → Type 0
Quiet entries = All (λ e. runs e ≡ false) entries

running_orphans-Quiet : (entries : List Entry) → Quiet entries → running_orphans entries ≡ 0
unfolding running_orphans
running_orphans-Quiet [] h = refl
running_orphans-Quiet (e ∷ entries) (h, hs) = rw (h, running_orphans-Quiet entries hs) (omega arith)

set_entry-Quiet :
    (i : ℕ) (e : Entry) (entries : List Entry)
    → runs e ≡ false
    → Quiet entries
    → Quiet (set_entry i e entries)
unfolding set_entry
set_entry-Quiet i e [] h hs = tt
set_entry-Quiet zero e (x ∷ entries) h (k, hs) = (h, hs)
set_entry-Quiet (suc i) e (x ∷ entries) h (k, hs) = (k, set_entry-Quiet i e entries h hs)

entry_at-Quiet :
    (i : ℕ) (entries : List Entry) {e : Entry}
    → Quiet entries
    → entry_at i entries ≡ some e
    → runs e ≡ false
unfolding entry_at
entry_at-Quiet i [] h found = absurd (cc)
entry_at-Quiet zero (x ∷ entries) {e} (k, hs) found =
    let same : x ≡ e = cc in subst (λ y. runs y ≡ false) same k
entry_at-Quiet (suc i) (x ∷ entries) (k, hs) found = entry_at-Quiet i entries hs found

evict-Quiet :
    (current : Option Entry) (orphans : List Entry)
    → current_runs current ≡ false
    → Quiet orphans
    → Quiet (evict_entry current orphans).orphans
evict-Quiet none orphans h hs = hs
evict-Quiet (some e) orphans h hs = (h, hs)

finish_of-Quiet :
    (now : ℕ) (ok : Bool) (p : Pool) (current : Option Entry)
    → Quiet p.orphans
    → Quiet (finish_of now ok current p).orphans
finish_of-Quiet now ok p none hs = hs
finish_of-Quiet now ok p (some e) hs = elim (Bool-cases (runs e)) [
  | inr stopped ↦ rw stopped hs
  | inl on ↦ rw on (ended ok)
]
  where
    ended :
        (b : Bool)
        → Quiet
            (if b
              then (record p { current = some (finished now e) })
              else evict (record p { current = some (finished now e) })).orphans
    ended true = hs
    ended false = (refl, hs)

sweep_of-Quiet :
    (now : ℕ) (orphans : List Entry) (current : Option Entry)
    → not (current_runs current && is_idle_now now current) ≡ true
    → Quiet orphans
    → Quiet (sweep_of now current (record { current = current; orphans = orphans })).orphans
sweep_of-Quiet now orphans none spared hs = hs
sweep_of-Quiet now orphans (some e) spared hs = elim (Bool-cases (is_idle now e)) [
  | inr used ↦ rw used hs
  | inl idle ↦ rw idle (ground (arith, spared, idle), hs)
]

begin_of-orphans :
    (now : ℕ) (p : Pool) (current : Option Entry) → (begin_of now current p).orphans ≡ p.orphans
begin_of-orphans now p none = refl
begin_of-orphans now p (some e) = refl

begin_orphan_of-Quiet :
    (i now : ℕ) (p : Pool) (found : Option Entry)
    → Quiet p.orphans
    → Quiet (begin_orphan_of i now found p).orphans
begin_orphan_of-Quiet i now p none hs = hs
begin_orphan_of-Quiet i now p (some e) hs = handed e.queue
  where
    handed : (queue : List ℕ) → Quiet (hand_over i now queue e p).orphans
    handed [] = hs
    handed (op ∷ queue) = elim (Bool-cases (runs e)) [
      | inl on ↦ rw on hs
      | inr off ↦ rw off (set_entry-Quiet i (record e { queue = queue }) p.orphans off hs)
    ]

-- An orphan that runs nothing has nothing to finish.
finish_orphan_of-Quiet :
    (i now : ℕ) (ok : Bool) (p : Pool) (found : Option Entry)
    → ((e : Entry) → found ≡ some e → runs e ≡ false)
    → Quiet p.orphans
    → Quiet (finish_orphan_of i now ok found p).orphans
finish_orphan_of-Quiet i now ok p none off hs = hs
finish_orphan_of-Quiet i now ok p (some e) off hs = rw (off e refl) hs

step-Quiet : (e : Event) (p : Pool) → spares e p ≡ true → Quiet p.orphans → Quiet (step e p).orphans
unfolding step
step-Quiet (call now op) p spared hs = hs
step-Quiet (begin_current now) p spared hs = subst Quiet (sym (begin_of-orphans now p p.current)) hs
step-Quiet (finish_current now ok) p spared hs = finish_of-Quiet now ok p p.current hs
step-Quiet (begin_orphan i now) p spared hs =
    begin_orphan_of-Quiet i now p (entry_at i p.orphans) hs
step-Quiet (finish_orphan i now ok) p spared hs =
    finish_orphan_of-Quiet i now ok p (entry_at i p.orphans)
      (λ e found. entry_at-Quiet i p.orphans hs found) hs
step-Quiet (sweep now) p spared hs = sweep_of-Quiet now p.orphans p.current spared hs
step-Quiet evict_device p spared hs = evict-Quiet p.current p.orphans (ground (arith, spared)) hs

steps-Quiet :
    (events : List Event) (p : Pool)
    → all_spare events p ≡ true
    → Quiet p.orphans
    → Quiet (steps events p).orphans
unfolding steps all_spare
steps-Quiet [] p spared hs = hs
steps-Quiet (e ∷ events) p spared hs =
    steps-Quiet events (step e p) (ground (arith, spared))
      (step-Quiet e p (ground (arith, spared)) hs)

-- From a pool in which no evicted entry runs a call, as long as no sweep comes more than 90 seconds
-- after the start of a call that still runs, and nobody evicts the device under a running call, at
-- most one call drives the device at a time, however calls arrive, fail and queue again.
pub steps-serial :
    (events : List Event) (p : Pool)
    → all_spare events p ≡ true
    → Quiet p.orphans
    → running_calls (steps events p) ≤ 1
steps-serial events p spared hs =
    let none_else =
      running_orphans-Quiet (steps events p).orphans (steps-Quiet events p spared hs) in
    rw none_else (at_most (current_runs (steps events p).current))
  where
    at_most : (b : Bool) → one_if b + 0 ≤ 1
    at_most true = omega arith
    at_most false = omega arith

-- A call that takes longer than 90 seconds loses its session to the next sweep, and with it the
-- queue: a call that arrives then starts at once and drives the device beside it. This is without
-- the lock over all replicas.
pub steps-overlap :
    (now op running_op : ℕ) (p : Pool) (e : Entry)
    → p.current ≡ some e
    → e.running ≡ some running_op
    → e.last_used + idle_ttl_ms < now
    → running_calls (steps (sweep now ∷ call now op ∷ begin_current now ∷ []) p)
      ≡ 2 + running_orphans p.orphans
unfolding steps step running_orphans
steps-overlap now op running_op p e here on late =
    let idle : is_idle now e ≡ true = ground arith in simp (here, idle, on) (omega arith)
