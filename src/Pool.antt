-- ===== src/Pool.antt =====
-- The pool of SSH sessions of one device on one replica (backend/src/cisco/sshPool.ts), as a machine
-- of events. An entry is a promise chain: the calls that wait on it, the one that runs, and the time
-- of its last use. `current` is the entry in the map, and `orphans` are those that an eviction took
-- out while calls still hang on them. Opening the session is part of the run of a call; the session
-- itself and its close are left out, and the last use is set when a run begins, where the code sets it
-- once the session is open and has the older time until then. The lock over all replicas is left out,
-- as when Redis is not available. A call that an orphan hands over waits on the current chain; that
-- the orphan's next call waits for it in turn is left out, which only allows more orders.
pub mod Serial
mod Tests
use switchpilot.Prelude.{
  ℕ, zero, suc, ◌+◌, Bool, true, false, not, ◌&&◌, ◌||◌, List, [], ◌∷◌, ◌++◌, Option, none, some,
  ltb, is_some, if◌then◌else◌,
}

pub record Entry : Type 0 where
  pub queue : List ℕ
  pub running : Option ℕ
  pub last_used : ℕ

pub record Pool : Type 0 where
  pub current : Option Entry
  pub orphans : List Entry

abbrev pub idle_ttl_ms : ℕ
idle_ttl_ms = 90000

pub data Event : Type 0 where
  -- a call of withDeviceSession, the start of the next call of the current chain and its end, and
  -- the same of an orphan, which is named by its place
  call : ℕ → ℕ → Event
  begin_current : ℕ → Event
  finish_current : ℕ → Bool → Event
  begin_orphan : ℕ → ℕ → Event
  finish_orphan : ℕ → ℕ → Bool → Event
  -- a round of the idle sweep, and evictDevice
  sweep : ℕ → Event
  evict_device : Event

abbrev pub new_entry : ℕ → ℕ → Entry
new_entry now op = record { queue = op ∷ []; running = none; last_used = now }

abbrev pub queue_on : ℕ → ℕ → Option Entry → Entry
queue_on now op none = new_entry now op
queue_on now op (some e) = record e { queue = e.queue ++ op ∷ [] }

-- The synchronous part of withDeviceSession.
abbrev pub enqueue : ℕ → ℕ → Pool → Pool
enqueue now op p = record p { current = some (queue_on now op p.current) }

abbrev pub evict_entry : Option Entry → List Entry → Pool
evict_entry none orphans = record { current = none; orphans = orphans }
evict_entry (some e) orphans = record { current = none; orphans = e ∷ orphans }

-- evict; the session is closed whether a call runs on it or not.
abbrev pub evict : Pool → Pool
evict p = evict_entry p.current p.orphans

abbrev pub started : ℕ → List ℕ → Option ℕ → Entry → Entry
started now [] running e = e
started now (op ∷ queue) (some other) e = e
started now (op ∷ queue) none e = record { queue = queue; running = some op; last_used = now }

abbrev pub begin_entry : ℕ → Entry → Entry
begin_entry now e = started now e.queue e.running e

abbrev pub finished : ℕ → Entry → Entry
finished now e = record e { running = none; last_used = now }

abbrev pub is_idle : ℕ → Entry → Bool
is_idle now e = ltb (e.last_used + idle_ttl_ms) now

unfoldable pub entry_at : ℕ → List Entry → Option Entry
entry_at i [] = none
entry_at zero (e ∷ entries) = some e
entry_at (suc i) (e ∷ entries) = entry_at i entries

unfoldable pub set_entry : ℕ → Entry → List Entry → List Entry
set_entry i new [] = []
set_entry zero new (e ∷ entries) = new ∷ entries
set_entry (suc i) new (e ∷ entries) = e ∷ set_entry i new entries

-- The next call of an orphan finds that its entry is not in the map, and starts over.
abbrev pub hand_over : ℕ → ℕ → List ℕ → Entry → Pool → Pool
hand_over i now [] e p = p
hand_over i now (op ∷ queue) e p =
    if is_some e.running
    then p
    else enqueue now op (record p { orphans = set_entry i (record e { queue = queue }) p.orphans })

abbrev pub begin_orphan_of : ℕ → ℕ → Option Entry → Pool → Pool
begin_orphan_of i now none p = p
begin_orphan_of i now (some e) p = hand_over i now e.queue e p

-- A call of an orphan that fails evicts whatever entry is in the map by then.
abbrev pub finish_orphan_of : ℕ → ℕ → Bool → Option Entry → Pool → Pool
finish_orphan_of i now ok none p = p
finish_orphan_of i now ok (some e) p =
    if is_some e.running
    then (let ended : Pool = record p { orphans = set_entry i (finished now e) p.orphans } in
        if ok then ended else evict ended)
    else p

abbrev pub finish_of : ℕ → Bool → Option Entry → Pool → Pool
finish_of now ok none p = p
finish_of now ok (some e) p =
    if is_some e.running
    then (let ended : Pool = record p { current = some (finished now e) } in
        if ok then ended else evict ended)
    else p

abbrev pub sweep_of : ℕ → Option Entry → Pool → Pool
sweep_of now none p = p
sweep_of now (some e) p = if is_idle now e then evict p else p

abbrev pub begin_of : ℕ → Option Entry → Pool → Pool
begin_of now none p = p
begin_of now (some e) p = record p { current = some (begin_entry now e) }

unfoldable pub step : Event → Pool → Pool
unfolding entry_at set_entry
step (call now op) p = enqueue now op p
step (begin_current now) p = begin_of now p.current p
step (finish_current now ok) p = finish_of now ok p.current p
step (begin_orphan i now) p = begin_orphan_of i now (entry_at i p.orphans) p
step (finish_orphan i now ok) p = finish_orphan_of i now ok (entry_at i p.orphans) p
step (sweep now) p = sweep_of now p.current p
step evict_device p = evict p

unfoldable pub steps : List Event → Pool → Pool
unfolding step
steps [] p = p
steps (e ∷ events) p = steps events (step e p)
