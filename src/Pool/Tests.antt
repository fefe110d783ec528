-- ===== src/Pool/Tests.antt =====
-- Calls on one device, and the theorems at inputs that meet their hypotheses.
use switchpilot.Prelude.{◌+◌, ◌≤◌, ◌≡◌, refl, false, List, [], ◌∷◌, none, some, arith}
use switchpilot.Pool.{
  Entry, Pool, Event, call, begin_current, finish_current, begin_orphan, sweep, step, steps,
  entry_at, set_entry,
}
use switchpilot.Pool.Serial.{running_calls, running_orphans, all_spare, steps-serial, steps-overlap}

abbrev unused : Pool
unused = record { current = none; orphans = [] }

-- The second call waits for the first, which fails; it starts over on a new entry.
abbrev morning : List Event
morning =
    call 1000 1
    ∷ call 1500 2
    ∷ begin_current 2000
    ∷ finish_current 9000 false
    ∷ begin_orphan 0 9000
    ∷ begin_current 9100
    ∷ []

requeued : steps morning unused ≡ record {
  current = some (record { queue = []; running = some 2; last_used = 9100 });
  orphans = record { queue = []; running = none; last_used = 9000 } ∷ [];
}
unfolding steps step entry_at set_entry
requeued = refl

steps-serial_example : running_calls (steps morning unused) ≤ 1
unfolding all_spare
steps-serial_example = steps-serial morning unused refl tt

abbrev upload : Entry
upload = record { queue = []; running = some 1; last_used = 1000 }

abbrev uploading : Pool
uploading = record { current = some upload; orphans = [] }

steps-overlap_example :
    running_calls (steps (sweep 100000 ∷ call 100000 2 ∷ begin_current 100000 ∷ []) uploading)
    ≡ 2 + running_orphans uploading.orphans
steps-overlap_example = steps-overlap 100000 2 1 uploading upload refl refl (omega arith)
