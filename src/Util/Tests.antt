-- ===== src/Util/Tests.antt =====
-- Runs of the utilities, and the theorems at inputs that meet their hypotheses.
use switchpilot.Prelude.{
  ◌==◌, ℕ, ◌+◌, ◌*◌, ◌≤◌, ◌≡◌, ◌⊎◌, refl, true, false, List, [], ◌∷◌, ◌++◌, some, length, arith,
  if◌then◌else◌, ltb,
}
use switchpilot.Util.Batcher.{
  Limits, Event, pushed, ticked, settled, created, flush_now, settle, push, handle, run,
}
use switchpilot.Util.Batcher.Order.{concat, accepted, run_complete}
use switchpilot.Util.Workers.{
  Turn, take_next, settle_at, remove_at, workers_for, turn, for_each_limit,
}
use switchpilot.Util.Workers.Bounded.{number, counted, counts, steps_left, for_each_limit-ends}
use switchpilot.Util.Retry.{Reply, response, status_of, attempts_from, fetch_with_retry}
use switchpilot.Util.Retry.Outcome.{IsOutcome, fetch_with_retry-IsOutcome}

abbrev small : Limits
small = record { max_batch = 2; max_buffer = 3 }

abbrev burst : List (Event ℕ)
burst =
    pushed 1 ∷ pushed 2 ∷ pushed 3 ∷ pushed 4 ∷ pushed 5 ∷ pushed 6 ∷ settled false ∷ ticked ∷ []

-- The sixth item finds the buffer full while the first batch is in flight.
run-burst : run small burst created ≡ record {
  buffer = [];
  flushing = some (3 ∷ 4 ∷ 5 ∷ []);
  handed = (1 ∷ 2 ∷ []) ∷ (3 ∷ 4 ∷ 5 ∷ []) ∷ [];
  failures = 2 ∷ [];
}
unfolding run handle push flush_now settle
run-burst = refl

run_complete_example :
    (concat (run small burst created).handed ++ (run small burst created).buffer
      ≡ accepted small burst created)
    × (length (run small burst created).buffer ≤ 3)
run_complete_example = run_complete small burst

-- A service that is down for two requests.
abbrev restarting : ℕ → Reply
restarting attempt = if ltb attempt 3 then response 503 else response 200

two_retries :
    fetch_with_retry (λ text. text) 500 3 restarting
    ≡ (record { ok = true; status = status_of 200; attempts = 3 }, 1000 ∷ 500 ∷ [])
unfolding fetch_with_retry attempts_from
two_retries = refl

fetch_with_retry-IsOutcome_example :
    IsOutcome (λ text. text) 500 3 restarting (fetch_with_retry (λ text. text) 500 3 restarting)
fetch_with_retry-IsOutcome_example =
    fetch_with_retry-IsOutcome (λ text. text) 500 3 restarting (omega arith)

-- Two workers on three items, of which the second fails.
abbrev turns : List Turn
turns =
    take_next
    ∷ take_next
    ∷ take_next
    ∷ settle_at 1 false
    ∷ take_next
    ∷ settle_at 0 true
    ∷ settle_at 0 true
    ∷ []

abbrev three : List ℕ
three = 10 ∷ 20 ∷ 30 ∷ []

one_failed :
    for_each_limit turns (workers_for 2 three)
    ≡ record { free = 2; queue = []; active = []; settled = 20 ∷ 10 ∷ 30 ∷ []; errors = 20 ∷ [] }
unfolding for_each_limit turn remove_at
one_failed = refl

for_each_limit-ends_example :
    let start = workers_for 2 three in
    let after = for_each_limit turns start in
    (length after.active ≤ 2)
    × (counted turns start + steps_left after ≡ 2 * 3)
    × (number (λ n. n == 20) after.settled
          + number (λ n. n == 20) after.active
          + number (λ n. n == 20) after.queue
        ≡ number (λ n. n == 20) three)
    × ((length after.settled ≡ 3) ⊎ ((t : Turn) × (counts t after ≡ true)))
for_each_limit-ends_example = for_each_limit-ends 2 three turns (λ n. n == 20) (omega arith)
