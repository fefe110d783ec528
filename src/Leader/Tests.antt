-- ===== src/Leader/Tests.antt =====
-- Two replicas, a lost session, and the theorem at them.
use switchpilot.Prelude.{ℕ, ◌≡◌, refl, Bool, true, false, List, [], ◌∷◌, map}
use switchpilot.Leader.{
  at_start, end_session, connect, try_lock, ensure_leadership, Event, tick, session_lost, events,
}
use switchpilot.Leader.Single.{events-single}

abbrev leaders : List Event → List Bool
leaders es = map {B = Bool} (λ r. ((events es at_start).replicas r).leader) (0 ∷ 1 ∷ [])

abbrev both_tick : List Event
both_tick = tick 0 true true ∷ tick 1 true true ∷ []

first_wins : leaders both_tick ≡ true ∷ false ∷ []
unfolding events ensure_leadership connect try_lock
first_wins = refl

-- Until its client reports the error, a replica whose session the server has ended still leads,
-- beside the one that took over.
two_for_a_while :
    leaders (tick 0 true true ∷ tick 1 true true ∷ session_lost 0 ∷ tick 1 true true ∷ [])
    ≡ true ∷ true ∷ []
unfolding events ensure_leadership connect try_lock end_session
two_for_a_while = refl

events-single_example : ◌≡◌ {A = ℕ} 0 0
unfolding events ensure_leadership connect try_lock
events-single_example = events-single both_tick 0 0 0 0 refl refl refl refl refl refl
