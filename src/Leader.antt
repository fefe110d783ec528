-- ===== src/Leader.antt =====
-- Leader election by an advisory lock of Postgres (backend/src/leader.ts), for any number of
-- replicas: replicas and sessions are numbered, and the server holds the lock for one session.
pub mod Single
mod Tests
use switchpilot.Prelude.{
  ℕ, zero, suc, ◌+◌, Bool, true, false, not, ◌&&◌, ◌||◌, List, [], ◌∷◌, Option, none, some, ◌==◌,
  if◌then◌else◌,
}

-- The variables `leader` and `client` of a process.
pub record Replica : Type 0 where
  pub leader : Bool
  pub client : Option ℕ

pub record Cluster : Type 0 where
  pub replicas : ℕ → Replica
  pub alive : ℕ → Bool
  pub holder : Option ℕ
  pub next : ℕ

abbrev pub at_start : Cluster
at_start = record {
  replicas = λ r. record { leader = false; client = none };
  alive = λ s. false;
  holder = none;
  next = 0;
}

abbrev pub set_replica : ℕ → Replica → (ℕ → Replica) → ℕ → Replica
set_replica r v f k = if k == r then v else f k

abbrev pub set_alive : ℕ → Bool → (ℕ → Bool) → ℕ → Bool
set_alive s v f k = if k == s then v else f k

abbrev pub is_held_by : Option ℕ → ℕ → Bool
is_held_by none s = false
is_held_by (some t) s = t == s

-- The end of a session frees its lock.
unfoldable pub end_session : ℕ → Cluster → Cluster
end_session s c = record c {
  alive = set_alive s false c.alive;
  holder = if is_held_by c.holder s then none else c.holder;
}

abbrev pub end_client : Option ℕ → Cluster → Cluster
end_client none c = c
end_client (some s) c = end_session s c

-- The `error` event: `leader = false; client = null`. The session is not ended.
unfoldable pub forget_client : ℕ → Cluster → Cluster
forget_client r c = record c {
  replicas = set_replica r (record { leader = false; client = none }) c.replicas;
}

-- The `catch`, which also ends the client.
unfoldable pub drop_client : ℕ → Cluster → Cluster
unfolding end_session forget_client
drop_client r c = forget_client r (end_client (c.replicas r).client c)

-- `new pg.Client` and `connect`.
unfoldable pub connect : ℕ → Cluster → Cluster
connect r c = record c {
  replicas = set_replica r (record (c.replicas r) { client = some c.next }) c.replicas;
  alive = set_alive c.next true c.alive;
  next = suc c.next;
}

abbrev pub is_free : Option ℕ → ℕ → Bool
is_free none s = true
is_free (some t) s = t == s

-- `pg_try_advisory_lock` on the session, and `leader = true`.
unfoldable pub try_lock : ℕ → ℕ → Cluster → Cluster
try_lock r s c =
    if is_free c.holder s
    then record c {
      replicas = set_replica r (record { leader = true; client = some s }) c.replicas;
      holder = some s;
    }
    else c

-- ensureLeadership with a client: a leader asks nothing; a session that the server has ended, or
-- that fails, throws.
abbrev pub contend : ℕ → Bool → ℕ → Cluster → Cluster
contend r works s c =
    if (c.replicas r).leader
    then c
    else (if works && c.alive s then try_lock r s c else drop_client r c)

abbrev pub ensure_with : ℕ → Bool → Bool → Option ℕ → Cluster → Cluster
ensure_with r connects works (some s) c = contend r works s c
ensure_with r connects works none c =
    if connects then contend r works c.next (connect r c) else drop_client r c

-- ensureLeadership
unfoldable pub ensure_leadership : ℕ → Bool → Bool → Cluster → Cluster
unfolding drop_client connect try_lock
ensure_leadership r connects works c = ensure_with r connects works (c.replicas r).client c

-- What happens in a cluster: a tick of a replica, an `error` event of its client, and the end of a
-- session on the server that the client has not noticed yet.
pub data Event : Type 0 where
  tick : ℕ → Bool → Bool → Event
  client_error : ℕ → Event
  session_lost : ℕ → Event

abbrev pub event : Event → Cluster → Cluster
event (tick r connects works) c = ensure_leadership r connects works c
event (client_error r) c = forget_client r c
event (session_lost s) c = end_session s c

unfoldable pub events : List Event → Cluster → Cluster
unfolding ensure_leadership forget_client end_session
events [] c = c
events (e ∷ es) c = events es (event e c)
