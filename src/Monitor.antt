-- ===== src/Monitor.antt =====
-- The flap counter of the ports (backend/src/services/monitorShared.ts, as ciscoMonitor.ts applies
-- it). Times are milliseconds.
pub mod Flap
mod Tests
use switchpilot.Prelude.{
  ℕ, zero, suc, ◌+◌, String, Bool, true, false, not, ◌&&◌, List, [], ◌∷◌, Option, none, some, ltb,
  if◌then◌else◌, str_eq,
}

-- What the port table has of a port.
pub record PortFlapPrev : Type 0 where
  pub oper_status : String
  pub flap_count_1h : ℕ
  pub last_flap_at : Option ℕ

pub record FlapDecision : Type 0 where
  pub flapped : Bool
  pub flap_count : ℕ
  pub last_flap_at : Option ℕ

abbrev pub window_ms : ℕ
window_ms = 3600000

abbrev pub expired : Option ℕ → ℕ → Bool
expired none now = false
expired (some t) now = ltb (t + window_ms) now

abbrev pub is_change : String → String → Bool
is_change before status = not (str_eq before "unknown") && not (str_eq before status)

abbrev pub decide_from : PortFlapPrev → Bool → Bool → ℕ → FlapDecision
decide_from prev flapped window_expired now = record {
  flapped = flapped;
  flap_count =
      if flapped
      then (if window_expired then 1 else prev.flap_count_1h + 1)
      else (if window_expired then 0 else prev.flap_count_1h);
  last_flap_at = if flapped then some now else prev.last_flap_at;
}

-- decidePortFlap
unfoldable pub decide_port_flap : Option PortFlapPrev → String → ℕ → FlapDecision
decide_port_flap none status now = record { flapped = false; flap_count = 0; last_flap_at = none }
decide_port_flap (some prev) status now =
    decide_from prev (is_change prev.oper_status status) (expired prev.last_flap_at now) now

-- The row that a sweep leaves.
abbrev pub row_of : String → FlapDecision → PortFlapPrev
row_of status d = record {
  oper_status = status;
  flap_count_1h = d.flap_count;
  last_flap_at = d.last_flap_at;
}

-- The sweeps of a port, the earliest first: what each read, and when.
unfoldable pub sweeps : List (String × ℕ) → Option PortFlapPrev → Option PortFlapPrev
unfolding decide_port_flap
sweeps [] prev = prev
sweeps ((status, now) ∷ rest) prev =
    sweeps rest (some (row_of status (decide_port_flap prev status now)))
