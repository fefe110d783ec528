-- ===== src/Events/Tests.antt =====
-- Traps and messages of a small network, and the theorems at inputs that meet their hypotheses.
use switchpilot.Prelude.{
  ℕ, ◌-◌, ◌≡◌, refl, String, true, false, List, [], ◌∷◌, Option, none, some, arith, str_eq,
  if◌then◌else◌,
}
use switchpilot.Util.Text.{strip_prefix}
use switchpilot.Alerts.{has_open, in_maintenance_window, raise_alert, email, last_of, set_last}
use switchpilot.Events.Trap.{
  Varbind, Pdu, TrapState, link_kind, decimal, decimal_from, read_varbind, read_varbinds,
  parse_trap, classify_trap, classify_oid, find_cached, set_cached, resolve_device, handle_trap,
}
use switchpilot.Events.Trap.Links.{handle_trap-link_up}
use switchpilot.Events.Syslog.{Window, max_msgs, find_window, set_window, within_rate, stored_in}
use switchpilot.Events.Syslog.Rate.{count_of, used, least_of, stored_in-count}

abbrev quiet : TrapState
quiet = record { cache = []; alerts = record { alerts = []; last_email = []; emails = [] } }

abbrev devices : String → Option String
devices ip = if str_eq ip "10.0.0.1" then some "d1" else none

abbrev index7 : Varbind
index7 = record { oid = "1.3.6.1.2.1.2.2.1.1.7"; value = "7" }

-- linkDown and linkUp of SNMPv1.
abbrev link_trap : ℕ → Pdu
link_trap g = record { generic = some g; varbinds = index7 ∷ [] }

abbrev down : TrapState
down = handle_trap [] devices 5000 "10.0.0.1" (link_trap 2) quiet

numbers : decimal 305 ≡ "305"
unfolding decimal decimal_from
numbers = refl

raised : has_open (some "d1") "link_down:7" down.alerts.alerts ≡ true
unfolding handle_trap parse_trap read_varbinds read_varbind classify_trap classify_oid
    resolve_device find_cached set_cached raise_alert in_maintenance_window has_open email last_of
    set_last strip_prefix decimal decimal_from
raised = refl

handle_trap-link_up_example :
    let kind = link_kind (parse_trap (link_trap 2)).if_index in
    let raised = (handle_trap [] devices 1000 "10.0.0.1" (link_trap 2) quiet).alerts.alerts in
    let cleared = (handle_trap [] devices 9000 "10.0.0.1" (link_trap 3) down).alerts.alerts in
    (has_open (some "d1") kind raised ≡ true)
    × (has_open (some "d1") kind cleared ≡ false)
    × (has_open (some "d1") "link_down:8" raised
        ≡ has_open (some "d1") "link_down:8" quiet.alerts.alerts)
    × (has_open (some "d1") "link_down:8" cleared
        ≡ has_open (some "d1") "link_down:8" down.alerts.alerts)
unfolding handle_trap parse_trap read_varbinds read_varbind classify_trap classify_oid
    resolve_device find_cached set_cached raise_alert in_maintenance_window has_open email last_of
    set_last strip_prefix decimal decimal_from
handle_trap-link_up_example =
    handle_trap-link_up [] devices 1000 9000 "10.0.0.1" "d1" (link_trap 2) (link_trap 3) quiet down
      (some "d1") "link_down:8" refl refl refl refl refl refl refl

abbrev busy : List (String × Window)
busy = ("a", record { count = 49; window_sec = 7 }) ∷ []

one_left : stored_in 7 ("a" ∷ "b" ∷ "a" ∷ []) busy ≡ "a" ∷ "b" ∷ []
unfolding stored_in within_rate find_window set_window
one_left = refl

stored_in-count_example :
    count_of "a" (stored_in 7 ("a" ∷ "b" ∷ "a" ∷ []) busy)
    ≡ least_of (count_of "a" ("a" ∷ "b" ∷ "a" ∷ [])) (max_msgs - used "a" 7 busy)
stored_in-count_example = stored_in-count "a" 7 ("a" ∷ "b" ∷ "a" ∷ []) busy (omega arith)
