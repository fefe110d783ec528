-- ===== src/Alerts/Tests.antt =====
-- A flapping link, and the theorems at it.
use switchpilot.Prelude.{map, String, ◌≡◌, refl, List, [], ◌∷◌, some}
use switchpilot.Alerts.{
  Alert, warning, critical, Alerts, any_of, in_maintenance_window, has_open, last_of, set_last,
  email, raise_alert, resolve_rows, resolve_alert, Call, raise, resolve, calls,
}
use switchpilot.Alerts.Open.{Single}
use switchpilot.Alerts.Steps.{Raise, Flight, Step, begins, selects, inserts, resolves, step, steps}
use switchpilot.Alerts.Overlap.{steps-Single}
use switchpilot.Util.Workers.{remove_at}
use switchpilot.Alerts.Email.{IsThrottled, calls-IsThrottled}

abbrev quiet : Alerts
quiet = record { alerts = []; last_email = []; emails = [] }

-- The second raise meets an open alert, the third comes within the hour of the first email, the
-- fourth after it, and the last in a window of the whole fleet.
abbrev flaps : List Call
flaps =
    raise [] 5000000 (some "sw1") "link_down" warning "down"
    ∷ raise [] 5001000 (some "sw1") "link_down" warning "down"
    ∷ resolve 5002000 "sw1" "link_down"
    ∷ raise [] 5003000 (some "sw1") "link_down" warning "down"
    ∷ resolve 5004000 "sw1" "link_down"
    ∷ raise [] 9000000 (some "sw1") "link_down" warning "down"
    ∷ raise (record { starts_at = 0; ends_at = 9999999; device_ids = [] } ∷ []) 9000001 (some "sw2")
        "cpu_high" critical "busy"
    ∷ []

emails_of_flaps :
    (calls flaps quiet).emails ≡ ("sw1:link_down", 9000000) ∷ ("sw1:link_down", 5000000) ∷ []
unfolding calls raise_alert resolve_alert resolve_rows in_maintenance_window has_open email last_of
    set_last any_of
emails_of_flaps = refl

abbrev call_of : String → Raise
call_of id = record { device = some id; kind = "link_down"; severity = warning; message = "down" }

-- The calls for two devices run into each other, and the first device raises once more.
abbrev woven : List Step
woven =
    begins [] 5000000 (call_of "sw1")
    ∷ begins [] 5000001 (call_of "sw2")
    ∷ selects 0
    ∷ selects 0
    ∷ inserts 1 5000002
    ∷ inserts 0 5000003
    ∷ begins [] 5000004 (call_of "sw1")
    ∷ selects 0
    ∷ resolves 5000005 "sw1" "link_down"
    ∷ []

-- Two calls for one device run into each other, and both insert.
abbrev doubled : Flight
doubled =
    steps
      (begins [] 5000000 (call_of "sw1")
        ∷ begins [] 5000001 (call_of "sw1")
        ∷ selects 0
        ∷ selects 0
        ∷ inserts 1 5000002
        ∷ inserts 0 5000003
        ∷ [])
      (record { alerts = quiet; outside = []; missing = [] })

two_open : map (λ (a : Alert). a.device) doubled.alerts.alerts ≡ some "sw1" ∷ some "sw1" ∷ []
unfolding steps step in_maintenance_window has_open email last_of set_last remove_at
two_open = refl

steps-Single_example :
    Single (steps woven (record { alerts = quiet; outside = []; missing = [] })).alerts.alerts
unfolding steps step in_maintenance_window has_open email last_of set_last remove_at resolve_alert
    resolve_rows
steps-Single_example =
    steps-Single woven quiet tt (tt, (tt, (tt, ((refl, tt), (tt, (tt, (tt, (tt, (tt, tt)))))))))

calls-IsThrottled_example : IsThrottled (calls flaps quiet)
calls-IsThrottled_example = calls-IsThrottled flaps quiet (tt, tt)
