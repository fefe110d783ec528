-- ===== src/Polling/Tests.antt =====
-- Polls of one switch, and the theorems at inputs that meet their hypotheses.
use switchpilot.Prelude.{ℕ, ◌≡◌, refl, false, List, [], ◌∷◌, none, some}
use switchpilot.Alerts.{Window, in_maintenance_window, has_open}
use switchpilot.Polling.{
  Polled, Answer, online, offline, downloaded, installing, come_online, go_offline, set_fw_update,
  count_hour, poll_status, polls,
}
use switchpilot.Polling.Sync.{InSync, polls-InSync, polls-silent}

abbrev up_and_well : Polled
up_and_well = record {
  status = online;
  last_seen_at = some 500;
  uptime_seconds = some 10;
  hours = [];
  fw_update = some (record { state = downloaded; version = "7.1"; since = 100; expires = 9000000 });
  alerts = record { alerts = []; last_email = []; emails = [] };
  triggered = [];
  published = [];
}

abbrev silent_at : ℕ → Answer
silent_at t = record { now = t; snmp = none; ssh = false }

abbrev answers_at : ℕ → Answer
answers_at t = record { now = t; snmp = some 99; ssh = false }

-- A staged update turns into one that is being installed, and both polls count in their hour.
reboot :
    ((polls [] "d1" "gone" false (silent_at 1000 ∷ answers_at 2000 ∷ []) up_and_well).fw_update
      ≡ some (record { state = installing; version = "7.1"; since = 100; expires = 901000 }))
    × ((polls [] "d1" "gone" false (silent_at 1000 ∷ answers_at 2000 ∷ []) up_and_well).hours
        ≡ record { hour = 0; up = 1; total = 2 } ∷ [])
unfolding polls poll_status come_online go_offline set_fw_update count_hour
reboot = (refl, refl)

polls-InSync_example :
    InSync [] "d1" "gone"
      (polls [] "d1" "gone" false (silent_at 1000 ∷ answers_at 2000 ∷ []) up_and_well)
unfolding in_maintenance_window has_open
polls-InSync_example =
    polls-InSync [] "d1" "gone" false (silent_at 1000 ∷ answers_at 2000 ∷ []) up_and_well
      (refl, (refl, tt)) refl

abbrev this_morning : List Window
this_morning = record { starts_at = 0; ends_at = 5000; device_ids = [] } ∷ []

polls-silent_example :
    ((polls this_morning "d1" "gone" false
        (silent_at 1000 ∷ silent_at 9000 ∷ [])
        up_and_well).alerts
      ≡ up_and_well.alerts)
    × ((polls this_morning "d1" "gone" false
          (silent_at 1000 ∷ silent_at 9000 ∷ [])
          up_and_well).status
        ≡ offline)
unfolding in_maintenance_window
polls-silent_example =
    polls-silent this_morning "d1" "gone" false (silent_at 1000) (silent_at 9000 ∷ []) up_and_well
      refl refl (refl, tt) refl
