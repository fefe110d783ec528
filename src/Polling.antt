-- ===== src/Polling.antt =====
-- The reachability poll (pollStatus of backend/src/services/monitorService.ts) and the state of a
-- firmware update (backend/src/services/firmwareState.ts). The state is what the poll reads and
-- writes of one device; the row that the caller has read is the stored one. Redis and the
-- availability table are taken to answer; `triggered` are the times of the device_offline trigger.
pub mod Sync
mod Tests
use switchpilot.Prelude.{
  ℕ, ◌+◌, ◌*◌, ◌/◌, String, Bool, true, false, not, ◌&&◌, ◌||◌, List, [], ◌∷◌, Option, none, some,
  is_some, ltb, ◌==◌, if◌then◌else◌, str_eq,
}
use switchpilot.Alerts.{
  critical, Window, Alerts, in_maintenance_window, has_open, email, resolve_rows, raise_alert,
  resolve_alert,
}

pub data DeviceStatus : Type 0 where
  online offline unknown : DeviceStatus

pub data FwUpdateState : Type 0 where
  downloaded installing : FwUpdateState

-- The value of the key, with the time at which it expires.
pub record FwUpdate : Type 0 where
  pub state : FwUpdateState
  pub version : String
  pub since : ℕ
  pub expires : ℕ

-- A row of `device_availability`.
pub record Hour : Type 0 where
  pub hour : ℕ
  pub up : ℕ
  pub total : ℕ

pub record Polled : Type 0 where
  pub status : DeviceStatus
  pub last_seen_at : Option ℕ
  pub uptime_seconds : Option ℕ
  pub hours : List Hour
  pub fw_update : Option FwUpdate
  pub alerts : Alerts
  pub triggered : List ℕ
  pub published : List ℕ

-- What the device answers to a poll: the uptime by SNMP, when there is a target and it answers, and
-- whether an SSH session connects.
pub record Answer : Type 0 where
  pub now : ℕ
  pub snmp : Option ℕ
  pub ssh : Bool

abbrev pub unexpired : ℕ → Option FwUpdate → Option FwUpdate
unexpired now none = none
unexpired now (some fw) = if ltb now fw.expires then some fw else none

-- getFwUpdate
abbrev pub get_fw_update : ℕ → Polled → Option FwUpdate
get_fw_update now p = unexpired now p.fw_update

abbrev pub since_or : ℕ → Option FwUpdate → ℕ
since_or now none = now
since_or now (some fw) = fw.since

abbrev pub version_or : String → Option FwUpdate → String
version_or version none = version
version_or version (some fw) = if str_eq version "" then fw.version else version

-- setFwUpdate
unfoldable pub set_fw_update : ℕ → FwUpdateState → String → ℕ → Polled → Polled
set_fw_update now state version ttl_sec p =
    let prev = get_fw_update now p in
    record p {
      fw_update = some (record {
        state = state;
        version = version_or version prev;
        since = since_or now prev;
        expires = now + ttl_sec * 1000;
      });
    }

-- clearFwUpdate
abbrev pub clear_fw_update : Polled → Polled
clear_fw_update p = record p { fw_update = none }

abbrev pub installing_now : ℕ → Option FwUpdate → Polled → Polled
installing_now now none p = p
installing_now now (some fw) p = elim fw.state [
  | downloaded ↦ set_fw_update now installing fw.version 900 p
  | installing ↦ p
]

abbrev pub one_if_up : Bool → ℕ
one_if_up true = 1
one_if_up false = 0

-- The upsert of the hour.
unfoldable pub count_hour : ℕ → Bool → List Hour → List Hour
count_hour hour up [] = record { hour = hour; up = one_if_up up; total = 1 } ∷ []
count_hour hour up (h ∷ hours) =
    if h.hour == hour
    then record h { up = h.up + one_if_up up; total = h.total + 1 } ∷ hours
    else h ∷ count_hour hour up hours

abbrev pub is_online : DeviceStatus → Bool
is_online online = true
is_online _ = false

abbrev pub is_offline : DeviceStatus → Bool
is_offline offline = true
is_offline _ = false

-- Aruba Instant On has no SSH to fall back to.
abbrev pub is_reachable : Bool → Answer → Bool
is_reachable is_aruba a = is_some a.snmp || (not is_aruba && a.ssh)

abbrev pub with_uptime : Option ℕ → Polled → Polled
with_uptime none p = p
with_uptime (some uptime) p = record p { uptime_seconds = some uptime }

module _ (windows : List Window) (id message : String) where
  -- The flip to online, and to offline.
  unfoldable pub come_online : ℕ → Polled → Polled
  unfolding resolve_alert
  come_online now p = record p {
    status = online;
    last_seen_at = some now;
    alerts = resolve_alert now id "device_offline" p.alerts;
    published = now ∷ p.published;
  }

  abbrev pub raise_offline : ℕ → Polled → Polled
  raise_offline now p = record p {
    alerts = raise_alert windows now (some id) "device_offline" critical message p.alerts;
    triggered = now ∷ p.triggered;
  }

  unfoldable pub go_offline : ℕ → Polled → Polled
  unfolding raise_alert set_fw_update
  go_offline now p =
      let flipped : Polled = record p { status = offline; published = now ∷ p.published } in
      raise_offline now (installing_now now (get_fw_update now p) flipped)

  abbrev pub settle_status : ℕ → Bool → Polled → Polled
  settle_status now true p =
      if is_online p.status then record p { last_seen_at = some now } else come_online now p
  settle_status now false p = if is_offline p.status then p else go_offline now p

  -- pollStatus
  unfoldable pub poll_status : Bool → Answer → Polled → Polled
  unfolding come_online go_offline count_hour
  poll_status is_aruba a p =
      let up = is_reachable is_aruba a in
      let read = with_uptime a.snmp p in
      settle_status a.now up (record read { hours = count_hour (a.now / 3600000) up read.hours })

  unfoldable pub polls : Bool → List Answer → Polled → Polled
  unfolding poll_status
  polls is_aruba [] p = p
  polls is_aruba (a ∷ answers) p = polls is_aruba answers (poll_status is_aruba a p)
