-- ===== src/Config.antt =====
-- Backups of device configurations and the drift check (backend/src/services/configService.ts).
-- The backups are a list, the latest first. What a device answers at the time of a call, SHA-256
-- and the git commit are parameters; `running` is `none` when the device call throws.
pub mod Normal
pub mod Stored
pub mod Drifted
mod Tests
use switchpilot.Prelude.{
  ℕ, String, Bool, true, false, not, ◌&&◌, ◌||◌, List, [], ◌∷◌, Option, none, some, map, keep, ltb,
  if◌then◌else◌, str_eq,
}
use switchpilot.Util.Text.{
  trim, trim_start, trim_end, before_end, lines, unlines, utf16_length, has_prefix, strip_prefix,
  is_empty, is_space,
}
use switchpilot.Alerts.{
  Severity, info, warning, Window, Alerts, in_maintenance_window, has_open, email, last_of,
  set_last, raise_alert,
}

pub data Vendor : Type 0 where
  cisco mikrotik aruba : Vendor

pub record Device : Type 0 where
  pub id : String
  pub vendor : Vendor
  pub hostname : String

-- What a device and its polled state answer: the running configuration over SSH, and the snapshot
-- that `renderArubaConfig` makes of the polled rows, if there are any.
pub record Live : Type 0 where
  pub running : Option String
  pub synthetic : Option String

pub record Backup : Type 0 where
  pub id : ℕ
  pub device_id : String
  pub content : String
  pub sha256 : String
  pub taken_by : String
  pub git_sha : Option String
  pub reason : String
  pub ticket : String

pub record Baseline : Type 0 where
  pub auto_remediate : Bool
  pub content : String

pub data BackupResult : Type 0 where
  -- the id of the latest backup, and whether it is a new one
  backed : ℕ → Bool → BackupResult
  skipped failed : BackupResult

-- The lines that a comparison passes over. The last two prefixes of the pattern begin with `!`.
unfoldable pub is_volatile : String → Bool
unfolding trim strip_prefix
is_volatile line =
    let l = trim line in
    has_prefix "!" l
    || has_prefix "#" l
    || has_prefix "ntp clock-period" l
    || has_prefix "Building configuration" l
    || has_prefix "Current configuration" l

unfoldable pub normalize_config : String → String
unfolding is_volatile trim trim_end lines unlines
normalize_config content =
    trim (unlines (map trim_end (keep (λ l. not (is_volatile l)) (lines content))))

-- The latest backup of a device.
unfoldable pub latest_backup : String → List Backup → Option Backup
latest_backup id [] = none
latest_backup id (b ∷ backups) = if str_eq b.device_id id then some b else latest_backup id backups

pub data Read : Type 0 where
  read_skipped read_failed : Read
  read : String → Read

-- An empty text is falsy.
abbrev pub read_synthetic : Option String → Read
read_synthetic none = read_skipped
read_synthetic (some text) = if is_empty text then read_skipped else read text

abbrev pub read_running : Option String → Read
read_running none = read_failed
read_running (some text) = if ltb (utf16_length text) 50 then read_failed else read text

abbrev pub long_enough : Read → Read
long_enough read_skipped = read_skipped
long_enough read_failed = read_failed
long_enough (read text) = read_running (some text)

-- The content that a backup is about.
unfoldable pub read_config : Device → Live → Read
unfolding utf16_length
read_config device live = elim device.vendor [
  | aruba ↦ long_enough (read_synthetic live.synthetic)
  | cisco ↦ read_running live.running
  | mikrotik ↦ read_running live.running
]

-- Who asks for a backup, why, and the id that the database gives to a new row.
pub record BackupRequest : Type 0 where
  pub id : ℕ
  pub taken_by : String
  pub reason : String
  pub ticket : String

abbrev pub live_aruba : Option String → String
live_aruba none = ""
live_aruba (some text) = text

-- liveConfigText
abbrev pub live_config_text : Device → Live → Option String
live_config_text device live = elim device.vendor [
  | aruba ↦ some (live_aruba live.synthetic)
  | cisco ↦ live.running
  | mikrotik ↦ live.running
]

abbrev pub is_replayable : String → Bool
is_replayable l =
    not (is_empty (trim l))
    && not (has_prefix "!" l)
    && not (
        has_prefix "version" l
        || has_prefix "Building configuration" l
        || has_prefix "Current configuration" l)

unfoldable pub replayable_lines : String → List String
unfolding trim strip_prefix lines
replayable_lines content = keep is_replayable (lines content)

-- `device.vendor !== 'aruba' && driverFor(device).os !== 'routeros'`
abbrev pub can_replay : Vendor → Bool
can_replay cisco = true
can_replay mikrotik = false
can_replay aruba = false

-- What a drift check comes to: its answer, or `none` when it throws, the alerts, and the lines that
-- it handed to the device.
pub record Drift : Type 0 where
  pub answer : Option Bool
  pub alerts : Alerts
  pub pushed : Option (List String)

-- `commit` is commitConfig, and `push` whether the device takes the lines.
pub record Env : Type 0 where
  pub sha256 : String → String
  pub commit : String → String → Option String
  pub push : String → List String → Bool

module _ (env : Env) where
  abbrev pub hash_of : String → String
  hash_of content = env.sha256 (normalize_config content)

  abbrev pub is_same_hash : String → Option Backup → Bool
  is_same_hash hash none = false
  is_same_hash hash (some b) = str_eq b.sha256 hash

  abbrev pub latest_id : Option Backup → ℕ
  latest_id none = 0
  latest_id (some b) = b.id

  abbrev pub new_backup : BackupRequest → Device → String → Backup
  new_backup req device content = record {
    id = req.id;
    device_id = device.id;
    content = content;
    sha256 = hash_of content;
    taken_by = req.taken_by;
    git_sha = env.commit device.hostname content;
    reason = req.reason;
    ticket = req.ticket;
  }

  abbrev pub store_backup : BackupRequest → Device → Read → List Backup → BackupResult × List Backup
  store_backup req device read_skipped backups = (skipped, backups)
  store_backup req device read_failed backups = (failed, backups)
  store_backup req device (read content) backups =
      let latest = latest_backup device.id backups in
      if is_same_hash (hash_of content) latest
      then (backed (latest_id latest) false, backups)
      else (backed req.id true, new_backup req device content ∷ backups)

  -- backupDevice
  unfoldable pub backup_device :
      BackupRequest → Device → Live → List Backup → BackupResult × List Backup
  unfolding read_config latest_backup normalize_config
  backup_device req device live backups = store_backup req device (read_config device live) backups

  -- The end of checkDrift, with the windows and the time of its second alert.
  abbrev pub remediate_drift : List Window → ℕ → Device → Baseline → Alerts → Drift
  remediate_drift windows now device baseline s =
      let restored = replayable_lines baseline.content in
      if baseline.auto_remediate && can_replay device.vendor
      then (if env.push device.id restored
          then record {
            answer = some true;
            alerts =
                raise_alert windows now (some device.id) "config_drift" info
                  "Baseline configuration automatically restored" s;
            pushed = some restored;
          }
          else record { answer = none; alerts = s; pushed = some restored })
      else record { answer = some true; alerts = s; pushed = none }

  abbrev pub compare_drift : List Window → ℕ → ℕ → Device → Baseline → String → Alerts → Drift
  compare_drift windows now later device baseline current s =
      if is_empty current || str_eq (hash_of current) (hash_of baseline.content)
      then record { answer = some false; alerts = s; pushed = none }
      else remediate_drift windows later device baseline (
          raise_alert windows now (some device.id) "config_drift" warning
            "Running configuration has drifted from the assigned baseline" s)

  abbrev pub drift_from : List Window → ℕ → ℕ → Device → Baseline → Option String → Alerts → Drift
  drift_from windows now later device baseline none s = record {
    answer = none;
    alerts = s;
    pushed = none;
  }
  drift_from windows now later device baseline (some current) s =
      compare_drift windows now later device baseline current s

  -- checkDrift, with the baseline of the device, the time of the first alert and of the second.
  unfoldable pub check_drift :
      List Window → ℕ → ℕ → Device → Option Baseline → Live → Alerts → Drift
  unfolding raise_alert normalize_config replayable_lines
  check_drift windows now later device none live s = record {
    answer = some false;
    alerts = s;
    pushed = none;
  }
  check_drift windows now later device (some baseline) live s =
      drift_from windows now later device baseline (live_config_text device live) s
