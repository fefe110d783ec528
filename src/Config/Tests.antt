-- ===== src/Config/Tests.antt =====
-- Backups and drift checks of one switch, and the theorems at inputs that meet their hypotheses.
use switchpilot.Prelude.{
  ℕ, ◌≡◌, ◌≢◌, refl, String, true, List, [], ◌∷◌, none, some, All, str_eq, if◌then◌else◌,
}
use switchpilot.Util.Text.{
  trim, trim_start, trim_end, is_space, lines, unlines, join_line, strip_prefix,
}
use switchpilot.Alerts.{Alerts, warning, in_maintenance_window, raise_alert}
use switchpilot.Config.{
  Device, Live, Baseline, BackupRequest, cisco, Env, is_volatile, normalize_config, read_config,
  backup_device, replayable_lines, check_drift,
}
use switchpilot.Config.Stored.{held, written, IsSealed, backup_device-refines}
use switchpilot.Config.Drifted.{check_drift-reports_once, IsAllowed}

-- Every text is its own digest.
abbrev env : Env
env = record { sha256 = λ text. text; commit = λ name text. none; push = λ id restored. true }

abbrev access1 : Device
access1 = record { id = "d1"; vendor = cisco; hostname = "access1" }

abbrev head : String
head = "hostname access1 with a name that is long enough to pass"

abbrev first_text : List String
first_text = "! Last configuration change at 09:00" ∷ "vlan 10" ∷ []

abbrev second_text : List String
second_text = "! Last configuration change at 10:00" ∷ "! by ann" ∷ "vlan 10  " ∷ []

abbrev answers : List String → Live
answers rest = record { running = some (unlines (head ∷ rest)); synthetic = none }

abbrev req : ℕ → BackupRequest
req n = record { id = n; taken_by = "ann"; reason = ""; ticket = "" }

volatile_lines : normalize_config (unlines (head ∷ second_text)) ≡ unlines (head ∷ "vlan 10" ∷ [])
unfolding normalize_config is_volatile trim trim_start trim_end is_space lines unlines join_line
    strip_prefix
volatile_lines = refl

-- Comments and the header lines of a dump are not replayed.
replayed :
    replayable_lines (unlines ("! x" ∷ "version 15.2" ∷ "vlan 10" ∷ "" ∷ [])) ≡ "vlan 10" ∷ []
unfolding replayable_lines lines unlines join_line strip_prefix trim trim_start trim_end is_space
replayed = refl

backup_device-refines_example :
    (held (backup_device env (req 1) access1 (answers first_text) []).1 "d1" ≡ (
      if str_eq "d1" "d1"
      then written (read_config access1 (answers first_text)) (held [] "d1")
      else held [] "d1"))
    × All (IsSealed env) (backup_device env (req 1) access1 (answers first_text) []).1
backup_device-refines_example =
    backup_device-refines env (λ s t e. e) (req 1) access1 (answers first_text) [] "d1" tt

abbrev baseline : Baseline
baseline = record { auto_remediate = true; content = unlines (head ∷ "vlan 20" ∷ []) }

abbrev quiet : Alerts
quiet = record { alerts = []; last_email = []; emails = [] }

abbrev now_reads : Live
now_reads = record { running = some "vlan 10"; synthetic = none }

check_drift-reports_once_example :
    ((check_drift env [] 5 6 access1 (some baseline) now_reads quiet).alerts
      ≡ raise_alert [] 5
          (some "d1")
          "config_drift"
          warning
          "Running configuration has drifted from the assigned baseline"
          quiet)
    × IsAllowed env access1 baseline
        (check_drift env [] 5 6 access1 (some baseline) now_reads quiet).pushed
    × (normalize_config "vlan 10" ≢ normalize_config baseline.content)
unfolding in_maintenance_window check_drift normalize_config is_volatile trim trim_start trim_end
    is_space lines unlines join_line strip_prefix
check_drift-reports_once_example =
    check_drift-reports_once env [] 5 6 access1 baseline now_reads quiet "vlan 10" refl refl refl
