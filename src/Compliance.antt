-- ===== src/Compliance.antt =====
-- The compliance engine (backend/src/services/complianceService.ts): the rules, the rows of their
-- results, and the remediation of what failed. What a device answers is a function of the pushes
-- that it took so far, the latest first; times are arguments. The devices of a sweep stand one
-- after the other, where the code handles eight at once.
pub mod Rules
pub mod Results
pub mod Evaluated
pub mod Pushed
mod Tests
use switchpilot.Prelude.{
  ℕ, suc, ◌+◌, String, Bool, true, false, not, ◌&&◌, ◌||◌, List, [], ◌∷◌, ◌++◌, Option, none, some,
  keep, length, is_some, if◌then◌else◌, str_eq,
}
use switchpilot.Util.Text.{is_empty}
use switchpilot.Alerts.{Window, in_maintenance_window}
use switchpilot.Config as Config
use switchpilot.Config.{
  Device, Live, Backup, BackupRequest, BackupResult, backed, skipped, failed, latest_backup,
  backup_device,
}
use switchpilot.Compliance.Rules.{ComplianceRule, Js, evaluate_rule, build_remediation_lines}
use switchpilot.Compliance.Results.{Result, Place, Evaluation, applies, evaluate_device}

-- The row of a device as the sweep reads it.
pub record Monitored : Type 0 where
  pub device : Device
  pub place : Option Place
  pub offline : Bool

-- A push is the device and its lines; an audit entry is the action and the device.
pub record State : Type 0 where
  pub backups : List Backup
  pub results : List Result
  pub pushes : List (String × List String)
  pub audits : List (String × String)

-- `answers` is what a device answers after the pushes so far, and `push` what it prints, or `none`
-- when the push throws.
pub record World : Type 0 where
  pub js : Js
  pub config : Config.Env
  pub rules : List ComplianceRule
  pub windows : List Window
  pub answers : List (String × List String) → String → Live
  pub push : String → List String → Option String
  pub auto_enabled : Bool

unfoldable pub find_rule : String → List ComplianceRule → Option ComplianceRule
find_rule id [] = none
find_rule id (rule ∷ rules) = if str_eq rule.id id then some rule else find_rule id rules

abbrev pub content_of : Option Backup → Option String
content_of none = none
content_of (some b) = some b.content

-- Rows of a device that failed, with rules that may be remediated. The rule is named by its id.
abbrev pub may_remediate : Option ComplianceRule → Bool
may_remediate none = false
may_remediate (some rule) = rule.enabled && (rule.auto_remediate && not (is_empty rule.remediation))

unfoldable pub failing_rules : String → List ComplianceRule → List Result → List String
unfolding find_rule
failing_rules device rules [] = []
failing_rules device rules (r ∷ results) =
    let rest = failing_rules device rules results in
    if str_eq r.device_id device && (not r.passed && may_remediate (find_rule r.rule_id rules))
    then r.rule_id ∷ rest
    else rest

module _ (w : World) where
  -- One backup of the device as it answers now, and whether it threw.
  abbrev pub did_backup : BackupResult → Bool
  did_backup (backed id changed) = true
  did_backup skipped = true
  did_backup failed = false

  unfoldable pub take_backup : BackupRequest → Device → State → Bool × State
  unfolding backup_device
  take_backup req device s =
      let (outcome, backups) =
        backup_device w.config req device (w.answers s.pushes device.id) s.backups in
      (did_backup outcome, record s { backups = backups })

  -- The evaluation by the latest backup.
  unfoldable pub evaluate : ℕ → Monitored → State → State
  unfolding evaluate_device latest_backup
  evaluate now d s = record s {
    results =
        (evaluate_device w.js now d.device.id (content_of (latest_backup d.device.id s.backups))
          d.place w.rules s.results).results;
  }

  abbrev pub pushed_to : Device → List String → State → State
  pushed_to device change s = record s { pushes = (device.id, change) ∷ s.pushes }

  -- What follows a push that the device took: the fresh backup and the evaluation.
  abbrev pub after_push :
      ℕ → BackupRequest → Monitored → String → Bool × State → Option String × State
  after_push now req d printed (ok, s) = if ok then (some printed, evaluate now d s) else (none, s)

  abbrev pub push_lines :
      ℕ → BackupRequest → Monitored → List String → Bool × State → Option String × State
  push_lines now req d change (false, s) = (none, s)
  push_lines now req d change (true, s) = elim (w.push d.device.id change) [
    | none ↦ (none, s)
    | some printed ↦
        after_push now req d printed (take_backup req d.device (pushed_to d.device change s))
  ]

  abbrev pub remediate_with :
      ℕ → BackupRequest → Monitored → Option (List String) → State → Option String × State
  remediate_with now req d none s = (none, s)
  remediate_with now req d (some change) s =
      push_lines now req d change (take_backup req d.device s)

  abbrev pub lines_for : Option ComplianceRule → Option (List String)
  lines_for none = none
  lines_for (some rule) = build_remediation_lines w.js rule

  -- remediate; `none` when it throws.
  unfoldable pub remediate : ℕ → BackupRequest → Monitored → String → State → Option String × State
  unfolding find_rule take_backup evaluate build_remediation_lines
  remediate now req d rule s = remediate_with now req d (lines_for (find_rule rule w.rules)) s

  abbrev pub audit_push : Monitored → Option String × State → State
  audit_push d (none, s) = s
  audit_push d (some printed, s) = record s {
    audits = ("compliance.auto_remediate", d.device.id) ∷ s.audits;
  }

  -- The loop over the rules that failed; a remediation that throws is logged.
  unfoldable pub remediate_all : ℕ → BackupRequest → Monitored → List String → State → State
  unfolding remediate
  remediate_all now req d [] s = s
  remediate_all now req d (rule ∷ rules) s =
      remediate_all now req d rules (audit_push d (remediate now req d rule s))

  abbrev pub remediate_found : ℕ → BackupRequest → Monitored → List String → State → State
  remediate_found now req d [] s = s
  remediate_found now req d (rule ∷ rules) s =
      if in_maintenance_window w.windows now d.device.id
      then record s { audits = ("compliance.auto_remediate.skipped", d.device.id) ∷ s.audits }
      else remediate_all now req d (rule ∷ rules) s

  -- autoRemediateDevice
  unfoldable pub auto_remediate_device : ℕ → BackupRequest → Monitored → State → State
  unfolding failing_rules remediate_all in_maintenance_window
  auto_remediate_device now req d s =
      if w.auto_enabled
      then remediate_found now req d (failing_rules d.device.id w.rules s.results) s
      else s

  -- One device of the sweep: a backup that throws ends it.
  abbrev pub sweep_evaluated : ℕ → BackupRequest → Monitored → Bool × State → State
  sweep_evaluated now req d (false, s) = s
  sweep_evaluated now req d (true, s) =
      if d.offline then evaluate now d s else auto_remediate_device now req d (evaluate now d s)

  abbrev pub sweep_device : ℕ → BackupRequest → Bool → Monitored → State → State
  sweep_device now req fresh d s =
      sweep_evaluated now req d
        (if fresh && not d.offline then take_backup req d.device s else (true, s))

  -- evaluateAllCompliance
  unfoldable pub evaluate_all_compliance : ℕ → BackupRequest → Bool → List Monitored → State → State
  unfolding auto_remediate_device evaluate take_backup
  evaluate_all_compliance now req fresh [] s = s
  evaluate_all_compliance now req fresh (d ∷ devices) s =
      evaluate_all_compliance now req fresh devices (sweep_device now req fresh d s)
