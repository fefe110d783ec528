-- ===== src/Compliance/Tests.antt =====
-- The compliance of one switch, and the theorems at inputs that meet their hypotheses.
use switchpilot.Prelude.{
  arith, ◌≡◌, ◌⊎◌, refl, true, false, List, [], ◌∷◌, none, some, keep, length, str_eq,
  if◌then◌else◌,
}
use switchpilot.Util.Text.{lines, negates, trim, trim_start, trim_end, is_space, strip_prefix}
use switchpilot.Alerts.{in_maintenance_window}
use switchpilot.Config.{BackupRequest, cisco}
use switchpilot.Compliance.Rules.{
  ComplianceRule, Js, line_present, find_line, evaluate_rule, keyword, word_run,
  build_remediation_lines, replace_from,
}
use switchpilot.Compliance.Results.{Result, applies, turns, evaluate_device}
use switchpilot.Compliance.Evaluated.{rule_of, fresh_rows, rows_of, evaluate_device-rows}
use switchpilot.Compliance.{Monitored, State, World, auto_remediate_device}
use switchpilot.Compliance.Pushed.{IsFrom, Made, auto_remediate_device-IsFrom}

-- The only pattern that compiles matches nothing.
abbrev js : Js
js = record {
  regexp = λ pattern. if str_eq pattern "a^" then some (λ line. false) else none;
  lower = λ text. text;
  cut = λ text. text;
  platform_host = some "10.0.0.9";
}

abbrev aaa : ComplianceRule
aaa = record {
  id = "r1";
  name = "aaa";
  match_type = line_present;
  pattern = "aaa new-model";
  remediation = "aaa new-model\n\nlogging host {platform_host}";
  site_id = none;
  vendor = "cisco";
  enabled = true;
  auto_remediate = true;
}

-- A negated line does not count as the line.
negated : (evaluate_rule js aaa "vlan 10\nno aaa new-model").passed ≡ false
unfolding evaluate_rule lines find_line negates trim_start is_space strip_prefix
negated = refl

demanded : (evaluate_rule js aaa "vlan 10\naaa new-model").passed ≡ true
unfolding evaluate_rule lines find_line negates trim_start is_space strip_prefix
demanded = refl

remediation : build_remediation_lines js aaa ≡ some ("aaa new-model" ∷ "logging host 10.0.0.9" ∷ [])
unfolding build_remediation_lines lines trim trim_start trim_end is_space replace_from strip_prefix
remediation = refl

first_keyword : keyword "^(ip ssh-version 2)" ≡ "ssh-version"
unfolding keyword word_run
first_keyword = refl

abbrev before : List Result
before =
    record { device_id = "d1"; rule_id = "r1"; passed = true; detail = ""; checked_at = 1 }
    ∷ record { device_id = "d1"; rule_id = "r9"; passed = true; detail = ""; checked_at = 1 }
    ∷ record { device_id = "d2"; rule_id = "r9"; passed = true; detail = ""; checked_at = 1 }
    ∷ []

evaluate_device-rows_example :
    let chosen = keep (applies none) (aaa ∷ []) in
    let after = evaluate_device js 5 "d1" (some "vlan 10") none (aaa ∷ []) before in
    (rows_of "d1" "r1" after.results ≡ fresh_rows js 5 "d1" "vlan 10" (rule_of "r1" chosen))
    × (rows_of "d2" "r1" after.results ≡ rows_of "d2" "r1" before)
    × (after.triggered ≡ keep (turns js "d1" "vlan 10" before) chosen)
    × (after.passed ≡ length (keep (λ rule. (evaluate_rule js rule "vlan 10").passed) chosen))
evaluate_device-rows_example =
    evaluate_device-rows js 5 "d1" "vlan 10" "d2" "r1" none (aaa ∷ []) before refl (omega arith)

abbrev world : World
world = record {
  js = js;
  config = record { sha256 = λ text. text; commit = λ n t. none; push = λ d l. true };
  rules = aaa ∷ [];
  windows = [];
  answers = λ pushes device. record { running = some "vlan 10"; synthetic = none };
  push = λ device change. some "ok";
  auto_enabled = true;
}

abbrev access1 : Monitored
access1 = record {
  device = record { id = "d1"; vendor = cisco; hostname = "access1" };
  place = none;
  offline = false;
}

abbrev req : BackupRequest
req = record { id = 1; taken_by = "ann"; reason = ""; ticket = "" }

abbrev state : State
state = record {
  backups = [];
  results =
      record { device_id = "d1"; rule_id = "r1"; passed = false; detail = ""; checked_at = 1 } ∷ [];
  pushes = [];
  audits = [];
}

auto_remediate_device-IsFrom_example :
    ((auto_remediate_device world 5 req access1 state).pushes ≡ state.pushes)
    ⊎ ((world.auto_enabled ≡ true)
        × (in_maintenance_window world.windows 5 "d1" ≡ false)
        × Made world
            (IsFrom world access1 state.results)
            state
            (auto_remediate_device world 5 req access1 state))
auto_remediate_device-IsFrom_example = auto_remediate_device-IsFrom world 5 req access1 state
