-- ===== src/Automation.antt =====
-- Automation rules (backend/src/services/automationService.ts). A run answers the calls that it
-- makes to the devices and to `raiseAlert`; which device calls succeed is a parameter, and the text
-- of the alerts is left out.
pub mod Windows
mod Tests
use Prim.Native.String
use switchpilot.Prelude.{
  ℕ, zero, suc, ◌+◌, String, Bool, true, false, not, ◌&&◌, ◌||◌, List, [], ◌∷◌, ◌++◌, Option, none,
  some, ltb, if◌then◌else◌, str_eq,
}
use switchpilot.Alerts.{Severity, info, warning, Window, in_maintenance_window}

-- `other` is any text that the `switch` has no case for.
pub data Action : Type 0 where
  notify restore_baseline run_template disable_port : Action
  other : String → Action

pub record Rule : Type 0 where
  pub enabled : Bool
  pub trigger : String
  pub name : String
  pub action : Action
  pub threshold : Option ℕ
  pub severity : Option Severity
  pub template_id : Option String

pub record TriggerContext : Type 0 where
  pub device_id : String
  pub port : Option String
  pub cpu : Option ℕ
  pub temp : Option ℕ

-- The calls of a rule: two that write to a device, the drift check, which may write, and the alert.
pub data Effect : Type 0 where
  check_drift : String → Effect
  push_config : String → List String → Effect
  set_port_down : String → String → Effect
  alert : String → String → Severity → Effect

-- How a rule ends: it returned, or it threw.
pub record Outcome : Type 0 where
  pub returned : Bool
  pub effects : List Effect

abbrev pub is_state_changing_action : Action → Bool
is_state_changing_action notify = false
is_state_changing_action restore_baseline = true
is_state_changing_action run_template = true
is_state_changing_action disable_port = true
is_state_changing_action (other text) = false

-- `cond.threshold !== undefined && reading !== undefined && reading < cond.threshold`
abbrev pub below : Option ℕ → Option ℕ → Bool
below none reading = false
below (some threshold) none = false
below (some threshold) (some reading) = ltb reading threshold

abbrev pub severity_or : Option Severity → Severity → Severity
severity_or none s = s
severity_or (some t) s = t

abbrev pub returns : List Effect → Outcome
returns effects = record { returned = true; effects = effects }

abbrev pub throws : List Effect → Outcome
throws effects = record { returned = false; effects = effects }

-- `!params.templateId`, and what is rendered for it; `none` when the rendering throws.
module _ (works : Effect → Bool) (render : String → Option String → Option (List String)) where
  -- A call to a device, and what follows when it does not throw.
  abbrev pub calling : Effect → List Effect → Outcome
  calling e rest = if works e then returns (e ∷ rest) else throws (e ∷ [])

  abbrev pub alert_of : Rule → TriggerContext → Severity → Effect
  alert_of rule ctx severity = alert ctx.device_id (String.◌++◌ "rule:" rule.name) severity

  abbrev pub push_rendered : Rule → TriggerContext → Option (List String) → Outcome
  push_rendered rule ctx none = throws []
  push_rendered rule ctx (some lines) =
      calling (push_config ctx.device_id lines) (alert_of rule ctx info ∷ [])

  abbrev pub run_template_of : Rule → TriggerContext → Option String → Outcome
  run_template_of rule ctx none = throws []
  run_template_of rule ctx (some String.[]) = throws []
  run_template_of rule ctx (some (String.◌∷◌ c s)) =
      push_rendered rule ctx (render (String.◌∷◌ c s) ctx.port)

  abbrev pub disable_port_of : Rule → TriggerContext → Option String → Outcome
  disable_port_of rule ctx none = returns []
  disable_port_of rule ctx (some String.[]) = returns []
  disable_port_of rule ctx (some (String.◌∷◌ c s)) =
      calling (set_port_down ctx.device_id (String.◌∷◌ c s)) (alert_of rule ctx warning ∷ [])

  -- The `switch` of executeRule.
  abbrev pub perform : Rule → TriggerContext → Action → Outcome
  perform rule ctx notify = returns (alert_of rule ctx (severity_or rule.severity warning) ∷ [])
  perform rule ctx restore_baseline = calling (check_drift ctx.device_id) []
  perform rule ctx run_template = run_template_of rule ctx rule.template_id
  perform rule ctx disable_port = disable_port_of rule ctx ctx.port
  perform rule ctx (other text) = throws []

  -- executeRule
  unfoldable pub execute_rule : List Window → ℕ → Rule → TriggerContext → Outcome
  unfolding in_maintenance_window
  execute_rule windows now rule ctx =
      if below rule.threshold ctx.cpu || below rule.threshold ctx.temp
      then returns []
      else (if is_state_changing_action rule.action
            && (not (str_eq ctx.device_id "") && in_maintenance_window windows now ctx.device_id)
          then returns []
          else perform rule ctx rule.action)

  abbrev pub fires : String → Rule → Bool
  fires trigger rule = rule.enabled && str_eq rule.trigger trigger

  -- runAutomationTrigger: the rules with the times at which they run; a rule that throws is logged.
  unfoldable pub run_automation_trigger :
      List Window → String → TriggerContext → List (ℕ × Rule) → List Effect
  unfolding execute_rule
  run_automation_trigger windows trigger ctx [] = []
  run_automation_trigger windows trigger ctx ((now, rule) ∷ rules) =
      let rest = run_automation_trigger windows trigger ctx rules in
      if fires trigger rule then (execute_rule windows now rule ctx).effects ++ rest else rest
