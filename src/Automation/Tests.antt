-- ===== src/Automation/Tests.antt =====
-- Two rules on a hot switch, inside and outside of a window, and the theorem at them.
use switchpilot.Prelude.{◌≡◌, ◌≢◌, refl, String, Bool, true, List, [], ◌∷◌, Option, none, some, All}
use switchpilot.Alerts.{info, critical, Window, in_maintenance_window, any_of}
use switchpilot.Automation.{
  notify, run_template, Rule, TriggerContext, Effect, push_config, alert, execute_rule,
  run_automation_trigger,
}
use switchpilot.Automation.Windows.{IsBacked, run_automation_trigger-IsBacked}

abbrev tell : Rule
tell = record {
  enabled = true;
  trigger = "cpu_high";
  name = "tell";
  action = notify;
  threshold = some 95;
  severity = some critical;
  template_id = none;
}

abbrev calm : Rule
calm = record tell {
  name = "calm";
  action = run_template;
  threshold = none;
  template_id = some "t1";
}

abbrev hot : TriggerContext
hot = record { device_id = "sw1"; port = none; cpu = some 97; temp = none }

abbrev upgrade : List Window
upgrade = record { starts_at = 100; ends_at = 200; device_ids = "sw1" ∷ [] } ∷ []

abbrev always : Effect → Bool
always e = true

abbrev rendered : String → Option String → Option (List String)
rendered id port = some ("no logging console" ∷ [])

-- The template is held back in the window and pushed after it; the alert is asked for both times.
template_after_window :
    run_automation_trigger always rendered upgrade "cpu_high" hot
      ((150, tell) ∷ (150, calm) ∷ (250, calm) ∷ [])
    ≡ alert "sw1" "rule:tell" critical
      ∷ push_config "sw1" ("no logging console" ∷ [])
      ∷ alert "sw1" "rule:calm" info
      ∷ []
unfolding run_automation_trigger execute_rule in_maintenance_window any_of
template_after_window = refl

sw1_named : ◌≢◌ {A = String} "sw1" ""
sw1_named = λ e. cc

run_automation_trigger-IsBacked_example :
    All (IsBacked always rendered upgrade "cpu_high" hot ((150, tell) ∷ (250, calm) ∷ [])) (
      run_automation_trigger always rendered upgrade "cpu_high" hot
        ((150, tell) ∷ (250, calm) ∷ []))
run_automation_trigger-IsBacked_example =
    run_automation_trigger-IsBacked always rendered upgrade "cpu_high" hot
      ((150, tell) ∷ (250, calm) ∷ []) sw1_named
