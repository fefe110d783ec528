-- ===== src/Automation/Windows.antt =====
-- What a trigger may do to a device, in a maintenance window and outside of one.
use switchpilot.Prelude.{
  ℕ, ◌≡◌, ◌≢◌, ◌⊎◌, inl, inr, refl, String, Bool, true, false, ◌||◌, List, [], ◌∷◌, Option, All,
  All-append, All-mono, Bool-cases, arith, str_eq, str_eq_iff,
}
use switchpilot.Alerts.{Window, in_maintenance_window}
use switchpilot.Automation.{
  Action, notify, restore_baseline, run_template, disable_port, other, Rule, TriggerContext, Effect,
  check_drift, push_config, set_port_down, alert, is_state_changing_action, below, perform,
  execute_rule, fires, run_automation_trigger,
}

abbrev pub is_write : Effect → Bool
is_write (check_drift id) = true
is_write (push_config id lines) = true
is_write (set_port_down id port) = true
is_write (alert id kind severity) = false

-- The rule stands in the list, with its time.
abbrev pub IsListed : ℕ → Rule → List (ℕ × Rule) → Type 0
IsListed now rule [] = ⊥
IsListed now rule ((t, r) ∷ rules) = ((now ≡ t) × (rule ≡ r)) ⊎ IsListed now rule rules

module _ (works : Effect → Bool) (render : String → Option String → Option (List String))
    (windows : List Window) (trigger : String) (ctx : TriggerContext) where
  -- What stands behind a call: an enabled rule of the trigger whose threshold the readings reach,
  -- and, if the call may write, which ran outside of every window of the device.
  pub record IsBacked (rules : List (ℕ × Rule)) (e : Effect) : Type 0 where
    pub now : ℕ
    pub rule : Rule
    pub listed : IsListed now rule rules
    pub enabled : rule.enabled ≡ true
    pub triggered : rule.trigger ≡ trigger
    pub reached : (below rule.threshold ctx.cpu ≡ false) × (below rule.threshold ctx.temp ≡ false)
    pub outside : (is_write e ≡ false) ⊎ (in_maintenance_window windows now ctx.device_id ≡ false)

  -- A rule whose action does not change the device makes no writing call.
  perform_quiet :
      (rule : Rule) (action : Action)
      → is_state_changing_action action ≡ false
      → All (λ e. is_write e ≡ false) (perform works render rule ctx action).effects
  perform_quiet rule notify h = (refl, tt)
  perform_quiet rule restore_baseline h = absurd (ground arith)
  perform_quiet rule run_template h = absurd (ground arith)
  perform_quiet rule disable_port h = absurd (ground arith)
  perform_quiet rule (other text) h = tt

  anything : (P : Effect → Type 0) → ((e : Effect) → P e) → (es : List Effect) → All P es
  anything P h [] = tt
  anything P h (e ∷ es) = (h e, anything P h es)

  execute_rule-IsBacked :
      (now : ℕ) (rule : Rule) (rules : List (ℕ × Rule))
      → ctx.device_id ≢ ""
      → IsListed now rule rules
      → fires works render trigger rule ≡ true
      → All (IsBacked rules) (execute_rule works render windows now rule ctx).effects
  unfolding execute_rule
  execute_rule-IsBacked now rule rules named listed fired =
      elim (Bool-cases (below rule.threshold ctx.cpu || below rule.threshold ctx.temp)) [
        | inl low ↦ rw low tt
        | inr high ↦ elim (Bool-cases (is_state_changing_action rule.action)) [
          | inl writes ↦ elim (Bool-cases (in_maintenance_window windows now ctx.device_id)) [
            | inl inside ↦ rw (high, writes, inside, unnamed) tt
            | inr outside ↦
                rw (high, writes, outside, unnamed)
                  (anything (IsBacked rules) (λ e. backed high e (inr outside)) _)
          ]
          | inr reads ↦
              rw (high, reads)
                (All-mono _ _ (λ e quiet. backed high e (inl quiet)) _
                  (perform_quiet rule rule.action reads))
        ]
      ]
    where
      unnamed : str_eq ctx.device_id "" ≡ false
      unnamed = ground (arith, str_eq_iff ctx.device_id "", named)

      backed :
          below rule.threshold ctx.cpu || below rule.threshold ctx.temp ≡ false
          → (e : Effect)
          → (is_write e ≡ false) ⊎ (in_maintenance_window windows now ctx.device_id ≡ false)
          → IsBacked rules e
      backed high e out = record {
        now = now;
        rule = rule;
        listed = listed;
        enabled = ground (arith, fired);
        triggered = (str_eq_iff rule.trigger trigger).0 (ground (arith, fired));
        reached = (ground (arith, high), ground (arith, high));
        outside = out;
      }

  later :
      (now : ℕ) (rule : Rule) (rules : List (ℕ × Rule)) (e : Effect)
      → IsBacked rules e
      → IsBacked ((now, rule) ∷ rules) e
  later now rule rules e b = record {
    now = b.now;
    rule = b.rule;
    listed = inr b.listed;
    enabled = b.enabled;
    triggered = b.triggered;
    reached = b.reached;
    outside = b.outside;
  }

  -- Every call that a trigger makes for a named device stands behind an enabled rule of the trigger that
  -- the readings reach, and none that may write to the device is made inside one of its windows.
  pub run_automation_trigger-IsBacked :
      (rules : List (ℕ × Rule))
      → ctx.device_id ≢ ""
      → All (IsBacked rules) (run_automation_trigger works render windows trigger ctx rules)
  unfolding run_automation_trigger
  run_automation_trigger-IsBacked [] named = tt
  run_automation_trigger-IsBacked ((now, rule) ∷ rules) named =
      let rest =
        All-mono _ _ (later now rule rules) _ (run_automation_trigger-IsBacked rules named) in
      elim (Bool-cases (fires works render trigger rule)) [
        | inl fired ↦ rw fired (
            All-append _ _ _
              (execute_rule-IsBacked now rule ((now, rule) ∷ rules) named (inl (refl, refl)) fired)
              rest)
        | inr idle ↦ rw idle rest
      ]
