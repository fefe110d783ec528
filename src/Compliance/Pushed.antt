-- ===== src/Compliance/Pushed.antt =====
-- What stands behind a push of the automatic remediation (autoRemediateDevice and remediate of
-- backend/src/services/complianceService.ts).
use switchpilot.Prelude.{
  ℕ, ◌≡◌, ◌⊎◌, inl, inr, refl, ap, sym, ◌∙◌, String, Bool, true, false, not, ◌&&◌, List, [], ◌∷◌,
  ◌++◌, append_assoc, Option, none, some, All, All-append, All-mono, Bool-cases, Option-cases,
  arith, str_eq, if◌then◌else◌,
}
use switchpilot.Alerts.{in_maintenance_window}
use switchpilot.Config.{Device, BackupRequest}
use switchpilot.Compliance.Rules.{ComplianceRule}
use switchpilot.Compliance.Results.{Result}
use switchpilot.Compliance.{
  Monitored, State, World, find_rule, may_remediate, failing_rules, take_backup, evaluate,
  after_push, push_lines, remediate_with, lines_for, remediate, audit_push, remediate_all,
  remediate_found, auto_remediate_device, pushed_to,
}

abbrev pub IsRow : Result → List Result → Type 0
IsRow r [] = ⊥
IsRow r (x ∷ results) = (r ≡ x) ⊎ IsRow r results

-- A row says that the device failed the rule, which is enabled and may be remediated.
pub record IsFailing (device : String) (rules : List ComplianceRule) (results : List Result)
    (id : String) : Type 0 where
  pub row : Result
  pub stored : IsRow row results
  pub of_device : str_eq row.device_id device ≡ true
  pub of_rule : row.rule_id ≡ id
  pub not_passed : row.passed ≡ false
  pub allowed : may_remediate (find_rule id rules) ≡ true

later_row :
    (device : String) (rules : List ComplianceRule) (r : Result) (results : List Result)
    (id : String)
    → IsFailing device rules results id
    → IsFailing device rules (r ∷ results) id
later_row device rules r results id f = record {
  row = f.row;
  stored = inr f.stored;
  of_device = f.of_device;
  of_rule = f.of_rule;
  not_passed = f.not_passed;
  allowed = f.allowed;
}

failing_rules-IsFailing :
    (device : String) (rules : List ComplianceRule) (results : List Result)
    → All (IsFailing device rules results) (failing_rules device rules results)
unfolding failing_rules
failing_rules-IsFailing device rules [] = tt
failing_rules-IsFailing device rules (r ∷ results) =
    let rest =
      All-mono (IsFailing device rules results) (IsFailing device rules (r ∷ results))
        (later_row device rules r results) (failing_rules device rules results)
        (failing_rules-IsFailing device rules results) in
    elim (Bool-cases
      (str_eq r.device_id device && (not r.passed && may_remediate (find_rule r.rule_id rules)))) [
        | inr other ↦ rw other rest
        | inl fails ↦ rw fails (
          record {
            row = r;
            stored = inl refl;
            of_device = ground (arith, fails);
            of_rule = refl;
            not_passed = ground (arith, fails);
            allowed = ground (arith, fails);
          },
          rest,
        )
      ]

module _ (w : World) where
  -- A push to this device of the lines of a rule that it failed.
  pub record IsFrom (d : Monitored) (results : List Result) (p : String × List String)
      : Type 0 where
    pub rule_id : String
    pub failing : IsFailing d.device.id w.rules results rule_id
    pub to_device : p.0 ≡ d.device.id
    pub rule_lines : lines_for w (find_rule rule_id w.rules) ≡ some p.1

  -- What was pushed between two states.
  pub record Made (P : String × List String → Type 0) (s t : State) : Type 0 where
    pub made : List (String × List String)
    pub pushes : t.pushes ≡ made ++ s.pushes
    pub each : All P made

  nothing : (P : String × List String → Type 0) (s t : State) → t.pushes ≡ s.pushes → Made P s t
  nothing P s t e = record { made = []; pushes = e; each = tt }

  both : (P : String × List String → Type 0) (s t u : State) → Made P s t → Made P t u → Made P s u
  both P s t u first second = record {
    made = second.made ++ first.made;
    pushes =
        second.pushes
        ∙ ap (λ l. second.made ++ l) first.pushes
        ∙ sym (append_assoc second.made first.made s.pushes);
    each = All-append P second.made first.made second.each first.each;
  }

  pushes-take_backup :
      (req : BackupRequest) (d : Device) (s : State) → (take_backup w req d s).1.pushes ≡ s.pushes
  unfolding take_backup
  pushes-take_backup req d s = refl

  pushes-evaluate : (now : ℕ) (d : Monitored) (s : State) → (evaluate w now d s).pushes ≡ s.pushes
  unfolding evaluate
  pushes-evaluate now d s = refl

  pushes-after_push :
      (now : ℕ) (req : BackupRequest) (d : Monitored) (printed : String) (b : Bool × State)
      → (after_push w now req d printed b).1.pushes ≡ b.1.pushes
  pushes-after_push now req d printed (true, s) = pushes-evaluate now d s
  pushes-after_push now req d printed (false, s) = refl

  remediate-Made :
      (now : ℕ) (req : BackupRequest) (d : Monitored) (rule : String) (results : List Result)
      (s : State)
      → IsFailing d.device.id w.rules results rule
      → Made (IsFrom d results) s (remediate w now req d rule s).1
  unfolding remediate
  remediate-Made now req d rule results s fails =
      by_lines (lines_for w (find_rule rule w.rules)) refl
    where
      by_push :
          (change : List String)
          → lines_for w (find_rule rule w.rules) ≡ some change
          → (b : Bool × State) → b.1.pushes ≡ s.pushes
          → Made (IsFrom d results) s (push_lines w now req d change b).1
      by_push change e (false, t) same = nothing (IsFrom d results) s t same
      by_push change e (true, t) same = elim (Option-cases (w.push d.device.id change)) [
        | inl refused ↦ rw (refused, push_lines) (nothing (IsFrom d results) s t same)
        | inr (printed, taken) ↦
            rw (taken, push_lines)
              (record {
                made = (d.device.id, change) ∷ [];
                pushes =
                    pushes-after_push now req d printed _
                    ∙ pushes-take_backup req d.device (pushed_to w d.device change t)
                    ∙ ap (λ l. (d.device.id, change) ∷ l) same;
                each = (
                  record { rule_id = rule; failing = fails; to_device = refl; rule_lines = e },
                  tt,
                );
              })
      ]

      by_lines :
          (l : Option (List String))
          → lines_for w (find_rule rule w.rules) ≡ l
          → Made (IsFrom d results) s (remediate_with w now req d l s).1
      by_lines none e = nothing (IsFrom d results) s s refl
      by_lines (some change) e =
          by_push change e (take_backup w req d.device s) (pushes-take_backup req d.device s)

  audit_push-pushes :
      (d : Monitored) (o : Option String × State) → (audit_push w d o).pushes ≡ o.1.pushes
  audit_push-pushes d (none, s) = refl
  audit_push-pushes d (some printed, s) = refl

  remediate_all-Made :
      (now : ℕ) (req : BackupRequest) (d : Monitored) (rules : List String) (results : List Result)
      (s : State)
      → All (IsFailing d.device.id w.rules results) rules
      → Made (IsFrom d results) s (remediate_all w now req d rules s)
  unfolding remediate_all
  remediate_all-Made now req d [] results s h = nothing (IsFrom d results) s s refl
  remediate_all-Made now req d (rule ∷ rules) results s (fails, h) =
      let one = remediate w now req d rule s in
      both (IsFrom d results) s (audit_push w d one) _
        (both (IsFrom d results) s one.1 (audit_push w d one)
          (remediate-Made now req d rule results s fails)
          (nothing (IsFrom d results) one.1 (audit_push w d one) (audit_push-pushes d one)))
        (remediate_all-Made now req d rules results (audit_push w d one) h)

  -- The automatic remediation of a device either pushes nothing, or it is switched on, the device is
  -- in no maintenance window, and every push that it makes goes to this device and holds the lines
  -- that are built from an enabled rule with the flag, which a row from before the remediation says
  -- that the device failed. This is whatever the device answers and whichever pushes throw, and it
  -- is about the pushes of the engine, not those of an automation rule that a trigger runs.
  pub auto_remediate_device-IsFrom :
      (now : ℕ) (req : BackupRequest) (d : Monitored) (s : State)
      → ((auto_remediate_device w now req d s).pushes ≡ s.pushes)
        ⊎ ((w.auto_enabled ≡ true)
            × (in_maintenance_window w.windows now d.device.id ≡ false)
            × Made (IsFrom d s.results) s (auto_remediate_device w now req d s))
  unfolding auto_remediate_device
  auto_remediate_device-IsFrom now req d s = by_switch w.auto_enabled
    where
      by_found :
          (rules : List String)
          → All (IsFailing d.device.id w.rules s.results) rules
          → ((remediate_found w now req d rules s).pushes ≡ s.pushes)
            ⊎ ((true ≡ true)
                × (in_maintenance_window w.windows now d.device.id ≡ false)
                × Made (IsFrom d s.results) s (remediate_found w now req d rules s))
      by_found [] h = inl refl
      by_found (rule ∷ rules) h =
          elim (Bool-cases (in_maintenance_window w.windows now d.device.id)) [
            | inl inside ↦ inl (rw inside refl)
            | inr outside ↦ inr (
              refl,
              outside,
              rw outside (remediate_all-Made now req d (rule ∷ rules) s.results s h),
            )
          ]

      by_switch :
          (b : Bool)
          → ((if b
                then remediate_found w now req d (failing_rules d.device.id w.rules s.results) s
                else s).pushes
              ≡ s.pushes)
            ⊎ ((b ≡ true)
                × (in_maintenance_window w.windows now d.device.id ≡ false)
                × Made (IsFrom d s.results) s (
                    if b
                    then remediate_found w now req d (failing_rules d.device.id w.rules s.results) s
                    else s))
      by_switch false = inl refl
      by_switch true =
          by_found (failing_rules d.device.id w.rules s.results)
            (failing_rules-IsFailing d.device.id w.rules s.results)
