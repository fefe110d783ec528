-- ===== src/Compliance/Results.antt =====
-- The rows of `compliance_results` and their evaluation (evaluateDevice of
-- backend/src/services/complianceService.ts).
use switchpilot.Prelude.{
  ℕ, suc, String, Bool, true, false, not, ◌&&◌, ◌||◌, List, [], ◌∷◌, ◌++◌, Option, none, some, keep,
  length, if◌then◌else◌, str_eq,
}
use switchpilot.Compliance.Rules.{ComplianceRule, Js, evaluate_rule}

pub record Result : Type 0 where
  pub device_id : String
  pub rule_id : String
  pub passed : Bool
  pub detail : String
  pub checked_at : ℕ

-- What the query on `devices` gives, if there is a row.
pub record Place : Type 0 where
  pub site_id : Option String
  pub vendor : String

abbrev pub is_of : String → String → Result → Bool
is_of device rule r = str_eq r.device_id device && str_eq r.rule_id rule

unfoldable pub find_result : String → String → List Result → Option Result
find_result device rule [] = none
find_result device rule (r ∷ results) =
    if is_of device rule r then some r else find_result device rule results

-- `INSERT … ON CONFLICT (device_id, rule_id) DO UPDATE`
unfoldable pub upsert : Result → List Result → List Result
upsert row [] = row ∷ []
upsert row (r ∷ results) =
    if is_of row.device_id row.rule_id r then row ∷ results else r ∷ upsert row results

-- `site_id IS NULL OR site_id = $1`, where $1 may be NULL.
abbrev pub is_site : Option String → Option String → Bool
is_site none site = true
is_site (some s) none = false
is_site (some s) (some t) = str_eq s t

abbrev pub site_of : Option Place → Option String
site_of none = none
site_of (some p) = p.site_id

abbrev pub vendor_of : Option Place → String
vendor_of none = "cisco"
vendor_of (some p) = p.vendor

unfoldable pub applies : Option Place → ComplianceRule → Bool
applies place rule =
    rule.enabled && (str_eq rule.vendor (vendor_of place) && is_site rule.site_id (site_of place))

unfoldable pub has_rule : String → List ComplianceRule → Bool
has_rule id [] = false
has_rule id (rule ∷ rules) = str_eq rule.id id || has_rule id rules

-- The entry of `wasPassing`.
abbrev pub was_passing : Option Result → Bool
was_passing none = false
was_passing (some r) = r.passed

-- The loop of evaluateDevice: the count, the rules whose trigger was run, and the rows.
pub record Tally : Type 0 where
  pub passed_count : ℕ
  pub triggered : List ComplianceRule
  pub results : List Result

pub record Evaluation : Type 0 where
  pub evaluated : ℕ
  pub passed : ℕ
  pub triggered : List ComplianceRule
  pub results : List Result

-- Whether the delete at the end leaves a row.
abbrev pub is_kept : String → List ComplianceRule → Result → Bool
is_kept device rules r = not (str_eq r.device_id device) || has_rule r.rule_id rules

abbrev pub evaluation : String → List ComplianceRule → Tally → Evaluation
evaluation device rules t = record {
  evaluated = length rules;
  passed = t.passed_count;
  triggered = t.triggered;
  results = keep (is_kept device rules) t.results;
}

module _ (js : Js) where
  abbrev pub row_of : ℕ → String → String → ComplianceRule → Result
  row_of now device text rule = record {
    device_id = device;
    rule_id = rule.id;
    passed = (evaluate_rule js rule text).passed;
    detail = js.cut (evaluate_rule js rule text).detail;
    checked_at = now;
  }

  -- Whether a rule that passed before fails now.
  abbrev pub turns : String → String → List Result → ComplianceRule → Bool
  turns device text prior rule =
      not (evaluate_rule js rule text).passed && was_passing (find_result device rule.id prior)

  abbrev pub evaluate_one : ℕ → String → String → List Result → ComplianceRule → Tally → Tally
  evaluate_one now device text prior rule t = record {
    passed_count =
        if (evaluate_rule js rule text).passed then suc t.passed_count else t.passed_count;
    triggered = if turns device text prior rule then t.triggered ++ rule ∷ [] else t.triggered;
    results = upsert (row_of now device text rule) t.results;
  }

  unfoldable pub evaluate_rules :
      ℕ → String → String → List Result → List ComplianceRule → Tally → Tally
  unfolding upsert
  evaluate_rules now device text prior [] t = t
  evaluate_rules now device text prior (rule ∷ rules) t =
      evaluate_rules now device text prior rules (evaluate_one now device text prior rule t)

  -- evaluateDevice, with the latest backup of the device. The trigger `compliance_fail` is run for
  -- each rule of `triggered`, and what it throws is caught.
  unfoldable pub evaluate_device :
      ℕ → String → Option String → Option Place → List ComplianceRule → List Result → Evaluation
  unfolding evaluate_rules has_rule find_result applies
  evaluate_device now device none place rules results = record {
    evaluated = 0;
    passed = 0;
    triggered = [];
    results = results;
  }
  evaluate_device now device (some text) place rules results =
      let chosen = keep (applies place) rules in
      evaluation device chosen (
        evaluate_rules now device text results chosen
          (record { passed_count = 0; triggered = []; results = results }))
