-- ===== src/Compliance/Evaluated.antt =====
-- What an evaluation leaves in the table of results (evaluateDevice of
-- backend/src/services/complianceService.ts).
use switchpilot.Prelude.{
  ℕ, ◌+◌, ◌≡◌, ◌≤◌, ap, refl, sym, ◌∙◌, inl, inr, String, true, false, not, ◌||◌, List, [], ◌∷◌,
  ◌++◌, append_assoc, append-nil, Option, none, some, is_some, keep, length, Bool-cases, arith,
  str_eq, str_eq_iff, str_eq_refl, if◌then◌else◌,
}
use switchpilot.Compliance.Rules.{ComplianceRule, Js, evaluate_rule}
use switchpilot.Compliance.Results.{
  Result, Place, Tally, is_of, upsert, applies, has_rule, row_of, turns, evaluate_one,
  evaluate_rules, is_kept, evaluate_device,
}

-- The rows of a device and a rule.
abbrev pub rows_of : String → String → List Result → List Result
rows_of d rid = keep (is_of d rid)

none_left : (r : Result) (results : List Result) → length (r ∷ results) ≤ 1 → results ≡ []
none_left r [] few = refl
none_left r (x ∷ results) few = absurd (omega (arith, few))

-- One row of a key at most: the upsert leaves the new row alone.
rows_of-upsert :
    (row : Result) (results : List Result)
    → length (rows_of row.device_id row.rule_id results) ≤ 1
    → rows_of row.device_id row.rule_id (upsert row results) ≡ row ∷ []
unfolding upsert
rows_of-upsert row [] few = rw (str_eq_refl row.device_id, str_eq_refl row.rule_id) refl
rows_of-upsert row (r ∷ results) few = elim (Bool-cases (is_of row.device_id row.rule_id r)) [
  | inl same ↦
      let alone = none_left r (rows_of row.device_id row.rule_id results) (rw same at few) in
      rw (same, str_eq_refl row.device_id, str_eq_refl row.rule_id, alone) refl
  | inr apart ↦ rw (apart, apart) (rows_of-upsert row results (rw apart at few))
]

rows_of-upsert_other :
    (d rid : String) (row : Result) (results : List Result)
    → is_of d rid row ≡ false
    → rows_of d rid (upsert row results) ≡ rows_of d rid results
unfolding upsert
rows_of-upsert_other d rid row [] ne = rw ne refl
rows_of-upsert_other d rid row (r ∷ results) ne =
    elim (Bool-cases (is_of row.device_id row.rule_id r)) [
      | inl same ↦
          let e : r.device_id ≡ row.device_id = (str_eq_iff _ _).0 (ground (arith, same)) in
          let f : r.rule_id ≡ row.rule_id = (str_eq_iff _ _).0 (ground (arith, same)) in
          let also : is_of d rid r ≡ false = simp (e, f) ne in rw (same, ne, also) refl
      | inr apart ↦ rw apart (elim (Bool-cases (is_of d rid r)) [
        | inl mine ↦ rw mine (ap (r ∷◌) (rows_of-upsert_other d rid row results ne))
        | inr other ↦ rw other (rows_of-upsert_other d rid row results ne)
      ])
    ]

-- The rule that a list has for an id; ids are unique, and of two the later one counts.
abbrev pub or_this : String → ComplianceRule → Option ComplianceRule → Option ComplianceRule
or_this id rule none = if str_eq rule.id id then some rule else none
or_this id rule (some later) = some later

-- Whether a row is kept depends on its key.
is_kept-key :
    (device d rid : String) (rules : List ComplianceRule) (r : Result)
    → is_of d rid r ≡ true
    → is_kept device rules r ≡ (not (str_eq d device) || has_rule rid rules)
is_kept-key device d rid rules r mine =
    let e : r.device_id ≡ d = (str_eq_iff r.device_id d).0 (ground (arith, mine)) in
    let f : r.rule_id ≡ rid = (str_eq_iff r.rule_id rid).0 (ground (arith, mine)) in
    simp (e, f) refl

unfoldable pub rule_of : String → List ComplianceRule → Option ComplianceRule
rule_of id [] = none
rule_of id (rule ∷ rules) = or_this id rule (rule_of id rules)

has_rule-rule_of :
    (id : String) (rules : List ComplianceRule) → has_rule id rules ≡ is_some (rule_of id rules)
unfolding has_rule rule_of
has_rule-rule_of id [] = refl
has_rule-rule_of id (rule ∷ rules) = rw (has_rule-rule_of id rules) (step (rule_of id rules))
  where
    step :
        (rest : Option ComplianceRule)
        → (str_eq rule.id id || is_some rest) ≡ is_some (or_this id rule rest)
    step none = elim (Bool-cases (str_eq rule.id id)) [
      | inl mine ↦ rw mine refl
      | inr other ↦ rw other refl
    ]
    step (some later) = ground arith

rows_of-keep :
    (device d rid : String) (rules : List ComplianceRule) (results : List Result)
    → rows_of d rid (keep (is_kept device rules) results)
      ≡ (if not (str_eq d device) || has_rule rid rules then rows_of d rid results else [])
rows_of-keep device d rid rules [] = ground arith
rows_of-keep device d rid rules (r ∷ results) =
    let rest = rows_of-keep device d rid rules results in
    elim (Bool-cases (is_of d rid r)) [
      | inl mine ↦
          let same = is_kept-key device d rid rules r mine in
          elim (Bool-cases (not (str_eq d device) || has_rule rid rules)) [
            | inl kept ↦ rw (same, kept, mine) (ap (r ∷◌) (rw kept at rest))
            | inr gone ↦ rw (same, gone) (rw gone at rest)
          ]
      | inr other ↦ elim (Bool-cases (is_kept device rules r)) [
        | inl kept ↦ rw (kept, other) rest
        | inr gone ↦ rw (gone, other) rest
      ]
    ]

module _ (js : Js) (now : ℕ) (device text : String) (prior : List Result) where
  -- The row of a rule that was found alone, or else the rows that were there.
  abbrev rows_or : Option ComplianceRule → List Result → List Result
  rows_or none before = before
  rows_or (some rule) before = row_of js now device text rule ∷ []

  row_of-own :
      (rid : String) (rule : ComplianceRule)
      → str_eq rule.id rid ≡ true
      → (results : List Result) → length (rows_of device rid results) ≤ 1
      → rows_of device rid (upsert (row_of js now device text rule) results)
        ≡ row_of js now device text rule ∷ []
  row_of-own rid rule mine results few =
      let e : rule.id ≡ rid = (str_eq_iff _ _).0 mine in
      let back = ap (λ (x : String). length (rows_of device x results)) e in
      ap (λ (x : String). rows_of device x (upsert (row_of js now device text rule) results))
        (sym e)
      ∙ rows_of-upsert (row_of js now device text rule) results (omega (arith, few, back))

  row_of-apart :
      (rid : String) (rule : ComplianceRule)
      → str_eq rule.id rid ≡ false
      → is_of device rid (row_of js now device text rule) ≡ false
  row_of-apart rid rule other = rw (str_eq_refl device, other) refl

  -- What one rule of the loop does to the rows of the device and an id.
  row_of-step :
      (rid : String) (rule : ComplianceRule) (results : List Result)
      → length (rows_of device rid results) ≤ 1
      → rows_of device rid (upsert (row_of js now device text rule) results)
        ≡ rows_or (or_this rid rule none) (rows_of device rid results)
  row_of-step rid rule results few = elim (Bool-cases (str_eq rule.id rid)) [
    | inl mine ↦ rw mine (row_of-own rid rule mine results few)
    | inr other ↦ rw other (
        rows_of-upsert_other device rid (row_of js now device text rule) results
          (row_of-apart rid rule other))
  ]

  row_of-few :
      (rid : String) (rule : ComplianceRule) (results : List Result)
      → length (rows_of device rid results) ≤ 1
      → length (rows_of device rid (upsert (row_of js now device text rule) results)) ≤ 1
  row_of-few rid rule results few =
      let step = row_of-step rid rule results few in
      elim (Bool-cases (str_eq rule.id rid)) [
        | inl mine ↦ let s = rw mine at step in rw s (omega arith)
        | inr other ↦ let s = rw other at step in rw s few
      ]

  evaluate_rules_own :
      (rid : String) (rules : List ComplianceRule) (t : Tally)
      → length (rows_of device rid t.results) ≤ 1
      → rows_of device rid (evaluate_rules js now device text prior rules t).results
        ≡ rows_or (rule_of rid rules) (rows_of device rid t.results)
  unfolding evaluate_rules rule_of
  evaluate_rules_own rid [] t few = refl
  evaluate_rules_own rid (rule ∷ rules) t few =
      evaluate_rules_own rid rules (evaluate_one js now device text prior rule t)
        (row_of-few rid rule t.results few)
      ∙ step (rule_of rid rules)
    where
      step :
          (later : Option ComplianceRule)
          → rows_or later (rows_of device rid (upsert (row_of js now device text rule) t.results))
            ≡ rows_or (or_this rid rule later) (rows_of device rid t.results)
      step (some r) = refl
      step none = row_of-step rid rule t.results few

  evaluate_rules_other :
      (d rid : String) (rules : List ComplianceRule) (t : Tally)
      → str_eq device d ≡ false
      → rows_of d rid (evaluate_rules js now device text prior rules t).results
        ≡ rows_of d rid t.results
  unfolding evaluate_rules
  evaluate_rules_other d rid [] t ne = refl
  evaluate_rules_other d rid (rule ∷ rules) t ne =
      evaluate_rules_other d rid rules (evaluate_one js now device text prior rule t) ne
      ∙ rows_of-upsert_other d rid (row_of js now device text rule) t.results (rw ne refl)

  evaluate_rules_tally :
      (rules : List ComplianceRule) (t : Tally)
      → ((evaluate_rules js now device text prior rules t).passed_count
          ≡ t.passed_count + length (keep (λ r. (evaluate_rule js r text).passed) rules))
        × ((evaluate_rules js now device text prior rules t).triggered
            ≡ t.triggered ++ keep (turns js device text prior) rules)
  unfolding evaluate_rules
  evaluate_rules_tally [] t = (omega arith, sym (append-nil t.triggered))
  evaluate_rules_tally (rule ∷ rules) t =
      let (count, fired) =
        evaluate_rules_tally rules (evaluate_one js now device text prior rule t) in
      (
        count ∙ elim (Bool-cases (evaluate_rule js rule text).passed) [
          | inl passes ↦ rw passes (omega arith)
          | inr fails ↦ rw fails refl
        ],
        fired ∙ elim (Bool-cases (turns js device text prior rule)) [
          | inl does ↦
              rw does
                (append_assoc t.triggered (rule ∷ []) (keep (turns js device text prior) rules))
          | inr not_so ↦ rw not_so refl
        ],
      )

-- The row of the rule that has an id among those that apply, or none.
abbrev pub fresh_rows : Js → ℕ → String → String → Option ComplianceRule → List Result
fresh_rows js now device text none = []
fresh_rows js now device text (some rule) = row_of js now device text rule ∷ []

-- If the table has at most one row of the device and a rule id, which is what its unique key says,
-- then after the evaluation of the device with a backup it has exactly one row of the two if a rule
-- with the id applies to the device, with the verdict on that backup and the time, and no row of the
-- two otherwise; the rows of every other device are as they were. The rules whose trigger is run are
-- those that apply, that fail now and that passed in the rows before, in their order, and the number
-- of those that pass is counted.
pub evaluate_device-rows :
    (js : Js) (now : ℕ) (device text other rid : String) (place : Option Place)
    (rules : List ComplianceRule) (results : List Result)
    → str_eq device other ≡ false
    → length (rows_of device rid results) ≤ 1
    → let chosen = keep (applies place) rules in
      let after = evaluate_device js now device (some text) place rules results in
      (rows_of device rid after.results ≡ fresh_rows js now device text (rule_of rid chosen))
      × (rows_of other rid after.results ≡ rows_of other rid results)
      × (after.triggered ≡ keep (turns js device text results) chosen)
      × (after.passed ≡ length (keep (λ rule. (evaluate_rule js rule text).passed) chosen))
unfolding evaluate_device
evaluate_device-rows js now device text other rid place rules results ne few =
    let chosen = keep (applies place) rules in
    let start : Tally = record { passed_count = 0; triggered = []; results = results } in
    let (count, fired) = evaluate_rules_tally js now device text results chosen start in
    (
      rows_of-keep device device rid chosen _
          ∙ rw (str_eq_refl device, has_rule-rule_of rid chosen)
              (own (rule_of rid chosen) _
                (evaluate_rules_own js now device text results rid chosen start few)),
      rows_of-keep device other rid chosen _
          ∙ rw (flip ne)
              (evaluate_rules_other js now device text results other rid chosen start ne),
      fired,
      count ∙ omega arith,
    )
  where
    flip : str_eq device other ≡ false → str_eq other device ≡ false
    flip h = elim (Bool-cases (str_eq other device)) [
      | inl same ↦
          absurd
            (let e = (str_eq_iff device other).1 (sym ((str_eq_iff other device).0 same)) in cc)
      | inr apart ↦ apart
    ]

    own :
        (found : Option ComplianceRule) (rows : List Result)
        → rows ≡ rows_or js now device text results found (rows_of device rid results)
        → (if not true || is_some found then rows else []) ≡ fresh_rows js now device text found
    own none rows e = refl
    own (some rule) rows e = e
