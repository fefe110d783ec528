-- ===== src/Compliance/Rules/Opposite.antt =====
-- That the rules which forbid are the opposite of those which demand.
use switchpilot.Prelude.{
  ◌≡◌, ◌⊎◌, refl, inl, inr, String, Bool, true, false, not, ◌&&◌, ◌||◌, Option, none, some, keep,
  is_some, Bool-cases, arith,
}
use switchpilot.Util.Text.{lines}
use switchpilot.Compliance.Rules.{
  MatchType, line_present, line_absent, regex_present, regex_absent, ComplianceRule, Js,
  present_verdict, absent_verdict, is_nonempty, regex_verdict, evaluate_rule,
}

abbrev pub opposite : MatchType → MatchType
opposite line_present = line_absent
opposite line_absent = line_present
opposite regex_present = regex_absent
opposite regex_absent = regex_present

abbrev pub is_regex : MatchType → Bool
is_regex line_present = false
is_regex line_absent = false
is_regex regex_present = true
is_regex regex_absent = true

abbrev pub compiles : Js → String → Bool
compiles js pattern = is_some (js.regexp pattern)

-- The rule as one of another kind, and whether a configuration passes it.
abbrev pub passes : Js → MatchType → ComplianceRule → String → Bool
passes js kind rule text = (evaluate_rule js (record rule { match_type = kind }) text).passed

hit_opposite :
    (pattern : String) (hit : Option String)
    → (absent_verdict hit).passed ≡ not (present_verdict pattern hit).passed
hit_opposite pattern none = refl
hit_opposite pattern (some l) = refl

module _ (js : Js) where
  -- Both kinds by what the expression compiles to.
  regex_opposite :
      (absent present : ComplianceRule) (text : String) (matcher : Option (String → Bool))
      → ((not (is_some matcher) ≡ false)
          × ((regex_verdict js absent false text matcher).passed
              ≡ not (regex_verdict js present true text matcher).passed))
        ⊎ ((not (is_some matcher) ≡ true)
            × ((regex_verdict js absent false text matcher).passed ≡ false)
            × ((regex_verdict js present true text matcher).passed ≡ false))
  regex_opposite absent present text none = inr (refl, refl, refl)
  regex_opposite absent present text (some re) =
      elim (Bool-cases (is_nonempty (keep re (lines text)) || re text)) [
        | inl found ↦ inl (refl, rw found refl)
        | inr missing ↦ inl (refl, rw missing refl)
      ]

  not-not : (a b : Bool) → a ≡ not b → b ≡ not a
  not-not a b e = ground (arith, e)

  -- On every configuration a rule that forbids a pattern passes exactly when the rule that demands
  -- it fails, and the other way round; but a rule whose regular expression does not compile fails
  -- of either kind.
  pub evaluate_rule-opposite :
      (kind : MatchType) (rule : ComplianceRule) (text : String)
      → ((is_regex kind && not (compiles js rule.pattern) ≡ false)
          × (passes js (opposite kind) rule text ≡ not (passes js kind rule text)))
        ⊎ ((is_regex kind && not (compiles js rule.pattern) ≡ true)
            × (passes js (opposite kind) rule text ≡ false)
            × (passes js kind rule text ≡ false))
  unfolding evaluate_rule
  evaluate_rule-opposite line_present rule text = inl (refl, hit_opposite rule.pattern _)
  evaluate_rule-opposite line_absent rule text =
      inl (refl, not-not _ _ (hit_opposite rule.pattern _))
  evaluate_rule-opposite regex_present rule text =
      regex_opposite (record rule { match_type = regex_absent })
        (record rule { match_type = regex_present }) text (js.regexp rule.pattern)
  evaluate_rule-opposite regex_absent rule text =
      elim (regex_opposite (record rule { match_type = regex_absent })
        (record rule { match_type = regex_present }) text (js.regexp rule.pattern)) [
          | inl (valid, e) ↦ inl (valid, not-not _ _ e)
          | inr (invalid, absent, present) ↦ inr (invalid, present, absent)
        ]
