-- ===== src/Compliance/Rules.antt =====
-- The rules of the compliance engine and what one says of a configuration (evaluateRule and
-- buildRemediationLines of backend/src/services/complianceService.ts).
pub mod Opposite
use Prim.Native.Char.{Char, code}
use Prim.Native.String
use switchpilot.Prelude.{
  ℕ, zero, suc, ◌-◌, String, Bool, true, false, not, ◌&&◌, ◌||◌, List, [], ◌∷◌, Option, none, some,
  map, keep, leb, ◌==◌, if◌then◌else◌, str_eq,
}
use switchpilot.Util.Text.{
  trim, trim_start, trim_end, is_space, lines, unlines, join_line, includes, is_empty, negates,
  strip_prefix,
}

pub data MatchType : Type 0 where
  line_present line_absent regex_present regex_absent : MatchType

pub record ComplianceRule : Type 0 where
  pub id : String
  pub name : String
  pub match_type : MatchType
  pub pattern : String
  pub remediation : String
  pub site_id : Option String
  pub vendor : String
  pub enabled : Bool
  pub auto_remediate : Bool

pub record Verdict : Type 0 where
  pub passed : Bool
  pub detail : String

-- `regexp pattern` is the test of `new RegExp(pattern, 'm')`, or `none` when the pattern is
-- invalid; `lower` is toLowerCase, `cut` the slice of a text to 500 units, and `platform_host` the
-- host of PLATFORM_URL, if it has one.
pub record Js : Type 0 where
  pub regexp : String → Option (String → Bool)
  pub lower : String → String
  pub cut : String → String
  pub platform_host : Option String

unfoldable pub find_line : (String → Bool) → List String → Option String
find_line p [] = none
find_line p (l ∷ ls) = if p l then some l else find_line p ls

abbrev pub affirmatively_contains : String → String → Bool
affirmatively_contains pattern l = includes l pattern && (negates pattern || not (negates l))

-- An empty line is falsy.
abbrev pub truthy_line : Option String → Option String
truthy_line none = none
truthy_line (some l) = if is_empty l then none else some l

-- `[a-z]` and `[a-z-]`, in either case.
abbrev pub is_letter : Char → Bool
is_letter c = leb 97 (code c) && leb (code c) 122 || leb 65 (code c) && leb (code c) 90

abbrev pub is_word_part : Char → Bool
is_word_part c = is_letter c || code c == 45

unfoldable pub word_run : String → String
word_run String.[] = String.[]
word_run (String.◌∷◌ c s) =
    let rest = word_run s in if is_word_part c then String.◌∷◌ c rest else String.[]

abbrev pub has_two : String → Bool
has_two String.[] = false
has_two (String.◌∷◌ c s) = not (is_empty s)

-- The first match of `/[a-z][a-z-]{2,}/i`, or the empty text.
unfoldable pub keyword : String → String
unfolding word_run
keyword String.[] = String.[]
keyword (String.◌∷◌ c s) =
    let rest = keyword s in
    if is_letter c && has_two (word_run s) then String.◌∷◌ c (word_run s) else rest

unfoldable pub take_lines : ℕ → List String → List String
take_lines zero ls = []
take_lines (suc n) [] = []
take_lines (suc n) (l ∷ ls) = l ∷ take_lines n ls

abbrev pub first_three : List String → String
first_three ls = unlines (map trim (take_lines 3 ls))

abbrev pub or_matched : List String → String
or_matched [] = "pattern matched"
or_matched (l ∷ ls) = if is_empty (trim l) then "pattern matched" else trim l

abbrev pub is_nonempty : List String → Bool
is_nonempty [] = false
is_nonempty (l ∷ ls) = true

abbrev pub present_verdict : String → Option String → Verdict
present_verdict pattern none = record {
  passed = false;
  detail = String.◌++◌ "no line contains \"" (String.◌++◌ pattern "\"");
}
present_verdict pattern (some l) = record { passed = true; detail = trim l }

abbrev pub absent_verdict : Option String → Verdict
absent_verdict none = record { passed = true; detail = "" }
absent_verdict (some l) = record {
  passed = false;
  detail = String.◌++◌ "forbidden line present: " (trim l);
}

unfoldable pub replace_from : ℕ → String → String → String → String
replace_from skip needle by String.[] = String.[]
replace_from (suc skip) needle by (String.◌∷◌ c s) = replace_from skip needle by s
replace_from zero needle by (String.◌∷◌ c s) = elim (strip_prefix needle (String.◌∷◌ c s)) [
  | some rest ↦ String.◌++◌ by (replace_from (String.count needle - 1) needle by s)
  | none ↦ String.◌∷◌ c (replace_from 0 needle by s)
]

-- `text.replaceAll(needle, by)`, of a needle that is not empty.
abbrev pub replace_all : String → String → String → String
replace_all needle by text = replace_from 0 needle by text

abbrev pub placeholder : String
placeholder = "{platform_host}"

abbrev pub some_lines : List String → Option (List String)
some_lines [] = none
some_lines (l ∷ ls) = some (l ∷ ls)

abbrev pub lines_of : String → Option (List String)
lines_of text = some_lines (keep (λ l. not (is_empty l)) (map trim (lines text)))

module _ (js : Js) where
  abbrev pub related : ComplianceRule → List String → List String
  related rule ls =
      let word = js.lower (keyword rule.pattern) in
      if is_empty word then [] else take_lines 3 (keep (λ l. includes (js.lower l) word) ls)

  abbrev pub missing_detail : ComplianceRule → List String → String
  missing_detail rule near =
      if is_nonempty near
      then String.◌++◌ "pattern not found. related lines on device:\n" (unlines (map trim near))
      else String.◌++◌ "pattern /"
          (String.◌++◌ rule.pattern "/ not found - nothing related is configured")

  -- The two kinds of rules with a regular expression: whether it must match.
  abbrev pub regex_verdict : ComplianceRule → Bool → String → Option (String → Bool) → Verdict
  regex_verdict rule wanted text none = record {
    passed = false;
    detail = String.◌++◌ "invalid regex: " rule.pattern;
  }
  regex_verdict rule wanted text (some re) =
      let matches = keep re (lines text) in
      let matched = is_nonempty matches || re text in
      if wanted
      then (if matched
          then record { passed = true; detail = or_matched matches }
          else record { passed = false; detail = missing_detail rule (related rule (lines text)) })
      else (if matched
          then record {
            passed = false;
            detail = String.◌++◌ "forbidden lines present:\n" (first_three matches);
          }
          else record { passed = true; detail = "" })

  -- evaluateRule
  unfoldable pub evaluate_rule : ComplianceRule → String → Verdict
  unfolding find_line lines unlines trim take_lines keyword negates
  evaluate_rule rule text =
      let hit = truthy_line (find_line (affirmatively_contains rule.pattern) (lines text)) in
      elim rule.match_type [
        | line_present ↦ present_verdict rule.pattern hit
        | line_absent ↦ absent_verdict hit
        | regex_present ↦ regex_verdict rule true text (js.regexp rule.pattern)
        | regex_absent ↦ regex_verdict rule false text (js.regexp rule.pattern)
      ]

  abbrev pub lines_with_host : ComplianceRule → Option String → Option (List String)
  lines_with_host rule none = none
  lines_with_host rule (some host) = lines_of (replace_all placeholder host rule.remediation)

  -- buildRemediationLines, or `none` when it throws.
  unfoldable pub build_remediation_lines : ComplianceRule → Option (List String)
  unfolding lines trim replace_from
  build_remediation_lines rule =
      if includes rule.remediation placeholder
      then lines_with_host rule js.platform_host
      else lines_of rule.remediation
