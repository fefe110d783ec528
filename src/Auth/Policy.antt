-- ===== src/Auth/Policy.antt =====
-- The security policy (backend/src/auth/securityPolicy.ts). A password is the list of its UTF-16
-- code units, which is what `length` and the patterns of the source see; times are milliseconds.
pub mod Strong
use switchpilot.Prelude.{
  ℕ, zero, suc, ◌+◌, ◌-◌, ◌*◌, String, Bool, true, false, not, ◌&&◌, ◌||◌, List, [], ◌∷◌, ◌++◌,
  Option, none, some, leb, ltb, ◌==◌, length, if◌then◌else◌, str_eq,
}

pub record SecurityPolicy : Type 0 where
  pub password_min_length : ℕ
  pub password_require_upper : Bool
  pub password_require_lower : Bool
  pub password_require_digit : Bool
  pub password_require_symbol : Bool
  pub password_max_age_days : ℕ
  pub mfa_required : Bool
  pub mfa_required_roles : List String
  pub lockout_threshold : ℕ
  pub lockout_minutes : ℕ

-- The messages of `validatePassword`.
pub data Failure : Type 0 where
  at_least : ℕ → Failure
  an_uppercase_letter a_lowercase_letter a_digit a_symbol : Failure

abbrev pub is_upper : ℕ → Bool
is_upper c = leb 65 c && leb c 90

abbrev pub is_lower : ℕ → Bool
is_lower c = leb 97 c && leb c 122

abbrev pub is_digit : ℕ → Bool
is_digit c = leb 48 c && leb c 57

abbrev pub is_symbol : ℕ → Bool
is_symbol c = not (is_upper c || (is_lower c || is_digit c))

-- `/[class]/.test(pw)`
unfoldable pub has : (ℕ → Bool) → List ℕ → Bool
has test [] = false
has test (c ∷ pw) = test c || has test pw

-- `if (broken) errors.push(failure)`
abbrev pub push_if : Bool → Failure → List Failure → List Failure
push_if broken failure errors = if broken then errors ++ (failure ∷ []) else errors

-- validatePassword
unfoldable pub validate_password : List ℕ → SecurityPolicy → List Failure
unfolding has
validate_password pw policy =
    push_if (policy.password_require_symbol && not (has is_symbol pw)) a_symbol (
      push_if (policy.password_require_digit && not (has is_digit pw)) a_digit (
        push_if (policy.password_require_lower && not (has is_lower pw)) a_lowercase_letter (
          push_if (policy.password_require_upper && not (has is_upper pw)) an_uppercase_letter (
            push_if (ltb (length pw) policy.password_min_length)
              (at_least policy.password_min_length) []))))

unfoldable pub includes : String → List String → Bool
includes role [] = false
includes role (r ∷ roles) = str_eq r role || includes role roles

-- roleRequiresMfa
unfoldable pub role_requires_mfa : String → SecurityPolicy → Bool
unfolding includes
role_requires_mfa role policy =
    if not policy.mfa_required
    then false
    else length policy.mfa_required_roles == 0 || includes role policy.mfa_required_roles

-- passwordExpired, the quotient by the length of a day multiplied out; a time of change in the
-- future has a negative age.
unfoldable pub password_expired : ℕ → Option ℕ → SecurityPolicy → Bool
password_expired now none policy = false
password_expired now (some changed) policy =
    if policy.password_max_age_days == 0
    then false
    else ltb (policy.password_max_age_days * 86400000 + changed) now
