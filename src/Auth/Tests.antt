-- ===== src/Auth/Tests.antt =====
-- The guard and the policy at small inputs, and the theorems at inputs that meet their hypotheses.
use switchpilot.Prelude.{
  ℕ, ◌≡◌, refl, String, true, false, [], ◌∷◌, Option, none, some, ltb, if◌then◌else◌,
}
use switchpilot.Auth.Rbac.{
  superadmin, helpdesk, readonly, AuthUser, ApiKey, LiveUser, Claims, Request, AuthCache, cached,
  live_user, require_role, drop_chars,
}
use switchpilot.Auth.Rbac.Guard.{IsVouched, IsDecided, require_role-IsVouched, require_role-IsKey}
use switchpilot.Auth.Policy.{SecurityPolicy, validate_password, has, role_requires_mfa, includes}

-- A hash of the tests: the text itself.
abbrev plain : String → String
plain s = s

abbrev monitor_key : ApiKey
monitor_key = record {
  id = "k1";
  name = "monitor";
  role = readonly;
  key_hash = "sp_abc";
  enabled = true;
}

abbrev ann : LiveUser
ann = record { role = helpdesk; enabled = true; token_valid_after = some 5000 }

abbrev boss : LiveUser
boss = record ann { role = superadmin }

-- Ann is demoted at 100000.
abbrev users : ℕ → String → Option LiveUser
users t id = if ltb t 100000 then some boss else some ann

abbrev ann_token : Claims
ann_token = record {
  user = record { sub = "u1"; username = "ann"; role = superadmin };
  iat = some 9;
}

abbrev by_token : Request
by_token = record { authorization = ""; jwt = some ann_token }

abbrev by_key : Request
by_key = record { authorization = "Bearer sp_abc"; jwt = none }

-- A look-up just after the demotion, with an entry of a moment before it.
abbrev warm : AuthCache
warm = ("u1", record { at = 99000; row = some boss }) ∷ []

abbrev key_user_sample : AuthUser
key_user_sample = record { sub = "k1"; username = "apikey:monitor"; role = readonly }

require_role-IsVouched_example :
    IsVouched plain [] users helpdesk 200000 by_token
      (record { sub = "u1"; username = "ann"; role = helpdesk })
require_role-IsVouched_example =
    require_role-IsVouched plain [] users helpdesk 200000 by_token []
      (record { sub = "u1"; username = "ann"; role = helpdesk }) tt refl
      (unfold require_role live_user cached in refl)

require_role-IsKey_example :
    IsDecided plain
      (monitor_key ∷ [])
      users
      readonly
      (plain (drop_chars 7 "Bearer sp_abc"))
      (require_role plain (monitor_key ∷ []) users readonly 200000 by_key []).0
    × ((require_role plain (monitor_key ∷ []) users readonly 200000 by_key []).1 ≡ [])
require_role-IsKey_example =
    require_role-IsKey plain (monitor_key ∷ []) users readonly 200000 by_key [] refl

abbrev strict : SecurityPolicy
strict = record {
  password_min_length = 3;
  password_require_upper = true;
  password_require_lower = true;
  password_require_digit = true;
  password_require_symbol = false;
  password_max_age_days = 90;
  mfa_required = true;
  mfa_required_roles = "superadmin" ∷ [];
  lockout_threshold = 3;
  lockout_minutes = 15;
}

accepted : validate_password (65 ∷ 98 ∷ 49 ∷ []) strict ≡ []
unfolding validate_password has
accepted = refl

mfa : role_requires_mfa "superadmin" strict ≡ true
unfolding role_requires_mfa includes
mfa = refl
