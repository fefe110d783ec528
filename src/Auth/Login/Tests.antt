-- ===== src/Auth/Login/Tests.antt =====
-- Logins of a small company, and the theorems at inputs that meet their hypotheses.
use switchpilot.Prelude.{
  ℕ, ◌≡◌, refl, String, true, false, [], ◌∷◌, Option, none, some, arith, str_eq, if◌then◌else◌,
}
use switchpilot.Util.Text.{utf16_length}
use switchpilot.Auth.Rbac.{
  AuthCache, LiveUser, Claims, Request, require_role, unauthorized, netadmin, readonly, AuthUser,
}
use switchpilot.Auth.Policy.{
  SecurityPolicy, has, validate_password, role_requires_mfa, password_expired,
}
use switchpilot.Auth.Login.{
  Env, User, Db, LdapUser, Credentials, Reply, account_locked, logged_in, local, ldap, token_of,
  by_id, find_user, update_user, redeem, refreshed, session_of, admit_user, second_factor, login,
}
use switchpilot.Auth.Login.Authentic.{IsAuthentic, login-IsAuthentic}
use switchpilot.Auth.Login.Lockout.{login-locks, login-disabled}
use switchpilot.Auth.Account.{AccountReply, change_password}
use switchpilot.Auth.Account.Change.{IsChanged, live_row, change_password-IsChanged}

abbrev policy : SecurityPolicy
policy = record {
  password_min_length = 0;
  password_require_upper = false;
  password_require_lower = false;
  password_require_digit = false;
  password_require_symbol = false;
  password_max_age_days = 0;
  mfa_required = false;
  mfa_required_roles = [];
  lockout_threshold = 2;
  lockout_minutes = 15;
}

-- The directory knows one user.
abbrev directory : String → String → Option LdapUser
directory name password =
    if str_eq name "max"
    then some (record { display_name = "Max"; email = ""; role = netadmin })
    else none

-- A password is its own hash, and the one valid code is "123456".
abbrev env : Env
env = record {
  compare = str_eq;
  verify = λ now code secret. str_eq code "123456";
  decrypt = λ text. text;
  directory = some directory;
  fresh_id = "new";
  policy = policy;
}

abbrev eve : User
eve = record {
  id = "u1";
  username = "eve";
  display_name = "Eve";
  email = "";
  enabled = true;
  auth_source = local;
  password_hash = "secret";
  role = readonly;
  failed_login_count = 1;
  locked_until = none;
  mfa_enabled = true;
  mfa_secret = "s";
  must_change_password = false;
  password_changed_at = none;
  token_valid_after = none;
  last_login_at = none;
}

abbrev max : User
max = record eve {
  id = "u2";
  username = "max";
  enabled = false;
  auth_source = ldap;
  mfa_enabled = false;
}

abbrev office : Db
office = record {
  users = eve ∷ max ∷ [];
  codes = record { user_id = "u1"; code_hash = "abcdef0123"; used = false } ∷ [];
  audits = [];
}

abbrev with_code : String → Credentials
with_code code = record { username = "eve"; password = "secret"; totp = code }

abbrev wrong : Credentials
wrong = record { username = "eve"; password = "guess"; totp = "" }

abbrev by_directory : Credentials
by_directory = record { username = "max"; password = "pw"; totp = "" }

-- A backup code works once.
once_only :
    ((login env 1000 (with_code "abcdef0123") office).0 ≡ logged_in (session_of env 1000 eve))
    × ((login env 2000
          (with_code "abcdef0123")
          (login env 1000 (with_code "abcdef0123") office).1).0
        ≡ Reply.invalid_mfa)
unfolding login find_user second_factor redeem admit_user update_user utf16_length session_of
    role_requires_mfa password_expired
once_only = (refl, refl)

login-IsAuthentic_example :
    IsAuthentic env 1000 (with_code "123456") office (session_of env 1000 eve)
unfolding login find_user second_factor admit_user session_of
login-IsAuthentic_example =
    login-IsAuthentic env 1000 (with_code "123456") office (session_of env 1000 eve) refl

login-locks_example :
    (minutes : ℕ) × ((login env 5000 (with_code "123456") (login env 1000 wrong office).1).0
      ≡ account_locked minutes)
    × ((login env 5000 (with_code "123456") (login env 1000 wrong office).1).1.users
        ≡ (login env 1000 wrong office).1.users)
    × ((login env 5000 (with_code "123456") (login env 1000 wrong office).1).1.codes
        ≡ (login env 1000 wrong office).1.codes)
unfolding find_user
login-locks_example =
    login-locks env 1000 5000 wrong (with_code "123456") office eve refl refl refl refl
      (omega arith) (omega arith) refl (omega arith)

abbrev answer : LdapUser
answer = record { display_name = "Max"; email = ""; role = netadmin }

login-disabled_example :
    (login env 1000 by_directory office).0
    ≡ logged_in (session_of env 1000 (refreshed env answer max))
unfolding find_user
login-disabled_example = login-disabled env 1000 by_directory office max answer refl refl refl refl

abbrev me : AuthUser
me = token_of eve

-- What the change leaves: the database and the cache.
abbrev changed_office : AccountReply × Db × AuthCache
changed_office =
    change_password env (λ text. text) (λ text. []) (λ text. text) 9000 me "secret" "better"
      (office, [])

abbrev after_change : ℕ → String → Option LiveUser
after_change t id = live_row (find_user (by_id id) changed_office.1.users)

abbrev old_claims : Claims
old_claims = record { user = me; iat = some 3 }

abbrev old_token : Request
old_token = record { authorization = "Bearer x"; jwt = some old_claims }

change_password-IsChanged_example :
    IsChanged env
      (λ text. text)
      (λ text. [])
      (λ text. text)
      9000
      me
      "secret"
      "better"
      office
      changed_office.1
    × ((reason : String) × ((require_role
            (λ text. text)
            []
            after_change
            readonly
            9500
            old_token
            changed_office.2).0
          ≡ unauthorized reason))
unfolding change_password find_user validate_password has
change_password-IsChanged_example =
    change_password-IsChanged env (λ text. text) (λ text. []) (λ text. text) 9000 9500 3 me me
      "secret" "better" office [] (λ text. text) [] after_change readonly old_token old_claims refl
      refl refl refl refl refl (omega arith)
