-- ===== src/Auth/Login.antt =====
-- Login, passwords and second factors (backend/src/routes/auth.ts). bcrypt, otplib, LDAP, the
-- encryption of secrets and the code units of a text are parameters; times are milliseconds. The
-- audit trail is the pairs of user name and action, the latest first.
pub mod Authentic
pub mod Lockout
mod Tests
use switchpilot.Prelude.{
  ℕ, zero, suc, ◌+◌, ◌-◌, ◌*◌, ◌/◌, String, Bool, true, false, not, ◌&&◌, ◌||◌, List, [], ◌∷◌, ◌++◌,
  Option, none, some, leb, ltb, ◌==◌, if◌then◌else◌, str_eq, keep, map,
}
use switchpilot.Auth.Rbac.{Role, superadmin, netadmin, helpdesk, readonly, AuthUser}
use switchpilot.Util.Text.{utf16_length}
use switchpilot.Auth.Policy.{
  SecurityPolicy, Failure, validate_password, role_requires_mfa, password_expired,
}

pub data Source : Type 0 where
  local ldap : Source

-- A row of `users`; a NULL text is the empty one, which the code treats alike.
pub record User : Type 0 where
  pub id : String
  pub username : String
  pub display_name : String
  pub email : String
  pub enabled : Bool
  pub auth_source : Source
  pub password_hash : String
  pub role : Role
  pub failed_login_count : ℕ
  pub locked_until : Option ℕ
  pub mfa_enabled : Bool
  pub mfa_secret : String
  pub must_change_password : Bool
  pub password_changed_at : Option ℕ
  pub token_valid_after : Option ℕ
  pub last_login_at : Option ℕ

-- A row of `mfa_backup_codes`.
pub record BackupCode : Type 0 where
  pub user_id : String
  pub code_hash : String
  pub used : Bool

pub record Db : Type 0 where
  pub users : List User
  pub codes : List BackupCode
  pub audits : List (String × String)

pub record LdapUser : Type 0 where
  pub display_name : String
  pub email : String
  pub role : Role

pub record Credentials : Type 0 where
  pub username : String
  pub password : String
  pub totp : String

pub record Session : Type 0 where
  pub token : AuthUser
  pub must_change_password : Bool
  pub mfa_setup_required : Bool

pub data Reply : Type 0 where
  account_locked : ℕ → Reply
  invalid_login mfa_required invalid_mfa : Reply
  logged_in : Session → Reply

unfoldable pub find_user : (User → Bool) → List User → Option User
find_user p [] = none
find_user p (u ∷ users) = if p u then some u else find_user p users

unfoldable pub update_user : String → (User → User) → List User → List User
update_user id f [] = []
update_user id f (u ∷ users) = (if str_eq u.id id then f u else u) ∷ update_user id f users

abbrev pub by_name : String → User → Bool
by_name name u = str_eq u.username name && u.enabled

abbrev pub by_id : String → User → Bool
by_id id u = str_eq u.id id

abbrev pub audit_entry : String → String → Db → Db
audit_entry username action db = record db { audits = (username, action) ∷ db.audits }

abbrev pub set_user : String → (User → User) → Db → Db
set_user id f db = record db { users = update_user id f db.users }

abbrev pub is_locked : ℕ → Option User → Bool
is_locked now none = false
is_locked now (some u) = elim u.locked_until [ none ↦ false | some t ↦ ltb now t ]

-- `Math.ceil((locked_until - now) / 60000)`
abbrev pub minutes_left : ℕ → Option User → ℕ
minutes_left now none = 0
minutes_left now (some u) = elim u.locked_until [ none ↦ 0 | some t ↦ (t - now + 59999) / 60000 ]

-- A role as the text that it is.
abbrev pub role_name : Role → String
role_name superadmin = "superadmin"
role_name netadmin = "netadmin"
role_name helpdesk = "helpdesk"
role_name readonly = "readonly"

abbrev pub token_of : User → AuthUser
token_of u = record { sub = u.id; username = u.username; role = u.role }

-- `totp.length > 6`, in code units.
abbrev pub is_long : String → Bool
is_long code = ltb 6 (utf16_length code)

-- Whether the row has a password of its own.
abbrev pub is_local : User → Bool
is_local u = elim u.auth_source [ local ↦ not (str_eq u.password_hash "") | ldap ↦ false ]

-- What a successful login writes into the row.
abbrev pub cleared : ℕ → User → User
cleared now u = record u { last_login_at = some now; failed_login_count = 0; locked_until = none }

abbrev pub asked : Option (String → String → Option LdapUser) → Credentials → Option LdapUser
asked none given = none
asked (some ask) given = ask given.username given.password

-- `compare` is of bcrypt, `verify` of the authenticator with its clock, `directory` is
-- ldapAuthenticate, or `none` when LDAP is not enabled, and `fresh_id` the id of a row that the
-- upsert inserts.
pub record Env : Type 0 where
  pub compare : String → String → Bool
  pub verify : ℕ → String → String → Bool
  pub decrypt : String → String
  pub directory : Option (String → String → Option LdapUser)
  pub fresh_id : String
  pub policy : SecurityPolicy

module _ (env : Env) where
  -- The loop of redeemBackupCode, with whether a code was burnt.
  unfoldable pub redeem : String → String → List BackupCode → Bool × List BackupCode
  redeem user_id code [] = (false, [])
  redeem user_id code (row ∷ codes) =
      let (found, rest) = redeem user_id code codes in
      if str_eq row.user_id user_id && (not row.used && env.compare code row.code_hash)
      then (true, record row { used = true } ∷ codes)
      else (found, row ∷ rest)

  -- The count of a failure from the row that was read, and the lock at the threshold.
  abbrev pub failed_row : ℕ → User → User → User
  failed_row now u v =
      if leb env.policy.lockout_threshold (u.failed_login_count + 1)
      then record v {
        failed_login_count = u.failed_login_count + 1;
        locked_until = some (now + env.policy.lockout_minutes * 60000);
      }
      else record v { failed_login_count = u.failed_login_count + 1 }

  abbrev pub count_failure : ℕ → String → Option User → Db → Db
  count_failure now username none db = db
  count_failure now username (some u) db =
      if env.policy.lockout_threshold == 0
      then db
      else (if leb env.policy.lockout_threshold (u.failed_login_count + 1)
          then audit_entry username "login.locked" (set_user u.id (failed_row now u) db)
          else set_user u.id (failed_row now u) db)

  unfoldable pub refuse : ℕ → String → Option User → Db → Reply × Db
  unfolding update_user
  refuse now username user db =
      (invalid_login, audit_entry username "login.failed" (count_failure now username user db))

  abbrev pub expired : ℕ → User → Bool
  expired now u = password_expired now u.password_changed_at env.policy

  unfoldable pub session_of : ℕ → User → Session
  session_of now u = record {
    token = token_of u;
    must_change_password = u.must_change_password || expired now u;
    mfa_setup_required = role_requires_mfa (role_name u.role) env.policy && not u.mfa_enabled;
  }

  unfoldable pub admit_user : ℕ → String → User → Db → Reply × Db
  unfolding update_user
  admit_user now username u db =
      let written = set_user u.id (cleared now) db in
      let forced =
        if expired now u && not u.must_change_password
        then set_user u.id (λ v. record v { must_change_password = true }) written
        else written in
      (logged_in (session_of now u), audit_entry username "login" forced)

  -- The second factor, by what the backup codes answer.
  abbrev pub with_backup : ℕ → String → User → Bool × List BackupCode → Db → Reply × Db
  with_backup now username u (found, codes) db =
      if found
      then admit_user now username u
          (audit_entry username "login.backup_code_used" (record db { codes = codes }))
      else (invalid_mfa, audit_entry username "login.mfa_failed" db)

  unfoldable pub second_factor : ℕ → Credentials → User → Db → Reply × Db
  unfolding redeem admit_user utf16_length
  second_factor now given u db =
      if not u.mfa_enabled
      then admit_user now given.username u db
      else (if str_eq given.totp ""
          then (mfa_required, db)
          else (if env.verify now given.totp (env.decrypt u.mfa_secret)
              then admit_user now given.username u db
              else (if is_long given.totp
                  then with_backup now given.username u (redeem u.id given.totp db.codes) db
                  else (invalid_mfa, audit_entry given.username "login.mfa_failed" db))))

  -- The upsert by user name, and the row that it returns.
  abbrev pub refreshed : LdapUser → User → User
  refreshed r u = record u { display_name = r.display_name; email = r.email; role = r.role }

  abbrev pub new_user : ℕ → String → LdapUser → User
  new_user now username r = record {
    id = env.fresh_id;
    username = username;
    display_name = r.display_name;
    email = r.email;
    enabled = true;
    auth_source = ldap;
    password_hash = "";
    role = r.role;
    failed_login_count = 0;
    locked_until = none;
    mfa_enabled = false;
    mfa_secret = "";
    must_change_password = false;
    password_changed_at = some now;
    token_valid_after = none;
    last_login_at = none;
  }

  abbrev pub upsert_found : ℕ → String → LdapUser → Db → Option User → User × Db
  upsert_found now username r db none =
      (new_user now username r, record db { users = new_user now username r ∷ db.users })
  upsert_found now username r db (some u) = (refreshed r u, set_user u.id (refreshed r) db)

  unfoldable pub upsert : ℕ → String → LdapUser → Db → User × Db
  unfolding find_user update_user
  upsert now username r db =
      upsert_found now username r db (find_user (λ u. str_eq u.username username) db.users)

  abbrev pub login_ldap : ℕ → Credentials → Option User → Option LdapUser → Db → Reply × Db
  login_ldap now given user none db = refuse now given.username user db
  login_ldap now given user (some r) db =
      let (u, written) = upsert now given.username r db in second_factor now given u written

  abbrev pub login_as : ℕ → Credentials → Option User → Db → Reply × Db
  login_as now given none db = login_ldap now given none (asked env.directory given) db
  login_as now given (some u) db =
      if is_local u
      then (if env.compare given.password u.password_hash
          then second_factor now given u db
          else refuse now given.username (some u) db)
      else login_ldap now given (some u) (asked env.directory given) db

  -- The login route.
  unfoldable pub login : ℕ → Credentials → Db → Reply × Db
  unfolding find_user refuse second_factor upsert
  login now given db =
      let user = find_user (by_name given.username) db.users in
      if is_locked now user
      then (
        account_locked (minutes_left now user),
        audit_entry given.username "login.locked_out" db,
      )
      else login_as now given user db
