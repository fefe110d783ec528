-- ===== src/Auth/Account.antt =====
-- What a signed-in user does with its account (backend/src/routes/auth.ts): change the password,
-- enroll a second factor, exchange its token. The guard of the routes is Rbac; `me` is the user of
-- the token.
pub mod Change
use switchpilot.Prelude.{
  ℕ, zero, suc, ◌+◌, String, Bool, true, false, not, ◌&&◌, ◌||◌, List, [], ◌∷◌, ◌++◌, Option, none,
  some, length, ◌==◌, if◌then◌else◌, str_eq, keep, map,
}
use switchpilot.Auth.Rbac.{AuthUser, AuthCache, forget, bust_auth_cache}
use switchpilot.Auth.Policy.{Failure, validate_password, has, role_requires_mfa}
use switchpilot.Auth.Login.{
  Env, User, BackupCode, Db, local, ldap, find_user, update_user, by_id, set_user, audit_entry,
  token_of, role_name,
}

-- The replies of the routes; a token is the user that it is signed for.
pub data AccountReply : Type 0 where
  directory_managed wrong_password same_password no_such_user account_disabled invalid_code :
      AccountReply
  weak_password : List Failure → AccountReply
  changed : AuthUser → AccountReply
  secret_made : String → AccountReply
  mfa_confirmed : List String → AccountReply
  refreshed_token : AuthUser → AccountReply
  ws_token_for : String → String → AccountReply

abbrev pub is_directory_user : User → Bool
is_directory_user u = elim u.auth_source [ local ↦ false | ldap ↦ true ]

-- `hash` is bcrypt's, `units` the code units of a text, `encrypt` is encryptSecret.
module _ (env : Env) (hash : String → String) (units : String → List ℕ)
    (encrypt : String → String) where
  -- What the change writes into the row.
  abbrev pub with_password : ℕ → String → User → User
  with_password now new u = record u {
    password_hash = hash new;
    must_change_password = false;
    password_changed_at = some now;
    token_valid_after = some now;
  }

  abbrev pub change_checked :
      ℕ → AuthUser → String → User → List Failure → Db × AuthCache → AccountReply × Db × AuthCache
  change_checked now me new u [] (db, cache) = (
    changed (record { sub = me.sub; username = me.username; role = u.role }),
    audit_entry me.username "password.change" (set_user me.sub (with_password now new) db),
    bust_auth_cache (some me.sub) cache,
  )
  change_checked now me new u (f ∷ failures) (db, cache) = (weak_password (f ∷ failures), db, cache)

  abbrev pub change_of :
      ℕ → AuthUser → String → String → Option User → Db × AuthCache → AccountReply × Db × AuthCache
  change_of now me current new none (db, cache) = (no_such_user, db, cache)
  change_of now me current new (some u) (db, cache) =
      if is_directory_user u
      then (directory_managed, db, cache)
      else (if not (env.compare current u.password_hash)
          then (wrong_password, db, cache)
          else (if env.compare new u.password_hash
              then (same_password, db, cache)
              else change_checked now me new u (validate_password (units new) env.policy)
                  (db, cache)))

  -- The change-password route, with the cache of the guard. A token of no row is an exception.
  unfoldable pub change_password :
      ℕ → AuthUser → String → String → Db × AuthCache → AccountReply × Db × AuthCache
  unfolding find_user update_user validate_password bust_auth_cache has forget
  change_password now me current new (db, cache) =
      change_of now me current new (find_user (by_id me.sub) db.users) (db, cache)

  -- The mfa/setup route; `secret` is what the authenticator generated.
  unfoldable pub mfa_setup : AuthUser → String → Db → AccountReply × Db
  unfolding update_user
  mfa_setup me secret db = (
    secret_made secret,
    set_user me.sub (λ u. record u { mfa_secret = encrypt secret; mfa_enabled = false }) db,
  )

  abbrev pub others_codes : String → List BackupCode → List BackupCode
  others_codes id codes = keep (λ row. not (str_eq row.user_id id)) codes

  abbrev pub new_codes : String → List String → List BackupCode
  new_codes id fresh =
      map (λ code. record { user_id = id; code_hash = hash code; used = false }) fresh

  abbrev pub secret_of : Option User → String
  secret_of none = env.decrypt ""
  secret_of (some u) = env.decrypt u.mfa_secret

  -- The mfa/confirm route; `fresh` are the eight recovery codes that were drawn.
  unfoldable pub mfa_confirm : ℕ → AuthUser → String → List String → Db → AccountReply × Db
  unfolding find_user update_user
  mfa_confirm now me totp fresh db =
      let secret = secret_of (find_user (by_id me.sub) db.users) in
      if str_eq secret "" || not (env.verify now totp secret)
      then (invalid_code, db)
      else (let enabled = set_user me.sub (λ u. record u { mfa_enabled = true }) db in
          (
            mfa_confirmed fresh,
            audit_entry me.username "mfa.enabled" (record enabled {
              codes = others_codes me.sub enabled.codes ++ new_codes me.sub fresh;
            }),
          ))

  abbrev pub refresh_of : Option User → AccountReply
  refresh_of none = account_disabled
  refresh_of (some u) = if not u.enabled then account_disabled else refreshed_token (token_of u)

  -- The refresh route, and the one for a WebSocket token.
  unfoldable pub refresh : AuthUser → Db → AccountReply
  unfolding find_user
  refresh me db = refresh_of (find_user (by_id me.sub) db.users)

  abbrev pub ws_token : AuthUser → AccountReply
  ws_token me = ws_token_for me.sub me.username

  -- The `mfa_setup_required` of the me route.
  abbrev pub me_of : Option User → Option Bool
  me_of none = none
  me_of (some u) = some (role_requires_mfa (role_name u.role) env.policy && not u.mfa_enabled)

  unfoldable pub me_route : AuthUser → Db → Option Bool
  unfolding find_user
  me_route me db = me_of (find_user (by_id me.sub) db.users)
