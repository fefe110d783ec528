-- ===== src/Auth/Login/Authentic.antt =====
-- What a login that succeeds has been held against.
use switchpilot.Prelude.{
  ℕ, ◌≡◌, ◌⊎◌, inl, inr, refl, String, true, false, Option, none, some, Bool-cases, Option-cases,
  str_eq, if◌then◌else◌,
}
use switchpilot.Auth.Login.{
  Env, User, Db, LdapUser, Credentials, Session, account_locked, mfa_required, invalid_mfa,
  logged_in, find_user, by_name, is_locked, redeem, refuse, session_of, admit_user, with_backup,
  is_long, second_factor, upsert, asked, is_local, login_ldap, login_as, login, audit_entry,
}

module _ (env : Env) where
  -- The second factor of a user: none is set up, or a code of the authenticator, or a backup code
  -- that was not used yet.
  abbrev pub HasFactor : ℕ → Credentials → User → Db → Type 0
  HasFactor now given u db =
      (u.mfa_enabled ≡ false)
      ⊎ ((env.verify now given.totp (env.decrypt u.mfa_secret) ≡ true)
          ⊎ ((redeem env u.id given.totp db.codes).0 ≡ true))

  second_factor-HasFactor :
      (now : ℕ) (given : Credentials) (u : User) (db : Db) {s : Session}
      → (second_factor env now given u db).0 ≡ logged_in s
      → HasFactor now given u db × (s ≡ session_of env now u)
  unfolding second_factor admit_user
  second_factor-HasFactor now given u db {s} h = elim (Bool-cases u.mfa_enabled) [
    | inr off ↦ (inl off, let e = simp off at h in cc)
    | inl on ↦ challenged (simp on at h)
  ]
    where
      not_asked : mfa_required ≡ logged_in s → ⊥
      not_asked e = cc

      not_valid : invalid_mfa ≡ logged_in s → ⊥
      not_valid e = cc

      by_backup :
          (with_backup env now given.username u (redeem env u.id given.totp db.codes) db).0
            ≡ logged_in s
          → HasFactor now given u db × (s ≡ session_of env now u)
      by_backup e = elim (Bool-cases (redeem env u.id given.totp db.codes).0) [
        | inl found ↦ (inr (inr found), let f = rw found at e in cc)
        | inr missing ↦ absurd (not_valid (rw missing at e))
      ]

      challenged :
          (if str_eq given.totp ""
              then (mfa_required, db)
              else (if env.verify now given.totp (env.decrypt u.mfa_secret)
                  then admit_user env now given.username u db
                  else (if is_long given.totp
                      then with_backup env now given.username u
                          (redeem env u.id given.totp db.codes)
                          db
                      else (invalid_mfa, audit_entry given.username "login.mfa_failed" db)))).0
            ≡ logged_in s
          → HasFactor now given u db × (s ≡ session_of env now u)
      challenged e = elim (Bool-cases (str_eq given.totp "")) [
        | inl missing ↦ absurd (not_asked (rw missing at e))
        | inr present ↦ elim (Bool-cases (env.verify now given.totp (env.decrypt u.mfa_secret))) [
          | inl right ↦ (inr (inl right), let f = rw (present, right) at e in cc)
          | inr wrong ↦ elim (Bool-cases (is_long given.totp)) [
            | inl long ↦ by_backup (rw (present, wrong, long) at e)
            | inr short ↦ absurd (not_valid (rw (present, wrong, short) at e))
          ]
        ]
      ]

  refuse-refuses :
      (now : ℕ) (name : String) (user : Option User) (db : Db) {s : Session}
      → (refuse env now name user db).0 ≡ logged_in s
      → ⊥
  unfolding refuse
  refuse-refuses now name user db h = cc

  -- The row that a login is for: the enabled row of the name, by its own password, or the row
  -- that the directory's answer was written into.
  abbrev pub IsKnown : ℕ → Credentials → Db → User → Type 0
  IsKnown now given db u =
      ((find_user (by_name given.username) db.users ≡ some u)
        × (is_local u ≡ true)
        × (env.compare given.password u.password_hash ≡ true))
      ⊎ ((r : LdapUser) × (asked env.directory given ≡ some r)
          × (u ≡ (upsert env now given.username r db).0))

  upsert_codes :
      (now : ℕ) (name : String) (r : LdapUser) (db : Db)
      → (upsert env now name r db).1.codes ≡ db.codes
  unfolding upsert
  upsert_codes now name r db =
      elim (Option-cases (find_user (λ u. str_eq u.username name) db.users)) [
        | inl fresh ↦ rw fresh refl
        | inr (u, found) ↦ rw found refl
      ]

  -- The row of a login and its session. The lock is that of the enabled row of the name alone, which
  -- need not be the row that a directory's answer is written into.
  abbrev pub IsAuthentic : ℕ → Credentials → Db → Session → Type 0
  IsAuthentic now given db s =
      (u : User) × (is_locked now (find_user (by_name given.username) db.users) ≡ false)
      × IsKnown now given db u
      × HasFactor now given u db
      × (s ≡ session_of env now u)

  by_directory :
      (now : ℕ) (given : Credentials) (user : Option User) (answer : Option LdapUser) (db : Db)
      {s : Session}
      → asked env.directory given ≡ answer
      → is_locked now (find_user (by_name given.username) db.users) ≡ false
      → (login_ldap env now given user answer db).0 ≡ logged_in s
      → IsAuthentic now given db s
  by_directory now given user none db e open_ h =
      absurd (refuse-refuses now given.username user db h)
  by_directory now given user (some r) db e open_ h =
      let w = upsert env now given.username r db in
      let (factor, session) = second_factor-HasFactor now given w.0 w.1 h in
      (w.0, open_, inr (r, e, refl), rw (upsert_codes now given.username r db) at factor, session)

  -- A login that succeeds is as `IsAuthentic` says. The enabled row of the name is not locked, if
  -- there is one. The row of the login is that enabled row, with this password of its own; or the
  -- directory answers for the name and the password, and it is the row, enabled or not, that the
  -- answer was written into. That row has its second factor, and the session is of that row.
  pub login-IsAuthentic :
      (now : ℕ) (given : Credentials) (db : Db) (s : Session)
      → (login env now given db).0 ≡ logged_in s
      → IsAuthentic now given db s
  unfolding login
  login-IsAuthentic now given db s h =
      elim (Bool-cases (is_locked now (find_user (by_name given.username) db.users))) [
        | inl locked ↦ absurd (not_locked (rw locked at h))
        | inr open_ ↦ elim (Option-cases (find_user (by_name given.username) db.users)) [
          | inl unknown ↦ by_directory now given none _ db refl open_ (rw (open_, unknown) at h)
          | inr (u, found) ↦ known u found open_ (rw (open_, found) at h)
        ]
      ]
    where
      not_locked : {n : ℕ} → account_locked n ≡ logged_in s → ⊥
      not_locked e = cc

      known :
          (u : User)
          → find_user (by_name given.username) db.users ≡ some u
          → is_locked now (find_user (by_name given.username) db.users) ≡ false
          → (login_as env now given (some u) db).0 ≡ logged_in s
          → IsAuthentic now given db s
      known u found open_ e = elim (Bool-cases (is_local u)) [
        | inl own ↦ elim (Bool-cases (env.compare given.password u.password_hash)) [
          | inl right ↦
              let (factor, session) =
                second_factor-HasFactor now given u db (rw (own, right) at e) in
              (u, open_, inl (found, own, right), factor, session)
          | inr wrong ↦
              absurd (refuse-refuses now given.username (some u) db (rw (own, wrong) at e))
        ]
        | inr foreign ↦ by_directory now given (some u) _ db refl open_ (rw foreign at e)
      ]
