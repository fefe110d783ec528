-- ===== src/Auth/Login/Lockout.antt =====
-- The lock after too many failures, and a login that it does not see.
use switchpilot.Prelude.{
  ℕ, ◌+◌, ◌*◌, ◌≤◌, ◌<◌, ◌≡◌, inl, inr, refl, Bool, true, false, List, [], ◌∷◌, none, some,
  Bool-cases, leb, le→leb, ◌==◌, arith, str_eq, str_eq_refl,
}
use switchpilot.Auth.Login.{
  Env, User, Db, LdapUser, Credentials, account_locked, logged_in, find_user, update_user, by_name,
  is_locked, minutes_left, refuse, failed_row, session_of, admit_user, second_factor, upsert,
  refreshed, asked, is_local, login,
}

-- The first row of a test is still the first one after an update that the test does not see.
pub find_user-update_user :
    (p : User → Bool) (f : User → User) (users : List User) {u : User}
    → ((v : User) → p (f v) ≡ p v)
    → find_user p users ≡ some u
    → find_user p (update_user u.id f users) ≡ some (f u)
unfolding find_user update_user
find_user-update_user p f [] same e = cc
find_user-update_user p f (v ∷ users) {u} same e = elim (Bool-cases (p v)) [
  | inl hit ↦ found hit (rw hit at e)
  | inr miss ↦ elim (Bool-cases (str_eq v.id u.id)) [
    | inl mine ↦ rw (mine, same v, miss) (find_user-update_user p f users same (rw miss at e))
    | inr other ↦ rw (other, miss) (find_user-update_user p f users same (rw miss at e))
  ]
]
  where
    found : p v ≡ true → some v ≡ some u → find_user p (update_user u.id f (v ∷ users)) ≡ some (f u)
    found hit e = let same_row : u ≡ v = cc in rw (same_row, str_eq_refl v.id, same v, hit) refl

module _ (env : Env) where
  -- A login under the name of a locked row.
  locked_out :
      (later : ℕ) (other : Credentials) (db : Db) {v : User}
      → find_user (by_name other.username) db.users ≡ some v
      → is_locked later (some v) ≡ true
      → ((login env later other db).0 ≡ account_locked (minutes_left later (some v)))
        × ((login env later other db).1.users ≡ db.users)
        × ((login env later other db).1.codes ≡ db.codes)
  unfolding login
  locked_out later other db found locked = rw (found, locked) (refl, refl, refl)

  -- The rows after a login with a wrong password.
  refused_users :
      (now : ℕ) (given : Credentials) (db : Db) {u : User}
      → find_user (by_name given.username) db.users ≡ some u
      → is_local u ≡ true
      → is_locked now (some u) ≡ false
      → env.compare given.password u.password_hash ≡ false
      → 1 ≤ env.policy.lockout_threshold
      → (login env now given db).1.users ≡ update_user u.id (failed_row env now u) db.users
  unfolding login refuse
  refused_users now given db {u} found own open_ wrong some_limit =
      let limited : env.policy.lockout_threshold == 0 ≡ false = ground arith in
      rw (found, open_, own, wrong, limited)
        (elim (Bool-cases (leb env.policy.lockout_threshold (u.failed_login_count + 1))) [
          | inl full ↦ rw full refl
          | inr room ↦ rw room refl
        ])

  -- A wrong password for an enabled local row that is one failure short of the threshold locks it:
  -- until the minutes of the lock have passed, no login under its name is let through, whatever
  -- the password, and none changes a row or a backup code.
  pub login-locks :
      (now later : ℕ) (given other : Credentials) (db : Db) (u : User)
      → find_user (by_name given.username) db.users ≡ some u
      → is_local u ≡ true
      → is_locked now (some u) ≡ false
      → env.compare given.password u.password_hash ≡ false
      → 1 ≤ env.policy.lockout_threshold
      → env.policy.lockout_threshold ≤ u.failed_login_count + 1
      → other.username ≡ given.username
      → later < now + env.policy.lockout_minutes * 60000
      → (minutes : ℕ) × ((login env later other (login env now given db).1).0
          ≡ account_locked minutes)
        × ((login env later other (login env now given db).1).1.users
            ≡ (login env now given db).1.users)
        × ((login env later other (login env now given db).1).1.codes
            ≡ (login env now given db).1.codes)
  login-locks now later given other db u found own open_ wrong some_limit near same_name early =
      let f = failed_row env now u in
      let full = le→leb _ _ near in
      let after = (login env now given db).1 in
      let found_after : find_user (by_name other.username) after.users ≡ some (f u) =
        rw (same_name, refused_users now given db found own open_ wrong some_limit)
          (find_user-update_user (by_name given.username) f db.users (same_test full) found) in
      let (reply, users, codes) = locked_out later other after found_after (locked full) in
      (minutes_left later (some (f u)), reply, users, codes)
    where
      same_test :
          leb env.policy.lockout_threshold (u.failed_login_count + 1) ≡ true
          → (v : User) → by_name given.username (failed_row env now u v) ≡ by_name given.username v
      same_test full v = rw full refl

      locked :
          leb env.policy.lockout_threshold (u.failed_login_count + 1) ≡ true
          → is_locked later (some (failed_row env now u u)) ≡ true
      locked full = rw full (ground (arith, early))

  -- The directory lets a disabled row in: a login under its name that the directory answers, with no
  -- second factor set up, gives a session of that row with the role of the answer.
  pub login-disabled :
      (now : ℕ) (given : Credentials) (db : Db) (u : User) (r : LdapUser)
      → find_user (by_name given.username) db.users ≡ none
      → find_user (λ v. str_eq v.username given.username) db.users ≡ some u
      → u.mfa_enabled ≡ false
      → asked env.directory given ≡ some r
      → (login env now given db).0 ≡ logged_in (session_of env now (refreshed env r u))
  unfolding login second_factor admit_user upsert
  login-disabled now given db u r unknown row no_factor answer =
      rw (unknown, answer, row) (simp no_factor)
