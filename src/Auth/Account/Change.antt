-- ===== src/Auth/Account/Change.antt =====
-- What a change of the password does to the row of the user and to the tokens issued before it.
use switchpilot.Prelude.{
  ℕ, ◌/◌, ◌<◌, ◌≡◌, inl, inr, refl, sym, ap, ◌∙◌, Option, none, String, true, false, List, [], ◌∷◌,
  some, if◌then◌else◌, Bool-cases, Option-cases, arith, str_eq, str_eq_iff,
}
use switchpilot.Auth.Rbac.{
  Role, AuthUser, AuthCache, ApiKey, LiveUser, Request, Claims, unauthorized, is_api_key,
  bust_auth_cache, revoked, require_role,
}
use switchpilot.Auth.Rbac.Guard.{require_role-busted}
use switchpilot.Auth.Policy.{Failure, validate_password}
use switchpilot.Auth.Login.{Env, User, Db, find_user, by_id}
use switchpilot.Auth.Login.Lockout.{find_user-update_user}
use switchpilot.Auth.Account.{
  changed, with_password, change_of, change_checked, change_password, is_directory_user,
}

-- The columns of a row that the guard reads.
abbrev pub live_row : Option User → Option LiveUser
live_row none = none
live_row (some u) =
    some (record { role = u.role; enabled = u.enabled; token_valid_after = u.token_valid_after })

module _ (env : Env) (hash : String → String) (units : String → List ℕ)
    (encrypt : String → String) where
  -- What a change of the password has been held against, and what it leaves: the caller's row knew
  -- the current password and not the new one, which the policy accepts; and the row has the new
  -- hash, a cut-off for tokens at that time, and no demand for a change.
  pub record IsChanged (now : ℕ) (me : AuthUser) (current new : String) (db after : Db)
      : Type 0 where
    pub row : User
    pub found : find_user (by_id me.sub) db.users ≡ some row
    pub own : is_directory_user row ≡ false
    pub knows : env.compare current row.password_hash ≡ true
    pub differs : env.compare new row.password_hash ≡ false
    pub strong : validate_password (units new) env.policy ≡ []
    pub written :
        find_user (by_id me.sub) after.users
        ≡ some (with_password env hash units encrypt now new row)

  found_id :
      (id : String) (users : List User) {u : User} → find_user (by_id id) users ≡ some u → u.id ≡ id
  unfolding find_user
  found_id id [] e = cc
  found_id id (v ∷ users) e = elim (Bool-cases (str_eq v.id id)) [
    | inl hit ↦ let same = rw hit at e in let eq = (str_eq_iff v.id id).0 hit in cc
    | inr miss ↦ found_id id users (rw miss at e)
  ]

  -- A change of the password that succeeds drops the caller from the cache of the guard.
  change_checked-busts :
      (now : ℕ) (me me' : AuthUser) (new : String) (u : User) (failures : List Failure) (db : Db)
      (cache : AuthCache)
      → (change_checked env hash units encrypt now me new u failures (db, cache)).0 ≡ changed me'
      → (change_checked env hash units encrypt now me new u failures (db, cache)).2
        ≡ bust_auth_cache (some me.sub) cache
  change_checked-busts now me me' new u [] db cache e = refl
  change_checked-busts now me me' new u (f ∷ failures) db cache e = cc

  change_of-busts :
      (now : ℕ) (me me' : AuthUser) (current new : String) (found : Option User) (db : Db)
      (cache : AuthCache)
      → (change_of env hash units encrypt now me current new found (db, cache)).0 ≡ changed me'
      → (change_of env hash units encrypt now me current new found (db, cache)).2
        ≡ bust_auth_cache (some me.sub) cache
  change_of-busts now me me' current new none db cache e = cc
  change_of-busts now me me' current new (some u) db cache e =
      elim (Bool-cases (is_directory_user u)) [
        | inl dir ↦ absurd (let f = rw dir at e in cc)
        | inr own ↦ elim (Bool-cases (env.compare current u.password_hash)) [
          | inr no_match ↦ absurd (let f = rw (own, no_match) at e in cc)
          | inl knows ↦ elim (Bool-cases (env.compare new u.password_hash)) [
            | inl again ↦ absurd (let f = rw (own, knows, again) at e in cc)
            | inr differs ↦
                rw (own, knows, differs)
                  (change_checked-busts now me me' new u (validate_password (units new) env.policy)
                    db cache (rw (own, knows, differs) at e))
          ]
        ]
      ]

  change_password-changes :
      (now : ℕ) (me me' : AuthUser) (current new : String) (db : Db) (cache : AuthCache)
      → (change_password env hash units encrypt now me current new (db, cache)).0 ≡ changed me'
      → IsChanged now me current new db
          (change_password env hash units encrypt now me current new (db, cache)).1
  unfolding change_password
  change_password-changes now me me' current new db cache h =
      elim (Option-cases (find_user (by_id me.sub) db.users)) [
        | inl missing ↦ let e = rw missing at h in cc
        | inr (u, found) ↦ by_row u found (rw found at h)
      ]
    where
      checked :
          (u : User) (failures : List Failure)
          → find_user (by_id me.sub) db.users ≡ some u
          → is_directory_user u ≡ false
          → env.compare current u.password_hash ≡ true
          → env.compare new u.password_hash ≡ false
          → validate_password (units new) env.policy ≡ failures
          → (change_checked env hash units encrypt now me new u failures (db, cache)).0
            ≡ changed me'
          → IsChanged now me current new db
              (change_checked env hash units encrypt now me new u failures (db, cache)).1
      checked u [] found own knows differs strong e = record {
        row = u;
        found = found;
        own = own;
        knows = knows;
        differs = differs;
        strong = strong;
        written = rw (← (found_id me.sub db.users found)) (
            find_user-update_user (by_id u.id) (with_password env hash units encrypt now new)
              db.users (λ v. refl) (rw (← (found_id me.sub db.users found)) at found));
      }
      checked u (f ∷ failures) found own knows differs strong e = cc

      by_row :
          (u : User)
          → find_user (by_id me.sub) db.users ≡ some u
          → (change_of env hash units encrypt now me current new (some u) (db, cache)).0
            ≡ changed me'
          → IsChanged now me current new db
              (change_of env hash units encrypt now me current new
                (find_user (by_id me.sub) db.users)
                (db, cache)).1
      by_row u found e = elim (Bool-cases (is_directory_user u)) [
        | inl dir ↦ absurd (let f = rw dir at e in cc)
        | inr own ↦ elim (Bool-cases (env.compare current u.password_hash)) [
          | inr no_match ↦ absurd (let f = rw (own, no_match) at e in cc)
          | inl knows ↦ elim (Bool-cases (env.compare new u.password_hash)) [
            | inl again ↦ absurd (let f = rw (own, knows, again) at e in cc)
            | inr differs ↦
                rw (found, own, knows, differs)
                  (checked u (validate_password (units new) env.policy) found own knows differs refl
                    (rw (own, knows, differs) at e))
          ]
        ]
      ]

  change_password-busts :
      (now : ℕ) (me me' : AuthUser) (current new : String) (db : Db) (cache : AuthCache)
      → (change_password env hash units encrypt now me current new (db, cache)).0 ≡ changed me'
      → (change_password env hash units encrypt now me current new (db, cache)).2
        ≡ bust_auth_cache (some me.sub) cache
  unfolding change_password
  change_password-busts now me me' current new db cache h =
      change_of-busts now me me' current new (find_user (by_id me.sub) db.users) db cache h

  -- A change of the password that succeeds is as `IsChanged` says. On the replica that made it, with
  -- the cache of the guard as the change left it and the row as the change wrote it, the next request
  -- with a JWT of the caller that was issued in an earlier second is unauthorized, whenever it comes
  -- and whatever role the route asks for.
  pub change_password-IsChanged :
      (now later iat : ℕ) (me me' : AuthUser) (current new : String) (db : Db) (cache : AuthCache)
      (sha256 : String → String) (keys : List ApiKey) (users : ℕ → String → Option LiveUser)
      (minimum : Role) (req : Request) (claims : Claims)
      → (change_password env hash units encrypt now me current new (db, cache)).0 ≡ changed me'
      → users later me.sub
        ≡ live_row (
            find_user
              (by_id me.sub)
              (change_password env hash units encrypt now me current new (db, cache)).1.users)
      → is_api_key req.authorization ≡ false
      → req.jwt ≡ some claims
      → claims.user.sub ≡ me.sub
      → claims.iat ≡ some iat
      → iat < now / 1000
      → let after = change_password env hash units encrypt now me current new (db, cache) in
        IsChanged now me current new db after.1
        × ((reason : String) × ((require_role sha256 keys users minimum later req after.2).0
              ≡ unauthorized reason))
  change_password-IsChanged now later iat me me' current new db cache sha256 keys users minimum req
        claims h stored no_key verified same issued early =
      let is = change_password-changes now me me' current new db cache h in
      let row = with_password env hash units encrypt now new is.row in
      let live : users later claims.user.sub ≡ live_row (some row) =
        ap (users later) same ∙ stored ∙ ap live_row is.written in
      let old : revoked (some now) claims.iat ≡ true = rw issued (ground (arith, early)) in
      let emptied =
        change_password-busts now me me' current new db cache h
        ∙ ap (λ (x : String). bust_auth_cache (some x) cache) (sym same) in
      (
        is,
        (
          if is.row.enabled then "Session revoked - log in again" else "Account disabled",
          rw emptied (
              require_role-busted sha256 keys users minimum later req cache claims _ no_key verified
                live old),
        ),
      )
