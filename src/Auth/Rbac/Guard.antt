-- ===== src/Auth/Rbac/Guard.antt =====
-- What a request that the guard lets through has been held against, and how it refuses the others.
use Prim.Native.String
use switchpilot.Prelude.{
  ℕ, ◌+◌, ◌≤◌, ◌<◌, ◌≡◌, ◌⊎◌, inl, inr, refl, sym, String, true, false, ◌&&◌, if◌then◌else◌, List,
  [], ◌∷◌, Option, none, some, Bool-cases, Option-cases, arith, str_eq, str_eq_iff,
}
use switchpilot.Auth.Rbac.{
  Decision, forbidden, has_role, Role, AuthUser, ApiKey, LiveUser, Claims, Request, AuthCache, rank,
  allow, unauthorized, is_api_key, find_key, key_user, drop_chars, cached, forget, bust_auth_cache,
  revoked, live_user, admit, check_live, require_role, verify_api_key,
}
use switchpilot.Auth.Rbac.Live.{IsGenuine, IsLive, live_user-IsLive}

-- A key that stands in the table.
abbrev pub IsKey : ApiKey → List ApiKey → Type 0
IsKey key [] = ⊥
IsKey key (k ∷ ks) = (key ≡ k) ⊎ IsKey key ks

module _ (sha256 : String → String) (keys : List ApiKey)
    (users : ℕ → String → Option LiveUser) where
  -- A JWT that is let through: its user was, at a time less than 30 seconds ago, an enabled user
  -- whose role then is the one that it gets and is high enough, and its issue time is not before
  -- the user's cut-off.
  pub record IsVouched (minimum : Role) (now : ℕ) (req : Request) (user : AuthUser) : Type 0 where
    pub claims : Claims
    pub verified : req.jwt ≡ some claims
    pub row : LiveUser
    pub at : ℕ
    pub past : at ≤ now
    pub recent : now < at + 30000
    pub live : users at claims.user.sub ≡ some row
    pub enabled : row.enabled ≡ true
    pub valid : revoked row.token_valid_after claims.iat ≡ false
    pub same_user : user ≡ record (claims.user) { role = row.role }
    pub ranked : rank minimum ≤ rank row.role

  vouch :
      (minimum : Role) (now : ℕ) (req : Request) (claims : Claims) (fresh : Option LiveUser)
      (user : AuthUser)
      → req.jwt ≡ some claims
      → IsLive users sha256 keys now claims.user.sub fresh
      → check_live sha256 keys users minimum claims fresh ≡ allow user
      → IsVouched minimum now req user
  vouch minimum now req claims none user e live h = cc
  vouch minimum now req claims (some row) user e (t, past, recent, same) h = record {
    claims = claims;
    verified = e;
    row = row;
    at = t;
    past = past;
    recent = recent;
    live = sym same;
    enabled = ground arith;
    valid = ground arith;
    same_user = ground arith;
    ranked = ground arith;
  }

  -- A request without an API key that the guard lets through is vouched for, whatever the role that
  -- its token claims, as long as the cache holds rows that the database had.
  pub require_role-IsVouched :
      (minimum : Role) (now : ℕ) (req : Request) (cache : AuthCache) (user : AuthUser)
      → IsGenuine users now cache
      → is_api_key req.authorization ≡ false
      → (require_role sha256 keys users minimum now req cache).0 ≡ allow user
      → IsVouched minimum now req user
  unfolding require_role
  require_role-IsVouched minimum now req cache user genuine no_key h = elim (Option-cases req.jwt) [
    | inl missing ↦ absurd (refused (rw (no_key, missing) at h))
    | inr (claims, verified) ↦
        vouch minimum now req claims _ user verified
          (live_user-IsLive users sha256 keys now claims.user.sub cache genuine).0
          (rw (no_key, verified) at h)
  ]
    where
      refused : unauthorized "Authentication required" ≡ allow user → ⊥
      refused e = cc

  find_key-IsKey :
      (hash : String) (ks : List ApiKey) {key : ApiKey}
      → find_key hash ks ≡ some key
      → IsKey key ks × (key.key_hash ≡ hash) × (key.enabled ≡ true)
  unfolding find_key
  find_key-IsKey hash [] e = cc
  find_key-IsKey hash (k ∷ ks) {key} e = elim (Bool-cases (str_eq k.key_hash hash && k.enabled)) [
    | inl hit ↦ found hit (rw hit at e)
    | inr miss ↦
        let (listed, same, enabled) = find_key-IsKey hash ks (rw miss at e) in
        (inr listed, same, enabled)
  ]
    where
      found :
          (str_eq k.key_hash hash && k.enabled) ≡ true
          → some k ≡ some key
          → IsKey key (k ∷ ks) × (key.key_hash ≡ hash) × (key.enabled ≡ true)
      found hit same = (
        inl (ground arith),
        ground (arith, str_eq_iff k.key_hash hash),
        ground (arith, str_eq_iff k.key_hash hash),
      )

  -- No enabled key has the hash.
  abbrev pub IsUnknown : String → List ApiKey → Type 0
  IsUnknown hash [] = Unit
  IsUnknown hash (k ∷ ks) = ((str_eq k.key_hash hash && k.enabled) ≡ false) × IsUnknown hash ks

  find_key-IsUnknown :
      (hash : String) (ks : List ApiKey) → find_key hash ks ≡ none → IsUnknown hash ks
  unfolding find_key
  find_key-IsUnknown hash [] e = tt
  find_key-IsUnknown hash (k ∷ ks) e = elim (Bool-cases (str_eq k.key_hash hash && k.enabled)) [
    | inl hit ↦ let f = rw hit at e in cc
    | inr miss ↦ (miss, find_key-IsUnknown hash ks (rw miss at e))
  ]

  -- The user that a key stands for.
  abbrev pub user_of_key : ApiKey → AuthUser
  user_of_key key = record {
    sub = key.id;
    username = String.◌++◌ "apikey:" key.name;
    role = key.role;
  }

  -- What the guard decides on a request with an API key of this hash.
  pub data IsDecided (minimum : Role) (hash : String) (decision : Decision) : Type 0 where
    granted :
        (key : ApiKey)
        → IsKey key keys
        → key.key_hash ≡ hash
        → key.enabled ≡ true
        → rank minimum ≤ rank key.role
        → decision ≡ allow (user_of_key key)
        → IsDecided minimum hash decision
    too_low :
        (key : ApiKey)
        → IsKey key keys
        → key.key_hash ≡ hash
        → key.enabled ≡ true
        → rank key.role < rank minimum
        → decision ≡ forbidden minimum
        → IsDecided minimum hash decision
    unknown :
        IsUnknown hash keys
        → decision ≡ unauthorized "Authentication required"
        → IsDecided minimum hash decision

  admit-IsDecided :
      (minimum : Role) (hash : String) (found : Option ApiKey)
      → find_key hash keys ≡ found
      → IsDecided minimum hash (admit sha256 keys users minimum (key_user sha256 keys users found))
  admit-IsDecided minimum hash none e = unknown (find_key-IsUnknown hash keys e) refl
  admit-IsDecided minimum hash (some key) e =
      let (listed, same, enabled) = find_key-IsKey hash keys e in
      elim (Bool-cases (has_role (user_of_key key) minimum)) [
        | inl high ↦ rw high (granted key listed same enabled (ground (arith, high)) refl)
        | inr low ↦ rw low (too_low key listed same enabled (ground (arith, low)) refl)
      ]

  -- A request with an API key is decided by the keys of the table alone, with no look at the JWT and
  -- the cache, in one of three ways. It is let through as the user of an enabled key with the hash
  -- of the token, with the id and the role of that key and its name behind `apikey:`, if the role is
  -- high enough; it is forbidden if the role of such a key is too low; and it is unauthorized if no
  -- enabled key of the table has the hash.
  pub require_role-IsKey :
      (minimum : Role) (now : ℕ) (req : Request) (cache : AuthCache)
      → is_api_key req.authorization ≡ true
      → IsDecided minimum
          (sha256 (drop_chars 7 req.authorization))
          (require_role sha256 keys users minimum now req cache).0
        × ((require_role sha256 keys users minimum now req cache).1 ≡ cache)
  unfolding require_role verify_api_key
  require_role-IsKey minimum now req cache is_key =
      let hash = sha256 (drop_chars 7 req.authorization) in
      rw is_key (admit-IsDecided minimum hash (find_key hash keys) refl, refl)

  cached-forget : (id : String) (cache : AuthCache) → cached id (forget id cache) ≡ none
  unfolding cached forget
  cached-forget id [] = refl
  cached-forget id ((j, e) ∷ cache) = elim (Bool-cases (str_eq j id)) [
    | inl same ↦ rw same (cached-forget id cache)
    | inr other ↦ rw (other, other) (cached-forget id cache)
  ]

  busted : (id : String) (cache : AuthCache) → cached id (bust_auth_cache (some id) cache) ≡ none
  unfolding cached bust_auth_cache
  busted String.[] cache = refl
  busted (String.◌∷◌ c s) cache = cached-forget (String.◌∷◌ c s) cache

  -- A JWT of a user that the cache has just forgotten is held against the row of the database; if it
  -- was issued before the cut-off there, it is refused.
  pub require_role-busted :
      (minimum : Role) (now : ℕ) (req : Request) (cache : AuthCache) (claims : Claims)
      (row : LiveUser)
      → is_api_key req.authorization ≡ false
      → req.jwt ≡ some claims
      → users now claims.user.sub ≡ some row
      → revoked row.token_valid_after claims.iat ≡ true
      → (require_role sha256 keys users minimum now req
          (bust_auth_cache (some claims.user.sub) cache)).0
        ≡ unauthorized
            (if row.enabled then "Session revoked - log in again" else "Account disabled")
  unfolding require_role live_user
  require_role-busted minimum now req cache claims row no_key verified stored old =
      rw (no_key, verified, busted claims.user.sub cache, stored)
        (elim (Bool-cases row.enabled) [ inl on ↦ rw (on, old) refl | inr off ↦ rw off refl ])

  -- After a bust of the cache, of one user or of all, the next look-up of the user reads the
  -- database as it is then.
  pub bust_auth_cache-immediate :
      (now : ℕ) (id : String) (cache : AuthCache)
      → ((live_user sha256 keys users now id (bust_auth_cache (some id) cache)).0 ≡ users now id)
        × ((live_user sha256 keys users now id (bust_auth_cache none cache)).0 ≡ users now id)
  unfolding live_user
  bust_auth_cache-immediate now id cache =
      (rw (busted id cache), unfold bust_auth_cache cached in refl)
