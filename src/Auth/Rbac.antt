-- ===== src/Auth/Rbac.antt =====
-- The role guard (backend/src/auth/rbac.ts). The clock, the verification of JWTs, SHA-256 and the
-- contents of the database are parameters; the live-user cache is the state.
pub mod Live
pub mod Guard
use switchpilot.Prelude.{
  ℕ, zero, suc, ◌+◌, ◌/◌, String, Bool, true, false, not, ◌&&◌, List, [], ◌∷◌, Option, none, some,
  leb, ltb, if◌then◌else◌, str_eq,
}
use text.Mathlib.Text.{starts_with}
use Prim.Native.String

pub data Role : Type 0 where
  superadmin netadmin helpdesk readonly : Role

abbrev pub rank : Role → ℕ
rank superadmin = 4
rank netadmin = 3
rank helpdesk = 2
rank readonly = 1

pub record AuthUser : Type 0 where
  pub sub : String
  pub username : String
  pub role : Role

abbrev pub has_role : AuthUser → Role → Bool
has_role user minimum = leb (rank minimum) (rank user.role)

-- A row of `api_keys`.
pub record ApiKey : Type 0 where
  pub id : String
  pub name : String
  pub role : Role
  pub key_hash : String
  pub enabled : Bool

-- A row of `users`, with the times in milliseconds.
pub record LiveUser : Type 0 where
  pub role : Role
  pub enabled : Bool
  pub token_valid_after : Option ℕ

-- What a verified JWT claims; `iat` is in seconds.
pub record Claims : Type 0 where
  pub user : AuthUser
  pub iat : Option ℕ

-- The header is `''` when there is none; `jwt` is what `jwtVerify` gives, `none` when it throws.
pub record Request : Type 0 where
  pub authorization : String
  pub jwt : Option Claims

pub data Decision : Type 0 where
  allow : AuthUser → Decision
  unauthorized : String → Decision
  forbidden : Role → Decision

-- `s.slice(n)`, behind a prefix of ASCII characters.
unfoldable pub drop_chars : ℕ → String → String
drop_chars zero s = s
drop_chars (suc n) String.[] = String.[]
drop_chars (suc n) (String.◌∷◌ c s) = drop_chars n s

unfoldable pub find_key : String → List ApiKey → Option ApiKey
find_key hash [] = none
find_key hash (key ∷ keys) =
    if str_eq key.key_hash hash && key.enabled then some key else find_key hash keys

abbrev pub is_api_key : String → Bool
is_api_key header = starts_with header "Bearer sp_"

pub record CacheEntry : Type 0 where
  pub at : ℕ
  pub row : Option LiveUser

abbrev pub AuthCache : Type 0
AuthCache = List (String × CacheEntry)

unfoldable pub cached : String → AuthCache → Option CacheEntry
cached id [] = none
cached id ((j, e) ∷ cache) = if str_eq j id then some e else cached id cache

unfoldable pub remember : String → CacheEntry → AuthCache → AuthCache
remember id e [] = (id, e) ∷ []
remember id e ((j, f) ∷ cache) =
    if str_eq j id then (j, e) ∷ cache else (j, f) ∷ remember id e cache

unfoldable pub forget : String → AuthCache → AuthCache
forget id [] = []
forget id ((j, e) ∷ cache) =
    let rest = forget id cache in if str_eq j id then rest else (j, e) ∷ rest

unfoldable pub bust_auth_cache : Option String → AuthCache → AuthCache
unfolding forget
bust_auth_cache none cache = []
bust_auth_cache (some String.[]) cache = []
bust_auth_cache (some (String.◌∷◌ c s)) cache = forget (String.◌∷◌ c s) cache

abbrev pub ttl_ms : ℕ
ttl_ms = 30000

-- The check of the issue time against the cut-off, at the resolution of a second.
abbrev pub revoked : Option ℕ → Option ℕ → Bool
revoked none iat = false
revoked (some cutoff) none = false
revoked (some cutoff) (some iat) = ltb iat (cutoff / 1000)

-- `users t id` is the row of the user at time `t`, and `keys` are the rows of `api_keys`.
module _ (sha256 : String → String) (keys : List ApiKey)
    (users : ℕ → String → Option LiveUser) where
  abbrev key_user : Option ApiKey → Option AuthUser
  key_user none = none
  key_user (some key) =
      some (record { sub = key.id; username = String.◌++◌ "apikey:" key.name; role = key.role })

  unfoldable pub verify_api_key : String → Option AuthUser
  unfolding drop_chars find_key
  verify_api_key header =
      if is_api_key header then key_user (find_key (sha256 (drop_chars 7 header)) keys) else none

  abbrev fetch : ℕ → String → AuthCache → Option LiveUser × AuthCache
  fetch now id cache = (users now id, remember id (record { at = now; row = users now id }) cache)

  abbrev from_hit : ℕ → String → AuthCache → Option CacheEntry → Option LiveUser × AuthCache
  from_hit now id cache none = fetch now id cache
  from_hit now id cache (some hit) =
      if ltb now (hit.at + ttl_ms) then (hit.row, cache) else fetch now id cache

  -- liveUser
  unfoldable pub live_user : ℕ → String → AuthCache → Option LiveUser × AuthCache
  live_user now id cache = from_hit now id cache (cached id cache)

  abbrev admit : Role → Option AuthUser → Decision
  admit minimum none = unauthorized "Authentication required"
  admit minimum (some user) = if has_role user minimum then allow user else forbidden minimum

  -- The user of a verified JWT, held against the live row.
  abbrev pub check_live : Role → Claims → Option LiveUser → Decision
  check_live minimum claims none = unauthorized "Account disabled"
  check_live minimum claims (some fresh) =
      if not fresh.enabled
      then unauthorized "Account disabled"
      else (if revoked fresh.token_valid_after claims.iat
          then unauthorized "Session revoked - log in again"
          else admit minimum (some (record (claims.user) { role = fresh.role })))

  abbrev check_jwt : Role → ℕ → AuthCache → Option Claims → Decision × AuthCache
  check_jwt minimum now cache none = (admit minimum none, cache)
  check_jwt minimum now cache (some claims) =
      let (fresh, cache') = live_user now claims.user.sub cache in
      (check_live minimum claims fresh, cache')

  -- requireRole
  unfoldable pub require_role : Role → ℕ → Request → AuthCache → Decision × AuthCache
  require_role minimum now req cache =
      if is_api_key req.authorization
      then (admit minimum (verify_api_key req.authorization), cache)
      else check_jwt minimum now cache req.jwt
