-- ===== src/Auth/Rbac/Live.antt =====
-- The live-user cache: what it answers was in the database less than 30 seconds ago.
use switchpilot.Prelude.{
  ℕ, ◌+◌, ◌≤◌, ◌<◌, ◌≡◌, inl, inr, refl, String, List, [], ◌∷◌, Option, some, All, All-mono,
  Bool-cases, Option-cases, ltb, ltb→lt, arith, str_eq, str_eq_iff,
}
use switchpilot.Auth.Rbac.{
  LiveUser, ApiKey, CacheEntry, AuthCache, cached, remember, ttl_ms, from_hit, live_user,
}

module _ (users : ℕ → String → Option LiveUser) where
  -- Every entry was fetched by now, and holds the row of that time.
  abbrev pub IsGenuine : ℕ → AuthCache → Type 0
  IsGenuine now = All (λ entry. (entry.1.at ≤ now) × (entry.1.row ≡ users entry.1.at entry.0))

  pub IsGenuine-later :
      (now later : ℕ) (cache : AuthCache)
      → now ≤ later
      → IsGenuine now cache
      → IsGenuine later cache
  IsGenuine-later now later cache h = All-mono _ _ (λ entry g. (omega (arith, g.0), g.1)) cache

  cached-IsGenuine :
      (now : ℕ) (id : String) (cache : AuthCache) {hit : CacheEntry}
      → IsGenuine now cache
      → cached id cache ≡ some hit
      → (hit.at ≤ now) × (hit.row ≡ users hit.at id)
  unfolding cached
  cached-IsGenuine now id [] g e = cc
  cached-IsGenuine now id ((j, entry) ∷ cache) (h, hs) e = elim (Bool-cases (str_eq j id)) [
    | inl same ↦ ground (arith, str_eq_iff j id, h)
    | inr other ↦ cached-IsGenuine now id cache hs (ground (arith))
  ]

  remember-IsGenuine :
      (now : ℕ) (id : String) (entry : CacheEntry) (cache : AuthCache)
      → (entry.at ≤ now) × (entry.row ≡ users entry.at id)
      → IsGenuine now cache
      → IsGenuine now (remember id entry cache)
  unfolding remember
  remember-IsGenuine now id entry [] new g = (new, tt)
  remember-IsGenuine now id entry ((j, old) ∷ cache) new (h, hs) = elim (Bool-cases (str_eq j id)) [
    | inl same ↦ rw same (rw ((str_eq_iff j id).0 same) new, hs)
    | inr other ↦ rw other (h, remember-IsGenuine now id entry cache new hs)
  ]

  module _ (sha256 : String → String) (keys : List ApiKey) where
    -- The row that a look-up answers is the user's row of a time less than 30 seconds ago.
    abbrev pub IsLive : ℕ → String → Option LiveUser → Type 0
    IsLive now id row = (t : ℕ) × (t ≤ now) × (now < t + 30000) × (row ≡ users t id)

    -- With a genuine cache, a look-up answers the row that the user had less than 30 seconds ago,
    -- and leaves a genuine cache.
    pub live_user-IsLive :
        (now : ℕ) (id : String) (cache : AuthCache)
        → IsGenuine now cache
        → IsLive now id (live_user sha256 keys users now id cache).0
          × IsGenuine now (live_user sha256 keys users now id cache).1
    unfolding live_user
    live_user-IsLive now id cache g = elim (Option-cases (cached id cache)) [
      | inl miss ↦ rw miss fetched
      | inr (hit, found) ↦ rw found (held hit (cached-IsGenuine now id cache g found))
    ]
      where
        fetched :
            IsLive now id (users now id)
            × IsGenuine now (remember id (record { at = now; row = users now id }) cache)
        fetched = (
          (now, omega arith, omega arith, refl),
          remember-IsGenuine now id _ cache (omega arith, refl) g,
        )

        held :
            (hit : CacheEntry)
            → (hit.at ≤ now) × (hit.row ≡ users hit.at id)
            → IsLive now id (from_hit sha256 keys users now id cache (some hit)).0
              × IsGenuine now (from_hit sha256 keys users now id cache (some hit)).1
        held hit (past, genuine) = elim (Bool-cases (ltb now (hit.at + ttl_ms))) [
          | inl young ↦ rw young ((hit.at, past, ltb→lt _ _ young, genuine), g)
          | inr old ↦ rw old fetched
        ]
