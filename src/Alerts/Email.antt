-- ===== src/Alerts/Email.antt =====
-- Two emails of one device and kind are more than an hour apart.
use switchpilot.Prelude.{
  ℕ, ◌+◌, ◌≤◌, ◌<◌, ◌≡◌, ◌⊎◌, inl, inr, refl, String, Bool, true, false, ◌&&◌, List, [], ◌∷◌, All,
  All-mono, Bool-cases, leb, ltb, ltb→lt, arith, str_eq, str_eq_iff, str_eq_refl, if◌then◌else◌,
}
use switchpilot.Alerts.{
  Severity, warning, sev_rank, Alerts, last_of, set_last, throttle_ms, email, email_key, has_open,
  suppressed, raise_alert, resolve_alert, Call, raise, resolve, call, calls,
}

-- An email went out after every earlier one of its key by more than the hour of the throttle.
abbrev pub Spaced : List (String × ℕ) → Type 0
Spaced [] = Unit {0}
Spaced (sent ∷ emails) =
    All (λ old. (str_eq sent.0 old.0 ≡ false) ⊎ (old.1 + throttle_ms < sent.1)) emails
    × Spaced emails

-- The throttle knows of every email, and so does the next decision.
abbrev pub IsThrottled : Alerts → Type 0
IsThrottled s = All (λ sent. sent.1 ≤ last_of sent.0 s.last_email) s.emails × Spaced s.emails

last_of-set_last :
    (key k : String) (now : ℕ) (last : List (String × ℕ))
    → last_of k (set_last key now last) ≡ (if str_eq key k then now else last_of k last)
unfolding last_of set_last
last_of-set_last key k now [] = refl
last_of-set_last key k now ((j, t) ∷ last) = elim (Bool-cases (str_eq j key)) [
  | inl same ↦ rw (same, (str_eq_iff j key).0 same) (ground arith)
  | inr other ↦ rw (other, last_of-set_last key k now last) (apart other)
]
  where
    apart :
        str_eq j key ≡ false
        → (if str_eq j k then t else (if str_eq key k then now else last_of k last))
          ≡ (if str_eq key k then now else (if str_eq j k then t else last_of k last))
    apart other = elim (Bool-cases (str_eq key k)) [
      | inl here ↦
          let e = (str_eq_iff key k).0 here in
          let not_j : str_eq j k ≡ false = rw e at other in rw (here, not_j) refl
      | inr there ↦ rw there refl
    ]

-- What a new email of the key does to what is known of an earlier one.
known_later :
    (now : ℕ) (key : String) (last : List (String × ℕ)) (old : String × ℕ)
    → last_of key last + throttle_ms < now
    → old.1 ≤ last_of old.0 last
    → (old.1 ≤ last_of old.0 (set_last key now last))
      × ((str_eq key old.0 ≡ false) ⊎ (old.1 + throttle_ms < now))
known_later now key last old late h = elim (Bool-cases (str_eq key old.0)) [
  | inl same ↦
      let e = (str_eq_iff key old.0).0 same in
      let late' : last_of old.0 last + throttle_ms < now = rw e at late in
      rw (last_of-set_last key old.0 now last, same)
        (omega (arith, late', h), inr (omega (arith, late', h)))
  | inr other ↦ rw (last_of-set_last key old.0 now last, other) (h, inl refl)
]

email-IsThrottled :
    (now : ℕ) (key : String) (severity : Severity) (s : Alerts)
    → IsThrottled s
    → IsThrottled (email now key severity s)
unfolding email
email-IsThrottled now key severity s (known, spaced) =
    elim (Bool-cases (
      leb (sev_rank warning) (sev_rank severity)
      && ltb (last_of key s.last_email + throttle_ms) now)) [
        | inl sends ↦ rw sends (sent (ltb→lt _ _ (late _ _ sends)))
        | inr holds ↦ rw holds (known, spaced)
      ]
  where
    late : (a b : Bool) → a && b ≡ true → b ≡ true
    late a b h = ground arith

    sent :
        last_of key s.last_email + throttle_ms < now
        → IsThrottled (record s {
          last_email = set_last key now s.last_email;
          emails = (key, now) ∷ s.emails;
        })
    sent after = (
      (
        rw (last_of-set_last key key now s.last_email, str_eq_refl key) (omega arith),
        All-mono _ _ (λ old h. (known_later now key s.last_email old after h).0) s.emails known,
      ),
      (
        All-mono _ _ (λ old h. (known_later now key s.last_email old after h).1) s.emails known,
        spaced,
      ),
    )

call-IsThrottled : (c : Call) (s : Alerts) → IsThrottled s → IsThrottled (call c s)
unfolding raise_alert resolve_alert
call-IsThrottled (resolve now id kind) s h = h
call-IsThrottled (raise windows now device kind severity message) s h =
    elim (Bool-cases (suppressed windows now device)) [
      | inl quiet ↦ rw quiet h
      | inr loud ↦ elim (Bool-cases (has_open device kind s.alerts)) [
        | inl known ↦ rw (loud, known) h
        | inr new ↦ rw (loud, new) (email-IsThrottled now (email_key device kind) severity _ h)
      ]
    ]

-- Whatever the replica raises and resolves, and whatever its clock does, every email goes out more
-- than an hour after each earlier one of the same device and kind.
pub calls-IsThrottled : (cs : List Call) (s : Alerts) → IsThrottled s → IsThrottled (calls cs s)
unfolding calls
calls-IsThrottled [] s h = h
calls-IsThrottled (c ∷ cs) s h = calls-IsThrottled cs (call c s) (call-IsThrottled c s h)
