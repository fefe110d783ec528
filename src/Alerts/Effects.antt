-- ===== src/Alerts/Effects.antt =====
-- What one call does to the open alerts (backend/src/services/alertService.ts).
use switchpilot.Prelude.{
  ℕ, ◌≡◌, inl, inr, refl, ap, ◌∙◌, Bool, ◌&&◌, ◌||◌, String, true, false, List, [], ◌∷◌, Option,
  none, some, Bool-cases, arith, str_eq, str_eq_iff, str_eq_refl,
}
use switchpilot.Alerts.{
  same_device, is_unresolved, suppressed, Severity, Alert, Alerts, Window, is_open, has_open,
  in_maintenance_window, email_key, resolve_rows, raise_alert, resolve_alert,
}
use switchpilot.Alerts.Open.{email_alerts}

-- After `raiseAlert` outside of every window the alert is open, so a second one changes nothing.
pub raise_alert-has_open :
    (windows : List Window) (now : ℕ) (id kind message : String) (severity : Severity) (s : Alerts)
    → in_maintenance_window windows now id ≡ false
    → has_open (some id) kind (raise_alert windows now (some id) kind severity message s).alerts
      ≡ true
unfolding raise_alert
raise_alert-has_open windows now id kind message severity s outside =
    elim (Bool-cases (has_open (some id) kind s.alerts)) [
      | inl known ↦ rw (outside, known) known
      | inr new ↦
          rw (outside, new, email_alerts now (email_key (some id) kind) severity _) (opened s)
    ]
  where
    opened :
        (t : Alerts)
        → has_open (some id) kind (
            record {
              device = some id;
              severity = severity;
              kind = kind;
              message = message;
              resolved_at = none;
            }
            ∷ t.alerts)
          ≡ true
    opened t = rw (str_eq_refl id, str_eq_refl kind) refl

pub raise_alert-known :
    (windows : List Window) (now : ℕ) (id kind message : String) (severity : Severity) (s : Alerts)
    → has_open (some id) kind s.alerts ≡ true
    → raise_alert windows now (some id) kind severity message s ≡ s
unfolding raise_alert
raise_alert-known windows now id kind message severity s known =
    elim (Bool-cases (in_maintenance_window windows now id)) [
      | inl inside ↦ simp inside refl
      | inr outside ↦ simp (outside, known) refl
    ]

-- After a resolution there is no open alert of the device and kind.
resolve_rows-closes :
    (now : ℕ) (id kind : String) (alerts : List Alert)
    → has_open (some id) kind (resolve_rows now id kind alerts) ≡ false
unfolding has_open resolve_rows
resolve_rows-closes now id kind [] = refl
resolve_rows-closes now id kind (a ∷ alerts) =
    let rest = resolve_rows-closes now id kind alerts in
    elim (Bool-cases (is_open (some id) kind a)) [
      | inl was ↦ rw (was, rest) (ground arith)
      | inr shut ↦ rw (shut, rest) (ground (arith, shut))
    ]

-- A resolution of one kind leaves the others open.
resolve_rows-other :
    (now : ℕ) (id kind other : String) (device : Option String) (alerts : List Alert)
    → str_eq kind other ≡ false
    → has_open device other (resolve_rows now id kind alerts) ≡ has_open device other alerts
unfolding has_open resolve_rows
resolve_rows-other now id kind other device [] ne = refl
resolve_rows-other now id kind other device (a ∷ alerts) ne =
    let rest = resolve_rows-other now id kind other device alerts ne in
    elim (Bool-cases (is_open (some id) kind a)) [
      | inr shut ↦ rw (shut, rest) refl
      | inl was ↦
          let e : a.kind ≡ kind = (str_eq_iff a.kind kind).0 (ground (arith, was)) in
          let miss : str_eq a.kind other ≡ false = ap (λ (k : String). str_eq k other) e ∙ ne in
          rw (was, miss, rest) (ground arith)
    ]

pub resolve_alert-closes :
    (now : ℕ) (id kind : String) (s : Alerts)
    → has_open (some id) kind (resolve_alert now id kind s).alerts ≡ false
unfolding resolve_alert
resolve_alert-closes now id kind s = resolve_rows-closes now id kind s.alerts

pub resolve_alert-other :
    (now : ℕ) (id kind other : String) (device : Option String) (s : Alerts)
    → str_eq kind other ≡ false
    → has_open device other (resolve_alert now id kind s).alerts ≡ has_open device other s.alerts
unfolding resolve_alert
resolve_alert-other now id kind other device s ne =
    resolve_rows-other now id kind other device s.alerts ne

not_of : (a b r : Bool) → (a && (false && b) || r) ≡ r
not_of a b r = ground arith

-- An alert of one kind leaves the others as they are.
pub raise_alert-other :
    (windows : List Window) (now : ℕ) (id : Option String) (kind message other : String)
    (device : Option String) (severity : Severity) (s : Alerts)
    → str_eq kind other ≡ false
    → has_open device other (raise_alert windows now id kind severity message s).alerts
      ≡ has_open device other s.alerts
unfolding raise_alert has_open
raise_alert-other windows now id kind message other device severity s ne =
    elim (Bool-cases (suppressed windows now id)) [
      | inl quiet ↦ rw quiet refl
      | inr loud ↦ elim (Bool-cases (has_open id kind s.alerts)) [
        | inl known ↦ rw (loud, known) refl
        | inr new ↦
            rw (loud, new, email_alerts now (email_key id kind) severity _, ne)
              (not_of (same_device id device) (is_unresolved none) _)
      ]
    ]
