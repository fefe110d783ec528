-- ===== src/Alerts/Open.antt =====
-- When no device has two open alerts of one kind, and that a resolution keeps it so.
use switchpilot.Prelude.{
  ℕ, ◌≡◌, ◌⊎◌, inl, inr, refl, String, false, List, [], ◌∷◌, Option, some, Bool-cases, arith,
}
use switchpilot.Alerts.{
  Severity, Alert, Alerts, is_unresolved, is_open, has_open, email, resolve_rows,
}

-- No open alert is followed by another of its device and kind.
abbrev pub Single : List Alert → Type 0
Single [] = Unit {0}
Single (a ∷ alerts) =
    ((is_unresolved a.resolved_at ≡ false) ⊎ (has_open a.device a.kind alerts ≡ false))
    × Single alerts

-- A resolution opens nothing.
pub has_open-resolve_rows :
    (now : ℕ) (id kind k : String) (device : Option String) (alerts : List Alert)
    → has_open device k alerts ≡ false
    → has_open device k (resolve_rows now id kind alerts) ≡ false
unfolding has_open resolve_rows
has_open-resolve_rows now id kind k device [] h = refl
has_open-resolve_rows now id kind k device (a ∷ alerts) h =
    let rest = has_open-resolve_rows now id kind k device alerts (ground (arith, h)) in
    elim (Bool-cases (is_open (some id) kind a)) [
      | inl was ↦ rw (was, rest) (ground arith)
      | inr shut ↦ rw (shut, rest) (ground (arith, h))
    ]

pub resolve_rows-Single :
    (now : ℕ) (id kind : String) (alerts : List Alert)
    → Single alerts
    → Single (resolve_rows now id kind alerts)
unfolding resolve_rows
resolve_rows-Single now id kind [] h = tt
resolve_rows-Single now id kind (a ∷ alerts) (first, rest) =
    let later = resolve_rows-Single now id kind alerts rest in
    elim (Bool-cases (is_open (some id) kind a)) [
      | inl was ↦ rw was (inl refl, later)
      | inr shut ↦ rw shut (
        elim first [
          | inl closed ↦ inl closed
          | inr alone ↦ inr (has_open-resolve_rows now id kind a.kind a.device alerts alone)
        ],
        later,
      )
    ]

pub email_alerts :
    (now : ℕ) (key : String) (severity : Severity) (s : Alerts)
    → (email now key severity s).alerts ≡ s.alerts
unfolding email
email_alerts now key severity s = ground arith
