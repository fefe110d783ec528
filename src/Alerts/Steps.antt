-- ===== src/Alerts/Steps.antt =====
-- `raiseAlert` of backend/src/services/alertService.ts on one replica as the steps between its awaits:
-- the look at the maintenance windows, the SELECT of an open alert, and the INSERT. The steps of other
-- calls may come between two steps of one call. The decision on the email, which in the program comes
-- after one more query for the name of the device, stands with the INSERT.
use switchpilot.Prelude.{
  ℕ, String, Bool, ◌&&◌, List, [], ◌∷◌, ◌++◌, Option, none, some, get_elem?, str_eq, if◌then◌else◌,
}
use switchpilot.Util.Workers.{remove_at}
use switchpilot.Alerts.{
  Severity, Alerts, Window, in_maintenance_window, same_device, has_open, suppressed, insert_alert,
  email, resolve_alert,
}

-- The arguments of a call.
pub record Raise : Type 0 where
  pub device : Option String
  pub kind : String
  pub severity : Severity
  pub message : String

-- `outside` are the calls that are past the windows, and `missing` those whose SELECT found nothing.
pub record Flight : Type 0 where
  pub alerts : Alerts
  pub outside : List Raise
  pub missing : List Raise

pub data Step : Type 0 where
  begins : List Window → ℕ → Raise → Step
  selects : ℕ → Step
  inserts : ℕ → ℕ → Step
  resolves : ℕ → String → String → Step

abbrev pub begin : List Window → ℕ → Raise → Flight → Flight
begin windows now c f =
    if suppressed windows now c.device then f else record f { outside = f.outside ++ c ∷ [] }

abbrev pub select_found : ℕ → Option Raise → Flight → Flight
select_found i none f = f
select_found i (some c) f =
    let looked = record f { outside = remove_at i f.outside } in
    if has_open c.device c.kind f.alerts.alerts
    then looked
    else record looked { missing = c ∷ f.missing }

abbrev pub insert_found : ℕ → ℕ → Option Raise → Flight → Flight
insert_found i now none f = f
insert_found i now (some c) f = record f {
  alerts = insert_alert now c.device c.kind c.severity c.message f.alerts;
  missing = remove_at i f.missing;
}

unfoldable pub step : Step → Flight → Flight
unfolding in_maintenance_window has_open email resolve_alert remove_at
step (begins windows now c) f = begin windows now c f
step (selects i) f = select_found i (get_elem? f.outside i) f
step (inserts i now) f = insert_found i now (get_elem? f.missing i) f
step (resolves now id kind) f = record f { alerts = resolve_alert now id kind f.alerts }

unfoldable pub steps : List Step → Flight → Flight
unfolding step
steps [] f = f
steps (e ∷ es) f = steps es (step e f)

-- Two calls for one device and kind.
abbrev pub is_same : Raise → Raise → Bool
is_same c d = same_device c.device d.device && str_eq c.kind d.kind
