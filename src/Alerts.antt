-- ===== src/Alerts.antt =====
-- Raising and resolving alerts (backend/src/services/alertService.ts). The state is the table of
-- alerts and the throttle of this replica; the emails that go out are an output that is kept.
-- A call here runs to its end before the next one; Steps has the calls whose statements interleave.
-- Device ids are UUIDs, so no device has the empty text as its id.
pub mod Open
pub mod Effects
pub mod Email
pub mod Steps
pub mod Overlap
mod Tests
use Prim.Native.String
use switchpilot.Prelude.{
  ℕ, zero, suc, ◌+◌, String, Bool, true, false, not, ◌&&◌, ◌||◌, List, [], ◌∷◌, Option, none, some,
  leb, ltb, if◌then◌else◌, str_eq,
}

pub data Severity : Type 0 where
  info warning critical : Severity

abbrev pub sev_rank : Severity → ℕ
sev_rank info = 1
sev_rank warning = 2
sev_rank critical = 3

pub record Alert : Type 0 where
  pub device : Option String
  pub severity : Severity
  pub kind : String
  pub message : String
  pub resolved_at : Option ℕ

-- A row of `maintenance_windows`.
pub record Window : Type 0 where
  pub starts_at : ℕ
  pub ends_at : ℕ
  pub device_ids : List String

unfoldable pub any_of : String → List String → Bool
any_of id [] = false
any_of id (d ∷ ids) = str_eq d id || any_of id ids

abbrev pub covers : String → List String → Bool
covers id [] = true
covers id (d ∷ ids) = any_of id (d ∷ ids)

unfoldable pub in_maintenance_window : List Window → ℕ → String → Bool
unfolding any_of
in_maintenance_window [] now id = false
in_maintenance_window (w ∷ windows) now id =
    leb w.starts_at now && leb now w.ends_at && covers id w.device_ids
    || in_maintenance_window windows now id

-- `IS NOT DISTINCT FROM`
abbrev pub same_device : Option String → Option String → Bool
same_device none none = true
same_device none (some d) = false
same_device (some c) none = false
same_device (some c) (some d) = str_eq c d

abbrev pub is_unresolved : Option ℕ → Bool
is_unresolved none = true
is_unresolved (some t) = false

abbrev pub is_open : Option String → String → Alert → Bool
is_open device kind a =
    same_device a.device device && (str_eq a.kind kind && is_unresolved a.resolved_at)

unfoldable pub has_open : Option String → String → List Alert → Bool
has_open device kind [] = false
has_open device kind (a ∷ alerts) = is_open device kind a || has_open device kind alerts

-- `lastEmail`, with `?? 0` where there is no entry.
unfoldable pub last_of : String → List (String × ℕ) → ℕ
last_of key [] = 0
last_of key ((k, t) ∷ last) = if str_eq k key then t else last_of key last

unfoldable pub set_last : String → ℕ → List (String × ℕ) → List (String × ℕ)
set_last key now [] = (key, now) ∷ []
set_last key now ((k, t) ∷ last) =
    if str_eq k key then (k, now) ∷ last else (k, t) ∷ set_last key now last

pub record Alerts : Type 0 where
  pub alerts : List Alert
  pub last_email : List (String × ℕ)
  pub emails : List (String × ℕ)

abbrev pub email_key : Option String → String → String
email_key none kind = String.◌++◌ "platform:" kind
email_key (some id) kind = String.◌++◌ id (String.◌++◌ ":" kind)

abbrev pub throttle_ms : ℕ
throttle_ms = 3600000

-- The decision to send an email, and its time put into the throttle.
unfoldable pub email : ℕ → String → Severity → Alerts → Alerts
unfolding last_of set_last
email now key severity s =
    if leb (sev_rank warning) (sev_rank severity)
      && ltb (last_of key s.last_email + throttle_ms) now
    then record s { last_email = set_last key now s.last_email; emails = (key, now) ∷ s.emails }
    else s

abbrev pub suppressed : List Window → ℕ → Option String → Bool
suppressed windows now none = false
suppressed windows now (some id) = in_maintenance_window windows now id

-- The INSERT, and the decision on the email.
abbrev pub insert_alert : ℕ → Option String → String → Severity → String → Alerts → Alerts
insert_alert now device kind severity message s =
    let new : Alert = record {
      device = device;
      severity = severity;
      kind = kind;
      message = message;
      resolved_at = none;
    } in
    email now (email_key device kind) severity (record s { alerts = new ∷ s.alerts })

-- A whole call of raiseAlert, with no other call between its statements.
unfoldable pub raise_alert :
    List Window → ℕ → Option String → String → Severity → String → Alerts → Alerts
unfolding in_maintenance_window has_open email
raise_alert windows now device kind severity message s =
    if suppressed windows now device
    then s
    else (if has_open device kind s.alerts
        then s
        else insert_alert now device kind severity message s)

unfoldable pub resolve_rows : ℕ → String → String → List Alert → List Alert
resolve_rows now id kind [] = []
resolve_rows now id kind (a ∷ alerts) =
    (if is_open (some id) kind a then record a { resolved_at = some now } else a)
    ∷ resolve_rows now id kind alerts

-- resolveAlert
unfoldable pub resolve_alert : ℕ → String → String → Alerts → Alerts
unfolding resolve_rows
resolve_alert now id kind s = record s { alerts = resolve_rows now id kind s.alerts }

-- The calls of one replica, one after the other.
pub data Call : Type 0 where
  raise : List Window → ℕ → Option String → String → Severity → String → Call
  resolve : ℕ → String → String → Call

abbrev pub call : Call → Alerts → Alerts
call (raise windows now device kind severity message) =
    raise_alert windows now device kind severity message
call (resolve now id kind) = resolve_alert now id kind

unfoldable pub calls : List Call → Alerts → Alerts
unfolding raise_alert resolve_alert
calls [] s = s
calls (c ∷ cs) s = calls cs (call c s)
