-- ===== src/Events/Trap.antt =====
-- SNMP traps (backend/src/services/snmpTrapService.ts). The value of a varbind is the text that
-- `String` or `toString` makes of it. The state is the cache of devices and the alerts.
pub mod Versions
pub mod Links
use Prim.Native.String
use switchpilot.Prelude.{
  ℕ, zero, suc, ◌+◌, ◌/◌, ◌%◌, String, Bool, true, false, not, ◌&&◌, List, [], ◌∷◌, Option, none,
  some, ltb, if◌then◌else◌, str_eq,
}
use switchpilot.Util.Text.{has_prefix, strip_prefix, is_empty}
use switchpilot.Alerts.{
  Severity, info, warning, Window, Alerts, in_maintenance_window, has_open, email, resolve_rows,
  raise_alert, resolve_alert,
}

pub record Varbind : Type 0 where
  pub oid : String
  pub value : String

pub record Pdu : Type 0 where
  pub generic : Option ℕ
  pub varbinds : List Varbind

pub record ParsedTrap : Type 0 where
  pub trap_oid : Option String
  pub if_index : Option String
  pub if_descr : Option String

pub data TrapDecision : Type 0 where
  ignore : TrapDecision
  raise_it : String → Severity → String → TrapDecision
  resolve_it : String → TrapDecision

abbrev pub snmp_trap_oid : String
snmp_trap_oid = "1.3.6.1.6.3.1.1.4.1.0"

abbrev pub ifindex_prefix : String
ifindex_prefix = "1.3.6.1.2.1.2.2.1.1."

abbrev pub ifdescr_prefix : String
ifdescr_prefix = "1.3.6.1.2.1.2.2.1.2."

-- A number in decimal digits; a round takes one digit away.
abbrev pub digit : ℕ → String
digit d = String.slice "0123456789" d (d + 1)

unfoldable pub decimal_from : ℕ → ℕ → String
decimal_from zero n = ""
decimal_from (suc fuel) n =
    let front = decimal_from fuel (n / 10) in
    if ltb n 10 then digit n else String.◌++◌ front (digit (n % 10))

unfoldable pub decimal : ℕ → String
unfolding decimal_from
decimal n = decimal_from (suc n) n

-- One round of the loop of parseTrap.
unfoldable pub read_varbind : Varbind → ParsedTrap → ParsedTrap
unfolding strip_prefix
read_varbind vb t =
    if str_eq vb.oid snmp_trap_oid
    then record t { trap_oid = some vb.value }
    else (if has_prefix ifindex_prefix vb.oid
        then record t { if_index = some vb.value }
        else (if has_prefix ifdescr_prefix vb.oid
            then record t { if_descr = some vb.value }
            else t))

unfoldable pub read_varbinds : List Varbind → ParsedTrap → ParsedTrap
unfolding read_varbind
read_varbinds [] t = t
read_varbinds (vb ∷ vbs) t = read_varbinds vbs (read_varbind vb t)

abbrev pub is_absent : Option String → Bool
is_absent none = true
is_absent (some text) = is_empty text

abbrev pub generic_oid : ℕ → String
generic_oid g = String.◌++◌ "1.3.6.1.6.3.1.1.5." (decimal (g + 1))

abbrev pub with_generic : Option ℕ → ParsedTrap → ParsedTrap
with_generic none t = t
with_generic (some g) t =
    if is_absent t.trap_oid then record t { trap_oid = some (generic_oid g) } else t

-- parseTrap
unfoldable pub parse_trap : Pdu → ParsedTrap
unfolding read_varbinds decimal
parse_trap pdu =
    with_generic pdu.generic
      (read_varbinds pdu.varbinds (record { trap_oid = none; if_index = none; if_descr = none }))

abbrev pub or_unknown : Option String → String
or_unknown none = "?"
or_unknown (some i) = i

abbrev pub described : Option String → String
described none = ""
described (some d) = if is_empty d then "" else String.◌++◌ " (" (String.◌++◌ d ")")

abbrev pub link_kind : Option String → String
link_kind index = String.◌++◌ "link_down:" (or_unknown index)

-- The message of a linkDown.
abbrev pub link_text : ParsedTrap → String
link_text t =
    String.◌++◌ "linkDown trap on ifIndex "
      (String.◌++◌ (or_unknown t.if_index) (described t.if_descr))

-- The `switch` of classifyTrap, on the trap's OID.
unfoldable pub classify_oid : ParsedTrap → String → TrapDecision
classify_oid t oid =
    if str_eq oid "1.3.6.1.6.3.1.1.5.1"
    then raise_it "device_reboot" warning "coldStart trap: device booted (power-cycle or crash)"
    else (if str_eq oid "1.3.6.1.6.3.1.1.5.2"
        then raise_it "device_reboot" info "warmStart trap: device restarted"
        else (if str_eq oid "1.3.6.1.6.3.1.1.5.3"
            then raise_it (link_kind t.if_index) warning (link_text t)
            else (if str_eq oid "1.3.6.1.6.3.1.1.5.4"
                then resolve_it (link_kind t.if_index)
                else (if str_eq oid "1.3.6.1.6.3.1.1.5.5"
                    then raise_it "snmp_auth_failure" warning
                        "authenticationFailure trap: an SNMP request used a bad community/credential"
                    else ignore))))

abbrev pub classify_some : ParsedTrap → Option String → TrapDecision
classify_some t none = ignore
classify_some t (some oid) = classify_oid t oid

unfoldable pub classify_trap : ParsedTrap → TrapDecision
unfolding classify_oid
classify_trap t = classify_some t t.trap_oid

pub record CachedDevice : Type 0 where
  pub device : Option String
  pub at : ℕ

abbrev pub device_ttl_ms : ℕ
device_ttl_ms = 60000

unfoldable pub find_cached : String → List (String × CachedDevice) → Option CachedDevice
find_cached ip [] = none
find_cached ip ((k, e) ∷ cache) = if str_eq k ip then some e else find_cached ip cache

unfoldable pub set_cached :
    String → CachedDevice → List (String × CachedDevice) → List (String × CachedDevice)
set_cached ip e [] = (ip, e) ∷ []
set_cached ip e ((k, d) ∷ cache) =
    if str_eq k ip then (k, e) ∷ cache else (k, d) ∷ set_cached ip e cache

pub record TrapState : Type 0 where
  pub cache : List (String × CachedDevice)
  pub alerts : Alerts

-- `lookup` is the query on `devices` at this time: no row and a failed query give `none` alike.
abbrev pub looked_up :
    (String → Option String)
    → ℕ
    → String
    → List (String × CachedDevice)
    → Option String × List (String × CachedDevice)
looked_up lookup now ip cache =
    (lookup ip, set_cached ip (record { device = lookup ip; at = now }) cache)

abbrev pub from_cache :
    (String → Option String)
    → ℕ
    → String
    → List (String × CachedDevice)
    → Option CachedDevice
    → Option String × List (String × CachedDevice)
from_cache lookup now ip cache none = looked_up lookup now ip cache
from_cache lookup now ip cache (some e) =
    if ltb now (e.at + device_ttl_ms) then (e.device, cache) else looked_up lookup now ip cache

unfoldable pub resolve_device :
    (String → Option String)
    → ℕ
    → String
    → List (String × CachedDevice)
    → Option String × List (String × CachedDevice)
unfolding find_cached set_cached
resolve_device lookup now ip cache = from_cache lookup now ip cache (find_cached ip cache)

abbrev pub decide :
    List Window
    → ℕ
    → TrapDecision
    → Option String × List (String × CachedDevice)
    → Alerts
    → TrapState
decide windows now decision (none, cache) s = record { cache = cache; alerts = s }
decide windows now ignore (some id, cache) s = record { cache = cache; alerts = s }
decide windows now (resolve_it kind) (some id, cache) s = record {
  cache = cache;
  alerts = resolve_alert now id kind s;
}
decide windows now (raise_it kind severity message) (some id, cache) s = record {
  cache = cache;
  alerts = raise_alert windows now (some id) kind severity message s;
}

-- A trap that says nothing does not look the device up.
abbrev pub handle_decision :
    List Window → (String → Option String) → ℕ → String → TrapDecision → TrapState → TrapState
handle_decision windows lookup now ip ignore s = s
handle_decision windows lookup now ip (resolve_it kind) s =
    decide windows now (resolve_it kind) (resolve_device lookup now ip s.cache) s.alerts
handle_decision windows lookup now ip (raise_it kind severity message) s =
    decide windows now (raise_it kind severity message) (resolve_device lookup now ip s.cache)
      s.alerts

-- handleTrap, of a datagram with a PDU and an address.
unfoldable pub handle_trap :
    List Window → (String → Option String) → ℕ → String → Pdu → TrapState → TrapState
unfolding parse_trap classify_trap resolve_device raise_alert resolve_alert
handle_trap windows lookup now ip pdu s =
    handle_decision windows lookup now ip (classify_trap (parse_trap pdu)) s
