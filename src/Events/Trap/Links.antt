-- ===== src/Events/Trap/Links.antt =====
-- How the traps of a link raise and clear its alert.
use switchpilot.Prelude.{
  ℕ, ◌≡◌, refl, ap, ◌∙◌, String, true, false, List, Option, none, some, str_eq,
}
use switchpilot.Alerts.{
  Alerts, Window, warning, has_open, in_maintenance_window, raise_alert, resolve_alert,
}
use switchpilot.Alerts.Effects.{
  raise_alert-has_open, raise_alert-other, resolve_alert-closes, resolve_alert-other,
}
use switchpilot.Events.Trap.{
  link_text, raise_it, Pdu, ParsedTrap, TrapDecision, TrapState, CachedDevice, link_kind,
  parse_trap, classify_trap, classify_oid, resolve_device, decide, handle_decision, handle_trap,
  resolve_it,
}

classify_trap-down :
    (t : ParsedTrap)
    → t.trap_oid ≡ some "1.3.6.1.6.3.1.1.5.3"
    → classify_trap t ≡ raise_it (link_kind t.if_index) warning (link_text t)
unfolding classify_trap classify_oid
classify_trap-down t down = simp down refl

classify_trap-up :
    (t : ParsedTrap)
    → t.trap_oid ≡ some "1.3.6.1.6.3.1.1.5.4"
    → classify_trap t ≡ resolve_it (link_kind t.if_index)
unfolding classify_trap classify_oid
classify_trap-up t up = simp up refl

decide-resolve_it :
    (windows : List Window) (now : ℕ) (kind id : String)
    (found : Option String × List (String × CachedDevice)) (s : Alerts)
    → found.0 ≡ some id
    → (decide windows now (resolve_it kind) found s).alerts ≡ resolve_alert now id kind s
decide-resolve_it windows now kind id (none, cache) s e = absurd (cc)
decide-resolve_it windows now kind id (some i, cache) s e =
    let same : i ≡ id = cc in ap (λ (x : String). resolve_alert now x kind s) same

decide-raise_it :
    (windows : List Window) (now : ℕ) (kind text id : String)
    (found : Option String × List (String × CachedDevice)) (s : Alerts)
    → found.0 ≡ some id
    → (decide windows now (raise_it kind warning text) found s).alerts
      ≡ raise_alert windows now (some id) kind warning text s
decide-raise_it windows now kind text id (none, cache) s e = absurd (cc)
decide-raise_it windows now kind text id (some i, cache) s e =
    let same : i ≡ id = cc in
    ap (λ (x : String). raise_alert windows now (some x) kind warning text s) same

handle_trap-down :
    (windows : List Window) (lookup : String → Option String) (now : ℕ) (ip id : String) (pdu : Pdu)
    (s : TrapState)
    → (parse_trap pdu).trap_oid ≡ some "1.3.6.1.6.3.1.1.5.3"
    → (resolve_device lookup now ip s.cache).0 ≡ some id
    → (handle_trap windows lookup now ip pdu s).alerts
      ≡ raise_alert windows now
          (some id)
          (link_kind (parse_trap pdu).if_index)
          warning
          (link_text (parse_trap pdu))
          s.alerts
unfolding handle_trap
handle_trap-down windows lookup now ip id pdu s down managed =
    ap (λ (d : TrapDecision). (handle_decision windows lookup now ip d s).alerts)
      (classify_trap-down (parse_trap pdu) down)
    ∙ decide-raise_it windows now (link_kind (parse_trap pdu).if_index) (link_text (parse_trap pdu))
        id (resolve_device lookup now ip s.cache) s.alerts managed

handle_trap-up :
    (windows : List Window) (lookup : String → Option String) (now : ℕ) (ip id : String) (pdu : Pdu)
    (s : TrapState)
    → (parse_trap pdu).trap_oid ≡ some "1.3.6.1.6.3.1.1.5.4"
    → (resolve_device lookup now ip s.cache).0 ≡ some id
    → (handle_trap windows lookup now ip pdu s).alerts
      ≡ resolve_alert now id (link_kind (parse_trap pdu).if_index) s.alerts
unfolding handle_trap
handle_trap-up windows lookup now ip id pdu s up managed =
    ap (λ (d : TrapDecision). (handle_decision windows lookup now ip d s).alerts)
      (classify_trap-up (parse_trap pdu) up)
    ∙ decide-resolve_it windows now (link_kind (parse_trap pdu).if_index) id
        (resolve_device lookup now ip s.cache) s.alerts managed

-- A linkDown trap of a managed device, outside of the maintenance windows, leaves an open alert of
-- the link of its index. A linkUp trap of the same device and index, in whatever state it comes,
-- leaves no such alert open, so that it clears what the linkDown raised. Neither of them opens or
-- closes an alert of another kind, of this device or of any other.
pub handle_trap-link_up :
    (windows : List Window) (lookup : String → Option String) (now later : ℕ) (ip id : String)
    (down up : Pdu) (s t : TrapState) (device : Option String) (other : String)
    → (parse_trap down).trap_oid ≡ some "1.3.6.1.6.3.1.1.5.3"
    → (parse_trap up).trap_oid ≡ some "1.3.6.1.6.3.1.1.5.4"
    → (parse_trap up).if_index ≡ (parse_trap down).if_index
    → (resolve_device lookup now ip s.cache).0 ≡ some id
    → (resolve_device lookup later ip t.cache).0 ≡ some id
    → in_maintenance_window windows now id ≡ false
    → str_eq (link_kind (parse_trap down).if_index) other ≡ false
    → let kind = link_kind (parse_trap down).if_index in
      let raised = (handle_trap windows lookup now ip down s).alerts.alerts in
      let cleared = (handle_trap windows lookup later ip up t).alerts.alerts in
      (has_open (some id) kind raised ≡ true)
      × (has_open (some id) kind cleared ≡ false)
      × (has_open device other raised ≡ has_open device other s.alerts.alerts)
      × (has_open device other cleared ≡ has_open device other t.alerts.alerts)
handle_trap-link_up windows lookup now later ip id down up s t device other goes_down goes_up same
      managed still outside ne =
    let kind = link_kind (parse_trap down).if_index in
    let text = link_text (parse_trap down) in
    let first = handle_trap-down windows lookup now ip id down s goes_down managed in
    let second =
      handle_trap-up windows lookup later ip id up t goes_up still
      ∙ ap (λ (x : Option String). resolve_alert later id (link_kind x) t.alerts) same in
    (
      ap (λ (x : Alerts). has_open (some id) kind x.alerts) first
          ∙ raise_alert-has_open windows now id kind text warning s.alerts outside,
      ap (λ (x : Alerts). has_open (some id) kind x.alerts) second
          ∙ resolve_alert-closes later id kind t.alerts,
      ap (λ (x : Alerts). has_open device other x.alerts) first
          ∙ raise_alert-other windows now (some id) kind text other device warning s.alerts ne,
      ap (λ (x : Alerts). has_open device other x.alerts) second
          ∙ resolve_alert-other later id kind other device t.alerts ne,
    )
