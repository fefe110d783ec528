-- ===== src/Netflow/Apps.antt =====
-- Application labels by port (backend/src/services/netflow/apps.ts).
-- `none` is a port that is NaN or `undefined`, or a label that is not in the table.
use switchpilot.Prelude.{
  ℕ, zero, suc, String, Bool, true, false, ◌&&◌, List, [], ◌∷◌, Option, none, some, ◌==◌, leb,
  if◌then◌else◌,
}

abbrev pub ports : List (ℕ × String)
ports =
    (20, "ftp")
    ∷ (21, "ftp")
    ∷ (22, "ssh")
    ∷ (23, "telnet")
    ∷ (25, "smtp")
    ∷ (53, "dns")
    ∷ (67, "dhcp")
    ∷ (68, "dhcp")
    ∷ (69, "tftp")
    ∷ (80, "http")
    ∷ (110, "pop3")
    ∷ (119, "nntp")
    ∷ (123, "ntp")
    ∷ (143, "imap")
    ∷ (161, "snmp")
    ∷ (162, "snmp")
    ∷ (179, "bgp")
    ∷ (389, "ldap")
    ∷ (443, "https")
    ∷ (445, "smb")
    ∷ (465, "smtp")
    ∷ (514, "syslog")
    ∷ (587, "smtp")
    ∷ (636, "ldaps")
    ∷ (853, "dns")
    ∷ (873, "rsync")
    ∷ (993, "imap")
    ∷ (995, "pop3")
    ∷ (1194, "openvpn")
    ∷ (1701, "l2tp")
    ∷ (1812, "radius")
    ∷ (1883, "mqtt")
    ∷ (1900, "ssdp")
    ∷ (3306, "mysql")
    ∷ (3389, "rdp")
    ∷ (5060, "sip")
    ∷ (5061, "sip")
    ∷ (5201, "iperf")
    ∷ (5353, "mdns")
    ∷ (5432, "postgres")
    ∷ (5900, "vnc")
    ∷ (6379, "redis")
    ∷ (8080, "http")
    ∷ (8443, "https")
    ∷ (8883, "mqtt")
    ∷ (9000, "http")
    ∷ (25565, "minecraft")
    ∷ (27015, "steam")
    ∷ (32400, "plex")
    ∷ (51413, "bittorrent")
    ∷ (51820, "wireguard")
    ∷ []

-- `PORTS[port]`
unfoldable pub label_in : List (ℕ × String) → ℕ → Option String
label_in [] port = none
label_in ((p, label) ∷ table) port = if p == port then some label else label_in table port

unfoldable pub label_of : Option ℕ → Option String
unfolding label_in
label_of none = none
label_of (some port) = label_in ports port

-- A number is truthy when it is neither 0 nor NaN.
abbrev pub truthy : Option ℕ → Bool
truthy none = false
truthy (some zero) = false
truthy (some (suc n)) = true

abbrev smaller : Option ℕ → Option ℕ → Option ℕ
smaller (some a) (some b) = some (if leb a b then a else b)
smaller (some a) none = none
smaller none b = none

unfoldable pub app_for : Option ℕ → Option ℕ → String × Option ℕ
unfolding label_of
app_for src_port dst_port = elim (label_of dst_port) [
  | some app ↦ (app, dst_port)
  | none ↦ elim (label_of src_port) [
    | some app ↦ (app, src_port)
    | none ↦ (
      "other",
      (if truthy src_port && truthy dst_port
          then smaller src_port dst_port
          else (if truthy dst_port then dst_port else src_port)),
    )
  ]
]
