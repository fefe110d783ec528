-- ===== src/Events/Syslog.antt =====
-- The flood guard of the syslog listener and its cache of devices
-- (backend/src/services/syslogService.ts). Maps are lists without a repeated key; times are the
-- seconds, and for the cache the milliseconds, of the clock.
pub mod Rate
use switchpilot.Prelude.{
  ℕ, suc, ◌+◌, String, Bool, true, false, List, [], ◌∷◌, Option, none, some, length, leb, ltb, ◌==◌,
  if◌then◌else◌, str_eq,
}

pub record Window : Type 0 where
  pub count : ℕ
  pub window_sec : ℕ

abbrev pub map_cap : ℕ
map_cap = 20000

abbrev pub max_msgs : ℕ
max_msgs = 50

unfoldable pub find_window : String → List (String × Window) → Option Window
find_window ip [] = none
find_window ip ((k, r) ∷ rates) = if str_eq k ip then some r else find_window ip rates

unfoldable pub set_window : String → Window → List (String × Window) → List (String × Window)
set_window ip r [] = (ip, r) ∷ []
set_window ip r ((k, q) ∷ rates) =
    if str_eq k ip then (k, r) ∷ rates else (k, q) ∷ set_window ip r rates

-- `if (map.size > MAP_CAP) map.clear()`
abbrev pub capped {ℓ} : {A : Type ℓ} → List (String × A) → List (String × A)
capped entries = if ltb map_cap (length entries) then [] else entries

abbrev pub new_window : String → ℕ → List (String × Window) → Bool × List (String × Window)
new_window ip now rates = (true, set_window ip (record { count = 1; window_sec = now }) rates)

abbrev pub count_in :
    String → ℕ → List (String × Window) → Option Window → Bool × List (String × Window)
count_in ip now rates none = new_window ip now rates
count_in ip now rates (some r) =
    if r.window_sec == now
    then (if leb max_msgs r.count
        then (false, rates)
        else (true, set_window ip (record r { count = r.count + 1 }) rates))
    else new_window ip now rates

-- withinRate
unfoldable pub within_rate : String → ℕ → List (String × Window) → Bool × List (String × Window)
unfolding find_window set_window
within_rate ip now rates = let kept = capped rates in count_in ip now kept (find_window ip kept)

-- The sources of the messages that one second lets through to the store, in their order.
unfoldable pub stored_in : ℕ → List String → List (String × Window) → List String
unfolding within_rate
stored_in now [] rates = []
stored_in now (ip ∷ ips) rates =
    let (fits, next) = within_rate ip now rates in
    let rest = stored_in now ips next in if fits then ip ∷ rest else rest

-- The cache of devices, by the id and the name of a row. An empty name gives way to the address.
pub record Known : Type 0 where
  pub device_id : String
  pub hostname : String
  pub ts : ℕ

unfoldable pub find_known : String → List (String × Known) → Option Known
find_known ip [] = none
find_known ip ((k, e) ∷ cache) = if str_eq k ip then some e else find_known ip cache

unfoldable pub set_known : String → Known → List (String × Known) → List (String × Known)
set_known ip e [] = (ip, e) ∷ []
set_known ip e ((k, d) ∷ cache) =
    if str_eq k ip then (k, e) ∷ cache else (k, d) ∷ set_known ip e cache

abbrev pub name_or : String → String → String
name_or name ip = if str_eq name "" then ip else name

abbrev pub known_of : String → ℕ → Option (String × String) → Known
known_of ip now none = record { device_id = ""; hostname = ip; ts = now }
known_of ip now (some (id, name)) = record { device_id = id; hostname = name_or name ip; ts = now }

abbrev pub look_up :
    (String → Option (String × String))
    → String
    → ℕ
    → List (String × Known)
    → Known × List (String × Known)
look_up lookup ip now cache =
    (known_of ip now (lookup ip), set_known ip (known_of ip now (lookup ip)) (capped cache))

abbrev pub known_or :
    (String → Option (String × String))
    → String
    → ℕ
    → List (String × Known)
    → Option Known
    → Known × List (String × Known)
known_or lookup ip now cache none = look_up lookup ip now cache
known_or lookup ip now cache (some e) =
    if ltb now (e.ts + 60000) then (e, cache) else look_up lookup ip now cache

-- resolveDevice; `lookup` is the query on `devices`, where a failed one is no row.
unfoldable pub resolve_source :
    (String → Option (String × String))
    → String
    → ℕ
    → List (String × Known)
    → Known × List (String × Known)
unfolding find_known set_known
resolve_source lookup ip now cache = known_or lookup ip now cache (find_known ip cache)
