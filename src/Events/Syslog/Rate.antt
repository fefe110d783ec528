-- ===== src/Events/Syslog/Rate.antt =====
-- How many messages of a source one second lets through.
use switchpilot.Prelude.{
  ℕ, suc, ◌+◌, ◌-◌, ◌≤◌, ◌≡◌, refl, ap, sym, subst, ◌∙◌, inl, inr, String, true, false, List, [],
  ◌∷◌, Option, none, some, length, leb, ltb, ◌==◌, le→ltb-false, Bool-cases, arith, str_eq,
  str_eq_iff, str_eq_refl, if◌then◌else◌,
}
use switchpilot.Events.Syslog.{
  Window, map_cap, max_msgs, find_window, set_window, capped, count_in, within_rate, stored_in,
}

-- How often a source stands in a list.
unfoldable pub count_of : String → List String → ℕ
count_of ip [] = 0
count_of ip (x ∷ xs) = let rest = count_of ip xs in if str_eq x ip then suc rest else rest

-- What a source has used of this second.
abbrev pub used_of : ℕ → Option Window → ℕ
used_of now none = 0
used_of now (some r) = if r.window_sec == now then r.count else 0

abbrev pub used : String → ℕ → List (String × Window) → ℕ
used ip now rates = used_of now (find_window ip rates)

find_window-set_window :
    (ip k : String) (r : Window) (rates : List (String × Window))
    → find_window ip (set_window k r rates) ≡ (if str_eq k ip then some r else find_window ip rates)
unfolding find_window set_window
find_window-set_window ip k r [] = refl
find_window-set_window ip k r ((j, q) ∷ rates) = elim (Bool-cases (str_eq j k)) [
  | inl same ↦
      let e : j ≡ k = (str_eq_iff j k).0 same in
      rw same (
        let f : str_eq j ip ≡ str_eq k ip = ap (λ (x : String). str_eq x ip) e in
        elim (Bool-cases (str_eq k ip)) [
          | inl mine ↦ rw (f, mine) refl
          | inr other ↦ rw (f, other) refl
        ])
  | inr apart ↦ elim (Bool-cases (str_eq j ip)) [
    | inl mine ↦ let ne : str_eq k ip ≡ false = not_same mine apart in rw (apart, mine, ne) refl
    | inr other ↦ rw (apart, other) (find_window-set_window ip k r rates)
  ]
]
  where
    not_same : str_eq j ip ≡ true → str_eq j k ≡ false → str_eq k ip ≡ false
    not_same mine apart = elim (Bool-cases (str_eq k ip)) [
      | inr ne ↦ ne
      | inl too ↦
          let e : j ≡ k = (str_eq_iff j ip).0 mine ∙ sym ((str_eq_iff k ip).0 too) in
          absurd (let h = (str_eq_iff j k).1 e in cc)
    ]

length-set_window :
    (k : String) (r : Window) (rates : List (String × Window))
    → length (set_window k r rates) ≤ suc (length rates)
unfolding set_window
length-set_window k r [] = omega arith
length-set_window k r ((j, q) ∷ rates) = elim (Bool-cases (str_eq j k)) [
  | inl same ↦ rw same (omega arith)
  | inr apart ↦ rw apart (omega (arith, length-set_window k r rates))
]

length-count_in :
    (x : String) (now : ℕ) (rates : List (String × Window)) (found : Option Window)
    → length (count_in x now rates found).1 ≤ suc (length rates)
length-count_in x now rates none = length-set_window x _ rates
length-count_in x now rates (some r) = elim (Bool-cases (r.window_sec == now)) [
  | inl same ↦ elim (Bool-cases (leb max_msgs r.count)) [
    | inl full ↦ rw (same, full) (omega arith)
    | inr room ↦ rw (same, room) (length-set_window x _ rates)
  ]
  | inr old ↦ rw old (length-set_window x _ rates)
]

capped_small : (rates : List (String × Window)) → length rates ≤ map_cap → capped rates ≡ rates
capped_small rates small = rw (le→ltb-false map_cap (length rates) small) refl

length-within_rate :
    (x : String) (now : ℕ) (rates : List (String × Window))
    → length rates ≤ map_cap
    → length (within_rate x now rates).1 ≤ suc (length rates)
unfolding within_rate
length-within_rate x now rates small =
    rw (capped_small rates small) (length-count_in x now rates (find_window x rates))

used-set_window :
    (ip : String) (now : ℕ) (r : Window) (rates : List (String × Window))
    → used ip now (set_window ip r rates) ≡ used_of now (some r)
used-set_window ip now r rates = rw (find_window-set_window ip ip r rates, str_eq_refl ip) refl

used-set_other :
    (ip x : String) (now : ℕ) (r : Window) (rates : List (String × Window))
    → str_eq x ip ≡ false
    → used ip now (set_window x r rates) ≡ used ip now rates
used-set_other ip x now r rates ne = rw (find_window-set_window ip x r rates, ne) refl

count_in-own :
    (ip : String) (now : ℕ) (rates : List (String × Window)) (found : Option Window)
    → find_window ip rates ≡ found
    → ((count_in ip now rates found).0 ≡ ltb (used_of now found) max_msgs)
      × (used ip now (count_in ip now rates found).1 ≡ (
          if ltb (used_of now found) max_msgs then suc (used_of now found) else used_of now found))
count_in-own ip now rates none e = (refl, used-set_window ip now _ rates ∙ ground arith)
count_in-own ip now rates (some r) e = elim (Bool-cases (r.window_sec == now)) [
  | inl same ↦
      let here : used ip now rates ≡ r.count = ap (used_of now) e ∙ rw same refl in
      elim (Bool-cases (leb max_msgs r.count)) [
        | inl full ↦
            let over : ltb r.count max_msgs ≡ false = ground (arith, full) in
            rw (same, full, over) (refl, here)
        | inr room ↦
            let below : ltb r.count max_msgs ≡ true = ground (arith, room) in
            rw (same, room, below) (refl, used-set_window ip now _ rates ∙ rw same (omega arith))
      ]
  | inr old ↦ rw old (refl, used-set_window ip now _ rates ∙ ground arith)
]

count_in-other :
    (ip x : String) (now : ℕ) (rates : List (String × Window)) (found : Option Window)
    → str_eq x ip ≡ false
    → used ip now (count_in x now rates found).1 ≡ used ip now rates
count_in-other ip x now rates none ne = used-set_other ip x now _ rates ne
count_in-other ip x now rates (some r) ne = elim (Bool-cases (r.window_sec == now)) [
  | inl same ↦ elim (Bool-cases (leb max_msgs r.count)) [
    | inl full ↦ rw (same, full) refl
    | inr room ↦ rw (same, room) (used-set_other ip x now _ rates ne)
  ]
  | inr old ↦ rw old (used-set_other ip x now _ rates ne)
]

within_rate-own :
    (ip : String) (now : ℕ) (rates : List (String × Window))
    → length rates ≤ map_cap
    → ((within_rate ip now rates).0 ≡ ltb (used ip now rates) max_msgs)
      × (used ip now (within_rate ip now rates).1 ≡ (
          if ltb (used ip now rates) max_msgs then suc (used ip now rates) else used ip now rates))
unfolding within_rate
within_rate-own ip now rates small =
    rw (capped_small rates small) (count_in-own ip now rates (find_window ip rates) refl)

within_rate-other :
    (ip x : String) (now : ℕ) (rates : List (String × Window))
    → length rates ≤ map_cap
    → str_eq x ip ≡ false
    → used ip now (within_rate x now rates).1 ≡ used ip now rates
unfolding within_rate
within_rate-other ip x now rates small ne =
    rw (capped_small rates small) (count_in-other ip x now rates (find_window x rates) ne)

abbrev pub least_of : ℕ → ℕ → ℕ
least_of a b = if leb a b then a else b

one_more :
    (stored sent u : ℕ)
    → ltb u max_msgs ≡ true
    → stored ≡ least_of sent (max_msgs - suc u)
    → suc stored ≡ least_of (suc sent) (max_msgs - u)
one_more stored sent u room e = ground (arith, room, e)

no_more :
    (stored sent u : ℕ)
    → ltb u max_msgs ≡ false
    → stored ≡ least_of sent (max_msgs - u)
    → stored ≡ least_of (suc sent) (max_msgs - u)
no_more stored sent u full e = ground (arith, full, e)

-- As long as the map has room, one second stores exactly as many messages of a source as it sends,
-- up to 50 less what the source has used of that second, whatever the other sources send between.
pub stored_in-count :
    (ip : String) (now : ℕ) (ips : List String) (rates : List (String × Window))
    → length rates + length ips ≤ map_cap
    → count_of ip (stored_in now ips rates)
      ≡ least_of (count_of ip ips) (max_msgs - used ip now rates)
unfolding stored_in count_of
stored_in-count ip now [] rates small = ground arith
stored_in-count ip now (x ∷ ips) rates small =
    let next = (within_rate x now rates).1 in
    let fits_still = length-within_rate x now rates (omega (arith, small)) in
    let rest = stored_in-count ip now ips next (omega (arith, small, fits_still)) in
    elim (Bool-cases (str_eq x ip)) [
      | inr theirs ↦
          let same = within_rate-other ip x now rates (omega (arith, small)) theirs in
          elim (Bool-cases (within_rate x now rates).0) [
            | inl fits ↦ rw (fits, theirs) (rw same at rest)
            | inr full ↦ rw (full, theirs) (rw same at rest)
          ]
      | inl mine ↦
          let e : x ≡ ip = (str_eq_iff x ip).0 mine in
          let (fits_iff, then_used) =
            subst
              (λ y.
                ((within_rate x now rates).0 ≡ ltb (used y now rates) max_msgs)
                × (used y now (within_rate x now rates).1 ≡ (
                    if ltb (used y now rates) max_msgs
                    then suc (used y now rates)
                    else used y now rates)))
              e (within_rate-own x now rates (omega (arith, small))) in
          elim (Bool-cases (ltb (used ip now rates) max_msgs)) [
            | inl room ↦
                rw (fits_iff, room, mine) (one_more _ _ _ room (rw (then_used, room) at rest))
            | inr full ↦
                rw (fits_iff, full, mine) (no_more _ _ _ full (rw (then_used, full) at rest))
          ]
    ]
