-- ===== src/Alerts/Overlap.antt =====
-- No device has two open alerts of one kind, as long as no two calls for it are between their SELECT
-- and their INSERT at once.
use switchpilot.Prelude.{
  ℕ, zero, suc, subst, ◌≡◌, inl, inr, refl, sym, ◌∙◌, String, Bool, false, ◌&&◌, ◌||◌, List, [],
  ◌∷◌, Option, none, some, get_elem?, All, All-mono, Bool-cases, arith, str_eq, str_eq_iff,
}
use switchpilot.Util.Workers.{remove_at}
use switchpilot.Alerts.{
  Alert, same_device, has_open, suppressed, email_key, resolve_alert, raise_alert, Alerts, Window,
}
use switchpilot.Alerts.Open.{Single, email_alerts, resolve_rows-Single, has_open-resolve_rows}
use switchpilot.Alerts.Steps.{
  Raise, Flight, Step, begins, selects, inserts, resolves, select_found, insert_found, step, steps,
  is_same,
}

All-get {ℓ κ} :
    {A : Type ℓ} (P : A → Type κ) (i : ℕ) (xs : List A) {x : A}
    → All P xs
    → get_elem? xs i ≡ some x
    → P x
All-get P i [] h e = absurd (cc)
All-get P zero (y ∷ xs) h e = let same : y ≡ _ = cc in subst P same h.0
All-get P (suc i) (y ∷ xs) h e = All-get P i xs h.1 e

All-remove_at {ℓ κ} :
    {A : Type ℓ} (P : A → Type κ) (i : ℕ) (xs : List A) → All P xs → All P (remove_at i xs)
unfolding remove_at
All-remove_at P i [] h = tt
All-remove_at P zero (x ∷ xs) h = h.1
All-remove_at P (suc i) (x ∷ xs) h = (h.0, All-remove_at P i xs h.1)

str_eq_comm : (s t : String) → str_eq s t ≡ str_eq t s
str_eq_comm s t = elim (Bool-cases (str_eq s t)) [
  | inl same ↦ let e = (str_eq_iff s t).0 same in rw (same, (str_eq_iff t s).1 (sym e)) refl
  | inr apart ↦ elim (Bool-cases (str_eq t s)) [
    | inl same ↦ absurd (let e = (str_eq_iff s t).1 (sym ((str_eq_iff t s).0 same)) in cc)
    | inr also ↦ rw (apart, also) refl
  ]
]

same_device_comm : (a b : Option String) → same_device a b ≡ same_device b a
same_device_comm none none = refl
same_device_comm none (some b) = refl
same_device_comm (some a) none = refl
same_device_comm (some a) (some b) = str_eq_comm a b

is_same_comm : (c d : Raise) → is_same c d ≡ is_same d c
is_same_comm c d = rw (same_device_comm c.device d.device, str_eq_comm c.kind d.kind) refl

-- A call apart from every one of a list.
abbrev pub IsApart : Raise → List Raise → Type 0
IsApart c calls = All (λ d. is_same c d ≡ false) calls

abbrev AllApart : List Raise → Type 0
AllApart [] = Unit {0}
AllApart (c ∷ calls) = IsApart c calls × AllApart calls

-- One taken out of a list of calls that are apart is apart from what is left.
take_out :
    (i : ℕ) (calls : List Raise) {c : Raise}
    → AllApart calls
    → get_elem? calls i ≡ some c
    → IsApart c (remove_at i calls) × AllApart (remove_at i calls)
unfolding remove_at
take_out i [] h e = absurd (cc)
take_out zero (d ∷ calls) {c} h e =
    let same : d ≡ c = cc in (subst (λ (x : Raise). IsApart x calls) same h.0, h.1)
take_out (suc i) (d ∷ calls) {c} (first, rest) e =
    let (apart, left) = take_out i calls rest e in
    (
      (is_same_comm c d ∙ All-get (λ x. is_same d x ≡ false) i calls first e, apart),
      (All-remove_at (λ x. is_same d x ≡ false) i calls first, left),
    )

-- The calls whose SELECT found nothing still find nothing.
abbrev AllFresh : List Alert → List Raise → Type 0
AllFresh alerts calls = All (λ c. has_open c.device c.kind alerts ≡ false) calls

record Inv (f : Flight) : Type 0 where
  single : Single f.alerts.alerts
  fresh : AllFresh f.alerts.alerts f.missing
  apart : AllApart f.missing

apart_shut : (a b u r : Bool) → (a && b) ≡ false → r ≡ false → (a && (b && u) || r) ≡ false
apart_shut a b u r e f = ground (arith, e, f)

-- An alert for another device or kind leaves a call as fresh as it was.
opened-AllFresh :
    (a : Alert) (c : Raise) (alerts : List Alert) (calls : List Raise)
    → a.device ≡ c.device
    → a.kind ≡ c.kind
    → IsApart c calls
    → AllFresh alerts calls
    → AllFresh (a ∷ alerts) calls
unfolding has_open
opened-AllFresh a c alerts [] e f h new = tt
opened-AllFresh a c alerts (d ∷ calls) e f (other, others) (new, news) = (
  rw (e, f) (apart_shut (same_device c.device d.device) (str_eq c.kind d.kind) _ _ other new),
  opened-AllFresh a c alerts calls e f others news,
)

insert-Inv :
    (i now : ℕ) (found : Option Raise) (f : Flight)
    → get_elem? f.missing i ≡ found
    → Inv f
    → Inv (insert_found i now found f)
insert-Inv i now none f e inv = inv
insert-Inv i now (some c) f e inv =
    let (others, left) = take_out i f.missing inv.apart e in
    let still = All-remove_at _ i f.missing inv.fresh in
    let new =
      All-get (λ x. has_open x.device x.kind f.alerts.alerts ≡ false) i f.missing inv.fresh e in
    let row : Alert = record {
      device = c.device;
      severity = c.severity;
      kind = c.kind;
      message = c.message;
      resolved_at = none;
    } in
    let written =
      email_alerts now (email_key c.device c.kind) c.severity
        (record (f.alerts) { alerts = row ∷ f.alerts.alerts }) in
    record {
      single = rw written (inr new, inv.single);
      fresh =
          rw written
            (opened-AllFresh row c f.alerts.alerts (remove_at i f.missing) refl refl others still);
      apart = left;
    }

-- A SELECT comes when no call for the same device and kind is between its SELECT and its INSERT.
abbrev IsAloneCall : Option Raise → List Raise → Type 0
IsAloneCall none calls = Unit
IsAloneCall (some c) calls = IsApart c calls

abbrev pub IsAlone : Step → Flight → Type 0
IsAlone (begins windows now c) f = Unit
IsAlone (selects i) f = IsAloneCall (get_elem? f.outside i) f.missing
IsAlone (inserts i now) f = Unit
IsAlone (resolves now id kind) f = Unit

abbrev pub AreAlone : List Step → Flight → Type 0
AreAlone [] f = Unit
AreAlone (e ∷ es) f = IsAlone e f × AreAlone es (step e f)

select-Inv :
    (i : ℕ) (found : Option Raise) (f : Flight)
    → IsAloneCall found f.missing
    → Inv f
    → Inv (select_found i found f)
select-Inv i none f alone inv = inv
select-Inv i (some c) f alone inv = elim (Bool-cases (has_open c.device c.kind f.alerts.alerts)) [
  | inl known ↦ rw known (record { single = inv.single; fresh = inv.fresh; apart = inv.apart })
  | inr new ↦
      rw new (record { single = inv.single; fresh = (new, inv.fresh); apart = (alone, inv.apart) })
]

step-Inv : (e : Step) (f : Flight) → IsAlone e f → Inv f → Inv (step e f)
unfolding step resolve_alert
step-Inv (begins windows now c) f alone inv = elim (Bool-cases (suppressed windows now c.device)) [
  | inl quiet ↦ rw quiet inv
  | inr loud ↦ rw loud (record { single = inv.single; fresh = inv.fresh; apart = inv.apart })
]
step-Inv (selects i) f alone inv = select-Inv i (get_elem? f.outside i) f alone inv
step-Inv (inserts i now) f alone inv = insert-Inv i now (get_elem? f.missing i) f refl inv
step-Inv (resolves now id kind) f alone inv = record {
  single = resolve_rows-Single now id kind f.alerts.alerts inv.single;
  fresh =
      All-mono _ _ (λ c new. has_open-resolve_rows now id kind c.kind c.device f.alerts.alerts new)
        f.missing inv.fresh;
  apart = inv.apart;
}

steps-Inv : (es : List Step) (f : Flight) → AreAlone es f → Inv f → Inv (steps es f)
unfolding steps
steps-Inv [] f alone inv = inv
steps-Inv (e ∷ es) f (first, rest) inv = steps-Inv es (step e f) rest (step-Inv e f first inv)

-- A table in which no device has two open alerts of one kind stays so, whatever is raised and
-- resolved from then on, in any order and with the statements of the calls between one another, as
-- long as no SELECT of a call comes while another call for the same device and kind is between its
-- SELECT and its INSERT.
pub steps-Single :
    (es : List Step) (alerts : Alerts)
    → Single alerts.alerts
    → AreAlone es (record { alerts = alerts; outside = []; missing = [] })
    → Single (steps es (record { alerts = alerts; outside = []; missing = [] })).alerts.alerts
steps-Single es alerts single alone =
    (steps-Inv es (record { alerts = alerts; outside = []; missing = [] }) alone
      (record { single = single; fresh = tt; apart = tt })).single

-- A call whose three steps come one after the other is `raise_alert`.
steps-raise_alert :
    (windows : List Window) (now : ℕ) (c : Raise) (alerts : Alerts)
    → steps
        (begins windows now c ∷ selects 0 ∷ inserts 0 now ∷ [])
        (record { alerts = alerts; outside = []; missing = [] })
      ≡ record {
        alerts = raise_alert windows now c.device c.kind c.severity c.message alerts;
        outside = [];
        missing = [];
      }
unfolding steps step raise_alert remove_at
steps-raise_alert windows now c alerts = elim (Bool-cases (suppressed windows now c.device)) [
  | inl quiet ↦ rw quiet refl
  | inr loud ↦ elim (Bool-cases (has_open c.device c.kind alerts.alerts)) [
    | inl known ↦ rw (loud, known) refl
    | inr new ↦ rw (loud, new) refl
  ]
]
