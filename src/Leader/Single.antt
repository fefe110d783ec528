-- ===== src/Leader/Single.antt =====
-- At most one replica leads with a session that lives.
use switchpilot.Prelude.{
  ℕ, suc, ◌<◌, ◌≡◌, inl, inr, refl, sym, ap, ◌∙◌, Bool, true, false, ◌&&◌, List, [], ◌∷◌, Option,
  none, some, ◌==◌, ==_iff, Bool-cases, arith,
}
use switchpilot.Leader.{
  Cluster, at_start, set_replica, end_session, end_client, forget_client, drop_client, connect,
  is_free, try_lock, contend, ensure_with, ensure_leadership, Event, tick, client_error,
  session_lost, event, events,
}

-- A leader whose session lives holds the lock by it; no session is that of two replicas, or of the
-- future; and a leader has a client.
record Inv (c : Cluster) : Type 0 where
  holds :
      (r s : ℕ)
      → (c.replicas r).client ≡ some s
      → (c.replicas r).leader ≡ true
      → c.alive s ≡ true
      → c.holder ≡ some s
  own : (r q s : ℕ) → (c.replicas r).client ≡ some s → (c.replicas q).client ≡ some s → r ≡ q
  past : (r s : ℕ) → (c.replicas r).client ≡ some s → s < c.next
  led : (r : ℕ) → (c.replicas r).leader ≡ true → (c.replicas r).client ≡ none → ⊥

end_session-Inv : (s : ℕ) (c : Cluster) → Inv c → Inv (end_session s c)
unfolding end_session
end_session-Inv s c inv = record {
  holds = λ r t e l a. elim (Bool-cases (t == s)) [
    | inl same ↦ absurd (ground (arith, rw same at a))
    | inr other ↦ let held = inv.holds r t e l (rw other at a) in rw (held, other) refl
  ];
  own = inv.own;
  past = inv.past;
  led = inv.led;
}

forget_client-Inv : (r : ℕ) (c : Cluster) → Inv c → Inv (forget_client r c)
unfolding forget_client
forget_client-Inv r c inv = record {
  holds = λ q t e l a. elim (Bool-cases (q == r)) [
    | inl same ↦ absurd (ground (arith, rw same at l))
    | inr other ↦ inv.holds q t (rw other at e) (rw other at l) a
  ];
  own = λ q p t e f. elim (Bool-cases (q == r)) [
    | inl same ↦ absurd (none_some t (rw same at e))
    | inr other ↦ elim (Bool-cases (p == r)) [
      | inl same ↦ absurd (none_some t (rw same at f))
      | inr another ↦ inv.own q p t (rw other at e) (rw another at f)
    ]
  ];
  past = λ q t e. elim (Bool-cases (q == r)) [
    | inl same ↦ absurd (none_some t (rw same at e))
    | inr other ↦ inv.past q t (rw other at e)
  ];
  led = λ q l e. elim (Bool-cases (q == r)) [
    | inl same ↦ ground (arith, rw same at l)
    | inr other ↦ inv.led q (rw other at l) (rw other at e)
  ];
}
  where
    none_some : (t : ℕ) → none ≡ some t → ⊥
    none_some t e = cc

drop_client-Inv : (r : ℕ) (c : Cluster) → Inv c → Inv (drop_client r c)
unfolding drop_client
drop_client-Inv r c inv =
    forget_client-Inv r (end_client (c.replicas r).client c) (ended (c.replicas r).client)
  where
    ended : (client : Option ℕ) → Inv (end_client client c)
    ended none = inv
    ended (some s) = end_session-Inv s c inv

connect-Inv : (r : ℕ) (c : Cluster) → (c.replicas r).client ≡ none → Inv c → Inv (connect r c)
unfolding connect
connect-Inv r c free inv = record {
  holds = λ q t e l a. elim (Bool-cases (q == r)) [
    | inl same ↦ absurd (inv.led r (rw same at l) free)
    | inr other ↦
        let f = rw other at e in
        inv.holds q t f (rw other at l) (rw (earlier t (inv.past q t f)) at a)
  ];
  own = λ q p t e f. elim (Bool-cases (q == r)) [
    | inl same ↦ elim (Bool-cases (p == r)) [
      | inl also ↦ (==_iff q r).0 same ∙ sym ((==_iff p r).0 also)
      | inr other ↦ absurd (not_new t (rw same at e) (inv.past p t (rw other at f)))
    ]
    | inr other ↦ elim (Bool-cases (p == r)) [
      | inl same ↦ absurd (not_new t (rw same at f) (inv.past q t (rw other at e)))
      | inr another ↦ inv.own q p t (rw other at e) (rw another at f)
    ]
  ];
  past = λ q t e. elim (Bool-cases (q == r)) [
    | inl same ↦ newest t (rw same at e)
    | inr other ↦ let old = inv.past q t (rw other at e) in omega (arith, old)
  ];
  led = λ q l e. elim (Bool-cases (q == r)) [
    | inl same ↦ some_none (rw same at e)
    | inr other ↦ inv.led q (rw other at l) (rw other at e)
  ];
}
  where
    earlier : (t : ℕ) → t < c.next → (t == c.next) ≡ false
    earlier t h = ground arith

    not_new : (t : ℕ) → some c.next ≡ some t → t < c.next → ⊥
    not_new t e h = ground arith

    newest : (t : ℕ) → some c.next ≡ some t → t < suc c.next
    newest t e = ground arith

    some_none : some c.next ≡ none → ⊥
    some_none e = cc

try_lock-Inv :
    (r s : ℕ) (c : Cluster) → (c.replicas r).client ≡ some s → Inv c → Inv (try_lock r s c)
unfolding try_lock
try_lock-Inv r s c mine inv = elim (Bool-cases (is_free c.holder s)) [
  | inl free ↦ rw free (record {
    holds = λ q t e l a. elim (Bool-cases (q == r)) [
      | inl same ↦ rw same at e
      | inr other ↦
          let f = rw other at e in
          let held = inv.holds q t f (rw other at l) a in
          ap some (sym ((==_iff t s).0 (rw held at free)))
    ];
    own = λ q p t e f. inv.own q p t (kept q t e) (kept p t f);
    past = λ q t e. inv.past q t (kept q t e);
    led = λ q l e. elim (Bool-cases (q == r)) [
      | inl same ↦ some_none (rw same at e)
      | inr other ↦ inv.led q (rw other at l) (rw other at e)
    ];
  })
  | inr taken ↦ rw taken inv
]
  where
    some_none : some s ≡ none → ⊥
    some_none e = cc

    kept :
        (q t : ℕ)
        → (set_replica r (record { leader = true; client = some s }) c.replicas q).client ≡ some t
        → (c.replicas q).client ≡ some t
    kept q t e = elim (Bool-cases (q == r)) [
      | inl same ↦ rw ((==_iff q r).0 same) (mine ∙ (rw same at e))
      | inr other ↦ rw other at e
    ]

contend-Inv :
    (r s : ℕ) (works : Bool) (c : Cluster)
    → (c.replicas r).client ≡ some s
    → Inv c
    → Inv (contend r works s c)
contend-Inv r s works c mine inv = elim (Bool-cases (c.replicas r).leader) [
  | inl leads ↦ rw leads inv
  | inr follows ↦ elim (Bool-cases (works && c.alive s)) [
    | inl lives ↦ rw (follows, lives) (try_lock-Inv r s c mine inv)
    | inr broken ↦ rw (follows, broken) (drop_client-Inv r c inv)
  ]
]

ensure_leadership-Inv :
    (r : ℕ) (connects works : Bool) (c : Cluster)
    → Inv c
    → Inv (ensure_leadership r connects works c)
unfolding ensure_leadership
ensure_leadership-Inv r connects works c inv = by_client (c.replicas r).client refl
  where
    joined : (connect r c).replicas r ≡ record (c.replicas r) { client = some c.next }
    joined = let self : r == r ≡ true = ground arith in unfold connect in rw self refl

    by_client :
        (client : Option ℕ)
        → (c.replicas r).client ≡ client
        → Inv (ensure_with r connects works client c)
    by_client (some s) e = contend-Inv r s works c e inv
    by_client none e = elim (Bool-cases connects) [
      | inl opened ↦ rw opened (
          contend-Inv r c.next works (connect r c) (ap (λ v. v.client) joined)
            (connect-Inv r c e inv))
      | inr refused ↦ rw refused (drop_client-Inv r c inv)
    ]

event-Inv : (e : Event) (c : Cluster) → Inv c → Inv (event e c)
event-Inv (tick r connects works) c inv = ensure_leadership-Inv r connects works c inv
event-Inv (client_error r) c inv = forget_client-Inv r c inv
event-Inv (session_lost s) c inv = end_session-Inv s c inv

events-Inv : (es : List Event) (c : Cluster) → Inv c → Inv (events es c)
unfolding events
events-Inv [] c inv = inv
events-Inv (e ∷ es) c inv = events-Inv es (event e c) (event-Inv e c inv)

start-Inv : Inv at_start
start-Inv = record {
  holds = λ r s e l a. cc;
  own = λ r q s e f. cc;
  past = λ r s e. cc;
  led = λ r l e. cc;
}

-- Whatever the replicas do and whichever connections fail, two replicas that lead, each with a
-- session that the server has not ended, are one replica.
pub events-single :
    (es : List Event) (r q s t : ℕ)
    → ((events es at_start).replicas r).leader ≡ true
    → ((events es at_start).replicas q).leader ≡ true
    → ((events es at_start).replicas r).client ≡ some s
    → ((events es at_start).replicas q).client ≡ some t
    → (events es at_start).alive s ≡ true
    → (events es at_start).alive t ≡ true
    → r ≡ q
events-single es r q s t l m e f a b =
    let inv = events-Inv es at_start start-Inv in
    let held = inv.holds r s e l a in
    let also = inv.holds q t f m b in let same : s ≡ t = cc in inv.own r q t (e ∙ ap some same) f
