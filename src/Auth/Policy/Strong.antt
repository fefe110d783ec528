-- ===== src/Auth/Policy/Strong.antt =====
-- The passwords that the policy accepts, and those that have expired.
use switchpilot.Prelude.{
  ℕ, ◌+◌, ◌*◌, ◌≤◌, ◌<◌, ◌≡◌, ◌⊎◌, ◌↔◌, inl, inr, refl, Bool, true, false, not, ◌&&◌, List, [], ◌∷◌,
  ◌++◌, none, some, ltb, Bool-cases, length, arith,
}
use switchpilot.Auth.Policy.{
  SecurityPolicy, Failure, at_least, a_symbol, a_digit, a_lowercase_letter, an_uppercase_letter,
  is_upper, is_lower, is_digit, is_symbol, has, push_if, validate_password, password_expired,
}

-- Some unit of the password passes the test.
pub data Has (test : ℕ → Bool) : List ℕ → Type 0 where
  head : {c : ℕ} {pw : List ℕ} → test c ≡ true → Has test (c ∷ pw)
  tail : {c : ℕ} {pw : List ℕ} → Has test pw → Has test (c ∷ pw)

has-Has : (test : ℕ → Bool) (pw : List ℕ) → has test pw ≡ true → Has test pw
unfolding has
has-Has test [] e = cc
has-Has test (c ∷ pw) e = elim (Bool-cases (test c)) [
  | inl hit ↦ head hit
  | inr miss ↦ tail (has-Has test pw (rw miss at e))
]

Has-has : (test : ℕ → Bool) {pw : List ℕ} → Has test pw → has test pw ≡ true
unfolding has
Has-has test (head e) = rw e refl
Has-has test (tail {c} h) = ground (arith, Has-has test h)

-- What the policy demands is off, or the password has it.
abbrev pub Demands : Bool → (ℕ → Bool) → List ℕ → Type 0
Demands required test pw = (required ≡ false) ⊎ Has test pw

Demands-iff :
    (required : Bool) (test : ℕ → Bool) (pw : List ℕ)
    → (required && not (has test pw) ≡ false) ↔ Demands required test pw
Demands-iff required test pw = (
  meets,
  λ h. elim h [ inl off ↦ rw off refl | inr found ↦ rw (Has-has test found) (ground arith) ],
)
  where
    meets : required && not (has test pw) ≡ false → Demands required test pw
    meets e = elim (Bool-cases required) [
      | inl on ↦ inr (has-Has test pw (ground arith))
      | inr off ↦ inl off
    ]

-- One more push leaves the list empty exactly when its demand is met and it was empty.
push_if_empty :
    {Rest : Type 0} (required : Bool) (test : ℕ → Bool) (pw : List ℕ) (failure : Failure)
    (errors : List Failure)
    → (errors ≡ [] ↔ Rest)
    → (push_if (required && not (has test pw)) failure errors ≡ [])
      ↔ (Demands required test pw × Rest)
push_if_empty {Rest} required test pw failure errors rest = (none_left, λ h. kept h.0 h.1)
  where
    append-not_empty : (es : List Failure) → es ++ (failure ∷ []) ≡ [] → ⊥
    append-not_empty [] e = cc
    append-not_empty (x ∷ es) e = cc

    met : required && not (has test pw) ≡ false → errors ≡ [] → Demands required test pw × Rest
    met e empty = ((Demands-iff required test pw).0 e, rest.0 empty)

    none_left :
        push_if (required && not (has test pw)) failure errors ≡ []
        → Demands required test pw × Rest
    none_left e = elim (Bool-cases (required && not (has test pw))) [
      | inl broken ↦ absurd (append-not_empty errors (rw broken at e))
      | inr fine ↦ met fine (rw fine at e)
    ]

    kept :
        Demands required test pw
        → Rest
        → push_if (required && not (has test pw)) failure errors ≡ []
    kept d r = rw ((Demands-iff required test pw).1 d) (rest.1 r)

long_enough :
    (pw : List ℕ) (least : ℕ)
    → (push_if (ltb (length pw) least) (at_least least) [] ≡ []) ↔ (least ≤ length pw)
long_enough pw least = (λ e. ground (arith, e), λ h. ground (arith, h))

-- The policy accepts exactly the passwords that have a unit of each class that it demands and that
-- are as long as it demands.
pub validate_password-accepts :
    (pw : List ℕ) (policy : SecurityPolicy)
    → (validate_password pw policy ≡ []) ↔ (
        Demands policy.password_require_symbol is_symbol pw
        × Demands policy.password_require_digit is_digit pw
        × Demands policy.password_require_lower is_lower pw
        × Demands policy.password_require_upper is_upper pw
        × (policy.password_min_length ≤ length pw))
unfolding validate_password
validate_password-accepts pw policy =
    let all_pushed = push_if_empty policy.password_require_symbol is_symbol pw a_symbol _ (
      push_if_empty policy.password_require_digit is_digit pw a_digit _ (
        push_if_empty policy.password_require_lower is_lower pw a_lowercase_letter _ (
          push_if_empty policy.password_require_upper is_upper pw an_uppercase_letter _
            (long_enough pw policy.password_min_length)))) in
    (λ e. nested (all_pushed.0 e), λ h. all_pushed.1 (h.0, (h.1, (h.2, (h.3, h.4)))))
  where
    nested : {A B C D E : Type 0} → A × (B × (C × (D × E))) → A × B × C × D × E
    nested h = (h.0, h.1.0, h.1.1.0, h.1.1.1.0, h.1.1.1.1)

-- A password has expired exactly when the policy has a maximum age and the password was last
-- changed longer ago than that; a password whose change has no time never expires.
pub password_expired_iff :
    (now changed : ℕ) (policy : SecurityPolicy)
    → ((password_expired now (some changed) policy ≡ true) ↔ (
        (0 < policy.password_max_age_days)
        × (changed + 86400000 * policy.password_max_age_days < now)))
      × (password_expired now none policy ≡ false)
unfolding password_expired
password_expired_iff now changed policy = ((λ e. ground arith, λ h. ground (arith, h)), refl)
