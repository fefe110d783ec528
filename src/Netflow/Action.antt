-- ===== src/Netflow/Action.antt =====
-- Code that mutates a shared object and may throw. What was written before a throw stays written,
-- so the state comes back on every path.
use switchpilot.Prelude.{◌≡◌, refl, Bool, true, false, Option, none, some, is_some, if◌then◌else◌}

-- `spent` is no outcome of the source: a loop of the model ran out of fuel.
pub data Run {ℓ} (A : Type ℓ) : Type ℓ where
  done : A → Run A
  thrown : Run A
  spent : Run A

abbrev pub Action {ℓ} : Type ℓ → Type ℓ → Type ℓ
Action S A = S → Run A × S

module _ {ℓ} {S A : Type ℓ} where
  abbrev pub pure : A → Action S A
  pure a s = (done a, s)

  -- A read that throws when it is out of range.
  abbrev pub lift : Option A → Action S A
  lift none s = (thrown, s)
  lift (some a) s = (done a, s)

  abbrev pub out_of_fuel : Action S A
  out_of_fuel s = (spent, s)

module _ {ℓ} {S A B : Type ℓ} where
  abbrev pub continue : Run A → (A → Action S B) → Action S B
  continue (done a) f s = f a s
  continue thrown f s = (thrown, s)
  continue spent f s = (spent, s)

  infixl 10 ◌>>=◌ ◌>>◌
  unfoldable pub ◌>>=◌ : Action S A → (A → Action S B) → Action S B
  ◌>>=◌ m f s = let (r, s') = m s in continue r f s'

  abbrev pub ◌>>◌ : Action S A → Action S B → Action S B
  m >> n = m >>= λ _. n

-- What a run ends in: a result with `Q`, in a state with `I`; not a throw, and not without fuel.
abbrev pub Ends {ℓ} : {S A : Type ℓ} (I : S → Type 0) (Q : A → Type 0) → Run A × S → Type 0
Ends I Q (done a, s) = Q a × I s
Ends I Q (thrown, s) = ⊥
Ends I Q (spent, s) = ⊥

-- From any state with `I` the action returns, with `Q` of its result and `I` of the state.
pub record Returns {ℓ} {S A : Type ℓ} (I : S → Type 0) (Q : A → Type 0) (m : Action S A)
    : Type ℓ where
  pub at : (s : S) → I s → Ends I Q (m s)

module _ {ℓ} {S A : Type ℓ} {I : S → Type 0} {Q : A → Type 0} where
  pub Returns-pure : (a : A) → Q a → Returns I Q (pure a)
  Returns-pure a q = record { at = λ s i. (q, i) }

  -- A read in range; its result may be used by that equation.
  pub Returns-read :
      (o : Option A) → is_some o ≡ true → ((a : A) → o ≡ some a → Q a) → Returns I Q (lift o)
  Returns-read none e q = cc
  Returns-read (some a) e q = record { at = λ s i. (q a refl, i) }

  pub Returns-if :
      (b : Bool) (m n : Action S A)
      → (b ≡ true → Returns I Q m)
      → (b ≡ false → Returns I Q n)
      → Returns I Q (if b then m else n)
  Returns-if true m n p q = p refl
  Returns-if false m n p q = q refl

module _ {ℓ} {S A : Type ℓ} (I : S → Type 0) (P : A → Type 0) {Q : A → Type 0} where
  Ends-mono : (r : Run A) (s : S) → ((a : A) → P a → Q a) → Ends I P (r, s) → Ends I Q (r, s)
  Ends-mono (done a) s f (p, i) = (f a p, i)
  Ends-mono thrown s f h = h
  Ends-mono spent s f h = h

module _ {ℓ} {S A : Type ℓ} {I : S → Type 0} (P : A → Type 0) {Q : A → Type 0} where
  pub Returns-mono : (m : Action S A) → ((a : A) → P a → Q a) → Returns I P m → Returns I Q m
  Returns-mono m f h = record { at = λ s i. let (r, s') = m s in Ends-mono I P r s' f (h.at s i) }

module _ {ℓ} {S A B : Type ℓ} {I : S → Type 0} (P : A → Type 0) {Q : B → Type 0} where
  Ends-continue :
      (f : A → Action S B)
      → ((a : A) → P a → Returns I Q (f a))
      → (r : Run A) (s : S) → Ends I P (r, s)
      → Ends I Q (continue r f s)
  Ends-continue f k (done a) s (p, i) = (k a p).at s i
  Ends-continue f k thrown s h = h
  Ends-continue f k spent s h = h

  pub Returns-bind :
      (m : Action S A) (f : A → Action S B)
      → Returns I P m
      → ((a : A) → P a → Returns I Q (f a))
      → Returns I Q (m >>= f)
  unfolding ◌>>=◌
  Returns-bind m f h k = record {
    at = λ s i. let (r, s') = m s in Ends-continue f k r s' (h.at s i);
  }
