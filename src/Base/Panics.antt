-- ===== src/Base/Panics.antt =====
-- The outcome of code that can panic. On the Internet Computer a panic traps the message.
use mathlib.Core.Path.{◌≡◌, refl}
use mathlib.Core.Bool.{Bool, true, false}
use mathlib.Core.Option.{Option, none, some}

pub data Outcome {ℓ} (A : Type ℓ) : Type ℓ where
  done : A → Outcome A
  panic : Outcome A

infixl 5 ◌>>=◌ ◌>>◌
abbrev pub ◌>>=◌ {ℓ κ} : {A : Type ℓ} {B : Type κ} → Outcome A → (A → Outcome B) → Outcome B
done a >>= f = f a
panic >>= f = panic

abbrev pub ◌>>◌ {ℓ} : {B : Type ℓ} → Outcome (Unit {0}) → Outcome B → Outcome B
m >> k = m >>= λ _. k

-- `assert!`
abbrev pub assert : Bool → Outcome (Unit {0})
assert true = done tt
assert false = panic

-- `Option::unwrap` and `Option::expect`
abbrev pub unwrap {ℓ} : {A : Type ℓ} → Option A → Outcome A
unwrap none = panic
unwrap (some a) = done a

-- The code does not panic, and its result satisfies the predicate.
abbrev pub Returns {ℓ} : {A : Type ℓ} → Outcome A → (A → Type 0) → Type 0
Returns (done a) P = P a
Returns panic P = ⊥

-- If the code does not panic, its result satisfies the predicate.
abbrev pub Ensures {ℓ} : {A : Type ℓ} → Outcome A → (A → Type 0) → Type 0
Ensures (done a) P = P a
Ensures panic P = Unit

module _ {ℓ} {A : Type ℓ} where
  pub Ensures-bind {κ} :
      {B : Type κ} (m : Outcome A) (f : A → Outcome B) (P : A → Type 0) (Q : B → Type 0)
      → Ensures m P
      → ((a : A) → P a → Ensures (f a) Q)
      → Ensures (m >>= f) Q
  Ensures-bind (done a) f P Q h k = k a h
  Ensures-bind panic f P Q h k = tt

  pub Ensures-mono :
      (m : Outcome A) (P Q : A → Type 0) → Ensures m P → ((a : A) → P a → Q a) → Ensures m Q
  Ensures-mono (done a) P Q h k = k a h
  Ensures-mono panic P Q h k = tt

  pub Ensures-any : (m : Outcome A) (P : A → Type 0) → ((a : A) → P a) → Ensures m P
  Ensures-any (done a) P k = k a
  Ensures-any panic P k = tt

  -- The predicate may hold whatever was returned.
  pub Ensures-after {κ} :
      {B : Type κ} (m : Outcome A) (f : A → Outcome B) (Q : B → Type 0)
      → ((a : A) → Ensures (f a) Q)
      → Ensures (m >>= f) Q
  Ensures-after (done a) f Q k = k a
  Ensures-after panic f Q k = tt

  -- What follows may use what was returned.
  pub Ensures-run {κ} :
      {B : Type κ} (m : Outcome A) (f : A → Outcome B) (Q : B → Type 0)
      → ((a : A) → m ≡ done a → Ensures (f a) Q)
      → Ensures (m >>= f) Q
  Ensures-run (done a) f Q k = k a refl
  Ensures-run panic f Q k = tt

  pub Ensures-done : (m : Outcome A) (P : A → Type 0) (a : A) → Ensures m P → m ≡ done a → P a
  Ensures-done (done b) P a h e = rw (← the_done b a e) h
    where
      the_done : (x y : A) → done x ≡ done y → x ≡ y
      the_done x y p = cc
  Ensures-done panic P a h e = cc

module _ {ℓ} {A : Type ℓ} where
  pub Returns-bind {κ} :
      {B : Type κ} (m : Outcome A) (f : A → Outcome B) (P : A → Type 0) (Q : B → Type 0)
      → Returns m P
      → ((a : A) → P a → Returns (f a) Q)
      → Returns (m >>= f) Q
  Returns-bind (done a) f P Q h k = k a h
  Returns-bind panic f P Q h k = absurd h

  pub Returns-mono :
      (m : Outcome A) (P Q : A → Type 0) → Returns m P → ((a : A) → P a → Q a) → Returns m Q
  Returns-mono (done a) P Q h k = k a h
  Returns-mono panic P Q h k = absurd h

  -- The result that a call returns, with its equation.
  pub Returns-result : (m : Outcome A) (P : A → Type 0) → Returns m P → (a : A) × (m ≡ done a) × P a
  Returns-result (done a) P h = (a, refl, h)
  Returns-result panic P h = absurd h

  pub Returns-unwrap :
      (o : Option A) (a : A) (P : A → Type 0) → o ≡ some a → P a → Returns (unwrap o) P
  Returns-unwrap none a P e h = cc
  Returns-unwrap (some b) a P e h = rw (the_same b a e) h
    where
      the_same : (x y : A) → some x ≡ some y → x ≡ y
      the_same x y p = cc

module _ {A : Type 0} where
  -- A predicate of a result may use that it is the result.
  pub Returns-eq :
      (m : Outcome A) (P : A → Type 0) → Returns m P → Returns m (λ a. P a × (m ≡ done a))
  Returns-eq (done a) P h = (h, refl)
  Returns-eq panic P h = h

  pub Returns-and :
      (m : Outcome A) (P Q : A → Type 0) → Returns m P → Returns m Q → Returns m (λ a. P a × Q a)
  Returns-and (done a) P Q h k = (h, k)
  Returns-and panic P Q h k = h
