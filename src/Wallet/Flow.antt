-- ===== src/Wallet/Flow.antt =====
-- Calls of the wallet that may panic, and that model loops on fuel: the result is none when the fuel
-- runs out.
use ord_indexer.Base.{Option, none, some, Outcome, done, panic, Ensures}

abbrev pub Flow : Type 0 → Type 0
Flow A = Outcome (Option A)

infixl 5 ◌>>=◌
abbrev pub ◌>>=◌ : {A B : Type 0} → Flow A → (A → Flow B) → Flow B
done (some a) >>= f = f a
done none >>= f = done none
panic >>= f = panic

abbrev pub return : {A : Type 0} → A → Flow A
return a = done (some a)

-- `unwrap` and `expect`
abbrev pub expect : {A : Type 0} → Option A → Flow A
expect none = panic
expect (some a) = done (some a)

-- Code that takes no fuel.
abbrev pub run : {A : Type 0} → Outcome A → Flow A
run panic = panic
run (done a) = done (some a)

-- `ic_cdk::trap`
abbrev pub trap : {A : Type 0} → Flow A
trap = panic

-- If the call returns within its fuel, the result satisfies the predicate.
abbrev pub WhenSome : {A : Type 0} → (A → Type 0) → Option A → Type 0
WhenSome P none = Unit
WhenSome P (some a) = P a

abbrev pub Gives : {A : Type 0} → Flow A → (A → Type 0) → Type 0
Gives x P = Ensures x (WhenSome P)

module _ {A : Type 0} where
  pub Gives-bind :
      {B : Type 0} (x : Flow A) (f : A → Flow B) (P : A → Type 0) (Q : B → Type 0)
      → Gives x P
      → ((a : A) → P a → Gives (f a) Q)
      → Gives (x >>= f) Q
  Gives-bind (done (some a)) f P Q h k = k a h
  Gives-bind (done none) f P Q h k = tt
  Gives-bind panic f P Q h k = tt

  pub Gives-after :
      {B : Type 0} (x : Flow A) (f : A → Flow B) (Q : B → Type 0)
      → ((a : A) → Gives (f a) Q)
      → Gives (x >>= f) Q
  Gives-after (done (some a)) f Q k = k a
  Gives-after (done none) f Q k = tt
  Gives-after panic f Q k = tt

  pub Gives-run : (x : Outcome A) (P : A → Type 0) → Ensures x P → Gives (run x) P
  Gives-run (done a) P h = h
  Gives-run panic P h = tt

  pub Gives-expect : (o : Option A) (P : A → Type 0) → WhenSome P o → Gives (expect o) P
  Gives-expect (some a) P h = h
  Gives-expect none P h = tt
