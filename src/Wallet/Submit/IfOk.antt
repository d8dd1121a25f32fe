-- ===== src/Wallet/Submit/IfOk.antt =====
-- What a built transaction satisfies, step by step through the builder.
use ord_indexer.Base.{◌≡◌, refl, Option, none, some, Outcome, done, panic, ◌>>=◌, unwrap}
use ord_indexer.Wallet.Txn.{Built, ok, refused}

-- What a builder's transaction satisfies where there is one.
module _ {E A M : Type 0} where
  abbrev pub IfOk : Outcome (Built E A × M) → (A → Type 0) → Type 0
  IfOk panic P = Unit
  IfOk (done (refused e, m)) P = Unit
  IfOk (done (ok a, m)) P = P a

  pub IfOk-bind :
      {B : Type 0} (x : Outcome B) (f : B → Outcome (Built E A × M)) (P : A → Type 0)
      → ((b : B) → x ≡ done b → IfOk (f b) P)
      → IfOk (x >>= f) P
  IfOk-bind (done b) f P k = k b refl
  IfOk-bind panic f P k = tt

  pub IfOk-unwrap :
      {B : Type 0} (o : Option B) (f : B → Outcome (Built E A × M)) (P : A → Type 0)
      → ((b : B) → o ≡ some b → IfOk (f b) P)
      → IfOk (unwrap o >>= f) P
  IfOk-unwrap (some b) f P k = k b refl
  IfOk-unwrap none f P k = tt

  pub IfOk-ok :
      (x : Outcome (Built E A × M)) (P : A → Type 0) (a : A) (m : M)
      → IfOk x P
      → x ≡ done (ok a, m)
      → P a
  IfOk-ok panic P a m h e = cc
  IfOk-ok (done (refused r, n)) P a m h e = cc
  IfOk-ok (done (ok b, n)) P a m h e = rw (the_same b a n m e) h
    where
      the_same :
          (x y : A) (n m : M)
          → ◌≡◌ {A = Outcome (Built E A × M)} (done (ok x, n)) (done (ok y, m))
          → y ≡ x
      the_same x y n m r = cc

module _ {E D N A M : Type 0} where
  pub IfOk-built :
      (x : Outcome (Built E D × N)) (f : Built E D × N → Outcome (Built E A × M)) (Q : D → Type 0)
      (P : A → Type 0)
      → IfOk x Q
      → ((e : E) (n : N) → IfOk (f (refused e, n)) P)
      → ((d : D) (n : N) → Q d → IfOk (f (ok d, n)) P)
      → IfOk (x >>= f) P
  IfOk-built (done (ok d, n)) f Q P h short k = k d n h
  IfOk-built (done (refused e, n)) f Q P h short k = short e n
  IfOk-built panic f Q P h short k = tt
