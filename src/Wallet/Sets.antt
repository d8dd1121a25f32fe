-- ===== src/Wallet/Sets.antt =====
-- Hash sets as lists without repetition, with the operations of `HashSet` that the wallet uses, and
-- how often an element occurs. The sets of the source iterate in an unspecified order; here that is
-- the order of insertion.
use ord_indexer.Base.{
  ℕ, ◌+◌, ◌≤◌, ◌≡◌, refl, ap, Bool, true, false, Option, none, some, List, [], ◌∷◌, ◌++◌, ite,
  arith, leb, if◌then◌else◌, length, All, ◌⊎◌, Option-cases, Bool-cases, inl, inr,
}

module _ {A : Type 0} (dec : Discrete A) where
  -- `HashSet::contains`
  unfoldable pub contains : A → List A → Bool
  contains x [] = false
  contains x (y ∷ l) = ite (dec x y) true (contains x l)

  -- `HashSet::insert`
  unfoldable pub insert : A → List A → List A
  insert x [] = x ∷ []
  insert x (y ∷ l) = ite (dec x y) (y ∷ l) (y ∷ insert x l)

  -- `HashSet::remove`
  unfoldable pub remove : A → List A → List A
  remove x [] = []
  remove x (y ∷ l) = ite (dec x y) l (y ∷ remove x l)

  -- `for x in xs { if set.contains(&x) { continue; } set.insert(x); }`
  unfoldable pub insert_all : List A → List A → List A
  unfolding contains insert
  insert_all [] set = set
  insert_all (x ∷ xs) set = insert_all xs (if contains x set then set else insert x set)

  -- How often an element occurs.
  unfoldable pub count : A → List A → ℕ
  count a [] = 0
  count a (x ∷ l) = ite (dec a x) 1 0 + count a l

  -- A set holds nothing twice.
  abbrev pub IsOnce : List A → Type 0
  IsOnce l = (a : A) → count a l ≤ 1

module _ {A : Type 0} where
  -- The sum of a list by a measure.
  unfoldable pub sum_by : (A → ℕ) → List A → ℕ
  sum_by f [] = 0
  sum_by f (x ∷ l) = f x + sum_by f l

  -- `iter().min_by_key(f)`: the first of the elements with the least key.
  unfoldable pub min_by_key : (A → ℕ) → List A → Option A
  min_by_key f [] = none
  min_by_key f (x ∷ l) = elim (min_by_key f l) [
    | none ↦ some x
    | some y ↦ if leb (f x) (f y) then some x else some y
  ]

module _ {A : Type 0} (dec : Discrete A) where
  pub contains-count : (x : A) (l : List A) → contains dec x l ≡ false → count dec x l ≡ 0
  unfolding contains count
  contains-count x [] h = refl
  contains-count x (y ∷ l) h = ground (arith, contains-count x l)

  pub contains_found : (x : A) (l : List A) → contains dec x l ≡ true → 1 ≤ count dec x l
  unfolding contains count
  contains_found x [] h = ground arith
  contains_found x (y ∷ l) h = ground (arith, contains_found x l)

  pub count-insert_new :
      (a x : A) (l : List A)
      → contains dec x l ≡ false
      → count dec a (insert dec x l) ≡ count dec a l + ite (dec a x) 1 0
  unfolding count insert contains
  count-insert_new a x [] h = omega arith
  count-insert_new a x (y ∷ l) h = ground (arith, count-insert_new a x l)

  pub sum_by-insert_new :
      (f : A → ℕ) (x : A) (l : List A)
      → contains dec x l ≡ false
      → sum_by f (insert dec x l) ≡ sum_by f l + f x
  unfolding sum_by insert contains
  sum_by-insert_new f x [] h = omega arith
  sum_by-insert_new f x (y ∷ l) h = ground (arith, sum_by-insert_new f x l)

  pub count-remove :
      (a x : A) (l : List A)
      → 1 ≤ count dec x l
      → count dec a (remove dec x l) + ite (dec a x) 1 0 ≡ count dec a l
  unfolding count remove
  count-remove a x [] h = absurd (omega arith)
  count-remove a x (y ∷ l) h = ground (arith, count-remove a x l)

  pub sum_by-remove :
      (f : A → ℕ) (x : A) (l : List A)
      → 1 ≤ count dec x l
      → sum_by f (remove dec x l) + f x ≡ sum_by f l
  unfolding sum_by count remove
  sum_by-remove f x [] h = absurd (omega arith)
  sum_by-remove f x (y ∷ l) h = ground (arith, sum_by-remove f x l)

  pub length-remove :
      (x : A) (l : List A) → 1 ≤ count dec x l → length (remove dec x l) + 1 ≡ length l
  unfolding count remove
  length-remove x [] h = absurd (omega arith)
  length-remove x (y ∷ l) h = ground (arith, length-remove x l)

  pub All-remove : (P : A → Type 0) (x : A) (l : List A) → All P l → All P (remove dec x l)
  unfolding remove
  All-remove P x [] h = h
  All-remove P x (y ∷ l) h = ground (arith, All-remove P x l h.1)

  pub min_by_key_found :
      (f : A → ℕ) (l : List A) (x : A) → min_by_key f l ≡ some x → 1 ≤ count dec x l
  unfolding min_by_key count
  min_by_key_found f [] x h = cc
  min_by_key_found f (y ∷ l) x h = elim (Option-cases (min_by_key f l)) [
    | inl nothing ↦ ground arith
    | inr (z, e) ↦ ground (arith, min_by_key_found f l z e)
  ]

  count-nil : (a : A) → count dec a [] ≡ 0
  unfolding count
  count-nil a = refl

  absent : (x : A) (l : List A) → count dec x l ≡ 0 → contains dec x l ≡ false
  absent x l h = elim (Bool-cases (contains dec x l)) [
    | inl found ↦ absurd (omega (arith, contains_found x l found))
    | inr missing ↦ missing
  ]

  count-head : (x : A) (xs : List A) → count dec x (x ∷ xs) ≡ 1 + count dec x xs
  unfolding count
  count-head x xs = ground arith

  count-cons : (a x : A) (xs : List A) → count dec a (x ∷ xs) ≡ ite (dec a x) 1 0 + count dec a xs
  unfolding count
  count-cons a x xs = refl

  -- Where nothing occurs twice, the union holds what both sides held.
  pub insert_all_lem :
      (f : A → ℕ) (xs l : List A)
      → ((b : A) → count dec b xs + count dec b l ≤ 1)
      → ((a : A) → count dec a (insert_all dec xs l) ≡ count dec a xs + count dec a l)
        × (sum_by f (insert_all dec xs l) ≡ sum_by f xs + sum_by f l)
  unfolding insert_all sum_by
  insert_all_lem f [] l h = (λ a. omega (arith, count-nil a), omega arith)
  insert_all_lem f (x ∷ xs) l h =
      let missing = absent x l (omega (arith, h x, count-head x xs)) in
      let rest =
        insert_all_lem f xs (insert dec x l)
          (λ b. omega (arith, h b, count-cons b x xs, count-insert_new b x l missing)) in
      rw missing (
        λ a. omega (arith, rest.0 a, count-cons a x xs, count-insert_new a x l missing),
        omega (arith, rest.1, sum_by-insert_new f x l missing),
      )

module _ {A : Type 0} where
  All-le : (f : A → ℕ) (m n : ℕ) (l : List A) → m ≤ n → All (λ y. n ≤ f y) l → All (λ y. m ≤ f y) l
  All-le f m n [] h all = tt
  All-le f m n (y ∷ l) h all = (omega arith, All-le f m n l h all.1)

  pub min_by_key-none : (f : A → ℕ) (l : List A) → min_by_key f l ≡ none → l ≡ []
  unfolding min_by_key
  min_by_key-none f [] h = refl
  min_by_key-none f (y ∷ l) h = ground arith

  min_by_key-nil : (f : A → ℕ) (x : A) → ¬ (min_by_key f [] ≡ some x)
  unfolding min_by_key
  min_by_key-nil f x h = cc

  -- The first element is the least, or the rest has the least one.
  min_by_key_cons :
      (f : A → ℕ) (y : A) (l : List A) (x : A)
      → min_by_key f (y ∷ l) ≡ some x
      → ((x ≡ y) × (l ≡ []))
        ⊎ ((z : A) × (min_by_key f l ≡ some z)
            × (((x ≡ y) × (f y ≤ f z)) ⊎ ((x ≡ z) × (f z ≤ f y))))
  unfolding min_by_key
  min_by_key_cons f y l x h = elim (Option-cases (min_by_key f l)) [
    | inl nothing ↦ inl (ground arith, min_by_key-none f l nothing)
    | inr (z, e) ↦ inr (z, e, ground arith)
  ]

  -- No element is less than the one that is found.
  pub min_by_key-le :
      (f : A → ℕ) (l : List A) (x : A) → min_by_key f l ≡ some x → All (λ y. f x ≤ f y) l
  min_by_key-le f [] x h = tt
  min_by_key-le f (y ∷ l) x h = elim (min_by_key_cons f y l x h) [
    | inl (e, nil) ↦ rw (nil, e) (omega arith, tt)
    | inr (z, found, inl (e, le)) ↦
        let same : f x ≡ f y = ap f e in
        (omega arith, All-le f (f x) (f z) l (omega arith) (min_by_key-le f l z found))
    | inr (z, found, inr (e, le)) ↦
        let same : f x ≡ f z = ap f e in
        (omega arith, All-le f (f x) (f z) l (omega arith) (min_by_key-le f l z found))
  ]

  pub All-min_by_key :
      (P : A → Type 0) (f : A → ℕ) (l : List A) (x : A) → min_by_key f l ≡ some x → All P l → P x
  All-min_by_key P f [] x h all = absurd (min_by_key-nil f x h)
  All-min_by_key P f (y ∷ l) x h all = elim (min_by_key_cons f y l x h) [
    | inl (e, nil) ↦ rw e all.0
    | inr (z, found, inl (e, le)) ↦ rw e all.0
    | inr (z, found, inr (e, le)) ↦ rw e (All-min_by_key P f l z found all.1)
  ]

module _ {A : Type 0} (dec : Discrete A) where
  All-insert : (P : A → Type 0) (x : A) (l : List A) → P x → All P l → All P (insert dec x l)
  unfolding insert
  All-insert P x [] hx all = (hx, tt)
  All-insert P x (y ∷ l) hx all = ground (arith, All-insert P x l hx all.1)

  pub All-insert_all :
      (P : A → Type 0) (xs l : List A) → All P xs → All P l → All P (insert_all dec xs l)
  unfolding insert_all
  All-insert_all P [] l hx all = all
  All-insert_all P (x ∷ xs) l hx all = elim (Bool-cases (contains dec x l)) [
    | inl there ↦ rw there (All-insert_all P xs l hx.1 all)
    | inr new ↦ rw new (All-insert_all P xs (insert dec x l) hx.1 (All-insert P x l hx.0 all))
  ]

module _ {A : Type 0} where
  pub sum_by-append : (f : A → ℕ) (xs ys : List A) → sum_by f (xs ++ ys) ≡ sum_by f xs + sum_by f ys
  unfolding sum_by
  sum_by-append f [] ys = omega arith
  sum_by-append f (x ∷ xs) ys = omega (arith, sum_by-append f xs ys)

  pub count-append :
      (dec : Discrete A) (a : A) (xs ys : List A)
      → count dec a (xs ++ ys) ≡ count dec a xs + count dec a ys
  unfolding count
  count-append dec a [] ys = omega arith
  count-append dec a (x ∷ xs) ys = omega (arith, count-append dec a xs ys)

  pub All-append : (P : A → Type 0) (xs ys : List A) → All P xs → All P ys → All P (xs ++ ys)
  All-append P [] ys hx hy = hy
  All-append P (x ∷ xs) ys hx hy = (hx.0, All-append P xs ys hx.1 hy)
