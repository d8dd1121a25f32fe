-- ===== src/Proxy/Cache/Tests.antt =====
-- A cache of one answer whose map is a list of at most one pair.
use ord_indexer.Base.{ℕ, ◌≤◌, ◌≡◌, refl, Option, none, some, List, [], ◌∷◌, length, arith, ◌-◌}
use ord_indexer.Proxy.Cache.{
  LinkedHashMap, IsLinked, new, get, put, get_use, put_use, use_all, put-IsBounded,
}

-- The last key that was put, whatever is asked.
abbrev last_put : List ℕ → Option ℕ
last_put [] = none
last_put (v ∷ vs) = some v

abbrev rest : List ℕ → List ℕ
rest [] = []
rest (v ∷ vs) = vs

abbrev values : LinkedHashMap ℕ (List ℕ)
values = record {
  with_capacity = λ n. [];
  len = λ d. length d;
  pop_front = λ d. (none, rest d);
  insert = λ k v d. (none, v ∷ d);
  get_refresh = λ k d. (last_put d, d);
}

length-rest : (d : List ℕ) → length (rest d) ≡ length d - 1
length-rest [] = refl
length-rest (v ∷ vs) = omega arith

values-IsLinked : IsLinked values
values-IsLinked = record {
  len-with_capacity = λ n. refl;
  len-pop_front = length-rest;
  len-insert = λ k v d. omega arith;
  len-get_refresh = λ k d. refl;
  get-insert = λ k v d. refl;
}

put-IsBounded_example :
    let c = use_all values (put_use "a" 1 ∷ get_use "a" ∷ put_use "b" 2 ∷ []) (new values 2) in
    (values.len c.cache ≤ c.capacity) × ((get values "b" (put values "b" 3 c).1).0 ≡ some 3)
put-IsBounded_example =
    put-IsBounded values (put_use "a" 1 ∷ get_use "a" ∷ put_use "b" 2 ∷ []) 2 "b" 3 values-IsLinked
      (omega arith)
