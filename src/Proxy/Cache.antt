-- ===== src/Proxy/Cache.antt =====
-- The proxy's cache of answers (btc-rpc-proxy/src/cache.rs). The linked hash map is another crate's
-- and the parameter `m`, with the laws that it documents.
mod Tests
use Prim.Native.String.{String}
use ord_indexer.Base.{
  ℕ, suc, ◌≤◌, ◌<◌, ◌≡◌, ◌≢◌, refl, ◌-◌, ◌+◌, Option, none, some, List, [], ◌∷◌, leb, if◌then◌else◌,
  arith,
}

-- The functions of `LinkedHashMap` at keys that are texts.
pub record LinkedHashMap (V Map : Type 0) : Type 0 where
  pub with_capacity : ℕ → Map
  pub len : Map → ℕ
  pub pop_front : Map → Option (String × V) × Map
  pub insert : String → V → Map → Option V × Map
  -- It moves the key to the back.
  pub get_refresh : String → Map → Option V × Map

-- What the crate documents of them.
pub record IsLinked {V Map : Type 0} (m : LinkedHashMap V Map) : Type 0 where
  pub len-with_capacity : (n : ℕ) → m.len (m.with_capacity n) ≡ 0
  pub len-pop_front : (d : Map) → m.len (m.pop_front d).1 ≡ m.len d - 1
  pub len-insert : (k : String) (v : V) (d : Map) → m.len (m.insert k v d).1 ≤ suc (m.len d)
  pub len-get_refresh : (k : String) (d : Map) → m.len (m.get_refresh k d).1 ≡ m.len d
  pub get-insert : (k : String) (v : V) (d : Map) → (m.get_refresh k (m.insert k v d).1).0 ≡ some v

pub record MemoryCache (Map : Type 0) : Type 0 where
  pub cache : Map
  pub capacity : ℕ

module _ {V Map : Type 0} (m : LinkedHashMap V Map) where
  unfoldable pub new : ℕ → MemoryCache Map
  new capacity = record { cache = m.with_capacity capacity; capacity = capacity }

  unfoldable pub get : String → MemoryCache Map → Option V × MemoryCache Map
  get key c = let (v, d) = m.get_refresh key c.cache in (v, record c { cache = d })

  unfoldable pub put : String → V → MemoryCache Map → Option V × MemoryCache Map
  put key value c =
      let room = if leb c.capacity (m.len c.cache) then (m.pop_front c.cache).1 else c.cache in
      let (old, d) = m.insert key value room in (old, record c { cache = d })

  -- What the proxy does to the cache: for a request with a key it looks the answer up, and it puts
  -- the answer that it got when there was none.
  pub data Use : Type 0 where
    get_use : String → Use
    put_use : String → V → Use

  unfoldable pub use_once : Use → MemoryCache Map → MemoryCache Map
  unfolding get put
  use_once (get_use k) c = (get k c).1
  use_once (put_use k v) c = (put k v c).1

  unfoldable pub use_all : List Use → MemoryCache Map → MemoryCache Map
  unfolding use_once
  use_all [] c = c
  use_all (u ∷ us) c = use_all us (use_once u c)

  abbrev IsBounded : MemoryCache Map → Type 0
  IsBounded c = m.len c.cache ≤ c.capacity

  use_once-IsBounded :
      (u : Use) (c : MemoryCache Map)
      → IsLinked m
      → 0 < c.capacity
      → IsBounded c
      → IsBounded (use_once u c) × ((use_once u c).capacity ≡ c.capacity)
  unfolding use_once get put
  use_once-IsBounded (get_use k) c laws some_room h =
      (omega (arith, laws.len-get_refresh k c.cache), refl)
  use_once-IsBounded (put_use k v) c laws some_room h = (
    ground (
      arith,
      laws.len-pop_front c.cache,
      laws.len-insert k v (m.pop_front c.cache).1,
      laws.len-insert k v c.cache,
    ),
    refl,
  )

  use_all-IsBounded :
      (us : List Use) (c : MemoryCache Map)
      → IsLinked m
      → 0 < c.capacity
      → IsBounded c
      → IsBounded (use_all us c)
  unfolding use_all
  use_all-IsBounded [] c laws some_room h = h
  use_all-IsBounded (u ∷ us) c laws some_room h =
      let (bounded, same) = use_once-IsBounded u c laws some_room h in
      use_all-IsBounded us (use_once u c) laws (omega (arith, same)) bounded

  -- Whatever is asked of a new cache that may hold an answer at all, it never holds more answers
  -- than its capacity, and an answer that is put is the one that the same key gets next.
  pub put-IsBounded :
      (us : List Use) (capacity : ℕ) (k : String) (v : V)
      → IsLinked m
      → 0 < capacity
      → let c = use_all us (new capacity) in
        (m.len c.cache ≤ c.capacity) × ((get k (put k v c).1).0 ≡ some v)
  unfolding new get put
  put-IsBounded us capacity k v laws some_room = (
    use_all-IsBounded us (new capacity) laws some_room
        (omega (arith, laws.len-with_capacity capacity)),
    laws.get-insert k v _,
  )
