-- ===== src/PageCache.antt =====
-- core/services/query/rlm/page_cache.py: `MemoryPageCache`. The lock makes each call one step; the clock
-- is an argument. The cache is its `OrderedDict` as a list, the least recently used entry first.
pub mod Entries
pub mod Refinement
pub mod Retention
pub mod Bounds
pub mod Tests
use flycanon.Prelude.{
  ℕ, zero, suc, ◌+◌, String, str_eq, Bool, true, false, Option, none, some, List, [], ◌∷◌, ◌++◌,
  length, ltb, leb, if◌then◌else◌,
}

pub record Entry : Type 0 where
  pub pages : List String
  pub expires_at : ℕ

abbrev pub Entries : Type 0
Entries = List (String × Entry)

-- dict.get
unfoldable pub lookup : String → Entries → Option Entry
lookup k [] = none
lookup k ((j, e) ∷ c) = if str_eq j k then some e else lookup k c

-- dict.pop(key, None)
unfoldable pub pop : String → Entries → Entries
pop k [] = []
pop k ((j, e) ∷ c) = let rest = pop k c in if str_eq j k then rest else (j, e) ∷ rest

-- while len(cache) > max_entries: cache.popitem(last=False)
unfoldable pub evict : ℕ → Entries → Entries
evict max_entries [] = []
evict max_entries (x ∷ c) =
    let rest = evict max_entries c in if ltb max_entries (length (x ∷ c)) then rest else x ∷ c

pub record MemoryPageCache : Type 0 where
  pub ttl : ℕ
  pub max_entries : ℕ
  pub cache : Entries

-- None is the ValueError.
unfoldable pub new_cache : ℕ → ℕ → Option MemoryPageCache
new_cache ttl_s zero = none
new_cache ttl_s (suc n) = some (record { ttl = ttl_s; max_entries = suc n; cache = [] })

-- Behind `self._cache.get(key)`.
unfoldable pub found : String → ℕ → Entries → Option Entry → Option (List String) × Entries
found k now c none = (none, c)
found k now c (some e) =
    if leb e.expires_at now then (none, pop k c) else (some e.pages, pop k c ++ (k, e) ∷ [])

unfoldable pub get : String → ℕ → MemoryPageCache → Option (List String) × MemoryPageCache
get k now m =
    let (pages, c) = found k now m.cache (lookup k m.cache) in (pages, record m { cache = c })

unfoldable pub set : String → List String → ℕ → MemoryPageCache → MemoryPageCache
set k pages now m = record m {
  cache =
      evict m.max_entries
        (pop k m.cache ++ (k, record { pages = pages; expires_at = now + m.ttl }) ∷ []);
}

-- The calls of the worker threads, in the order in which they take the lock.
pub data Call : Type 0 where
  read : String → ℕ → Call
  write : String → List String → ℕ → Call

abbrev pub key_of : Call → String
key_of (read k now) = k
key_of (write k pages now) = k

unfoldable pub run : List Call → MemoryPageCache → MemoryPageCache
run [] m = m
run (read k now ∷ calls) m = run calls (get k now m).1
run (write k pages now ∷ calls) m = run calls (set k pages now m)
