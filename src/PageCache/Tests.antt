-- ===== src/PageCache/Tests.antt =====
-- A cache of two entries, and the theorems at it.
use flycanon.Prelude.{String, ◌≡◌, refl, none, some, List, [], ◌∷◌, ◌<◌, length, ◌≤◌}
use flycanon.Table.{Unique}
use flycanon.PageCache.{
  Entry, MemoryPageCache, new_cache, lookup, pop, evict, found, get, set, Call, read, write, run,
}
use flycanon.PageCache.Refinement.{stored, get-refines}
use flycanon.PageCache.Bounds.{key, run-Bounded}

abbrev m0 : MemoryPageCache
m0 = record { ttl = 10; max_entries = 2; cache = [] }

abbrev pages_a : List String
pages_a = "a1" ∷ "a2" ∷ []

abbrev three_writes : List Call
three_writes = write "a" pages_a 0 ∷ write "b" [] 1 ∷ read "a" 2 ∷ write "c" [] 3 ∷ []

-- Reading "a" saves it: the third write puts out "b".
kept : (get "a" 4 (run three_writes m0)).0 ≡ some pages_a
unfolding new_cache lookup pop evict found get set run
kept = refl

put_out : (get "b" 4 (run three_writes m0)).0 ≡ none
unfolding new_cache lookup pop evict found get set run
put_out = refl

expired : (get "a" 10 (run three_writes m0)).0 ≡ none
unfolding new_cache lookup pop evict found get set run
expired = refl

made : new_cache 10 2 ≡ some m0
unfolding new_cache
made = refl

get-refines_example :
    (e : Entry) × (stored 10 three_writes (λ k. none) "a" ≡ some e)
    × (e.pages ≡ pages_a)
    × (4 < e.expires_at)
get-refines_example = get-refines 10 2 m0 three_writes "a" 4 pages_a made kept

run-Bounded_example :
    Unique key (run three_writes m0).cache × (length (run three_writes m0).cache ≤ 2) × (0 < 2)
run-Bounded_example = run-Bounded 10 2 m0 three_writes made
