-- ===== src/PageCache/Retention.antt =====
-- How long a written entry stays: each call on another key moves it by at most one place.
use flycanon.Prelude.{
  ℕ, suc, ◌+◌, ◌≤◌, ◌<◌, String, str_eq, eq_refl, ◌≡◌, refl, ◌∙◌, false, Option, none, some, List,
  [], ◌∷◌, ◌++◌, length, arith, leb, All, Bool-cases, inl, inr,
}
use flycanon.PageCache.{
  Entry, Entries, lookup, pop, evict, MemoryPageCache, found, get, set, Call, read, write, key_of,
  run,
}
use flycanon.PageCache.Entries.{lookup-pop, after, after-pop, after-append, after-new, after-evict}

-- The entry is there, with at most `n` entries after it.
abbrev Near : String → Entry → ℕ → Entries → Type 0
Near k e n c = (lookup k c ≡ some e) × (after k c ≤ n)

Near-pop :
    (k j : String) (e : Entry) (n : ℕ) (c : Entries)
    → str_eq j k ≡ false
    → Near k e n c
    → Near k e n (pop j c)
Near-pop k j e n c other (here, near) =
    (lookup-pop k j c ∙ rw (other, here) refl, omega (arith, near, after-pop k j c other))

Near-append :
    (k : String) (e : Entry) (n : ℕ) (x : String × Entry) (c : Entries)
    → Near k e n c
    → Near k e (suc n) (c ++ x ∷ [])
Near-append k e n x c (here, near) =
    let (there, at_) = after-append k x c here in (there, omega (arith, near, at_))

Near-evict :
    (k : String) (e : Entry) (n : ℕ) (max_entries : ℕ) (c : Entries)
    → n < max_entries
    → Near k e n c
    → Near k e n (evict max_entries c)
Near-evict k e n max_entries c fits (here, near) =
    let (there, at_) = after-evict k max_entries c here (omega (arith, near, fits)) in
    (there, omega (arith, near, at_))

Near-found :
    (k j : String) (e : Entry) (n now : ℕ) (c : Entries) (o : Option Entry)
    → str_eq j k ≡ false
    → Near k e n c
    → Near k e (suc n) (found j now c o).1
unfolding found
Near-found k j e n now c none other (here, near) = (here, omega (arith, near))
Near-found k j e n now c (some x) other h = elim (Bool-cases (leb x.expires_at now)) [
  | inl expired ↦
      let (here, near) = Near-pop k j e n c other h in rw expired (here, omega (arith, near))
  | inr fresh ↦ rw fresh (Near-append k e n (j, x) (pop j c) (Near-pop k j e n c other h))
]

Near-run :
    (k : String) (e : Entry) (n : ℕ) (calls : List Call) (m : MemoryPageCache)
    → All (λ call. str_eq (key_of call) k ≡ false) calls
    → n + length calls < m.max_entries
    → Near k e n m.cache
    → Near k e (n + length calls) (run calls m).cache
unfolding run get set
Near-run k e n [] m others fits h = (h.0, omega (arith, h.1))
Near-run k e n (read j now ∷ calls) m others fits h =
    let step = Near-found k j e n now m.cache (lookup j m.cache) others.0 h in
    let (here, near) =
      Near-run k e (suc n) calls (get j now m).1 others.1 (omega (arith, fits)) step in
    (here, omega (arith, near))
Near-run k e n (write j pages now ∷ calls) m others fits h =
    let x : Entry = record { pages = pages; expires_at = now + m.ttl } in
    let step =
      Near-evict k e (suc n) m.max_entries (pop j m.cache ++ (j, x) ∷ []) (omega (arith, fits))
        (Near-append k e n (j, x) (pop j m.cache) (Near-pop k j e n m.cache others.0 h)) in
    let (here, near) =
      Near-run k e (suc n) calls (set j pages now m) others.1 (omega (arith, fits)) step in
    (here, omega (arith, near))

Near-set :
    (k : String) (pages : List String) (t : ℕ) (m : MemoryPageCache)
    → 0 < m.max_entries
    → Near k (record { pages = pages; expires_at = t + m.ttl }) 0 (set k pages t m).cache
unfolding set
Near-set k pages t m some_room =
    let e : Entry = record { pages = pages; expires_at = t + m.ttl } in
    let absent : lookup k (pop k m.cache) ≡ none = lookup-pop k k m.cache ∙ rw (eq_refl k) refl in
    let (here, last) = after-new k e (pop k m.cache) absent in
    Near-evict k e 0 m.max_entries (pop k m.cache ++ (k, e) ∷ []) some_room
      (here, omega (arith, last))

get_fresh :
    (k : String) (e : Entry) (now : ℕ) (c : Entries)
    → lookup k c ≡ some e
    → now < e.expires_at
    → (found k now c (lookup k c)).0 ≡ some e.pages
unfolding found
get_fresh k e now c here fresh =
    let not_expired : leb e.expires_at now ≡ false = ground (arith, fresh) in
    rw (here, not_expired) refl

-- What is written under a key is read back before its time to live has passed, where fewer than
-- `max_entries` calls on other keys came between.
pub get-set :
    (m : MemoryPageCache) (k : String) (pages : List String) (t : ℕ) (calls : List Call) (now : ℕ)
    → All (λ call. str_eq (key_of call) k ≡ false) calls
    → length calls < m.max_entries
    → now < t + m.ttl
    → (get k now (run calls (set k pages t m))).0 ≡ some pages
unfolding get set
get-set m k pages t calls now others few fresh =
    let e : Entry = record { pages = pages; expires_at = t + m.ttl } in
    let (here, near) =
      Near-run k e 0 calls (set k pages t m) others (omega (arith, few))
        (Near-set k pages t m (omega (arith, few))) in
    get_fresh k e now (run calls (set k pages t m)).cache here fresh
