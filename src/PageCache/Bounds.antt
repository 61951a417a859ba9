-- ===== src/PageCache/Bounds.antt =====
-- The cache is a dict of at most `max_entries` entries.
use flycanon.Prelude.{
  ◌<◌, ◌∙◌, eq_refl, ℕ, zero, suc, ◌+◌, ◌≤◌, String, str_eq, eq_iff, ◌≡◌, refl, subst, false, none,
  some, List, [], ◌∷◌, ◌++◌, length, length-append, arith, ltb, leb, All, All-append, Bool-cases,
  inl, inr, Option-cases,
}
use flycanon.Table.{Unique}
use flycanon.PageCache.{
  Entry, Entries, lookup, pop, evict, MemoryPageCache, new_cache, found, get, set, Call, read,
  write, run,
}
use flycanon.PageCache.Entries.{length-evict, length-pop-lt, lookup-pop}

abbrev pub key : String × Entry → String
key x = x.0

module _ (P : String × Entry → Type 0) where
  All-pop : (k : String) (c : Entries) → All P c → All P (pop k c)
  unfolding pop
  All-pop k [] all = tt
  All-pop k ((j, e) ∷ c) all = elim (Bool-cases (str_eq j k)) [
    | inl same ↦ rw same (All-pop k c all.1)
    | inr other ↦ rw other (all.0, All-pop k c all.1)
  ]

Unique-pop : (k : String) (c : Entries) → Unique key c → Unique key (pop k c)
unfolding pop
Unique-pop k [] u = tt
Unique-pop k ((j, e) ∷ c) u = elim (Bool-cases (str_eq j k)) [
  | inl same ↦ rw same (Unique-pop k c u.1)
  | inr other ↦ rw other (All-pop _ k c u.0, Unique-pop k c u.1)
]

Unique-evict : (n : ℕ) (c : Entries) → Unique key c → Unique key (evict n c)
unfolding evict
Unique-evict n [] u = tt
Unique-evict n (x ∷ c) u = elim (Bool-cases (ltb n (length (x ∷ c)))) [
  | inl over ↦ rw over (Unique-evict n c u.1)
  | inr fits ↦ rw fits u
]

Unique-new :
    (k : String) (e : Entry) (c : Entries)
    → lookup k c ≡ none
    → Unique key c
    → Unique key (c ++ (k, e) ∷ [])
unfolding lookup
Unique-new k e [] absent u = (tt, tt)
Unique-new k e ((j, x) ∷ c) absent u = (
  All-append (λ y. str_eq y.0 j ≡ false) c ((k, e) ∷ []) u.0
      (ground (arith, eq_iff j k, eq_iff k j), tt),
  Unique-new k e c (ground arith) u.1,
)

-- No two entries have one key, and there are no more entries than the cap.
abbrev pub Bounded : MemoryPageCache → Type 0
Bounded m = Unique key m.cache × (length m.cache ≤ m.max_entries)

max_entries-run :
    (calls : List Call) (m : MemoryPageCache) → (run calls m).max_entries ≡ m.max_entries
unfolding run get set
max_entries-run [] m = refl
max_entries-run (read k now ∷ calls) m = max_entries-run calls (get k now m).1
max_entries-run (write k pages now ∷ calls) m = max_entries-run calls (set k pages now m)

absent_after : (k : String) (c : Entries) → lookup k (pop k c) ≡ none
absent_after k c = lookup-pop k k c ∙ rw (eq_refl k) refl

Bounded-found :
    (k : String) (now n : ℕ) (c : Entries)
    → Unique key c × (length c ≤ n)
    → Unique key (found k now c (lookup k c)).1 × (length (found k now c (lookup k c)).1 ≤ n)
unfolding found
Bounded-found k now n c (u, fits) = elim (Option-cases (lookup k c)) [
  | inl absent ↦ rw absent (u, fits)
  | inr (e, hit) ↦ rw hit (elim (Bool-cases (leb e.expires_at now)) [
    | inl expired ↦ rw expired (Unique-pop k c u, omega (arith, fits, length-pop-lt k c hit))
    | inr fresh ↦ rw fresh (
      Unique-new k e (pop k c) (absent_after k c) (Unique-pop k c u),
      omega (arith, fits, length-pop-lt k c hit, length-append (pop k c) ((k, e) ∷ [])),
    )
  ])
]

Bounded-run : (calls : List Call) (m : MemoryPageCache) → Bounded m → Bounded (run calls m)
unfolding run get set
Bounded-run [] m h = h
Bounded-run (read k now ∷ calls) m h =
    Bounded-run calls (get k now m).1 (Bounded-found k now m.max_entries m.cache h)
Bounded-run (write k pages now ∷ calls) m (u, fits) =
    let e : Entry = record { pages = pages; expires_at = now + m.ttl } in
    Bounded-run calls (set k pages now m) (
      Unique-evict m.max_entries (pop k m.cache ++ (k, e) ∷ [])
          (Unique-new k e (pop k m.cache) (absent_after k m.cache) (Unique-pop k m.cache u)),
      length-evict m.max_entries (pop k m.cache ++ (k, e) ∷ []),
    )

-- From a new cache, whatever is called, no key has two entries and the entries are no more than the
-- cap; a cap of zero makes no cache.
pub run-Bounded :
    (ttl max_entries : ℕ) (m : MemoryPageCache) (calls : List Call)
    → new_cache ttl max_entries ≡ some m
    → Unique key (run calls m).cache
      × (length (run calls m).cache ≤ max_entries)
      × (0 < max_entries)
unfolding new_cache
run-Bounded ttl zero m calls made = absurd (ground arith)
run-Bounded ttl (suc n) m calls made =
    let e : empty ≡ m = ground arith in
    let (u, fits) = Bounded-run calls m (subst Bounded e (tt, omega arith)) in
    let cap : m.max_entries ≡ suc n = rw (← e) refl in
    (u, omega (arith, fits, cap, max_entries-run calls m), omega arith)
  where
    empty : MemoryPageCache
    empty = record { ttl = ttl; max_entries = suc n; cache = [] }
