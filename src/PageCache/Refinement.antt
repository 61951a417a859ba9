-- ===== src/PageCache/Refinement.antt =====
-- The cache against an unbounded map, in which each write of a key stays until the next one.
use flycanon.Prelude.{
  ℕ, ◌+◌, String, str_eq, eq_iff, eq_refl, ◌≡◌, refl, subst, false, Option, none, some, List, [],
  ◌∷◌, length, arith, ltb, leb, ◌<◌, zero, suc, if◌then◌else◌, All, All-append, All-imp, Bool-cases,
  inl, inr, Option-cases,
}
use flycanon.PageCache.{
  Entry, Entries, lookup, pop, evict, MemoryPageCache, new_cache, found, get, set, Call, read,
  write, run,
}

abbrev pub Store : Type 0
Store = String → Option Entry

abbrev nothing : Store
nothing k = none

unfoldable pub stored : ℕ → List Call → Store → Store
stored ttl [] s = s
stored ttl (read k now ∷ calls) s = stored ttl calls s
stored ttl (write k pages now ∷ calls) s =
    stored ttl calls
      (λ j. if str_eq k j then some (record { pages = pages; expires_at = now + ttl }) else s j)

-- Each entry is what the map has under its key.
abbrev Agrees : Store → Entries → Type 0
Agrees s c = All (λ x. s x.0 ≡ some x.1) c

module _ {κ} (P : String × Entry → Type κ) where
  All-pop : (k : String) (c : Entries) → All P c → All (λ x. P x × (str_eq k x.0 ≡ false)) (pop k c)
  unfolding pop
  All-pop k [] all = tt
  All-pop k ((j, e) ∷ c) all = elim (Bool-cases (str_eq j k)) [
    | inl same ↦ rw same (All-pop k c all.1)
    | inr other ↦ rw other ((all.0, ground (arith, eq_iff j k, eq_iff k j)), All-pop k c all.1)
  ]

  All-evict : (n : ℕ) (c : Entries) → All P c → All P (evict n c)
  unfolding evict
  All-evict n [] all = tt
  All-evict n (x ∷ c) all = elim (Bool-cases (ltb n (length (x ∷ c)))) [
    | inl over ↦ rw over (All-evict n c all.1)
    | inr fits ↦ rw fits all
  ]

  All-lookup : (k : String) (c : Entries) {e : Entry} → All P c → lookup k c ≡ some e → P (k, e)
  unfolding lookup
  All-lookup k [] all h = absurd (ground arith)
  All-lookup k ((j, x) ∷ c) {e} all h = elim (Bool-cases (str_eq j k)) [
    | inl same ↦
        let e1 : x ≡ e = ground arith in
        subst (λ i. P (i, e)) ((eq_iff j k).0 same) (rw (← e1) all.0)
    | inr other ↦ All-lookup k c all.1 (ground arith)
  ]

Agrees-found :
    (s : Store) (k : String) (now : ℕ) (c : Entries)
    → Agrees s c
    → Agrees s (found k now c (lookup k c)).1
unfolding found
Agrees-found s k now c all = elim (Option-cases (lookup k c)) [
  | inl absent ↦ rw absent all
  | inr (e, hit) ↦ rw hit (elim (Bool-cases (leb e.expires_at now)) [
    | inl expired ↦ rw expired (without c all)
    | inr fresh ↦
        rw fresh
          (All-append _ (pop k c) ((k, e) ∷ []) (without c all) (All-lookup _ k c all hit, tt))
  ])
]
  where
    without : (c : Entries) → Agrees s c → Agrees s (pop k c)
    without c all = All-imp _ _ (pop k c) (λ x h. h.0) (All-pop _ k c all)

Agrees-run :
    (calls : List Call) (m : MemoryPageCache) (s : Store)
    → Agrees s m.cache
    → Agrees (stored m.ttl calls s) (run calls m).cache
unfolding run stored get set
Agrees-run [] m s all = all
Agrees-run (read k now ∷ calls) m s all =
    Agrees-run calls (get k now m).1 s (Agrees-found s k now m.cache all)
Agrees-run (write k pages now ∷ calls) m s all =
    let e : Entry = record { pages = pages; expires_at = now + m.ttl } in
    let s' : Store = λ j. if str_eq k j then some e else s j in
    Agrees-run calls (set k pages now m) s' (
      All-evict _ m.max_entries _ (
        All-append (λ x. s' x.0 ≡ some x.1) (pop k m.cache) ((k, e) ∷ [])
          (All-imp _ _ (pop k m.cache) (λ x h. rw h.1 h.0) (All-pop _ k m.cache all))
          (rw (eq_refl k) refl, tt)))

get_hit :
    (k : String) (now : ℕ) (c : Entries) (o : Option Entry) {pages : List String}
    → (found k now c o).0 ≡ some pages
    → (e : Entry) × (o ≡ some e) × (e.pages ≡ pages) × (now < e.expires_at)
unfolding found
get_hit k now c none h = absurd (ground arith)
get_hit k now c (some e) h = elim (Bool-cases (leb e.expires_at now)) [
  | inl expired ↦ absurd (ground arith)
  | inr fresh ↦ (e, refl, ground arith, ground arith)
]

-- A value that the cache returns, from a new cache and after any calls, is the value that was written
-- last under that key, and its time to live has not passed.
pub get-refines :
    (ttl max_entries : ℕ) (m : MemoryPageCache) (calls : List Call) (k : String) (now : ℕ)
    (pages : List String)
    → new_cache ttl max_entries ≡ some m
    → (get k now (run calls m)).0 ≡ some pages
    → (e : Entry) × (stored ttl calls nothing k ≡ some e) × (e.pages ≡ pages) × (now < e.expires_at)
unfolding new_cache get
get-refines ttl zero m calls k now pages made = absurd (ground arith)
get-refines ttl (suc n) m calls k now pages made = subst Refines (some_inj made) (from_empty n)
  where
    Refines : MemoryPageCache → Type 0
    Refines m =
        (get k now (run calls m)).0 ≡ some pages
        → (e : Entry) × (stored ttl calls nothing k ≡ some e)
          × (e.pages ≡ pages)
          × (now < e.expires_at)

    some_inj : {a b : MemoryPageCache} → some a ≡ some b → a ≡ b
    some_inj h = ground arith

    from_empty : (n : ℕ) → Refines (record { ttl = ttl; max_entries = suc n; cache = [] })
    from_empty n h =
        let m0 : MemoryPageCache = record { ttl = ttl; max_entries = suc n; cache = [] } in
        let (e, hit, same, fresh) =
          get_hit k now (run calls m0).cache (lookup k (run calls m0).cache) h in
        (e, All-lookup _ k (run calls m0).cache (Agrees-run calls m0 nothing tt) hit, same, fresh)
