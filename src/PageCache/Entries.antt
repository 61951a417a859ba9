-- ===== src/PageCache/Entries.antt =====
-- Where an entry is after each change of the list.
use flycanon.Prelude.{
  ℕ, ◌+◌, ◌≤◌, ◌<◌, String, str_eq, eq_iff, ◌≡◌, false, none, some, [], ◌∷◌, ◌++◌, length,
  length-append, arith, if◌then◌else◌,
}
use flycanon.PageCache.{Entry, Entries, lookup, pop, evict}

pub lookup-pop :
    (k j : String) (c : Entries) → lookup k (pop j c) ≡ (if str_eq j k then none else lookup k c)
unfolding lookup pop
lookup-pop k j [] = ground arith
lookup-pop k j ((i, e) ∷ c) = ground (arith, eq_iff i j, eq_iff i k, eq_iff j k, lookup-pop k j c)

pub lookup-append :
    (k j : String) (e : Entry) (c : Entries)
    → lookup j c ≡ none
    → lookup k (c ++ (j, e) ∷ []) ≡ (if str_eq j k then some e else lookup k c)
unfolding lookup
lookup-append k j e [] h = ground arith
lookup-append k j e ((i, x) ∷ c) h =
    ground (arith, eq_iff i j, eq_iff i k, eq_iff j k, lookup-append k j e c)

-- What an eviction leaves was there before.
pub length-evict : (n : ℕ) (c : Entries) → length (evict n c) ≤ n
unfolding evict
length-evict n [] = omega arith
length-evict n (x ∷ c) = ground (arith, length-evict n c)

pub length-pop-le : (k : String) (c : Entries) → length (pop k c) ≤ length c
unfolding pop
length-pop-le k [] = omega arith
length-pop-le k ((j, e) ∷ c) = ground (arith, length-pop-le k c)

pub length-pop-lt :
    (k : String) (c : Entries) {e : Entry} → lookup k c ≡ some e → length (pop k c) + 1 ≤ length c
unfolding pop lookup
length-pop-lt k [] h = absurd (ground arith)
length-pop-lt k ((j, x) ∷ c) {e} h = ground (arith, length-pop-le k c, length-pop-lt k c {e = e})

-- The number of entries that were used after that of the key.
unfoldable pub after : String → Entries → ℕ
after k [] = 0
after k ((j, e) ∷ c) = if str_eq j k then length c else after k c

pub after-pop : (k j : String) (c : Entries) → str_eq j k ≡ false → after k (pop j c) ≤ after k c
unfolding after pop
after-pop k j [] other = omega arith
after-pop k j ((i, x) ∷ c) other =
    ground (arith, eq_iff i j, eq_iff i k, eq_iff j k, after-pop k j c other, length-pop-le j c)

pub after-append :
    (k : String) (x : String × Entry) (c : Entries) {e : Entry}
    → lookup k c ≡ some e
    → (lookup k (c ++ x ∷ []) ≡ some e) × (after k (c ++ x ∷ []) ≡ after k c + 1)
unfolding lookup after
after-append k x [] h = absurd (ground arith)
after-append k x ((i, y) ∷ c) {e} h =
    ground (arith, after-append k x c {e = e}, length-append c (x ∷ []))

pub after-new :
    (k : String) (e : Entry) (c : Entries)
    → lookup k c ≡ none
    → (lookup k (c ++ (k, e) ∷ []) ≡ some e) × (after k (c ++ (k, e) ∷ []) ≡ 0)
unfolding lookup after
after-new k e [] h = ground (arith, eq_iff k k)
after-new k e ((i, y) ∷ c) h = ground (arith, after-new k e c)

pub after-evict :
    (k : String) (n : ℕ) (c : Entries) {e : Entry}
    → lookup k c ≡ some e
    → after k c < n
    → (lookup k (evict n c) ≡ some e) × (after k (evict n c) ≡ after k c)
unfolding lookup after evict
after-evict k n [] h near = absurd (ground arith)
after-evict k n (x ∷ c) {e} h near = ground (arith, after-evict k n c {e = e})
