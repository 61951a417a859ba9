-- ===== src/RateLimit/Window.antt =====
-- No window of a minute has more accepted requests than the limit.
use flycanon.Prelude.{
  ℕ, zero, suc, ◌+◌, ◌≤◌, ◌<◌, ◌&&◌, String, str_eq, eq_iff, eq_refl, ◌≡◌, refl, Bool, true, false,
  Option, none, some, List, [], ◌∷◌, ◌++◌, length, All, arith, ltb, leb, if◌then◌else◌, Bool-cases,
  inl, inr, ◌⊎◌,
}
use flycanon.RateLimit.{
  append, prune, try_take, Buckets, update, consume, Request, accepted, maxlen,
}

-- The times within a minute before `c`, and those of the window that starts at `s`.
unfoldable pub recent : ℕ → ℕ → List ℕ → ℕ
recent minute c [] = 0
recent minute c (t ∷ ts) =
    let rest = recent minute c ts in if ltb (t + minute) c then rest else suc rest

unfoldable pub in_window : ℕ → ℕ → List ℕ → ℕ
in_window minute s [] = 0
in_window minute s (t ∷ ts) =
    let rest = in_window minute s ts in if leb s t && leb t (s + minute) then suc rest else rest

recent-append :
    (minute c now : ℕ) (ts : List ℕ)
    → recent minute c (ts ++ now ∷ [])
      ≡ recent minute c ts + (if ltb (now + minute) c then 0 else 1)
unfolding recent
recent-append minute c now [] = ground arith
recent-append minute c now (t ∷ ts) = ground (arith, recent-append minute c now ts)

recent-prune :
    (minute now c : ℕ) (ts : List ℕ)
    → now ≤ c
    → recent minute c (prune minute now ts) ≡ recent minute c ts
unfolding recent prune
recent-prune minute now c [] le = refl
recent-prune minute now c (t ∷ ts) le = ground (arith, recent-prune minute now c ts le)

recent-le : (minute c : ℕ) (ts : List ℕ) → recent minute c ts ≤ length ts
unfolding recent
recent-le minute c [] = omega arith
recent-le minute c (t ∷ ts) = ground (arith, recent-le minute c ts)

append_room : (now : ℕ) (ts : List ℕ) → length ts < maxlen → append now ts ≡ ts ++ now ∷ []
unfolding append
append_room now [] room = refl
append_room now (t ∷ ts) room = ground (arith, room)

-- Of the accepted requests, the latest first, each had fewer than `limit` in the minute before it.
abbrev Spaced : ℕ → ℕ → List ℕ → Type 0
Spaced minute limit [] = Unit
Spaced minute limit (x ∷ ts) = (recent minute x ts < limit) × Spaced minute limit ts

in_window-recent :
    (minute s x : ℕ) (ts : List ℕ) → x ≤ s + minute → in_window minute s ts ≤ recent minute x ts
unfolding in_window recent
in_window-recent minute s x [] le = omega arith
in_window-recent minute s x (t ∷ ts) le = ground (arith, in_window-recent minute s x ts le)

Spaced-in_window :
    (minute limit s : ℕ) (ts : List ℕ) → Spaced minute limit ts → in_window minute s ts ≤ limit
unfolding in_window
Spaced-in_window minute limit s [] h = omega arith
Spaced-in_window minute limit s (x ∷ ts) h =
    ground (arith, h.0, Spaced-in_window minute limit s ts h.1, in_window-recent minute s x ts)

-- The bucket has every accepted request that can still count.
abbrev Covers : ℕ → ℕ → List ℕ → List ℕ → Type 0
Covers minute now ts bucket = (c : ℕ) → now ≤ c → recent minute c ts ≤ recent minute c bucket

Covers-prune :
    (minute t now : ℕ) (ts bucket : List ℕ)
    → t ≤ now
    → Covers minute t ts bucket
    → Covers minute now ts (prune minute now bucket)
Covers-prune minute t now ts bucket le h c le' =
    rw (recent-prune minute now c bucket le') (h c (omega (arith, le, le')))

-- A bucket with room takes the request.
Covers-taken :
    (minute now : ℕ) (ts bucket : List ℕ)
    → length bucket < maxlen
    → Covers minute now ts bucket
    → Covers minute now (now ∷ ts) (append now bucket)
unfolding recent
Covers-taken minute now ts bucket room h c le =
    rw (append_room now bucket room)
      (rw (recent-append minute c now bucket) (ground (arith, h c le)))

-- The clock does not go back.
abbrev pub Ascending : ℕ → List Request → Type 0
Ascending t [] = Unit
Ascending t (r ∷ requests) = (t ≤ r.now) × Ascending r.now requests

-- A request of the token comes with its limit.
abbrev pub Limited : ℕ → String → Request → Type 0
Limited limit token_id r = (str_eq r.token_id token_id ≡ false) ⊎ (r.limit_per_minute ≡ some limit)

module _ (minute limit : ℕ) (small : suc limit ≤ maxlen) where
  -- What a request leaves: its time if it was taken, and a bucket that covers.
  abbrev Stepped : ℕ → List ℕ → Bool × List ℕ → Type 0
  Stepped now ts (true, bucket) =
      (recent minute now ts < suc limit) × Covers minute now (now ∷ ts) bucket
  Stepped now ts (false, bucket) = Covers minute now ts bucket

  try_take-Stepped :
      (t now : ℕ) (ts bucket : List ℕ)
      → t ≤ now
      → Covers minute t ts bucket
      → Stepped now ts (try_take minute (suc limit) now bucket)
  unfolding try_take
  try_take-Stepped t now ts bucket le h =
      let pruned = prune minute now bucket in
      let covers = Covers-prune minute t now ts bucket le h in
      elim (Bool-cases (leb (suc limit) (length pruned))) [
        | inl full ↦ rw full covers
        | inr room ↦
            let few : length pruned < suc limit = ground (arith, room) in
            let counted = covers now (omega arith) in
            rw room (
              omega (arith, counted, few, recent-le minute now pruned),
              Covers-taken minute now ts pruned (omega (arith, few, small)) covers,
            )
      ]

  module _ (token_id : String) where
    consume_other :
        (other : String) (o : Option ℕ) (now : ℕ) (buckets : Buckets)
        → str_eq other token_id ≡ false
        → (consume minute other o now buckets).1 token_id ≡ buckets token_id
    unfolding consume
    consume_other other none now buckets h = refl
    consume_other other (some zero) now buckets h = refl
    consume_other other (some (suc n)) now buckets h = rw h refl

    after_slot :
        (requests : List Request) (now : ℕ) (ts : List ℕ) (buckets : Buckets) (o : Bool × List ℕ)
        → ((buckets : Buckets) (ts : List ℕ)
            → Covers minute now ts (buckets token_id)
            → Spaced minute (suc limit) ts
            → Spaced minute (suc limit) (accepted minute token_id requests buckets ts))
        → Stepped now ts o
        → Spaced minute (suc limit) ts
        → Spaced minute (suc limit) (
            accepted minute token_id requests
              (update token_id o.1 buckets)
              (if o.0 then now ∷ ts else ts))
    after_slot requests now ts buckets (true, bucket) ih h spaced =
        ih (update token_id bucket buckets) (now ∷ ts) (rw (eq_refl token_id) h.1) (h.0, spaced)
    after_slot requests now ts buckets (false, bucket) ih h spaced =
        ih (update token_id bucket buckets) ts (rw (eq_refl token_id) h) spaced

    own_limit :
        (r : Request)
        → Limited (suc limit) token_id r
        → str_eq r.token_id token_id ≡ true
        → r.limit_per_minute ≡ some (suc limit)
    own_limit r (inl other) same = absurd cc
    own_limit r (inr own) same = own

    accepted-Spaced :
        (requests : List Request) (t : ℕ) (buckets : Buckets) (ts : List ℕ)
        → Ascending t requests
        → All (Limited (suc limit) token_id) requests
        → Covers minute t ts (buckets token_id)
        → Spaced minute (suc limit) ts
        → Spaced minute (suc limit) (accepted minute token_id requests buckets ts)
    unfolding accepted consume
    accepted-Spaced [] t buckets ts order limits covers spaced = spaced
    accepted-Spaced (r ∷ requests) t buckets ts order limits covers spaced =
        let ih =
          λ (b : Buckets) (ts' : List ℕ). accepted-Spaced requests r.now b ts' order.1 limits.1 in
        elim (Bool-cases (str_eq r.token_id token_id)) [
          | inr other ↦
              let kept = consume_other r.token_id r.limit_per_minute r.now buckets other in
              rw other (
                ih (consume minute r.token_id r.limit_per_minute r.now buckets).1 ts
                  (rw kept (λ c le. covers c (omega (arith, le, order.0)))) spaced)
          | inl same ↦
              let e = (eq_iff r.token_id token_id).0 same in
              let taken = try_take-Stepped t r.now ts (buckets token_id) order.0 covers in
              rw (own_limit r limits.0 same, same, e)
                (after_slot requests r.now ts buckets
                  (try_take minute (suc limit) r.now (buckets token_id)) ih taken spaced)
        ]

-- A new limiter is asked in the order of a clock that does not go back, and about one token always with
-- the same limit, between 1 and 10000. Then no window of a minute, both ends included, has more than the
-- limit of the token's accepted requests.
pub window-limit :
    (minute limit s : ℕ) (token_id : String) (requests : List Request)
    → 0 < limit
    → limit ≤ 10000
    → Ascending 0 requests
    → All (Limited limit token_id) requests
    → in_window minute s (accepted minute token_id requests (λ k. []) []) ≤ limit
window-limit minute zero s token_id requests some_limit small order limits = absurd (ground arith)
window-limit minute (suc limit) s token_id requests some_limit small order limits =
    Spaced-in_window minute (suc limit) s (accepted minute token_id requests (λ k. []) []) (
      accepted-Spaced minute limit small token_id requests 0 (λ k. []) [] order limits
        (λ c le. omega arith) tt)
