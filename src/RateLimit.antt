-- ===== src/RateLimit.antt =====
-- core/services/auth/agent_token_service.py: `_TokenBucket` and `_RateLimiter`. Times are ticks of the
-- monotonic clock, `minute` the ticks of 60 seconds. The buckets are a function, in which a token
-- without a bucket has an empty one.
pub mod Window
pub mod Tests
use flycanon.Prelude.{
  ℕ, zero, suc, ◌+◌, String, str_eq, Bool, true, false, Option, none, some, List, [], ◌∷◌, ◌++◌,
  length, ltb, leb, if◌then◌else◌,
}

-- deque(maxlen=10000): an append to a full deque drops the first entry.
abbrev pub maxlen : ℕ
maxlen = 10000

unfoldable pub append : ℕ → List ℕ → List ℕ
append now [] = now ∷ []
append now (t ∷ timestamps) =
    if leb maxlen (length (t ∷ timestamps))
    then timestamps ++ now ∷ []
    else t ∷ timestamps ++ now ∷ []

-- while timestamps and timestamps[0] < cutoff: popleft()
unfoldable pub prune : ℕ → ℕ → List ℕ → List ℕ
prune minute now [] = []
prune minute now (t ∷ timestamps) =
    let rest = prune minute now timestamps in if ltb (t + minute) now then rest else t ∷ timestamps

abbrev take_slot : ℕ → ℕ → List ℕ → Bool × List ℕ
take_slot limit now timestamps =
    if leb limit (length timestamps) then (false, timestamps) else (true, append now timestamps)

unfoldable pub try_take : ℕ → ℕ → ℕ → List ℕ → Bool × List ℕ
try_take minute limit now timestamps = take_slot limit now (prune minute now timestamps)

abbrev pub Buckets : Type 0
Buckets = String → List ℕ

abbrev pub update : String → List ℕ → Buckets → Buckets
update token_id timestamps buckets k = if str_eq token_id k then timestamps else buckets k

unfoldable pub consume : ℕ → String → Option ℕ → ℕ → Buckets → Bool × Buckets
consume minute token_id none now buckets = (true, buckets)
consume minute token_id (some zero) now buckets = (true, buckets)
consume minute token_id (some (suc n)) now buckets =
    let (taken, timestamps) = try_take minute (suc n) now (buckets token_id) in
    (taken, update token_id timestamps buckets)

unfoldable pub drop : String → Buckets → Buckets
drop token_id buckets = update token_id [] buckets

-- The requests that the limiter is asked about, in the order in which they take its lock.
pub record Request : Type 0 where
  pub token_id : String
  pub limit_per_minute : Option ℕ
  pub now : ℕ

-- The times of the requests of a token that were accepted, the latest first.
unfoldable pub accepted : ℕ → String → List Request → Buckets → List ℕ → List ℕ
accepted minute token_id [] buckets before = before
accepted minute token_id (r ∷ requests) buckets before =
    let (taken, buckets') = consume minute r.token_id r.limit_per_minute r.now buckets in
    accepted minute token_id requests buckets'
      (if str_eq r.token_id token_id then (if taken then r.now ∷ before else before) else before)
