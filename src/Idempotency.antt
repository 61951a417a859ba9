-- ===== src/Idempotency.antt =====
-- web/conventions/idempotency.py: `IdempotencyKey` and `InMemoryIdempotencyStore`. A dict is the list of its
-- entries in the order of insertion; a JSON body is of any type.
pub mod Replay
pub mod Tests
use Prim.Native.Char.{Char, code}
use Prim.Native.String.{[] as empty_text, ◌∷◌ as ◌∷ᶜ◌, count}
use flycanon.Prelude.{
  ℕ, ◌+◌, ◌*◌, ◌==◌, ◌&&◌, ◌||◌, not, String, str_eq, Bool, true, false, Option, none, some, List,
  [], ◌∷◌, length, ltb, leb, if◌then◌else◌,
}
use flycanon.Prelude.Actions.{
  Outcome, ok, err, Action, ◌>>=◌, ◌>>◌, and_then, return, raise, gets, modify,
}

-- DEFAULT_IDEMPOTENCY_TTL, in microseconds
abbrev pub ttl : ℕ
ttl = 86400000000

abbrev between : ℕ → ℕ → ℕ → Bool
between low c high = leb low c && leb c high

-- [A-Za-z0-9_\-]
abbrev pub is_key_char : Char → Bool
is_key_char c =
    between 65 (code c) 90
    || (between 97 (code c) 122 || (between 48 (code c) 57 || (code c == 95 || code c == 45)))

abbrev pub all_chars : (Char → Bool) → String → Bool
all_chars p empty_text = true
all_chars p (c ∷ᶜ s) = p c && all_chars p s

-- _KEY_RE.fullmatch
unfoldable pub is_key : String → Bool
is_key s = all_chars is_key_char s && between 1 (count s) 128

pub data IdempotencyError : Type 0 where
  invalid_key : String → IdempotencyError
  stop_iteration : IdempotencyError

pub record StoredResponse (B : Type 0) : Type 0 where
  pub status : ℕ
  pub body : B

pub record IdempotencyEntry (B : Type 0) : Type 0 where
  pub tenant_id : String
  pub workspace_id : String
  pub route : String
  pub key : String
  pub response_hash : String
  pub job_id : Option String
  pub expires_at : ℕ
  pub response_status : Option ℕ
  pub response_json : Option B

-- Each entry stands under the key that its own columns make.
pub record InMemoryIdempotencyStore (B : Type 0) : Type 0 where
  pub max_entries : ℕ
  pub entries : List (IdempotencyEntry B)
  pub replays : List (IdempotencyEntry B)

abbrev capped : {A : Type 0} → Option A → Outcome IdempotencyError A
capped none = err stop_iteration
capped (some es) = ok es

module _ {B : Type 0} where
  abbrev pub is_replay : String → String → String → (IdempotencyEntry B) → Bool
  is_replay tenant_id route key e =
      str_eq e.tenant_id tenant_id && (str_eq e.route route && str_eq e.key key)

  abbrev pub is_entry : String → String → String → String → (IdempotencyEntry B) → Bool
  is_entry tenant_id workspace_id route key e =
      is_replay tenant_id route key e && str_eq e.workspace_id workspace_id

  -- dict.get
  unfoldable pub lookup_entry :
      ((IdempotencyEntry B) → Bool) → List (IdempotencyEntry B) → Option (IdempotencyEntry B)
  lookup_entry p [] = none
  lookup_entry p (e ∷ es) = let rest = lookup_entry p es in if p e then some e else rest

  -- d[k] = entry: a key that is there keeps its place.
  unfoldable pub assign :
      ((IdempotencyEntry B) → Bool)
      → (IdempotencyEntry B)
      → List (IdempotencyEntry B)
      → List (IdempotencyEntry B)
  assign p entry [] = entry ∷ []
  assign p entry (e ∷ es) = let rest = assign p entry es in if p e then entry ∷ es else e ∷ rest

  -- while len(d) >= max_entries: pop the oldest; none where there is none to pop.
  unfoldable pub enforce_cap : ℕ → List (IdempotencyEntry B) → Option (List (IdempotencyEntry B))
  enforce_cap max_entries [] = if leb max_entries 0 then none else some []
  enforce_cap max_entries (e ∷ es) =
      let rest = enforce_cap max_entries es in
      if leb max_entries (length (e ∷ es)) then rest else some (e ∷ es)

  abbrev pub unexpired : ℕ → Option (IdempotencyEntry B) → Option (IdempotencyEntry B)
  unexpired now none = none
  unexpired now (some e) = if leb e.expires_at now then none else some e

  unfoldable pub get :
      String
      → String
      → String
      → String
      → ℕ
      → (InMemoryIdempotencyStore B)
      → Option (IdempotencyEntry B)
  get tenant_id workspace_id route key now store =
      unexpired now (lookup_entry (is_entry tenant_id workspace_id route key) store.entries)

  unfoldable pub put :
      (IdempotencyEntry B) → Action IdempotencyError (InMemoryIdempotencyStore B) (Unit {0})
  put entry = do
    es ← (λ store. (capped (enforce_cap store.max_entries store.entries), store))
    modify (λ store. record store {
      entries = assign (is_entry entry.tenant_id entry.workspace_id entry.route entry.key) entry es;
    })

  abbrev recorded : Option ℕ → Option B → Option (StoredResponse B)
  recorded (some status) (some body) = some (record { status = status; body = body })
  recorded none body = none
  recorded (some status) none = none

  abbrev response_of : Option (IdempotencyEntry B) → Option (StoredResponse B)
  response_of none = none
  response_of (some e) = recorded e.response_status e.response_json

  unfoldable pub lookup :
      String → String → String → ℕ → (InMemoryIdempotencyStore B) → Option (StoredResponse B)
  lookup tenant_id route key now store =
      if str_eq key ""
      then none
      else response_of (unexpired now (lookup_entry (is_replay tenant_id route key) store.replays))

  abbrev pub replay_entry : String → String → String → ℕ → B → ℕ → (IdempotencyEntry B)
  replay_entry tenant_id route key status json_body now = record {
    tenant_id = tenant_id;
    workspace_id = "";
    route = route;
    key = key;
    response_hash = "";
    job_id = none;
    expires_at = now + ttl;
    response_status = some status;
    response_json = some json_body;
  }

  -- Behind the test for an empty key.
  unfoldable pub record_key :
      String
      → String
      → String
      → ℕ
      → B
      → ℕ
      → Action IdempotencyError (InMemoryIdempotencyStore B) (Unit {0})
  record_key tenant_id route key status json_body now = do
    (λ store. (if is_key key then ok tt else err (invalid_key key), store))
    es ← (λ store. (capped (enforce_cap store.max_entries store.replays), store))
    modify (λ store. record store {
      replays =
          assign (is_replay tenant_id route key)
            (replay_entry tenant_id route key status json_body now) es;
    })

  unfoldable pub record_response :
      String
      → String
      → String
      → ℕ
      → B
      → ℕ
      → Action IdempotencyError (InMemoryIdempotencyStore B) (Unit {0})
  unfolding record_key
  record_response tenant_id route key status json_body now =
      if str_eq key "" then return tt else record_key tenant_id route key status json_body now
