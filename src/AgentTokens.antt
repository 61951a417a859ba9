-- ===== src/AgentTokens.antt =====
-- models/entities/agent_token.py, models/repositories/agent_token_repository.py, and `AgentTokenService` of
-- core/services/auth/agent_token_service.py with the limiter of the module RateLimit. The random parts of
-- a token, the clocks and SHA-256 are arguments; all times count the same ticks, `minute` of them to 60 s.
pub mod Access
pub mod RoundTrip
pub mod Shut
pub mod Revoked
pub mod Tests
use Prim.Native.String.{◌++◌, count}
use text.Mathlib.Text.{starts_with}
use flycanon.Prelude.{
  ℕ, ◌+◌, ◌&&◌, ◌||◌, not, String, str_eq, Bool, true, false, Option, none, some, List, [], ◌∷◌,
  ltb, leb, is_some, if◌then◌else◌,
}
use flycanon.Prelude.Strings.{first_chars}
use flycanon.Prelude.Actions.{
  Outcome, ok, err, Action, ◌>>=◌, ◌>>◌, and_then, return, raise, gets, modify,
}
use flycanon.Table.{select, update_where, insert, find}
use flycanon.RateLimit.{Buckets, consume, drop}

pub record AgentToken : Type 0 where
  pub id : String
  pub tenant_id : String
  pub name : String
  pub prefix : String
  pub secret_hash : String
  pub workspace_allowlist_json : Option (List String)
  pub scopes_json : List String
  pub rate_limit_rpm : Option ℕ
  pub expires_at : Option ℕ
  pub created_at : ℕ
  pub created_by : String
  pub revoked_at : Option ℕ
  pub last_used_at : Option ℕ

pub record MintRequest : Type 0 where
  pub tenant_id : String
  pub name : String
  pub workspace_allowlist : Option (List String)
  pub scopes : List String
  pub rate_limit_rpm : Option ℕ
  pub expires_at : Option ℕ

pub record MintedAgentToken : Type 0 where
  pub id : String
  pub prefix : String
  pub token : String

pub record VerifiedAgentToken : Type 0 where
  pub token_id : String
  pub actor : String
  pub prefix : String

pub data TokenError : Type 0 where
  token_shape : TokenError
  unknown_token : TokenError
  tenant_mismatch : TokenError
  signature_mismatch : TokenError
  token_expired : TokenError
  workspace_not_allowed : TokenError
  scope_denied : TokenError
  rate_limit_exceeded : TokenError
  integrity_error : TokenError

pub record State : Type 0 where
  pub tokens : List AgentToken
  pub buckets : Buckets

abbrev pub by_id : AgentToken → String
by_id r = r.id

abbrev pub by_prefix : AgentToken → String
by_prefix r = r.prefix

-- The primary key, and the unique index on the prefix.
unfoldable pub insert_token : AgentToken → List AgentToken → Option (List AgentToken)
insert_token row tokens =
    if is_some (find by_id row.id tokens) || is_some (find by_prefix row.prefix tokens)
    then none
    else some (insert row tokens)

abbrev pub is_live_prefix : String → String → AgentToken → Bool
is_live_prefix prefix tenant_id r =
    str_eq r.prefix prefix && (str_eq r.tenant_id tenant_id && not (is_some r.revoked_at))

unfoldable pub get_by_prefix : String → String → List AgentToken → Option AgentToken
get_by_prefix prefix tenant_id tokens = select (is_live_prefix prefix tenant_id) tokens

abbrev pub is_live_id : String → String → AgentToken → Bool
is_live_id token_id tenant_id r =
    str_eq r.id token_id && (str_eq r.tenant_id tenant_id && not (is_some r.revoked_at))

-- Whether the UPDATE found a row, and what it leaves.
unfoldable pub revoke_row : String → String → ℕ → List AgentToken → Bool × List AgentToken
revoke_row token_id tenant_id at_ tokens = (
  is_some (select (is_live_id token_id tenant_id) tokens),
  update_where (is_live_id token_id tenant_id) (λ r. record r { revoked_at = some at_ }) tokens,
)

unfoldable pub mark_used : String → String → ℕ → List AgentToken → List AgentToken
mark_used token_id tenant_id at_ tokens =
    update_where (λ r. str_eq r.id token_id && str_eq r.tenant_id tenant_id)
      (λ r. record r { last_used_at = some at_ }) tokens

-- x in xs
abbrev pub contains : String → List String → Bool
contains x [] = false
contains x (y ∷ ys) = str_eq x y || contains x ys

abbrev pub is_allowed : Option (List String) → String → Bool
is_allowed none workspace_id = true
is_allowed (some allowlist) workspace_id = contains workspace_id allowlist

abbrev pub has_expired : Option ℕ → ℕ → Bool
has_expired none now = false
has_expired (some expires) now = leb expires now

abbrev pub is_due : ℕ → Option ℕ → ℕ → Bool
is_due minute none now = true
is_due minute (some last_used) now = ltb (last_used + minute) now

-- The three readings of a clock in `verify`.
pub record Clocks : Type 0 where
  pub checked_at : ℕ
  pub monotonic : ℕ
  pub used_at : ℕ

-- secrets.token_hex(4), secrets.token_hex(16) and uuid4().hex
pub record Random : Type 0 where
  pub prefix_part : String
  pub secret_part : String
  pub token_id : String

abbrev pub prefix_of : Random → String
prefix_of random = "agt_" ++ random.prefix_part

abbrev pub token_of : Random → String
token_of random = prefix_of random ++ ("_" ++ random.secret_part)

abbrev row_or_unknown : Option AgentToken → Outcome TokenError AgentToken
row_or_unknown none = err unknown_token
row_or_unknown (some row) = ok row

-- not token.startswith("agt_") or len(token) < 12
unfoldable pub has_shape : String → Bool
has_shape token = starts_with token "agt_" && not (ltb (count token) 12)

unfoldable pub take_slot : ℕ → AgentToken → ℕ → Action TokenError State (Unit {0})
take_slot minute row now s =
    let (taken, buckets) = consume minute row.id row.rate_limit_rpm now s.buckets in
    (if taken then ok tt else err rate_limit_exceeded, record s { buckets = buckets })

abbrev touched : ℕ → AgentToken → String → ℕ → State → State
touched minute row tenant_id now s =
    if is_due minute row.last_used_at now
    then record s { tokens = mark_used row.id tenant_id now s.tokens }
    else s

unfoldable pub revoke : String → String → ℕ → Action TokenError State Bool
revoke token_id tenant_id now s =
    let (revoked, tokens) = revoke_row token_id tenant_id now s.tokens in
    (
      ok revoked,
      if revoked
          then record { tokens = tokens; buckets = drop token_id s.buckets }
          else record s { tokens = tokens },
    )

module _ (hash : String → String) where
  unfoldable pub minted_row : MintRequest → String → Random → ℕ → AgentToken
  minted_row request actor random now = record {
    id = random.token_id;
    tenant_id = request.tenant_id;
    name = request.name;
    prefix = prefix_of random;
    secret_hash = hash (token_of random);
    workspace_allowlist_json = request.workspace_allowlist;
    scopes_json = request.scopes;
    rate_limit_rpm = request.rate_limit_rpm;
    expires_at = request.expires_at;
    created_at = now;
    created_by = actor;
    revoked_at = none;
    last_used_at = none;
  }

  stored : Option (List AgentToken) → Action TokenError State (Unit {0})
  stored none = raise integrity_error
  stored (some tokens) = modify (λ s. record s { tokens = tokens })

  unfoldable pub mint : MintRequest → String → Random → ℕ → Action TokenError State MintedAgentToken
  unfolding stored
  mint request actor random now = do
    tokens ← gets (λ s. insert_token (minted_row request actor random now) s.tokens)
    stored tokens
    return (record { id = random.token_id; prefix = prefix_of random; token = token_of random })

  -- The checks on the row that was found, in their order.
  unfoldable pub check_row :
      AgentToken → String → String → String → String → ℕ → Outcome TokenError (Unit {0})
  check_row row token tenant_id workspace_id scope now =
      if not (str_eq row.tenant_id tenant_id)
      then err tenant_mismatch
      else if not (str_eq row.secret_hash (hash token))
      then err signature_mismatch
      else if has_expired row.expires_at now
      then err token_expired
      else if not (is_allowed row.workspace_allowlist_json workspace_id)
      then err workspace_not_allowed
      else if not (contains "*" row.scopes_json || contains scope row.scopes_json)
      then err scope_denied
      else ok tt

  -- `verify` from the row that was found on.
  unfoldable pub admit :
      ℕ
      → String
      → String
      → String
      → String
      → Clocks
      → AgentToken
      → Action TokenError State VerifiedAgentToken
  unfolding take_slot
  admit minute token tenant_id workspace_id scope clocks row = do
    (λ s. (check_row row token tenant_id workspace_id scope clocks.checked_at, s))
    take_slot minute row clocks.monotonic
    modify (touched minute row tenant_id clocks.used_at)
    return (record {
      token_id = row.id;
      actor = "agent:" ++ first_chars 12 token;
      prefix = first_chars 12 token;
    })

  unfoldable pub verify :
      ℕ → String → String → String → String → Clocks → Action TokenError State VerifiedAgentToken
  unfolding admit
  verify minute token tenant_id workspace_id scope clocks = do
    (λ s. (if has_shape token then ok tt else err token_shape, s))
    found ← gets (λ s. get_by_prefix (first_chars 12 token) tenant_id s.tokens)
    row ← (λ s. (row_or_unknown found, s))
    admit minute token tenant_id workspace_id scope clocks row
