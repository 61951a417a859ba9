-- ===== src/AgentTokens/Tests.antt =====
-- A token of a tenant, and the theorems at it; times are in seconds.
use Prim.Native.String.{◌++◌}
use flycanon.Prelude.{◌≡◌, refl, String, true, none, some, List, [], ◌∷◌, if◌then◌else◌}
use flycanon.Prelude.Actions.{ok, err}
use flycanon.Table.{select}
use flycanon.RateLimit.{consume, try_take, prune, append}
use flycanon.AgentTokens.{
  AgentToken, MintRequest, MintedAgentToken, VerifiedAgentToken, State, Clocks, Random,
  unknown_token, scope_denied, insert_token, get_by_prefix, minted_row, mint, check_row, has_shape,
  take_slot, admit, verify, revoke, token_shape,
}
use flycanon.AgentTokens.Access.{Admitted, verify-Admitted}
use flycanon.AgentTokens.RoundTrip.{mint-verify}
use flycanon.AgentTokens.Revoked.{Call, mint_call, verify_call, run, revoked-stays}

abbrev hash : String → String
hash s = "h" ++ s

abbrev request : MintRequest
request = record {
  tenant_id = "acme";
  name = "bot";
  workspace_allowlist = some ("w1" ∷ "w2" ∷ []);
  scopes = "query" ∷ [];
  rate_limit_rpm = some 5;
  expires_at = some 1000;
}

abbrev random : Random
random = record { prefix_part = "0a1b2c3d"; secret_part = "00ff"; token_id = "t1" }

abbrev empty : State
empty = record { tokens = []; buckets = λ k. [] }

abbrev minted : MintedAgentToken
minted = record { id = "t1"; prefix = "agt_0a1b2c3d"; token = "agt_0a1b2c3d_00ff" }

abbrev clocks : Clocks
clocks = record { checked_at = 10; monotonic = 4; used_at = 11 }

abbrev row : AgentToken
row = record {
  id = "t1";
  tenant_id = "acme";
  name = "bot";
  prefix = "agt_0a1b2c3d";
  secret_hash = "hagt_0a1b2c3d_00ff";
  workspace_allowlist_json = some ("w1" ∷ "w2" ∷ []);
  scopes_json = "query" ∷ [];
  rate_limit_rpm = some 5;
  expires_at = some 1000;
  created_at = 1;
  created_by = "op";
  revoked_at = none;
  last_used_at = none;
}

abbrev with_token : State
with_token = record { tokens = row ∷ []; buckets = λ k. [] }

abbrev verdict : VerifiedAgentToken
verdict = record { token_id = "t1"; actor = "agent:agt_0a1b2c3d"; prefix = "agt_0a1b2c3d" }

mint_works : (mint hash request "op" random 1 empty).0 ≡ ok minted
unfolding mint minted_row insert_token select
mint_works = refl

verify_works :
    (verify hash 60 "agt_0a1b2c3d_00ff" "acme" "w1" "query" clocks with_token).0 ≡ ok verdict
unfolding verify admit has_shape get_by_prefix select check_row take_slot consume try_take prune
    append
verify_works = refl

other_scope :
    (verify hash 60 "agt_0a1b2c3d_00ff" "acme" "w1" "admin" clocks with_token).0 ≡ err scope_denied
unfolding verify admit has_shape get_by_prefix select check_row take_slot consume try_take prune
    append
other_scope = refl

has_room : (consume 60 "t1" (some 5) 4 (λ k. [])).0 ≡ true
unfolding consume try_take prune append
has_room = refl

mint-verify_example :
    (verify hash 60 "agt_0a1b2c3d_00ff" "acme" "w1" "query" clocks
      (mint hash request "op" random 1 empty).1).0
    ≡ ok verdict
unfolding mint insert_token select
mint-verify_example =
    mint-verify hash 60 request "op" random 1 empty (mint hash request "op" random 1 empty).1 minted
      "w1" "query" clocks refl mint_works refl refl refl refl has_room

verify-Admitted_example :
    Admitted hash 60 "agt_0a1b2c3d_00ff" "acme" "w1" "query" clocks with_token verdict
verify-Admitted_example =
    verify-Admitted hash 60 "agt_0a1b2c3d_00ff" "acme" "w1" "query" clocks with_token verdict
      verify_works

abbrev calls : List Call
calls =
    mint_call request "op"
      (record { prefix_part = "11112222"; secret_part = "ab"; token_id = "t2" }) 30
    ∷ verify_call "agt_11112222_ab" "acme" "w1" "query" clocks
    ∷ []

revoked-stays_example :
    ((revoke "t1" "acme" 20 with_token).0 ≡ ok true)
    × ((verify hash 60 "agt_0a1b2c3d_00ff" "acme" "w1" "query" clocks
          (run hash 60 calls (revoke "t1" "acme" 20 with_token).1)).0
        ≡ err (if has_shape "agt_0a1b2c3d_00ff" then unknown_token else token_shape))
unfolding select
revoked-stays_example =
    revoked-stays hash 60 "t1" "acme" 20 calls with_token row "agt_0a1b2c3d_00ff" "acme" "w1"
      "query" clocks (tt, tt) refl refl
