-- ===== src/AgentTokens/Revoked.antt =====
-- A revoked token stays out.
use flycanon.Prelude.{
  ℕ, ◌≡◌, refl, String, true, none, some, List, [], ◌∷◌, inl, inr, Bool-cases, Option-cases,
  if◌then◌else◌,
}
use flycanon.Prelude.Strings.{first_chars}
use flycanon.Prelude.Actions.{ok, err, Outcome-cases}
use flycanon.Table.{select, Unique}
use flycanon.RateLimit.{consume}
use flycanon.AgentTokens.{
  AgentToken, MintRequest, State, Clocks, Random, unknown_token, token_shape, by_prefix,
  insert_token, get_by_prefix, is_live_id, revoke_row, minted_row, mint, check_row, take_slot,
  admit, has_shape, verify, revoke, is_due,
}
use flycanon.AgentTokens.RoundTrip.{insert_token-some}
use flycanon.AgentTokens.Shut.{
  Shut, Shut-insert, Shut-revoke_row, Shut-mark_used, Shut-get_by_prefix, revoke_row-Shut,
}

pub data Call : Type 0 where
  mint_call : MintRequest → String → Random → ℕ → Call
  verify_call : String → String → String → String → Clocks → Call
  revoke_call : String → String → ℕ → Call

unfoldable pub step : (String → String) → ℕ → Call → State → State
step hash minute (mint_call request actor random now) s = (mint hash request actor random now s).1
step hash minute (verify_call token tenant_id workspace_id scope clocks) s =
    (verify hash minute token tenant_id workspace_id scope clocks s).1
step hash minute (revoke_call token_id tenant_id now) s = (revoke token_id tenant_id now s).1

unfoldable pub run : (String → String) → ℕ → List Call → State → State
run hash minute [] s = s
run hash minute (call ∷ calls) s = run hash minute calls (step hash minute call s)

module _ (p : String) where
  module _ (hash : String → String) where
    Shut-mint :
        (request : MintRequest) (actor : String) (random : Random) (now : ℕ) (s : State)
        → Shut p s.tokens
        → Shut p (mint hash request actor random now s).1.tokens
    unfolding mint
    Shut-mint request actor random now s h =
        elim (Option-cases (insert_token (minted_row hash request actor random now) s.tokens)) [
          | inl refused ↦ rw refused h
          | inr (tokens, inserted) ↦
              let row = minted_row hash request actor random now in
              let (e, absent) = insert_token-some row s.tokens inserted in
              rw (inserted, e) (Shut-insert p row s.tokens absent h)
        ]

    module _ (minute : ℕ) where
      Shut-admit :
          (token tenant_id workspace_id scope : String) (clocks : Clocks) (row : AgentToken)
          (s : State)
          → Shut p s.tokens
          → Shut p (admit hash minute token tenant_id workspace_id scope clocks row s).1.tokens
      unfolding admit take_slot
      Shut-admit token tenant_id workspace_id scope clocks row s h =
          elim (Outcome-cases
            (check_row hash row token tenant_id workspace_id scope clocks.checked_at)) [
              | inr (e, refused) ↦ rw refused h
              | inl (u, passed) ↦
                  rw passed
                    (elim (Bool-cases
                      (consume minute row.id row.rate_limit_rpm clocks.monotonic s.buckets).0) [
                        | inr full ↦ rw full h
                        | inl room ↦
                            rw room
                              (elim (Bool-cases (is_due minute row.last_used_at clocks.used_at)) [
                                | inl due ↦
                                    rw due
                                      (Shut-mark_used p row.id tenant_id clocks.used_at s.tokens h)
                                | inr early ↦ rw early h
                              ])
                      ])
            ]

      Shut-verify :
          (token tenant_id workspace_id scope : String) (clocks : Clocks) (s : State)
          → Shut p s.tokens
          → Shut p (verify hash minute token tenant_id workspace_id scope clocks s).1.tokens
      unfolding verify
      Shut-verify token tenant_id workspace_id scope clocks s h =
          elim (Bool-cases (has_shape token)) [
            | inr malformed ↦ rw malformed h
            | inl shaped ↦
                rw shaped
                  (elim (Option-cases (get_by_prefix (first_chars 12 token) tenant_id s.tokens)) [
                    | inl absent ↦ rw absent h
                    | inr (row, found) ↦
                        rw found (Shut-admit token tenant_id workspace_id scope clocks row s h)
                  ])
          ]

      Shut-revoke :
          (token_id tenant_id : String) (now : ℕ) (s : State)
          → Shut p s.tokens
          → Shut p (revoke token_id tenant_id now s).1.tokens
      unfolding revoke
      Shut-revoke token_id tenant_id now s h =
          let shut = Shut-revoke_row p token_id tenant_id now s.tokens h in
          elim (Bool-cases (revoke_row token_id tenant_id now s.tokens).0) [
            | inl revoked ↦ rw revoked shut
            | inr missed ↦ rw missed shut
          ]

      Shut-run :
          (calls : List Call) (s : State)
          → Shut p s.tokens
          → Shut p (run hash minute calls s).tokens
      unfolding run step
      Shut-run [] s h = h
      Shut-run (mint_call request actor random now ∷ calls) s h =
          Shut-run calls _ (Shut-mint request actor random now s h)
      Shut-run (verify_call token tenant_id workspace_id scope clocks ∷ calls) s h =
          Shut-run calls _ (Shut-verify token tenant_id workspace_id scope clocks s h)
      Shut-run (revoke_call token_id tenant_id now ∷ calls) s h =
          Shut-run calls _ (Shut-revoke token_id tenant_id now s h)

tokens-revoke :
    (token_id tenant_id : String) (now : ℕ) (s : State)
    → (revoke token_id tenant_id now s).1.tokens ≡ (revoke_row token_id tenant_id now s.tokens).1
unfolding revoke
tokens-revoke token_id tenant_id now s =
    elim (Bool-cases (revoke_row token_id tenant_id now s.tokens).0) [
      | inl revoked ↦ rw revoked refl
      | inr missed ↦ rw missed refl
    ]

revokes :
    (token_id tenant_id : String) (now : ℕ) (s : State) {row : AgentToken}
    → select (is_live_id token_id tenant_id) s.tokens ≡ some row
    → (revoke token_id tenant_id now s).0 ≡ ok true
unfolding revoke revoke_row
revokes token_id tenant_id now s hit = rw hit refl

refused :
    (hash : String → String) (minute : ℕ) (token tenant_id workspace_id scope : String)
    (clocks : Clocks) (s : State)
    → get_by_prefix (first_chars 12 token) tenant_id s.tokens ≡ none
    → (verify hash minute token tenant_id workspace_id scope clocks s).0
      ≡ err (if has_shape token then unknown_token else token_shape)
unfolding verify
refused hash minute token tenant_id workspace_id scope clocks s absent =
    elim (Bool-cases (has_shape token)) [
      | inl shaped ↦ rw (shaped, absent) refl
      | inr malformed ↦ rw malformed refl
    ]

-- A live token of the tenant was revoked, in a table in which prefixes are unique. Then no call of the
-- service, whoever makes it, lets a token with its prefix in again, for any tenant, at any time.
pub revoked-stays :
    (hash : String → String) (minute : ℕ) (token_id tenant_id : String) (now : ℕ)
    (calls : List Call) (s : State) (row : AgentToken)
    (token tenant_id' workspace_id scope : String) (clocks : Clocks)
    → Unique by_prefix s.tokens
    → select (is_live_id token_id tenant_id) s.tokens ≡ some row
    → first_chars 12 token ≡ row.prefix
    → ((revoke token_id tenant_id now s).0 ≡ ok true)
      × ((verify hash minute token tenant_id' workspace_id scope clocks
            (run hash minute calls (revoke token_id tenant_id now s).1)).0
          ≡ err (if has_shape token then unknown_token else token_shape))
revoked-stays hash minute token_id tenant_id now calls s row token tenant_id' workspace_id scope
      clocks unique hit same =
    let s1 = (revoke token_id tenant_id now s).1 in
    let shut : Shut row.prefix s1.tokens =
      rw (tokens-revoke token_id tenant_id now s)
        (revoke_row-Shut token_id tenant_id now s.tokens unique hit) in
    let s2 = run hash minute calls s1 in
    let absent : get_by_prefix (first_chars 12 token) tenant_id' s2.tokens ≡ none = rw same (
      Shut-get_by_prefix row.prefix tenant_id' s2.tokens
        (Shut-run row.prefix hash minute calls s1 shut).1) in
    (
      revokes token_id tenant_id now s hit,
      refused hash minute token tenant_id' workspace_id scope clocks s2 absent,
    )
