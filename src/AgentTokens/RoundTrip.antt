-- ===== src/AgentTokens/RoundTrip.antt =====
-- A minted token is verified.
use text.Mathlib.Text.{starts_with}
use text.Mathlib.TextLemmas.{length-append as count-append, append_assoc as string_assoc}
use text.Mathlib.TextPositions.{starts_with-append}
use Prim.Native.String.{◌++◌, count}
use flycanon.Prelude.{
  ℕ, ◌≡◌, refl, ap, sym, ◌∙◌, String, str_eq, eq_refl, true, false, ◌||◌, none, some, List, inl,
  inr, arith, Option-cases, ltb,
}
use flycanon.Prelude.Strings.{first_chars, first_chars-append}
use flycanon.Prelude.Actions.{ok, err, ok_injective, err_ok}
use flycanon.Table.{find, insert, select-insert_new, select_narrower}
use flycanon.RateLimit.{consume}
use flycanon.AgentTokens.{
  AgentToken, MintRequest, MintedAgentToken, State, Clocks, Random, by_prefix, insert_token,
  integrity_error, get_by_prefix, is_live_prefix, contains, is_allowed, has_expired, minted_row,
  mint, has_shape, verify, prefix_of, token_of,
}
use flycanon.AgentTokens.Access.{verify_found, admit_ok, check_row-ok}

count-prefix_of : (random : Random) → count random.prefix_part ≡ 8 → count (prefix_of random) ≡ 12
count-prefix_of random h = rw (count-append "agt_" random.prefix_part, h) refl

first_chars-token_of :
    (random : Random)
    → count random.prefix_part ≡ 8
    → first_chars 12 (token_of random) ≡ prefix_of random
first_chars-token_of random h =
    rw (← count-prefix_of random h)
      (first_chars-append (prefix_of random) ("_" ++ random.secret_part))

has_shape-token_of :
    (random : Random) → count random.prefix_part ≡ 8 → has_shape (token_of random) ≡ true
unfolding has_shape
has_shape-token_of random h =
    let rest = "_" ++ random.secret_part in
    let starts : starts_with (token_of random) "agt_" ≡ true =
      rw (string_assoc "agt_" random.prefix_part rest)
        (starts_with-append "agt_" (random.prefix_part ++ rest)) in
    let long : ltb (count (token_of random)) 12 ≡ false =
      ground (arith, count-append (prefix_of random) rest, count-prefix_of random h) in
    rw (starts, long) refl

pub insert_token-some :
    (row : AgentToken) (tokens : List AgentToken) {tokens' : List AgentToken}
    → insert_token row tokens ≡ some tokens'
    → (tokens' ≡ insert row tokens) × (find by_prefix row.prefix tokens ≡ none)
unfolding insert_token
insert_token-some row tokens h =
    (ground arith, ground (arith, Option-cases (find by_prefix row.prefix tokens)))

module _ (hash : String → String) (request : MintRequest) (actor : String) (random : Random)
    (now : ℕ) (s : State) where
  abbrev row : AgentToken
  row = minted_row hash request actor random now

  abbrev minted : MintedAgentToken
  minted = record { id = random.token_id; prefix = prefix_of random; token = token_of random }

  mint_stored :
      {tokens : List AgentToken}
      → insert_token row s.tokens ≡ some tokens
      → mint hash request actor random now s ≡ (ok minted, record s { tokens = tokens })
  unfolding mint
  mint_stored inserted = rw inserted refl

  mint_refused :
      insert_token row s.tokens ≡ none
      → mint hash request actor random now s ≡ (err integrity_error, s)
  unfolding mint
  mint_refused refused = rw refused refl

  found :
      find by_prefix row.prefix s.tokens ≡ none
      → get_by_prefix (prefix_of random) request.tenant_id (insert row s.tokens) ≡ some row
  unfolding get_by_prefix minted_row
  found absent =
      select-insert_new (is_live_prefix (prefix_of random) request.tenant_id) row s.tokens
        (select_narrower (λ r. str_eq r.prefix (prefix_of random))
          (is_live_prefix (prefix_of random) request.tenant_id) s.tokens
          (λ r hit. ground (arith, hit)) absent)
        (rw (eq_refl (prefix_of random), eq_refl request.tenant_id) refl)

  -- The row of a token that was minted is found by its prefix.
  get_by_prefix-mint :
      {m : MintedAgentToken}
      → (mint hash request actor random now s).0 ≡ ok m
      → (m ≡ minted)
        × (get_by_prefix
              (prefix_of random)
              request.tenant_id
              (mint hash request actor random now s).1.tokens
            ≡ some row)
  get_by_prefix-mint h = elim (Option-cases (insert_token row s.tokens)) [
    | inl refused ↦ absurd (err_ok (sym (ap (λ x. x.0) (mint_refused refused)) ∙ h))
    | inr (tokens, inserted) ↦
        let stored = mint_stored inserted in
        let (e, absent) = insert_token-some row s.tokens inserted in
        (
          ok_injective (sym h ∙ ap (λ x. x.0) stored),
          ap (λ x. get_by_prefix (prefix_of random) request.tenant_id x.1.tokens) stored
              ∙ ap (get_by_prefix (prefix_of random) request.tenant_id) e
              ∙ found absent,
        )
  ]

-- A mint succeeded with a prefix part of eight characters. Then, in any state in which its tenant's
-- live token of that prefix is the one that the mint left, the token is verified for its tenant in
-- every workspace and scope that was asked for, if it has not expired and the limiter takes the
-- request; the reply names the token's id and prefix.
pub mint-verify :
    (hash : String → String) (minute : ℕ) (request : MintRequest) (actor : String) (random : Random)
    (now : ℕ) (s later : State) (m : MintedAgentToken) (workspace_id scope : String)
    (clocks : Clocks)
    → count random.prefix_part ≡ 8
    → (mint hash request actor random now s).0 ≡ ok m
    → get_by_prefix m.prefix request.tenant_id later.tokens
      ≡ get_by_prefix m.prefix request.tenant_id (mint hash request actor random now s).1.tokens
    → has_expired request.expires_at clocks.checked_at ≡ false
    → is_allowed request.workspace_allowlist workspace_id ≡ true
    → (contains "*" request.scopes || contains scope request.scopes) ≡ true
    → (consume minute random.token_id request.rate_limit_rpm clocks.monotonic later.buckets).0
      ≡ true
    → (verify hash minute m.token request.tenant_id workspace_id scope clocks later).0
      ≡ ok (record { token_id = m.id; actor = "agent:" ++ m.prefix; prefix = m.prefix })
unfolding minted_row
mint-verify hash minute request actor random now s later m workspace_id scope clocks eight minted_
      same fresh allowed granted room =
    let (e, found) = get_by_prefix-mint hash request actor random now s minted_ in
    let token = token_of random in
    let first = first_chars-token_of random eight in
    let there : get_by_prefix (prefix_of random) request.tenant_id later.tokens
        ≡ get_by_prefix (prefix_of random) request.tenant_id
            (mint hash request actor random now s).1.tokens =
      rw (e) at same in
    let found' : get_by_prefix (first_chars 12 token) request.tenant_id later.tokens
        ≡ some (minted_row hash request actor random now) =
      rw first (there ∙ found) in
    rw e (
      ap (λ x. x.0)
        (verify_found hash minute token request.tenant_id workspace_id scope clocks later
          (has_shape-token_of random eight) found')
      ∙ admit_ok hash minute token request.tenant_id workspace_id scope clocks
          (minted_row hash request actor random now) later
          (check_row-ok hash (minted_row hash request actor random now) token request.tenant_id
            workspace_id scope clocks.checked_at (refl, refl, fresh, allowed, granted))
          room
      ∙ ap (λ p. ok (record { token_id = random.token_id; actor = "agent:" ++ p; prefix = p }))
          first)
