-- ===== src/AgentTokens/Access.antt =====
-- Who gets in: what a token that is verified has, and that a minted token is verified.
use Prim.Native.String.{◌++◌}
use flycanon.Prelude.{
  ℕ, ◌≡◌, refl, ap, sym, ◌∙◌, String, eq_iff, true, false, ◌||◌, Option, none, some, is_some, inl,
  inr, arith, Bool-cases, Option-cases,
}
use flycanon.Prelude.Strings.{first_chars}
use flycanon.Prelude.Actions.{ok, err, ok_injective, err_ok, Outcome-cases}
use flycanon.Table.{select_sound}
use flycanon.RateLimit.{consume}
use flycanon.AgentTokens.{
  AgentToken, VerifiedAgentToken, TokenError, State, Clocks, get_by_prefix, is_live_prefix,
  contains, is_allowed, has_expired, check_row, has_shape, take_slot, verify, admit, token_shape,
  unknown_token, rate_limit_exceeded,
}

-- What the checks ask of a row.
abbrev pub Admits : (String → String) → AgentToken → String → String → String → String → ℕ → Type 0
Admits hash row token tenant_id workspace_id scope now =
    (row.tenant_id ≡ tenant_id)
    × (row.secret_hash ≡ hash token)
    × (has_expired row.expires_at now ≡ false)
    × (is_allowed row.workspace_allowlist_json workspace_id ≡ true)
    × ((contains "*" row.scopes_json || contains scope row.scopes_json) ≡ true)

check_row-Admits :
    (hash : String → String) (row : AgentToken) (token tenant_id workspace_id scope : String)
    (now : ℕ)
    → check_row hash row token tenant_id workspace_id scope now ≡ ok tt
    → Admits hash row token tenant_id workspace_id scope now
unfolding check_row
check_row-Admits hash row token tenant_id workspace_id scope now h = (
  ground (arith, h, eq_iff row.tenant_id tenant_id),
  ground (arith, h, eq_iff row.secret_hash (hash token)),
  ground (arith, h),
  ground (arith, h),
  ground (arith, h),
)

pub check_row-ok :
    (hash : String → String) (row : AgentToken) (token tenant_id workspace_id scope : String)
    (now : ℕ)
    → Admits hash row token tenant_id workspace_id scope now
    → check_row hash row token tenant_id workspace_id scope now ≡ ok tt
unfolding check_row
check_row-ok hash row token tenant_id workspace_id scope now
      (own, signed, fresh, allowed, granted) =
    ground (
      arith,
      eq_iff row.tenant_id tenant_id,
      eq_iff row.secret_hash (hash token),
      fresh,
      allowed,
      granted,
    )

module _ (hash : String → String) (minute : ℕ) (token tenant_id workspace_id scope : String)
    (clocks : Clocks) where
  -- Each of the three parts of a call, on each way it can go.
  pub verify_found :
      (s : State) {row : AgentToken}
      → has_shape token ≡ true
      → get_by_prefix (first_chars 12 token) tenant_id s.tokens ≡ some row
      → verify hash minute token tenant_id workspace_id scope clocks s
        ≡ admit hash minute token tenant_id workspace_id scope clocks row s
  unfolding verify
  verify_found s shape found = rw (shape, found) refl

  pub verify_malformed :
      (s : State)
      → has_shape token ≡ false
      → verify hash minute token tenant_id workspace_id scope clocks s ≡ (err token_shape, s)
  unfolding verify
  verify_malformed s shape = rw shape refl

  pub verify_unknown :
      (s : State)
      → has_shape token ≡ true
      → get_by_prefix (first_chars 12 token) tenant_id s.tokens ≡ none
      → verify hash minute token tenant_id workspace_id scope clocks s ≡ (err unknown_token, s)
  unfolding verify
  verify_unknown s shape absent = rw (shape, absent) refl

  abbrev pub verdict : AgentToken → VerifiedAgentToken
  verdict row = record {
    token_id = row.id;
    actor = "agent:" ++ first_chars 12 token;
    prefix = first_chars 12 token;
  }

  pub admit_refused :
      (row : AgentToken) (s : State) {e : TokenError}
      → check_row hash row token tenant_id workspace_id scope clocks.checked_at ≡ err e
      → admit hash minute token tenant_id workspace_id scope clocks row s ≡ (err e, s)
  unfolding admit
  admit_refused row s refused = rw refused refl

  admit_limited :
      (row : AgentToken) (s : State)
      → check_row hash row token tenant_id workspace_id scope clocks.checked_at ≡ ok tt
      → (consume minute row.id row.rate_limit_rpm clocks.monotonic s.buckets).0 ≡ false
      → (admit hash minute token tenant_id workspace_id scope clocks row s).0
        ≡ err rate_limit_exceeded
  unfolding admit take_slot
  admit_limited row s passed full = rw (passed, full) refl

  pub admit_ok :
      (row : AgentToken) (s : State)
      → check_row hash row token tenant_id workspace_id scope clocks.checked_at ≡ ok tt
      → (consume minute row.id row.rate_limit_rpm clocks.monotonic s.buckets).0 ≡ true
      → (admit hash minute token tenant_id workspace_id scope clocks row s).0 ≡ ok (verdict row)
  unfolding admit take_slot
  admit_ok row s passed room = rw (passed, room) refl

  -- A token that is verified belongs to the live row of the tenant that has its prefix, which has its
  -- hash, has not expired and lets the workspace and the scope in; the limiter took the request.
  abbrev pub Admitted : State → VerifiedAgentToken → Type 0
  Admitted s v =
      (row : AgentToken) × (get_by_prefix (first_chars 12 token) tenant_id s.tokens ≡ some row)
      × (row.revoked_at ≡ none)
      × Admits hash row token tenant_id workspace_id scope clocks.checked_at
      × ((consume minute row.id row.rate_limit_rpm clocks.monotonic s.buckets).0 ≡ true)
      × (v ≡ verdict row)

  live :
      (row : AgentToken) (s : State)
      → get_by_prefix (first_chars 12 token) tenant_id s.tokens ≡ some row
      → row.revoked_at ≡ none
  unfolding get_by_prefix
  live row s found = not_some row.revoked_at (
      ground (arith, select_sound (is_live_prefix (first_chars 12 token) tenant_id) s.tokens found))
    where
      not_some : (o : Option ℕ) → is_some o ≡ false → o ≡ none
      not_some none h = refl
      not_some (some t) h = absurd cc

  admit-Admitted :
      (row : AgentToken) (s : State) {v : VerifiedAgentToken}
      → get_by_prefix (first_chars 12 token) tenant_id s.tokens ≡ some row
      → (admit hash minute token tenant_id workspace_id scope clocks row s).0 ≡ ok v
      → Admitted s v
  admit-Admitted row s {v} found h =
      elim (Outcome-cases
        (check_row hash row token tenant_id workspace_id scope clocks.checked_at)) [
          | inr (e, refused) ↦
              absurd (err_ok (sym (ap (λ x. x.0) (admit_refused row s refused)) ∙ h))
          | inl (u, passed) ↦
              elim (Bool-cases
                (consume minute row.id row.rate_limit_rpm clocks.monotonic s.buckets).0) [
                  | inr full ↦ absurd (err_ok (sym (admit_limited row s passed full) ∙ h))
                  | inl room ↦ (
                    row,
                    found,
                    live row s found,
                    check_row-Admits hash row token tenant_id workspace_id scope clocks.checked_at
                        passed,
                    room,
                    ok_injective (sym h ∙ admit_ok row s passed room),
                  )
                ]
        ]

  pub verify-Admitted :
      (s : State) (v : VerifiedAgentToken)
      → (verify hash minute token tenant_id workspace_id scope clocks s).0 ≡ ok v
      → Admitted s v
  verify-Admitted s v h = elim (Bool-cases (has_shape token)) [
    | inr shape ↦ absurd (err_ok (sym (ap (λ x. x.0) (verify_malformed s shape)) ∙ h))
    | inl shape ↦ elim (Option-cases (get_by_prefix (first_chars 12 token) tenant_id s.tokens)) [
      | inl absent ↦ absurd (err_ok (sym (ap (λ x. x.0) (verify_unknown s shape absent)) ∙ h))
      | inr (row, found) ↦
          admit-Admitted row s found (sym (ap (λ x. x.0) (verify_found s shape found)) ∙ h)
    ]
  ]
