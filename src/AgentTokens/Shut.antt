-- ===== src/AgentTokens/Shut.antt =====
-- A prefix whose rows are all revoked, under the statements of the repository.
use mathlib.Core.Option
use flycanon.Prelude.{
  ℕ, ◌≡◌, refl, ap, sym, ◌∙◌, String, str_eq, eq_iff, Bool, true, false, ◌⊎◌, Option, none, some,
  List, [], ◌∷◌, All, is_some, inl, inr, arith, Bool-cases, Option-cases, if◌then◌else◌,
}
use flycanon.Table.{
  select, update_where, insert, find, Unique, find_self, other_of_absent, find-insert_old,
  find-update_where, select_sound, select-All, All-update_where, All-snoc,
}
use flycanon.AgentTokens.{AgentToken, by_prefix, get_by_prefix, is_live_id, revoke_row, mark_used}

abbrev pub Closed : String → AgentToken → Type 0
Closed p r = (str_eq r.prefix p ≡ false) ⊎ (is_some r.revoked_at ≡ true)

-- There is a row with the prefix, and every such row is revoked.
abbrev pub Shut : String → List AgentToken → Type 0
Shut p tokens = (is_some (find by_prefix p tokens) ≡ true) × All (Closed p) tokens

module _ (p : String) where
  pub Shut-update_where :
      (q : AgentToken → Bool) (f : AgentToken → AgentToken) (tokens : List AgentToken)
      → ((r : AgentToken) → by_prefix (f r) ≡ by_prefix r)
      → ((r : AgentToken) → Closed p r → Closed p (f r))
      → Shut p tokens
      → Shut p (update_where q f tokens)
  Shut-update_where q f tokens same keeps (there, all) = (
    rw (find-update_where by_prefix p q f tokens same)
        (is_some_map (find by_prefix p tokens) there),
    All-update_where (Closed p) (Closed p) q f tokens (λ r h hit. keeps r h) (λ r h miss. h) all,
  )
    where
      is_some_map :
          (o : Option AgentToken)
          → is_some o ≡ true
          → is_some (Option.map (λ r. if q r then f r else r) o) ≡ true
      is_some_map none h = h
      is_some_map (some r) h = refl

  pub Shut-insert :
      (row : AgentToken) (tokens : List AgentToken)
      → find by_prefix row.prefix tokens ≡ none
      → Shut p tokens
      → Shut p (insert row tokens)
  Shut-insert row tokens absent (there, all) = elim (Option-cases (find by_prefix p tokens)) [
    | inl nowhere ↦ absurd (ground (arith, nowhere, there))
    | inr (r, found) ↦ (
      rw (find-insert_old by_prefix p row tokens found) refl,
      All-snoc (Closed p) tokens row all
          (inl (other_of_absent by_prefix row.prefix p tokens absent found)),
    )
  ]

  pub Shut-revoke_row :
      (token_id tenant_id : String) (now : ℕ) (tokens : List AgentToken)
      → Shut p tokens
      → Shut p (revoke_row token_id tenant_id now tokens).1
  unfolding revoke_row
  Shut-revoke_row token_id tenant_id now tokens h =
      Shut-update_where (is_live_id token_id tenant_id) _ tokens (λ r. refl) closed h
    where
      closed : (r : AgentToken) → Closed p r → Closed p (record r { revoked_at = some now })
      closed r h = inr refl

  pub Shut-mark_used :
      (token_id tenant_id : String) (now : ℕ) (tokens : List AgentToken)
      → Shut p tokens
      → Shut p (mark_used token_id tenant_id now tokens)
  unfolding mark_used
  Shut-mark_used token_id tenant_id now tokens h =
      Shut-update_where _ _ tokens (λ r. refl) (λ r h. h) h

  -- No live row has the prefix.
  pub Shut-get_by_prefix :
      (tenant_id : String) (tokens : List AgentToken)
      → All (Closed p) tokens
      → get_by_prefix p tenant_id tokens ≡ none
  unfolding get_by_prefix select
  Shut-get_by_prefix tenant_id [] all = refl
  Shut-get_by_prefix tenant_id (r ∷ tokens) (inl other, all) =
      ground (arith, other, Shut-get_by_prefix tenant_id tokens all)
  Shut-get_by_prefix tenant_id (r ∷ tokens) (inr revoked, all) =
      ground (arith, revoked, Shut-get_by_prefix tenant_id tokens all)

pub revoke_row-Shut :
    (token_id tenant_id : String) (now : ℕ) (tokens : List AgentToken) {row : AgentToken}
    → Unique by_prefix tokens
    → select (is_live_id token_id tenant_id) tokens ≡ some row
    → Shut row.prefix (revoke_row token_id tenant_id now tokens).1
unfolding revoke_row
revoke_row-Shut token_id tenant_id now tokens {row} unique hit =
    let f : AgentToken → AgentToken = λ r. record r { revoked_at = some now } in
    let q = is_live_id token_id tenant_id in
    let own = find_self by_prefix tokens unique in
    let here : find by_prefix row.prefix tokens ≡ some row =
      select-All (λ r. find by_prefix (by_prefix r) tokens ≡ some r) q tokens own hit in
    let live : q row ≡ true = select_sound q tokens hit in
    (
      rw (find-update_where by_prefix row.prefix q f tokens (λ r. refl), here) refl,
      All-update_where (λ r. find by_prefix (by_prefix r) tokens ≡ some r) (Closed row.prefix) q f
          tokens (λ r own hit. inr refl)
          (λ r own miss. elim (Bool-cases (str_eq r.prefix row.prefix)) [
            | inr other ↦ inl other
            | inl same ↦
                let e : row ≡ r = some_injective (
                  sym here
                  ∙ ap (λ k. find by_prefix k tokens) (sym ((eq_iff r.prefix row.prefix).0 same))
                  ∙ own) in
                absurd (both (q r) (ap q (sym e) ∙ live) miss)
          ])
          own,
    )
  where
    some_injective : {a b : AgentToken} → some a ≡ some b → a ≡ b
    some_injective h = ground arith

    both : (b : Bool) → b ≡ true → b ≡ false → ⊥
    both b h h' = absurd cc
