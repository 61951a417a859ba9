-- ===== src/EmbeddingSets/Latest.antt =====
-- Which retired set the query for the last one returns, where one set was retired after all others.
use flycanon.Prelude.{
  ℕ, ◌<◌, String, ◌≡◌, refl, subst, Bool, true, false, none, some, List, [], ◌∷◌, All, ◌⊎◌, inl,
  inr, arith, ltb, Bool-cases, if◌then◌else◌,
}
use flycanon.Table.{select}
use flycanon.EmbeddingSets.{EmbeddingSetRow, is_retired, retired_later, later_of, latest}

-- If the set is retired, that was before the time.
abbrev pub RetiredBefore : ℕ → EmbeddingSetRow → Type 0
RetiredBefore now r =
    (is_retired r.status ≡ false) ⊎ ((t : ℕ) × (r.retired_at ≡ some t) × (t < now))

module _ (id_after : String → String → Bool) (p : EmbeddingSetRow → Bool) (set_id : String)
    (now : ℕ) where
  abbrev Stamped : EmbeddingSetRow → Type 0
  Stamped r = (r.id ≡ set_id) × (r.retired_at ≡ some now)

  abbrev Dated : EmbeddingSetRow → Type 0
  Dated r = Stamped r ⊎ ((t : ℕ) × (r.retired_at ≡ some t) × (t < now))

  abbrev pub Fits : EmbeddingSetRow → Type 0
  Fits r = (p r ≡ false) ⊎ Dated r

  dated : (r : EmbeddingSetRow) → Fits r → p r ≡ true → Dated r
  dated r (inl not_) h = absurd cc
  dated r (inr d) h = d

  latest-Dated :
      (rows : List EmbeddingSetRow)
      → All Fits rows
      → (latest id_after p rows ≡ none)
        ⊎ ((r : EmbeddingSetRow) × (latest id_after p rows ≡ some r) × Dated r)
  unfolding latest
  latest-Dated [] all = inl refl
  latest-Dated (y ∷ rows) all = elim (Bool-cases (p y)) [
    | inr skip ↦ rw skip (latest-Dated rows all.1)
    | inl take_ ↦ rw take_ (
        inr (elim (latest-Dated rows all.1) [
          | inl end ↦ rw end (y, refl, dated y all.0 take_)
          | inr (s, e, d) ↦ rw e (elim (Bool-cases (retired_later id_after y s)) [
            | inl first ↦ rw first (y, refl, dated y all.0 take_)
            | inr second ↦ rw second (s, refl, d)
          ])
        ]))
  ]

  keeps_newest :
      (y s : EmbeddingSetRow)
      → Stamped y
      → Dated s
      → Stamped (if retired_later id_after y s then y else s)
  keeps_newest y s h (inl h') = elim (Bool-cases (retired_later id_after y s)) [
    | inl first ↦ rw first h
    | inr second ↦ rw second h'
  ]
  keeps_newest y s h (inr (t, e, before)) =
      let newer : ltb t now ≡ true = ground (arith, before) in rw (h.1, e, newer) (h.0, refl)

  yields_to_newest :
      (y s : EmbeddingSetRow)
      → Dated y
      → Stamped s
      → Stamped (if retired_later id_after y s then y else s)
  yields_to_newest y s (inl h) h' = keeps_newest y s h (inl h')
  yields_to_newest y s (inr (t, e, before)) h' =
      let older : ltb t now ≡ true = ground (arith, before) in
      let newer : ltb now t ≡ false = ground (arith, before) in
      rw (h'.1, e, newer, older) (h'.0, refl)

  -- If the stamped row is among those asked for, it is the one returned.
  pub latest-Stamped :
      (q : EmbeddingSetRow → Bool) (rows : List EmbeddingSetRow) {x : EmbeddingSetRow}
      → All Fits rows
      → select q rows ≡ some x
      → p x ≡ true
      → Stamped x
      → (r : EmbeddingSetRow) × (latest id_after p rows ≡ some r) × Stamped r
  unfolding latest select
  latest-Stamped q [] all found asked h = absurd (ground arith)
  latest-Stamped q (y ∷ rows) {x} all found asked h = elim (Bool-cases (q y)) [
    | inl here ↦
        let e : x ≡ y = ground arith in
        let asked' : p y ≡ true = subst (λ r. p r ≡ true) e asked in
        let h' : Stamped y = subst Stamped e h in
        rw asked' (elim (latest-Dated rows all.1) [
          | inl end ↦ rw end (y, refl, h')
          | inr (s, e', d) ↦ rw e' (later_of id_after y (some s), refl, keeps_newest y s h' d)
        ])
    | inr there ↦ elim (Bool-cases (p y)) [
      | inr skip ↦ rw skip (latest-Stamped q rows all.1 (ground arith) asked h)
      | inl take_ ↦
          let (s, e, h') = latest-Stamped q rows {x = x} all.1 (ground arith) asked h in
          rw (take_, e)
            (later_of id_after y (some s), refl, yields_to_newest y s (dated y all.0 take_) h')
    ]
  ]
