-- ===== src/Reindexing/Remaining.antt =====
-- Every page leaves fewer chunks ahead of the cursor.
use flycanon.Prelude.{
  ℕ, suc, ◌<◌, ◌≡◌, refl, ap, subst, String, Bool, true, false, Option, none, some, List, [], ◌∷◌,
  ◌⊎◌, inl, inr, filter, length, All, All-imp, arith, Bool-cases, if◌then◌else◌,
}
use flycanon.Table.{update_where}
use flycanon.EmbeddingSets.{Scope}
use flycanon.Reindexing.{
  KnowledgeChunkRow, Host, in_workspace, elem, last_id, is_after, list_for_workspace,
  stamp_embedding_model,
}
use flycanon.Reindexing.Pages.{IsOrder, ahead, last_page, All-page}

-- A filter that keeps less keeps fewer, or it keeps the same.
filter_fewer :
    {A : Type 0} (p q : A → Bool) (xs : List A)
    → ((x : A) → q x ≡ true → p x ≡ true)
    → (length (filter q xs) < length (filter p xs))
      ⊎ ((length (filter q xs) ≡ length (filter p xs)) × All (λ x. p x ≡ true → q x ≡ true) xs)
filter_fewer p q [] sub = inr (refl, tt)
filter_fewer {A} p q (x ∷ xs) sub = step (q x) (p x) (sub x) (filter_fewer p q xs sub)
  where
    step :
        (kept_q kept_p : Bool)
        → (kept_q ≡ true → kept_p ≡ true)
        → (length (filter q xs) < length (filter p xs))
          ⊎ ((length (filter q xs) ≡ length (filter p xs)) × All (λ y. p y ≡ true → q y ≡ true) xs)
        → (length (if kept_q then x ∷ filter q xs else filter q xs)
            < length (if kept_p then x ∷ filter p xs else filter p xs))
          ⊎ ((length (if kept_q then x ∷ filter q xs else filter q xs)
                ≡ length (if kept_p then x ∷ filter p xs else filter p xs))
              × ((kept_p ≡ true → kept_q ≡ true) × All (λ y. p y ≡ true → q y ≡ true) xs))
    step true true sub (inl less) = inl (omega (arith, less))
    step true true sub (inr (same, all)) = inr (ap suc same, ((λ h. h), all))
    step true false sub h = absurd (ground (arith, sub refl))
    step false true sub (inl less) = inl (omega (arith, less))
    step false true sub (inr (same, all)) = inl (omega (arith, same))
    step false false sub (inl less) = inl less
    step false false sub (inr (same, all)) = inr (same, ((λ h. h), all))

-- What holds of the ids of a page holds of its last one.
last_id-rule {κ} :
    (P : String → Type κ) (c : KnowledgeChunkRow) (page : List KnowledgeChunkRow)
    → All (λ d. P d.id) (c ∷ page)
    → P (last_id c page)
last_id-rule P c [] h = h.0
last_id-rule P c (d ∷ page) h = last_id-rule P d page h.1

module _ {V : Type 0} (host : Host V) (order : IsOrder host.id_after) (scope : Scope) where
  -- How many chunks of the workspace lie ahead of a cursor.
  abbrev pub remaining : Option String → List KnowledgeChunkRow → ℕ
  remaining last chunks = length (filter (ahead host order scope last) chunks)

  pub remaining-stamped :
      (last : Option String) (ids : List String) (model : String) (chunks : List KnowledgeChunkRow)
      → remaining last (stamp_embedding_model ids model chunks) ≡ remaining last chunks
  unfolding stamp_embedding_model update_where
  remaining-stamped last ids model [] = refl
  remaining-stamped last ids model (c ∷ chunks) = elim (Bool-cases (elem c.id ids)) [
    | inl here ↦ rw here (elim (Bool-cases (ahead host order scope last c)) [
      | inl ahead_ ↦ rw ahead_ (ap suc (remaining-stamped last ids model chunks))
      | inr behind ↦ rw behind (remaining-stamped last ids model chunks)
    ])
    | inr there ↦ rw there (elim (Bool-cases (ahead host order scope last c)) [
      | inl ahead_ ↦ rw ahead_ (ap suc (remaining-stamped last ids model chunks))
      | inr behind ↦ rw behind (remaining-stamped last ids model chunks)
    ])
  ]

  -- An empty page says that none is left.
  pub remaining-last_page :
      (last : Option String) (n : ℕ) (chunks : List KnowledgeChunkRow)
      → list_for_workspace host scope last (suc n) chunks ≡ []
      → remaining last chunks ≡ 0
  remaining-last_page last n chunks e =
      none_kept (ahead host order scope last) chunks (last_page host order scope last n chunks e)
    where
      none_kept :
          (p : KnowledgeChunkRow → Bool) (rows : List KnowledgeChunkRow)
          → All (λ d. p d ≡ true → ⊥) rows
          → length (filter p rows) ≡ 0
      none_kept p [] h = refl
      none_kept p (d ∷ rows) h = elim (Bool-cases (p d)) [
        | inl kept ↦ absurd (h.0 kept)
        | inr out ↦ rw out (none_kept p rows h.1)
      ]

  later_still :
      (last : Option String) (id id' : String)
      → is_after host last id ≡ true
      → host.id_after id' id ≡ true
      → is_after host last id' ≡ true
  later_still none id id' h h' = refl
  later_still (some l) id id' h h' = elim (Bool-cases (host.id_after id' l)) [
    | inl later ↦ later
    | inr not_later ↦
        let back = order.transitive id' l id not_later (order.asymmetric id l h) in
        absurd (ground (arith, back, h'))
  ]

  pub remaining-page :
      (last : Option String) (n : ℕ) (chunks : List KnowledgeChunkRow) {c : KnowledgeChunkRow}
      {page : List KnowledgeChunkRow}
      → list_for_workspace host scope last n chunks ≡ c ∷ page
      → remaining (some (last_id c page)) chunks < remaining last chunks
  remaining-page last n chunks {c} {page} e =
      let last' = some (last_id c page) in
      let Ahead = ahead host order scope in
      let listed : All (λ d. Unit {0} × (Ahead last d ≡ true)) (c ∷ page) =
        subst (All (λ d. Unit {0} × (Ahead last d ≡ true))) e
          (All-page host order (λ _. Unit {0}) scope last n chunks (All-Unit chunks)) in
      let reached : is_after host last (last_id c page) ≡ true =
        last_id-rule (λ id. is_after host last id ≡ true) c page
          (All-imp _ (λ d. is_after host last d.id ≡ true) (c ∷ page) (λ d h. ground (arith, h.1))
            listed) in
      elim (filter_fewer (Ahead last) (Ahead last') chunks (λ d h. further d reached h)) [
        | inl less ↦ less
        | inr (same, all) ↦
            let on_page =
              subst
                (All (λ d. (Ahead last d ≡ true → Ahead last' d ≡ true) × (Ahead last d ≡ true))) e
                (All-page host order (λ d. Ahead last d ≡ true → Ahead last' d ≡ true) scope last n
                  chunks all) in
            let beyond : host.id_after (last_id c page) (last_id c page) ≡ true =
              last_id-rule (λ id. host.id_after id (last_id c page) ≡ true) c page
                (All-imp _ (λ d. host.id_after d.id (last_id c page) ≡ true) (c ∷ page)
                  (λ d h. second d (h.0 h.1)) on_page) in
            absurd
              (ground (arith, beyond, order.asymmetric (last_id c page) (last_id c page) beyond))
      ]
    where
      All-Unit : (rows : List KnowledgeChunkRow) → All (λ _. Unit {0}) rows
      All-Unit [] = tt
      All-Unit (d ∷ rows) = (tt, All-Unit rows)

      further :
          (d : KnowledgeChunkRow)
          → is_after host last (last_id c page) ≡ true
          → ahead host order scope (some (last_id c page)) d ≡ true
          → ahead host order scope last d ≡ true
      further d reached h =
          let later : host.id_after d.id (last_id c page) ≡ true = ground (arith, h) in
          let here : in_workspace scope d ≡ true = ground (arith, h) in
          let still = later_still last (last_id c page) d.id reached later in rw (here, still) refl

      second :
          (d : KnowledgeChunkRow)
          → ahead host order scope (some (last_id c page)) d ≡ true
          → host.id_after d.id (last_id c page) ≡ true
      second d h = ground (arith, h)
