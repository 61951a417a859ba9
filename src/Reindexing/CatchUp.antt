-- ===== src/Reindexing/CatchUp.antt =====
-- The catch-up pass: every chunk that it passes is in the set.
use flycanon.Prelude.{
  ◌≡◌, refl, ap, sym, subst, String, str_eq, eq_iff, eq_refl, true, false, Option, some, List, [],
  ◌∷◌, ◌⊎◌, inl, inr, map, filter, All, All-imp, All-zip, arith, Bool-cases,
}
use flycanon.Table.{update_where}
use flycanon.EmbeddingSets.{Scope}
use flycanon.EmbeddingSets.Service.{EmbeddingSetBinding}
use flycanon.Reindexing.{
  KnowledgeChunkRow, chunk_key, VectorRow, Host, in_workspace, is_stale, elem, last_id, is_after,
  stamp_embedding_model,
}
use flycanon.Reindexing.Pages.{IsOrder, PageOrAfter, ahead}
use flycanon.Reindexing.Vectors.{IsEmbedded}
use flycanon.Reindexing.Cursors.{IsEmbedded-batch, All-stamped, with_batch, stamped}

-- What holds of the ids of the rows holds of an id that is among them.
pub elem-rule {κ} :
    (P : String → Type κ) (id : String) (rows : List KnowledgeChunkRow)
    → All (λ c. P c.id) rows
    → elem id (map chunk_key rows) ≡ true
    → P id
elem-rule P id [] h e = cc
elem-rule P id (c ∷ rows) h e = elim (Bool-cases (str_eq c.id id)) [
  | inl here ↦ subst P ((eq_iff c.id id).0 here) h.0
  | inr there ↦ elem-rule P id rows h.1 (ground (arith, there, e))
]

pub stamp-nothing :
    (model : String) (chunks : List KnowledgeChunkRow)
    → stamp_embedding_model [] model chunks ≡ chunks
unfolding stamp_embedding_model update_where
stamp-nothing model [] = refl
stamp-nothing model (c ∷ chunks) = ap (◌∷◌ c) (stamp-nothing model chunks)

module _ {V : Type 0} (host : Host V) (order : IsOrder host.id_after) (content_of : String → String)
    (vector_of : String → V) (scope : Scope) (binding : EmbeddingSetBinding) where
  abbrev pub In : List (VectorRow V) → String → Type 0
  In = IsEmbedded host content_of vector_of scope binding

  abbrev pub Caught : Option String → List (VectorRow V) → KnowledgeChunkRow → Type 0
  Caught last vectors c =
      in_workspace scope c ≡ true → is_after host last c.id ≡ false → In vectors c.id

  abbrev pub KnownHere : KnowledgeChunkRow → Type 0
  KnownHere c = c.content ≡ content_of c.id

  abbrev pub SettledBy : List (VectorRow V) → KnowledgeChunkRow → Type 0
  SettledBy vectors c = in_workspace scope c ≡ true → In vectors c.id ⊎ (is_stale binding c ≡ true)

  abbrev pub InOrAmong : List (VectorRow V) → List KnowledgeChunkRow → KnowledgeChunkRow → Type 0
  InOrAmong vectors rows d = (elem d.id (map chunk_key rows) ≡ true) ⊎ In vectors d.id

  -- A chunk of a page is in the set, or among those that the pass embeds.
  pub page_settled :
      (vectors : List (VectorRow V)) (page : List KnowledgeChunkRow)
      → All (λ d. SettledBy vectors d × (in_workspace scope d ≡ true)) page
      → All (InOrAmong vectors (filter (is_stale binding) page)) page
  page_settled vectors [] h = tt
  page_settled vectors (d ∷ page) h =
      let kept = filter (is_stale binding) page in
      let rest = page_settled vectors page h.1 in
      elim (Bool-cases (is_stale binding d)) [
        | inl stale ↦
            let e : filter (is_stale binding) (d ∷ page) ≡ d ∷ kept = rw stale refl in
            subst (λ rows. All (InOrAmong vectors rows) (d ∷ page)) (sym e)
              (
                inl (rw (eq_refl d.id) refl),
                All-imp (InOrAmong vectors kept) (InOrAmong vectors (d ∷ kept)) page
                    (λ c k. further d kept c.id vectors k) rest,
              )
        | inr fresh ↦
            let e : filter (is_stale binding) (d ∷ page) ≡ kept = rw fresh refl in
            subst (λ rows. All (InOrAmong vectors rows) (d ∷ page)) (sym e)
              (inr (in_set d vectors fresh (h.0.0 h.0.1)), rest)
      ]
    where
      further :
          (d : KnowledgeChunkRow) (rows : List KnowledgeChunkRow) (id : String)
          (vectors : List (VectorRow V))
          → (elem id (map chunk_key rows) ≡ true) ⊎ In vectors id
          → (elem id (map chunk_key (d ∷ rows)) ≡ true) ⊎ In vectors id
      further d rows id vectors (inl e) = inl (ground (arith, e))
      further d rows id vectors (inr e) = inr e

      in_set :
          (d : KnowledgeChunkRow) (vectors : List (VectorRow V))
          → is_stale binding d ≡ false
          → In vectors d.id ⊎ (is_stale binding d ≡ true)
          → In vectors d.id
      in_set d vectors fresh (inl e) = e
      in_set d vectors fresh (inr stale) = absurd (ground (arith, fresh, stale))

  -- A page moves the pass on, once its stale chunks are embedded.
  pub page_moves_on :
      (c : KnowledgeChunkRow) (page batch : List KnowledgeChunkRow) (known : All KnownHere batch)
      (last : Option String) (vectors : List (VectorRow V)) (chunks : List KnowledgeChunkRow)
      → ((id : String)
          → elem id (map chunk_key (c ∷ page)) ≡ true
          → (elem id (map chunk_key batch) ≡ true) ⊎ In vectors id)
      → All (λ d. ahead host order scope last d ≡ true → PageOrAfter host order c page d) chunks
      → All (Caught last vectors) chunks
      → All
          (Caught
            (some (last_id c page))
            (with_batch host order content_of vector_of scope binding batch known vectors))
          (stamped host order content_of vector_of scope binding batch known chunks)
  page_moves_on c page batch known last vectors chunks on_page pages caught =
      All-stamped host order content_of vector_of scope binding batch known Before
        (Caught (some (last_id c page))
          (with_batch host order content_of vector_of scope binding batch known vectors))
        chunks (λ d h _. moved_past d h) (λ d h _. moved_past d h)
        (All-zip (Caught last vectors) _ Before chunks (λ d h k. (h, k)) caught pages)
    where
      Before : KnowledgeChunkRow → Type 0
      Before d =
          Caught last vectors d
          × (ahead host order scope last d ≡ true → PageOrAfter host order c page d)

      passed :
          (d : KnowledgeChunkRow)
          → host.id_after d.id (last_id c page) ≡ false
          → PageOrAfter host order c page d
          → (elem d.id (map chunk_key batch) ≡ true) ⊎ In vectors d.id
      passed d p (inl e) = on_page d.id e
      passed d p (inr later) = absurd (ground (arith, p, later))

      moved_past :
          (d : KnowledgeChunkRow)
          → Before d
          → in_workspace scope d ≡ true
          → host.id_after d.id (last_id c page) ≡ false
          → In (with_batch host order content_of vector_of scope binding batch known vectors) d.id
      moved_past d h here p =
          IsEmbedded-batch host order content_of vector_of scope binding batch known d.id vectors
            (elim (Bool-cases (is_after host last d.id)) [
              | inl later ↦ passed d p (h.1 (rw (here, later) refl))
              | inr before ↦ inr (h.0 here before)
            ])
