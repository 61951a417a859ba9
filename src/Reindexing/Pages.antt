-- ===== src/Reindexing/Pages.antt =====
-- A page of the chunks in the order of their ids, and what is left behind it.
use flycanon.Prelude.{
  ℕ, zero, suc, ◌≡◌, refl, ◌&&◌, String, eq_refl, Bool, true, false, Option, List, [], ◌∷◌, ◌⊎◌,
  inl, inr, map, filter, take, drop, take-append-drop, subst, sym, All, All-append, All-imp,
  All-take, All-filter, arith, Bool-cases,
}
use flycanon.EmbeddingSets.{Scope}
use flycanon.Reindexing.{
  KnowledgeChunkRow, chunk_key, Host, in_workspace, place, ordered, elem, last_id, is_after,
  list_for_workspace,
}

-- What a database's order of the ids is: total, and equal ids are the only ties.
pub record IsOrder (id_after : String → String → Bool) : Type 0 where
  pub asymmetric : (a b : String) → id_after a b ≡ true → id_after b a ≡ false
  pub transitive :
      (a b c : String) → id_after a b ≡ false → id_after b c ≡ false → id_after a c ≡ false
  pub total : (a b : String) → id_after a b ≡ false → id_after b a ≡ false → a ≡ b

module _ {A : Type 0} (after : A → A → Bool) where
  All-unplace {κ} :
      (P : A → Type κ) (r : A) (rows : List A) → All P (place after r rows) → P r × All P rows
  unfolding place
  All-unplace P r [] h = h
  All-unplace P r (s ∷ rows) h = elim (Bool-cases (after r s)) [
    | inl behind ↦
        let h' : P s × All P (place after r rows) = rw (behind) at h in
        let rest = All-unplace P r rows h'.1 in (rest.0, (h'.0, rest.1))
    | inr here ↦ let h' : P r × All P (s ∷ rows) = rw (here) at h in h'
  ]

  pub All-unordered {κ} : (P : A → Type κ) (rows : List A) → All P (ordered after rows) → All P rows
  unfolding ordered
  All-unordered P [] h = tt
  All-unordered P (r ∷ rows) h =
      let both = All-unplace P r (ordered after rows) h in (both.0, All-unordered P rows both.1)

  All-place {κ} :
      (P : A → Type κ) (r : A) (rows : List A) → P r → All P rows → All P (place after r rows)
  unfolding place
  All-place P r [] h all = (h, tt)
  All-place P r (s ∷ rows) h all = elim (Bool-cases (after r s)) [
    | inl behind ↦ rw behind (all.0, All-place P r rows h all.1)
    | inr here ↦ rw here (h, all)
  ]

  pub All-ordered {κ} : (P : A → Type κ) (rows : List A) → All P rows → All P (ordered after rows)
  unfolding ordered
  All-ordered P [] h = tt
  All-ordered P (r ∷ rows) h = All-place P r (ordered after rows) h.0 (All-ordered P rows h.1)

  -- No row comes before one that stands behind it.
  abbrev pub Ascending : List A → Type 0
  Ascending [] = Unit
  Ascending (r ∷ rows) = All (λ s. after r s ≡ false) rows × Ascending rows

  module _ (asymmetric : (a b : A) → after a b ≡ true → after b a ≡ false)
      (transitive : (a b c : A) → after a b ≡ false → after b c ≡ false → after a c ≡ false) where
    Ascending-place : (r : A) (rows : List A) → Ascending rows → Ascending (place after r rows)
    unfolding place
    Ascending-place r [] h = (tt, tt)
    Ascending-place r (s ∷ rows) h = elim (Bool-cases (after r s)) [
      | inl behind ↦ rw behind (
        All-place (λ q. after s q ≡ false) r rows (asymmetric r s behind) h.0,
        Ascending-place r rows h.1,
      )
      | inr here ↦ rw here (
        (
          here,
          All-imp (λ q. after s q ≡ false) (λ q. after r q ≡ false) rows
              (λ q. transitive r s q here) h.0,
        ),
        h,
      )
    ]

    pub Ascending-ordered : (rows : List A) → Ascending (ordered after rows)
    unfolding ordered
    Ascending-ordered [] = tt
    Ascending-ordered (r ∷ rows) = Ascending-place r (ordered after rows) (Ascending-ordered rows)

-- What holds of what a filter keeps.
pub All-unfilter {κ} :
    {A : Type 0} (P : A → Type κ) (p : A → Bool) (rows : List A)
    → All P (filter p rows)
    → All (λ r. p r ≡ true → P r) rows
All-unfilter P p [] h = tt
All-unfilter P p (r ∷ rows) h = elim (Bool-cases (p r)) [
  | inl keep ↦
      let h' : P r × All P (filter p rows) = rw (keep) at h in
      (λ _. h'.0, All-unfilter P p rows h'.1)
  | inr out ↦
      let h' : All P (filter p rows) = rw (out) at h in
      (λ hit. absurd (ground (arith, hit, out)), All-unfilter P p rows h')
]

elem-members :
    (batch : List KnowledgeChunkRow) → All (λ c. elem c.id (map chunk_key batch) ≡ true) batch
elem-members [] = tt
elem-members (c ∷ batch) = (
  rw (eq_refl c.id) refl,
  All-imp (λ d. elem d.id (map chunk_key batch) ≡ true)
      (λ d. elem d.id (map chunk_key (c ∷ batch)) ≡ true) batch (λ d h. ground (arith, h))
      (elem-members batch),
)

elem-last_id :
    (c : KnowledgeChunkRow) (batch : List KnowledgeChunkRow)
    → elem (last_id c batch) (map chunk_key (c ∷ batch)) ≡ true
elem-last_id c [] = rw (eq_refl c.id) refl
elem-last_id c (d ∷ batch) = ground (arith, elem-last_id d batch)

module _ {V : Type 0} (host : Host V) (order : IsOrder host.id_after) where
  abbrev behind_id : KnowledgeChunkRow → KnowledgeChunkRow → Bool
  behind_id c d = host.id_after c.id d.id

  -- A chunk is on the page, or comes after its last one.
  abbrev pub PageOrAfter : KnowledgeChunkRow → List KnowledgeChunkRow → KnowledgeChunkRow → Type 0
  PageOrAfter c batch d =
      (elem d.id (map chunk_key (c ∷ batch)) ≡ true) ⊎ (host.id_after d.id (last_id c batch) ≡ true)

  after_page :
      (n : ℕ) (c : KnowledgeChunkRow) (rows : List KnowledgeChunkRow)
      → All (λ d. behind_id c d ≡ false) rows
      → Ascending behind_id rows
      → All (λ d. host.id_after (last_id c (take n rows)) d.id ≡ false) (drop n rows)
  after_page zero c rows h a = h
  after_page (suc n) c [] h a = tt
  after_page (suc n) c (d ∷ rows) h a = after_page n d rows a.0 a.1

  page_or_after :
      (n : ℕ) (c : KnowledgeChunkRow) (rows : List KnowledgeChunkRow)
      → Ascending behind_id (c ∷ rows)
      → All (PageOrAfter c (take n rows)) (c ∷ rows)
  page_or_after n c rows a =
      let batch = take n rows in
      let members = elem-members (c ∷ batch) in
      let on_page =
        All-imp (λ d. elem d.id (map chunk_key (c ∷ batch)) ≡ true) (PageOrAfter c batch)
          (c ∷ batch) (λ d h. inl h) members in
      let beyond =
        All-imp (λ d. host.id_after (last_id c batch) d.id ≡ false) (PageOrAfter c batch)
          (drop n rows) (λ d. settle c batch d) (after_page n c rows a.0 a.1) in
      (
        on_page.0,
        subst (All (PageOrAfter c batch)) (take-append-drop n rows)
            (All-append (PageOrAfter c batch) batch (drop n rows) on_page.1 beyond),
      )
    where
      settle :
          (c : KnowledgeChunkRow) (batch : List KnowledgeChunkRow) (d : KnowledgeChunkRow)
          → host.id_after (last_id c batch) d.id ≡ false
          → PageOrAfter c batch d
      settle c batch d h = elim (Bool-cases (host.id_after d.id (last_id c batch))) [
        | inl later ↦ inr later
        | inr not_later ↦
            let same = order.total d.id (last_id c batch) not_later h in
            inl (
              subst (λ id. elem id (map chunk_key (c ∷ batch)) ≡ true) (sym same)
                (elem-last_id c batch))
      ]

  abbrev pub ahead : Scope → Option String → KnowledgeChunkRow → Bool
  ahead scope after_id c = in_workspace scope c && is_after host after_id c.id

  Ascending-rows : (rows : List KnowledgeChunkRow) → Ascending behind_id (ordered behind_id rows)
  Ascending-rows =
      Ascending-ordered behind_id (λ c d. order.asymmetric c.id d.id)
        (λ c d e. order.transitive c.id d.id e.id)

  page_of :
      (n : ℕ) (rows : List KnowledgeChunkRow)
      → Ascending behind_id rows
      → {c : KnowledgeChunkRow} {batch : List KnowledgeChunkRow} → take (suc n) rows ≡ c ∷ batch
      → All (PageOrAfter c batch) rows
  page_of n [] a h = cc
  page_of n (r ∷ rows) a {c} {batch} h =
      let head : r ≡ c = ground arith in
      let rest : take n rows ≡ batch = ground arith in
      subst (λ first. All (PageOrAfter first batch) (r ∷ rows)) head
        (subst (λ others. All (PageOrAfter r others) (r ∷ rows)) rest (page_or_after n r rows a))

  none_listed : (n : ℕ) (rows : List KnowledgeChunkRow) → take (suc n) rows ≡ [] → All (λ _. ⊥) rows
  none_listed n [] h = tt
  none_listed n (r ∷ rows) h = cc

  pub page_rule :
      (scope : Scope) (after_id : Option String) (n : ℕ) (chunks : List KnowledgeChunkRow)
      {c : KnowledgeChunkRow} {batch : List KnowledgeChunkRow}
      → list_for_workspace host scope after_id (suc n) chunks ≡ c ∷ batch
      → All (λ d. ahead scope after_id d ≡ true → PageOrAfter c batch d) chunks
  unfolding list_for_workspace
  page_rule scope after_id n chunks h =
      let rows = filter (ahead scope after_id) chunks in
      All-unfilter (PageOrAfter _ _) (ahead scope after_id) chunks (
        All-unordered behind_id (PageOrAfter _ _) rows
          (page_of n (ordered behind_id rows) (Ascending-rows rows) h))

  -- An empty page says that no chunk is left.
  pub last_page :
      (scope : Scope) (after_id : Option String) (n : ℕ) (chunks : List KnowledgeChunkRow)
      → list_for_workspace host scope after_id (suc n) chunks ≡ []
      → All (λ d. ahead scope after_id d ≡ true → ⊥) chunks
  unfolding list_for_workspace
  last_page scope after_id n chunks h =
      let rows = filter (ahead scope after_id) chunks in
      All-unfilter (λ _. ⊥) (ahead scope after_id) chunks
        (All-unordered behind_id (λ _. ⊥) rows (none_listed n (ordered behind_id rows) h))

  -- What holds of every chunk holds of those on a page, and they are the workspace's.
  pub All-page {κ} :
      (P : KnowledgeChunkRow → Type κ) (scope : Scope) (after_id : Option String) (n : ℕ)
      (chunks : List KnowledgeChunkRow)
      → All P chunks
      → All
          (λ c. P c × (ahead scope after_id c ≡ true))
          (list_for_workspace host scope after_id n chunks)
  unfolding list_for_workspace
  All-page P scope after_id n chunks h = All-take _ n _ (
      All-ordered behind_id _ (filter (ahead scope after_id) chunks)
        (All-filter P (ahead scope after_id) chunks h))
