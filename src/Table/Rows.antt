-- ===== src/Table/Rows.antt =====
-- SELECT, UPDATE and INSERT, and what holds of every row.
use mathlib.Core.Option
use flycanon.Prelude.{
  ◌≡◌, refl, Bool, true, false, Option, none, some, List, [], ◌∷◌, ◌++◌, All, arith, if◌then◌else◌,
  Bool-cases, inl, inr, String, str_eq,
}

module _ {ℓ} {A : Type ℓ} where
  -- SELECT … WHERE p, `.scalars().first()`
  unfoldable pub select : (A → Bool) → List A → Option A
  select p [] = none
  select p (r ∷ rows) = let rest = select p rows in if p r then some r else rest

  -- UPDATE … WHERE p SET f
  unfoldable pub update_where : (A → Bool) → (A → A) → List A → List A
  update_where p f [] = []
  update_where p f (r ∷ rows) = (if p r then f r else r) ∷ update_where p f rows

  -- session.add
  unfoldable pub insert : A → List A → List A
  insert row rows = rows ++ row ∷ []

  -- session.merge: the row with that key is written over, or else added.
  unfoldable pub upsert : (A → String) → A → List A → List A
  upsert key row [] = row ∷ []
  upsert key row (r ∷ rows) =
      let rest = upsert key row rows in if str_eq (key r) (key row) then row ∷ rows else r ∷ rest

  pub select_sound : (p : A → Bool) (rows : List A) {r : A} → select p rows ≡ some r → p r ≡ true
  unfolding select
  select_sound p [] h = absurd (ground arith)
  select_sound p (x ∷ rows) h = elim (Bool-cases (p x)) [
    | inl yes_ ↦ ground arith
    | inr no_ ↦ select_sound p rows (ground arith)
  ]

  -- An UPDATE that keeps a condition keeps which row is the first to meet it.
  pub select-update_where :
      (q p : A → Bool) (f : A → A) (rows : List A)
      → ((r : A) → q (f r) ≡ q r)
      → select q (update_where p f rows) ≡ Option.map (λ r. if p r then f r else r) (select q rows)
  unfolding select update_where
  select-update_where q p f [] same = refl
  select-update_where q p f (x ∷ rows) same =
      ground (arith, same x, select-update_where q p f rows same)

  -- The first row found stays the first.
  pub select-insert_old :
      (p : A → Bool) (row : A) (rows : List A) {r : A}
      → select p rows ≡ some r
      → select p (insert row rows) ≡ some r
  unfolding select insert
  select-insert_old p row [] h = absurd (ground arith)
  select-insert_old p row (x ∷ rows) {r} h = ground (arith, select-insert_old p row rows {r = r})

  -- A new row is found where no row was.
  pub select-insert_new :
      (p : A → Bool) (row : A) (rows : List A)
      → select p rows ≡ none
      → p row ≡ true
      → select p (insert row rows) ≡ some row
  unfolding select insert
  select-insert_new p row [] absent h = rw h refl
  select-insert_new p row (x ∷ rows) absent h = ground (arith, select-insert_new p row rows)

  -- A condition that asks for more finds no more.
  pub select_narrower :
      (p q : A → Bool) (rows : List A)
      → ((r : A) → q r ≡ true → p r ≡ true)
      → select p rows ≡ none
      → select q rows ≡ none
  unfolding select
  select_narrower p q [] sub absent = refl
  select_narrower p q (x ∷ rows) sub absent = ground (arith, sub x, select_narrower p q rows sub)

  pub select-All {κ} :
      (P : A → Type κ) (p : A → Bool) (rows : List A) {r : A}
      → All P rows
      → select p rows ≡ some r
      → P r
  unfolding select
  select-All P p [] all h = absurd (ground arith)
  select-All P p (x ∷ rows) {r = r} all h = elim (Bool-cases (p x)) [
    | inl here ↦ let e : x ≡ r = ground arith in rw (← e) all.0
    | inr there ↦ select-All P p rows all.1 (ground arith)
  ]

  -- An UPDATE that returns no row has changed none.
  pub update_where-none :
      (p : A → Bool) (f : A → A) (rows : List A)
      → select p rows ≡ none
      → update_where p f rows ≡ rows
  unfolding select update_where
  update_where-none p f [] h = refl
  update_where-none p f (x ∷ rows) h = ground (arith, update_where-none p f rows)

  -- Once an UPDATE has made its own condition false, the next one like it finds no row.
  pub select-update_where_claimed :
      (p q : A → Bool) (f : A → A) (rows : List A)
      → ((r : A) → p r ≡ true → q (f r) ≡ false)
      → ((r : A) → p r ≡ false → q r ≡ false)
      → select q (update_where p f rows) ≡ none
  unfolding select update_where
  select-update_where_claimed p q f [] h k = refl
  select-update_where_claimed p q f (x ∷ rows) h k =
      ground (arith, h x, k x, select-update_where_claimed p q f rows h k)

  pub All-update_where {κ μ} :
      (P : A → Type κ) (Q : A → Type μ) (p : A → Bool) (f : A → A) (rows : List A)
      → ((r : A) → P r → p r ≡ true → Q (f r))
      → ((r : A) → P r → p r ≡ false → Q r)
      → All P rows
      → All Q (update_where p f rows)
  unfolding update_where
  All-update_where P Q p f [] on off all = tt
  All-update_where P Q p f (x ∷ rows) on off all = elim (Bool-cases (p x)) [
    | inl hit ↦ rw hit (on x all.0 hit, All-update_where P Q p f rows on off all.1)
    | inr miss ↦ rw miss (off x all.0 miss, All-update_where P Q p f rows on off all.1)
  ]

  pub All-snoc {κ} :
      (P : A → Type κ) (rows : List A) (row : A) → All P rows → P row → All P (insert row rows)
  unfolding insert
  All-snoc P [] row all h = (h, tt)
  All-snoc P (x ∷ rows) row all h = (all.0, All-snoc P rows row all.1 h)
