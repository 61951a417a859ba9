-- ===== src/Table/Returning.antt =====
-- UPDATE … WHERE key = k AND q … RETURNING: a conditional write to the one row of a key.
use mathlib.Core.Option
use flycanon.Prelude.{
  String, str_eq, ◌≡◌, refl, ap, sym, ◌∙◌, Bool, true, false, ◌&&◌, Option, none, some, List, arith,
  Bool-cases, inl, inr, eq_iff,
}
use flycanon.Table.Rows.{select, update_where, update_where-none}
use flycanon.Table.Keys.{
  find, only, Unique, select-find, find-update_where, Unique-update_where, key-find,
}

module _ {ℓ} {A : Type ℓ} (key : A → String) where
  unfoldable pub claim_row : String → (A → Bool) → (A → A) → List A → Option A × List A
  claim_row k q f rows =
      let test = λ (r : A). str_eq (key r) k && q r in
      (Option.map f (select test rows), update_where test f rows)

  module _ (k : String) (q : A → Bool) (f : A → A) (rows : List A) where
    pub claim_row-none : (claim_row k q f rows).0 ≡ none → (claim_row k q f rows).1 ≡ rows
    unfolding claim_row
    claim_row-none h =
        let test = λ (r : A). str_eq (key r) k && q r in
        update_where-none test f rows (none_of_map (select test rows) h)
      where
        none_of_map : (o : Option A) → Option.map f o ≡ none → o ≡ none
        none_of_map none e = refl
        none_of_map (some a) e = absurd (ground arith)

    pub claim_row-find :
        Unique key rows → (claim_row k q f rows).0 ≡ Option.map f (only key q (find key k rows))
    unfolding claim_row
    claim_row-find u = ap (Option.map f) (select-find key k q rows u)

    map-only :
        (o : Option A) {r' : A}
        → Option.map f (only key q o) ≡ some r'
        → (r : A) × (o ≡ some r) × (q r ≡ true) × (r' ≡ f r)
    map-only none h = absurd (ground arith)
    map-only (some r) {r'} h = elim (Bool-cases (q r)) [
      | inl holds ↦ (r, refl, holds, ground arith)
      | inr fails ↦ absurd (ground arith)
    ]

    -- A claim that returns a row found the row of the key in a state that met the condition, and left
    -- the returned row in its place.
    pub claim_row-some :
        ((r : A) → key (f r) ≡ key r)
        → Unique key rows
        → {r' : A} → (claim_row k q f rows).0 ≡ some r'
        → (r : A) × (find key k rows ≡ some r)
          × (q r ≡ true)
          × (r' ≡ f r)
          × (find key k (claim_row k q f rows).1 ≡ some r')
    unfolding claim_row
    claim_row-some same u {r'} h =
        let (r, found, holds, e) = map-only (find key k rows) (sym (claim_row-find u) ∙ h) in
        let here = (eq_iff (key r) k).1 (key-find key k rows found) in
        (
          r,
          found,
          holds,
          e,
          find-update_where key k (λ x. str_eq (key x) k && q x) f rows same
              ∙ rw (found, here, holds, e),
        )

    pub Unique-claim_row :
        ((r : A) → key (f r) ≡ key r) → Unique key rows → Unique key (claim_row k q f rows).1
    unfolding claim_row
    Unique-claim_row same u = Unique-update_where key _ f rows same u

    -- Where the row of the key does not meet the condition, nothing is claimed.
    pub claim_row_refused :
        Unique key rows
        → {r : A} → find key k rows ≡ some r
        → q r ≡ false
        → claim_row k q f rows ≡ (none, rows)
    claim_row_refused u {r} found fails =
        let none_claimed : (claim_row k q f rows).0 ≡ none = claim_row-find u ∙ rw (found, fails) in
        λ i. (none_claimed i, claim_row-none none_claimed i)

    -- Nor where there is no such row.
    pub claim_row_absent :
        Unique key rows → find key k rows ≡ none → claim_row k q f rows ≡ (none, rows)
    claim_row_absent u absent =
        let none_claimed : (claim_row k q f rows).0 ≡ none = claim_row-find u ∙ rw absent in
        λ i. (none_claimed i, claim_row-none none_claimed i)

    -- And where it does, it is.
    pub claim_row_won :
        Unique key rows
        → {r : A} → find key k rows ≡ some r
        → q r ≡ true
        → (claim_row k q f rows).0 ≡ some (f r)
    claim_row_won u {r} found holds = claim_row-find u ∙ rw (found, holds)
