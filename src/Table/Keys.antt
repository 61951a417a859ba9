-- ===== src/Table/Keys.antt =====
-- Tables with a primary key.
use flycanon.Prelude.{
  ◌≡◌, refl, ap, sym, subst, ◌∙◌, Bool, true, false, ◌&&◌, Option, none, some, List, [], ◌∷◌, All,
  All-append, All-zip, arith, if◌then◌else◌, Bool-cases, inl, inr, String, str_eq, eq_iff, eq_refl,
}
use mathlib.Core.Option
use flycanon.Table.Rows.{select, update_where, insert, upsert, select_sound}

module _ {ℓ} {A : Type ℓ} (key : A → String) where
  -- The row with a key.
  abbrev pub find : String → List A → Option A
  find k rows = select (λ r. str_eq (key r) k) rows

  -- No two rows have one key.
  abbrev pub Unique : List A → Type ℓ
  Unique [] = Unit
  Unique (r ∷ rows) = All (λ x. str_eq (key x) (key r) ≡ false) rows × Unique rows

  -- The row, if it meets a further condition.
  abbrev pub only : (A → Bool) → Option A → Option A
  only q none = none
  only q (some r) = if q r then some r else none

  find_absent :
      (k : String) (q : A → Bool) (rows : List A) (x : A)
      → str_eq (key x) k ≡ true
      → All (λ y. str_eq (key y) (key x) ≡ false) rows
      → select (λ r. str_eq (key r) k && q r) rows ≡ none
  unfolding select
  find_absent k q [] x h all = refl
  find_absent k q (y ∷ rows) x h all = ground (
    arith,
    eq_iff (key x) k,
    eq_iff (key y) k,
    eq_iff (key y) (key x),
    find_absent k q rows x h all.1,
  )

  -- A condition on the key and more: at most one row is found, that with the key.
  pub select-find :
      (k : String) (q : A → Bool) (rows : List A)
      → Unique rows
      → select (λ r. str_eq (key r) k && q r) rows ≡ only q (find k rows)
  unfolding select
  select-find k q [] u = refl
  select-find k q (x ∷ rows) u = elim (Bool-cases (str_eq (key x) k)) [
    | inl here ↦ ground (arith, find_absent k q rows x here u.0)
    | inr there ↦ ground (arith, select-find k q rows u.1)
  ]

  pub find-update_where :
      (k : String) (p : A → Bool) (f : A → A) (rows : List A)
      → ((r : A) → key (f r) ≡ key r)
      → find k (update_where p f rows) ≡ Option.map (λ r. if p r then f r else r) (find k rows)
  unfolding select update_where
  find-update_where k p f [] same = refl
  find-update_where k p f (x ∷ rows) same =
      ground (arith, same x, find-update_where k p f rows same)

  pub find-update_hit :
      (k : String) (p : A → Bool) (f : A → A) (rows : List A) {r : A}
      → ((r : A) → key (f r) ≡ key r)
      → find k rows ≡ some r
      → p r ≡ true
      → find k (update_where p f rows) ≡ some (f r)
  find-update_hit k p f rows same found hit =
      find-update_where k p f rows same ∙ rw (found, hit) refl

  pub find-update_miss :
      (k : String) (p : A → Bool) (f : A → A) (rows : List A) {r : A}
      → ((r : A) → key (f r) ≡ key r)
      → find k rows ≡ some r
      → p r ≡ false
      → find k (update_where p f rows) ≡ some r
  find-update_miss k p f rows same found miss =
      find-update_where k p f rows same ∙ rw (found, miss) refl

  pub find-upsert :
      (k : String) (row : A) (rows : List A)
      → find k (upsert key row rows) ≡ (if str_eq (key row) k then some row else find k rows)
  unfolding select upsert
  find-upsert k row [] = refl
  find-upsert k row (x ∷ rows) = ground (
    arith,
    find-upsert k row rows,
    eq_iff (key row) k,
    eq_iff (key x) k,
    eq_iff (key x) (key row),
  )

  pub find-insert_ne :
      (k : String) (row : A) (rows : List A)
      → str_eq (key row) k ≡ false
      → find k (insert row rows) ≡ find k rows
  unfolding select insert
  find-insert_ne k row [] h = ground arith
  find-insert_ne k row (x ∷ rows) h = ground (arith, find-insert_ne k row rows h)

  pub find-insert_new :
      (row : A) (rows : List A)
      → find (key row) rows ≡ none
      → find (key row) (insert row rows) ≡ some row
  unfolding select insert
  find-insert_new row [] h = ground (arith, eq_iff (key row) (key row))
  find-insert_new row (x ∷ rows) h = ground (arith, find-insert_new row rows)

  pub find-insert :
      (k : String) (row : A) (rows : List A)
      → find (key row) rows ≡ none
      → find k (insert row rows) ≡ (if str_eq (key row) k then some row else find k rows)
  find-insert k row rows absent = elim (Bool-cases (str_eq (key row) k)) [
    | inl same ↦ rw same (
        subst (λ x. find x (insert row rows) ≡ some row) ((eq_iff (key row) k).0 same)
          (find-insert_new row rows absent))
    | inr other ↦ rw other (find-insert_ne k row rows other)
  ]

  -- The key of a row is not that of any of `rows`.
  abbrev Absent : String → List A → Type 0
  Absent k rows = All (λ x. str_eq (key x) k ≡ false) rows

  Absent-update_where :
      (k : String) (p : A → Bool) (f : A → A) (rows : List A)
      → ((r : A) → key (f r) ≡ key r)
      → Absent k rows
      → Absent k (update_where p f rows)
  unfolding update_where
  Absent-update_where k p f [] same all = tt
  Absent-update_where k p f (x ∷ rows) same all =
      (ground (arith, same x, all.0), Absent-update_where k p f rows same all.1)

  key_kept : (b : Bool) (f : A → A) (x : A) → key (f x) ≡ key x → key (if b then f x else x) ≡ key x
  key_kept true f x e = e
  key_kept false f x e = refl

  pub Unique-update_where :
      (p : A → Bool) (f : A → A) (rows : List A)
      → ((r : A) → key (f r) ≡ key r)
      → Unique rows
      → Unique (update_where p f rows)
  unfolding update_where
  Unique-update_where p f [] same u = tt
  Unique-update_where p f (x ∷ rows) same u = (
    rw (key_kept (p x) f x (same x)) (Absent-update_where (key x) p f rows same u.0),
    Unique-update_where p f rows same u.1,
  )

  pub Absent-none : (k : String) (rows : List A) → find k rows ≡ none → Absent k rows
  unfolding select
  Absent-none k [] h = tt
  Absent-none k (x ∷ rows) h = (ground arith, Absent-none k rows (ground arith))

  pub Unique-insert :
      (row : A) (rows : List A)
      → find (key row) rows ≡ none
      → Unique rows
      → Unique (insert row rows)
  unfolding insert select
  Unique-insert row [] h u = (tt, tt)
  Unique-insert row (x ∷ rows) h u = (
    All-append (λ y. str_eq (key y) (key x) ≡ false) rows (row ∷ []) u.0
        (ground (arith, eq_iff (key row) (key x), eq_iff (key x) (key row)), tt),
    Unique-insert row rows (ground arith) u.1,
  )

  Absent-upsert :
      (k : String) (row : A) (rows : List A)
      → str_eq (key row) k ≡ false
      → Absent k rows
      → Absent k (upsert key row rows)
  unfolding upsert
  Absent-upsert k row [] h all = (h, tt)
  Absent-upsert k row (x ∷ rows) h all = elim (Bool-cases (str_eq (key x) (key row))) [
    | inl same ↦ rw same (h, all.1)
    | inr other ↦ rw other (all.0, Absent-upsert k row rows h all.1)
  ]

  pub Unique-upsert : (row : A) (rows : List A) → Unique rows → Unique (upsert key row rows)
  unfolding upsert
  Unique-upsert row [] u = (tt, tt)
  Unique-upsert row (x ∷ rows) u = elim (Bool-cases (str_eq (key x) (key row))) [
    | inl same ↦ rw same (rw (sym ((eq_iff (key x) (key row)).0 same)) u.0, u.1)
    | inr other ↦ rw other (
      Absent-upsert (key x) row rows
          (ground (arith, eq_iff (key row) (key x), eq_iff (key x) (key row))) u.0,
      Unique-upsert row rows u.1,
    )
  ]

  pub find-insert_old :
      (k : String) (row : A) (rows : List A) {r : A}
      → find k rows ≡ some r
      → find k (insert row rows) ≡ some r
  unfolding select insert
  find-insert_old k row [] h = absurd (ground arith)
  find-insert_old k row (x ∷ rows) {r} h = ground (arith, find-insert_old k row rows {r = r})

  pub key-find : (k : String) (rows : List A) {r : A} → find k rows ≡ some r → key r ≡ k
  key-find k rows {r} h = (eq_iff (key r) k).0 (select_sound (λ x. str_eq (key x) k) rows h)

  -- A row is found under its own key.
  pub find_self : (rows : List A) → Unique rows → All (λ r. find (key r) rows ≡ some r) rows
  unfolding select
  find_self [] u = tt
  find_self (x ∷ rows) u = (
    rw (eq_refl (key x)) refl,
    All-zip (λ r. str_eq (key r) (key x) ≡ false) (λ r. find (key r) rows ≡ some r)
        (λ r. find (key r) (x ∷ rows) ≡ some r) rows
        (λ r other found. ground (arith, eq_iff (key r) (key x), eq_iff (key x) (key r))) u.0
        (find_self rows u.1),
  )

  -- Keys that find different things are different.
  pub other_of_absent :
      (k k' : String) (rows : List A) {r : A}
      → find k rows ≡ none
      → find k' rows ≡ some r
      → str_eq k k' ≡ false
  other_of_absent k k' rows {r} absent found = elim (Bool-cases (str_eq k k')) [
    | inl same ↦
        let e : find k rows ≡ find k' rows = ap (λ x. find x rows) ((eq_iff k k').0 same) in
        absurd (not_both (find k rows) absent (e ∙ found))
    | inr other ↦ other
  ]
    where
      not_both : (o : Option A) → o ≡ none → o ≡ some r → ⊥
      not_both none h h' = absurd (ground arith)
      not_both (some x) h h' = absurd (ground arith)

  pub other_of_test :
      (p : A → Bool) (k k' : String) (rows : List A) {a b : A}
      → find k rows ≡ some a
      → p a ≡ false
      → find k' rows ≡ some b
      → p b ≡ true
      → str_eq k k' ≡ false
  other_of_test p k k' rows {a} {b} found fails found' holds = elim (Bool-cases (str_eq k k')) [
    | inl same ↦
        let e : find k rows ≡ find k' rows = ap (λ x. find x rows) ((eq_iff k k').0 same) in
        let e' : a ≡ b = some_inj (sym found ∙ e ∙ found') in let e'' : p a ≡ p b = ap p e' in cc
    | inr other ↦ other
  ]
    where
      some_inj : {x y : A} → some x ≡ some y → x ≡ y
      some_inj h = ground arith
