-- ===== src/Reindexing/Dropping.antt =====
-- Dropping a set takes its vectors and its row, and nothing else.
use flycanon.Prelude.{
  ◌≡◌, refl, sym, subst, ◌&&◌, Option, not, String, str_eq, eq_iff, Bool, true, false, none, some,
  List, [], ◌∷◌, filter, length, arith, Option-cases, inl, inr,
}
use flycanon.Prelude.Actions.{ok, err}
use flycanon.Table.{select}
use flycanon.EmbeddingSets.{
  SetStatus, building, ready, active, retired, failed, EmbeddingSetRow, Scope, is_set, get, delete,
}
use flycanon.Reindexing.{VectorRow, State, Host, is_vector}
use flycanon.Reindexing.Scopes.{unknown, in_use, is_active, of_set, drop_set}

-- What a filter leaves out is not found, and what it keeps is found as before.
select-filter_out :
    {A : Type 0} (p : A → Bool) (rows : List A) → select p (filter (λ r. not (p r)) rows) ≡ none
unfolding select
select-filter_out p [] = refl
select-filter_out p (r ∷ rows) = ground (arith, select-filter_out p rows)

select-filter_kept :
    {A : Type 0} (q keep : A → Bool) (rows : List A)
    → ((r : A) → q r ≡ true → keep r ≡ true)
    → select q (filter keep rows) ≡ select q rows
unfolding select
select-filter_kept q keep [] sub = refl
select-filter_kept q keep (r ∷ rows) sub = ground (arith, sub r, select-filter_kept q keep rows sub)

filter-none :
    {A : Type 0} (p : A → Bool) (rows : List A) → filter p (filter (λ r. not (p r)) rows) ≡ []
filter-none p [] = refl
filter-none p (r ∷ rows) = ground (arith, filter-none p rows)

module _ {V : Type 0} (host : Host V) (scope : Scope) (set_id : String) (s : State V) where
  abbrev pub dropped : State V
  dropped = record s {
    vectors = filter (λ r. not (of_set host scope set_id r)) s.vectors;
    sets = delete scope set_id s.sets;
  }

  drop_set-known :
      {row : EmbeddingSetRow}
      → get scope set_id s.sets ≡ some row
      → is_active row.status ≡ false
      → drop_set host scope set_id s
        ≡ (ok (length (filter (of_set host scope set_id) s.vectors)), dropped)
  unfolding drop_set
  drop_set-known found idle = rw (found, idle) refl

  drop_set-active :
      {row : EmbeddingSetRow}
      → get scope set_id s.sets ≡ some row
      → is_active row.status ≡ true
      → drop_set host scope set_id s ≡ (err (in_use set_id), s)
  unfolding drop_set
  drop_set-active found serving = rw (found, serving) refl

  drop_set-unknown :
      get scope set_id s.sets ≡ none → drop_set host scope set_id s ≡ (err (unknown set_id), s)
  unfolding drop_set
  drop_set-unknown absent = rw absent refl

-- A vector of a set, under the namespace of a scope.
abbrev pub holds_vector : {V : Type 0} → Host V → Scope → String → VectorRow V → Bool
holds_vector host scope set_id r =
    str_eq r.set_id set_id
    && str_eq r.namespace (host.scope_namespace scope.tenant_id scope.workspace_id)

-- The drop of a set of a status: refused with nothing changed while it answers searches, carried
-- out for any other.
abbrev pub DropOf : {V : Type 0} → Host V → Scope → String → State V → SetStatus → Type 0
DropOf host scope set_id s active = drop_set host scope set_id s ≡ (err (in_use set_id), s)
DropOf host scope set_id s _ =
    (s' : State _) × (drop_set host scope set_id s
      ≡ (ok (length (filter (holds_vector host scope set_id) s.vectors)), s'))
    × (get scope set_id s'.sets ≡ none)
    × (filter (holds_vector host scope set_id) s'.vectors ≡ [])
    × (filter (λ r. not (holds_vector host scope set_id r)) s.vectors ≡ s'.vectors)
    × ((other id : String)
        → str_eq other set_id ≡ false
        → select (is_vector other id) s'.vectors ≡ select (is_vector other id) s.vectors)

-- The drop of what the scope has under the id.
abbrev pub Drops :
    {V : Type 0} → Host V → Scope → String → State V → Option EmbeddingSetRow → Type 0
Drops host scope set_id s none = drop_set host scope set_id s ≡ (err (unknown set_id), s)
Drops host scope set_id s (some row) = DropOf host scope set_id s row.status

module _ {V : Type 0} (host : Host V) (scope : Scope) (set_id : String) (s : State V)
    {row : EmbeddingSetRow} (found : get scope set_id s.sets ≡ some row) where
  drop_set-idle :
      is_active row.status ≡ false
      → (s' : State V) × (drop_set host scope set_id s
          ≡ (ok (length (filter (holds_vector host scope set_id) s.vectors)), s'))
        × (get scope set_id s'.sets ≡ none)
        × (filter (holds_vector host scope set_id) s'.vectors ≡ [])
        × (filter (λ r. not (holds_vector host scope set_id r)) s.vectors ≡ s'.vectors)
        × ((other id : String)
            → str_eq other set_id ≡ false
            → select (is_vector other id) s'.vectors ≡ select (is_vector other id) s.vectors)
  unfolding get delete
  drop_set-idle idle = (
    dropped host scope set_id s,
    drop_set-known host scope set_id s found idle,
    select-filter_out (is_set scope set_id) s.sets.sets,
    filter-none (of_set host scope set_id) s.vectors,
    refl,
    λ other id differ.
        select-filter_kept (is_vector other id) (λ r. not (of_set host scope set_id r)) s.vectors
          (λ r hit. kept other id r differ hit),
  )
    where
      kept :
          (other id : String) (r : VectorRow _)
          → str_eq other set_id ≡ false
          → is_vector other id r ≡ true
          → not (of_set host scope set_id r) ≡ true
      kept other id r differ hit =
          ground
            (arith, differ, hit, eq_iff r.set_id other, eq_iff r.set_id set_id, eq_iff other set_id)

  drop_set-found : (status : SetStatus) → row.status ≡ status → DropOf host scope set_id s status
  drop_set-found active e = drop_set-active host scope set_id s found (rw e refl)
  drop_set-found building e = drop_set-idle (rw e refl)
  drop_set-found ready e = drop_set-idle (rw e refl)
  drop_set-found retired e = drop_set-idle (rw e refl)
  drop_set-found failed e = drop_set-idle (rw e refl)

-- The drop of a set that the scope does not have raises that it is unknown, and the drop of the set
-- whose status is active raises that it is in use; neither changes anything. The drop of a set of any
-- other status returns the number of vectors that the set had in the scope: the scope has the set no
-- more, none of those vectors is left and all the others are, and every vector of every other set
-- is found as before.
pub drop_set-verdict :
    {V : Type 0} (host : Host V) (scope : Scope) (set_id : String) (s : State V)
    → Drops host scope set_id s (get scope set_id s.sets)
drop_set-verdict host scope set_id s = elim (Option-cases (get scope set_id s.sets)) [
  | inl absent ↦ rw absent (drop_set-unknown host scope set_id s absent)
  | inr (row, found) ↦
      subst (λ o. Drops host scope set_id s o) (sym found)
        (drop_set-found host scope set_id s found row.status refl)
]
