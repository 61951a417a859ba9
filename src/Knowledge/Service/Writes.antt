-- ===== src/Knowledge/Service/Writes.antt =====
-- What the reads and the writes of `update` come to, case by case.
use flycanon.Prelude.{
  ℕ, ◌+◌, String, str_eq, ◌≡◌, ◌⊎◌, refl, subst, Bool, true, false, ◌||◌, Option, none, some, List,
  [], ◌∷◌, ◌++◌, arith, is_some, Bool-cases, inl, inr, eq_refl,
}
use flycanon.Effects.{Broker}
use flycanon.Table.{select, select-insert_old, insert, find, upsert}
use flycanon.Knowledge.{
  KnowledgeItemRow, KnowledgeVersionRow, CitationRow, Versions, References, version_key, is_version,
  is_retired, is_open, get_item, get_version, add_version, add_citations, all_valid,
  upsert_version_status,
}
use flycanon.Knowledge.Requests.{
  UpdateKnowledgeRequest, KnowledgeError, version_conflict, integrity_error, Reply, returned,
  raised, State, Scope, KnowledgeEvents, citations_for, initial_status, default_to,
}
use flycanon.Knowledge.Service.{
  cited, stored, then_, with_current, current_of, next_version, outdated, written, write_update,
  after_update, update, read_for_update,
}

-- A version that is stored is found, under any number of later inserts.
pub some_select-insert :
    (p : KnowledgeVersionRow → Bool) (row : KnowledgeVersionRow) (rows : Versions)
    → is_some (select p rows) || p row ≡ true
    → is_some (select p (insert row rows)) ≡ true
unfolding select insert
some_select-insert p row [] h = ground arith
some_select-insert p row (x ∷ rows) h = ground (arith, some_select-insert p row rows)

-- Nor does a merge of a row with another key take it away.
pub some_select-upsert :
    (p : KnowledgeVersionRow → Bool) (row new : KnowledgeVersionRow) (rows : Versions)
    → p new ≡ true
    → str_eq new.id row.id ≡ false
    → is_some (select p (upsert version_key row (insert new rows))) ≡ true
unfolding select insert upsert
some_select-upsert p row new [] h other = ground arith
some_select-upsert p row new (x ∷ rows) h other =
    ground (arith, some_select-upsert p row new rows, some_select-insert p new rows)

abbrev pub has_version : String → ℕ → Versions → Bool
has_version item_id version versions = is_some (select (is_version item_id version) versions)

abbrev pub IsRead :
    String
    → Scope
    → State
    → KnowledgeItemRow
    → KnowledgeVersionRow
    → Option KnowledgeItemRow
    → Type 0
IsRead item_id scope s item current o =
    (o ≡ some item)
    × (is_retired item.status ≡ false)
    × (get_version item_id item.current_version scope.tenant_id scope.workspace_id s.versions
        ≡ some current)

pub with_current_inv :
    (item_id : String) {row item : KnowledgeItemRow} {current : KnowledgeVersionRow}
    (o : Option KnowledgeVersionRow)
    → with_current item_id row o ≡ returned (item, current)
    → (row ≡ item) × (o ≡ some current)
unfolding with_current
with_current_inv item_id none e = absurd (ground arith)
with_current_inv item_id (some c) e = (ground arith, ground arith)

pub current_of_inv :
    (item_id : String) (scope : Scope) (s : State) {item : KnowledgeItemRow}
    {current : KnowledgeVersionRow} (o : Option KnowledgeItemRow)
    → current_of item_id scope s o ≡ returned (item, current)
    → IsRead item_id scope s item current o
unfolding current_of
current_of_inv item_id scope s none e = absurd (ground arith)
current_of_inv item_id scope s {item} {current} (some row) e =
    elim (Bool-cases (is_retired row.status)) [
      | inl gone ↦ absurd (ground arith)
      | inr live ↦
          let (same, found) = with_current_inv item_id _ (rw live at e) in
          subst (λ x. IsRead item_id scope s x current (some row)) same (refl, live, found)
    ]

-- What `update` has read.
pub IsRead-inv :
    (item_id : String) (scope : Scope) (s : State) {item : KnowledgeItemRow}
    {current : KnowledgeVersionRow}
    → read_for_update item_id scope s ≡ returned (item, current)
    → IsRead item_id scope s item current
        (get_item item_id scope.tenant_id scope.workspace_id s.items)
unfolding read_for_update
IsRead-inv item_id scope s h = current_of_inv item_id scope s _ h

pub initial_open : (b : Bool) → is_open (initial_status b) ≡ true
initial_open true = refl
initial_open false = refl

pub raised_not_returned : {A : Type 0} {e : KnowledgeError} {a : A} → raised e ≡ returned a → ⊥
raised_not_returned h = absurd (ground arith)

pub returned_inj : {A : Type 0} {a b : A} → returned a ≡ returned b → a ≡ b
returned_inj h = ground arith

-- The reads of `update` are the same when a version has been added.
pub read_insert :
    (item_id : String) (scope : Scope) (row : KnowledgeVersionRow) (s : State)
    {item : KnowledgeItemRow} {current : KnowledgeVersionRow}
    → read_for_update item_id scope s ≡ returned (item, current)
    → read_for_update item_id scope (record s { versions = insert row s.versions })
      ≡ returned (item, current)
unfolding read_for_update current_of with_current get_version
read_insert item_id scope row s {item} {current} h =
    let (found, live, read) = IsRead-inv item_id scope s h in
    rw (found, live, select-insert_old _ row s.versions read) refl

module _ (broker : Broker) (events : KnowledgeEvents) (valid : References) where
  abbrev pub writes :
      UpdateKnowledgeRequest
      → KnowledgeItemRow
      → KnowledgeVersionRow
      → String
      → Option String
      → Scope
      → ℕ
      → State
      → Reply KnowledgeVersionRow × State
  writes = write_update broker events valid

  pub conflict_of_taken :
      (request : UpdateKnowledgeRequest) (item : KnowledgeItemRow) (current : KnowledgeVersionRow)
      (version_id : String) (candidate_id : Option String) (scope : Scope) (now : ℕ) (s : State)
      → has_version item.id (item.current_version + 1) s.versions ≡ true
      → writes request item current version_id candidate_id scope now s
        ≡ (raised (version_conflict item.id (item.current_version + 1)), s)
  unfolding write_update next_version add_version stored then_
  conflict_of_taken request item current version_id candidate_id scope now s h = rw h refl

  module _ (request : UpdateKnowledgeRequest) (item : KnowledgeItemRow)
      (current : KnowledgeVersionRow) (version_id : String) (candidate_id : Option String)
      (scope : Scope) (now : ℕ) (s : State) where
    abbrev pub new : KnowledgeVersionRow
    new = next_version request item current version_id candidate_id scope

    abbrev pub reply : Reply KnowledgeVersionRow × State
    reply = writes request item current version_id candidate_id scope now s

    abbrev pub new_rows : List CitationRow
    new_rows = citations_for version_id (default_to request.citations []) scope

    -- What the insert and the citations decide.
    pub write_cases :
        find version_key version_id s.versions ≡ none
        → (has_version item.id (item.current_version + 1) s.versions ≡ true)
          ⊎ ((has_version item.id (item.current_version + 1) s.versions ≡ false)
              × (all_valid valid new_rows ≡ false)
              × (reply ≡ (raised integrity_error, record s { versions = insert new s.versions })))
          ⊎ ((has_version item.id (item.current_version + 1) s.versions ≡ false)
              × (all_valid valid new_rows ≡ true)
              × (reply ≡ (
                returned new,
                after_update broker events request item current scope now new (record s {
                  versions = insert new s.versions;
                  citations = s.citations ++ new_rows;
                }),
              )))
    unfolding write_update next_version add_version stored cited then_ add_citations
    write_cases fresh =
        elim (Bool-cases (has_version item.id (item.current_version + 1) s.versions)) [
          | inl taken ↦ inl taken
          | inr free ↦ elim (Bool-cases (all_valid valid new_rows)) [
            | inl good ↦ inr (inr (free, good, rw (free, fresh, good) refl))
            | inr bad ↦ inr (inl (free, bad, rw (free, fresh, bad) refl))
          ]
        ]

    -- Whatever its reply, an update leaves the number that it was to take taken.
    pub has_version-write :
        find version_key version_id s.versions ≡ none
        → str_eq version_id current.id ≡ false
        → has_version item.id (item.current_version + 1) reply.1.versions ≡ true
    unfolding write_update after_update next_version upsert_version_status outdated
    has_version-write fresh other = elim (write_cases fresh) [
      | inl taken ↦
          rw (conflict_of_taken request item current version_id candidate_id scope now s taken)
            taken
      | inr (inl (free, bad, e)) ↦ rw e (
          some_select-insert (is_version item.id (item.current_version + 1)) new s.versions
            (rw (free, eq_refl item.id) (ground arith)))
      | inr (inr (free, good, e)) ↦ rw e (
          some_select-upsert (is_version item.id (item.current_version + 1))
            (outdated current new.version) new s.versions (rw (eq_refl item.id) (ground arith))
            other)
    ]

  pub update_of_read :
      (item_id : String) (request : UpdateKnowledgeRequest) (version_id : String)
      (candidate_id : Option String) (scope : Scope) (now : ℕ) (s : State) {item : KnowledgeItemRow}
      {current : KnowledgeVersionRow}
      → read_for_update item_id scope s ≡ returned (item, current)
      → update broker events valid item_id request version_id candidate_id scope now s
        ≡ writes request item current version_id candidate_id scope now s
  unfolding update written
  update_of_read item_id request version_id candidate_id scope now s h = rw h refl
