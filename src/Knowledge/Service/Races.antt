-- ===== src/Knowledge/Service/Races.antt =====
-- What `update` does when another request, or an earlier attempt, has come between its reads and its
-- writes.
use flycanon.Prelude.{
  ℕ, ◌+◌, String, str_eq, ◌≡◌, refl, sym, subst, ap, ◌∙◌, true, false, Option, none, some, [],
  arith, inl, inr, eq_refl,
}
use flycanon.Effects.{Broker}
use flycanon.Table.{insert, find, find-upsert}
use flycanon.Knowledge.{
  KnowledgeItemRow, KnowledgeVersionRow, References, item_key, version_key, is_version, is_open,
  all_valid, upsert_item,
}
use flycanon.Knowledge.Requests.{
  UpdateKnowledgeRequest, version_conflict, integrity_error, returned, raised, State, Scope,
  KnowledgeEvents, citations_for, default_to,
}
use flycanon.Knowledge.Service.{next_version, bumped, after_update, update, read_for_update}
use flycanon.Knowledge.Service.Writes.{
  some_select-insert, has_version, initial_open, raised_not_returned, returned_inj, read_insert,
  writes, conflict_of_taken, new, write_cases, has_version-write, update_of_read,
}

module _ (broker : Broker) (events : KnowledgeEvents) (valid : References) where
  -- Two updates that have read the same version of an item, or an update and a later retry of it: once
  -- the first has run to its end, with whatever reply, the second is refused as a version conflict and
  -- changes nothing.
  pub second_update_conflicts :
      (request request' : UpdateKnowledgeRequest) (item item' : KnowledgeItemRow)
      (current current' : KnowledgeVersionRow) (version_id version_id' : String)
      (candidate_id candidate_id' : Option String) (scope scope' : Scope) (now now' : ℕ) (s : State)
      → find version_key version_id s.versions ≡ none
      → str_eq version_id current.id ≡ false
      → item'.id ≡ item.id
      → item'.current_version ≡ item.current_version
      → let s' =
          (writes broker events valid request item current version_id candidate_id scope now s).1 in
        writes broker events valid request' item' current' version_id' candidate_id' scope' now' s'
        ≡ (raised (version_conflict item'.id (item'.current_version + 1)), s')
  second_update_conflicts request request' item item' current current' version_id version_id'
        candidate_id candidate_id' scope scope' now now' s fresh other same_item same_version =
      let s' =
        (writes broker events valid request item current version_id candidate_id scope now s).1 in
      let taken =
        has_version-write broker events valid request item current version_id candidate_id scope now
          s fresh other in
      conflict_of_taken broker events valid request' item' current' version_id' candidate_id' scope'
        now' s'
        (subst (λ k. has_version k (item'.current_version + 1) s'.versions ≡ true) (sym same_item)
          (subst (λ n. has_version item.id (n + 1) s'.versions ≡ true) (sym same_version) taken))

  -- An update whose citations the database refuses raises its IntegrityError and leaves the item as it
  -- was, but with the number of its next version taken: any update of the item in the same scope that
  -- directly follows is refused as a version conflict and writes nothing, also with good citations.
  pub refused_citations_wedge :
      (item_id : String) (request : UpdateKnowledgeRequest) (version_id : String)
      (candidate_id : Option String) (scope : Scope) (now : ℕ) (s : State) {item : KnowledgeItemRow}
      {current : KnowledgeVersionRow}
      → find version_key version_id s.versions ≡ none
      → read_for_update item_id scope s ≡ returned (item, current)
      → has_version item.id (item.current_version + 1) s.versions ≡ false
      → all_valid valid (citations_for version_id (default_to request.citations []) scope) ≡ false
      → let (reply_, s') =
          update broker events valid item_id request version_id candidate_id scope now s in
        (reply_ ≡ raised integrity_error)
        × (s'.items ≡ s.items)
        × ((request' : UpdateKnowledgeRequest) (version_id' : String)
              (candidate_id' : Option String) (now' : ℕ)
            → update broker events valid item_id request' version_id' candidate_id' scope now' s'
              ≡ (raised (version_conflict item.id (item.current_version + 1)), s'))
  unfolding next_version
  refused_citations_wedge item_id request version_id candidate_id scope now s {item} {current} fresh
        read free bad =
      let row = new broker events valid request item current version_id candidate_id scope now s in
      let s' : State = record s { versions = insert row s.versions } in
      let wrote : update broker events valid item_id request version_id candidate_id scope now s
          ≡ (raised integrity_error, s') =
        update_of_read broker events valid item_id request version_id candidate_id scope now s read
        ∙ refused in
      rw wrote (
        refl,
        refl,
        λ request' version_id' candidate_id' now'.
            update_of_read broker events valid item_id request' version_id' candidate_id' scope now'
              s' still
            ∙ conflict_of_taken broker events valid request' item current version_id' candidate_id'
                scope now' s' taken,
      )
    where
      row : KnowledgeVersionRow
      row = new broker events valid request item current version_id candidate_id scope now s

      refused :
          writes broker events valid request item current version_id candidate_id scope now s
          ≡ (raised integrity_error, record s { versions = insert row s.versions })
      refused =
          elim (write_cases broker events valid request item current version_id candidate_id scope
            now s fresh) [
              | inl taken ↦ absurd (ground arith)
              | inr (inl (_, _, e)) ↦ e
              | inr (inr (_, good, _)) ↦ absurd (ground arith)
            ]

      taken : has_version item.id (item.current_version + 1) (insert row s.versions) ≡ true
      taken =
          some_select-insert (is_version item.id (item.current_version + 1)) row s.versions
            (rw (free, eq_refl item.id) (ground arith))

      still :
          read_for_update item_id scope (record s { versions = insert row s.versions })
          ≡ returned (item, current)
      still = read_insert item_id scope row s read

  -- A successful update leaves the row that it had read, bumped to a draft or a published version,
  -- whatever another request has made of the item meanwhile, so that a retirement in between is lost.
  pub write_update-overwrites :
      (request : UpdateKnowledgeRequest) (item : KnowledgeItemRow) (current : KnowledgeVersionRow)
      (version_id : String) (candidate_id : Option String) (scope : Scope) (now : ℕ) (s : State)
      {v : KnowledgeVersionRow}
      → find version_key version_id s.versions ≡ none
      → let (reply_, s') =
          writes broker events valid request item current version_id candidate_id scope now s in
        reply_ ≡ returned v
        → (find item_key item.id s'.items ≡ some (bumped item v now)) × (is_open v.status ≡ true)
  unfolding after_update upsert_item bumped next_version
  write_update-overwrites request item current version_id candidate_id scope now s {v} fresh ok =
      elim (write_cases broker events valid request item current version_id candidate_id scope now s
        fresh) [
          | inl taken ↦ absurd (
              raised_not_returned (
                sym (
                  ap (λ r. r.0)
                    (conflict_of_taken broker events valid request item current version_id
                      candidate_id scope now s taken))
                ∙ ok))
          | inr (inl (_, _, e)) ↦ absurd (raised_not_returned (sym (ap (λ r. r.0) e) ∙ ok))
          | inr (inr (_, _, e)) ↦
              let row =
                new broker events valid request item current version_id candidate_id scope now s in
              subst
                (λ x.
                  (find item_key item.id
                      (writes broker events valid request item current version_id candidate_id scope
                        now s).1.items
                    ≡ some (bumped item x now))
                  × (is_open x.status ≡ true))
                (returned_inj (sym (ap (λ r. r.0) e) ∙ ok))
                (
                  rw e (
                      find-upsert item_key item.id (bumped item row now) s.items
                      ∙ rw (eq_refl item.id) refl),
                  initial_open request.publish_now,
                )
        ]
