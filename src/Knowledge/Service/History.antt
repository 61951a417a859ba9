-- ===== src/Knowledge/Service/History.antt =====
-- What a successful `update` does to the history of an item.
use flycanon.Prelude.{
  ℕ, ◌+◌, String, str_eq, ◌≡◌, refl, ◌∙◌, true, false, Option, none, some, [], ◌++◌, arith, inl,
  inr, eq_refl, if◌then◌else◌,
}
use flycanon.Effects.{Broker}
use flycanon.Table.{insert, find, find-upsert, find-insert}
use flycanon.Knowledge.{
  superseded, KnowledgeItemRow, KnowledgeVersionRow, References, item_key, version_key, all_valid,
  upsert_item, upsert_version_status,
}
use flycanon.Knowledge.Requests.{
  UpdateKnowledgeRequest, returned, State, Scope, KnowledgeEvents, citations_for, default_to,
}
use flycanon.Knowledge.Service.{
  next_version, bumped, outdated, after_update, update, read_for_update,
}
use flycanon.Knowledge.Service.Writes.{has_version, write_cases, update_of_read}

-- An update that finds a live item and its current version, that takes a number which is free and has
-- citations that the database accepts, replies with the new version; the item points to it and takes
-- over its header, the version before is superseded by it, every other version keeps its row, and the citations are added.
pub update-appends :
    (broker : Broker) (events : KnowledgeEvents) (valid : References) (item_id : String)
    (request : UpdateKnowledgeRequest) (version_id : String) (candidate_id : Option String)
    (scope : Scope) (now : ℕ) (s : State) {item : KnowledgeItemRow} {current : KnowledgeVersionRow}
    → find version_key version_id s.versions ≡ none
    → read_for_update item_id scope s ≡ returned (item, current)
    → has_version item.id (item.current_version + 1) s.versions ≡ false
    → all_valid valid (citations_for version_id (default_to request.citations []) scope) ≡ true
    → let v = next_version request item current version_id candidate_id scope in
      let (reply, s') =
        update broker events valid item_id request version_id candidate_id scope now s in
      (reply ≡ returned v)
      × (find item_key item.id s'.items
          ≡ some (record item {
            current_version = item.current_version + 1;
            status = v.status;
            title = v.title;
            summary = v.summary;
            domain = v.domain;
            jurisdiction = v.jurisdiction;
            tags_json = v.tags_json;
            updated_at = now;
          }))
      × ((k : String)
          → find version_key k s'.versions ≡ (
              if str_eq current.id k
              then some (record current {
                status = superseded;
                superseded_by_version = some (item.current_version + 1);
              })
              else if str_eq version_id k
              then some v
              else find version_key k s.versions))
      × (s'.citations
          ≡ s.citations ++ citations_for version_id (default_to request.citations []) scope)
unfolding after_update upsert_item upsert_version_status next_version bumped outdated
update-appends broker events valid item_id request version_id candidate_id scope now s {item}
      {current} fresh read free good =
    elim (write_cases broker events valid request item current version_id candidate_id scope now s
      fresh) [
        | inl taken ↦ absurd (ground arith)
        | inr (inl (_, bad, _)) ↦ absurd (ground arith)
        | inr (inr (_, _, wrote)) ↦
            let v = next_version request item current version_id candidate_id scope in
            let old = outdated current v.version in
            rw
              (update_of_read broker events valid item_id request version_id candidate_id scope now
                  s read
                ∙ wrote)
              (
                refl,
                find-upsert item_key item.id (bumped item v now) s.items
                    ∙ rw (eq_refl item.id) refl,
                (λ k.
                    find-upsert version_key k old (insert v s.versions)
                    ∙ rw (find-insert version_key k v s.versions fresh) refl),
                refl,
              )
      ]
