-- ===== src/Knowledge/Tests.antt =====
-- The canonical items on a small store, and their theorems at it.
use flycanon.Prelude.{
  ℕ, String, str_eq, ◌≡◌, refl, true, Option, none, some, List, [], ◌∷◌, ◌++◌, if◌then◌else◌,
}
use flycanon.Effects.{text, optional, Broker, publish, record_audit}
use flycanon.Table.{select, insert, upsert, update_where, find, Unique, claim_row}
use flycanon.Knowledge.{
  KnowledgeStatus, published, superseded, retired, KnowledgeItemRow, KnowledgeVersionRow, Citation,
  References, item_key, version_key, is_open, get_item, get_version, upsert_item, add_version,
  add_citations, upsert_version_status, transition, claim_status_transition,
}
use flycanon.Knowledge.Requests.{
  UpdateKnowledgeRequest, SupersedeKnowledgeRequest, RetireKnowledgeRequest, version_conflict,
  integrity_error, already_retired, invalid_target, Reply, returned, raised, State, Scope,
  KnowledgeEvents, citations_for,
}
use flycanon.Knowledge.Service.{
  next_version, bumped, outdated, write_update, after_update, then_, stored, cited, current_of,
  with_current, update, read_for_update, publish_lifecycle, item_audit,
}
use flycanon.Knowledge.Service.Races.{
  second_update_conflicts, refused_citations_wedge, write_update-overwrites,
}
use flycanon.Knowledge.Service.History.{update-appends}
use flycanon.Knowledge.Lifecycle.{
  supersede, supersede_refusal, bad_target, retire, retire_refusal, guarded, claim_retire,
  after_retire,
}
use flycanon.Knowledge.Lifecycle.Safety.{retire-verdict, supersede-verdict, lifecycle_audit}
use flycanon.Knowledge.Lifecycle.Terminal.{Steps, done, then_step, updated, retired_, retired-stays}

abbrev broker : Broker
broker m = true

abbrev events : KnowledgeEvents
events = record {
  knowledge_published_event = "KnowledgeItemPublished";
  knowledge_superseded_event = "KnowledgeItemSuperseded";
  knowledge_retired_event = "KnowledgeItemRetired";
  topics = record {
    audit_topic = "canon.audit";
    audit_event = "AuditRecorded";
    ingest_topic = "canon.ingest";
    knowledge_topic = "canon.knowledge";
  };
}

-- The database knows one source.
abbrev valid : References
valid row = str_eq row.source_id "s1"

abbrev scope : Scope
scope = record { tenant_id = "t"; workspace_id = "w"; correlation_id = none }

abbrev item : String → KnowledgeStatus → KnowledgeItemRow
item id status = record {
  id = id;
  tenant_id = "t";
  workspace_id = "w";
  status = status;
  current_version = 1;
  title = "Scope";
  summary = none;
  domain = "legal";
  jurisdiction = "GLOBAL";
  tags_json = [];
  metadata_json = [];
  superseded_by_item_id = none;
  retired_at = none;
  retired_reason = none;
  created_at = 1;
  updated_at = 1;
}

abbrev version : String → String → KnowledgeVersionRow
version id item_id = record {
  id = id;
  tenant_id = "t";
  workspace_id = "w";
  knowledge_item_id = item_id;
  version = 1;
  status = published;
  title = "Scope";
  summary = none;
  body = "All of it.";
  domain = "legal";
  jurisdiction = "GLOBAL";
  tags_json = [];
  supersedes_version = none;
  superseded_by_version = none;
  originating_candidate_id = none;
  created_by = none;
  metadata_json = [];
}

abbrev store : State
store = record {
  items = item "k1" published ∷ item "k2" published ∷ item "k3" retired ∷ [];
  versions = version "v1" "k1" ∷ version "v2" "k2" ∷ version "v3" "k3" ∷ [];
  citations = [];
  log = record { audit = []; published = [] };
}

store-Unique : Unique item_key store.items
store-Unique = ((refl, (refl, tt)), ((refl, tt), (tt, tt)))

abbrev request : List Citation → UpdateKnowledgeRequest
request citations = record {
  title = some "";
  body = some "Less of it.";
  summary = none;
  domain = none;
  jurisdiction = none;
  tags = none;
  citations = some citations;
  publish_now = true;
  actor = some "ann";
  metadata = none;
}

abbrev cite : String → Citation
cite source_id = record {
  source_id = source_id;
  chunk_id = none;
  quote = none;
  relevance = none;
  page = some 3;
}

abbrev good : UpdateKnowledgeRequest
good = request (cite "s1" ∷ [])

abbrev bad : UpdateKnowledgeRequest
bad = request (cite "s1" ∷ cite "s9" ∷ [])

program : Unit {0}
unfolding select insert upsert update_where claim_row publish record_audit get_item get_version
    upsert_item add_version add_citations upsert_version_status transition claim_status_transition
    citations_for read_for_update current_of with_current next_version write_update then_ stored
    cited after_update bumped outdated publish_lifecycle item_audit retire retire_refusal guarded
    claim_retire after_retire supersede supersede_refusal bad_target
program = tt

abbrev k1 : KnowledgeItemRow
k1 = item "k1" published

abbrev v1 : KnowledgeVersionRow
v1 = version "v1" "k1"

read_k1 : read_for_update "k1" scope store ≡ returned (k1, v1)
unfolding program
read_k1 = refl

retired_unread : read_for_update "k3" scope store ≡ raised (already_retired "k3")
unfolding program
retired_unread = refl

title_kept : (next_version good k1 v1 "v4" none scope).title ≡ "Scope"
unfolding program
title_kept = refl

first_free : find version_key "v4" store.versions ≡ none
unfolding program
first_free = refl

abbrev once : Reply KnowledgeVersionRow × State
once = write_update broker events valid good k1 v1 "v4" none scope 7 store

second_update_conflicts_example :
    write_update broker events valid good k1 v1 "v5" none scope 8 once.1
    ≡ (raised (version_conflict "k1" 2), once.1)
second_update_conflicts_example =
    second_update_conflicts broker events valid good good k1 k1 v1 v1 "v4" "v5" none none scope
      scope 7 8 store first_free refl refl refl

refused_citations_wedge_example :
    let (reply, s') = update broker events valid "k1" bad "v4" none scope 7 store in
    (reply ≡ raised integrity_error)
    × (s'.items ≡ store.items)
    × ((request' : UpdateKnowledgeRequest) (version_id' : String) (candidate_id' : Option String)
          (now' : ℕ)
        → update broker events valid "k1" request' version_id' candidate_id' scope now' s'
          ≡ (raised (version_conflict "k1" 2), s'))
refused_citations_wedge_example =
    refused_citations_wedge broker events valid "k1" bad "v4" none scope 7 store first_free read_k1
      (unfold select in refl) (unfold citations_for in refl)

update-appends_example :
    let v = next_version good k1 v1 "v4" none scope in
    let (reply, s') = update broker events valid "k1" good "v4" none scope 7 store in
    (reply ≡ returned v)
    × (find item_key "k1" s'.items
        ≡ some (record k1 {
          current_version = 2;
          status = published;
          title = "Scope";
          summary = none;
          domain = "legal";
          jurisdiction = "GLOBAL";
          tags_json = [];
          updated_at = 7;
        }))
    × ((k : String)
        → find version_key k s'.versions ≡ (
            if str_eq "v1" k
            then some (record v1 { status = superseded; superseded_by_version = some 2 })
            else if str_eq "v4" k
            then some v
            else find version_key k store.versions))
    × (s'.citations ≡ [] ++ citations_for "v4" (cite "s1" ∷ []) scope)
unfolding next_version
update-appends_example =
    update-appends broker events valid "k1" good "v4" none scope 7 store first_free read_k1
      (unfold select in refl) (unfold citations_for in refl)

abbrev retirement : RetireKnowledgeRequest
retirement = record { reason = "obsolete"; actor = some "bob" }

-- The store when k1 is retired after `read_k1`.
abbrev retired_store : State
retired_store = (retire broker events "k1" retirement scope 5 store).1

k1_is_retired :
    find item_key "k1" retired_store.items
    ≡ some (transition retired none (some "obsolete") true 5 k1)
unfolding program
k1_is_retired = refl

retired_free : find version_key "v4" retired_store.versions ≡ none
unfolding program
retired_free = refl

abbrev revived : Reply KnowledgeVersionRow × State
revived = write_update broker events valid good k1 v1 "v4" none scope 7 retired_store

revived_ok : revived.0 ≡ returned (next_version good k1 v1 "v4" none scope)
unfolding program
revived_ok = refl

write_update-overwrites_example :
    (find item_key "k1" revived.1.items
      ≡ some (bumped k1 (next_version good k1 v1 "v4" none scope) 7))
    × (is_open (next_version good k1 v1 "v4" none scope).status ≡ true)
write_update-overwrites_example =
    write_update-overwrites broker events valid good k1 v1 "v4" none scope 7 retired_store
      retired_free revived_ok

abbrev self_succession : SupersedeKnowledgeRequest
self_succession = record { superseded_by_item_id = "k1"; reason = none; actor = none }

self_refused :
    (supersede broker events "k1" self_succession scope 9 store).0
    ≡ raised (invalid_target "k1" "self-supersedure")
unfolding program
self_refused = refl

twice_refused :
    (retire broker events "k3" retirement scope 9 store).0 ≡ raised (already_retired "k3")
unfolding program
twice_refused = refl

got_k1 : get_item "k1" "t" "w" store.items ≡ some k1
unfolding program
got_k1 = refl

got_k2 : get_item "k2" "t" "w" store.items ≡ some (item "k2" published)
unfolding program
got_k2 = refl

retire-verdict_example :
    let (reply, s') = retire broker events "k1" retirement scope 5 store in
    let stored : KnowledgeItemRow = record k1 {
      status = retired;
      retired_at = some 5;
      retired_reason = some "obsolete";
      updated_at = 5;
    } in
    (reply ≡ returned stored)
    × (find item_key "k1" s'.items ≡ some stored)
    × (s'.log.audit
        ≡ []
          ++ lifecycle_audit "knowledge.retired" "k1"
              (some "bob")
              scope
              (("reason", text "obsolete") ∷ [])
            ∷ [])
retire-verdict_example =
    retire-verdict broker events "k1" retirement scope 5 store store-Unique got_k1 refl

abbrev succession : SupersedeKnowledgeRequest
succession = record { superseded_by_item_id = "k2"; reason = none; actor = none }

supersede-verdict_example :
    let (reply, s') = supersede broker events "k1" succession scope 5 store in
    let stored : KnowledgeItemRow = record k1 {
      status = superseded;
      superseded_by_item_id = some "k2";
      updated_at = 5;
    } in
    (reply ≡ (
      if true
      then returned stored
      else raised (invalid_target "k1" "supersede requires draft|published")))
    × (find item_key "k1" s'.items ≡ some (if true then stored else k1))
    × (s'.log.audit
        ≡ []
          ++ (if true
              then lifecycle_audit "knowledge.superseded" "k1" none scope
                  (("superseded_by_item_id", text "k2") ∷ ("reason", optional none) ∷ [])
                ∷ []
              else []))
supersede-verdict_example =
    supersede-verdict broker events "k1" succession scope 5 store store-Unique got_k1 refl got_k2
      refl

found_k3 : find item_key "k3" store.items ≡ some (item "k3" retired)
unfolding program
found_k3 = refl

abbrev day : State
day =
    (retire broker events "k3" retirement scope 8
      (update broker events valid "k3" good "v4" none scope 7 store).1).1

requests : Steps broker events valid store day
requests =
    then_step (then_step done (updated good "k3" "v4" none scope 7))
      (retired_ retirement "k3" scope 8)

retired-stays_example :
    Unique item_key day.items × (find item_key "k3" day.items ≡ some (item "k3" retired))
retired-stays_example = retired-stays broker events valid "k3" requests store-Unique found_k3 refl
