-- ===== src/Lib.antt =====
-- The verification library of flycanon, the service that turns sources into canonical, versioned
-- knowledge.
--
-- The parts, and the code each stands for (paths from the repository's root):
--   Table      the statements that the repositories of src/flycanon/models/repositories send to the
--              database, over a table as a list of rows: `select` (SELECT), `update_where` (UPDATE),
--              `insert` (session.add), `upsert` (session.merge) and `claim_row`, the conditional UPDATE
--              with RETURNING on which the services settle their races.
--   Effects    src/flycanon/core/services/audit/audit_service.py: `record_audit` is `record`, `publish`
--              is `_publish`. A broker is the function that says which messages it takes; a failed
--              publish is logged and swallowed, so it changes nothing.
--   Chunker    src/flycanon/core/services/ingestion/chunker.py: `chunk`, `pack_section`
--              (`_pack_section`) and `split_by_chars` (`_split_by_chars`). A text is a list of code
--              points and `str.isspace` a parameter. The two `while` loops run on fuel, the length of the
--              text and one round more, which is enough when the overlap is below the budget.
--   Jobs       src/flycanon/models/repositories/ingest_job_repository.py: each function has the method's
--              name (`update` is `update_row`). The claim and the commits are conditional updates of
--              one row; the sweep is a SELECT and a later UPDATE, with what others commit between them
--              as an argument.
--     Worker   src/flycanon/core/services/sources/async_ingest_service.py: `process`, which is
--              `process_claim` and then `process_finish`, `sweep_stuck_jobs`, and in Submit
--              `submit_async`. What the intake pipeline gives is an `Outcome` that the environment
--              chooses, also that it is cancelled by the timeout of
--              src/flycanon/core/services/workers/ingest_worker.py; a cancellation behind the commit,
--              between the audit row and the webhook, is not modelled.
--   Knowledge  src/flycanon/models/repositories/knowledge_repository.py, under the methods' names.
--     Service    `create` and `update` of src/flycanon/core/services/knowledge/knowledge_service.py;
--                `update` is `read_for_update` and then `write_update`, and another request may run
--                between the two.
--     Lifecycle  `supersede`, `retire` and `get` of the same file.
--   Candidates src/flycanon/models/repositories/candidate_repository.py, and `accept`, `reject` and
--              `propose_from_source` (Proposals) of
--              src/flycanon/core/services/consolidation/candidate_service.py. An accept calls `create`
--              or `update` of Knowledge.
--   PageCache  `MemoryPageCache` of src/flycanon/core/services/query/rlm/page_cache.py. A list, the least
--              recently used entry first, is the ordered dict; the lock makes the calls a sequence.
--   EmbeddingSets  src/flycanon/models/repositories/embedding_set_repository.py, and in Service
--              `EmbeddingSetService` of src/flycanon/core/services/embeddings/embedding_sets.py: `create`,
--              `ensure_active`, `mark`, `activate` and `rollback`. Each statement is a transaction of its
--              own, as in the code. SHA-256, the database's order on ids and Python's `lower` and
--              `isspace` are a `Host`.
--   RateLimit  `_TokenBucket` and `_RateLimiter` of src/flycanon/core/services/auth/agent_token_service.py.
--   AgentTokens  src/flycanon/models/repositories/agent_token_repository.py, and `mint`, `verify` and
--              `revoke` of `AgentTokenService` in agent_token_service.py, which ask RateLimit. The hash and
--              the random parts of a token are arguments.
--   Fusion     src/flycanon/core/services/retrieval/fusion.py: `reciprocal_rank_fusion` and `retrieve` of
--              `HybridRetriever`. The floats are a type with an `Arithmetic`, and no law of it is assumed
--              but, for the order of the list, that no score is both less and greater than another.
--   Relations  src/flycanon/core/services/knowledge/relation_service.py and
--              src/flycanon/models/repositories/relation_repository.py.
--   Idempotency  src/flycanon/web/conventions/idempotency.py: the key and `InMemoryIdempotencyStore`.
--   Reindexing  src/flycanon/core/services/embeddings/reindex_service.py over
--              src/flycanon/models/repositories/chunk_repository.py and the upsert of
--              src/flycanon/core/services/retrieval/pgvector_store.py. Run has one batch and the walk
--              over the chunks with its cursor, Workspace how a run opens, catches up and ends
--              (`_run_workspace` is `run_workspace`), Scopes the commands over several workspaces and
--              `drop_set`. Before each read of the walk and of the catch-up pass the environment may
--              ingest chunks (`arrive`, `arrive_late`). Both loops run on fuel, and more fuel than
--              the workspace has chunks is enough where nothing is ingested. The order of the ids is a
--              parameter; Collation shows that the order by characters is one that serves. The
--              contents of the chunks are a function of their ids, which are the primary key. The job
--              rows carry the metadata that a reindex writes as columns. Sets are marked and switched
--              by EmbeddingSets.
--   UrlPolicy  src/flycanon/core/services/sources/url_policy.py, whole. `urlparse`, `ipaddress`, the
--              string methods and the resolver are a `Host`; a resolver that raises answers nothing. URLs
--              that `urlparse` itself rejects are left out.
--
-- A worker and a request are functions on explicit states: the tables they touch, the audit log and the
-- messages sent. Each call of a repository is one transaction, as in the code. Clocks and the ids that
-- uuid4 gives are arguments. Times are microseconds.
--
-- Not modelled: the loaders, the embedding and language models, the search in the vector store and the
-- object stores, which are other programs' work; the HTTP layer; headers and signatures of messages; and
-- the services that PROJECT.json lists as still to come (the knowledge graph, the taxonomy, the retrieval
-- service, query sessions).

pub mod AgentTokens
pub mod Candidates
pub mod Chunker
pub mod Effects
pub mod EmbeddingSets
pub mod Fusion
pub mod Idempotency
pub mod Jobs
pub mod Knowledge
pub mod PageCache
pub mod Prelude
pub mod RateLimit
pub mod Reindexing
pub mod Relations
pub mod Table
pub mod UrlPolicy
