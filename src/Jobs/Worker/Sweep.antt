-- ===== src/Jobs/Worker/Sweep.antt =====
-- What the lease sweeper does to the table and which deliveries it asks for.
use mathlib.Core.Option
use flycanon.Prelude.{
  ℕ, zero, suc, min, ◌<◌, ◌⊎◌, String, ◌≡◌, refl, ◌&&◌, ltb, ◌+◌, ◌*◌, ap, Bool, false, Option,
  none, is_some, Option-cases, str_eq, sym, ◌∙◌, true, false, some, List, [], ◌∷◌, ◌++◌, map,
  append-nil, append_assoc, All, All-imp, All-take, All-filter, All-map, arith, length, take,
  filter, length-take, length-map, if◌then◌else◌, Bool-cases, inl, inr,
}
use flycanon.Effects.{Message, event, text, Broker, Log, Topics, publish}
use flycanon.Table.{select, find, find_self, Unique, find-update_where, key-find}
use flycanon.Jobs.{
  JobStatus, queued, running, succeeded, failed, JobRow, Jobs, job_key, is_running, started_before,
  is_stale, demoted, ReclaimedJob, mem_id, stuck, requeue, reclaim_stuck,
}
use flycanon.Jobs.Worker.{State, IngestSettings, publish_requested, sweep_stuck_jobs}

-- What the claimant of a row is told about it.
abbrev pub ticket : JobRow → ReclaimedJob
ticket r = record { job_id = r.id; tenant_id = r.tenant_id; workspace_id = r.workspace_id }

abbrev pub request : Topics → ReclaimedJob → Message
request topics job = event topics.ingest_topic "IngestSourceRequested" (
    ("job_id", text job.job_id)
    ∷ ("tenant_id", text job.tenant_id)
    ∷ ("workspace_id", text job.workspace_id)
    ∷ [])

-- A running row whose lease has run out.
abbrev overdue : ℕ → ℕ → JobStatus → Option ℕ → Bool
overdue lease now running (some started_at) = ltb (started_at + lease * 1000000) now
overdue lease now _ _ = false

abbrev pub has_lapsed : ℕ → ℕ → JobRow → Bool
has_lapsed lease now row = overdue lease now row.status row.started_at

lapsed_stale : (lease now : ℕ) (r : JobRow) → is_stale lease now r ≡ has_lapsed lease now r
lapsed_stale lease now r = same r.status r.started_at
  where
    same :
        (s : JobStatus) (o : Option ℕ)
        → (is_running s && started_before lease now o) ≡ overdue lease now s o
    same queued o = refl
    same running none = refl
    same running (some t) = refl
    same succeeded o = refl
    same failed o = refl

filter-lapsed :
    (lease now : ℕ) (rows : Jobs)
    → filter (is_stale lease now) rows ≡ filter (has_lapsed lease now) rows
filter-lapsed lease now [] = refl
filter-lapsed lease now (r ∷ rows) =
    rw (lapsed_stale lease now r, filter-lapsed lease now rows) refl

-- The job that the sweep reports stands for a row whose lease had run out.
abbrev pub IsReclaimed : ℕ → ℕ → Jobs → ReclaimedJob → Type 0
IsReclaimed lease now jobs job =
    (row : JobRow) × (find job_key job.job_id jobs ≡ some row)
    × (has_lapsed lease now row ≡ true)
    × (job ≡ ticket row)

-- A row that is back in the queue.
abbrev pub returned : JobRow → JobRow
returned row = record row { status = queued; error_code = none; error_message = none }

abbrev pub reclaimed_id : ReclaimedJob → String
reclaimed_id job = job.job_id

Unique-ticket : (rows : Jobs) → Unique job_key rows → Unique reclaimed_id (map ticket rows)
Unique-ticket [] u = tt
Unique-ticket (r ∷ rows) u =
    (All-map (λ x. str_eq x.job_id r.id ≡ false) ticket rows u.0, Unique-ticket rows u.1)

Unique-take : (n : ℕ) (rows : Jobs) → Unique job_key rows → Unique job_key (take n rows)
Unique-take zero rows u = tt
Unique-take (suc n) [] u = tt
Unique-take (suc n) (r ∷ rows) u =
    (All-take (λ x. str_eq x.id r.id ≡ false) n rows u.0, Unique-take n rows u.1)

Unique-filter :
    (p : JobRow → Bool) (rows : Jobs) → Unique job_key rows → Unique job_key (filter p rows)
Unique-filter p [] u = tt
Unique-filter p (r ∷ rows) u = elim (Bool-cases (p r)) [
  | inl keep ↦ rw keep (
    All-imp _ (λ (x : JobRow). str_eq x.id r.id ≡ false) _ (λ x both. both.0)
        (All-filter (λ (x : JobRow). str_eq x.id r.id ≡ false) p rows u.0),
    Unique-filter p rows u.1,
  )
  | inr drop_ ↦ rw drop_ (Unique-filter p rows u.1)
]

mem-find :
    (k : String) (reclaimed : List ReclaimedJob)
    → mem_id k reclaimed ≡ is_some (find reclaimed_id k reclaimed)
unfolding select
mem-find k [] = refl
mem-find k (j ∷ js) = elim (Bool-cases (str_eq j.job_id k)) [
  | inl same ↦ rw same refl
  | inr other ↦ rw other (mem-find k js)
]

-- The row of an id behind the UPDATE of a sweep.
find-requeue :
    (k : String) (reclaimed : List ReclaimedJob) (jobs : Jobs)
    → find job_key k (requeue reclaimed jobs) ≡ (
        if is_some (find reclaimed_id k reclaimed)
        then Option.map returned (find job_key k jobs)
        else find job_key k jobs)
unfolding requeue demoted
find-requeue k reclaimed jobs =
    find-update_where job_key k (λ x. mem_id x.id reclaimed) demoted jobs (λ x. refl)
    ∙ elim (Option-cases (find job_key k jobs)) [
      | inl absent ↦ rw absent (elim (Bool-cases (is_some (find reclaimed_id k reclaimed))) [
        | inl yes_ ↦ rw yes_ refl
        | inr no_ ↦ rw no_ refl
      ])
      | inr (r, found) ↦
          let named : mem_id r.id reclaimed ≡ is_some (find reclaimed_id k reclaimed) =
            ap (λ i. mem_id i reclaimed) (key-find job_key k jobs found) ∙ mem-find k reclaimed in
          rw (found, named)
            (elim (Bool-cases (is_some (find reclaimed_id k reclaimed))) [
              | inl yes_ ↦ rw yes_ refl
              | inr no_ ↦ rw no_ refl
            ])
    ]

module _ (lease limit now : ℕ) (jobs : Jobs) where
  abbrev picked : List ReclaimedJob
  picked = stuck lease limit now jobs

  length-picked : length picked ≡ min limit (length (filter (has_lapsed lease now) jobs))
  unfolding stuck
  length-picked =
      let rows = filter (is_stale lease now) jobs in
      rw (sym (filter-lapsed lease now jobs))
        (omega (arith, length-map ticket (take limit rows), length-take limit rows))

  module _ (u : Unique job_key jobs) where
    picked-Unique : Unique reclaimed_id picked
    unfolding stuck
    picked-Unique = Unique-ticket _ (
        Unique-take limit (filter (is_stale lease now) jobs)
          (Unique-filter (is_stale lease now) jobs u))

    picked-IsReclaimed : All (IsReclaimed lease now jobs) picked
    unfolding stuck
    picked-IsReclaimed = All-map _ ticket (take limit (filter (is_stale lease now) jobs)) (
        All-take _ limit (filter (is_stale lease now) jobs) (
          All-imp
            (λ (r : JobRow). (find job_key r.id jobs ≡ some r) × (is_stale lease now r ≡ true)) _ _
            (λ r h. (r, h.0, sym (lapsed_stale lease now r) ∙ h.1, refl))
            (All-filter (λ (r : JobRow). find job_key r.id jobs ≡ some r) (is_stale lease now) jobs
              (find_self job_key jobs u))))

reclaim_positive :
    (lease limit now : ℕ) (between : Jobs → Jobs) (jobs : Jobs)
    → 0 < lease
    → let picked_ = stuck lease limit now jobs in
      reclaim_stuck lease limit now between jobs ≡ (picked_, requeue picked_ (between jobs))
unfolding reclaim_stuck
reclaim_positive zero limit now between jobs h = absurd (omega arith)
reclaim_positive (suc l) limit now between jobs h = refl

module _ (broker : Broker) (settings : IngestSettings) where
  published-publish_requested :
      (reclaimed : List ReclaimedJob) (log : Log)
      → (publish_requested broker settings reclaimed log).published
        ≡ log.published ++ filter broker (map (request settings.topics) reclaimed)
  unfolding publish_requested publish
  published-publish_requested [] log = sym (append-nil log.published)
  published-publish_requested (job ∷ jobs) log =
      published-publish_requested jobs _ ∙ push (Bool-cases (broker (request settings.topics job)))
    where
      push :
          (broker (request settings.topics job) ≡ true)
            ⊎ (broker (request settings.topics job) ≡ false)
          → (publish broker (request settings.topics job) log).published
              ++ filter broker (map (request settings.topics) jobs)
            ≡ log.published ++ filter broker (map (request settings.topics) (job ∷ jobs))
      push (inl sent) = rw sent (append_assoc log.published (request settings.topics job ∷ []) _)
      push (inr lost) = rw lost refl

  -- The sweep reports jobs that were running with a lease that had run out, each once and with its
  -- tenant and workspace, all of them or else a hundred, and asks the broker for one delivery of each.
  -- Whatever other sessions commit between its SELECT and its UPDATE, the rows of the reported jobs
  -- are then queued, without an error and otherwise as those sessions left them, even where one of
  -- them had ended the job; every other row is as they left it.
  pub sweep-requeues :
      (now : ℕ) (between : Jobs → Jobs) (s : State)
      → Unique job_key s.jobs
      → 0 < settings.ingest_timeout_s
      → let s' = sweep_stuck_jobs broker settings now between s in
        (reclaimed : List ReclaimedJob) × Unique reclaimed_id reclaimed
        × All (IsReclaimed settings.ingest_timeout_s now s.jobs) reclaimed
        × (length reclaimed
            ≡ min 100 (length (filter (has_lapsed settings.ingest_timeout_s now) s.jobs)))
        × (s'.log.published
            ≡ s.log.published ++ filter broker (map (request settings.topics) reclaimed))
        × ((k : String)
            → find job_key k s'.jobs ≡ (
                if is_some (find reclaimed_id k reclaimed)
                then Option.map returned (find job_key k (between s.jobs))
                else find job_key k (between s.jobs)))
  unfolding sweep_stuck_jobs
  sweep-requeues now between s u positive =
      let lease = settings.ingest_timeout_s in
      rw (reclaim_positive lease 100 now between s.jobs positive) (
        picked lease 100 now s.jobs,
        picked-Unique lease 100 now s.jobs u,
        picked-IsReclaimed lease 100 now s.jobs u,
        length-picked lease 100 now s.jobs,
        published-publish_requested _ s.log,
        λ k. find-requeue k (stuck lease 100 now s.jobs) (between s.jobs),
      )
