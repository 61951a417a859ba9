-- ===== src/Jobs/Lease.antt =====
-- The lease of a claimed job: who holds it, how long, and what it guards.
use flycanon.Prelude.{
  ℕ, ◌+◌, ◌*◌, ◌≤◌, ◌<◌, String, ◌≡◌, refl, sym, ◌∙◌, Option, none, some, List, All, true, arith,
}
use flycanon.Table.{find, Unique, claim_row-some, claim_row_refused, Unique-claim_row}
use flycanon.Jobs.{
  JobRow, Jobs, job_key, is_claimable, claimed, is_held, succeed, fail, mark_running,
  mark_succeeded, mark_failed,
}
use flycanon.Jobs.Machine.{
  Statement, merges_other, execute_all, execute_all-Descends, execute_all-Unique,
}

abbrev pub lease_ticks : ℕ → ℕ
lease_ticks lease_seconds = lease_seconds * 1000000

Unique-claimed :
    (job_id : String) (lease : Option ℕ) (now db_now : ℕ) (jobs : Jobs)
    → Unique job_key jobs
    → Unique job_key (mark_running job_id lease now db_now jobs).1
unfolding mark_running
Unique-claimed job_id lease now db_now jobs =
    Unique-claim_row job_key job_id (is_claimable lease now) (claimed db_now) jobs
      (λ r. unfold claimed in refl)

-- The row that a claim returns has one attempt more than the row before, and is found in its place.
mark_running-some :
    (job_id : String) (lease : Option ℕ) (now db_now : ℕ) (jobs : Jobs) {row : JobRow}
    → Unique job_key jobs
    → (mark_running job_id lease now db_now jobs).0 ≡ some row
    → (before : JobRow) × (find job_key job_id jobs ≡ some before)
      × (row ≡ claimed db_now before)
      × (find job_key job_id (mark_running job_id lease now db_now jobs).1 ≡ some row)
unfolding mark_running
mark_running-some job_id lease now db_now jobs u h =
    let (before, found, free, e, after) =
      claim_row-some job_key job_id (is_claimable lease now) (claimed db_now) jobs
        (λ r. unfold claimed in refl) u h in
    (before, found, e, after)

-- Of two claims of one job under one lease the second gets nothing and writes nothing, as long as the
-- lease of the first has not run out by the second's clock.
pub claim_exclusive :
    (job_id : String) (lease now db_now now' db_now' : ℕ) (jobs : Jobs) {row : JobRow}
    → Unique job_key jobs
    → (mark_running job_id (some lease) now db_now jobs).0 ≡ some row
    → now' ≤ db_now + lease_ticks lease
    → let jobs' = (mark_running job_id (some lease) now db_now jobs).1 in
      mark_running job_id (some lease) now' db_now' jobs' ≡ (none, jobs')
claim_exclusive job_id lease now db_now now' db_now' jobs {row} u h live =
    let jobs' = (mark_running job_id (some lease) now db_now jobs).1 in
    let (before, found, e, after) = mark_running-some job_id (some lease) now db_now jobs u h in
    unfold mark_running in
    claim_row_refused job_key job_id (is_claimable (some lease) now') (claimed db_now') jobs'
      (Unique-claimed job_id (some lease) now db_now jobs u) after
      (rw e (unfold is_claimable claimed in ground arith))

-- A commit under a number of attempts that the row has passed finds no row and writes nothing.
pub commit_refused :
    (job_id : String) (expected : ℕ) (jobs : Jobs) {row : JobRow}
    → Unique job_key jobs
    → find job_key job_id jobs ≡ some row
    → expected < row.attempts
    → ((source_id : String) (sha : Option String) (t : ℕ)
        → mark_succeeded job_id source_id sha (some expected) t jobs ≡ (none, jobs))
      × ((code message : String) (t : ℕ)
          → mark_failed job_id code message (some expected) t jobs ≡ (none, jobs))
unfolding mark_succeeded mark_failed
commit_refused job_id expected jobs {row} u found passed = (
  λ source_id sha t.
      claim_row_refused job_key job_id (is_held (some expected)) (succeed source_id sha t) jobs u
        found (ground arith),
  λ code message t.
      claim_row_refused job_key job_id (is_held (some expected)) (fail code message t) jobs u found
        (ground arith),
)

attempts_climb :
    (mine : JobRow) {r1 b theirs : JobRow} (r2 : JobRow) (t : ℕ)
    → some r1 ≡ some b
    → theirs ≡ claimed t b
    → mine.attempts ≤ r1.attempts
    → theirs.attempts ≤ r2.attempts
    → mine.attempts < r2.attempts
unfolding claimed
attempts_climb mine r2 t same e up up' = ground arith

-- The fencing of a poached lease. A worker claims a job; whatever other statements run before and
-- after it, merges of the job's own row apart, once another claim of the job has succeeded, the first
-- worker's commit, for success or for failure, finds no row and writes nothing.
pub poached_lease_fenced :
    (job_id : String) (lease lease' : Option ℕ) (now db_now now' db_now' : ℕ)
    (before after : List Statement) (jobs : Jobs) {mine theirs : JobRow}
    → Unique job_key jobs
    → All (λ s. merges_other job_id s ≡ true) before
    → All (λ s. merges_other job_id s ≡ true) after
    → (mark_running job_id lease now db_now jobs).0 ≡ some mine
    → let mid = execute_all before (mark_running job_id lease now db_now jobs).1 in
      (mark_running job_id lease' now' db_now' mid).0 ≡ some theirs
      → let end = execute_all after (mark_running job_id lease' now' db_now' mid).1 in
        ((source_id : String) (sha : Option String) (t : ℕ)
          → mark_succeeded job_id source_id sha (some mine.attempts) t end ≡ (none, end))
        × ((code message : String) (t : ℕ)
            → mark_failed job_id code message (some mine.attempts) t end ≡ (none, end))
poached_lease_fenced job_id lease lease' now db_now now' db_now' before after jobs {mine} {theirs} u
      others others' h h' =
    let claimed_jobs = (mark_running job_id lease now db_now jobs).1 in
    let u1 = Unique-claimed job_id lease now db_now jobs u in
    let (b, f, e, found) = mark_running-some job_id lease now db_now jobs u h in
    let (r1, found1, down1) = execute_all-Descends before job_id claimed_jobs found others in
    let mid = execute_all before claimed_jobs in
    let u2 = execute_all-Unique before claimed_jobs u1 in
    let (b', f', e', found') = mark_running-some job_id lease' now' db_now' mid u2 h' in
    let poached = (mark_running job_id lease' now' db_now' mid).1 in
    let u3 = Unique-claimed job_id lease' now' db_now' mid u2 in
    let (r2, found2, down2) = execute_all-Descends after job_id poached found' others' in
    commit_refused job_id mine.attempts (execute_all after poached)
      (execute_all-Unique after poached u3) found2
      (attempts_climb mine r2 db_now' (sym found1 ∙ f') e' down1.attempts down2.attempts)
