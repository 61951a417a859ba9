-- ===== src/Jobs/Worker/Claiming.antt =====
-- What a delivery does to a job before its pipeline runs.
use flycanon.Prelude.{
  ℕ, ◌+◌, String, ◌≡◌, refl, sym, subst, Bool, true, false, Option, none, some, arith, ltb,
  if◌then◌else◌, Bool-cases, inl, inr,
}
use flycanon.Effects.{Broker}
use flycanon.Table.{
  find, Unique, claim_row-some, key-find, claim_row_won, claim_row_refused, Unique-claim_row,
}
use flycanon.Jobs.{
  running, failed, JobRow, job_key, is_claimable, claimed, is_held, fail, is_terminal, mark_running,
  mark_failed, get_across_workspaces,
}
use flycanon.Jobs.Worker.{
  State, IngestSettings, Clocks, Claim, skipped, exhausted, leased, after_claim, on_delivery,
  process_claim,
}

not_claimable :
    (lease : Option ℕ) (now : ℕ) (row : JobRow)
    → is_terminal row.status ≡ true
    → is_claimable lease now row ≡ false
unfolding is_claimable
not_claimable none now row h = ground arith
not_claimable (some l) now row h = ground arith

module _ (broker : Broker) (settings : IngestSettings) (attempts_text : String)
    (clocks : Clocks) where
  abbrev lease : Option ℕ
  lease = some settings.ingest_timeout_s

  abbrev run : String → State → Claim × State
  run job_id s = process_claim broker settings job_id attempts_text clocks s

  -- A job that is terminal, or that another worker holds under a live lease, is skipped with nothing
  -- written: a duplicate delivery has no effect.
  pub duplicate_skipped :
      (job_id : String) (s : State) {row : JobRow}
      → Unique job_key s.jobs
      → find job_key job_id s.jobs ≡ some row
      → is_claimable lease clocks.now row ≡ false
      → run job_id s ≡ (skipped, s)
  unfolding process_claim on_delivery mark_running after_claim get_across_workspaces
  duplicate_skipped job_id s {row} u found held =
      let e : mark_running job_id lease clocks.now clocks.db_now s.jobs ≡ (none, s.jobs) =
        claim_row_refused job_key job_id (is_claimable lease clocks.now) (claimed clocks.db_now)
          s.jobs u found held in
      elim (Bool-cases (is_terminal row.status)) [
        | inl ends ↦ rw (found, ends)
        | inr live ↦ rw (found, live, e)
      ]

  abbrev over : ℕ → Bool
  over attempts = ltb settings.ingest_max_attempts attempts

  -- The row of a job past the ceiling.
  abbrev pub poisoned : JobRow → JobRow
  poisoned row = record row {
    status = failed;
    error_code = some "attempts_exhausted";
    error_message = some attempts_text;
    finished_at = some clocks.db_now;
  }

  -- The row of a job that is leased.
  abbrev pub taken : JobRow → JobRow
  taken row = record row {
    status = running;
    attempts = row.attempts + 1;
    started_at = some clocks.db_now;
    error_code = none;
    error_message = none;
  }

  guard-verdict :
      (job : JobRow) (s : State)
      → Unique job_key s.jobs
      → find job_key job.id s.jobs ≡ some job
      → is_held (some job.attempts) job ≡ true
      → let (claim, s') = after_claim broker settings attempts_text clocks.db_now (some job) s in
        (claim ≡ (if over job.attempts then exhausted else leased job))
        × (find job_key job.id s'.jobs ≡ some (if over job.attempts then poisoned job else job))
  unfolding after_claim mark_failed fail
  guard-verdict job s u found held = elim (Bool-cases (over job.attempts)) [
    | inl past ↦
        let f = fail "attempts_exhausted" attempts_text clocks.db_now in
        let q = is_held (some job.attempts) in
        let won = claim_row_won job_key job.id q f s.jobs u found held in
        let (_, _, _, _, after) = claim_row-some job_key job.id q f s.jobs (λ r. refl) u won in
        rw past (refl, after)
    | inr below ↦ rw below (refl, found)
  ]

  -- A job that can be claimed is leased to the worker: its row is running, with one attempt more, the
  -- time of the claim and no error. Past the ceiling of attempts nothing is leased, and the row is then
  -- failed, with the guard's error and the time. The rest of the row is kept.
  pub claimable_delivery :
      (job_id : String) (s : State) {row : JobRow}
      → Unique job_key s.jobs
      → find job_key job_id s.jobs ≡ some row
      → is_claimable lease clocks.now row ≡ true
      → let mine = taken row in
        ((run job_id s).0 ≡ (if over mine.attempts then exhausted else leased mine))
        × (find job_key job_id (run job_id s).1.jobs
            ≡ some (if over mine.attempts then poisoned mine else mine))
  unfolding process_claim on_delivery get_across_workspaces mark_running claimed
  claimable_delivery job_id s {row} u found free =
      let f = claimed clocks.db_now in
      let q = is_claimable lease clocks.now in
      let won : (mark_running job_id lease clocks.now clocks.db_now s.jobs).0 ≡ some (f row) =
        claim_row_won job_key job_id q f s.jobs u found free in
      let (_, _, _, _, after) = claim_row-some job_key job_id q f s.jobs (λ r. refl) u won in
      let jobs = (mark_running job_id lease clocks.now clocks.db_now s.jobs).1 in
      let id_kept : (f row).id ≡ job_id = key-find job_key job_id s.jobs found in
      let (claimed_so, left_so) =
        guard-verdict (f row) (record s { jobs = jobs })
          (Unique-claim_row job_key job_id q f s.jobs (λ r. refl) u)
          (subst (λ k. find job_key k jobs ≡ some (f row)) (sym id_kept) after) (ground arith) in
      elim (Bool-cases (is_terminal row.status)) [
        | inl ends ↦ absurd (ends_not_free ends)
        | inr live ↦
            rw (found, live, won)
              (
                claimed_so,
                subst
                    (λ k.
                      find job_key k
                        (after_claim broker settings attempts_text clocks.db_now (some (f row))
                          (record s { jobs = jobs })).1.jobs
                      ≡ some (if over (f row).attempts then poisoned (f row) else f row))
                    id_kept left_so,
              )
      ]
    where
      ends_not_free : is_terminal row.status ≡ true → ⊥
      ends_not_free ends = let e = not_claimable lease clocks.now row ends in cc
