-- ===== src/Jobs/Worker/Delivery.antt =====
-- How a delivery of a job ends.
use flycanon.Prelude.{
  Bool, ◌⊎◌, ℕ, String, ◌≡◌, refl, sym, ◌∙◌, subst, true, Option, none, some, arith, ltb,
  Bool-cases, Option-cases, inl, inr,
}
use flycanon.Effects.{Broker}
use flycanon.Table.{find, Unique, key-find, Unique-claim_row}
use flycanon.Jobs.{
  succeeded, failed, JobRow, job_key, is_claimable, claimed, is_held, fail, is_terminal,
  mark_running, mark_failed, get_across_workspaces,
}
use flycanon.Jobs.Worker.{
  State, IngestSettings, Clocks, exhausted, leased, Outcome, undecodable, pipeline_failed, ingested,
  cancelled, after_claim, on_delivery, process_claim, process_finish, process,
}
use flycanon.Jobs.Worker.Claiming.{claimable_delivery, taken, poisoned}
use flycanon.Jobs.Worker.Finish.{verdict, held_finish_verdict}

module _ (broker : Broker) (settings : IngestSettings) (attempts_text : String)
    (clocks : Clocks) where
  after_claim-Unique :
      (o : Option JobRow) (s : State)
      → Unique job_key s.jobs
      → Unique job_key (after_claim broker settings attempts_text clocks.db_now o s).1.jobs
  unfolding after_claim mark_failed
  after_claim-Unique none s u = u
  after_claim-Unique (some job) s u =
      elim (Bool-cases (ltb settings.ingest_max_attempts job.attempts)) [
        | inl past ↦ rw past (
            Unique-claim_row job_key job.id (is_held (some job.attempts))
              (fail "attempts_exhausted" attempts_text clocks.db_now) s.jobs
              (λ r. unfold fail in refl) u)
        | inr below ↦ rw below u
      ]

  pub process_claim-Unique :
      (job_id : String) (s : State)
      → Unique job_key s.jobs
      → Unique job_key (process_claim broker settings job_id attempts_text clocks s).1.jobs
  unfolding process_claim on_delivery mark_running
  process_claim-Unique job_id s u = elim (Option-cases (get_across_workspaces job_id s.jobs)) [
    | inl absent ↦ rw absent u
    | inr (job, found) ↦ rw found (elim (Bool-cases (is_terminal job.status)) [
      | inl ends ↦ rw ends u
      | inr live ↦ rw live (
          after_claim-Unique _ _ (
            Unique-claim_row job_key job_id
              (is_claimable (some settings.ingest_timeout_s) clocks.now) (claimed clocks.db_now)
              s.jobs (λ r. unfold claimed in refl) u))
    ])
  ]

  -- A row that is done with.
  abbrev pub Ended : JobRow → Type 0
  Ended row = (row.status ≡ succeeded) ⊎ (row.status ≡ failed)

  -- The row that the claim of a delivery leaves.
  abbrev pub mine_of : JobRow → JobRow
  mine_of = taken broker settings attempts_text clocks

  -- How the row of a delivered job stands after its pipeline.
  abbrev pub Finished : Outcome → JobRow → JobRow → Type 0
  Finished outcome mine row =
      Ended row ⊎ ((normalised : Bool) × (outcome ≡ cancelled normalised) × (row ≡ mine))

  verdict_ends :
      (outcome : Outcome) (db_now : ℕ) (row : JobRow)
      → Finished outcome row (verdict broker settings outcome db_now row)
  verdict_ends (undecodable code message) db_now row = inl (inr refl)
  verdict_ends (pipeline_failed code message) db_now row = inl (inr refl)
  verdict_ends (ingested source) db_now row = inl (inl refl)
  verdict_ends (cancelled normalised) db_now row = inr (normalised, refl, refl)

  -- A delivery of a job that can be claimed leaves it succeeded or failed, unless its pipeline is
  -- cancelled: then it may stay as the claim left it, running.
  pub delivered_ends :
      (job_id : String) (intake : JobRow → Outcome) (db_now : ℕ) (s : State) {row : JobRow}
      → Unique job_key s.jobs
      → find job_key job_id s.jobs ≡ some row
      → is_claimable (some settings.ingest_timeout_s) clocks.now row ≡ true
      → (row' : JobRow) × (find job_key job_id
            (process broker settings job_id attempts_text intake clocks db_now s).jobs
          ≡ some row')
        × Finished (intake (mine_of row)) (mine_of row) row'
  unfolding process
  delivered_ends job_id intake db_now s {row} u found free =
      let mine = mine_of row in
      let (claim, left) =
        claimable_delivery broker settings attempts_text clocks job_id s u found free in
      elim (Bool-cases (ltb settings.ingest_max_attempts mine.attempts)) [
        | inl past ↦
            let given_up : (process_claim broker settings job_id attempts_text clocks s).0
                ≡ exhausted =
              claim ∙ rw past refl in
            rw (process, given_up)
              (
                poisoned broker settings attempts_text clocks mine,
                left ∙ rw past refl,
                inl (inr refl),
              )
        | inr below ↦
            let s1 = (process_claim broker settings job_id attempts_text clocks s).1 in
            let held_by_me : (process_claim broker settings job_id attempts_text clocks s).0
                ≡ leased mine =
              claim ∙ rw below refl in
            let there : find job_key job_id s1.jobs ≡ some mine = left ∙ rw below refl in
            let same : mine.id ≡ job_id = key-find job_key job_id s.jobs found in
            let (ended, audited) =
              held_finish_verdict broker settings mine (intake mine) db_now s1
                (process_claim-Unique job_id s u)
                (subst (λ k. find job_key k s1.jobs ≡ some mine) (sym same) there) (ground arith) in
            rw (process, held_by_me)
              (
                verdict broker settings (intake mine) db_now mine,
                subst
                    (λ k.
                      find job_key k
                        (process_finish broker settings mine (intake mine) db_now s1).jobs
                      ≡ some (verdict broker settings (intake mine) db_now mine))
                    same ended,
                verdict_ends (intake mine) db_now mine,
              )
      ]
