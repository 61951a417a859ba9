-- ===== src/Jobs/Machine.antt =====
-- The life of a job row under any sequence of the repository's statements.
use mathlib.Core.Option
use flycanon.Prelude.{
  ℕ, zero, suc, ◌∙◌, ap, ◌≤◌, String, str_eq, ◌≡◌, refl, Bool, true, false, ◌&&◌, ◌||◌, not,
  if◌then◌else◌, All, Option, none, some, List, [], ◌∷◌, arith, Bool-cases, Option-cases, inl, inr,
  ◌⊎◌,
}
use flycanon.Table.{
  select, Unique, select-find, update_where, find, find-update_where, find-insert_old, key-find,
  find-upsert, Unique-upsert, claim_row, Unique-update_where, Unique-insert,
}
use flycanon.Jobs.{
  JobStatus, queued, running, succeeded, failed, JobRow, Jobs, job_key, is_terminal, is_claimable,
  claimed, is_held, succeed, fail, demoted, stuck, mem_id, mark_running, mark_succeeded,
  mark_failed, requeue, is_stale, is_running, add, update_row, ReclaimedJob,
}

-- One statement that the repository runs on the table, with its arguments. A sweep is its SELECT, which
-- writes nothing, and later, with any statements between, `reset` of the jobs that the SELECT read.
pub data Statement : Type 0 where
  submit : JobRow → Statement
  claim : String → Option ℕ → ℕ → ℕ → Statement
  finish : String → String → Option String → Option ℕ → ℕ → Statement
  give_up : String → String → String → Option ℕ → ℕ → Statement
  reset : List ReclaimedJob → Statement
  merge : JobRow → Statement

unfoldable pub execute : Statement → Jobs → Jobs
execute (submit row) jobs = Option.get_or (add row jobs) jobs
execute (claim job_id lease now db_now) jobs = (mark_running job_id lease now db_now jobs).1
execute (finish job_id source_id sha expected db_now) jobs =
    (mark_succeeded job_id source_id sha expected db_now jobs).1
execute (give_up job_id code message expected db_now) jobs =
    (mark_failed job_id code message expected db_now jobs).1
execute (reset reclaimed) jobs = requeue reclaimed jobs
execute (merge row) jobs = update_row row jobs

unfoldable pub execute_all : List Statement → Jobs → Jobs
execute_all [] jobs = jobs
execute_all (s ∷ ss) jobs = execute_all ss (execute s jobs)

-- The edges of the status diagram.
infix 40 ◌⟶◌
pub data ◌⟶◌ : JobStatus → JobStatus → Type 0 where
  pick_up : queued ⟶ running
  take_over : running ⟶ running
  give_back : running ⟶ queued
  complete : running ⟶ succeeded
  abort : running ⟶ failed

-- What one statement may do to a row: nothing, or a step along an edge that keeps the row's identity
-- and scope and does not lower its attempts.
pub record Moves (r r' : JobRow) : Type 0 where
  pub same_id : r'.id ≡ r.id
  pub same_tenant : r'.tenant_id ≡ r.tenant_id
  pub same_workspace : r'.workspace_id ≡ r.workspace_id
  pub attempts : r.attempts ≤ r'.attempts
  pub edge : (r' ≡ r) ⊎ (r.status ⟶ r'.status)

Moves-refl : (r : JobRow) → Moves r r
Moves-refl r = record {
  same_id = refl;
  same_tenant = refl;
  same_workspace = refl;
  attempts = omega arith;
  edge = inl refl;
}

ruleset edges = (pick_up, take_over, give_back, complete, abort)

Moves-claimed :
    (lease : Option ℕ) (now db_now : ℕ) (r : JobRow)
    → is_claimable lease now r ≡ true
    → Moves r (claimed db_now r)
unfolding is_claimable claimed
Moves-claimed none now db_now r h = record {
  same_id = refl;
  same_tenant = refl;
  same_workspace = refl;
  attempts = omega arith;
  edge = inr (grind (arith, edges));
}
Moves-claimed (some l) now db_now r h = record {
  same_id = refl;
  same_tenant = refl;
  same_workspace = refl;
  attempts = omega arith;
  edge = inr (grind (arith, edges));
}

Moves-finished :
    (expected : Option ℕ) (source_id : String) (sha : Option String) (db_now : ℕ) (r : JobRow)
    → is_held expected r ≡ true
    → Moves r (succeed source_id sha db_now r)
unfolding succeed
Moves-finished expected source_id sha db_now r h = record {
  same_id = refl;
  same_tenant = refl;
  same_workspace = refl;
  attempts = omega arith;
  edge = inr (grind (arith, edges));
}

Moves-failed :
    (expected : Option ℕ) (code message : String) (db_now : ℕ) (r : JobRow)
    → is_held expected r ≡ true
    → Moves r (fail code message db_now r)
unfolding fail
Moves-failed expected code message db_now r h = record {
  same_id = refl;
  same_tenant = refl;
  same_workspace = refl;
  attempts = omega arith;
  edge = inr (grind (arith, edges));
}

Moves-demoted : (r : JobRow) → is_running r.status ≡ true → Moves r (demoted r)
unfolding demoted
Moves-demoted r h = record {
  same_id = refl;
  same_tenant = refl;
  same_workspace = refl;
  attempts = omega arith;
  edge = inr (grind (arith, edges));
}

not-mem-stuck :
    (lease limit now : ℕ) (k : String) (jobs : Jobs)
    → select (λ (r : JobRow). str_eq r.id k && is_stale lease now r) jobs ≡ none
    → mem_id k (stuck lease limit now jobs) ≡ false
unfolding stuck select
not-mem-stuck lease zero now k jobs h = refl
not-mem-stuck lease (suc n) now k [] h = refl
not-mem-stuck lease (suc n) now k (r ∷ jobs) h = elim (Bool-cases (is_stale lease now r)) [
  | inl stale ↦ rw stale (ground (arith, not-mem-stuck lease n now k jobs))
  | inr fresh ↦ rw fresh (not-mem-stuck lease (suc n) now k jobs (ground arith))
]

-- A conditional UPDATE moves the row of a key, if it moves each row that meets the condition.
module _ (k : String) (jobs : Jobs) {r : JobRow} (found : find job_key k jobs ≡ some r) where
  abbrev MovesIn : Jobs → Type 0
  MovesIn jobs' = (r' : JobRow) × (find job_key k jobs' ≡ some r') × Moves r r'

  MovesIn-update_where :
      (p : JobRow → Bool) (f : JobRow → JobRow)
      → ((x : JobRow) → (f x).id ≡ x.id)
      → (p r ≡ true → Moves r (f r))
      → MovesIn (update_where p f jobs)
  MovesIn-update_where p f same moves = elim (Bool-cases (p r)) [
    | inl hit ↦ (f r, find-update_where job_key k p f jobs same ∙ rw (found, hit), moves hit)
    | inr miss ↦ (r, find-update_where job_key k p f jobs same ∙ rw (found, miss), Moves-refl r)
  ]

-- What a statement must not do to a job of an id for its row to stay on the diagram: replace it by a
-- merge, or reset it by a sweep that read it earlier, when it is not running any more.
abbrev pub is_in_step : String → JobRow → Statement → Bool
is_in_step k r (merge row) = not (str_eq row.id k)
is_in_step k r (reset reclaimed) = not (mem_id k reclaimed) || is_running r.status
is_in_step k r _ = true

-- Every statement moves a row at most one edge of the status diagram, and keeps its identity and its
-- scope and does not lower its attempts, unless it is a merge of a row of the same id, or the UPDATE
-- of a sweep over ids that hold the row's while the row is not running.
pub execute-Moves :
    (s : Statement) (k : String) (jobs : Jobs) {r : JobRow}
    → find job_key k jobs ≡ some r
    → is_in_step k r s ≡ true
    → (r' : JobRow) × (find job_key k (execute s jobs) ≡ some r') × Moves r r'
unfolding execute mark_running mark_succeeded mark_failed requeue add update_row claim_row
execute-Moves (submit row) k jobs {r} found ok = elim (Option-cases (find job_key row.id jobs)) [
  | inl fresh ↦ (r, rw fresh (find-insert_old job_key k row jobs found), Moves-refl r)
  | inr (x, taken) ↦ (r, rw taken found, Moves-refl r)
]
execute-Moves (claim job_id lease now db_now) k jobs {r} found ok =
    MovesIn-update_where k jobs found _ (claimed db_now) (λ x. unfold claimed in refl)
      (λ h. Moves-claimed lease now db_now r (ground arith))
execute-Moves (finish job_id source_id sha expected db_now) k jobs {r} found ok =
    MovesIn-update_where k jobs found _ (succeed source_id sha db_now) (λ x. unfold succeed in refl)
      (λ h. Moves-finished expected source_id sha db_now r (ground arith))
execute-Moves (give_up job_id code message expected db_now) k jobs {r} found ok =
    MovesIn-update_where k jobs found _ (fail code message db_now) (λ x. unfold fail in refl)
      (λ h. Moves-failed expected code message db_now r (ground arith))
execute-Moves (reset reclaimed) k jobs {r} found ok =
    MovesIn-update_where k jobs found (λ x. mem_id x.id reclaimed) demoted
      (λ x. unfold demoted in refl)
      (λ h.
        let picked : mem_id k reclaimed ≡ true = rw (key-find job_key k jobs found) at h in
        Moves-demoted r (ground arith))
execute-Moves (merge row) k jobs {r} found ok =
    (r, find-upsert job_key k row jobs ∙ rw (not_true ok) found, Moves-refl r)
  where
    not_true : {b : Bool} → not b ≡ true → b ≡ false
    not_true h = ground arith

pub execute-Unique :
    (s : Statement) (jobs : Jobs) → Unique job_key jobs → Unique job_key (execute s jobs)
unfolding execute mark_running mark_succeeded mark_failed requeue add update_row claim_row
execute-Unique (submit row) jobs u = elim (Option-cases (find job_key row.id jobs)) [
  | inl fresh ↦ rw fresh (Unique-insert job_key row jobs fresh u)
  | inr (x, taken) ↦ rw taken u
]
execute-Unique (claim job_id lease now db_now) jobs u =
    Unique-update_where job_key _ (claimed db_now) jobs (λ x. unfold claimed in refl) u
execute-Unique (finish job_id source_id sha expected db_now) jobs u =
    Unique-update_where job_key _ (succeed source_id sha db_now) jobs (λ x. unfold succeed in refl)
      u
execute-Unique (give_up job_id code message expected db_now) jobs u =
    Unique-update_where job_key _ (fail code message db_now) jobs (λ x. unfold fail in refl) u
execute-Unique (reset reclaimed) jobs u =
    Unique-update_where job_key _ demoted jobs (λ x. unfold demoted in refl) u
execute-Unique (merge row) jobs u = Unique-upsert job_key row jobs u

pub execute_all-Unique :
    (ss : List Statement) (jobs : Jobs) → Unique job_key jobs → Unique job_key (execute_all ss jobs)
unfolding execute_all
execute_all-Unique [] jobs u = u
execute_all-Unique (s ∷ ss) jobs u =
    execute_all-Unique ss (execute s jobs) (execute-Unique s jobs u)

not_terminal : {s t : JobStatus} → s ⟶ t → is_terminal s ≡ false
not_terminal pick_up = refl
not_terminal take_over = refl
not_terminal give_back = refl
not_terminal complete = refl
not_terminal abort = refl

terminal_unmoved : {r r' : JobRow} → Moves r r' → is_terminal r.status ≡ true → r' ≡ r
terminal_unmoved moves ends = elim moves.edge [
  | inl same ↦ same
  | inr edge ↦ let open_ = not_terminal edge in absurd (ground arith)
]

-- A statement that neither merges the job of an id nor resets it.
abbrev pub spares : String → Statement → Bool
spares k (merge row) = not (str_eq row.id k)
spares k (reset reclaimed) = not (mem_id k reclaimed)
spares k _ = true

spares-in_step :
    (s : Statement) (k : String) (r : JobRow) → spares k s ≡ true → is_in_step k r s ≡ true
spares-in_step (submit row) k r h = refl
spares-in_step (claim job_id lease now db_now) k r h = refl
spares-in_step (finish job_id source_id sha expected db_now) k r h = refl
spares-in_step (give_up job_id code message expected db_now) k r h = refl
spares-in_step (reset reclaimed) k r h = rw h refl
spares-in_step (merge row) k r h = h

-- No sweep selects a job that has ended.
ended_not_stuck :
    (lease limit now : ℕ) (k : String) (jobs : Jobs) {r : JobRow}
    → Unique job_key jobs
    → find job_key k jobs ≡ some r
    → is_terminal r.status ≡ true
    → mem_id k (stuck lease limit now jobs) ≡ false
ended_not_stuck lease limit now k jobs {r} u found ends =
    not-mem-stuck lease limit now k jobs
      (select-find job_key k (is_stale lease now) jobs u ∙ rw (found, ended) refl)
  where
    ended : is_stale lease now r ≡ false
    ended = ground arith

-- A job that has succeeded or failed keeps its row as it is, under any statements that neither
-- merge a row of its id nor reset it for a sweep, and no sweep that reads the table after them
-- selects it.
pub terminal-stays :
    (ss : List Statement) (k : String) (jobs : Jobs) {r : JobRow}
    → Unique job_key jobs
    → find job_key k jobs ≡ some r
    → is_terminal r.status ≡ true
    → All (λ s. spares k s ≡ true) ss
    → (find job_key k (execute_all ss jobs) ≡ some r)
      × ((lease limit now : ℕ) → mem_id k (stuck lease limit now (execute_all ss jobs)) ≡ false)
unfolding execute_all
terminal-stays [] k jobs u found ends spared =
    (found, λ lease limit now. ended_not_stuck lease limit now k jobs u found ends)
terminal-stays (s ∷ ss) k jobs {r} u found ends spared =
    let (r', found', moves) = execute-Moves s k jobs found (spares-in_step s k r spared.0) in
    terminal-stays ss k (execute s jobs) (execute-Unique s jobs u)
      (found' ∙ ap some (terminal_unmoved moves ends)) ends spared.1

-- Along any statements but a merge of it a job keeps its identity and its scope, and its attempts
-- never fall.
pub record Descends (r r' : JobRow) : Type 0 where
  pub same_id : r'.id ≡ r.id
  pub same_tenant : r'.tenant_id ≡ r.tenant_id
  pub same_workspace : r'.workspace_id ≡ r.workspace_id
  pub attempts : r.attempts ≤ r'.attempts

Descends-refl : (r : JobRow) → Descends r r
Descends-refl r = record {
  same_id = refl;
  same_tenant = refl;
  same_workspace = refl;
  attempts = omega arith;
}

Descends-demoted : (b : Bool) (r : JobRow) → Descends r (if b then demoted r else r)
unfolding demoted
Descends-demoted true r = record {
  same_id = refl;
  same_tenant = refl;
  same_workspace = refl;
  attempts = omega arith;
}
Descends-demoted false r = Descends-refl r

-- A statement that does not merge the job of an id.
abbrev pub merges_other : String → Statement → Bool
merges_other k (merge row) = not (str_eq row.id k)
merges_other k _ = true

descend :
    (s : Statement) (k : String) (jobs : Jobs) {r : JobRow}
    → find job_key k jobs ≡ some r
    → is_in_step k r s ≡ true
    → (r' : JobRow) × (find job_key k (execute s jobs) ≡ some r') × Descends r r'
descend s k jobs found ok =
    let (r', found', moves) = execute-Moves s k jobs found ok in
    (
      r',
      found',
      record {
        same_id = moves.same_id;
        same_tenant = moves.same_tenant;
        same_workspace = moves.same_workspace;
        attempts = moves.attempts;
      },
    )

execute-Descends :
    (s : Statement) (k : String) (jobs : Jobs) {r : JobRow}
    → find job_key k jobs ≡ some r
    → merges_other k s ≡ true
    → (r' : JobRow) × (find job_key k (execute s jobs) ≡ some r') × Descends r r'
unfolding execute requeue
execute-Descends (reset reclaimed) k jobs {r} found other = (
  if mem_id r.id reclaimed then demoted r else r,
  find-update_where job_key k (λ x. mem_id x.id reclaimed) demoted jobs
        (λ x. unfold demoted in refl)
      ∙ rw found refl,
  Descends-demoted (mem_id r.id reclaimed) r,
)
execute-Descends (submit row) k jobs found other = descend (submit row) k jobs found refl
execute-Descends (claim job_id lease now db_now) k jobs found other =
    descend (claim job_id lease now db_now) k jobs found refl
execute-Descends (finish job_id source_id sha expected db_now) k jobs found other =
    descend (finish job_id source_id sha expected db_now) k jobs found refl
execute-Descends (give_up job_id code message expected db_now) k jobs found other =
    descend (give_up job_id code message expected db_now) k jobs found refl
execute-Descends (merge row) k jobs found other = descend (merge row) k jobs found other

pub execute_all-Descends :
    (ss : List Statement) (k : String) (jobs : Jobs) {r : JobRow}
    → find job_key k jobs ≡ some r
    → All (λ s. merges_other k s ≡ true) ss
    → (r' : JobRow) × (find job_key k (execute_all ss jobs) ≡ some r') × Descends r r'
unfolding execute_all
execute_all-Descends [] k jobs {r} found others = (r, found, Descends-refl r)
execute_all-Descends (s ∷ ss) k jobs {r} found others =
    let (r', found', step) = execute-Descends s k jobs found others.0 in
    let (r'', found'', down) = execute_all-Descends ss k (execute s jobs) found' others.1 in
    (
      r'',
      found'',
      record {
        same_id = down.same_id ∙ step.same_id;
        same_tenant = down.same_tenant ∙ step.same_tenant;
        same_workspace = down.same_workspace ∙ step.same_workspace;
        attempts = omega arith;
      },
    )
