-- ===== src/Reindexing/Fresh.antt =====
-- A run that starts from nothing: how it opens, and how it ends in a quiet environment.
use flycanon.Prelude.{
  ℕ, suc, ◌<◌, ◌≡◌, refl, ap, sym, subst, ◌∙◌, ◌&&◌, not, ltb, leb, String, str_eq, eq_refl, Bool,
  true, false, none, some, List, [], ◌∷◌, inl, inr, map, All, All-imp, arith, Bool-cases,
}
use flycanon.Prelude.Actions.{ok, ok_injective}
use flycanon.Effects.{text}
use flycanon.Table.{select, find, insert, select-insert_new, select_narrower, All-snoc}
use flycanon.EmbeddingSets.{
  EmbeddingSetRow, Workspace, Db, Scope, set_key, is_set, is_workspace, insert_set, get,
  active_set_id,
}
use flycanon.EmbeddingSets.Service.{Host as SetHost, CanonSettings, binding_of, create, new_row}
use flycanon.Reindexing.{
  KnowledgeChunkRow, IngestJobRow, job_key, State, Host, in_workspace, count_for_workspace,
}
use flycanon.Reindexing.Run.{ready_, WorkspaceOutcome, Progress, Times, Plan, in_sets, record_event}
use flycanon.Reindexing.Workspace.{
  is_reindex_of, new_job, new_set, add_job, open_run, close, run_workspace,
}
use flycanon.Reindexing.Pages.{IsOrder}
use flycanon.Reindexing.Vectors.{IsEmbedded}
use flycanon.Reindexing.Remaining.{remaining}
use flycanon.Reindexing.Ends.{IsQuiet, walk_ends}
use flycanon.Reindexing.Walk.{IsHonest, IsAt, IsForeign, Passed}
use flycanon.Reindexing.Complete.{Leaves, walk_and_close-Leaves}
use flycanon.Reindexing.Ready.{complete_ends}

module _ {V : Type 0} (host : Host V) (sets : SetHost) (settings : CanonSettings) (scope : Scope)
    (plan : Plan) (times : Times) (set_id job_id : String) where
  abbrev pub fresh_row : EmbeddingSetRow
  fresh_row = new_row sets settings scope (new_set host sets settings plan set_id) times.opened

  abbrev pub fresh_job : IngestJobRow
  fresh_job = new_job host sets settings scope plan job_id set_id times.opened

  abbrev pub at_start : Progress
  at_start = record { job = fresh_job; last_chunk_id = none; embedded = 0; read_any = false }

  -- The state in which the walk starts.
  abbrev pub opened_state : State V → State V
  opened_state s =
      record_event scope fresh_job "reindex.started"
        (("set_id", text set_id) ∷ ("target", text fresh_job.target) ∷ [])
        (record s {
          sets = record s.sets { sets = insert fresh_row s.sets.sets };
          jobs = insert fresh_job s.jobs;
        })

  insert_set-new :
      (db : Db)
      → find set_key set_id db.sets ≡ none
      → (leb 64 plan.dimensions && leb plan.dimensions 4096) ≡ true
      → insert_set fresh_row db ≡ some (record db { sets = insert fresh_row db.sets })
  unfolding insert_set new_row
  insert_set-new db fresh width = rw (fresh, width) refl

  pub open_run-fresh :
      (s : State V)
      → find set_key set_id s.sets.sets ≡ none
      → (leb 64 plan.dimensions && leb plan.dimensions 4096) ≡ true
      → find job_key job_id s.jobs ≡ none
      → open_run host sets settings scope plan times (set_id, job_id) none s
        ≡ (ok (binding_of fresh_row, at_start), opened_state s)
  unfolding open_run create in_sets add_job new_row
  open_run-fresh s fresh width new_job_id = rw (insert_set-new s.sets fresh width, new_job_id) refl

  pub get-fresh :
      (s : State V)
      → find set_key set_id s.sets.sets ≡ none
      → get scope set_id (record s.sets { sets = insert fresh_row s.sets.sets }) ≡ some fresh_row
  unfolding get new_row
  get-fresh s fresh =
      select-insert_new (is_set scope set_id) _ s.sets.sets
        (select_narrower (λ r. str_eq r.id set_id) (is_set scope set_id) s.sets.sets
          (λ r hit. ground (arith, hit)) fresh)
        (rw (eq_refl set_id, eq_refl scope.tenant_id, eq_refl scope.workspace_id) refl)

module _ {V : Type 0} (host : Host V) (order : IsOrder host.id_after) (content_of : String → String)
    (vector_of : String → V) (sets : SetHost) (settings : CanonSettings) (scope : Scope)
    (plan : Plan) (times : Times) (n : ℕ) (set_id job_id : String)
    (quiet : IsQuiet host vector_of plan.dimensions) where
  pointwise :
      (tick : ℕ) (texts : List String) (vectors : List V)
      → host.embed tick texts ≡ ok vectors
      → vectors ≡ map vector_of texts
  pointwise tick texts vectors h = ok_injective (sym h ∙ quiet.embeds tick texts)

  abbrev row : EmbeddingSetRow
  row = fresh_row host sets settings scope plan times set_id job_id

  foreign :
      (tick : ℕ)
      → All
          (IsForeign host order content_of vector_of pointwise scope (binding_of row))
          (host.arrivals tick)
  foreign tick = rw (quiet.nothing_new tick) tt

  abbrev opened : State V → State V
  opened = opened_state host sets settings scope plan times set_id job_id

  starts_clean :
      (chunks : List KnowledgeChunkRow) (vectors : _)
      → All
          (Passed host order content_of vector_of pointwise scope (binding_of row) none vectors)
          chunks
  starts_clean [] vectors = tt
  starts_clean (c ∷ chunks) vectors = ((λ here h. cc), starts_clean chunks vectors)

  IsAt-opened :
      (s : State V)
      → All (λ c. c.content ≡ content_of c.id) s.chunks
      → All (λ j. is_reindex_of set_id j ≡ false) s.jobs
      → find set_key set_id s.sets.sets ≡ none
      → IsAt host order content_of vector_of pointwise scope (binding_of row) none (opened s)
  unfolding record_event new_row
  IsAt-opened s known jobless fresh = record {
    sound = record {
      known = known;
      honest =
          All-snoc
            (IsHonest host order content_of vector_of pointwise scope (binding_of row) s.vectors
              s.chunks)
            s.jobs _
            (All-imp (λ j. is_reindex_of set_id j ≡ false) _ s.jobs
              (λ j other mine. absurd (ground (arith, other, mine))) jobless)
            (λ mine. starts_clean s.chunks s.vectors);
      stands = (row, get-fresh host sets settings scope plan times set_id job_id s fresh, refl);
    };
    passed = starts_clean s.chunks s.vectors;
  }

  remaining-none :
      (chunks : List KnowledgeChunkRow)
      → remaining host order scope none chunks ≡ count_for_workspace scope chunks
  unfolding count_for_workspace
  remaining-none [] = refl
  remaining-none (c ∷ chunks) = elim (Bool-cases (in_workspace scope c)) [
    | inl here ↦ rw here (ap suc (remaining-none chunks))
    | inr elsewhere ↦ rw elsewhere (remaining-none chunks)
  ]

  -- A workspace that was counted is read, if it holds anything.
  was_read :
      (total left : ℕ) (read_any : Bool)
      → total ≡ left
      → (0 < left → read_any ≡ true)
      → (ltb 0 total && not read_any) ≡ false
  was_read total left read_any counted h = ground (arith, h)

  -- A new reindex of a workspace that is there, under an id that no set and no job has, with a width that
  -- the table takes, of chunks whose count the plan has right, by a provider that answers every call,
  -- where the role may make the index and nothing is ingested meanwhile: on fuel above the count the run ends
  -- ready, the workspace is served by the new set, and every chunk of it is in the set with the
  -- vector of its content.
  pub quiet_run-ready :
      (fuel : ℕ) (s : State V) {w : Workspace}
      → All (λ c. c.content ≡ content_of c.id) s.chunks
      → plan.chunk_count ≡ count_for_workspace scope s.chunks
      → plan.chunk_count < fuel
      → find set_key set_id s.sets.sets ≡ none
      → (leb 64 plan.dimensions && leb plan.dimensions 4096) ≡ true
      → find job_key job_id s.jobs ≡ none
      → All (λ j. is_reindex_of set_id j ≡ false) s.jobs
      → select (is_workspace scope) s.sets.workspaces ≡ some w
      → (o : WorkspaceOutcome) × (s' : State V) × (run_workspace host sets settings fuel scope plan
            times
            (suc n)
            true
            (set_id, job_id)
            none
            s
          ≡ (ok o, s'))
        × (o.status ≡ ready_)
        × (active_set_id scope s'.sets ≡ some set_id)
        × All
            (λ c.
              in_workspace scope c ≡ true
              → IsEmbedded host content_of vector_of scope (binding_of row) s'.vectors c.id)
            s'.chunks
  unfolding run_workspace close record_event new_row
  quiet_run-ready fuel s {w} known counted enough fresh width new_job_id jobless there =
      let at_ = IsAt-opened s known jobless fresh in
      let p0 = at_start host sets settings scope plan times set_id job_id in
      let open_ =
        open_run-fresh host sets settings scope plan times set_id job_id s fresh width new_job_id in
      let count = remaining-none s.chunks in
      let (p, s1, walked, keeps, _, read) =
        walk_ends host order vector_of pointwise scope (binding_of row) quiet times n
          plan.chunk_count fuel p0 (opened s) (omega (arith, counted, enough, count)) in
      let (o, s2, ends, served) =
        complete_ends host order content_of vector_of pointwise sets settings scope (binding_of row)
          quiet times n plan.chunk_count foreign fuel p s1
          (was_read plan.chunk_count (remaining host order scope none s.chunks) p.read_any
            (counted ∙ sym count) read)
          (omega (arith, counted, enough, count, keeps.0 none))
          (ap (get scope set_id) keeps.1
            ∙ get-fresh host sets settings scope plan times set_id job_id s fresh)
          (ap (λ d. select (is_workspace scope) d.workspaces) keeps.1 ∙ there) in
      let full =
        walk_and_close-Leaves host order content_of vector_of pointwise sets settings scope
          (binding_of row) times n plan.chunk_count foreign quiet.nothing_late fuel true p0
          (opened s) at_ in
      let Left =
        Leaves host order content_of vector_of pointwise sets settings scope (binding_of row) times
          n plan.chunk_count foreign quiet.nothing_late in
      let left : Left o.status s2 = rw (walked, ends) at full in
      (
        o,
        s2,
        rw (open_, walked, ends) refl,
        served.0,
        served.2,
        subst (λ status. Left status s2) served.0 left,
      )
