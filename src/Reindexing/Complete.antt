-- ===== src/Reindexing/Complete.antt =====
-- A whole run, from wherever an earlier one stopped.
use flycanon.Prelude.{
  ℕ, suc, ◌+◌, ◌≡◌, ◌&&◌, not, ltb, String, Bool, true, false, none, some, List, [], ◌∷◌, inl, inr,
  map, All, All-imp, All-take, All-filter, Bool-cases, if◌then◌else◌,
}
use flycanon.Prelude.Actions.{Outcome, ok, err, and_then, Ensures, Ensures-cases}
use flycanon.Effects.{text, number}
use flycanon.Table.{select-All, select_sound}
use flycanon.EmbeddingSets.{ready, Db, Scope, set_status}
use flycanon.EmbeddingSets.Service.{
  Host as SetHost, CanonSettings, EmbeddingSetError, EmbeddingSetBinding, mark,
}
use flycanon.Reindexing.{KnowledgeChunkRow, IngestJobRow, State, VectorRow, Host, list_jobs}
use flycanon.Reindexing.Run.{
  RunStatus, throttled, ready_, Progress, Walked, through, paused, Times, in_sets, record_event,
  walk,
}
use flycanon.Reindexing.Workspace.{
  is_reindex_of, job_for, resumed, ensure_set_index, promote, finish_job, complete, close, catch_up,
}
use flycanon.Reindexing.Pages.{IsOrder, All-ordered}
use flycanon.Reindexing.Walk.{IsSound, IsHonest, IsAt, IsForeign, IsWalked, walk-IsWalked}
use flycanon.Reindexing.CatchUp.{Caught}
use flycanon.Reindexing.Passes.{IsFull, catch_up-IsFull}

module _ {V : Type 0} (host : Host V) (scope : Scope) (binding : EmbeddingSetBinding)
    (times : Times) (total : ℕ) where
  -- The state before a set that is built is promoted.
  abbrev pub built : Progress → ℕ → State V → State V
  built p caught s =
      record_event scope p.job "reindex.ready"
        (("set_id", text binding.set_id)
          ∷ ("indexed", number (if host.may_index s.ticks then 1 else 0))
          ∷ [])
        (record s {
          ticks = suc s.ticks;
          sets =
              set_status scope binding.set_id ready times.marked (some (p.embedded + caught))
                (some total) s.sets;
        })

module _ {V : Type 0} (host : Host V) (order : IsOrder host.id_after) (content_of : String → String)
    (vector_of : String → V)
    (pointwise : (tick : ℕ) (texts : List String) (vectors : List V)
      → host.embed tick texts ≡ ok vectors
      → vectors ≡ map vector_of texts)
    (sets : SetHost) (settings : CanonSettings) (scope : Scope) (binding : EmbeddingSetBinding)
    (times : Times) (n total : ℕ)
    (foreign : (tick : ℕ)
      → All
          (IsForeign host order content_of vector_of pointwise scope binding)
          (host.arrivals tick))
    (still : (tick : ℕ) → host.late tick ≡ []) where
  abbrev Full : State V → Type 0
  Full = IsFull host order content_of vector_of scope binding pointwise sets settings times n total

  abbrev Sound : State V → Type 0
  Sound = IsSound host order content_of vector_of pointwise scope binding

  -- What a run leaves.
  abbrev pub Leaves : RunStatus → State V → Type 0
  Leaves throttled s = Sound s
  Leaves ready_ s = Full s

  in_sets-Full :
      {A : Type 0} (s : State V) (r : Outcome EmbeddingSetError A × Db)
      → Full s
      → Ensures (λ _ s'. Full s') (in_sets s r)
  unfolding in_sets
  in_sets-Full s (ok a, db) full = full
  in_sets-Full s (err e, db) full = tt

  promote-Full :
      (activated indexed : Bool) (s : State V)
      → Full s
      → Ensures
          (λ _ s'. Full s')
          (promote host sets settings scope binding times (suc n) total activated indexed s)
  unfolding promote
  promote-Full false indexed s full = full
  promote-Full true false s full = tt
  promote-Full true true s full = in_sets-Full s _ full

  finish-Full :
      (job : IngestJobRow) (s : State V)
      → Full s
      → Full (finish_job host sets settings scope binding times (suc n) total job s)
  unfolding finish_job record_event
  finish-Full job s full = full

  -- Before the catch-up pass, no chunk is passed.
  pass_starts :
      (chunks : List KnowledgeChunkRow) (vectors : List (VectorRow V))
      → All (Caught host order content_of vector_of scope binding none vectors) chunks
  pass_starts [] vectors = tt
  pass_starts (c ∷ chunks) vectors = (λ here h. cc, pass_starts chunks vectors)

  built-Full :
      (p : Progress) (caught : ℕ) (s : State V)
      → Full s
      → Full (built host scope binding times total p caught s)
  unfolding record_event
  built-Full p caught s full = full

  complete-Leaves :
      (fuel : ℕ) (activated : Bool) (p : Progress) (s : State V)
      → IsWalked host order content_of vector_of pointwise scope binding times n total foreign
          (through p)
          s
      → Ensures
          (λ o s'. Leaves o.status s')
          (complete host sets settings scope binding times (suc n) total fuel activated p s)
  unfolding complete ensure_set_index in_sets mark
  complete-Leaves fuel activated p s walked =
      let pass =
        catch_up-IsFull host order content_of vector_of scope binding pointwise sets settings times
          n total still fuel none s
          (record {
            known = walked.0.known;
            settled = walked.1;
            caught = pass_starts s.chunks s.vectors;
          }) in
      elim (Bool-cases (ltb 0 total && not p.read_any)) [
        | inl unread ↦ rw unread tt
        | inr read ↦
            elim (Ensures-cases (λ _ s'. Full s')
              (catch_up host sets settings scope binding times (suc n) total fuel none s) pass) [
                | inl (caught, s1, e1, full) ↦
                    let s2 = built host scope binding times total p caught s1 in
                    elim (Ensures-cases (λ _ s'. Full s')
                      (promote host sets settings scope binding times (suc n) total activated
                        (host.may_index s1.ticks) s2)
                      (promote-Full activated (host.may_index s1.ticks) s2
                        (built-Full p caught s1 full))) [
                          | inl (retired, s3, e3, full3) ↦
                              rw (read, e1, e3) (finish-Full p.job s3 full3)
                          | inr (error, s3, e3) ↦ rw (read, e1, e3) tt
                        ]
                | inr (error, s1, e1) ↦ rw (read, e1) tt
              ]
      ]

  close-Leaves :
      (fuel : ℕ) (activated : Bool) (walked : Walked) (s : State V)
      → IsWalked host order content_of vector_of pointwise scope binding times n total foreign
          walked s
      → Ensures
          (λ o s'. Leaves o.status s')
          (close host sets settings scope binding times (suc n) total fuel activated walked s)
  unfolding close
  close-Leaves fuel activated (paused p) s sound = sound
  close-Leaves fuel activated (through p) s walked = complete-Leaves fuel activated p s walked

  -- A walk from a cursor that has settled what it passed, and its end.
  pub walk_and_close-Leaves :
      (fuel : ℕ) (activated : Bool) (p : Progress) (s : State V)
      → IsAt host order content_of vector_of pointwise scope binding p.last_chunk_id s
      → Ensures
          (λ o s'. Leaves o.status s')
          (and_then
            (walk host scope binding times (suc n) total fuel p s)
            (close host sets settings scope binding times (suc n) total fuel activated))
  walk_and_close-Leaves fuel activated p s at_ =
      elim (Ensures-cases
        (IsWalked host order content_of vector_of pointwise scope binding times n total foreign)
        (walk host scope binding times (suc n) total fuel p s)
        (walk-IsWalked host order content_of vector_of pointwise scope binding times n total foreign
          fuel p s at_)) [
            | inl (walked, s1, e, h) ↦ rw e (close-Leaves fuel activated walked s1 h)
            | inr (error, s1, e) ↦ rw e tt
          ]

  -- The job that a resumed run finds is honest.
  pub job_for-IsAt :
      (s : State V) {job : IngestJobRow}
      → Sound s
      → job_for scope binding.set_id s.jobs ≡ some job
      → IsAt host order content_of vector_of pointwise scope binding (resumed job).last_chunk_id s
  unfolding job_for list_jobs
  job_for-IsAt s {job} sound found =
      let Honest =
        IsHonest host order content_of vector_of pointwise scope binding s.vectors s.chunks in
      let listed = All-take Honest 200 _ (
        All-ordered _ Honest _
          (All-imp _ Honest _ (λ j both. both.0) (All-filter Honest _ s.jobs sound.honest))) in
      record {
        sound = sound;
        passed =
            select-All Honest (is_reindex_of binding.set_id) (list_jobs scope 200 s.jobs) listed
              found
              (select_sound (is_reindex_of binding.set_id) (list_jobs scope 200 s.jobs) found);
      }
