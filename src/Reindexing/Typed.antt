-- ===== src/Reindexing/Typed.antt =====
-- A run keeps every stored vector at the width of its row.
use flycanon.Prelude.{
  ℕ, zero, suc, ◌&&◌, not, ltb, String, Bool, true, false, Option, none, some, List, [], ◌∷◌, inl,
  inr, filter, Bool-cases, Option-cases, is_some,
}
use flycanon.Prelude.Actions.{call-cases}
use flycanon.Table.{find}
use flycanon.EmbeddingSets.{Scope, get}
use flycanon.EmbeddingSets.Service.{
  Host as SetHost, CanonSettings, EmbeddingSetBinding, create, truthy, mark,
}
use flycanon.Reindexing.{
  KnowledgeChunkRow, IngestJobRow, job_key, State, Host, is_stale, last_id, list_for_workspace,
}
use flycanon.Reindexing.Run.{
  arrive_late, Walked, through, paused, Times, Plan, in_sets, record_event, walk,
}
use flycanon.Reindexing.Workspace.{
  job_for, resume_job, resume_row, new_job, new_set, add_job, open_run, embed_stale, catch_turn,
  catch_up, ensure_set_index, promote, finish_job, complete, close, run_workspace,
}
use flycanon.Reindexing.Walk.{List-cases}
use flycanon.Reindexing.Complete.{built}
use flycanon.Reindexing.Width.{IsTyped, embed_batch-IsTyped, in_sets-IsTyped, walk-IsTyped}

module _ {V : Type 0} (host : Host V) where
  abbrev Typed : State V → Type 0
  Typed = IsTyped host

  module _ (sets : SetHost) (settings : CanonSettings) (scope : Scope)
      (binding : EmbeddingSetBinding) (times : Times) (batch_size total : ℕ) where
    embed_stale-IsTyped :
        (batch : List KnowledgeChunkRow) (s : State V)
        → Typed s
        → Typed (embed_stale host sets settings scope binding times batch_size total batch s).1
    unfolding embed_stale
    embed_stale-IsTyped [] s typed = typed
    embed_stale-IsTyped (c ∷ batch) s typed =
        embed_batch-IsTyped host scope binding (c ∷ batch) s typed

    arrive_late-IsTyped : (s : State V) → Typed s → Typed (arrive_late host s)
    unfolding arrive_late
    arrive_late-IsTyped s typed = typed

    catch_up-IsTyped :
        (fuel : ℕ) (last : Option String) (s : State V)
        → Typed s
        → Typed (catch_up host sets settings scope binding times batch_size total fuel last s).1
    unfolding catch_up catch_turn
    catch_up-IsTyped zero last s typed = typed
    catch_up-IsTyped (suc fuel) last s typed =
        let late = arrive_late host s in
        let typed_late = arrive_late-IsTyped s typed in
        elim (List-cases (list_for_workspace host scope last batch_size late.chunks)) [
          | inl empty ↦ rw empty typed_late
          | inr (c, page, e) ↦
              let stale = filter (is_stale binding) (c ∷ page) in
              elim (call-cases Typed
                (embed_stale host sets settings scope binding times batch_size total stale late)
                (embed_stale-IsTyped stale late typed_late)) [
                  | inr (error, s1, refused, typed1) ↦ rw (e, refused) typed1
                  | inl (n, s1, embedded, typed1) ↦
                      let pass =
                        catch_up host sets settings scope binding times batch_size total fuel
                          (some (last_id c page)) s1 in
                      elim (call-cases Typed pass
                        (catch_up-IsTyped fuel (some (last_id c page)) s1 typed1)) [
                          | inl (rest, s2, ends, typed2) ↦ rw (e, embedded, ends) typed2
                          | inr (error, s2, ends, typed2) ↦ rw (e, embedded, ends) typed2
                        ]
                ]
        ]

    promote-IsTyped :
        (activated indexed : Bool) (s : State V)
        → Typed s
        → Typed
            (promote host sets settings scope binding times batch_size total activated indexed s).1
    unfolding promote
    promote-IsTyped false indexed s typed = typed
    promote-IsTyped true false s typed = typed
    promote-IsTyped true true s typed = in_sets-IsTyped host s _ typed

    close-IsTyped :
        (fuel : ℕ) (activated : Bool) (walked : Walked) (s : State V)
        → Typed s
        → Typed
            (close host sets settings scope binding times batch_size total fuel activated walked
              s).1
    unfolding close complete ensure_set_index in_sets mark record_event finish_job
    close-IsTyped fuel activated (paused p) s typed = typed
    close-IsTyped fuel activated (through p) s typed =
        elim (Bool-cases (ltb 0 total && not p.read_any)) [
          | inl unread ↦ rw unread typed
          | inr read ↦
              elim (call-cases Typed
                (catch_up host sets settings scope binding times batch_size total fuel none s)
                (catch_up-IsTyped fuel none s typed)) [
                  | inr (error, s1, refused, typed1) ↦ rw (read, refused) typed1
                  | inl (caught, s1, ends, typed1) ↦
                      let s2 = built host scope binding times total p caught s1 in
                      elim (call-cases Typed
                        (promote host sets settings scope binding times batch_size total activated
                          (host.may_index s1.ticks) s2)
                        (promote-IsTyped activated (host.may_index s1.ticks) s2 typed1)) [
                          | inl (retired, s3, promoted, typed3) ↦ rw (read, ends, promoted) typed3
                          | inr (error, s3, refused, typed3) ↦ rw (read, ends, refused) typed3
                        ]
                ]
        ]

  module _ (sets : SetHost) (settings : CanonSettings) (scope : Scope) (plan : Plan)
      (times : Times) where
    add_job-IsTyped :
        (job : IngestJobRow) (s : State V) → Typed s → Typed (add_job host sets settings job s).1
    unfolding add_job
    add_job-IsTyped job s typed = elim (Bool-cases (is_some (find job_key job.id s.jobs))) [
      | inl taken ↦ rw taken typed
      | inr new ↦ rw new typed
    ]

    open_run-IsTyped :
        (ids : String × String) (resume_set_id : Option String) (s : State V)
        → Typed s
        → Typed (open_run host sets settings scope plan times ids resume_set_id s).1
    unfolding open_run resume_row resume_job record_event
    open_run-IsTyped ids (some set_id) s typed = elim (Option-cases (get scope set_id s.sets)) [
      | inl absent ↦ rw absent typed
      | inr (row, there) ↦ elim (Option-cases (job_for scope set_id s.jobs)) [
        | inl jobless ↦ rw (there, jobless) typed
        | inr (job, found) ↦ rw (there, found) typed
      ]
    ]
    open_run-IsTyped (set_id, job_id) none s typed =
        let created = in_sets s (
          create sets settings scope (new_set host sets settings plan set_id) times.opened
            s.sets) in
        elim (call-cases Typed created (in_sets-IsTyped host s _ typed)) [
          | inr (error, s1, refused, typed1) ↦ rw refused typed1
          | inl (row, s1, made, typed1) ↦
              let job = new_job host sets settings scope plan job_id row.id times.opened in
              elim (call-cases Typed (add_job host sets settings job s1)
                (add_job-IsTyped job s1 typed1)) [
                  | inr (error, s2, refused, typed2) ↦ rw (made, refused) typed2
                  | inl (u, s2, added, typed2) ↦ rw (made, added) typed2
                ]
        ]

    -- Where every stored vector has the width that its row declares, so it is after a run, fresh or
    -- resumed, whatever the provider answers and however the run ends.
    pub run_workspace-IsTyped :
        (fuel batch_size : ℕ) (activated : Bool) (ids : String × String)
        (resume_set_id : Option String) (s : State V)
        → Typed s
        → Typed
            (run_workspace host sets settings fuel scope plan times batch_size activated ids
              resume_set_id s).1
    unfolding run_workspace
    run_workspace-IsTyped fuel batch_size activated ids resume_set_id s typed =
        elim (call-cases Typed
          (open_run host sets settings scope plan times ids (truthy resume_set_id) s)
          (open_run-IsTyped ids (truthy resume_set_id) s typed)) [
            | inr (error, s1, refused, typed1) ↦ rw refused typed1
            | inl ((binding, p), s1, opened, typed1) ↦
                elim (call-cases Typed
                  (walk host scope binding times batch_size plan.chunk_count fuel p s1)
                  (walk-IsTyped host scope binding times batch_size plan.chunk_count fuel p s1
                    typed1)) [
                      | inr (error, s2, refused, typed2) ↦ rw (opened, refused) typed2
                      | inl (walked, s2, done, typed2) ↦
                          rw (opened, done)
                            (close-IsTyped sets settings scope binding times batch_size
                              plan.chunk_count fuel activated walked s2 typed2)
                    ]
          ]
