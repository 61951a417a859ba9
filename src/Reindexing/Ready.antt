-- ===== src/Reindexing/Ready.antt =====
-- A run in a quiet environment ends ready, and its set is the one that is served.
use flycanon.Prelude.{
  ℕ, suc, ◌+◌, ◌<◌, ◌≡◌, refl, ap, ◌∙◌, ◌&&◌, not, ltb, String, true, false, Option, none, some,
  List, map, All,
}
use flycanon.Prelude.Actions.{ok}
use flycanon.Table.{select}
use flycanon.EmbeddingSets.{
  ready, EmbeddingSetRow, Workspace, Scope, is_workspace, patched, set_status, get, active_set_id,
}
use flycanon.EmbeddingSets.Service.{
  Host as SetHost, CanonSettings, EmbeddingSetBinding, mark, can_serve, reported,
}
use flycanon.EmbeddingSets.Switch.{get-marked_counts, switched, activate_ok, active_set_id-switched}
use flycanon.Reindexing.{State, Host}
use flycanon.Reindexing.Run.{ready_, WorkspaceOutcome, Progress, Times, in_sets, record_event}
use flycanon.Reindexing.Workspace.{ensure_set_index, promote, finish_job, complete}
use flycanon.Reindexing.Pages.{IsOrder}
use flycanon.Reindexing.Remaining.{remaining}
use flycanon.Reindexing.Ends.{IsQuiet, catch_up_ends}
use flycanon.Reindexing.Walk.{IsForeign}
use flycanon.Reindexing.Complete.{built}

serves_marked :
    (now : ℕ) (vectors chunks : Option ℕ) (r : EmbeddingSetRow)
    → can_serve (patched ready now vectors chunks r).status ≡ true
unfolding patched
serves_marked now vectors chunks r = refl

module _ {V : Type 0} (host : Host V) (order : IsOrder host.id_after) (content_of : String → String)
    (vector_of : String → V)
    (pointwise : (tick : ℕ) (texts : List String) (vectors : List V)
      → host.embed tick texts ≡ ok vectors
      → vectors ≡ map vector_of texts)
    (sets : SetHost) (settings : CanonSettings) (scope : Scope) (binding : EmbeddingSetBinding)
    (quiet : IsQuiet host vector_of binding.dimensions) (times : Times) (n total : ℕ)
    (foreign : (tick : ℕ)
      → All
          (IsForeign host order content_of vector_of pointwise scope binding)
          (host.arrivals tick)) where
  -- A run that ended ready, with its set served.
  abbrev pub IsServed : WorkspaceOutcome → State V → Type 0
  IsServed o s =
      (o.status ≡ ready_)
      × (o.activated ≡ true)
      × (active_set_id scope s.sets ≡ some binding.set_id)

  pub complete_ends :
      (fuel : ℕ) (p : Progress) (s : State V) {row : EmbeddingSetRow} {w : Workspace}
      → (ltb 0 total && not p.read_any) ≡ false
      → remaining host order scope none s.chunks < fuel
      → get scope binding.set_id s.sets ≡ some row
      → select (is_workspace scope) s.sets.workspaces ≡ some w
      → (o : WorkspaceOutcome) × (s' : State V) × (complete host sets settings scope binding times
            (suc n)
            total
            fuel
            true
            p
            s
          ≡ (ok o, s'))
        × IsServed o s'
  unfolding complete ensure_set_index in_sets mark promote record_event finish_job set_status
  complete_ends fuel p s {row} {w} read enough found there =
      let (caught, s1, ends, kept) =
        catch_up_ends host order vector_of pointwise scope binding quiet times n total sets settings
          fuel none s enough in
      let db =
        set_status scope binding.set_id ready times.marked (some (p.embedded + caught)) (some total)
          s1.sets in
      let db_found =
        get-marked_counts scope binding.set_id ready times.marked (some (p.embedded + caught))
          (some total) s1.sets (ap (get scope binding.set_id) kept.1 ∙ found) in
      let switch =
        activate_ok scope binding.set_id times.activated times.retired db db_found
          (serves_marked times.marked (some (p.embedded + caught)) (some total) row) in
      let served =
        active_set_id-switched scope binding.set_id (active_set_id scope db) times.activated
          times.retired db (ap (λ d. select (is_workspace scope) d.workspaces) kept.1 ∙ there) in
      (
        record {
          set_id = binding.set_id;
          embedded = p.embedded + caught;
          activated = true;
          retired_set_id = reported binding.set_id (active_set_id scope db);
          indexed = true;
          status = ready_;
        },
        finish_job host sets settings scope binding times (suc n) total p.job
            (record (built host scope binding times total p caught s1) {
              sets =
                  switched scope binding.set_id (active_set_id scope db) times.activated
                    times.retired db;
            }),
        rw (read, ends, quiet.indexes s1.ticks, switch) refl,
        (refl, refl, served),
      )
