-- ===== src/Reindexing/Resume.antt =====
-- What a run leaves behind, fresh or resumed.
pub mod Tests
use flycanon.Prelude.{ℕ, suc, ◌≡◌, String, str_eq, Bool, false, some, List, [], map, All}
use flycanon.Prelude.Actions.{Outcome, ok}
use flycanon.EmbeddingSets.{Scope}
use flycanon.EmbeddingSets.Service.{Host as SetHost, CanonSettings, EmbeddingSetBinding}
use flycanon.Reindexing.{State, Host}
use flycanon.Reindexing.Run.{ReindexError, throttled, WorkspaceOutcome, Times, Plan}
use flycanon.Reindexing.Workspace.{run_workspace}
use flycanon.Reindexing.Pages.{IsOrder}
use flycanon.Reindexing.Walk.{IsSound, IsForeign}
use flycanon.Reindexing.Complete.{Leaves}

module _ {V : Type 0} (host : Host V) (order : IsOrder host.id_after) (content_of : String → String)
    (vector_of : String → V)
    (pointwise : (tick : ℕ) (texts : List String) (vectors : List V)
      → host.embed tick texts ≡ ok vectors
      → vectors ≡ map vector_of texts)
    (sets : SetHost) (settings : CanonSettings) (scope : Scope) (plan : Plan) (times : Times)
    (n : ℕ) where
  module _ (binding : EmbeddingSetBinding) (named : str_eq binding.set_id "" ≡ false)
      (foreign : (tick : ℕ)
        → All
            (IsForeign host order content_of vector_of pointwise scope binding)
            (host.arrivals tick))
      (still : (tick : ℕ) → host.late tick ≡ []) where
    abbrev Sound : State V → Type 0
    Sound = IsSound host order content_of vector_of pointwise scope binding

    abbrev Left : WorkspaceOutcome → State V → Type 0
    Left o s =
        Leaves host order content_of vector_of pointwise sets settings scope binding times n
          plan.chunk_count foreign still o.status s

    -- One attempt to resume the run.
    abbrev pub attempt :
        ℕ → Bool → String × String → State V → Outcome ReindexError WorkspaceOutcome × State V
    attempt fuel activated ids s =
        run_workspace host sets settings fuel scope plan times (suc n) activated ids
          (some binding.set_id) s

    -- The states that are reached by attempts that were throttled.
    pub data Throttled (s : State V) : State V → Type 0 where
      not_yet : Throttled s s
      again :
          {t u : State V} (fuel : ℕ) (activated : Bool) (ids : String × String)
          (o : WorkspaceOutcome)
          → Throttled s t
          → attempt fuel activated ids t ≡ (ok o, u)
          → o.status ≡ throttled
          → Throttled s u
