-- ===== src/Reindexing/Resume/Tests.antt =====
-- A provider that throttles its first call; the run is resumed after it.
use flycanon.Prelude.{◌==◌, String, Bool, true, false, none, some, List, map}
use flycanon.Prelude.Actions.{Outcome, ok, err}
use flycanon.EmbeddingSets.Service.{EmbeddingSetBinding, binding_of}
use flycanon.EmbeddingSets.Tests.{host as set_host, settings}
use flycanon.Reindexing.{State, Host, EmbeddingError, throttle}
use flycanon.Reindexing.Run.{embed}
use flycanon.Reindexing.Workspace.{run_workspace}
use flycanon.Reindexing.Tests.{host, scope, half_built, interrupted, times, plan}

abbrev answer : Bool → List String → Outcome EmbeddingError (List String)
answer true texts = err (throttle none)
answer false texts = ok (map (λ text. text) texts)

abbrev flaky : Host String
flaky = record host { embed = λ tick texts. answer (tick == 1) texts }

abbrev binding : EmbeddingSetBinding
binding = binding_of half_built

abbrev paused_state : State String
paused_state =
    (run_workspace flaky set_host settings 5 scope plan times 1 true ("", "") (some "es-b")
      interrupted).1
