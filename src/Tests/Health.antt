-- ===== src/Tests/Health.antt =====
-- The supervisor of the session of Tests/Lifecycle.
use network_client.Prelude.{none, true, false, List, [], ◌∷◌, arith}
use network_client.Health.Monitor.{Tick, supervise}
use network_client.Health.Rounds.{Ran, supervise_lem}
use network_client.Tests.Lifecycle.{live, live-Inv, dies}

-- The uplink does not answer.
abbrev silent : Tick
silent = record {
  cancelled = false;
  health = record { accepts = true; forwards = false };
  latency = none;
  recovery = dies;
}

abbrev ticks : List Tick
ticks = silent ∷ silent ∷ silent ∷ silent ∷ []

supervise_lem_example : Ran ticks (supervise 5 ticks live)
supervise_lem_example = supervise_lem 5 ticks live live-Inv (omega arith)
