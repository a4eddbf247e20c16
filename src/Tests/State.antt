-- ===== src/Tests/State.antt =====
-- The store of the connection state at concrete writes.
use network_client.Prelude.{List, [], ◌∷◌, t, pos, negsuc}
use network_client.App.State.{starting, connecting, connected, error, StateStore, new}
use network_client.App.State.Trail.{Write, moves, binds, measures, run, IsTrail, run-IsTrail}

abbrev session : List Write
session =
    moves starting
    ∷ binds connecting (t "n1") (t "Tokyo") (t "smart")
    ∷ moves connected
    ∷ measures (pos 80)
    ∷ []

run-IsTrail_example : IsTrail (run new session).inner (run new session).bus
run-IsTrail_example = run-IsTrail session

-- A store that has failed once.
abbrev failed : StateStore
failed = record {
  inner = record {
    state = error;
    node_id = [];
    node_name = [];
    mode = t "smart";
    latency_ms = negsuc 0;
    error_code = t "601";
    error_message = t "core error: gone";
  };
  bus = [];
}
