-- ===== src/Tests/Lifecycle.antt =====
-- The operations of app/lifecycle.rs on the service of Tests/Data.
use network_client.Prelude.{
  ◌≡◌, ◌≢◌, refl, inl, inr, ◌⊎◌, true, false, some, none, List, [], ◌∷◌, t, ok, err, io,
  already_running, node_not_found, arith, lookup, text_eq, pos,
}
use network_client.Nodes.Manager.{get, select}
use network_client.Proxy.Core
use network_client.Proxy.Core.{CoreStatus, StartAnswers, HealthAnswers}
use network_client.App.State.{stopped, starting, connected, error, new}
use network_client.App.Lifecycle.State.{ConnectionManager}
use network_client.App.Lifecycle.Connect.{connect}
use network_client.App.Lifecycle.Disconnect.{disconnect}
use network_client.App.Lifecycle.Recover.{RecoverAnswers, recover}
use network_client.App.Lifecycle.Invariant.{Ends, IsUp, IsDown, Inv}
use network_client.App.Lifecycle.Safety.{IsSession, connect-Ends}
use network_client.App.Lifecycle.Closing.{disconnect_lem}
use network_client.App.Lifecycle.Recovery.{IsGivenUp, recover_lem, recover_gives_up}
use network_client.App.Lifecycle.Corners.{connect_stuck, connect_dangles}
use network_client.App.Lifecycle.Runs.{Op, connects, disconnects, recovers}
use network_client.Route.Registry.{direct_proxy}
use network_client.Tests.Data.{idle, idle_route, dials, saves, cleans, starts, tokyo}

-- The core dies and does not come up again.
abbrev fails : StartAnswers
fails = record starts { ready = false }

abbrev healthy : HealthAnswers
healthy = record { accepts = true; forwards = true }

abbrev pub dies : RecoverAnswers
dies = record {
  save = saves;
  cleanup = cleans;
  core = fails;
  health = healthy;
  choice = ok (some (t "n2"));
  other_core = starts;
  other_health = healthy;
}

abbrev ops : List Op
ops =
    connects dials (t "n1") (t "smart")
    ∷ disconnects saves cleans
    ∷ connects dials (t "n1") (t "smart")
    ∷ recovers dies
    ∷ connects dials (t "n1") (t "global")
    ∷ []

idle-Inv : Inv idle
unfolding new
idle-Inv = record {
  base = record {
    settled = inl refl;
    up = λ e. ground arith;
    down = λ _. record { child = refl; session = refl; active = refl; adapter = refl };
  };
  closed = λ _. refl;
}

connect-Ends_example :
    Ends
      (λ _ m'. Inv m' × (m'.store.inner.state ≡ connected) × IsSession (t "n1") idle m')
      (λ m'. Inv m' × ((m' ≡ idle) ⊎ IsDown m'))
      (connect dials (t "n1") (t "smart") idle)
connect-Ends_example = connect-Ends dials (t "n1") (t "smart") idle idle-Inv.base

-- A session on Tokyo.
abbrev pub live : ConnectionManager
live = record idle {
  core = record { status = CoreStatus.running; pid = 42; child = some 42; events = [] };
  route = record idle_route { saved = some direct_proxy; backup = some direct_proxy };
  stats = record { up = 5; down = 9; session = some (t "s1", t "n1"); last = some (0, 0); db = [] };
  store = record {
    inner = record {
      state = connected;
      node_id = t "n1";
      node_name = t "Tokyo";
      mode = t "smart";
      latency_ms = pos 80;
      error_code = [];
      error_message = [];
    };
    bus = [];
  };
  active_node = some tokyo;
}

pub live-Inv : Inv live
unfolding text_eq
live-Inv = record {
  base = record {
    settled = inr (inr (inr refl));
    up = λ _. record {
      child = refl;
      running = refl;
      saved = refl;
      session = refl;
      active = refl;
      budget = refl;
    };
    down = λ n. absurd (n refl);
  };
  closed = λ e. ground arith;
}

disconnect_lem_example :
    let m' = (disconnect saves cleans live).0 in
    ((disconnect saves cleans live).1 ≡ ok tt)
    × Inv m'
    × (((live.store.inner.state ≢ stopped)
          × (live.store.inner.state ≢ starting)
          × (m'.store.inner.state ≡ stopped)
          × IsDown m'
          × (m'.route.saved ≡ none))
        ⊎ (((live.store.inner.state ≡ stopped) ⊎ (live.store.inner.state ≡ starting))
            × (m' ≡ live)))
disconnect_lem_example = disconnect_lem saves cleans live live-Inv

recover_lem_example :
    let m' = recover dies live in
    Inv m'
    × (((live.store.inner.state ≡ connected)
          × (((m'.store.inner.state ≡ connected) × IsUp m') ⊎ IsGivenUp m'))
        ⊎ ((live.store.inner.state ≢ connected) × (m' ≡ live)))
recover_lem_example = recover_lem dies live live-Inv

recover_gives_up_example : IsGivenUp (recover dies live)
unfolding Core.restart Core.start Core.stop
recover_gives_up_example = recover_gives_up dies live tokyo live-Inv refl refl (omega arith) refl

connect_stuck_example :
    let r =
      connect
        (record dials { mode_written = err (io (t "disk full")) })
        (t "n1")
        (t "smart")
        idle in
    (r.1 ≡ err (io (t "disk full")))
    × (r.0.store.inner.state ≡ starting)
    × (connect dials (t "n1") (t "smart") r.0 ≡ (r.0, err (already_running (t "connection"))))
    × (disconnect saves cleans r.0 ≡ (r.0, ok tt))
unfolding new get lookup text_eq select
connect_stuck_example =
    connect_stuck (record dials { mode_written = err (io (t "disk full")) }) dials saves cleans
      (t "n1") (t "smart") (t "n1") (t "smart") idle tokyo (io (t "disk full")) refl refl refl refl
      refl

connect_dangles_example :
    let r = connect dials (t "n9") (t "smart") live in
    (r.1 ≡ err (node_not_found (t "n9")))
    × (r.0.store.inner.state ≡ error)
    × (r.0.core.child ≡ none)
    × (r.0.route ≡ live.route)
unfolding get lookup text_eq
connect_dangles_example =
    connect_dangles dials (t "n9") (t "smart") live (node_not_found (t "n9")) refl refl refl
