-- ===== src/App/Lifecycle/Runs.antt =====
-- Any sequence of the operations of app/lifecycle.rs.
use network_client.Prelude.{List, [], ◌∷◌, Text}
use network_client.Route.Manager.{Answers as RouteAnswers}
use network_client.App.Lifecycle.State.{ConnectionManager, SaveAnswers, CleanupAnswers}
use network_client.App.Lifecycle.Connect.{ConnectAnswers, connect}
use network_client.App.Lifecycle.Disconnect.{disconnect}
use network_client.App.Lifecycle.Recover.{RecoverAnswers, StartupAnswers, recover, startup_recover}

pub data Op : Type 0 where
  connects : ConnectAnswers → Text → Text → Op
  disconnects : SaveAnswers → CleanupAnswers → Op
  recovers : RecoverAnswers → Op
  starts : StartupAnswers → Op

unfoldable pub step : ConnectionManager → Op → ConnectionManager
step m (connects a id mode) = (connect a id mode m).0
step m (disconnects s c) = (disconnect s c m).0
step m (recovers a) = recover a m
step m (starts a) = startup_recover a m

unfoldable pub run : ConnectionManager → List Op → ConnectionManager
run m [] = m
run m (o ∷ os) = run (step m o) os
