-- ===== src/App/Lifecycle/Disconnect.antt =====
-- `disconnect` of app/lifecycle.rs.
use network_client.Prelude.{false, ◌||◌, none, SvcResult, ok, err, if◌then◌else◌}
use network_client.Config.Schema.{parse_mode}
use network_client.App.State.{stopped, connected, reconnecting, stopping, error, same_state}
use network_client.App.Lifecycle.State.{
  ConnectionManager, SaveAnswers, CleanupAnswers, persist_runtime, cleanup_partial,
}
use network_client.App.Lifecycle.Connect.{move_to}

-- The part that runs from every state in which there is something to close.
unfoldable pub tear_down :
    SaveAnswers → CleanupAnswers → ConnectionManager → ConnectionManager × SvcResult (Unit {0})
tear_down a c m =
    let cleaned = cleanup_partial c (record m { monitor = false }) in
    let p = persist_runtime a stopped none (parse_mode cleaned.store.inner.mode) cleaned in
    move_to stopped (record p { active_node = none })

after_stopping :
    SaveAnswers
    → CleanupAnswers
    → ConnectionManager × SvcResult (Unit {0})
    → ConnectionManager × SvcResult (Unit {0})
unfolding tear_down
after_stopping a c (m, ok _) = tear_down a c m
after_stopping a c (m, err e) = (m, err e)

unfoldable pub disconnect :
    SaveAnswers → CleanupAnswers → ConnectionManager → ConnectionManager × SvcResult (Unit {0})
unfolding after_stopping same_state
disconnect a c m =
    let state = m.store.inner.state in
    if same_state state error
    then tear_down a c m
    else if same_state state connected || same_state state reconnecting
    then after_stopping a c (move_to stopping m)
    else (m, ok tt)
