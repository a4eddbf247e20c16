-- ===== src/App/Lifecycle/Corners.antt =====
-- Where `connect` of app/lifecycle.rs leaves more behind than it should.
use network_client.Prelude.{
  ◌≡◌, true, false, none, Text, t, SvcError, ok, err, already_running, arith,
}
use network_client.Nodes.Model.{Node}
use network_client.Nodes.Manager.{get, select}
use network_client.App.State.{stopped, starting, connected, error, transition}
use network_client.App.Lifecycle.State.{ConnectionManager, SaveAnswers, CleanupAnswers}
use network_client.App.Lifecycle.Connect.{
  ConnectAnswers, enter, begin, resolve, select_node, set_mode, prepare, connect, same_target,
}
use network_client.App.Lifecycle.Disconnect.{disconnect}

-- If the routing configuration cannot be written, a connect from STOPPED to a stored and enabled node
-- fails and leaves the state STARTING: then every later connect is refused, and every disconnect
-- answers `ok` and changes nothing.
pub connect_stuck :
    (a b : ConnectAnswers) (s : SaveAnswers) (c : CleanupAnswers) (id mode id' mode' : Text)
    (m : ConnectionManager) (n : Node) (e : SvcError)
    → m.store.inner.state ≡ stopped
    → get id m.nodes ≡ ok n
    → n.enabled ≡ true
    → (select n.id m.nodes).1 ≡ ok tt
    → a.mode_written ≡ err e
    → let r = connect a id mode m in
      (r.1 ≡ err e)
      × (r.0.store.inner.state ≡ starting)
      × (connect b id' mode' r.0 ≡ (r.0, err (already_running (t "connection"))))
      × (disconnect s c r.0 ≡ (r.0, ok tt))
unfolding connect enter prepare begin resolve select_node set_mode disconnect transition
connect_stuck a b s c id mode id' mode' m n e at found on known refused = ground arith

-- A switch from CONNECTED to another node, which is not stored, fails, ends in ERROR with the child of
-- the core gone, and leaves the system proxy and its snapshot as the live session had them.
pub connect_dangles :
    (a : ConnectAnswers) (id mode : Text) (m : ConnectionManager) (e : SvcError)
    → m.store.inner.state ≡ connected
    → same_target id mode m ≡ false
    → get id m.nodes ≡ err e
    → let r = connect a id mode m in
      (r.1 ≡ err e)
      × (r.0.store.inner.state ≡ error)
      × (r.0.core.child ≡ none)
      × (r.0.route ≡ m.route)
unfolding connect enter prepare begin resolve transition
connect_dangles a id mode m e at other missing = ground arith
