-- ===== src/App/Lifecycle/Safety.antt =====
-- The operations of app/lifecycle.rs keep the invariant, on every branch and for all answers.
use network_client.Prelude.{◌≡◌, ◌⊎◌, inr, true, some, sym, subst, Text, SvcResult, ok, err}
use network_client.Config.Schema.{RouteMode, parse_mode}
use network_client.Nodes.Model.{Node}
use network_client.Nodes.Manager.{NodeManager, get}
use network_client.App.State.{starting, connecting, connected}
use network_client.App.Lifecycle.State.{ConnectionManager}
use network_client.App.Lifecycle.Connect.{
  ConnectAnswers, enter, begin, resolve, select_node, set_mode, bind_context, start_core, raise_tun,
  set_proxy, prepare, dial, connect,
}
use network_client.App.Lifecycle.Monad.{◌>>◌, ◌>>=◌, pure}
use network_client.App.Lifecycle.Invariant.{
  is_some, IsDown, IsSettled, Inv, Failed, Fails, Ends, Ends-bind, Ends-weaken,
}
use network_client.App.Lifecycle.Steps.{
  IsReady, HasCore, IsIdle, enter-Ends, begin-Ends, resolve-Ends, select_node-Ends, set_mode-Ends,
  bind_context-Ends, start_core-Ends, raise_tun-Ends, set_proxy-Ends, publish-Ends,
}

-- The new session of a connect that succeeds.
abbrev pub IsConnected : Node → ConnectionManager → Type 0
IsConnected n m = Inv m × (m.store.inner.state ≡ connected) × (m.active_node ≡ some n)

module _ (a : ConnectAnswers) (mode : RouteMode) where
  dial-Ends :
      (n : Node) (m : ConnectionManager)
      → IsReady connecting m
      → Ends (λ _ m'. IsConnected n m') Failed (dial a mode n m)
  unfolding dial
  dial-Ends n m h =
      Ends-bind (λ _ m'. HasCore m') (λ _ m'. IsConnected n m') Failed _
        (λ _ m₁ h₁.
          Ends-bind (λ _ m'. HasCore m') (λ _ m'. IsConnected n m') Failed _
            (λ _ m₂ h₂.
              Ends-bind (λ _ m'. HasCore m' × (is_some m'.route.saved ≡ true))
                (λ _ m'. IsConnected n m') Failed _ (λ _ m₃ h₃. publish-Ends a mode n m₃ h₃.0 h₃.1)
                (set_proxy a mode n) m₂ (set_proxy-Ends a mode n m₂ h₂))
            (raise_tun a.tun) m₁ (raise_tun-Ends a.tun m₁ h₁))
        (start_core a mode n) m (start_core-Ends a mode n m h)

  -- The node that is dialled is the stored one of that id, and enabled.
  abbrev IsPrepared : Text → ConnectionManager → Node → ConnectionManager → Type 0
  IsPrepared id m n m' = IsReady connecting m' × (get id m.nodes ≡ ok n) × (n.enabled ≡ true)

  prepare-Ends :
      (id : Text) (m : ConnectionManager)
      → IsDown m
      → IsIdle m.store.inner.state
      → Ends (λ n m'. IsPrepared id m n m') Failed (prepare a mode id m)
  unfolding prepare
  prepare-Ends id m h idle =
      Ends-bind (λ _ m'. IsReady starting m' × (m'.nodes ≡ m.nodes)) (IsPrepared id m) Failed _
        (λ _ m₁ h₁.
          Ends-bind (λ n m'. (m' ≡ m₁) × (get id m₁.nodes ≡ ok n) × (n.enabled ≡ true))
            (IsPrepared id m) Failed _
            (λ n m₂ h₂.
              bind-Ends n (subst (λ (ns : NodeManager). get id ns ≡ ok n) h₁.1 h₂.1) h₂.2 m₂
                (subst (IsReady starting) (sym h₂.0) h₁.0))
            (resolve a.save mode id) m₁ (resolve-Ends a.save mode id m₁ h₁.0))
        begin m (begin-Ends m h idle)
    where
      bind-Ends :
          (n : Node)
          → get id m.nodes ≡ ok n
          → n.enabled ≡ true
          → (m₂ : ConnectionManager) → IsReady starting m₂
          → Ends (IsPrepared id m) Failed (
              (select_node n.id
                  >> (set_mode a.mode_written mode >> (bind_context a.save mode n >> pure n)))
                m₂)
      bind-Ends n found on m₂ h₂ =
          Ends-bind (λ _ m'. IsReady starting m') (IsPrepared id m) Failed _
            (λ _ m₃ h₃.
              Ends-bind (λ _ m'. IsReady starting m') (IsPrepared id m) Failed _
                (λ _ m₄ h₄.
                  Ends-bind (λ _ m'. IsReady connecting m') (IsPrepared id m) Failed (λ _. pure n)
                    (λ _ m₅ h₅. (h₅, found, on)) (bind_context a.save mode n) m₄
                    (bind_context-Ends a.save mode n m₄ h₄))
                (set_mode a.mode_written mode) m₃ (set_mode-Ends a.mode_written mode m₃ h₃))
            (select_node n.id) m₂ (select_node-Ends n.id m₂ h₂)

-- The node of the new session is the enabled node that is stored under the id.
abbrev pub IsSession : Text → ConnectionManager → ConnectionManager → Type 0
IsSession id m m' =
    (n : Node) × (m'.active_node ≡ some n) × (get id m.nodes ≡ ok n) × (n.enabled ≡ true)

abbrev IsDone : Text → ConnectionManager → Unit {0} → ConnectionManager → Type 0
IsDone id m _ m' = Inv m' × (m'.store.inner.state ≡ connected) × IsSession id m m'

session-Ends :
    (id : Text) (m : ConnectionManager) (n : Node) (r : ConnectionManager × SvcResult (Unit {0}))
    → get id m.nodes ≡ ok n
    → n.enabled ≡ true
    → Ends (λ _ m'. IsConnected n m') Failed r
    → Ends (IsDone id m) Failed r
session-Ends id m n (m', ok _) found on h = (h.0, h.1, (n, h.2, found, on))
session-Ends id m n (m', err e) found on h = h

-- A connect, from any settled state and for all answers of the outside: if it succeeds, the state is
-- CONNECTED, the child of the core runs, the user's proxy settings are remembered, a traffic session
-- is open, and the active node is the enabled node that is stored under the id. If it fails, at any
-- step, the manager is settled again, and either nothing at all has changed, or it is down with no child,
-- no session, no active node and no adapter.
pub connect-Ends :
    (a : ConnectAnswers) (id mode : Text) (m : ConnectionManager)
    → IsSettled m
    → Ends
        (λ _ m'. Inv m' × (m'.store.inner.state ≡ connected) × IsSession id m m')
        (λ m'. Inv m' × ((m' ≡ m) ⊎ IsDown m'))
        (connect a id mode m)
unfolding connect
connect-Ends a id mode m h =
    Ends-bind (λ _ m'. IsDown m' × IsIdle m'.store.inner.state × (m'.nodes ≡ m.nodes)) (IsDone id m)
      (Fails m) (λ _. prepare a (parse_mode mode) id >>= dial a (parse_mode mode))
      (λ _ m₁ h₁.
        Ends-weaken (IsDone id m) Failed (Fails m) _ (λ m' failed. (failed.0, inr failed.1))
          (Ends-bind (IsPrepared a (parse_mode mode) id m₁) (IsDone id m) Failed _
            (λ n m₂ h₂.
              session-Ends id m n (dial a (parse_mode mode) n m₂)
                (subst (λ (ns : NodeManager). get id ns ≡ ok n) h₁.2 h₂.1) h₂.2
                (dial-Ends a (parse_mode mode) n m₂ h₂.0))
            (prepare a (parse_mode mode) id) m₁ (prepare-Ends a (parse_mode mode) id m₁ h₁.0 h₁.1)))
      (enter a.executes id mode) m (enter-Ends a.executes id mode m h)
