-- ===== src/App/Lifecycle/Recovery.antt =====
-- `recover` of app/lifecycle.rs.
use network_client.Prelude.{
  ℕ, ◌+◌, ◌≤◌, ◌≡◌, refl, ◌≢◌, ◌⊎◌, inl, inr, Bool, true, false, none, some, sym, subst, ◌∙◌, Text,
  if◌then◌else◌, ◌%◌, ◌^◌, text_eq, text_eq_refl, SvcResult, ok, err, arith, Option, Option-cases,
  Bool-cases,
}
use network_client.Nodes.Model.{Node}
use network_client.Nodes.Manager.{get, select}
use network_client.Proxy.Core
use network_client.Proxy.Core.{Core, CoreStatus, StartAnswers, HealthAnswers, is_healthy}
use network_client.Tun.Manager.{stop as stop_tun}
use network_client.App.State.{
  StateStore, connected, reconnecting, error, transition, set_context, same_state,
}
use network_client.App.State.Store.{same_state→≡, same_state_refl}
use network_client.App.Lifecycle.State.{ConnectionManager, SaveAnswers, cleanup_partial}
use network_client.App.Lifecycle.Recover.{
  RecoverAnswers, mark_recovered, give_up, works, retry, switch_to, choose, recover_node, recover,
}
use network_client.App.Lifecycle.Invariant.{is_some, IsUp, IsDown, Inv}
use network_client.App.Lifecycle.Steps.{stop-child, start-child, clear-saved, end-session}

-- The end of a failed recovery: ERROR, and nothing of the session left, the proxy included.
pub record IsGivenUp (m : ConnectionManager) : Type 0 where
  pub at : m.store.inner.state ≡ error
  pub down : IsDown m
  pub saved : m.route.saved ≡ none

give_up-IsGivenUp :
    (a : RecoverAnswers) (n : Node) (m : ConnectionManager) → IsGivenUp (give_up a n m)
unfolding give_up cleanup_partial stop_tun
give_up-IsGivenUp a n m = ground (
  arith,
  stop-child m.core,
  clear-saved a.cleanup.route m.route,
  end-session a.cleanup.executes m.stats,
)

-- While the core is restarted: the session's traffic and snapshot are kept.
record IsReconnecting (m : ConnectionManager) : Type 0 where
  at : m.store.inner.state ≡ reconnecting
  saved : is_some m.route.saved ≡ true
  session : is_some m.stats.session ≡ true

mark_recovered-IsUp :
    (a : SaveAnswers) (n : Node) (m : ConnectionManager)
    → IsReconnecting m
    → is_some m.core.child ≡ true
    → m.core.status ≡ CoreStatus.running
    → m.active_node ≡ some n
    → let m' = mark_recovered a n m in
      (m'.store.inner.state ≡ connected) × IsUp m' × (m'.active_node ≡ some n)
unfolding mark_recovered set_context
mark_recovered-IsUp a n m h child running active = ground (arith, text_eq_refl n.id)

abbrev IsRecovered : ConnectionManager → Type 0
IsRecovered m = (m.store.inner.state ≡ connected) × IsUp m

-- A core that works has a child that is kept.
works-child :
    (a : StartAnswers) (h : HealthAnswers) (kind : Text) (port secs : ℕ) (n : Node) (c : Core)
    → let r = Core.start a kind port secs n c in
      works h r ≡ true → (r.0.status ≡ CoreStatus.running) × (is_some r.0.child ≡ true)
works-child a h kind port secs n c w = ground (arith, start-child a kind port secs n c)

-- Up again on a node, or given up.
abbrev Ended : ConnectionManager → Type 0
Ended m = IsRecovered m ⊎ IsGivenUp m

-- Either branch of a test.
Ended-if :
    (b : Bool) (x y : ConnectionManager)
    → (b ≡ true → Ended x)
    → Ended y
    → Ended (if b then x else y)
Ended-if true x y h k = h refl
Ended-if false x y h k = k

-- A core that works after its start on a node makes the session whole again.
restart-Ended :
    (a : RecoverAnswers) (s : StartAnswers) (h : HealthAnswers) (n : Node) (c : Core)
    (m : ConnectionManager)
    → IsReconnecting m
    → m.active_node ≡ some n
    → let app = m.config.app.core in
      let r = Core.start s app.kind app.mixed_port app.start_timeout_secs n c in
      works h r ≡ true → Ended (mark_recovered a.save n (record m { core = r.0 }))
restart-Ended a s h n c m ready active w =
    let app = m.config.app.core in
    let r = Core.start s app.kind app.mixed_port app.start_timeout_secs n c in
    let (running, child) = works-child s h app.kind app.mixed_port app.start_timeout_secs n c w in
    let up =
      mark_recovered-IsUp a.save n (record m { core = r.0 })
        (record { at = ready.at; saved = ready.saved; session = ready.session }) child running
        active in
    inl (up.0, up.1)

retry-Ended :
    (a : RecoverAnswers) (n : Node) (m : ConnectionManager)
    → IsReconnecting m
    → m.active_node ≡ some n
    → Ended (retry a n m)
unfolding retry Core.restart
retry-Ended a n m h active =
    Ended-if _ _ _ (restart-Ended a a.core a.health n (Core.stop m.core) m h active)
      (inr (give_up-IsGivenUp a n _))

switch_to-Ended :
    (a : RecoverAnswers) (n : Node) (new_id : Text) (r : SvcResult Node) (m : ConnectionManager)
    → IsReconnecting m
    → Ended (switch_to a n new_id r m)
unfolding switch_to
switch_to-Ended a n new_id (err e) m h = inr (give_up-IsGivenUp a n m)
switch_to-Ended a n new_id (ok n') m h =
    let m' : ConnectionManager = record m {
      nodes = (select new_id m.nodes).0;
      active_node = some n';
    } in
    Ended-if _ _ _
      (restart-Ended a a.other_core a.other_health n' (Core.stop m.core) m'
        (record { at = h.at; saved = h.saved; session = h.session }) refl)
      (inr (give_up-IsGivenUp a n _))

choose-Ended :
    (a : RecoverAnswers) (n : Node) (r : SvcResult (Option Text)) (m : ConnectionManager)
    → IsReconnecting m
    → Ended (choose a n r m)
unfolding choose
choose-Ended a n (ok (some new_id)) m h = elim (Bool-cases (text_eq new_id n.id)) [
  | inl same ↦ rw same (inr (give_up-IsGivenUp a n m))
  | inr other ↦ rw other (switch_to-Ended a n new_id (get new_id m.nodes) m h)
]
choose-Ended a n (ok none) m h = inr (give_up-IsGivenUp a n m)
choose-Ended a n (err e) m h = inr (give_up-IsGivenUp a n m)

transition-reconnecting :
    (s : StateStore)
    → s.inner.state ≡ connected
    → (transition reconnecting s).0.inner.state ≡ reconnecting
unfolding transition
transition-reconnecting s e = ground arith

recover_node-Ended :
    (a : RecoverAnswers) (n : Node) (m : ConnectionManager)
    → IsUp m
    → m.store.inner.state ≡ connected
    → m.active_node ≡ some n
    → Ended (recover_node a n m)
unfolding recover_node
recover_node-Ended a n m h at active =
    let m' : ConnectionManager = record m {
      restart_count = (m.restart_count + 1) % 2 ^ 32;
      store = (transition reconnecting m.store).0;
    } in
    let ready : IsReconnecting m' = record {
      at = transition-reconnecting m.store at;
      saved = h.saved;
      session = h.session;
    } in
    Ended-if _ _ _ (λ _. retry-Ended a n m' ready active)
      (Ended-if _ _ _ (λ _. choose-Ended a n a.choice m' ready) (inr (give_up-IsGivenUp a n m')))

Inv-Ended : (m : ConnectionManager) → Ended m → Inv m
Inv-Ended m (inl r) = ground arith
Inv-Ended m (inr g) = ground arith

recover-up :
    (a : RecoverAnswers) (n : Node) (m : ConnectionManager)
    → m.store.inner.state ≡ connected
    → m.active_node ≡ some n
    → recover a m ≡ recover_node a n m
unfolding recover
recover-up a n m at active = ground (arith, same_state_refl connected)

-- A recovery of a settled manager whose session is up, for all answers of the outside, leaves it
-- settled and ends in one of two ways: the session is up again, its core's child running, or the state
-- is ERROR with nothing of the session left and the snapshot of the user's proxy settings consumed. In
-- any other state it does nothing.
pub recover_lem :
    (a : RecoverAnswers) (m : ConnectionManager)
    → Inv m
    → let m' = recover a m in
      Inv m'
      × (((m.store.inner.state ≡ connected)
            × (((m'.store.inner.state ≡ connected) × IsUp m') ⊎ IsGivenUp m'))
          ⊎ ((m.store.inner.state ≢ connected) × (m' ≡ m)))
unfolding recover same_state
recover_lem a m h = elim (Option-cases m.active_node) [
  | inl gone ↦ ground arith
  | inr (n, active) ↦ elim (Bool-cases (same_state m.store.inner.state connected)) [
    | inl up ↦
        let at = same_state→≡ m.store.inner.state connected up in
        let ends = recover_node-Ended a n m (h.base.up at) at active in
        subst
          (λ (m' : ConnectionManager).
            Inv m'
            × (((m.store.inner.state ≡ connected) × Ended m')
                ⊎ ((m.store.inner.state ≢ connected) × (m' ≡ m))))
          (sym (recover-up a n m at active)) (Inv-Ended (recover_node a n m) ends, inl (at, ends))
    | inr down ↦ ground (arith, same_state_refl connected)
  ]
]

recover_node-budget :
    (a : RecoverAnswers) (n : Node) (m : ConnectionManager)
    → m.restart_count ≡ 0
    → 1 ≤ m.config.app.core.restart_max
    → let m' : ConnectionManager = record m {
      restart_count = 1;
      store = (transition reconnecting m.store).0;
    } in
      recover_node a n m ≡ retry a n m'
unfolding recover_node
recover_node-budget a n m z h = ground arith

retry_fails :
    (a : RecoverAnswers) (n : Node) (m : ConnectionManager)
    → let app = m.config.app.core in
      works a.health (Core.restart a.core app.kind app.mixed_port app.start_timeout_secs n m.core)
        ≡ false
      → IsGivenUp (retry a n m)
unfolding retry
retry_fails a n m f = rw f (give_up-IsGivenUp a n _)

-- From a settled manager that is CONNECTED to a node, one failed restart ends the session, whatever
-- the configured number of restarts (if it is not 0), in every mode and for every node that
-- `smart_select` may offer: the budget is whole at the start of each recovery, so neither a second
-- restart nor the switch to another node is ever tried.
pub recover_gives_up :
    (a : RecoverAnswers) (m : ConnectionManager) (n : Node)
    → Inv m
    → m.store.inner.state ≡ connected
    → m.active_node ≡ some n
    → 1 ≤ m.config.app.core.restart_max
    → let app = m.config.app.core in
      works a.health (Core.restart a.core app.kind app.mixed_port app.start_timeout_secs n m.core)
        ≡ false
      → IsGivenUp (recover a m)
recover_gives_up a m n h at active max failed =
    subst IsGivenUp
      (sym (recover-up a n m at active ∙ recover_node-budget a n m (h.base.up at).budget max))
      (retry_fails a n _ failed)
