-- ===== src/Health/Monitor.antt =====
-- service/network-service/src/health/monitor.rs. A tick of the timer comes with what the outside
-- answers in it; the supervisor runs as long as there are ticks.
use network_client.Prelude.{
  ℕ, zero, suc, ◌+◌, ◌%◌, ◌==◌, leb, Bool, not, ◌||◌, Option, none, some, List, [], ◌∷◌, ℤ,
  if◌then◌else◌,
}
use network_client.Nodes.Model.{Node}
use network_client.Proxy.Core.{healthy, local_dead, uplink_dead, HealthAnswers, health_check}
use network_client.App.State.{connected, same_state, set_latency}
use network_client.App.Lifecycle.State.{ConnectionManager}
use network_client.App.Lifecycle.Recover.{RecoverAnswers, recover}

pub record Tick : Type 0 where
  pub cancelled : Bool
  pub health : HealthAnswers
  pub latency : Option ℤ  -- what `test_node` measures, if it succeeds
  pub recovery : RecoverAnswers  -- for the recovery after this tick, if there is one

-- `waiting`: the ticks have come to an end.
pub data Phase : Type 0 where
  finished waiting : Phase
  need_recovery : RecoverAnswers → List Tick → Phase

abbrev pub is_up : ConnectionManager → Bool
is_up m = same_state m.store.inner.state connected

unfoldable pub measured : Option Node → Option ℤ → ConnectionManager → ConnectionManager
unfolding set_latency
measured (some _) (some ms) m = record m { store = set_latency ms m.store }
measured (some _) none m = m
measured none latency m = m

-- Every fifth tick refreshes the latency of the active node.
unfoldable pub refresh : ℕ → Option ℤ → ConnectionManager → ConnectionManager
unfolding measured
refresh ticks latency m = if ticks % 5 == 0 then measured m.active_node latency m else m

-- The loop of `tick_phase`, with its two counters.
unfoldable pub tick_phase : List Tick → ℕ → ℕ → ConnectionManager → ConnectionManager × Phase
unfolding refresh same_state
tick_phase [] failures ticks m = (m, waiting)
tick_phase (x ∷ xs) failures ticks m =
    let well = tick_phase xs 0 (ticks + 1) (refresh (ticks + 1) x.latency m) in
    let struck = tick_phase xs (failures + 1) (ticks + 1) m in
    if x.cancelled || not (is_up m) then (m, finished) else elim (health_check x.health m.core) [
      | healthy ↦ well
      | local_dead ↦ (m, need_recovery x.recovery xs)
      | uplink_dead ↦ if leb 3 (failures + 1) then (m, need_recovery x.recovery xs) else struck
    ]

-- `out_of_fuel` is no result of the code.
pub data End : Type 0 where
  stopped still_waiting out_of_fuel : End

-- The body of the loop of `supervise` after a phase; `again` is the next round.
unfoldable pub after_phase :
    (List Tick → ConnectionManager → ConnectionManager × End)
    → ConnectionManager
    → Phase
    → ConnectionManager × End
unfolding same_state
after_phase again m finished = (m, stopped)
after_phase again m waiting = (m, still_waiting)
after_phase again m (need_recovery a rest) =
    let recovered = recover a m in
    if is_up recovered then again rest recovered else (recovered, stopped)

unfoldable pub supervise : ℕ → List Tick → ConnectionManager → ConnectionManager × End
unfolding tick_phase after_phase
supervise zero ticks m = (m, out_of_fuel)
supervise (suc fuel) ticks m =
    after_phase (λ rest m'. supervise fuel rest m') (tick_phase ticks 0 0 m).0
      (tick_phase ticks 0 0 m).1
