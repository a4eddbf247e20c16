-- ===== src/Health/Rounds.antt =====
-- The rounds of health/monitor.rs: they end, they keep the manager settled, and supervision stops only
-- with the session.
use network_client.Prelude.{
  ◌⊎◌, ℕ, zero, suc, ◌+◌, ◌<◌, ◌≡◌, ◌≢◌, inl, inr, refl, Bool, true, false, Option, none, some,
  List, [], ◌∷◌, length, arith, ℤ, ◌%◌, ◌==◌, if◌then◌else◌, not, ◌||◌, Bool-cases,
}
use network_client.Nodes.Model.{Node}
use network_client.Proxy.Core.{healthy, local_dead, uplink_dead, health_check, CoreHealth}
use network_client.App.State.{connected, set_latency}
use network_client.App.State.Store.{same_state_refl}
use network_client.App.Lifecycle.State.{ConnectionManager}
use network_client.App.Lifecycle.Recover.{recover}
use network_client.App.Lifecycle.Invariant.{Inv}
use network_client.App.Lifecycle.Recovery.{recover_lem}
use network_client.Health.Monitor.{
  Tick, Phase, finished, waiting, need_recovery, is_up, refresh, tick_phase, measured, End, stopped,
  still_waiting, supervise, after_phase,
}

-- Some tick brings a cancellation.
abbrev pub HasCancel : List Tick → Type 0
HasCancel [] = ⊥
HasCancel (x ∷ xs) = (x.cancelled ≡ true) ⊎ HasCancel xs

-- What the end of a phase means for the manager, given the ticks it began with: an end without a
-- cancellation means that the session is gone, and a recovery leaves fewer ticks.
Means : List Tick → ConnectionManager → Phase → Type 0
Means xs m finished = HasCancel xs ⊎ (m.store.inner.state ≢ connected)
Means xs m waiting = Unit
Means xs m (need_recovery _ rest) = (length rest < length xs) × (HasCancel rest → HasCancel xs)

module _ (P : ConnectionManager × Phase → Type 0) where
  if-P :
      (b : Bool) (x y : ConnectionManager × Phase) → (b ≡ true → P x) → P y → P (if b then x else y)
  if-P true x y p q = p refl
  if-P false x y p q = q

  health-P :
      (health : CoreHealth) (x y z : ConnectionManager × Phase)
      → P x
      → P y
      → P z
      → P (elim health [ healthy ↦ x | local_dead ↦ y | uplink_dead ↦ z ])
  health-P healthy x y z p q r = p
  health-P local_dead x y z p q r = q
  health-P uplink_dead x y z p q r = r

set_latency-Inv :
    (ms : ℤ) (m : ConnectionManager) → Inv m → Inv (record m { store = set_latency ms m.store })
unfolding set_latency
set_latency-Inv ms m h = record {
  base = record {
    settled = h.base.settled;
    up = λ e.
        let u = h.base.up e in
        record {
          child = u.child;
          running = u.running;
          saved = u.saved;
          session = u.session;
          active = u.active;
          budget = u.budget;
        };
    down = λ n.
        let d = h.base.down n in
        record { child = d.child; session = d.session; active = d.active; adapter = d.adapter };
  };
  closed = h.closed;
}

measured-Inv :
    (n : Option Node) (latency : Option ℤ) (m : ConnectionManager)
    → Inv m
    → Inv (measured n latency m)
unfolding measured
measured-Inv (some _) (some ms) m h = set_latency-Inv ms m h
measured-Inv (some _) none m h = h
measured-Inv none latency m h = h

refresh-Inv :
    (ticks : ℕ) (latency : Option ℤ) (m : ConnectionManager) → Inv m → Inv (refresh ticks latency m)
unfolding refresh
refresh-Inv ticks latency m h = elim (Bool-cases (ticks % 5 == 0)) [
  | inl due ↦ rw due (measured-Inv m.active_node latency m h)
  | inr not_due ↦ rw not_due h
]

abbrev Kept : List Tick → ConnectionManager × Phase → Type 0
Kept xs r = Inv r.0 × Means xs r.0 r.1

Means-tail :
    (x : Tick) (xs : List Tick) (m : ConnectionManager) (p : Phase)
    → Means xs m p
    → Means (x ∷ xs) m p
unfolding Means
Means-tail x xs m finished (inl cancelled) = inl (inr cancelled)
Means-tail x xs m finished (inr ended) = inr ended
Means-tail x xs m waiting h = tt
Means-tail x xs m (need_recovery a rest) h = (omega (arith, h.0), λ later. inr (h.1 later))

Kept-tail :
    (x : Tick) (xs : List Tick) (r : ConnectionManager × Phase) → Kept xs r → Kept (x ∷ xs) r
Kept-tail x xs r (i, s) = (i, Means-tail x xs r.0 r.1 s)

gone :
    (x : Tick) (xs : List Tick) (m : ConnectionManager)
    → (x.cancelled || not (is_up m)) ≡ true
    → HasCancel (x ∷ xs) ⊎ (m.store.inner.state ≢ connected)
gone x xs m h = elim (Bool-cases x.cancelled) [
  | inl cancelled ↦ inl (inl cancelled)
  | inr alive ↦ inr (λ up. ground (arith, alive, h, same_state_refl connected))
]

tick_phase-Kept :
    (xs : List Tick) (failures ticks : ℕ) (m : ConnectionManager)
    → Inv m
    → Kept xs (tick_phase xs failures ticks m)
unfolding tick_phase refresh Means
tick_phase-Kept [] failures ticks m h = (h, tt)
tick_phase-Kept (x ∷ xs) failures ticks m h =
    if-P (Kept (x ∷ xs)) _ _ _ (λ b. (h, gone x xs m b))
      (health-P (Kept (x ∷ xs)) (health_check x.health m.core) _ _ _
        (Kept-tail x xs (tick_phase xs 0 (ticks + 1) (refresh (ticks + 1) x.latency m)) (
          tick_phase-Kept xs 0 (ticks + 1) (refresh (ticks + 1) x.latency m)
            (refresh-Inv (ticks + 1) x.latency m h)))
        (h, (omega arith, inr))
        (if-P (Kept (x ∷ xs)) _ _ _ (λ _. (h, (omega arith, inr)))
          (Kept-tail x xs (tick_phase xs (failures + 1) (ticks + 1) m)
            (tick_phase-Kept xs (failures + 1) (ticks + 1) m h))))

-- What a run of the supervisor leaves.
abbrev pub Ran : List Tick → ConnectionManager × End → Type 0
Ran xs r =
    Inv r.0
    × ((r.1 ≡ still_waiting)
        ⊎ ((r.1 ≡ stopped) × (HasCancel xs ⊎ (r.0.store.inner.state ≢ connected))))

not_up : (m : ConnectionManager) → is_up m ≡ false → m.store.inner.state ≢ connected
not_up m h = λ up. ground (arith, same_state_refl connected)

if-Ran :
    (xs : List Tick) (b : Bool) (x y : ConnectionManager × End)
    → Ran xs x
    → (b ≡ false → Ran xs y)
    → Ran xs (if b then x else y)
if-Ran xs true x y p q = p
if-Ran xs false x y p q = q refl

Ran-wider :
    (xs rest : List Tick) (r : ConnectionManager × End)
    → (HasCancel rest → HasCancel xs)
    → Ran rest r
    → Ran xs r
Ran-wider xs rest r sub (i, inl waits) = (i, inl waits)
Ran-wider xs rest r sub (i, inr (ends, inl cancelled)) = (i, inr (ends, inl (sub cancelled)))
Ran-wider xs rest r sub (i, inr (ends, inr ended)) = (i, inr (ends, inr ended))

after_phase-Ran :
    (xs : List Tick) (again : List Tick → ConnectionManager → ConnectionManager × End)
    (m : ConnectionManager) (p : Phase)
    → ((rest : List Tick) (m' : ConnectionManager)
        → Inv m'
        → length rest < length xs
        → Ran rest (again rest m'))
    → Inv m
    → Means xs m p
    → Ran xs (after_phase again m p)
unfolding after_phase Means
after_phase-Ran xs again m finished next i s = (i, inr (refl, s))
after_phase-Ran xs again m waiting next i s = (i, inl refl)
after_phase-Ran xs again m (need_recovery a rest) next i (shorter, sub) =
    let k = (recover_lem a m i).0 in
    if-Ran xs (is_up (recover a m)) (again rest (recover a m)) (recover a m, stopped)
      (Ran-wider xs rest (again rest (recover a m)) sub (next rest (recover a m) k shorter))
      (λ down. (k, inr (refl, inr (not_up (recover a m) down))))

-- The supervisor of a settled manager, over any number of ticks and with one unit of fuel more than
-- ticks, ends or waits for the next tick, never out of fuel, and keeps the invariant of the manager
-- through all recoveries. It stops only if a tick brings a cancellation or the state is no longer
-- CONNECTED.
pub supervise_lem :
    (fuel : ℕ) (xs : List Tick) (m : ConnectionManager)
    → Inv m
    → length xs < fuel
    → Ran xs (supervise fuel xs m)
unfolding supervise
supervise_lem zero xs m h le = absurd (omega arith)
supervise_lem (suc fuel) xs m h le =
    let (i, s) = tick_phase-Kept xs 0 0 m h in
    after_phase-Ran xs (λ rest m'. supervise fuel rest m') (tick_phase xs 0 0 m).0
      (tick_phase xs 0 0 m).1 (λ rest m' k shorter. supervise_lem fuel rest m' k (omega arith)) i s
