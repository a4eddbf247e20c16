-- ===== src/App/Lifecycle/Invariant.antt =====
-- What holds of the manager of app/lifecycle.rs between two operations, and the rule by which it is
-- carried through an operation that may end early.
use network_client.Prelude.{
  ◌≡◌, ◌≢◌, ◌⊎◌, Bool, true, false, Option, none, some, SvcResult, ok, err,
}
use network_client.Proxy.Core.{CoreStatus}
use network_client.App.State.{stopped, starting, connected, error}
use network_client.App.Lifecycle.State.{ConnectionManager}
use network_client.App.Lifecycle.Connect.{has_id}
use network_client.App.Lifecycle.Monad.{M, bind_from, ◌>>=◌}

abbrev pub is_some {ℓ} : {A : Type ℓ} → Option A → Bool
is_some none = false
is_some (some _) = true

-- A session is up: the core's child is kept and running, the user's proxy settings are remembered,
-- the traffic is counted, the store names the active node, and the restart budget is whole.
pub record IsUp (m : ConnectionManager) : Type 0 where
  pub child : is_some m.core.child ≡ true
  pub running : m.core.status ≡ CoreStatus.running
  pub saved : is_some m.route.saved ≡ true
  pub session : is_some m.stats.session ≡ true
  pub active : has_id m.store.inner.node_id m.active_node ≡ true
  pub budget : m.restart_count ≡ 0

-- Nothing of a session is left: no child, no session, no active node, no adapter.
pub record IsDown (m : ConnectionManager) : Type 0 where
  pub child : m.core.child ≡ none
  pub session : m.stats.session ≡ none
  pub active : m.active_node ≡ none
  pub adapter : m.tun.adapter ≡ false

pub record IsSettled (m : ConnectionManager) : Type 0 where
  pub settled :
      (m.store.inner.state ≡ stopped)
      ⊎ ((m.store.inner.state ≡ error)
          ⊎ ((m.store.inner.state ≡ starting) ⊎ (m.store.inner.state ≡ connected)))
  pub up : m.store.inner.state ≡ connected → IsUp m
  pub down : m.store.inner.state ≢ connected → IsDown m

pub record Inv (m : ConnectionManager) : Type 0 where
  pub base : IsSettled m
  pub closed : m.store.inner.state ≡ stopped → m.route.saved ≡ none

-- After a failure that has taken everything down.
abbrev pub Failed : ConnectionManager → Type 0
Failed m = Inv m × IsDown m

-- After a failure of an operation on `m`: nothing at all has changed, or everything is taken down.
abbrev pub Fails : ConnectionManager → ConnectionManager → Type 0
Fails m m' = Inv m' × ((m' ≡ m) ⊎ IsDown m')

-- What holds at the end: `P` of a success, `Q` of a failure.
abbrev pub Ends :
    {A : Type 0}
    → (A → ConnectionManager → Type 0)
    → (ConnectionManager → Type 0)
    → ConnectionManager × SvcResult A
    → Type 0
Ends P Q (m, ok a) = P a m
Ends P Q (m, err e) = Q m

module _ {A B : Type 0} (P : A → ConnectionManager → Type 0) (R : B → ConnectionManager → Type 0)
    (Q : ConnectionManager → Type 0) (f : A → M B)
    (rest : (a : A) (m : ConnectionManager) → P a m → Ends R Q (f a m)) where
  Ends-bind_from : (r : ConnectionManager × SvcResult A) → Ends P Q r → Ends R Q (bind_from f r)
  Ends-bind_from (m, ok a) h = rest a m h
  Ends-bind_from (m, err e) h = h

  -- The rest of an operation runs only after a success.
  pub Ends-bind :
      (step : M A) (m : ConnectionManager) → Ends P Q (step m) → Ends R Q ((step >>= f) m)
  Ends-bind step m h = Ends-bind_from (step m) h

pub Ends-weaken :
    {A : Type 0} (P : A → ConnectionManager → Type 0) (Q R : ConnectionManager → Type 0)
    (r : ConnectionManager × SvcResult A)
    → ((m : ConnectionManager) → Q m → R m)
    → Ends P Q r
    → Ends P R r
Ends-weaken P Q R (m, ok a) f h = h
Ends-weaken P Q R (m, err e) f h = f m h
