-- ===== src/App/State/Graph.antt =====
-- The diagram of app/state.rs: which states can be left, and which are entered.
use network_client.Prelude.{◌≡◌, refl, true}
use network_client.App.State.{
  ConnState, stopped, initializing, ready, starting, connecting, connected, reconnecting, stopping,
  error, can_transition,
}

infixr 40 ◌⟶*◌
pub data ◌⟶*◌ : ConnState → ConnState → Type 0 where
  here : {a : ConnState} → a ⟶* a
  move : {a b c : ConnState} → can_transition a b ≡ true → b ⟶* c → a ⟶* c

-- No state is a dead end: every state has a legal way to STOPPED.
pub ⟶*-stopped : (a : ConnState) → a ⟶* stopped
unfolding can_transition
⟶*-stopped stopped = here
⟶*-stopped initializing = move {b = error} refl (move refl here)
⟶*-stopped ready = move {b = starting} refl (move {b = stopping} refl (move refl here))
⟶*-stopped starting = move {b = stopping} refl (move refl here)
⟶*-stopped connecting = move {b = stopping} refl (move refl here)
⟶*-stopped connected = move {b = stopping} refl (move refl here)
⟶*-stopped reconnecting = move {b = stopping} refl (move refl here)
⟶*-stopped stopping = move refl here
⟶*-stopped error = move refl here
