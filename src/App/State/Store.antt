-- ===== src/App/State/Store.antt =====
-- What each write of the store of app/state.rs does, on every branch.
use network_client.Prelude.{
  if◌then◌else◌, ◌≡◌, ◌⊎◌, true, false, [], ◌∷◌, Text, ok, err, invalid_state, arith,
}
use network_client.App.State.{
  ConnState, StateStore, as_str, same_state, can_transition, clears_error, payload, transition,
  set_context,
}

-- The derived equality of the states decides it.
pub same_state→≡ : (a b : ConnState) → same_state a b ≡ true → a ≡ b
unfolding same_state
same_state→≡ a b h = ground arith

pub same_state_refl : (a : ConnState) → same_state a a ≡ true
unfolding same_state
same_state_refl a = ground arith

-- A bare transition keeps the node, the mode and the latency. It succeeds exactly when the state is
-- the target already, in which case nothing happens and no event is sent, or when the table allows
-- the move, in which case the target is entered, one event tells the new fields, and the error is
-- wiped if the target is CONNECTED or READY and kept otherwise. In every other case the store is as
-- it was and the error names both states.
pub transition_lem :
    (to : ConnState) (s : StateStore)
    → let g = s.inner in
      let u = (transition to s).0 in
      let h = u.inner in
      ((g.state ≡ to) × (u ≡ s) × ((transition to s).1 ≡ ok tt))
      ⊎ ((can_transition g.state to ≡ true)
          × (h.state ≡ to)
          × ((h.node_id ≡ g.node_id)
              × (h.node_name ≡ g.node_name)
              × (h.mode ≡ g.mode)
              × (h.latency_ms ≡ g.latency_ms))
          × ((h.error_code ≡ (if clears_error to then [] else g.error_code))
              × (h.error_message ≡ (if clears_error to then [] else g.error_message)))
          × (u.bus ≡ payload h ∷ s.bus)
          × ((transition to s).1 ≡ ok tt))
      ⊎ ((can_transition g.state to ≡ false)
          × (u ≡ s)
          × ((transition to s).1 ≡ err (invalid_state (as_str g.state) (as_str to))))
unfolding transition
transition_lem to s = ground (arith, same_state→≡ s.inner.state to)

-- `set_context` keeps the latency and the last error, whatever the target; a refused call changes
-- nothing.
pub set_context_lem :
    (to : ConnState) (node_id node_name mode : Text) (s : StateStore)
    → let g = s.inner in
      let r = set_context to node_id node_name mode s in
      let h = r.0.inner in
      (((g.state ≡ to) ⊎ (can_transition g.state to ≡ true))
        × (h ≡ record g { state = to; node_id = node_id; node_name = node_name; mode = mode })
        × (r.0.bus ≡ payload h ∷ s.bus)
        × (r.1 ≡ ok tt))
      ⊎ ((can_transition g.state to ≡ false)
          × (r.0 ≡ s)
          × (r.1 ≡ err (invalid_state (as_str g.state) (as_str to))))
unfolding set_context
set_context_lem to node_id node_name mode s = ground (arith, same_state→≡ s.inner.state to)
