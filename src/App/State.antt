-- ===== src/App/State.antt =====
-- service/network-service/src/app/state.rs: the connection state, the store that holds it, and the
-- events that the store broadcasts. A method returns the new store beside its result. `bus` holds
-- what `emit_locked` sent, newest first; its time stamp, which nothing reads, is left out.
use network_client.Prelude.{
  ◌≡◌, Bool, true, false, ◌||◌, List, [], ◌∷◌, Text, t, text_eq, ℤ, pos, SvcResult, ok, err,
  invalid_state, if◌then◌else◌,
}
pub mod Parse
pub mod Store
pub mod Graph
pub mod Trail

pub data ConnState : Type 0 where
  stopped initializing ready starting connecting connected reconnecting stopping error : ConnState

pub ConnState-discrete : Discrete ConnState
ConnState-discrete = hlevel

unfoldable pub as_str : ConnState → Text
as_str stopped = t "STOPPED"
as_str initializing = t "INITIALIZING"
as_str ready = t "READY"
as_str starting = t "STARTING"
as_str connecting = t "CONNECTING"
as_str connected = t "CONNECTED"
as_str reconnecting = t "RECONNECTING"
as_str stopping = t "STOPPING"
as_str error = t "ERROR"

-- The arms of the `match` on a text, in order.
unfoldable pub parse : Text → ConnState
unfolding text_eq
parse s =
    if text_eq s (t "INITIALIZING")
    then initializing
    else if text_eq s (t "READY")
    then ready
    else if text_eq s (t "STARTING")
    then starting
    else if text_eq s (t "CONNECTING")
    then connecting
    else if text_eq s (t "CONNECTED")
    then connected
    else if text_eq s (t "RECONNECTING")
    then reconnecting
    else if text_eq s (t "STOPPING")
    then stopping
    else if text_eq s (t "ERROR")
    then error
    else stopped

-- `==` of the derived `PartialEq`
unfoldable pub same_state : ConnState → ConnState → Bool
same_state stopped stopped = true
same_state initializing initializing = true
same_state ready ready = true
same_state starting starting = true
same_state connecting connecting = true
same_state connected connected = true
same_state reconnecting reconnecting = true
same_state stopping stopping = true
same_state error error = true
same_state _ _ = false

unfoldable pub can_transition : ConnState → ConnState → Bool
can_transition stopped starting = true
can_transition initializing ready = true
can_transition initializing error = true
can_transition ready starting = true
can_transition starting connecting = true
can_transition starting error = true
can_transition starting stopping = true
can_transition connecting connected = true
can_transition connecting reconnecting = true
can_transition connecting error = true
can_transition connecting stopping = true
can_transition connected reconnecting = true
can_transition connected stopping = true
can_transition connected error = true
can_transition reconnecting connected = true
can_transition reconnecting error = true
can_transition reconnecting stopping = true
can_transition stopping starting = true
can_transition stopping stopped = true
can_transition stopping error = true
can_transition error starting = true
can_transition error stopped = true
can_transition _ _ = false

-- `Inner` and `StateSnapshot`, which have the same fields: `get` copies one into the other.
pub record Inner : Type 0 where
  pub state : ConnState
  pub node_id : Text
  pub node_name : Text
  pub mode : Text
  pub latency_ms : ℤ
  pub error_code : Text
  pub error_message : Text

-- `ConnectionStatePayload`, whose `state` is the text of the state.
pub record Payload : Type 0 where
  pub state : Text
  pub node_id : Text
  pub node_name : Text
  pub mode : Text
  pub latency_ms : ℤ
  pub error_code : Text
  pub error_message : Text

pub record StateStore : Type 0 where
  pub inner : Inner
  pub bus : List Payload

abbrev pub default_inner : Inner
default_inner = record {
  state = stopped;
  node_id = [];
  node_name = [];
  mode = [];
  latency_ms = pos 0;
  error_code = [];
  error_message = [];
}

unfoldable pub new : StateStore
new = record { inner = default_inner; bus = [] }

abbrev pub payload : Inner → Payload
payload g = record {
  state = as_str g.state;
  node_id = g.node_id;
  node_name = g.node_name;
  mode = g.mode;
  latency_ms = g.latency_ms;
  error_code = g.error_code;
  error_message = g.error_message;
}

-- Every write goes through here: the new fields, and the event that tells them.
abbrev pub emit_locked : StateStore → Inner → StateStore
emit_locked s g = record { inner = g; bus = payload g ∷ s.bus }

-- `matches!(to, Connected | Ready)`
abbrev pub clears_error : ConnState → Bool
clears_error connected = true
clears_error ready = true
clears_error _ = false

unfoldable pub transition : ConnState → StateStore → StateStore × SvcResult (Unit {0})
unfolding same_state can_transition
transition to s =
    let g = s.inner in
    let moved : Inner = record g { state = to } in
    let cleared : Inner = record moved { error_code = []; error_message = [] } in
    if same_state g.state to
    then (s, ok tt)
    else if can_transition g.state to
    then (emit_locked s (if clears_error to then cleared else moved), ok tt)
    else (s, err (invalid_state (as_str g.state) (as_str to)))

unfoldable pub set_context :
    ConnState → Text → Text → Text → StateStore → StateStore × SvcResult (Unit {0})
unfolding same_state can_transition
set_context to node_id node_name mode s =
    let g = s.inner in
    if same_state g.state to || can_transition g.state to
    then (
      emit_locked s
          (record g { state = to; node_id = node_id; node_name = node_name; mode = mode }),
      ok tt,
    )
    else (s, err (invalid_state (as_str g.state) (as_str to)))

unfoldable pub set_latency : ℤ → StateStore → StateStore
set_latency latency_ms s = emit_locked s (record s.inner { latency_ms = latency_ms })

unfoldable pub fail : ConnState → Text → Text → StateStore → StateStore
fail to code message s =
    emit_locked s (record s.inner { state = to; error_code = code; error_message = message })
