-- ===== src/Proxy/Core.antt =====
-- `ExternalCoreAdapter` (service/network-service/src/proxy/manager.rs, adapter.rs): the child
-- process that carries the traffic. What the file system, the config builders, the operating system
-- and the child say to one `start` are the fields of `StartAnswers`.
use network_client.Prelude.{
  ℕ, Bool, true, false, Option, none, some, List, ◌∷◌, ◌++◌, Text, t, SvcResult, ok, err,
  already_running, core_error, Json, get_member, as_text, eq_ignore_ascii_case, decimal,
  if◌then◌else◌,
}
use network_client.Nodes.Model.{Node}

pub data CoreKind : Type 0 where
  sing_box xray : CoreKind

pub data CoreStatus : Type 0 where
  stopped starting running error : CoreStatus

pub data CoreHealth : Type 0 where
  healthy local_dead uplink_dead : CoreHealth

abbrev pub is_healthy : CoreHealth → Bool
is_healthy healthy = true
is_healthy _ = false

pub data CoreEvent : Type 0 where
  core_started core_stopped : CoreEvent
  core_failed : Text → CoreEvent

is_xhttp : Option Json → Bool
is_xhttp none = false
is_xhttp (some v) = elim (as_text v) [
  | none ↦ false
  | some kind ↦ eq_ignore_ascii_case kind (t "xhttp")
]

unfoldable pub for_node : Text → Node → CoreKind
unfolding is_xhttp
for_node app_kind node =
    if eq_ignore_ascii_case app_kind (t "xray")
    then xray
    else if is_xhttp (get_member (t "type") node.transport)
    then xray
    else sing_box

abbrev binary_name : CoreKind → Text
binary_name sing_box = t "sing-box"
binary_name xray = t "xray-core"

-- `child` is the process that is kept, by its pid; `events` what was sent, newest first.
pub record Core : Type 0 where
  pub status : CoreStatus
  pub pid : ℕ
  pub child : Option ℕ
  pub events : List CoreEvent

pub record StartAnswers : Type 0 where
  pub exe : Text  -- the path of the executable
  pub exists : Bool
  pub generated : SvcResult (Unit {0})  -- the builder of the core's configuration
  pub written : SvcResult (Unit {0})  -- `atomic_write_json` of it
  pub spawned : Option ℕ  -- the pid, or `none`: the process cannot be spawned
  pub spawn_message : Text
  pub ready : Bool  -- the port accepts within the time limit
  pub exited : Option Text  -- the exit status, if the child is gone by then

abbrev pub held_message : Text → ℕ → Text
held_message status port =
    t "core exited on startup ("
    ++ (status ++ (t "); 127.0.0.1:" ++ (decimal port ++ t " is held by another process")))

abbrev pub silent_message : ℕ → ℕ → Text
silent_message port secs =
    t "core did not open inbound 127.0.0.1:"
    ++ (decimal port ++ (t " within " ++ (decimal secs ++ t "s")))

-- After the wait for the port: the child must have survived, and the port must be open.
settle : StartAnswers → ℕ → ℕ → ℕ → Option Text → Core → Core × SvcResult (Unit {0})
settle a port secs pid (some status) c = (
  record c { status = error; events = core_failed (held_message status port) ∷ c.events },
  err (core_error (held_message status port)),
)
settle a port secs pid none c =
    if a.ready
    then (record c { status = running; child = some pid; events = core_started ∷ c.events }, ok tt)
    else (
      record c { status = error; events = core_failed (silent_message port secs) ∷ c.events },
      err (core_error (t "inbound port never opened")),
    )

launch : StartAnswers → ℕ → ℕ → Option ℕ → Core → Core × SvcResult (Unit {0})
unfolding settle
launch a port secs (some pid) c = settle a port secs pid a.exited (record c { pid = pid })
launch a port secs none c = (
  record c { status = error },
  err (core_error (t "failed to spawn " ++ (a.exe ++ (t ": " ++ a.spawn_message)))),
)

after_config : StartAnswers → ℕ → ℕ → SvcResult (Unit {0}) → Core → Core × SvcResult (Unit {0})
unfolding launch
after_config a port secs (ok _) c = launch a port secs a.spawned (record c { status = starting })
after_config a port secs (err e) c = (c, err e)

missing_message : CoreKind → Text → Text
missing_message kind exe =
    t "core executable not found: "
    ++ (exe
        ++ (t " — place a "
            ++ (binary_name kind ++ t " binary there or update config/core.executable")))

both : SvcResult (Unit {0}) → SvcResult (Unit {0}) → SvcResult (Unit {0})
both (ok _) written = written
both (err e) written = err e

start_from : StartAnswers → CoreKind → ℕ → ℕ → Option ℕ → Core → Core × SvcResult (Unit {0})
unfolding after_config both missing_message
start_from a kind port secs (some _) c = (c, err (already_running (t "proxy core")))
start_from a kind port secs none c =
    if a.exists
    then after_config a port secs (both a.generated a.written) c
    else (c, err (core_error (missing_message kind a.exe)))

-- `app_kind`, `port` and `secs` are `core.kind`, `core.mixed_port` and `core.start_timeout_secs`.
unfoldable pub start : StartAnswers → Text → ℕ → ℕ → Node → Core → Core × SvcResult (Unit {0})
unfolding start_from
start a app_kind port secs node c = start_from a (for_node app_kind node) port secs c.child c

unfoldable pub stop : Core → Core
stop c = record c { status = stopped; pid = 0; child = none; events = core_stopped ∷ c.events }

unfoldable pub restart : StartAnswers → Text → ℕ → ℕ → Node → Core → Core × SvcResult (Unit {0})
unfolding start stop
restart a app_kind port secs node c = start a app_kind port secs node (stop c)

pub record HealthAnswers : Type 0 where
  pub accepts : Bool  -- the inbound accepts a connection within a second
  pub forwards : Bool  -- `tunnel_probe`: a request through the tunnel is answered

abbrev pub is_running : CoreStatus → Bool
is_running running = true
is_running _ = false

unfoldable pub health_check : HealthAnswers → Core → CoreHealth
health_check a c =
    if is_running c.status
    then (if a.accepts then (if a.forwards then healthy else uplink_dead) else local_dead)
    else local_dead
