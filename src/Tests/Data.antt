-- ===== src/Tests/Data.antt =====
-- A service that has one node and is idle, and answers of an outside in which every call succeeds.
use network_client.Prelude.{true, false, none, some, [], ◌∷◌, t, Json, pos, ok}
use network_client.Config.Schema.{
  RouteMode, TunConfig, CoreConfig, DnsConfig, AppConfig, RuntimePersist,
}
use network_client.Config.Schema
use network_client.Nodes.Model.{Node}
use network_client.Proxy.Core.{CoreStatus, StartAnswers}
use network_client.Route.Registry.{Registry, all_ok}
use network_client.Route.Manager.{RouteManager}
use network_client.Route.Manager
use network_client.App.State
use network_client.App.Lifecycle.State.{ConnectionManager, SaveAnswers, CleanupAnswers}
use network_client.App.Lifecycle.Connect.{ConnectAnswers}

abbrev pub tokyo : Node
tokyo = record {
  id = t "n1";
  name = t "Tokyo";
  protocol = t "vless";
  endpoint = record { host = t "a.example"; port = 443 };
  authentication = Json.null;
  transport = Json.null;
  tls = record { enabled = true; server_name = t "a.example"; insecure = false; alpn = [] };
  metadata = Json.null;
  subscription_id = [];
  enabled = true;
  created_at = pos 0;
}

abbrev pub app : AppConfig
app = record {
  mode = Schema.smart;
  tun = record {
    enabled = false;
    name = t "tun0";
    mtu = 1500;
    address_v4 = t "10.0.85.2/24";
    address_v6 = [];
  };
  core = record {
    kind = t "sing-box";
    executable = [];
    work_dir = [];
    mixed_port = 2080;
    socks_port = 2081;
    api_port = 9090;
    start_timeout_secs = 15;
    restart_max = 3;
  };
  dns = record { mode = t "smart"; servers = []; cache = true; cache_size = 1000 };
  health_interval_secs = 30;
  auto_start_proxy = false;
  restore_previous_connection = true;
  log_level = t "info";
}

abbrev pub blank_runtime : RuntimePersist
blank_runtime = record { last_state = []; node_id = []; mode = []; updated_at = pos 0 }

abbrev pub corporate : Registry
corporate = record {
  enable = some 1;
  server = some (t "proxy.corp:3128");
  override = some (t "*.corp");
}

abbrev pub idle_route : RouteManager
idle_route = record { saved = none; backup = none; registry = corporate }

abbrev pub idle : ConnectionManager
idle = record {
  config = record {
    app = app;
    app_file = some app;
    runtime = blank_runtime;
    runtime_file = some blank_runtime;
  };
  nodes = record { nodes = (t "n1", tokyo) ∷ []; selected = none; file = tokyo ∷ [] };
  mode = Schema.smart;
  core = record { status = CoreStatus.stopped; pid = 0; child = none; events = [] };
  route = idle_route;
  tun = record { lib = false; adapter = false };
  stats = record { up = 0; down = 0; session = none; last = none; db = [] };
  store = State.new;
  active_node = none;
  monitor = false;
  restart_count = 0;
}

abbrev pub saves : SaveAnswers
saves = record { written = ok tt; now = pos 7 }

abbrev pub routes : Manager.Answers
routes = record { readable = true; first = all_ok; second = all_ok; stores = true; removes = true }

abbrev pub cleans : CleanupAnswers
cleans = record { route = routes; executes = true }

abbrev pub starts : StartAnswers
starts = record {
  exe = t "sing-box.exe";
  exists = true;
  generated = ok tt;
  written = ok tt;
  spawned = some 42;
  spawn_message = [];
  ready = true;
  exited = none;
}

abbrev pub dials : ConnectAnswers
dials = record {
  save = saves;
  cleanup = cleans;
  mode_written = ok tt;
  core = starts;
  tun = record { loads = ok tt; starts = ok tt; assigns = ok tt };
  route = routes;
  session_id = t "s1";
  executes = true;
  latency = pos 80;
}
