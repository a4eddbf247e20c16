-- ===== src/Routing/Restart.antt =====
-- What a restart makes of the files that service/network-service/src/routing/engine.rs has written.
use network_client.Prelude.{◌⊎◌, ◌≡◌, refl, ap, ◌∙◌, arith, Option, List, [], ◌∷◌, Text, ok, ◌>>=◌}
use network_client.Config.Schema.{RouteMode}
use network_client.Routing.IpIndex.{Ip}
use network_client.Routing.Index.{build}
use network_client.Routing.GeoIp.{File, with_private, load_dir}
use network_client.Routing.Engine.{
  Files, RoutingConfigPersist, RoutingEngine, commit, add_rule, update_rule, delete_rule,
}
use network_client.Routing.Publish.{Edit, add, update, delete, IsBuilt, edit}
use network_client.Routing.Boot.{read_json_or, default_config, load, set_config, set_mode}

-- A call that changes the rules, or that changes the settings and whose write succeeds.
pub data Call : Type 0 where
  edits : Edit → Call
  configures : RoutingConfigPersist → Call
  selects : RouteMode → Call

module _ {Regex : Type 0} (compile : Text → Text ⊎ Regex) (parse_ip : Text → Option Ip) where
  abbrev pub call : Call → RoutingEngine Regex → RoutingEngine Regex
  call (edits e) engine = edit compile parse_ip e engine
  call (configures cfg) engine = (set_config (ok tt) cfg engine).0
  call (selects mode) engine = (set_mode (ok tt) mode engine).0

  abbrev pub call_all : List Call → RoutingEngine Regex → RoutingEngine Regex
  call_all [] engine = engine
  call_all (c ∷ cs) engine = call_all cs (call c engine)

  -- The memory is what a start makes of the files and of the directory of countries.
  record IsKept (geoip : Option (List File)) (engine : RoutingEngine Regex) : Type 0 where
    pub rules : read_json_or [] engine.files.rules ≡ engine.rules
    pub cfg : read_json_or default_config engine.files.routing ≡ engine.cfg
    pub geo : load_dir parse_ip geoip with_private ≡ engine.geo
    pub built : IsBuilt compile parse_ip engine

  edit-IsKept :
      (geoip : Option (List File)) (e : Edit) (engine : RoutingEngine Regex)
      → IsKept geoip engine
      → IsKept geoip (edit compile parse_ip e engine)
  unfolding add_rule update_rule delete_rule commit
  edit-IsKept geoip (add fresh write rule) engine h = ground arith
  edit-IsKept geoip (update write rule) engine h = ground arith
  edit-IsKept geoip (delete write id) engine h = ground arith

  call-IsKept :
      (geoip : Option (List File)) (c : Call) (engine : RoutingEngine Regex)
      → IsKept geoip engine
      → IsKept geoip (call c engine)
  unfolding set_config set_mode
  call-IsKept geoip (edits e) engine h = edit-IsKept geoip e engine h
  call-IsKept geoip (configures cfg) engine h = record {
    rules = h.rules;
    cfg = refl;
    geo = h.geo;
    built = h.built;
  }
  call-IsKept geoip (selects mode) engine h = record {
    rules = h.rules;
    cfg = refl;
    geo = h.geo;
    built = h.built;
  }

  call_all-IsKept :
      (geoip : Option (List File)) (cs : List Call) (engine : RoutingEngine Regex)
      → IsKept geoip engine
      → IsKept geoip (call_all cs engine)
  call_all-IsKept geoip [] engine h = h
  call_all-IsKept geoip (c ∷ cs) engine h =
      call_all-IsKept geoip cs (call c engine) (call-IsKept geoip c engine h)

  load-IsKept :
      (files : Files) (geoip : Option (List File)) (engine : RoutingEngine Regex)
      → load compile parse_ip files geoip ≡ ok engine
      → IsKept geoip engine
  unfolding load
  load-IsKept files geoip engine e = ground arith

  loads_again :
      (geoip : Option (List File)) (engine : RoutingEngine Regex)
      → IsKept geoip engine
      → load compile parse_ip engine.files geoip ≡ ok engine
  unfolding load
  loads_again geoip engine h =
      ap
        (λ rules. build compile parse_ip rules >>= λ index. ok (record engine {
          rules = rules;
          index = index;
          geo = load_dir parse_ip geoip with_private;
          cfg = read_json_or default_config engine.files.routing;
        }))
        h.rules
      ∙ ap
          (λ r. r >>= λ index. ok (record engine {
            index = index;
            geo = load_dir parse_ip geoip with_private;
            cfg = read_json_or default_config engine.files.routing;
          }))
          h.built
      ∙ ap
          (λ geo.
            ok
              (record engine { geo = geo; cfg = read_json_or default_config engine.files.routing }))
          h.geo
      ∙ ap (λ cfg. ok (record engine { cfg = cfg })) h.cfg

  -- A restart loses nothing of what was written: after a start from any files and any sequence of calls,
  -- additions, updates and deletions of rules, whether they succeed or are refused or their write fails, and
  -- changes of the settings whose write succeeds, a start from the two files that are then there, with the
  -- same directory of countries, gives the same engine again, its index included.
  pub load-call_all :
      (files : Files) (geoip : Option (List File)) (cs : List Call) (engine : RoutingEngine Regex)
      → load compile parse_ip files geoip ≡ ok engine
      → let e = call_all cs engine in load compile parse_ip e.files geoip ≡ ok e
  load-call_all files geoip cs engine h =
      loads_again geoip (call_all cs engine)
        (call_all-IsKept geoip cs engine (load-IsKept files geoip engine h))
