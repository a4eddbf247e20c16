-- ===== src/Dns/Manager/Tuned.antt =====
-- The cache of dns/manager.rs fits the configuration, whatever is asked and set.
use network_client.Prelude.{
  ℕ, suc, max, ◌≤◌, ◌≡◌, refl, ◌∙◌, arith, Option, none, some, List, [], ◌∷◌, length, Text,
  SvcResult, ok, err,
}
use network_client.Config.Schema.{DnsConfig}
use network_client.Routing.IpIndex.{Ip}
use network_client.Dns.Cache.{DnsCache}
use network_client.Dns.Cache
use network_client.Dns.Fresh.{length-put, get-within, put-max_size}
use network_client.Dns.Resolver.{Network}
use network_client.Dns.Manager.{
  DnsManager, ResolvePolicy, load, new_cache, set_config, flush_cache, resolve, ask, keep,
  literal_or, select_servers, try_servers,
}

pub data Operation (Addr : Type 0) : Type 0 where
  resolves : Network Addr → ℕ → Text → ResolvePolicy → Operation Addr
  configures : SvcResult (Unit {0}) → DnsConfig → Operation Addr
  flushes : Operation Addr

pub record IsTuned (m : DnsManager) : Type 0 where
  pub file : m.file ≡ m.cfg
  pub enabled : m.cache.enabled ≡ m.cfg.cache
  pub max_size : m.cache.max_size ≡ max m.cfg.cache_size 16
  pub size : length m.cache.inner ≤ m.cache.max_size

new_cache-IsTuned :
    (cfg : DnsConfig) (events : ℕ)
    → IsTuned (record { cfg = cfg; file = cfg; cache = new_cache cfg; events = events })
unfolding new_cache Cache.new Cache.flush
new_cache-IsTuned cfg events = record {
  file = refl;
  enabled = ground arith;
  max_size = ground arith;
  size = ground arith;
}

put-enabled :
    (now : ℕ) (name : Text) (ips : List Ip) (ttl : ℕ) (c : DnsCache Ip)
    → (Cache.put now name ips ttl c).enabled ≡ c.enabled
unfolding Cache.put
put-enabled now name ips ttl c = ground arith

get-enabled :
    (now : ℕ) (name : Text) (c : DnsCache Ip) → (Cache.get now name c).0.enabled ≡ c.enabled
unfolding Cache.get
get-enabled now name c = ground arith

with_cache-IsTuned :
    (m : DnsManager) (c : DnsCache Ip)
    → IsTuned m
    → c.enabled ≡ m.cache.enabled
    → c.max_size ≡ m.cache.max_size
    → length c.inner ≤ c.max_size
    → IsTuned (record m { cache = c })
with_cache-IsTuned m c h e f g = record {
  file = h.file;
  enabled = e ∙ h.enabled;
  max_size = f ∙ h.max_size;
  size = g;
}

keep-IsTuned :
    (now : ℕ) (name : Text) (m : DnsManager) (r : SvcResult (List Ip))
    → IsTuned m
    → IsTuned (keep now name m r).0
unfolding keep
keep-IsTuned now name m (err e) h = h
keep-IsTuned now name m (ok ips) h =
    let same = put-max_size now name ips 60 m.cache in
    let one : 1 ≤ m.cache.max_size = omega (arith, h.max_size) in
    with_cache-IsTuned m (Cache.put now name ips 60 m.cache) h (put-enabled now name ips 60 m.cache)
      same (omega (arith, same, length-put now name ips 60 m.cache one h.size))

literal_or-IsTuned :
    (literal : Option Ip) (m : DnsManager) (asked : DnsManager × SvcResult (List Ip))
    → IsTuned m
    → IsTuned asked.0
    → IsTuned (literal_or literal m asked).0
unfolding literal_or
literal_or-IsTuned (some ip) m asked h k = h
literal_or-IsTuned none m asked h k = k

module _ {Addr : Type 0} (parse_ip : Text → Option Ip) (parse_socket : Text → Option Addr) where
  unfoldable pub step : DnsManager → Operation Addr → DnsManager
  unfolding resolve set_config flush_cache
  step m (resolves net now name policy) = (resolve parse_ip parse_socket net now name policy m).0
  step m (configures written cfg) = (set_config written cfg m).0
  step m flushes = flush_cache m

  unfoldable pub run : DnsManager → List (Operation Addr) → DnsManager
  unfolding step
  run m [] = m
  run m (x ∷ xs) = run (step m x) xs

  ask-IsTuned :
      (net : Network Addr) (now : ℕ) (name : Text) (policy : ResolvePolicy) (m : DnsManager)
      → IsTuned m
      → IsTuned (ask parse_socket net now name policy m (Cache.get now name m.cache)).0
  unfolding ask
  ask-IsTuned net now name policy m h =
      from (Cache.get now name m.cache) (get-enabled now name m.cache)
        (get-within now name m.cache h.size)
    where
      from :
          (hit : DnsCache Ip × Option (List Ip))
          → hit.0.enabled ≡ m.cache.enabled
          → (length hit.0.inner ≤ m.cache.max_size) × (hit.0.max_size ≡ m.cache.max_size)
          → IsTuned (ask parse_socket net now name policy m hit).0
      from (c, some ips) e (le, same) = with_cache-IsTuned m c h e same (omega (arith, le, same))
      from (c, none) e (le, same) =
          keep-IsTuned now name (record m { cache = c })
            (try_servers net name (select_servers parse_socket policy m) none)
            (with_cache-IsTuned m c h e same (omega (arith, le, same)))

  step-IsTuned : (m : DnsManager) (x : Operation Addr) → IsTuned m → IsTuned (step m x)
  unfolding step resolve set_config flush_cache Cache.flush
  step-IsTuned m (resolves net now name policy) h =
      literal_or-IsTuned (parse_ip name) m _ h (ask-IsTuned net now name policy m h)
  step-IsTuned m (configures (ok _) cfg) h = new_cache-IsTuned cfg (suc m.events)
  step-IsTuned m (configures (err e) cfg) h = h
  step-IsTuned m flushes h = with_cache-IsTuned m (Cache.flush m.cache) h refl refl (omega arith)

  -- After any sequence of resolutions, changes of the configuration and flushes the file holds the
  -- configuration in use, the cache is on exactly where it says so, and the cache holds at most the
  -- configured number of names, or 16 where that is less.
  pub run-IsTuned : (file : DnsConfig) (xs : List (Operation Addr)) → IsTuned (run (load file) xs)
  unfolding load run
  run-IsTuned file xs =
      runs (load file) xs
        (record { file = refl; enabled = refl; max_size = refl; size = omega arith })
    where
      runs : (m : DnsManager) (ys : List (Operation Addr)) → IsTuned m → IsTuned (run m ys)
      runs m [] h = h
      runs m (y ∷ ys) h = runs (step m y) ys (step-IsTuned m y h)
