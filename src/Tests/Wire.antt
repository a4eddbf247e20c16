-- ===== src/Tests/Wire.antt =====
-- Frames, the cache of names and the configuration at concrete inputs.
use network_client.Prelude.{
  ◌⊎◌, get_or, ◌/◌, ◌%◌, ◌*◌, ℕ, ◌≡◌, ◌≤◌, ◌<◌, ◌++◌, refl, List, [], ◌∷◌, t, length, ok, err, io,
  arith, text_eq, none, some,
}
use network_client.Config.Schema.{AppConfig}
use network_client.Config.Manager.{validate_app, load}
use network_client.Config.Defaults.{default_app}
use network_client.Config.Saves.{Save, saves_app, saves_runtime, save_each, load-save_each}
use network_client.Ipc.Stream.{read_frames, write_frames, read_frames-write_frames}
use network_client.Routing.Rule.{v4}
use network_client.Tun.Packet.{IpFlow, parse_ip}
use network_client.Tun.Bounds.{IsV4, IsV6, parse_ip_lem}
use network_client.Tests.Data.{idle, app, blank_runtime}

read_frames-write_frames_example :
    read_frames 2 (write_frames ((1 ∷ 2 ∷ []) ∷ (3 ∷ []) ∷ []) ++ 9 ∷ [])
    ≡ ok ((1 ∷ 2 ∷ []) ∷ (3 ∷ []) ∷ [], 9 ∷ [])
read_frames-write_frames_example =
    read_frames-write_frames ((1 ∷ 2 ∷ []) ∷ (3 ∷ []) ∷ []) (9 ∷ [])
      ((omega arith, omega arith), ((omega arith, omega arith), tt))

abbrev too_small : AppConfig
too_small = record app { tun = record app.tun { mtu = 100 } }

abbrev saves : List Save
saves =
    saves_app (ok tt) too_small
    ∷ saves_app (err (io (t "disk full"))) app
    ∷ saves_runtime (ok tt) blank_runtime
    ∷ []

-- No file of settings.
load-save_each_example :
    let e = save_each (record idle.config { app = default_app; app_file = none }) saves in
    (load e.app_file e.runtime_file ≡ ok e)
    × (576 ≤ e.app.tun.mtu)
    × (e.app.tun.mtu ≤ 9000)
    × (0 < e.app.core.mixed_port)
unfolding load validate_app text_eq
load-save_each_example =
    load-save_each none (some blank_runtime)
      (record idle.config { app = default_app; app_file = none }) saves refl

-- An IPv4 header of 20 bytes from 10.0.0.2 to 8.8.8.8.
abbrev packet : List ℕ
packet = 0x45 ∷ 0 ∷ 0 ∷ 84 ∷ 0 ∷ 0 ∷ 0 ∷ 0 ∷ 64 ∷ 6 ∷ 0 ∷ 0 ∷ 10 ∷ 0 ∷ 0 ∷ 2 ∷ 8 ∷ 8 ∷ 8 ∷ 8 ∷ []

abbrev parsed : IpFlow
parsed = record {
  src = v4 (10 ∷ 0 ∷ 0 ∷ 2 ∷ []);
  dst = v4 (8 ∷ 8 ∷ 8 ∷ 8 ∷ []);
  protocol = 6;
  length = 84;
}

parse_ip_lem_example :
    ((get_or packet 0 0 / 16 ≡ 4)
      × (20 ≤ length packet)
      × (get_or packet 0 0 % 16 * 4 ≤ length packet)
      × IsV4 parsed.src
      × IsV4 parsed.dst)
    ⊎ ((get_or packet 0 0 / 16 ≡ 6)
        × (40 ≤ length packet)
        × IsV6 parsed.src
        × IsV6 parsed.dst
        × (40 ≤ parsed.length))
unfolding parse_ip
parse_ip_lem_example = parse_ip_lem packet parsed refl
