-- ===== src/Tun/Manager.antt =====
-- `TunManager` (service/network-service/src/tun/manager.rs). Whether the library loads, the adapter
-- starts and `netsh` sets the address are the fields of `TunAnswers`.
use network_client.Prelude.{
  ℕ, ◌-◌, ◌*◌, ◌/◌, ◌%◌, ◌^◌, min, Bool, true, false, ◌++◌, Text, t, SvcResult, ok, err,
  already_running, decimal, if◌then◌else◌,
}

pub record TunManager : Type 0 where
  pub lib : Bool  -- the library is loaded
  pub adapter : Bool  -- an adapter handle is held

pub record TunAnswers : Type 0 where
  pub loads : SvcResult (Unit {0})
  pub starts : SvcResult (Unit {0})
  pub assigns : SvcResult (Unit {0})  -- `assign_address`

ensure_from : SvcResult (Unit {0}) → Bool → TunManager → TunManager × SvcResult (Unit {0})
ensure_from loads true m = (m, ok tt)
ensure_from (ok _) false m = (record m { lib = true }, ok tt)
ensure_from (err e) false m = (m, err e)

unfoldable pub ensure_loaded : SvcResult (Unit {0}) → TunManager → TunManager × SvcResult (Unit {0})
unfolding ensure_from
ensure_loaded loads m = ensure_from loads m.lib m

start_adapter :
    SvcResult (Unit {0}) → SvcResult (Unit {0}) → TunManager → TunManager × SvcResult (Unit {0})
start_adapter (err e) assigns m = (m, err e)
start_adapter (ok _) (ok _) m = (record m { adapter = true }, ok tt)
start_adapter (ok _) (err e) m = (record m { adapter = false }, err e)

start_loaded : TunAnswers → TunManager × SvcResult (Unit {0}) → TunManager × SvcResult (Unit {0})
unfolding start_adapter
start_loaded a (m, ok _) = start_adapter a.starts a.assigns m
start_loaded a (m, err e) = (m, err e)

unfoldable pub start : TunAnswers → TunManager → TunManager × SvcResult (Unit {0})
unfolding ensure_loaded start_loaded
start a m =
    if m.adapter
    then (m, err (already_running (t "tun adapter")))
    else start_loaded a (ensure_loaded a.loads m)

unfoldable pub stop : TunManager → TunManager
stop m = record m { adapter = false }

-- `u32::MAX << (32 - prefix.min(32))` in a release build: the amount of a shift counts modulo 32, and
-- the bits beyond 32 are lost. (A debug build panics at the amount 32, that is at the prefix 0.)
unfoldable pub mask_bits : ℕ → ℕ
mask_bits prefix = (0xffff_ffff * 2 ^ ((32 - min prefix 32) % 32)) % 2 ^ 32

unfoldable pub prefix_to_mask : ℕ → Text
unfolding mask_bits
prefix_to_mask prefix =
    let bits = mask_bits prefix in
    decimal (bits / 2 ^ 24)
    ++ (t "."
        ++ (decimal (bits / 2 ^ 16 % 256)
            ++ (t "." ++ (decimal (bits / 2 ^ 8 % 256) ++ (t "." ++ decimal (bits % 256))))))
