-- ===== src/Route/Registry.antt =====
-- The module `wininet` of route/manager.rs: the three registry values of the system proxy. A value
-- that `get_value` cannot read is `none`. Each registry call of `apply_proxy` is answered by the
-- operating system: `none` is success, `some e` is failure with the message `e`.
use network_client.Prelude.{
  ℕ, Bool, true, not, Option, none, some, [], ◌++◌, Text, t, SvcResult, ok, err, route_error, ◌==◌,
  if◌then◌else◌,
}

pub record Registry : Type 0 where
  pub enable : Option ℕ
  pub server : Option Text
  pub override : Option Text

pub record SavedProxy : Type 0 where
  pub proxy : Text
  pub bypass : Text
  pub direct : Bool

abbrev pub Answer : Type 0
Answer = Option Text

pub record ApplyAnswers : Type 0 where
  pub open_key : Answer
  pub set_enable : Answer
  pub set_server : Answer
  pub set_override : Answer

abbrev pub all_ok : ApplyAnswers
all_ok = record { open_key = none; set_enable = none; set_server = none; set_override = none }

abbrev pub direct_proxy : SavedProxy
direct_proxy = record { proxy = []; bypass = []; direct = true }

-- `unwrap_or(d)`
abbrev pub unwrap_or {ℓ} : {A : Type ℓ} → Option A → A → A
unwrap_or none d = d
unwrap_or (some a) d = a

-- `readable`: whether the key could be opened.
unfoldable pub query_proxy : Bool → Registry → SavedProxy
query_proxy readable r =
    if readable
    then record {
      proxy = unwrap_or r.server [];
      bypass = unwrap_or r.override [];
      direct = not (unwrap_or r.enable 0 == 1);
    }
    else direct_proxy

-- The three writes of the `Some` branch, each under the success of those before it.
write_override : Answer → Text → Registry → Registry × SvcResult (Unit {0})
write_override none bypass r = (record r { override = some bypass }, ok tt)
write_override (some e) bypass r = (r, err (route_error (t "set ProxyOverride failed: " ++ e)))

write_server : Answer → Answer → Text → Text → Registry → Registry × SvcResult (Unit {0})
unfolding write_override
write_server none o proxy bypass r = write_override o bypass (record r { server = some proxy })
write_server (some e) o proxy bypass r = (r, err (route_error (t "set ProxyServer failed: " ++ e)))

write_all : ApplyAnswers → Answer → Text → Text → Registry → Registry × SvcResult (Unit {0})
unfolding write_server
write_all a none proxy bypass r =
    write_server a.set_server a.set_override proxy bypass (record r { enable = some 1 })
write_all a (some e) proxy bypass r = (r, err (route_error (t "set ProxyEnable failed: " ++ e)))

switch_off : Answer → Registry → Registry × SvcResult (Unit {0})
switch_off none r = (record r { enable = some 0 }, ok tt)
switch_off (some e) r = (r, err (route_error (t "clear ProxyEnable failed: " ++ e)))

apply_opened : ApplyAnswers → Option (Text × Text) → Registry → Registry × SvcResult (Unit {0})
unfolding write_all switch_off
apply_opened a (some (proxy, bypass)) r = write_all a a.set_enable proxy bypass r
apply_opened a none r = switch_off a.set_enable r

apply_from :
    Answer → ApplyAnswers → Option (Text × Text) → Registry → Registry × SvcResult (Unit {0})
unfolding apply_opened
apply_from none a spec r = apply_opened a spec r
apply_from (some e) a spec r = (r, err (route_error (t "open Internet Settings key failed: " ++ e)))

unfoldable pub apply_proxy :
    ApplyAnswers → Option (Text × Text) → Registry → Registry × SvcResult (Unit {0})
unfolding apply_from
apply_proxy a spec r = apply_from a.open_key a spec r
