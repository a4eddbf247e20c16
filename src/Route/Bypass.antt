-- ===== src/Route/Bypass.antt =====
-- service/network-service/src/route/bypass.rs.
use network_client.Prelude.{◌++◌, Text, t, is_empty, if◌then◌else◌}

private_bypass : Text
private_bypass =
    t
      "localhost;127.*;10.*;172.16.*;172.17.*;172.18.*;172.19.*;172.20.*;172.21.*;172.22.*;172.23.*;172.24.*;172.25.*;172.26.*;172.27.*;172.28.*;172.29.*;172.30.*;172.31.*;192.168.*;<local>"

unfoldable pub default_bypass : Text
unfolding private_bypass
default_bypass = private_bypass

unfoldable pub bypass_with_server : Text → Text
unfolding private_bypass default_bypass
bypass_with_server server_host =
    if is_empty server_host then default_bypass else private_bypass ++ t ";" ++ server_host
