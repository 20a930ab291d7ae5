-- ===== src/Tests/Load.antt =====
-- The theorems on loading a configuration at concrete inputs.
use mcpg_plugin_cluster_redi.Common.{
  ◌≡◌, refl, none, some, Option, Bytes, codes, false, Bool, is_blank, strip_prefix, is_whitespace,
}
use mcpg_plugin_cluster_redi.Config.{RedisBackendConfig, defaults, validate}
use mcpg_plugin_cluster_redi.Config.Redaction.{Validated}
use mcpg_plugin_cluster_redi.Config.Load.{
  ConnectionInfo, debug, from_config_json, with_credentials, tls_root_cert_pem, resolve_pem,
  trim_start, parse, build_client,
}
use mcpg_plugin_cluster_redi.Config.Loaded.{
  Loads, Source, with_secrets, debug_hides, from_config_json-Loads,
}

abbrev local : RedisBackendConfig
local = defaults (codes "redis://h")

debug_hides_example :
    debug (with_secrets local (codes "redis://u:p@h/0") (codes "secret"))
    ≡ debug (with_secrets local (codes "redis://eve@h/0") (codes "guess"))
debug_hides_example =
    debug_hides local (codes "redis") (codes "u:p") (codes "eve") (codes "h") (codes "/0")
      (codes "secret") (codes "guess") (refl, (refl, (refl, (refl, (refl, tt)))))
      (refl, (refl, (refl, (refl, (refl, tt))))) (refl, (refl, (refl, (refl, (refl, tt)))))
      (refl, tt) refl

abbrev pem_file : Bytes → Option Bytes
pem_file path = some (codes "pem")

abbrev info_of : Bytes → Option ConnectionInfo
info_of url = some (record { address = url; username = none; password = some (codes "from-url") })

abbrev open_any : ConnectionInfo → Option Bytes → Option (ConnectionInfo × Option Bytes)
open_any info root = some (info, root)

abbrev never : Bytes → Bool
never s = false

-- The configuration sets the user name and a certificate, and the URL the password.
abbrev secured : RedisBackendConfig
secured = record (defaults (codes "rediss://h")) {
  username = some (codes "u");
  tls = some (record { ca_cert = some (codes "ca.pem") });
}

abbrev read_secured : Bytes → Option RedisBackendConfig
read_secured s = some secured

abbrev opened : ConnectionInfo × Option Bytes
opened = (
  record {
    address = codes "rediss://h";
    username = some (codes "u");
    password = some (codes "from-url");
  },
  some (codes "pem"),
)

from_config_json-Loads_example :
    Source never read_secured (codes "{}") secured
    × Validated secured
    × Loads pem_file info_of open_any secured opened
unfolding from_config_json parse build_client validate is_blank strip_prefix is_whitespace
    with_credentials tls_root_cert_pem resolve_pem trim_start
from_config_json-Loads_example =
    from_config_json-Loads pem_file info_of open_any never read_secured (codes "{}") secured opened
      refl
