-- ===== src/Tests/Config.antt =====
-- The theorems on the configuration at concrete inputs.
use mcpg_plugin_cluster_redi.Common.{refl, codes, is_blank, strip_prefix, is_whitespace}
use mcpg_plugin_cluster_redi.Config.{RedisBackendConfig, defaults, validate}
use mcpg_plugin_cluster_redi.Config.Redaction.{Validated, validate_lem}

abbrev local : RedisBackendConfig
local = defaults (codes "redis://h")

validate_lem_example : Validated local
unfolding validate is_blank strip_prefix is_whitespace
validate_lem_example = validate_lem local refl
