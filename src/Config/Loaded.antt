-- ===== src/Config/Loaded.antt =====
-- src/config.rs and src/lib.rs: a plugin that was loaded, its configuration in a log, and the texts
-- that are made up.
use mcpg_plugin_cluster_redi.Common.{
  ◌≡◌, refl, ap, sym, ◌∙◌, Bool, false, true, ◌⊎◌, subst, false≢true, Bool-cases, inl, inr, Option,
  none, some, [], ◌∷◌, ◌++◌, Bytes, codes, is_blank, arith,
}
use mcpg_plugin_cluster_redi.Config.{
  RedisBackendConfig, ConfigError, validate, ends_authority, resolved_node_id, host_id,
}
use mcpg_plugin_cluster_redi.Config.Redaction.{
  Validated, validate_lem, redact_drops_userinfo, Without, EndsAuthority, is_at, is_colon,
}
use mcpg_plugin_cluster_redi.Config.Opened.{
  Preferred, RootOf, Preferred-with_credentials, RootOf-tls_root_cert_pem,
}
use mcpg_plugin_cluster_redi.Config.Load.{
  Loaded, loaded, refused, parse, tls_root_cert_pem, debug, ConnectionInfo, with_credentials, built,
  build_client, from_config_json, opened, with_root, with_info, from_parsed, checked, parsed,
}

-- The URL with user information in it.
abbrev pub url_of : Bytes → Bytes → Bytes → Bytes → Bytes
url_of scheme userinfo host tail = scheme ++ (codes "://" ++ ((userinfo ++ (b'@' ∷ host)) ++ tail))

abbrev pub with_secrets : RedisBackendConfig → Bytes → Bytes → RedisBackendConfig
with_secrets cfg url password = record cfg { url = url; password = some password }

-- `Debug` of a configuration tells nothing of the password and of the user information in the URL:
-- two configurations that differ in these alone print the same fields; where no colon stands in
-- the scheme, no '/', '?' or '#' in the user information or the host, no '@' in the host, and what
-- follows the host is empty or begins with '/', '?' or '#'.
pub debug_hides :
    (cfg : RedisBackendConfig) (scheme userinfo other host tail password guess : Bytes)
    → Without is_colon scheme
    → Without ends_authority (userinfo ++ (b'@' ∷ host))
    → Without ends_authority (other ++ (b'@' ∷ host))
    → Without is_at host
    → EndsAuthority tail
    → debug (with_secrets cfg (url_of scheme userinfo host tail) password)
      ≡ debug (with_secrets cfg (url_of scheme other host tail) guess)
unfolding debug
debug_hides cfg scheme userinfo other host tail password guess s a b h e =
    ap (λ (url : Bytes). record cfg { url = url; password = some (codes "***") })
      (redact_drops_userinfo scheme userinfo host tail s a h e
        ∙ sym (redact_drops_userinfo scheme other host tail s b h e))

is_blank-append : (s t : Bytes) → is_blank s ≡ false → is_blank (s ++ t) ≡ false
unfolding is_blank
is_blank-append [] t h = absurd (false≢true (sym h))
is_blank-append (c ∷ s) t h = ground (arith, is_blank-append s t)

-- In a validated configuration that names no node, the node id is not blank, whatever `HOSTNAME` and
-- the random suffix are.
pub resolved_node_id-named :
    (cfg : RedisBackendConfig) (hostname : Option Bytes) (suffix : Bytes)
    → validate cfg ≡ none
    → cfg.node_id ≡ none
    → is_blank (resolved_node_id cfg hostname suffix) ≡ false
unfolding resolved_node_id host_id
resolved_node_id-named cfg none suffix valid unnamed =
    rw unnamed
      (is_blank-append cfg.service_name (codes "-" ++ suffix) (validate_lem cfg valid).service)
resolved_node_id-named cfg (some host) suffix valid unnamed =
    let service = (validate_lem cfg valid).service in
    elim (Bool-cases (is_blank host)) [
      | inl b ↦ rw (unnamed, b) (is_blank-append cfg.service_name (codes "-" ++ suffix) service)
      | inr b ↦ rw (unnamed, b) (is_blank-append cfg.service_name (codes "-" ++ host) service)
    ]

-- The configuration stands in the text, or in a placeholder where the text is the manifest probe.
abbrev pub Source :
    (Bytes → Bool) → (Bytes → Option RedisBackendConfig) → Bytes → RedisBackendConfig → Type 0
Source is_probe from_json s cfg =
    ((is_probe s ≡ false) × (from_json s ≡ some cfg))
    ⊎ ((is_probe s ≡ true) × (from_json (codes "{\"url\":\"redis://127.0.0.1:6379\"}") ≡ some cfg))

module _ {A : Type 0} (read_file : Bytes → Option Bytes) (into_info : Bytes → Option ConnectionInfo)
    (open_client : ConnectionInfo → Option Bytes → Option A) where
  -- The client of a configuration: what `into_info` parses the URL to, and what is opened.
  pub record Loads (cfg : RedisBackendConfig) (client : A) : Type 0 where
    pub of_url : ConnectionInfo
    pub url_parses : into_info cfg.url ≡ some of_url
    pub used : ConnectionInfo
    pub address : used.address ≡ of_url.address
    pub username : Preferred cfg.username of_url.username used.username
    pub password : Preferred cfg.password of_url.password used.password
    pub root : Option Bytes
    pub root_read : RootOf read_file cfg.tls root
    pub opens : open_client used root ≡ some client

  abbrev Valid : RedisBackendConfig → A → Type 0
  Valid cfg client = (validate cfg ≡ none) × Loads cfg client

  module _ (cfg : RedisBackendConfig) (client : A) (c : RedisBackendConfig)
      (valid : validate c ≡ none) where
    built-Loads : (x : A) → Loads c x → built c x ≡ built cfg client → Valid cfg client
    built-Loads x l e =
        let same_config : c ≡ cfg = cc in
        let same_client : x ≡ client = cc in
        subst (λ d. Valid d client) same_config (valid, subst (λ y. Loads c y) same_client l)

    opened-Loads :
        (info : ConnectionInfo) (pem : Option Bytes)
        → into_info c.url ≡ some info
        → tls_root_cert_pem read_file c ≡ loaded pem
        → (o : Option A) → open_client (with_credentials c info) pem ≡ o
        → opened read_file into_info open_client c o ≡ built cfg client
        → Valid cfg client
    opened-Loads info pem u p none o e = cc
    opened-Loads info pem u p (some x) o e =
        built-Loads x
          (let (username, password, address) = Preferred-with_credentials c info in
            record {
              of_url = info;
              url_parses = u;
              used = with_credentials c info;
              address = address;
              username = username;
              password = password;
              root = pem;
              root_read = RootOf-tls_root_cert_pem read_file c pem p;
              opens = o;
            })
          e

    with_root-Loads :
        (info : ConnectionInfo)
        → into_info c.url ≡ some info
        → (pem : Loaded (Option Bytes)) → tls_root_cert_pem read_file c ≡ pem
        → with_root read_file into_info open_client c info pem ≡ built cfg client
        → Valid cfg client
    with_root-Loads info u (refused x) p e = cc
    with_root-Loads info u (loaded pem) p e =
        opened-Loads info pem u p (open_client (with_credentials c info) pem) refl e

    with_info-Loads :
        (info : Option ConnectionInfo)
        → into_info c.url ≡ info
        → with_info read_file into_info open_client c info ≡ built cfg client
        → Valid cfg client
    with_info-Loads none u e = cc
    with_info-Loads (some info) u e = with_root-Loads info u (tls_root_cert_pem read_file c) refl e

  checked-Loads :
      (cfg : RedisBackendConfig) (client : A) (c : RedisBackendConfig) (fault : Option ConfigError)
      → validate c ≡ fault
      → from_parsed read_file into_info open_client (checked c fault) ≡ built cfg client
      → Valid cfg client
  unfolding build_client
  checked-Loads cfg client c none v e = with_info-Loads cfg client c v (into_info c.url) refl e
  checked-Loads cfg client c (some x) v e = cc

  -- The configuration that a plugin was built of is the one that was checked.
  same_config :
      (c cfg : RedisBackendConfig) (client : A) (fault : Option ConfigError)
      → from_parsed read_file into_info open_client (checked c fault) ≡ built cfg client
      → c ≡ cfg
  unfolding build_client
  same_config c cfg client none e = by_info (into_info c.url) e
    where
      by_client :
          (o : Option A) → opened read_file into_info open_client c o ≡ built cfg client → c ≡ cfg
      by_client none e = cc
      by_client (some x) e = cc

      by_root :
          (info : ConnectionInfo) (pem : Loaded (Option Bytes))
          → with_root read_file into_info open_client c info pem ≡ built cfg client
          → c ≡ cfg
      by_root info (refused x) e = cc
      by_root info (loaded pem) e = by_client (open_client (with_credentials c info) pem) e

      by_info :
          (info : Option ConnectionInfo)
          → with_info read_file into_info open_client c info ≡ built cfg client
          → c ≡ cfg
      by_info none e = cc
      by_info (some info) e = by_root info (tls_root_cert_pem read_file c) e
  same_config c cfg client (some x) e = cc

  parsed-Loads :
      (cfg : RedisBackendConfig) (client : A) (found : Option RedisBackendConfig)
      → from_parsed read_file into_info open_client (parsed found) ≡ built cfg client
      → (found ≡ some cfg) × Valid cfg client
  parsed-Loads cfg client none e = cc
  parsed-Loads cfg client (some c) e = (
    ap some (same_config c cfg client (validate c) e),
    checked-Loads cfg client c (validate c) refl e,
  )

  -- A plugin that loads was given a text that `serde_json` reads as its configuration, or was asked for
  -- its manifest and took that of the placeholder. `validate` finds no fault in the configuration, so
  -- it has a Redis scheme, TLS settings only with the TLS scheme, a key prefix, and TTLs and a buffer
  -- above 0. Its client was opened at the address of its URL, which parses; with the user name and
  -- the password of the configuration, each where it sets one, and otherwise those of the URL; and
  -- with the certificate of the TLS settings, as it stands there or as the file of that path holds
  -- it, or with none where they name none.
  pub from_config_json-Loads :
      (is_probe : Bytes → Bool) (from_json : Bytes → Option RedisBackendConfig) (s : Bytes)
      (cfg : RedisBackendConfig) (client : A)
      → from_config_json read_file into_info open_client is_probe from_json s ≡ built cfg client
      → Source is_probe from_json s cfg × Validated cfg × Loads cfg client
  unfolding from_config_json parse
  from_config_json-Loads is_probe from_json s cfg client e =
      let placeholder : Bytes = codes "{\"url\":\"redis://127.0.0.1:6379\"}" in
      elim (Bool-cases (is_probe s)) [
        | inl p ↦
            let (read, (valid, l)) = parsed-Loads cfg client (from_json placeholder) (rw p at e) in
            (inr (p, read), validate_lem cfg valid, l)
        | inr p ↦
            let (read, (valid, l)) = parsed-Loads cfg client (from_json s) (rw p at e) in
            (inl (p, read), validate_lem cfg valid, l)
      ]
