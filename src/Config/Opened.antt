-- ===== src/Config/Opened.antt =====
-- src/config.rs and src/lib.rs: the credentials and the certificate that a client is opened with.
use mcpg_plugin_cluster_redi.Common.{
  ◌≡◌, refl, Bool, false, true, ◌⊎◌, Bool-cases, inl, inr, Option, none, some, Bytes, codes,
}
use mcpg_plugin_cluster_redi.Config.{RedisBackendConfig, TlsConfig, starts_with}
use mcpg_plugin_cluster_redi.Config.Load.{
  loaded, ConnectionInfo, with_credentials, or_set, tls_root_cert_pem, ca_of, trim_start, pem_of,
  resolve_pem, optional, file_read,
}

-- A value that the configuration sets, or else the one of the URL.
abbrev pub Preferred : Option Bytes → Option Bytes → Option Bytes → Type 0
Preferred (some x) of_url used = used ≡ some x
Preferred none of_url used = used ≡ of_url

-- A certificate is given as PEM text, or else by the path of a file with that text.
abbrev pub is_pem : Bytes → Bool
is_pem value = starts_with (codes "-----BEGIN") (trim_start value)

abbrev pub FromCa : (Bytes → Option Bytes) → Option Bytes → Option Bytes → Type 0
FromCa read_file none root = root ≡ none
FromCa read_file (some ca) root =
    ((is_pem ca ≡ true) × (root ≡ some ca))
    ⊎ ((is_pem ca ≡ false) × ((pem : Bytes) × (read_file ca ≡ some pem) × (root ≡ some pem)))

abbrev pub RootOf : (Bytes → Option Bytes) → Option TlsConfig → Option Bytes → Type 0
RootOf read_file none root = root ≡ none
RootOf read_file (some tls) root = FromCa read_file tls.ca_cert root

pub Preferred-with_credentials :
    (cfg : RedisBackendConfig) (info : ConnectionInfo)
    → Preferred cfg.username info.username (with_credentials cfg info).username
      × Preferred cfg.password info.password (with_credentials cfg info).password
      × ((with_credentials cfg info).address ≡ info.address)
unfolding with_credentials
Preferred-with_credentials cfg info =
    (by_setting cfg.username info.username, by_setting cfg.password info.password, refl)
  where
    by_setting : (set old : Option Bytes) → Preferred set old (or_set set old)
    by_setting none old = refl
    by_setting (some x) old = refl

pub RootOf-tls_root_cert_pem :
    (read_file : Bytes → Option Bytes) (cfg : RedisBackendConfig) (root : Option Bytes)
    → tls_root_cert_pem read_file cfg ≡ loaded root
    → RootOf read_file cfg.tls root
unfolding tls_root_cert_pem resolve_pem
RootOf-tls_root_cert_pem read_file cfg root h = by_tls cfg.tls root h
  where
    from_file :
        (ca : Bytes) (found : Option Bytes) (root : Option Bytes)
        → read_file ca ≡ found
        → optional (file_read found) ≡ loaded root
        → (pem : Bytes) × (read_file ca ≡ some pem) × (root ≡ some pem)
    from_file ca none root r e = cc
    from_file ca (some pem) root r e = (pem, r, cc)

    by_ca :
        (ca : Option Bytes) (root : Option Bytes)
        → pem_of read_file ca ≡ loaded root
        → FromCa read_file ca root
    by_ca none root e = cc
    by_ca (some ca) root e = elim (Bool-cases (is_pem ca)) [
      | inl p ↦ let inline : loaded (some ca) ≡ loaded root = rw p at e in inl (p, cc)
      | inr p ↦ inr (p, from_file ca (read_file ca) root refl (rw p at e))
    ]

    by_tls :
        (tls : Option TlsConfig) (root : Option Bytes)
        → pem_of read_file (ca_of tls) ≡ loaded root
        → RootOf read_file tls root
    by_tls none root e = cc
    by_tls (some tls) root e = by_ca tls.ca_cert root e
