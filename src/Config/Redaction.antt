-- ===== src/Config/Redaction.antt =====
-- src/config.rs: the URL in a log, and `validate` against what it is to check.
use mcpg_plugin_cluster_redi.Common.{
  ℕ, ◌<◌, ◌≡◌, refl, Bool, true, false, none, some, [], ◌∷◌, ◌++◌, Bytes, codes, ◌==◌, strip_prefix,
  is_blank, arith, Bool-cases, inl, inr, ◌⊎◌,
}
use mcpg_plugin_cluster_redi.Config.{
  RedisBackendConfig, validate, starts_with, is_set, is_empty, split_scheme, split_authority,
  after_at, redact_redis_url, ends_authority,
}

-- None of the characters passes the test.
abbrev pub Without : (ℕ → Bool) → Bytes → Type 0
Without f [] = Unit {0}
Without f (c ∷ s) = (f c ≡ false) × Without f s

abbrev pub is_at : ℕ → Bool
is_at c = c == b'@'

abbrev pub is_colon : ℕ → Bool
is_colon c = c == b':'

-- Empty, or begins with '/', '?' or '#'.
abbrev pub EndsAuthority : Bytes → Type 0
EndsAuthority [] = Unit {0}
EndsAuthority (c ∷ s) = ends_authority c ≡ true

split_scheme-append :
    (scheme rest : Bytes)
    → Without is_colon scheme
    → split_scheme (scheme ++ (codes "://" ++ rest)) ≡ some (scheme ++ codes "://", rest)
unfolding split_scheme strip_prefix
split_scheme-append [] rest h = refl
split_scheme-append (c ∷ s) rest (p, h) = ground (arith, split_scheme-append s rest h)

split_authority-append :
    (a tail : Bytes)
    → Without ends_authority a
    → EndsAuthority tail
    → split_authority (a ++ tail) ≡ (a, tail)
unfolding split_authority
split_authority-append [] [] h e = refl
split_authority-append [] (c ∷ s) h e = rw e
split_authority-append (c ∷ a) tail (p, h) e = rw p (rw (split_authority-append a tail h e))

after_at-none : (host : Bytes) → Without is_at host → after_at host ≡ none
unfolding after_at
after_at-none [] h = refl
after_at-none (c ∷ s) (p, h) = rw (after_at-none s h) (rw p)

after_at-append :
    (user host : Bytes) → Without is_at host → after_at (user ++ (b'@' ∷ host)) ≡ some host
unfolding after_at
after_at-append [] host h = rw (after_at-none host h)
after_at-append (c ∷ u) host h = rw (after_at-append u host h)

pub redact_drops_userinfo :
    (scheme userinfo host tail : Bytes)
    → Without is_colon scheme
    → Without ends_authority (userinfo ++ (b'@' ∷ host))
    → Without is_at host
    → EndsAuthority tail
    → redact_redis_url (scheme ++ (codes "://" ++ ((userinfo ++ (b'@' ∷ host)) ++ tail)))
      ≡ (scheme ++ codes "://") ++ (host ++ tail)
unfolding redact_redis_url
redact_drops_userinfo scheme userinfo host tail s a h e =
    rw (split_scheme-append scheme ((userinfo ++ (b'@' ∷ host)) ++ tail) s) (
      rw (split_authority-append (userinfo ++ (b'@' ∷ host)) tail a e)
        (rw (after_at-append userinfo host h)))

-- What the rest of the program takes from a validated configuration.
pub record Validated (cfg : RedisBackendConfig) : Type 0 where
  pub scheme :
      (starts_with (codes "redis://") cfg.url ≡ true)
      ⊎ (starts_with (codes "rediss://") cfg.url ≡ true)
  pub tls_scheme : (is_set cfg.tls ≡ false) ⊎ (starts_with (codes "rediss://") cfg.url ≡ true)
  pub prefix : is_empty cfg.key_prefix ≡ false
  pub lease_ttl : 0 < cfg.lease_ttl_ms
  pub peer_ttl : 0 < cfg.peer_ttl_ms
  pub service : is_blank cfg.service_name ≡ false
  pub buffer : 0 < cfg.subscribe_pattern_buffer

-- A configuration in which `validate` finds no fault has a Redis scheme, TLS settings only with the
-- TLS scheme, a key prefix, TTLs and a buffer above 0 and a service name.
pub validate_lem : (cfg : RedisBackendConfig) → validate cfg ≡ none → Validated cfg
unfolding validate
validate_lem cfg h = record {
  scheme = elim (Bool-cases (starts_with (codes "redis://") cfg.url)) [
    | inl p ↦ inl p
    | inr p ↦ inr (ground arith)
  ];
  tls_scheme = elim (Bool-cases (is_set cfg.tls)) [ inl p ↦ inr (ground arith) | inr p ↦ inl p ];
  prefix = ground arith;
  lease_ttl = ground arith;
  peer_ttl = ground arith;
  service = ground arith;
  buffer = ground arith;
}
