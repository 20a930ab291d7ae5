-- ===== src/Envelope.antt =====
-- src/envelope.rs: the wire envelope of published payloads. A `&str` is the bytes of it.
pub mod Utf8
pub mod RoundTrip
use mcpg_plugin_cluster_redi.Common.{
  ℕ, ◌+◌, ◌-◌, ◌*◌, ◌/◌, ◌%◌, Bool, true, false, Option, none, some, Bytes, [], ◌∷◌, ◌++◌, ltb,
  ◌==◌, if◌then◌else◌, length, take, drop,
}
use mcpg_plugin_cluster_redi.Envelope.Utf8.{is_utf8}

abbrev pub version : ℕ
version = 0x01

abbrev pub flag_none : ℕ
flag_none = 0x00

abbrev pub flag_rk : ℕ
flag_rk = 0x01

abbrev pub max_rk_len : ℕ
max_rk_len = 65535

pub data EnvelopeError : Type 0 where
  too_long truncated unsupported_version unknown_flag : ℕ → EnvelopeError
  length_truncated : EnvelopeError
  body_truncated : (expected actual : ℕ) → EnvelopeError
  invalid_utf8 : EnvelopeError

pub data Result (A : Type 0) : Type 0 where
  ok : A → Result A
  err : EnvelopeError → Result A

-- `u16::to_be_bytes` and `u16::from_be_bytes`
abbrev pub to_be_bytes : ℕ → Bytes → Bytes
to_be_bytes n rest = (n / 256 % 256) ∷ (n % 256) ∷ rest

abbrev pub from_be_bytes : ℕ → ℕ → ℕ
from_be_bytes hi lo = hi * 256 + lo

unfoldable pub encode : Option Bytes → Bytes → Result Bytes
encode none payload = ok (version ∷ flag_none ∷ payload)
encode (some rk) payload =
    if ltb max_rk_len (length rk)
    then err (too_long (length rk))
    else ok (version ∷ flag_rk ∷ to_be_bytes (length rk) (rk ++ payload))

-- The part after the length: the routing key and the caller's payload. The sum of a `u16` and 4
-- cannot overflow.
unfoldable pub decode_body : ℕ → Bytes → Result (Option Bytes × Bytes)
decode_body rk_len body =
    if ltb (length body) rk_len
    then err (body_truncated rk_len (length body))
    else if is_utf8 (take rk_len body)
    then ok (some (take rk_len body), drop rk_len body)
    else err invalid_utf8

unfoldable pub decode_keyed : Bytes → Result (Option Bytes × Bytes)
unfolding decode_body
decode_keyed (hi ∷ lo ∷ body) = decode_body (from_be_bytes hi lo) body
decode_keyed _ = err length_truncated

unfoldable pub decode : Bytes → Result (Option Bytes × Bytes)
unfolding decode_keyed
decode (v ∷ flag ∷ rest) =
    if v == version
    then if flag == flag_none
      then ok (none, rest)
      else if flag == flag_rk
      then decode_keyed rest
      else err (unknown_flag flag)
    else err (unsupported_version v)
decode short = err (truncated (length short))
