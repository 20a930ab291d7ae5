-- ===== src/Envelope/RoundTrip.antt =====
-- src/envelope.rs: encoding and decoding, each after the other.
use mcpg_plugin_cluster_redi.Common.{
  ℕ, ◌+◌, ◌*◌, ◌/◌, ◌%◌, ◌<◌, ◌≤◌, ◌≡◌, refl, true, false, Option, none, some, Bytes, [], ◌∷◌, ◌++◌,
  ltb, ◌==◌, if◌then◌else◌, length, take, drop, arith, length-append, take-append, drop-append,
  take-append-drop, length-take, Bool-cases, inl, inr,
}
use mcpg_plugin_cluster_redi.Envelope.Utf8.{is_utf8}
use mcpg_plugin_cluster_redi.Envelope.{
  version, flag_rk, max_rk_len, Result, ok, err, too_long, to_be_bytes, from_be_bytes, encode,
  decode, decode_body, decode_keyed,
}

-- `&str`: valid UTF-8
abbrev pub IsStr : Option Bytes → Type 0
IsStr none = Unit {0}
IsStr (some rk) = is_utf8 rk ≡ true

abbrev pub IsBytes : Bytes → Type 0
IsBytes [] = Unit {0}
IsBytes (b ∷ bs) = (b < 256) × IsBytes bs

-- `?`
abbrev pub then_decode : Result Bytes → Result (Option Bytes × Bytes)
then_decode (ok wire) = decode wire
then_decode (err e) = err e

abbrev pub too_long_or :
    Option Bytes → Result (Option Bytes × Bytes) → Result (Option Bytes × Bytes)
too_long_or none r = r
too_long_or (some rk) r = if ltb max_rk_len (length rk) then err (too_long (length rk)) else r

body_back :
    (rk payload : Bytes)
    → is_utf8 rk ≡ true
    → decode_body (length rk) (rk ++ payload) ≡ ok (some rk, payload)
unfolding decode_body
body_back rk payload valid = rw (not_short, take-append rk payload, drop-append rk payload, valid)
  where
    not_short : ltb (length (rk ++ payload)) (length rk) ≡ false
    not_short = ground (arith, length-append rk payload)

be_bytes_back : (n : ℕ) → n ≤ max_rk_len → from_be_bytes (n / 256 % 256) (n % 256) ≡ n
be_bytes_back n h = omega arith

-- Decoding what `encode` wrote gives back the routing key, or its absence, and the payload, if the
-- key is UTF-8; `encode` refuses a routing key of more than 65535 bytes, and nothing else.
pub decode-encode :
    (rk : Option Bytes) (payload : Bytes)
    → IsStr rk
    → then_decode (encode rk payload) ≡ too_long_or rk (ok (rk, payload))
unfolding encode decode
decode-encode none payload valid = refl
decode-encode (some rk) payload valid = elim (Bool-cases (ltb max_rk_len (length rk))) [
  | inl long ↦ rw long
  | inr fits ↦ rw fits (rw (be_bytes_back (length rk) (ground arith)) (body_back rk payload valid))
]

-- What `decode_body` accepts is the split of the body at the length that stands before it.
body_parts :
    (n : ℕ) (body : Bytes) (rk : Option Bytes) (payload : Bytes)
    → decode_body n body ≡ ok (rk, payload)
    → (rk ≡ some (take n body)) × (payload ≡ drop n body) × (n ≤ length body)
unfolding decode_body
body_parts n body rk payload h = ground arith

take-length : (n : ℕ) (body : Bytes) → n ≤ length body → length (take n body) ≡ n
take-length n body h = omega (arith, length-take n body)

be_bytes_same :
    (hi lo : ℕ) (rest : Bytes)
    → hi < 256
    → lo < 256
    → to_be_bytes (from_be_bytes hi lo) rest ≡ hi ∷ lo ∷ rest
be_bytes_same hi lo rest h k =
    let high : (hi * 256 + lo) / 256 % 256 ≡ hi = omega arith in
    let low : (hi * 256 + lo) % 256 ≡ lo = omega arith in rw (high, low)

encode_parts :
    (hi lo : ℕ) (body : Bytes)
    → hi < 256
    → lo < 256
    → from_be_bytes hi lo ≤ length body
    → encode (some (take (from_be_bytes hi lo) body)) (drop (from_be_bytes hi lo) body)
      ≡ ok (version ∷ flag_rk ∷ hi ∷ lo ∷ body)
unfolding encode
encode_parts hi lo body h k fits =
    let small : ltb max_rk_len (from_be_bytes hi lo) ≡ false = ground arith in
    rw (take-length (from_be_bytes hi lo) body fits) (
      rw small (
        rw
          (be_bytes_same hi lo (take (from_be_bytes hi lo) body ++ drop (from_be_bytes hi lo) body)
            h k)
          (rw (take-append-drop (from_be_bytes hi lo) body))))

keyed_back :
    (rest : Bytes) (rk : Option Bytes) (payload : Bytes)
    → IsBytes rest
    → decode_keyed rest ≡ ok (rk, payload)
    → encode rk payload ≡ ok (version ∷ flag_rk ∷ rest)
unfolding decode_keyed
keyed_back [] rk payload small h = cc
keyed_back (hi ∷ []) rk payload small h = cc
keyed_back (hi ∷ lo ∷ body) rk payload (high, (low, _)) h =
    let (key, left, fits) = body_parts (from_be_bytes hi lo) body rk payload h in
    rw (key, left) (encode_parts hi lo body high low fits)

-- Every byte string that `decode` accepts is the one that `encode` writes for what it decodes to.
pub encode-decode :
    (wire : Bytes) (rk : Option Bytes) (payload : Bytes)
    → IsBytes wire
    → decode wire ≡ ok (rk, payload)
    → encode rk payload ≡ ok wire
unfolding decode
encode-decode [] rk payload small h = cc
encode-decode (v ∷ []) rk payload small h = cc
encode-decode (v ∷ flag ∷ rest) rk payload (_, (_, small)) h = elim (Bool-cases (v == version)) [
  | inr q ↦ absurd (ground arith)
  | inl q ↦ elim (Bool-cases (flag == 0)) [
    | inl z ↦ unfold encode in ground arith
    | inr nz ↦ elim (Bool-cases (flag == 1)) [
      | inr q ↦ absurd (ground arith)
      | inl one ↦ ground (arith, keyed_back rest rk payload small)
    ]
  ]
]
