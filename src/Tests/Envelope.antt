-- ===== src/Tests/Envelope.antt =====
-- The theorems on the wire envelope at concrete inputs.
use mcpg_plugin_cluster_redi.Common.{◌≡◌, refl, some, ◌∷◌, codes, arith}
use mcpg_plugin_cluster_redi.Envelope.{ok, encode, decode}
use mcpg_plugin_cluster_redi.Envelope.RoundTrip.{decode-encode, encode-decode, then_decode}

decode-encode_example :
    then_decode (encode (some (codes "rk")) (codes "pay")) ≡ ok (some (codes "rk"), codes "pay")
unfolding mcpg_plugin_cluster_redi.Envelope.Utf8.is_utf8
decode-encode_example = decode-encode (some (codes "rk")) (codes "pay") refl

encode-decode_example : encode (some (codes "k")) (codes "p") ≡ ok (1 ∷ 1 ∷ 0 ∷ 1 ∷ codes "kp")
unfolding decode mcpg_plugin_cluster_redi.Envelope.Utf8.is_utf8
encode-decode_example =
    encode-decode (1 ∷ 1 ∷ 0 ∷ 1 ∷ codes "kp") (some (codes "k")) (codes "p")
      (omega arith, (omega arith, (omega arith, (omega arith, (omega arith, (omega arith, tt))))))
      refl
