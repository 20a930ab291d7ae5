-- ===== src/PubSub/Delivery.antt =====
-- src/pubsub.rs: what is published, and what a subscriber is sent of it.
use mcpg_plugin_cluster_redi.Common.{
  ◌≡◌, refl, ap, sym, ◌∙◌, Option, none, some, List, [], ◌∷◌, Bytes, if◌then◌else◌, length, ltb,
  Bool-cases, inl, inr,
}
use mcpg_plugin_cluster_redi.Envelope
use mcpg_plugin_cluster_redi.Envelope.{encode, decode, max_rk_len, too_long}
use mcpg_plugin_cluster_redi.Envelope.RoundTrip.{IsStr, decode-encode, then_decode, too_long_or}
use mcpg_plugin_cluster_redi.PubSub.{PublishedMessage, passes, forward, subscribe_async}

abbrev pub Sent : Type 0
Sent = List (Option Bytes × Bytes)

-- The messages on the wire are those that `encode` wrote.
abbrev pub OnWire : Sent → List Bytes → Type 0
OnWire [] [] = Unit {0}
OnWire ((rk, payload) ∷ sent) (wire ∷ wires) =
    IsStr rk × (encode rk payload ≡ Envelope.ok wire) × OnWire sent wires
OnWire [] (wire ∷ wires) = ⊥
OnWire (s ∷ sent) [] = ⊥

-- The messages that pass the filter.
abbrev pub received : Option Bytes → Bytes → Bytes → Sent → List PublishedMessage
received filter topic node_id [] = []
received filter topic node_id ((rk, payload) ∷ sent) =
    let rest = received filter topic node_id sent in
    if passes filter rk
    then record { topic = topic; routing_key = rk; payload = payload; from_node = node_id } ∷ rest
    else rest

fits :
    (rk : Option Bytes) (payload wire : Bytes)
    → encode rk payload ≡ Envelope.ok wire
    → too_long_or rk (Envelope.ok (rk, payload)) ≡ Envelope.ok (rk, payload)
unfolding encode
fits none payload wire h = refl
fits (some rk) payload wire h = elim (Bool-cases (ltb max_rk_len (length rk))) [
  | inl long ↦
      let bad : ◌≡◌ {A = Envelope.Result Bytes} (Envelope.err (too_long (length rk)))
          (Envelope.ok wire) =
        rw long at h in
      cc
  | inr short ↦ rw short
]

decode_wire :
    (rk : Option Bytes) (payload wire : Bytes)
    → IsStr rk
    → encode rk payload ≡ Envelope.ok wire
    → decode wire ≡ Envelope.ok (rk, payload)
decode_wire rk payload wire valid h =
    ap then_decode (sym h) ∙ (decode-encode rk payload valid ∙ fits rk payload wire h)

-- A subscriber that is brought the wire messages of a sequence of publications, with routing keys
-- in UTF-8 or none, is sent those that its filter passes, each as it was published, in order: all
-- of them without a filter, and with one those whose routing key is that of the filter.
pub subscribe_async-sent :
    (filter : Option Bytes) (topic node_id : Bytes) (sent : Sent) (wires : List Bytes)
    → OnWire sent wires
    → subscribe_async filter topic node_id wires ≡ received filter topic node_id sent
unfolding subscribe_async forward
subscribe_async-sent filter topic node_id [] [] h = refl
subscribe_async-sent filter topic node_id [] (w ∷ ws) h = absurd h
subscribe_async-sent filter topic node_id (s ∷ sent) [] h = absurd h
subscribe_async-sent filter topic node_id ((rk, payload) ∷ sent) (wire ∷ wires) (valid, e, h) =
    rw (decode_wire rk payload wire valid e) (elim (Bool-cases (passes filter rk)) [
      | inl p ↦ rw p (rw (subscribe_async-sent filter topic node_id sent wires h))
      | inr p ↦ rw p (rw (subscribe_async-sent filter topic node_id sent wires h))
    ])
