-- ===== src/Peer/Watch.antt =====
-- src/lib.rs, `watch_peers`: what one poll sends to a watcher, from the peers of the poll before it.
pub mod Polls
use mcpg_plugin_cluster_redi.Common.{
  ◌≡◌, refl, sym, ◌∙◌, Bool, true, false, List, [], ◌∷◌, Bytes, ◌++◌, same, same_iff, if◌then◌else◌,
  arith, Bool-cases, inl, inr,
}
use mcpg_plugin_cluster_redi.Redis.Zset.{lex_lt}
use mcpg_plugin_cluster_redi.Peer.{ClusterPeer}

pub data PeerEvent : Type 0 where
  joined : ClusterPeer → PeerEvent
  left : (node_id : Bytes) → PeerEvent

abbrev pub is_empty_id : Bytes → Bool
is_empty_id [] = true
is_empty_id (b ∷ id) = false

-- A map from node ids in their order: of two peers with one id the later one stays.
unfoldable pub insert_peer : ClusterPeer → List ClusterPeer → List ClusterPeer
insert_peer p [] = p ∷ []
insert_peer p (q ∷ qs) =
    let rest = insert_peer p qs in
    if same q.node_id p.node_id
    then p ∷ qs
    else if lex_lt p.node_id q.node_id
    then p ∷ q ∷ qs
    else q ∷ rest

unfoldable pub by_node_id : List ClusterPeer → List ClusterPeer → List ClusterPeer
by_node_id acc [] = acc
by_node_id acc (p ∷ ps) = by_node_id (if is_empty_id p.node_id then acc else insert_peer p acc) ps

unfoldable pub has_peer : List ClusterPeer → Bytes → Bool
has_peer [] id = false
has_peer (p ∷ ps) id = if same p.node_id id then true else has_peer ps id

unfoldable pub joined_events : List ClusterPeer → List ClusterPeer → List PeerEvent
joined_events last [] = []
joined_events last (p ∷ ps) =
    let rest = joined_events last ps in if has_peer last p.node_id then rest else joined p ∷ rest

unfoldable pub left_events : List ClusterPeer → List ClusterPeer → List PeerEvent
left_events cur [] = []
left_events cur (p ∷ ps) =
    let rest = left_events cur ps in if has_peer cur p.node_id then rest else left p.node_id ∷ rest

-- The events of a poll, and the peers that the next one is compared with.
unfoldable pub poll : List ClusterPeer → List ClusterPeer → List PeerEvent × List ClusterPeer
poll last peers =
    let cur = by_node_id [] peers in (joined_events last cur ++ left_events cur last, cur)

-- Whether a watcher that follows the events takes the node for present.
abbrev pub follow : Bytes → Bool → List PeerEvent → Bool
follow id b [] = b
follow id b (joined p ∷ es) = follow id (if same p.node_id id then true else b) es
follow id b (left i ∷ es) = follow id (if same i id then false else b) es

pub follow-append :
    (id : Bytes) (b : Bool) (es fs : List PeerEvent)
    → follow id b (es ++ fs) ≡ follow id (follow id b es) fs
follow-append id b [] fs = refl
follow-append id b (joined p ∷ es) fs =
    follow-append id (if same p.node_id id then true else b) es fs
follow-append id b (left i ∷ es) fs = follow-append id (if same i id then false else b) es fs

follow_joined-present :
    (id : Bytes) (last ps : List ClusterPeer) → follow id true (joined_events last ps) ≡ true
unfolding joined_events
follow_joined-present id last [] = refl
follow_joined-present id last (p ∷ ps) = elim (Bool-cases (has_peer last p.node_id)) [
  | inl h ↦ rw h (follow_joined-present id last ps)
  | inr h ↦ rw h (ground (arith, follow_joined-present id last ps))
]

-- After the joined events a node is present if it was, or is now.
follow-joined :
    (id : Bytes) (last ps : List ClusterPeer)
    → has_peer last id ≡ false
    → follow id false (joined_events last ps) ≡ has_peer ps id
unfolding joined_events has_peer
follow-joined id last [] h = refl
follow-joined id last (p ∷ ps) h = elim (Bool-cases (same p.node_id id)) [
  | inl q ↦ ground (arith, same_iff p.node_id id, follow_joined-present id last ps)
  | inr q ↦ ground (arith, follow-joined id last ps h)
]

follow_left-absent :
    (id : Bytes) (cur ps : List ClusterPeer) → follow id false (left_events cur ps) ≡ false
unfolding left_events
follow_left-absent id cur [] = refl
follow_left-absent id cur (p ∷ ps) = ground (arith, follow_left-absent id cur ps)

follow_left-kept :
    (id : Bytes) (cur ps : List ClusterPeer)
    → has_peer cur id ≡ true
    → follow id true (left_events cur ps) ≡ true
unfolding left_events
follow_left-kept id cur [] h = refl
follow_left-kept id cur (p ∷ ps) h =
    ground (arith, same_iff p.node_id id, follow_left-kept id cur ps h)

follow_left-gone :
    (id : Bytes) (cur ps : List ClusterPeer)
    → has_peer cur id ≡ false
    → has_peer ps id ≡ true
    → follow id true (left_events cur ps) ≡ false
unfolding left_events has_peer
follow_left-gone id cur [] h k = sym k
follow_left-gone id cur (p ∷ ps) h k = elim (Bool-cases (same p.node_id id)) [
  | inl q ↦ ground (arith, same_iff p.node_id id, follow_left-absent id cur ps)
  | inr q ↦ ground (arith, follow_left-gone id cur ps h)
]

follow-events :
    (last cur : List ClusterPeer) (id : Bytes)
    → follow id (has_peer last id) (joined_events last cur ++ left_events cur last)
      ≡ has_peer cur id
follow-events last cur id =
    rw (follow-append id (has_peer last id) (joined_events last cur) (left_events cur last))
      (elim (Bool-cases (has_peer last id)) [
        | inl h ↦ rw h (
            rw (follow_joined-present id last cur) (elim (Bool-cases (has_peer cur id)) [
              | inl k ↦ rw k (follow_left-kept id cur last k)
              | inr k ↦ rw k (follow_left-gone id cur last k h)
            ]))
        | inr h ↦ rw h (
            rw (follow-joined id last cur h) (elim (Bool-cases (has_peer cur id)) [
              | inl k ↦ rw k (follow_left-kept id cur last k)
              | inr k ↦ rw k (follow_left-absent id cur last)
            ]))
      ])

has_peer-insert_peer :
    (p : ClusterPeer) (ps : List ClusterPeer) (id : Bytes)
    → has_peer (insert_peer p ps) id ≡ (if same p.node_id id then true else has_peer ps id)
unfolding has_peer insert_peer
has_peer-insert_peer p [] id = refl
has_peer-insert_peer p (q ∷ qs) id = ground (
  arith,
  same_iff q.node_id p.node_id,
  same_iff q.node_id id,
  same_iff p.node_id id,
  has_peer-insert_peer p qs id,
)

-- The peers that were listed, but for one without an id.
abbrev pub listed : List ClusterPeer → Bytes → Bool
listed ps [] = false
listed ps (b ∷ id) = has_peer ps (b ∷ id)

has_peer-by_node_id :
    (acc ps : List ClusterPeer) (b : _) (id : Bytes)
    → has_peer (by_node_id acc ps) (b ∷ id)
      ≡ (if has_peer acc (b ∷ id) then true else has_peer ps (b ∷ id))
unfolding has_peer by_node_id same
has_peer-by_node_id acc [] b id = ground arith
has_peer-by_node_id acc (p ∷ ps) b id =
    added p.node_id refl (λ start. has_peer-by_node_id start ps b id)
  where
    added :
        (i : Bytes)
        → p.node_id ≡ i
        → ((start : List ClusterPeer)
            → has_peer (by_node_id start ps) (b ∷ id)
              ≡ (if has_peer start (b ∷ id) then true else has_peer ps (b ∷ id)))
        → has_peer
            (by_node_id (if is_empty_id p.node_id then acc else insert_peer p acc) ps)
            (b ∷ id)
          ≡ (if has_peer acc (b ∷ id)
              then true
              else if same p.node_id (b ∷ id)
              then true
              else has_peer ps (b ∷ id))
    added [] e rest = rw e (rest acc)
    added (x ∷ i) e rest =
        let new : _ = has_peer-insert_peer p acc (b ∷ id) in
        rw e (ground (arith, rest (insert_peer p acc), new, same_iff (x ∷ i) (b ∷ id), e))

no_empty :
    (acc ps : List ClusterPeer) → has_peer acc [] ≡ false → has_peer (by_node_id acc ps) [] ≡ false
unfolding by_node_id same
no_empty acc [] h = h
no_empty acc (p ∷ ps) h = added p.node_id refl (λ start. no_empty start ps)
  where
    added :
        (i : Bytes)
        → p.node_id ≡ i
        → ((start : List ClusterPeer)
            → has_peer start [] ≡ false
            → has_peer (by_node_id start ps) [] ≡ false)
        → has_peer (by_node_id (if is_empty_id p.node_id then acc else insert_peer p acc) ps) []
          ≡ false
    added [] e rest = rw e (rest acc h)
    added (x ∷ i) e rest =
        let full : is_empty_id p.node_id ≡ false = rw e in
        let h' : has_peer (insert_peer p acc) [] ≡ false = has_peer-insert_peer p acc [] ∙ rw e h in
        rw full (rest (insert_peer p acc) h')

has_peer-listed :
    (peers : List ClusterPeer) (id : Bytes) → has_peer (by_node_id [] peers) id ≡ listed peers id
has_peer-listed peers [] = no_empty [] peers (unfold has_peer in refl)
has_peer-listed peers (b ∷ id) = unfold has_peer in has_peer-by_node_id [] peers b id

-- A watcher that follows the events of a poll, from the peers of the poll before, takes a node for
-- present if and only if this poll listed a peer with its id and the id is not empty, and the next
-- poll is compared with just these nodes.
pub follow-poll :
    (last peers : List ClusterPeer) (id : Bytes)
    → (follow id (has_peer last id) (poll last peers).0 ≡ listed peers id)
      × (has_peer (poll last peers).1 id ≡ listed peers id)
unfolding poll
follow-poll last peers id = (
  follow-events last (by_node_id [] peers) id ∙ has_peer-listed peers id,
  has_peer-listed peers id,
)
