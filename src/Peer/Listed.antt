-- ===== src/Peer/Listed.antt =====
-- src/peer.rs: a node that is registered, in the replies that a listing reads.
use mcpg_plugin_cluster_redi.Common.{
  ℕ, ◌≡◌, refl, ap, sym, ◌∙◌, Bool, true, false, false≢true, Bool-cases, Option-cases, inl, inr,
  Option, none, some, List, [], ◌∷◌, map, ◌++◌, Bytes, codes, same, same_refl, same_iff,
  strip_prefix, strip_prefix-append, ltb, if◌then◌else◌, arith,
}
use mathlib.Core.List.{append_assoc}
use mcpg_plugin_cluster_redi.Redis.Zset.{Zset, score, by_score, by_score_insert, names, beyond}
use mcpg_plugin_cluster_redi.Keys.{peer_key}
use mcpg_plugin_cluster_redi.Peer.{PeerRegistration, Registration, decode_all, node_of}

abbrev pub mem : Bytes → List Bytes → Bool
mem id [] = false
mem id (i ∷ ids) = if same i id then true else mem id ids

abbrev pub is_listed : Bytes → List Registration → Bool
is_listed id [] = false
is_listed id ((i, reg) ∷ rs) = if same i id then true else is_listed id rs

pub is_listed-append :
    (id : Bytes) (rs ts : List Registration)
    → is_listed id rs ≡ true
    → is_listed id (rs ++ ts) ≡ true
is_listed-append id [] ts h = absurd (false≢true h)
is_listed-append id ((i, reg) ∷ rs) ts h = elim (Bool-cases (same i id)) [
  | inl p ↦ rw p refl
  | inr p ↦ rw p (is_listed-append id rs ts (rw p at h))
]

mem-by_score_insert :
    (id m : Bytes) (n : ℕ) (z : Zset)
    → mem id (names (by_score_insert m n z)) ≡ (if same m id then true else mem id (names z))
unfolding by_score_insert names
mem-by_score_insert id m n [] = refl
mem-by_score_insert id m n ((k, x) ∷ z) = ground (arith, mem-by_score_insert id m n z)

mem-by_score : (id : Bytes) (z : Zset) → mem id (names (by_score z)) ≡ mem id (names z)
unfolding by_score names
mem-by_score id [] = refl
mem-by_score id ((m, n) ∷ z) =
    mem-by_score_insert id m n (by_score z)
    ∙ ap (λ (b : Bool). if same m id then true else b) (mem-by_score id z)

mem-beyond :
    (id : Bytes) (top n : ℕ) (z : Zset)
    → score id z ≡ some n
    → ltb top n ≡ true
    → mem id (names (beyond top z)) ≡ true
unfolding score beyond names
mem-beyond id top n [] e h = cc
mem-beyond id top n ((m, x) ∷ z) e h = ground (arith, mem-beyond id top n z)

-- A member of the peer set whose time has not come is among the ids that a listing reads.
pub mem-live :
    (id : Bytes) (top n : ℕ) (z : Zset)
    → score id z ≡ some n
    → ltb top n ≡ true
    → mem id (names (by_score (beyond top z))) ≡ true
mem-live id top n z e h = mem-by_score id (beyond top z) ∙ mem-beyond id top n z e h

node_of-peer_key : (prefix node : Bytes) → node_of prefix (peer_key prefix node) ≡ node
unfolding node_of peer_key
node_of-peer_key prefix node =
    ap (λ (o : Option Bytes). elim o [ none ↦ peer_key prefix node | some id ↦ id ])
      (ap (strip_prefix (prefix ++ codes "peers/"))
          (sym (append_assoc prefix (codes "peers/") node))
        ∙ strip_prefix-append (prefix ++ codes "peers/") node)

module _ (to_json : PeerRegistration → Bytes) (from_json : Bytes → Option PeerRegistration)
    (prefix node : Bytes) (reg : PeerRegistration) (f : Bytes → Option Bytes) where
  -- The registrations that are decoded of the keys' values.
  abbrev decoded : List Bytes → List Registration
  decoded ids =
      decode_all to_json from_json prefix (map (peer_key prefix) ids)
        (map f (map (peer_key prefix) ids))

  -- A key more keeps what the others have.
  is_listed-kept :
      (k : Bytes) (ks : List Bytes) (v : Option Bytes) (vs : List (Option Bytes))
      → is_listed node (decode_all to_json from_json prefix ks vs) ≡ true
      → is_listed node (decode_all to_json from_json prefix (k ∷ ks) (v ∷ vs)) ≡ true
  unfolding decode_all
  is_listed-kept k ks none vs h = h
  is_listed-kept k ks (some raw) vs h = elim (Option-cases (from_json raw)) [
    | inl e ↦ rw (e, is_listed) h
    | inr (found, e) ↦
        rw (e, is_listed)
          (elim (Bool-cases (same (node_of prefix k) node)) [ inl p ↦ rw p refl | inr p ↦ rw p h ])
  ]

  pub is_listed-decode_all :
      (raw : Bytes) (ids : List Bytes)
      → f (peer_key prefix node) ≡ some raw
      → from_json raw ≡ some reg
      → mem node ids ≡ true
      → is_listed node (decoded ids) ≡ true
  unfolding decode_all
  is_listed-decode_all raw [] e j h = absurd (false≢true h)
  is_listed-decode_all raw (i ∷ ids) e j h = elim (Bool-cases (same i node)) [
    | inl p ↦
        let key = ap (peer_key prefix) ((same_iff i node).0 p) in
        rw (ap f key ∙ e) (
          rw j (
            rw (ap (node_of prefix) key ∙ node_of-peer_key prefix node) (rw (same_refl node) refl)))
    | inr p ↦
        is_listed-kept (peer_key prefix i) (map (peer_key prefix) ids) (f (peer_key prefix i))
          (map f (map (peer_key prefix) ids)) (is_listed-decode_all raw ids e j (rw p at h))
  ]
