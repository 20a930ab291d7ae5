-- ===== src/Peer/Members.antt =====
-- src/peer.rs: the members of the peer set, in a listing.
use mcpg_plugin_cluster_redi.Common.{
  ℕ, zero, suc, ◌≡◌, refl, ap, ◌∙◌, Bool, true, false, false≢true, Bool-cases, inl, inr, Option,
  none, some, List, [], ◌∷◌, map, ◌++◌, Bytes, ltb, ◌==◌, if◌then◌else◌, ◌-◌,
}
use mcpg_plugin_cluster_redi.Script.{Script, ok}
use mcpg_plugin_cluster_redi.Client.{
  Client, World, Result, done, fail, quiet, pipeline, pipeline-quiet, request, redis_err, rethrow,
  return, ◌>>=◌,
}
use mcpg_plugin_cluster_redi.Redis.View.{View, held, text, IsSorted, members}
use mcpg_plugin_cluster_redi.Redis.Zset.{score, by_score, names, beyond}
use mcpg_plugin_cluster_redi.Redis.Commands.Laws.{text_of}
use mcpg_plugin_cluster_redi.Redis.Commands.Laws.Ranges.{
  zrangebyscore_beyond_lem, zremrangebyscore_upto_lem, mget_lem,
}
use mcpg_plugin_cluster_redi.Redis.Server.{Server, reply_of}
use mcpg_plugin_cluster_redi.Keys.{peer_key, peers_index_key}
use mcpg_plugin_cluster_redi.Keys.Apart.{peers_index-apart}
use mcpg_plugin_cluster_redi.Peer.{
  PeerRegistration, Registration, LegacyPeerScan, both, decode_all, read_registrations, scan_keys,
  fresh_scan, peers_pattern, registrations_at, registrations, list_registrations, older,
}
use mcpg_plugin_cluster_redi.Peer.Listed.{
  mem, is_listed, is_listed-append, mem-live, is_listed-decode_all,
}

-- An operation that is answered, and leaves a quiet world.
record Answers {S A : Type 0} (p : Result A × World S) (now : ℕ) (b : Bool) : Type 0 where
  value : A
  store : S
  there : p ≡ (done value, quiet store now b)

Answers-bind :
    {S A B : Type 0} {p : Result A × World S} {now : ℕ} {b : Bool} (f : A → Client S B)
    → Answers p now b
    → ((a : A) (s : S) → Answers (f a (quiet s now b)) now b)
    → Answers (rethrow p f) now b
Answers-bind f h k =
    let next = k h.value h.store in
    record {
      value = next.value;
      store = next.store;
      there = ap (λ x. rethrow x f) h.there ∙ next.there;
    }

module _ (r : Server) (to_json : PeerRegistration → Bytes)
    (from_json : Bytes → Option PeerRegistration) (now : ℕ) (b : Bool) where
  open r use {Store, commands, codec, view, laws}

  read_registrations-lem :
      (prefix k : Bytes) (ks : List Bytes) (s : Store)
      → read_registrations to_json from_json commands prefix (k ∷ ks) (quiet s now b) ≡ (
        done (
            decode_all to_json from_json prefix
              (k ∷ ks)
              (map (λ j. text_of ((view s).at j)) (k ∷ ks))),
        quiet (commands.mget (k ∷ ks) s).1 now b,
      )
  unfolding read_registrations
  read_registrations-lem prefix k ks s =
      let (replied, left) =
        reply_of s (laws.mget_law (k ∷ ks)) (mget_lem codec (k ∷ ks) (view s)) in
      rw pipeline-quiet (rw replied refl)

  Answers-read :
      (prefix : Bytes) (ks : List Bytes) (s : Store)
      → Answers (read_registrations to_json from_json commands prefix ks (quiet s now b)) now b
  unfolding read_registrations
  Answers-read prefix [] s = record { value = []; store = s; there = refl }
  Answers-read prefix (k ∷ ks) s = record {
    value =
        decode_all to_json from_json prefix (k ∷ ks) (map (λ j. text_of ((view s).at j)) (k ∷ ks));
    store = (commands.mget (k ∷ ks) s).1;
    there = read_registrations-lem prefix k ks s;
  }

  module _ (scan : ℕ → Bytes → Script Store (ℕ × List Bytes))
      (found : ℕ → Bytes → Store → ℕ × List Bytes)
      (scans : (cursor : ℕ) (pattern : Bytes) (s : Store)
        → scan cursor pattern s ≡ (ok (found cursor pattern s), s)) where
    scanned :
        (cursor : ℕ) (pattern : Bytes) (s : Store)
        → Answers (request redis_err (scan cursor pattern) (quiet s now b)) now b
    scanned cursor pattern s = record {
      value = found cursor pattern s;
      store = s;
      there = rw pipeline-quiet (rw (scans cursor pattern s) refl);
    }

    Answers-scan_keys :
        (pattern : Bytes) (fuel cursor : ℕ) (keys : List Bytes) (s : Store)
        → Answers
            (scan_keys to_json from_json commands scan pattern fuel cursor keys (quiet s now b))
            now
            b
    unfolding scan_keys
    Answers-scan_keys pattern zero cursor keys s = record { value = keys; store = s; there = refl }
    Answers-scan_keys pattern (suc fuel) cursor keys s =
        Answers-bind
          (λ step.
            if step.0 == 0
            then return (keys ++ step.1)
            else scan_keys to_json from_json commands scan pattern fuel step.0 (keys ++ step.1))
          (scanned cursor pattern s)
          (λ step s'. elim (Bool-cases (step.0 == 0)) [
            | inl p ↦ simp p (record { value = keys ++ step.1; store = s'; there = refl })
            | inr p ↦ simp p (Answers-scan_keys pattern fuel step.0 (keys ++ step.1) s')
          ])

    Answers-fresh_scan :
        (fuel : ℕ) (prefix : Bytes) (legacy : LegacyPeerScan) (s : Store)
        → Answers
            (fresh_scan to_json from_json commands scan fuel prefix legacy (quiet s now b))
            now
            b
    unfolding fresh_scan
    Answers-fresh_scan fuel prefix legacy s =
        Answers-bind _ (Answers-scan_keys (peers_pattern prefix) fuel 0 [] s) (λ keys s'.
          Answers-bind _ (Answers-read prefix keys s') (λ rs s''. record {
            value = (rs, record legacy { last = some (now, rs) });
            store = s'';
            there = refl;
          }))

    Answers-registrations_at :
        (fuel : ℕ) (prefix : Bytes) (legacy : LegacyPeerScan) (s : Store)
        (last : Option (ℕ × List Registration))
        → Answers
            (registrations_at to_json from_json commands scan fuel prefix legacy now last
              (quiet s now b))
            now
            b
    Answers-registrations_at fuel prefix legacy s none = Answers-fresh_scan fuel prefix legacy s
    Answers-registrations_at fuel prefix legacy s (some (at, rs)) =
        elim (Bool-cases (ltb (now - at) legacy.max_age)) [
          | inl p ↦ simp p (record { value = (rs, legacy); store = s; there = refl })
          | inr p ↦ simp p (Answers-fresh_scan fuel prefix legacy s)
        ]

    Answers-registrations :
        (fuel : ℕ) (prefix : Bytes) (legacy : LegacyPeerScan) (s : Store)
        → Answers
            (registrations to_json from_json commands scan fuel prefix legacy (quiet s now b))
            now
            b
    unfolding registrations
    Answers-registrations fuel prefix legacy s =
        Answers-registrations_at fuel prefix legacy s legacy.last

    -- Whether a listing answers, and has the node.
    abbrev pub told : Bytes → Result (List Registration × LegacyPeerScan) × World Store → Bool
    told node (done (rs, legacy), w) = is_listed node rs
    told node (fail e, w) = false

    module _ (fuel : ℕ) (prefix node : Bytes) (legacy : LegacyPeerScan) (raw : Bytes)
        (reg : PeerRegistration) (valid : from_json raw ≡ some reg) where
      abbrev with_older :
          List Bytes → List Registration → Client Store (List Registration × LegacyPeerScan)
      with_older ids rs = do
        scanned ← registrations to_json from_json commands scan fuel prefix legacy
        return (rs ++ older to_json from_json commands scan ids scanned.0, scanned.1)

      told-read :
          (ids : List Bytes) (d : Option ℕ) (s : Store)
          → mem node ids ≡ true
          → (view s).at (peer_key prefix node) ≡ held (text raw) d
          → told node (
              rethrow
                (read_registrations to_json from_json commands prefix
                  (map (peer_key prefix) ids)
                  (quiet s now b))
                (with_older ids))
            ≡ true
      told-read [] d s there e = absurd (false≢true there)
      told-read (i ∷ ids) d s there e =
          let values : Bytes → Option Bytes = λ k. text_of ((view s).at k) in
          let rs : List Registration =
            decode_all to_json from_json prefix (map (peer_key prefix) (i ∷ ids))
              (map values (map (peer_key prefix) (i ∷ ids))) in
          let s' : Store = (commands.mget (map (peer_key prefix) (i ∷ ids)) s).1 in
          let rest = Answers-registrations fuel prefix legacy s' in
          ap (λ x. told node (rethrow x (with_older (i ∷ ids))))
            (read_registrations-lem prefix (peer_key prefix i) (map (peer_key prefix) ids) s)
          ∙ (ap
                (λ x. told node (
                  rethrow x
                    (λ y. return (rs ++ older to_json from_json commands scan (i ∷ ids) y.0, y.1))))
                rest.there
              ∙ is_listed-append node rs
                  (older to_json from_json commands scan (i ∷ ids) rest.value.0)
                  (is_listed-decode_all to_json from_json prefix node reg values raw (i ∷ ids)
                    (ap text_of e) valid there))

      -- What a listing needs of the keyspace to find the node.
      pub record Registered (v : View) : Type 0 where
        pub is_sorted : IsSorted (v.at (peers_index_key prefix))
        pub until : ℕ
        pub live : ltb now until ≡ true
        pub member : score node (members (v.at (peers_index_key prefix))) ≡ some until
        pub deadline : Option ℕ
        pub there : v.at (peer_key prefix node) ≡ held (text raw) deadline

      pub list_registrations-told :
          (s : Store)
          → Registered (view s)
          → told node (
              list_registrations to_json from_json commands scan fuel prefix legacy (quiet s now b))
            ≡ true
      unfolding list_registrations pipeline both
      list_registrations-told s g =
          let index = peers_index_key prefix in
          let (ranged, same_view) =
            reply_of s (laws.zrangebyscore_beyond_law index now)
              (zrangebyscore_beyond_lem codec index now (view s) g.is_sorted) in
          let s' : Store = (commands.zrangebyscore_beyond index now s).1 in
          let (trimmed, after) =
            reply_of s' (laws.zremrangebyscore_upto_law index now)
              (zremrangebyscore_upto_lem codec index now (view s') (rw same_view g.is_sorted)) in
          let s'' : Store = (commands.zremrangebyscore_upto index now s').1 in
          let kept : (view s'').at (peer_key prefix node) ≡ held (text raw) g.deadline =
            ap (λ (v : View). v.at (peer_key prefix node)) after
            ∙ (rw (peers_index-apart prefix node)
                (ap (λ (v : View). v.at (peer_key prefix node)) same_view ∙ g.there)) in
          rw ranged (
            rw trimmed (
              told-read (names (by_score (beyond now (members ((view s).at index))))) g.deadline s''
                (mem-live node now g.until (members ((view s).at index)) g.member g.live) kept))
