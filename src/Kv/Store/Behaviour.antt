-- ===== src/Kv/Store/Behaviour.antt =====
-- src/state/kv.rs: the write operations and what a caller sees of them, while nothing else happens.
use mcpg_plugin_cluster_redi.Common.{
  ℕ, ◌<◌, ◌^◌, ◌≡◌, refl, ap, sym, ◌∙◌, Bool, true, false, not, Option, none, some, Bytes, ◌∷◌,
  arith, same_refl, ltb, if◌then◌else◌, subst, inl, inr, ◌⊎◌,
}
use mcpg_plugin_cluster_redi.Script.{ok}
use mcpg_plugin_cluster_redi.Redis.View.{
  View, Entry, missing, held, text, sorted, put as write, IsText, Entry-cases,
}
use mcpg_plugin_cluster_redi.Redis.Commands.Laws.{count, without_member}
use mcpg_plugin_cluster_redi.Redis.Server.{Server, reply_of}
use mcpg_plugin_cluster_redi.Client.{done, quiet, pipeline-quiet}
use mcpg_plugin_cluster_redi.Keys.{RedisKv, with_connection_manager, full_key}
use mcpg_plugin_cluster_redi.Kv.Simulate.{
  Simulates-set_script, Simulates-del_script, Simulates-expire_script,
}
use mcpg_plugin_cluster_redi.Kv.Effect.{
  Apart, new_deadline, ttl_entry, written, set_script_lem, set_script_absent, set_script_taken,
  del_script_lem, InTime,
}
use mcpg_plugin_cluster_redi.Kv.Effect.Ttl.{expire_script_live, expire_script_absent}
use mcpg_plugin_cluster_redi.Kv.Index.{Apart_of_IsIndexed, same_sym}
use mcpg_plugin_cluster_redi.Kv.Scripts.{set_script, del_script}
use mcpg_plugin_cluster_redi.Kv.Store.{KvEntry, ttl_ms, get, put, put_if_absent, delete, expire}
use mcpg_plugin_cluster_redi.Kv.Store.Indexed.{Indexed, layout, full_key-is_data}
use mcpg_plugin_cluster_redi.Kv.Store.Read.{read, get-read}

abbrev pub is_missing : Entry → Bool
is_missing missing = true
is_missing (held x d) = false

abbrev pub expiring : Option ℕ → Option KvEntry → Option KvEntry
expiring d none = none
expiring d (some e) = some (record e { expires_at = d })

count-is_missing : (e : Entry) → ltb 0 (count e) ≡ not (is_missing e)
count-is_missing missing = refl
count-is_missing (held x d) = refl

module _ (r : Server) (c : ℕ) (p : Bytes) (s : r.Store) (inv : Indexed r c p s) (key : Bytes)
    (now : ℕ) (b : Bool) where
  open r use {Store, commands, codec, view, laws}

  abbrev pub kv : RedisKv
  kv = with_connection_manager (c ∷ p)

  abbrev pub full : Bytes
  full = full_key kv key

  pub apart : Apart full kv.index_key kv.expiry_key (view s)
  unfolding layout with_connection_manager
  apart = Apart_of_IsIndexed (layout c p) (view s) full inv (full_key-is_data c p key)

  pub is_text : IsText ((view s).at full)
  unfolding layout with_connection_manager
  is_text = inv.data_text full (full_key-is_data c p key)

  pub in_time : (ttl : ℕ) → ttl < 2 ^ 52 → InTime ttl (view s)
  in_time ttl small = omega (arith, inv.early)

  -- What `get` reads in a view where the data key was just written.
  read-written :
      (u : Store) (x : Bytes) (d : Option ℕ) (times : Entry)
      → view u ≡ written full kv.index_key kv.expiry_key (held (text x) d) times (view s)
      → (get commands kv key (quiet u now b)).0 ≡ done (read now (view s).clock (held (text x) d))
  read-written u x d times e =
      get-read r kv key u now b (subst IsText (sym at_key) tt)
      ∙ ap done (
          ap (λ (v : View). read now v.clock (v.at full)) e
          ∙ ap (read now (view s).clock) own_entry)
    where
      own_entry :
          (written full kv.index_key kv.expiry_key (held (text x) d) times (view s)).at full
          ≡ held (text x) d
      own_entry = rw (
        same_sym full kv.index_key apart.key_index,
        same_sym full kv.expiry_key apart.key_expiry,
        same_refl full,
      )

      at_key : (view u).at full ≡ held (text x) d
      at_key = ap (λ (v : View). v.at full) e ∙ own_entry

  expiring-read :
      {t : Option ℕ} (x : Bytes) (d : Option ℕ)
      → some (record { bytes = x; expires_at = t })
        ≡ expiring t (read now (view s).clock (held (text x) d))
  expiring-read x none = refl
  expiring-read x (some d) = refl

  read-gone :
      (u : Store)
      → view u
        ≡ write kv.expiry_key (without_member full ((view s).at kv.expiry_key)) (
            write kv.index_key
              (without_member full ((view s).at kv.index_key))
              (write full missing (view s)))
      → (get commands kv key (quiet u now b)).0 ≡ done none
  read-gone u e =
      get-read r kv key u now b (subst IsText (sym at_key) tt)
      ∙ ap (λ (x : Entry). done (read now (view u).clock x)) at_key
    where
      at_key : (view u).at full ≡ missing
      at_key =
          ap (λ (v : View). v.at full) e
          ∙ rw (
            same_sym full kv.expiry_key apart.key_expiry,
            same_sym full kv.index_key apart.key_index,
            same_refl full,
          )

  -- What `get` reads after a script that left the view alone.
  read-left :
      (u : Store)
      → view u ≡ view s
      → (get commands kv key (quiet u now b)).0 ≡ done (read now (view s).clock ((view s).at full))
  read-left u e =
      get-read r kv key u now b (subst (λ (v : View). IsText (v.at full)) (sym e) is_text)
      ∙ ap (λ (v : View). done (read now v.clock (v.at full))) e

  read-new_deadline :
      (x : Bytes) (ttl : ℕ)
      → read now (view s).clock (held (text x) (new_deadline (view s).clock ttl))
        ≡ some (record { bytes = x; expires_at = new_deadline now ttl })
  read-new_deadline x ttl = ground arith

  module _ (value : Bytes) (ttl : Option ℕ) (small : ttl_ms ttl < 2 ^ 52) where
    abbrev stored : Option KvEntry
    stored = some (record { bytes = value; expires_at = new_deadline now (ttl_ms ttl) })

    set_answer :
        (nx : Bool)
        → ((nx ≡ false) ⊎ ((view s).at full ≡ missing))
        → ((set_script commands full kv.index_key kv.expiry_key value (ttl_ms ttl) now nx s).0
            ≡ ok 1)
          × (view
                (set_script commands full kv.index_key kv.expiry_key value (ttl_ms ttl) now nx s).1
              ≡ written full kv.index_key kv.expiry_key
                  (held (text value) (new_deadline (view s).clock (ttl_ms ttl)))
                  (ttl_entry full (ttl_ms ttl) now ((view s).at kv.expiry_key))
                  (view s))
    set_answer false h =
        reply_of s
          (Simulates-set_script laws full kv.index_key kv.expiry_key value (ttl_ms ttl) now false)
          (set_script_lem codec apart value (ttl_ms ttl) now (in_time (ttl_ms ttl) small))
    set_answer true (inl h) = cc
    set_answer true (inr h) =
        reply_of s
          (Simulates-set_script laws full kv.index_key kv.expiry_key value (ttl_ms ttl) now true)
          (set_script_absent codec apart value (ttl_ms ttl) now (in_time (ttl_ms ttl) small) h)

    -- On a server that behaves as documented, under a key prefix that is not empty, from a store
    -- whose key index is complete and sweepable, with a TTL below 2^52 ms and when nothing else
    -- happens: `put_if_absent` answers whether the key was absent; a `get` then answers the new
    -- value if it was, and otherwise what was there before.
    pub get-put_if_absent :
        ((put_if_absent commands kv key value ttl (quiet s now b)).0
          ≡ done (is_missing ((view s).at full)))
        × ((get commands kv key (put_if_absent commands kv key value ttl (quiet s now b)).1).0
            ≡ done (
                if is_missing ((view s).at full)
                then stored
                else read now (view s).clock ((view s).at full)))
    unfolding put_if_absent
    get-put_if_absent = elim (Entry-cases ((view s).at full)) [
      | inl e ↦
          let (replied, left) = set_answer true (inr e) in
          rw e (
            rw pipeline-quiet (rw replied),
            rw pipeline-quiet (
                rw replied (
                  read-written _ value (new_deadline (view s).clock (ttl_ms ttl)) _ left
                  ∙ ap done (read-new_deadline value (ttl_ms ttl)))),
          )
      | inr (x, d, e) ↦
          let (replied, left) =
            reply_of s
              (Simulates-set_script laws full kv.index_key kv.expiry_key value (ttl_ms ttl) now
                true)
              (set_script_taken codec apart value (ttl_ms ttl) now x d (in_time (ttl_ms ttl) small)
                e) in
          let same_read = read-left _ left in
          (
            rw pipeline-quiet (rw (replied, e)),
            rw pipeline-quiet (rw replied (rw e (rw e at same_read))),
          )
    ]

    -- On a server that behaves as documented, under a key prefix that is not empty, from a store
    -- whose key index is complete and sweepable, with a TTL below 2^52 ms and when nothing else
    -- happens: `expire` answers whether the key is live, keeps its value, and replaces its
    -- deadline by the TTL from now, or by none.
    pub get-expire :
        ((expire commands kv key ttl (quiet s now b)).0
          ≡ done (not (is_missing ((view s).at full))))
        × ((get commands kv key (expire commands kv key ttl (quiet s now b)).1).0
            ≡ done (
                expiring
                  (new_deadline now (ttl_ms ttl))
                  (read now (view s).clock ((view s).at full))))
    unfolding expire
    get-expire = elim (Entry-cases ((view s).at full)) [
      | inl e ↦
          let (replied, left) =
            reply_of s
              (Simulates-expire_script laws full kv.index_key kv.expiry_key (ttl_ms ttl) now)
              (expire_script_absent codec apart (ttl_ms ttl) now e) in
          let same_read = read-left _ left in
          (
            rw pipeline-quiet (rw (replied, e)),
            rw pipeline-quiet (rw replied (rw e (rw e at same_read))),
          )
      | inr (text x, d, e) ↦
          let (replied, left) =
            reply_of s
              (Simulates-expire_script laws full kv.index_key kv.expiry_key (ttl_ms ttl) now)
              (expire_script_live codec apart (ttl_ms ttl) now (text x) d
                (in_time (ttl_ms ttl) small) e) in
          (
            rw pipeline-quiet (rw (replied, e)),
            rw pipeline-quiet (
                rw replied (
                  read-written _ x (new_deadline (view s).clock (ttl_ms ttl)) _ left
                  ∙ ap done (read-new_deadline x (ttl_ms ttl) ∙ rw e (expiring-read x d)))),
          )
      | inr (sorted z, d, e) ↦ absurd (subst IsText e is_text)
    ]

  del_answer :
      ((del_script commands full kv.index_key kv.expiry_key s).0 ≡ ok (count ((view s).at full)))
      × (view (del_script commands full kv.index_key kv.expiry_key s).1
          ≡ write kv.expiry_key (without_member full ((view s).at kv.expiry_key)) (
              write kv.index_key
                (without_member full ((view s).at kv.index_key))
                (write full missing (view s))))
  del_answer =
      reply_of s (Simulates-del_script laws full kv.index_key kv.expiry_key)
        (del_script_lem codec apart)

  -- On a server that behaves as documented, under a key prefix that is not empty, from a store
  -- whose key index is complete and sweepable, when nothing else happens: `delete` answers whether
  -- the key was live, and a `get` then finds nothing.
  pub get-delete :
      ((delete commands kv key (quiet s now b)).0 ≡ done (not (is_missing ((view s).at full))))
      × ((get commands kv key (delete commands kv key (quiet s now b)).1).0 ≡ done none)
  unfolding delete
  get-delete =
      let (replied, left) = del_answer in
      (
        rw pipeline-quiet (rw replied (ap done (count-is_missing ((view s).at full)))),
        rw pipeline-quiet (rw replied (read-gone _ left)),
      )
