-- ===== src/Kv/Store/Counter.antt =====
-- src/state/kv.rs: `incr`, its answer and the counter after it.
use mcpg_plugin_cluster_redi.Common.{
  ℕ, ◌<◌, ◌^◌, ◌≡◌, refl, ap, ◌∙◌, Bool, true, false, Option, none, some, Bytes, ◌∷◌, if◌then◌else◌,
  subst, Bool-cases, inl, inr, same_refl,
}
use mcpg_plugin_cluster_redi.Common.Int.{ℤ, fits_i64, ◌+ℤ◌}
use mcpg_plugin_cluster_redi.Script.{ok, err, sentinel}
use mcpg_plugin_cluster_redi.Redis.View.{View}
use mcpg_plugin_cluster_redi.Redis.Commands.{Codec}
use mcpg_plugin_cluster_redi.Redis.Commands.Laws.{number_of}
use mcpg_plugin_cluster_redi.Redis.Server.{Server, reply_of}
use mcpg_plugin_cluster_redi.Client.{Result, done, fail, precondition, quiet, pipeline-quiet}
use mcpg_plugin_cluster_redi.Keys.{RedisKv, with_connection_manager, full_key}
use mcpg_plugin_cluster_redi.Kv.Simulate.{Simulates-incr_script}
use mcpg_plugin_cluster_redi.Kv.Effect.{Apart}
use mcpg_plugin_cluster_redi.Kv.Effect.Ttl.{incr_script_lem, incr_script_fails}
use mcpg_plugin_cluster_redi.Kv.Index.{same_sym}
use mcpg_plugin_cluster_redi.Kv.Scripts.{incr_script}
use mcpg_plugin_cluster_redi.Kv.Store.{ttl_ms, incr_err, incr}
use mcpg_plugin_cluster_redi.Kv.Store.Indexed.{Indexed}
use mcpg_plugin_cluster_redi.Kv.Store.Behaviour.{apart, in_time}

-- What a counter answers, and what it holds then: `n` is the number that it held (0 if it was
-- missing), or `none` if it held no integer. The answer goes through Lua, which has numbers up to 2^53
-- exactly.
abbrev pub sum_reply : Codec → Option ℤ → ℤ → Result ℤ
sum_reply codec none delta = fail precondition
sum_reply codec (some n) delta =
    if fits_i64 (n +ℤ delta) then done (codec.through_lua (n +ℤ delta)) else fail precondition

abbrev pub sum_left : Option ℤ → ℤ → Option ℤ
sum_left none delta = none
sum_left (some n) delta = if fits_i64 (n +ℤ delta) then some (n +ℤ delta) else some n

module _ (r : Server) (c : ℕ) (p : Bytes) (s : r.Store) (inv : Indexed r c p s) (key : Bytes)
    (now : ℕ) (b : Bool) where
  open r use {Store, commands, codec, view, laws}

  abbrev kv : RedisKv
  kv = with_connection_manager (c ∷ p)

  abbrev full : Bytes
  full = full_key kv key

  abbrev pub number : Store → Option ℤ
  number u = number_of codec ((view u).at full)

  apart' : Apart full kv.index_key kv.expiry_key (view s)
  apart' = apart r c p s inv key now b

  module _ (delta : ℤ) (ttl : Option ℕ) (small : ttl_ms ttl < 2 ^ 52) where
    incr_succeeds :
        (n : ℤ)
        → number s ≡ some n
        → fits_i64 (n +ℤ delta) ≡ true
        → ((incr_script commands full kv.index_key kv.expiry_key delta (ttl_ms ttl) now s).0
            ≡ ok (codec.through_lua (n +ℤ delta)))
          × (number
                (incr_script commands full kv.index_key kv.expiry_key delta (ttl_ms ttl) now s).1
              ≡ some (n +ℤ delta))
    incr_succeeds n e f =
        let (replied, left) =
          reply_of s
            (Simulates-incr_script laws full kv.index_key kv.expiry_key delta (ttl_ms ttl) now)
            (incr_script_lem codec apart' delta (ttl_ms ttl) now n
              (in_time r c p s inv key now b (ttl_ms ttl) small) e f) in
        (
          replied,
          ap (λ (v : View). number_of codec (v.at full)) left
              ∙ rw
                  (
                    same_sym full kv.index_key apart'.key_index,
                    same_sym full kv.expiry_key apart'.key_expiry,
                    same_refl full,
                  )
                  (codec.as_int-of_int (n +ℤ delta) f),
        )

    incr_refuses :
        ((n : ℤ) → number s ≡ some n → fits_i64 (n +ℤ delta) ≡ false)
        → ((incr_script commands full kv.index_key kv.expiry_key delta (ttl_ms ttl) now s).0
            ≡ err sentinel)
          × (view (incr_script commands full kv.index_key kv.expiry_key delta (ttl_ms ttl) now s).1
              ≡ view s)
    incr_refuses h =
        reply_of s
          (Simulates-incr_script laws full kv.index_key kv.expiry_key delta (ttl_ms ttl) now)
          (incr_script_fails codec apart' delta (ttl_ms ttl) now h)

    incr_number :
        (n : Option ℤ)
        → number s ≡ n
        → ((incr commands kv key delta ttl (quiet s now b)).0 ≡ sum_reply codec n delta)
          × (number (incr commands kv key delta ttl (quiet s now b)).1.store ≡ sum_left n delta)
    unfolding incr incr_err
    incr_number none e =
        let (replied, left) = incr_refuses (λ n h. cc (e, h)) in
        (
          rw pipeline-quiet (rw replied),
          rw pipeline-quiet (ap (λ (v : View). number_of codec (v.at full)) left ∙ e),
        )
    incr_number (some n) e = elim (Bool-cases (fits_i64 (n +ℤ delta))) [
      | inl f ↦
          let (replied, left) = incr_succeeds n e f in
          (rw pipeline-quiet (rw (replied, f)), rw pipeline-quiet (rw (left, f)))
      | inr f ↦
          let (replied, left) =
            incr_refuses (λ m h.
              let q : n ≡ m = cc (e, h) in subst (λ i. fits_i64 (i +ℤ delta) ≡ false) q f) in
          (
            rw pipeline-quiet (rw (replied, f)),
            rw pipeline-quiet (rw f (ap (λ (v : View). number_of codec (v.at full)) left ∙ e)),
          )
    ]

    -- On a server that behaves as documented, under a key prefix that is not empty, from a store
    -- whose key index is complete and sweepable, with a TTL below 2^52 ms and when nothing else
    -- happens: `incr` leaves the sum in the counter and answers it as Lua passes it on (the sum
    -- itself up to 2^53 in size), if the key is missing or holds an integer and the sum is an i64;
    -- otherwise it answers a precondition error and the number stays.
    pub incr_counts :
        ((incr commands kv key delta ttl (quiet s now b)).0 ≡ sum_reply codec (number s) delta)
        × (number (incr commands kv key delta ttl (quiet s now b)).1.store
            ≡ sum_left (number s) delta)
    incr_counts = incr_number (number s) refl
