-- ===== src/Kv/Spec/Steps.antt =====
-- The operations of `RedisKv` as commands, and how a server shows a map.
use mcpg_plugin_cluster_redi.Common.{ℕ, ◌+◌, false, List, [], ◌∷◌}
use mcpg_plugin_cluster_redi.Client.{Result, done, fail, quiet}
use mcpg_plugin_cluster_redi.Redis.Server.{Server}
use mcpg_plugin_cluster_redi.Keys.{RedisKv}
use mcpg_plugin_cluster_redi.Kv.Store as KvStore
use mcpg_plugin_cluster_redi.Kv.Spec.{
  Command, get, delete, put, put_if_absent, expire, incr, wait, Answer, entry, stored, waited, flag,
  number, failed,
}

abbrev pub answer_with : {A : Type 0} → (A → Answer) → Result A → Answer
answer_with f (done a) = f a
answer_with f (fail e) = failed e

module _ (r : Server) (kv : RedisKv) where
  open r use {Store, commands, codec}

  -- One operation of a replica whose clock shows `now`, when nothing else happens; its answer, the
  -- store after it and the clock.
  unfoldable pub perform : Command → Store → ℕ → Answer × Store × ℕ
  perform (get k) s now =
      let (a, w) = KvStore.get commands kv k (quiet s now false) in
      (answer_with entry a, w.store, now)
  perform (delete k) s now =
      let (a, w) = KvStore.delete commands kv k (quiet s now false) in
      (answer_with flag a, w.store, now)
  perform (put k x ttl) s now =
      let (a, w) = KvStore.put commands kv k x ttl (quiet s now false) in
      (answer_with (λ _. stored) a, w.store, now)
  perform (put_if_absent k x ttl) s now =
      let (a, w) = KvStore.put_if_absent commands kv k x ttl (quiet s now false) in
      (answer_with flag a, w.store, now)
  perform (expire k ttl) s now =
      let (a, w) = KvStore.expire commands kv k ttl (quiet s now false) in
      (answer_with flag a, w.store, now)
  perform (incr k delta ttl) s now =
      let (a, w) = KvStore.incr commands kv k delta ttl (quiet s now false) in
      (answer_with number a, w.store, now)
  perform (wait n) s now = (waited, r.wait n s, now + n)

  unfoldable pub replies : List Command → Store → ℕ → List Answer
  replies [] s now = []
  replies (c ∷ cs) s now = let (a, s', now') = perform c s now in a ∷ replies cs s' now'
