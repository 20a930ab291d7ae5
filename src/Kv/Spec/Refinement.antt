-- ===== src/Kv/Spec/Refinement.antt =====
-- src/state/kv.rs: whole runs of the key/value store, beside those of the map.
use mcpg_plugin_cluster_redi.Common.{ℕ, ◌≡◌, refl, ap, ◌∙◌, List, [], ◌∷◌, Bytes}
use mcpg_plugin_cluster_redi.Redis.Commands.{Codec}
use mcpg_plugin_cluster_redi.Redis.Server.{Server}
use mcpg_plugin_cluster_redi.Kv.Spec.{
  Map, Command, get, delete, put, put_if_absent, expire, incr, wait, Answer, step, answers, integer,
}
use mcpg_plugin_cluster_redi.Kv.Spec.Steps.{perform, replies}
use mcpg_plugin_cluster_redi.Kv.Spec.Refines.{Shows, kv}
use mcpg_plugin_cluster_redi.Kv.Spec.Run.{Fits, Follows, follows_get, follows_delete, follows_wait}
use mcpg_plugin_cluster_redi.Kv.Spec.Run.Writes.{follows_put, follows_put_if_absent, follows_expire}
use mcpg_plugin_cluster_redi.Kv.Spec.Run.Counter.{follows_incr}

-- Every command of a run fits the clock that the run has come to.
abbrev pub AllFit : Codec → List Command → Map → Type 0
AllFit codec [] m = Unit {0}
AllFit codec (c ∷ cs) m = Fits m.clock c × AllFit codec cs (step codec c m).1

module _ (r : Server) (c : ℕ) (p : Bytes) where
  open r use {Store, commands, codec, view, laws}

  module _ (s : Store) (m : Map) (h : Shows c p (view s) m) where
    follows : (cmd : Command) → Fits m.clock cmd → Follows r c p cmd s m
    follows (get k) f = follows_get r c p s m h k
    follows (delete k) f = follows_delete r c p s m h k
    follows (put k x ttl) f = follows_put r c p s m h k x ttl f
    follows (put_if_absent k x ttl) f = follows_put_if_absent r c p s m h k x ttl (m.at k) refl f
    follows (expire k ttl) f = follows_expire r c p s m h k ttl (m.at k) refl f
    follows (incr k delta ttl) f =
        follows_incr r c p s m h k delta ttl (integer codec (m.at k)) refl f
    follows (wait n) f = follows_wait r c p s m h n f

  -- A client of the store is told what the map tells: any run of get, delete, put, put_if_absent,
  -- expire and incr commands and waits, one after the other on a reachable server that shows the
  -- map, has the answers of the same run on the map: the values with the deadlines that the
  -- replica computes, the flags, the errors, and the counts as Lua passes them on (the counts
  -- themselves up to 2^53 in size). Keys that expire while the run waits are gone in both. The TTLs and the server's clock stay below 2^52 ms, the key prefix is not
  -- empty, and the replica's clock moves as far as the server's does.
  pub replies-answers :
      (cs : List Command) (s : Store) (m : Map)
      → Shows c p (view s) m
      → AllFit codec cs m
      → replies r (kv c p) cs s m.now ≡ answers codec cs m
  unfolding replies answers
  replies-answers [] s m h f = refl
  replies-answers (cmd ∷ cs) s m h (f, fs) =
      let (said, shows, on_time) = follows s m h cmd f in
      let done : Answer × Store × ℕ = perform r (kv c p) cmd s m.now in
      let there : Answer × Map = step codec cmd m in
      ap (λ (a : Answer). a ∷ replies r (kv c p) cs done.1 done.2) said
      ∙ (ap (λ (n : ℕ). there.0 ∷ replies r (kv c p) cs done.1 n) on_time
          ∙ ap (λ (l : List Answer). there.0 ∷ l) (replies-answers cs done.1 there.1 shows fs))
