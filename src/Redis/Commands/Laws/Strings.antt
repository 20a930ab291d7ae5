-- ===== src/Redis/Commands/Laws/Strings.antt =====
-- The documented forms of SET, as equations.
use mcpg_plugin_cluster_redi.Common.{ℕ, ◌+◌, ◌≡◌, refl, true, false, Option, none, some, Bytes}
use mcpg_plugin_cluster_redi.Script.{ok, err, refused}
use mcpg_plugin_cluster_redi.Redis.View.{View, Value, missing, held, text, put}
use mcpg_plugin_cluster_redi.Redis.Commands.{Codec, documented, valid_ttl, set_nx_entry}

module _ (c : Codec) where
  pub set_px_lem :
      (k x : Bytes) (ttl : ℕ) (v : View)
      → valid_ttl v.clock ttl ≡ true
      → (documented c).set_px k x ttl v ≡ (ok tt, put k (held (text x) (some (v.clock + ttl))) v)
  unfolding documented
  set_px_lem k x ttl v h = rw h

  pub set_px_refused :
      (k x : Bytes) (ttl : ℕ) (v : View)
      → valid_ttl v.clock ttl ≡ false
      → (documented c).set_px k x ttl v ≡ (err refused, v)
  unfolding documented
  set_px_refused k x ttl v h = rw h

  pub set_lem :
      (k x : Bytes) (v : View) → (documented c).set k x v ≡ (ok tt, put k (held (text x) none) v)
  unfolding documented
  set_lem k x v = refl

  pub set_nx_lem :
      (k x : Bytes) (v : View)
      → v.at k ≡ missing
      → (documented c).set_nx k x v ≡ (ok true, put k (held (text x) none) v)
  unfolding documented
  set_nx_lem k x v h = rw (h, set_nx_entry)

  pub set_nx_taken :
      (k x : Bytes) {y : Value} {d : Option ℕ} (v : View)
      → v.at k ≡ held y d
      → (documented c).set_nx k x v ≡ (ok false, v)
  unfolding documented
  set_nx_taken k x v h = rw (h, set_nx_entry)

  pub set_nx_px_taken :
      (k x : Bytes) (ttl : ℕ) {y : Value} {d : Option ℕ} (v : View)
      → valid_ttl v.clock ttl ≡ true
      → v.at k ≡ held y d
      → (documented c).set_nx_px k x ttl v ≡ (ok false, v)
  unfolding documented
  set_nx_px_taken k x ttl v w h = rw w (rw (h, set_nx_entry))

  pub set_nx_px_lem :
      (k x : Bytes) (ttl : ℕ) (v : View)
      → valid_ttl v.clock ttl ≡ true
      → v.at k ≡ missing
      → (documented c).set_nx_px k x ttl v
        ≡ (ok true, put k (held (text x) (some (v.clock + ttl))) v)
  unfolding documented
  set_nx_px_lem k x ttl v w h = rw w (rw (h, set_nx_entry))
