-- ===== src/Redis/Server.antt =====
-- A Redis server that keeps what its documentation promises: through `view`, each command has its
-- documented effect and reply. (Since Redis 7 the clock stands still while a script runs.)
use mcpg_plugin_cluster_redi.Common.{ℕ, ◌≡◌, refl, ap, ◌∙◌, Bool, true, false, if◌then◌else◌}
use mcpg_plugin_cluster_redi.Script.{
  Script, Reply, ok, err, RedisError, pure, raise, or_raise, on_error, continue, ◌>>=◌,
}
use mcpg_plugin_cluster_redi.Redis.View.{View, elapse}
use mcpg_plugin_cluster_redi.Redis.Commands.{Commands, Codec, documented}

abbrev pub seen {ℓ} : {S : Type ℓ} {A : Type 0} → (S → View) → A × S → A × View
seen view (r, s) = (r, view s)

-- What a run of `m` shows is what `m'` does on the view.
pub record Simulates {S A : Type 0} (view : S → View) (m : Script S A) (m' : Script View A)
    : Type 0 where
  pub run : (s : S) → seen view (m s) ≡ m' (view s)

-- Each command has its documented effect.
pub record Documented {S : Type 0} (codec : Codec) (view : S → View) (c : Commands S) : Type 0 where
  pub get_law : (k : _) → Simulates view (c.get k) ((documented codec).get k)
  pub set_law : (k x : _) → Simulates view (c.set k x) ((documented codec).set k x)
  pub set_px_law :
      (k x ttl : _) → Simulates view (c.set_px k x ttl) ((documented codec).set_px k x ttl)
  pub set_nx_law : (k x : _) → Simulates view (c.set_nx k x) ((documented codec).set_nx k x)
  pub set_nx_px_law :
      (k x ttl : _) → Simulates view (c.set_nx_px k x ttl) ((documented codec).set_nx_px k x ttl)
  pub del_law : (k : _) → Simulates view (c.del k) ((documented codec).del k)
  pub exists_law : (k : _) → Simulates view (c.exists k) ((documented codec).exists k)
  pub pttl_law : (k : _) → Simulates view (c.pttl k) ((documented codec).pttl k)
  pub pexpire_law :
      (k ttl : _) → Simulates view (c.pexpire k ttl) ((documented codec).pexpire k ttl)
  pub persist_law : (k : _) → Simulates view (c.persist k) ((documented codec).persist k)
  pub incrby_law : (k d : _) → Simulates view (c.incrby k d) ((documented codec).incrby k d)
  pub return_integer_law :
      (n : _) → Simulates view (c.return_integer n) ((documented codec).return_integer n)
  pub zadd_law : (k n m : _) → Simulates view (c.zadd k n m) ((documented codec).zadd k n m)
  pub zrem_law : (k m : _) → Simulates view (c.zrem k m) ((documented codec).zrem k m)
  pub zrangebylex_law :
      (k lo hi n : _)
      → Simulates view (c.zrangebylex k lo hi n) ((documented codec).zrangebylex k lo hi n)
  pub zrangebyscore_upto_law :
      (k top n : _)
      → Simulates view
          (c.zrangebyscore_upto k top n)
          ((documented codec).zrangebyscore_upto k top n)
  pub zrangebyscore_beyond_law :
      (k low : _)
      → Simulates view
          (c.zrangebyscore_beyond k low)
          ((documented codec).zrangebyscore_beyond k low)
  pub zremrangebyscore_upto_law :
      (k top : _)
      → Simulates view
          (c.zremrangebyscore_upto k top)
          ((documented codec).zremrangebyscore_upto k top)
  pub mget_law : (ks : _) → Simulates view (c.mget ks) ((documented codec).mget ks)

pub record Server : Type 1 where
  pub Store : Type 0
  pub commands : Commands Store
  pub codec : Codec
  pub view : Store → View
  -- time passes
  pub wait : ℕ → Store → Store
  pub wait_law : (n : ℕ) (s : Store) → view (wait n s) ≡ elapse n (view s)
  pub laws : Documented codec view commands

seen-on_error :
    {S A : Type 0} (view : S → View) (p : Reply A × S) (e : RedisError)
    → seen view (on_error p e) ≡ on_error (seen view p) e
seen-on_error view (ok a, s) e = refl
seen-on_error view (err d, s) e = refl

-- A script that is built from the commands shows what it does on the view.
module _ {S A : Type 0} {view : S → View} where
  pub Simulates-pure : (a : A) → Simulates view (pure a) (pure a)
  Simulates-pure a = record { run = λ s. refl }

  pub Simulates-raise : (e : RedisError) → Simulates view (raise {A = A} e) (raise e)
  Simulates-raise e = record { run = λ s. refl }

  pub Simulates-if :
      (b : Bool) {m n : Script S A} {m' n' : Script View A}
      → Simulates view m m'
      → Simulates view n n'
      → Simulates view (if b then m else n) (if b then m' else n')
  Simulates-if true h k = h
  Simulates-if false h k = k

  pub Simulates-or_raise :
      {m : Script S A} {m' : Script View A} (e : RedisError)
      → Simulates view m m'
      → Simulates view (or_raise m e) (or_raise m' e)
  Simulates-or_raise {m} e h = record {
    run = λ s. seen-on_error view (m s) e ∙ ap (λ p. on_error p e) (h.run s);
  }

module _ {S A B : Type 0} {view : S → View} where
  seen-continue :
      (p : Reply A × S) (f : A → Script S B) (f' : A → Script View B)
      → ((a : A) → Simulates view (f a) (f' a))
      → seen view (continue p f) ≡ continue (seen view p) f'
  seen-continue (ok a, s) f f' h = (h a).run s
  seen-continue (err e, s) f f' h = refl

  pub Simulates-bind :
      {m : Script S A} {m' : Script View A} {f : A → Script S B} {f' : A → Script View B}
      → Simulates view m m'
      → ((a : A) → Simulates view (f a) (f' a))
      → Simulates view (m >>= f) (m' >>= f')
  Simulates-bind {m} {f} {f'} h k = record {
    run = λ s. seen-continue (m s) f f' k ∙ ap (λ p. continue p f') (h.run s);
  }

pub ruleset simulation =
    (Simulates-pure, Simulates-raise, Simulates-if, Simulates-or_raise, Simulates-bind)

-- The reply of a script, and the view that it leaves.
pub reply_of :
    {S A : Type 0} {view : S → View} {m : Script S A} {m' : Script View A} {a : Reply A} {v : View}
    (s : S)
    → Simulates view m m'
    → m' (view s) ≡ (a, v)
    → ((m s).0 ≡ a) × (view (m s).1 ≡ v)
reply_of s sim e = (ap (λ x. x.0) (sim.run s ∙ e), ap (λ x. x.1) (sim.run s ∙ e))
