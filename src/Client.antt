-- ===== src/Client.antt =====
-- A replica as a client of Redis: one request after another over a connection that may fail, while
-- other clients and the clock go on. `ClusterError` is that of `mcpg_cluster_api`, without its texts.
pub mod Keep
use mcpg_plugin_cluster_redi.Common.{ℕ, ◌+◌, Bool, List, [], ◌∷◌, ◌≡◌, refl}
use mcpg_plugin_cluster_redi.Script.{
  Script, Reply, ok, err, RedisError, unreachable, pure, continue,
}

pub data ClusterError : Type 0 where
  backend_unavailable precondition lease_expired invalid_reference internal : ClusterError
  -- no error of the source: the call panics
  panicked : ClusterError

pub data Result (A : Type 0) : Type 0 where
  done : A → Result A
  fail : ClusterError → Result A

-- A request arrives and is answered, is lost before it runs, or runs and its reply is lost.
pub data Fate : Type 0 where
  answered request_lost reply_lost : Fate

-- What happens around one request: other clients and time change the store before it and between
-- the commands of a pipeline, and the replica's clock advances.
pub record Event (S : Type 0) : Type 0 where
  pub before : S → S
  pub between : S → S
  pub elapsed : ℕ
  pub fate : Fate

-- Where a replica stands: the store, its own clock (`SystemTime::now`, Unix ms), whether its listings
-- read the key index (`index_ready`), and what lies ahead. Past the end of the schedule nothing else
-- happens and every request is answered.
pub record World (S : Type 0) : Type 0 where
  pub store : S
  pub now : ℕ
  pub index_ready : Bool
  pub schedule : List (Event S)

abbrev pub Client : Type 0 → Type 0 → Type 0
Client S A = World S → Result A × World S

-- A `RedisError` that is no matter of the caller: `redis_err` of kv.rs.
abbrev pub redis_err : RedisError → ClusterError
redis_err e = ClusterError.backend_unavailable

-- `.map_err(f)`
abbrev pub settle : {A : Type 0} → (RedisError → ClusterError) → Reply A → Result A
settle f (ok a) = done a
settle f (err e) = fail (f e)

module _ {S A : Type 0} where
  abbrev pub return : A → Client S A
  return a w = (done a, w)

  abbrev pub throw : ClusterError → Client S A
  throw e w = (fail e, w)

  abbrev pub deliver : (RedisError → ClusterError) → Fate → Reply A × S → S → Result A × S
  deliver f Fate.answered (r, s) old = (settle f r, s)
  deliver f Fate.request_lost (r, s) old = (fail (f unreachable), old)
  deliver f Fate.reply_lost (r, s) old = (fail (f unreachable), s)

  abbrev pub with_store : World S → ℕ → List (Event S) → Result A × S → Result A × World S
  with_store w t es (r, s) =
      (r, record { store = s; now = t; index_ready = w.index_ready; schedule = es })

  -- One round trip. The commands of a pipeline are given `between` to run between them.
  abbrev request_on :
      (RedisError → ClusterError) → ((S → S) → Script S A) → List (Event S) → Client S A
  request_on f m [] w = with_store w w.now [] (deliver f Fate.answered (m (λ s. s) w.store) w.store)
  request_on f m (e ∷ es) w =
      let s = e.before w.store in
      with_store w (w.now + e.elapsed) es (deliver f e.fate (m e.between s) s)

  unfoldable pub pipeline : (RedisError → ClusterError) → ((S → S) → Script S A) → Client S A
  pipeline f m w = request_on f m w.schedule w

  abbrev pub request : (RedisError → ClusterError) → Script S A → Client S A
  request f m = pipeline f (λ _. m)

  -- `?`
  abbrev pub rethrow : {B : Type 0} → Result A × World S → (A → Client S B) → Result B × World S
  rethrow (done a, w) f = f a w
  rethrow (fail e, w) f = (fail e, w)

module _ {S : Type 0} where
  abbrev pub now_ms : Client S ℕ
  now_ms w = (done w.now, w)

  abbrev pub index_ready : Client S Bool
  index_ready w = (done w.index_ready, w)

  abbrev pub set_index_ready : Bool → Client S (Unit {0})
  set_index_ready b w = (done tt, record w { index_ready = b })

  -- The replica sleeps for some milliseconds.
  abbrev pub sleep : ℕ → Client S (Unit {0})
  sleep n w = (done tt, record w { now = w.now + n })

  abbrev pub pause : (S → S) → Script S (Unit {0})
  pause between s = (ok tt, between s)

module _ {S A B : Type 0} where
  infixl 10 ◌>>=◌ ◌>>◌
  abbrev pub ◌>>=◌ : Client S A → (A → Client S B) → Client S B
  ◌>>=◌ m f w = rethrow (m w) f

  abbrev pub ◌>>◌ : Client S A → Client S B → Client S B
  m >> n = m >>= λ _. n

-- Nothing else happens and no request is lost.
abbrev pub quiet : {S : Type 0} → S → ℕ → Bool → World S
quiet s n b = record { store = s; now = n; index_ready = b; schedule = [] }

pub pipeline-quiet :
    {S A : Type 0} (f : RedisError → ClusterError) (m : (S → S) → Script S A) (s : S) (n : ℕ)
    (b : Bool)
    → pipeline f m (quiet s n b) ≡ (settle f (m (λ x. x) s).0, quiet (m (λ x. x) s).1 n b)
unfolding pipeline
pipeline-quiet f m s n b = refl
