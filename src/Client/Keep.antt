-- ===== src/Client/Keep.antt =====
-- Invariants of the store across requests: what every script of a client keeps, and the others and
-- time keep between them, holds after any schedule, whatever requests or replies are lost.
use mcpg_plugin_cluster_redi.Common.{Bool, true, false, List, [], ◌∷◌, if◌then◌else◌, ℕ}
use mcpg_plugin_cluster_redi.Script.{Script, Reply, RedisError}
use mcpg_plugin_cluster_redi.Client.{
  Client, ClusterError, Result, done, fail, Fate, answered, request_lost, reply_lost, Event, World,
  return, throw, pipeline, request, now_ms, index_ready, set_index_ready, ◌>>=◌, deliver, rethrow,
}

abbrev pub Calm : {S : Type 0} → (S → Type 0) → List (Event S) → Type 0
Calm P [] = Unit {0}
Calm {S} P (e ∷ es) =
    ((s : S) → P s → P (e.before s)) × ((s : S) → P s → P (e.between s)) × Calm P es

-- The invariant holds of the store, and what lies ahead keeps it.
pub record Holds {S : Type 0} (P : S → Type 0) (w : World S) : Type 0 where
  pub now_holds : P w.store
  pub calm : Calm P w.schedule

pub record Keeps {S A : Type 0} (P : S → Type 0) (m : Client S A) : Type 0 where
  pub at : (w : World S) → Holds P w → Holds P (m w).1

-- A script that keeps the invariant, whatever keeps it between its commands.
abbrev pub Safe : {S A : Type 0} → (S → Type 0) → ((S → S) → Script S A) → Type 0
Safe {S} P m = (b : S → S) → ((s : S) → P s → P (b s)) → (s : S) → P s → P (m b s).1

deliver-Keeps :
    {S A : Type 0} (P : S → Type 0) (f : RedisError → ClusterError) (fate : Fate) (r : Reply A × S)
    (old : S)
    → P old
    → P r.1
    → P (deliver f fate r old).1
deliver-Keeps P f answered (r, s) old h k = k
deliver-Keeps P f request_lost (r, s) old h k = h
deliver-Keeps P f reply_lost (r, s) old h k = k

module _ {S A : Type 0} {P : S → Type 0} where
  pub Keeps-return : (a : A) → Keeps P (return a)
  Keeps-return a = record { at = λ w h. h }

  pub Keeps-throw : (e : ClusterError) → Keeps P (throw {A = A} e)
  Keeps-throw e = record { at = λ w h. h }

  pub Keeps-if :
      (b : Bool) {m n : Client S A} → Keeps P m → Keeps P n → Keeps P (if b then m else n)
  Keeps-if true km kn = km
  Keeps-if false km kn = kn

  pipeline-Keeps :
      (f : RedisError → ClusterError) (m : (S → S) → Script S A)
      → Safe P m
      → (s : S) (n : ℕ) (r : Bool) (es : List (Event S)) → P s
      → Calm P es
      → Holds P (pipeline f m (record { store = s; now = n; index_ready = r; schedule = es })).1
  unfolding pipeline
  pipeline-Keeps f m safe s n r [] h k = record {
    now_holds = deliver-Keeps P f answered (m (λ x. x) s) s h (safe (λ x. x) (λ x i. i) s h);
    calm = tt;
  }
  pipeline-Keeps f m safe s n r (e ∷ es) h (kb, kc, k) = record {
    now_holds =
        deliver-Keeps P f e.fate (m e.between (e.before s)) (e.before s) (kb s h)
          (safe e.between kc (e.before s) (kb s h));
    calm = k;
  }

  pub Keeps-pipeline :
      (f : RedisError → ClusterError) (m : (S → S) → Script S A) → Safe P m → Keeps P (pipeline f m)
  Keeps-pipeline f m safe = record {
    at = λ w h. pipeline-Keeps f m safe w.store w.now w.index_ready w.schedule h.now_holds h.calm;
  }

  pub Keeps-request :
      (f : RedisError → ClusterError) (m : Script S A)
      → ((s : S) → P s → P (m s).1)
      → Keeps P (request f m)
  Keeps-request f m safe = Keeps-pipeline f (λ _. m) (λ b _ s h. safe s h)

module _ {S : Type 0} {P : S → Type 0} where
  pub Keeps-now_ms : Keeps P now_ms
  Keeps-now_ms = record { at = λ w h. h }

  pub Keeps-index_ready : Keeps P index_ready
  Keeps-index_ready = record { at = λ w h. h }

  pub Keeps-set_index_ready : (b : Bool) → Keeps P (set_index_ready b)
  Keeps-set_index_ready b = record { at = λ w h. record { now_holds = h.now_holds; calm = h.calm } }

module _ {S A B : Type 0} {P : S → Type 0} where
  rethrow-Keeps :
      (r : Result A) (w : World S) (f : A → Client S B)
      → ((a : A) → Keeps P (f a))
      → Holds P w
      → Holds P (rethrow (r, w) f).1
  rethrow-Keeps (done a) w f kf h = (kf a).at w h
  rethrow-Keeps (fail e) w f kf h = h

  pub Keeps-bind :
      {m : Client S A} {f : A → Client S B}
      → Keeps P m
      → ((a : A) → Keeps P (f a))
      → Keeps P (m >>= f)
  Keeps-bind {m} {f} km kf = record { at = λ w h. rethrow-Keeps (m w).0 (m w).1 f kf (km.at w h) }

pub ruleset keeping = (
  Keeps-return, Keeps-throw, Keeps-if, Keeps-now_ms, Keeps-index_ready, Keeps-set_index_ready,
  Keeps-bind,
)
