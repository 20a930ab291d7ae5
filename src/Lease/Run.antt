-- ===== src/Lease/Run.antt =====
-- Replicas that use one lease, in any order: each script runs alone on the server, and time passes.
use mcpg_plugin_cluster_redi.Common.{
  ℕ, ◌≡◌, refl, ap, ◌∙◌, Option, none, some, List, [], ◌∷◌, Bytes,
}
use mcpg_plugin_cluster_redi.Common.Int.{ℤ}
use mcpg_plugin_cluster_redi.Script.{Reply, ok, err}
use mcpg_plugin_cluster_redi.Redis.View.{View, elapse}
use mcpg_plugin_cluster_redi.Redis.Commands.{Commands, documented}
use mcpg_plugin_cluster_redi.Redis.Server.{Server, Simulates, simulation, seen}
use mcpg_plugin_cluster_redi.Lease.Scripts.{
  acquire_script, acquire_from, renew_script, release_script,
}

-- What a replica of the given holder name sends, or that time passes.
pub data Action : Type 0 where
  acquire renew : (holder : Bytes) (ttl : ℕ) → Action
  release : (holder : Bytes) → Action
  wait : ℕ → Action

abbrev pub token_of : Reply (Option ℤ) → Option ℤ
token_of (ok t) = t
token_of (err e) = none

-- The fence token that an action was granted goes in front of those of the later actions.
abbrev pub granted : Option ℤ → List ℤ → List ℤ
granted none ts = ts
granted (some t) ts = t ∷ ts

module _ {S : Type 0} (c : Commands S) (pass : ℕ → S → S) (lease fence : Bytes) where
  unfoldable pub act : Action → S → Option ℤ × S
  act (acquire holder ttl) s =
      let (r, s') = acquire_script c lease fence holder ttl s in (token_of r, s')
  act (renew holder ttl) s = (none, (renew_script c lease holder ttl s).1)
  act (release holder) s = (none, (release_script c lease holder s).1)
  act (wait n) s = (none, pass n s)

  -- The store after the actions, and the tokens that were granted, in order.
  unfoldable pub run : List Action → S → S
  run [] s = s
  run (a ∷ rest) s = run rest (act a s).1

  unfoldable pub tokens : List Action → S → List ℤ
  tokens [] s = []
  tokens (a ∷ rest) s = granted (act a s).0 (tokens rest (act a s).1)

module _ (r : Server) (lease fence : Bytes) where
  open r use {Store, commands, codec, view, wait_law, laws}

  Simulates-acquire_from :
      (holder : Bytes) (ttl : ℕ) (value : Option Bytes)
      → Simulates view
          (acquire_from commands lease fence holder ttl value)
          (acquire_from (documented codec) lease fence holder ttl value)
  unfolding acquire_from
  Simulates-acquire_from holder ttl none =
      search (simulation, laws.set_px_law, laws.incrby_law, laws.return_integer_law)
  Simulates-acquire_from holder ttl (some x) = search simulation

  pub Simulates-acquire_script :
      (holder : Bytes) (ttl : ℕ)
      → Simulates view
          (acquire_script commands lease fence holder ttl)
          (acquire_script (documented codec) lease fence holder ttl)
  unfolding acquire_script
  Simulates-acquire_script holder ttl = search (simulation, laws.get_law, Simulates-acquire_from)

  pub Simulates-renew_script :
      (holder : Bytes) (ttl : ℕ)
      → Simulates view
          (renew_script commands lease holder ttl)
          (renew_script (documented codec) lease holder ttl)
  unfolding renew_script
  Simulates-renew_script holder ttl = search (simulation, laws.get_law, laws.pexpire_law)

  pub Simulates-release_script :
      (holder : Bytes)
      → Simulates view
          (release_script commands lease holder)
          (release_script (documented codec) lease holder)
  unfolding release_script
  Simulates-release_script holder = search (simulation, laws.get_law, laws.del_law)

  seen-act :
      (a : Action) (s : Store)
      → seen view (act commands r.wait lease fence a s)
        ≡ act (documented codec) elapse lease fence a (view s)
  unfolding act
  seen-act (acquire holder ttl) s =
      ap (λ (x : Reply (Option ℤ) × View). let y : Option ℤ × View = (token_of x.0, x.1) in y)
        ((Simulates-acquire_script holder ttl).run s)
  seen-act (renew holder ttl) s =
      ap (λ (x : Reply ℕ × View). let y : Option ℤ × View = (none, x.1) in y)
        ((Simulates-renew_script holder ttl).run s)
  seen-act (release holder) s =
      ap (λ (x : Reply ℕ × View). let y : Option ℤ × View = (none, x.1) in y)
        ((Simulates-release_script holder).run s)
  seen-act (wait n) s = ap (λ (x : View). let y : Option ℤ × View = (none, x) in y) (wait_law n s)

  pub view-run :
      (rest : List Action) (s : Store)
      → view (run commands r.wait lease fence rest s)
        ≡ run (documented codec) elapse lease fence rest (view s)
  unfolding run
  view-run [] s = refl
  view-run (a ∷ rest) s =
      view-run rest (act commands r.wait lease fence a s).1
      ∙ ap (λ (x : Option ℤ × View). run (documented codec) elapse lease fence rest x.1)
          (seen-act a s)

  pub tokens-seen :
      (rest : List Action) (s : Store)
      → tokens commands r.wait lease fence rest s
        ≡ tokens (documented codec) elapse lease fence rest (view s)
  unfolding tokens
  tokens-seen [] s = refl
  tokens-seen (a ∷ rest) s =
      ap (granted (act commands r.wait lease fence a s).0)
        (tokens-seen rest (act commands r.wait lease fence a s).1)
      ∙ ap
          (λ (x : Option ℤ × View).
            granted x.0 (tokens (documented codec) elapse lease fence rest x.1))
          (seen-act a s)
