-- ===== src/Lease/Exclusive.antt =====
-- src/lease.rs: a lease that is held, among replicas that use it in any order.
use mcpg_plugin_cluster_redi.Common.{
  ℕ, ◌+◌, ◌≤◌, ◌≡◌, refl, ap, ◌∙◌, Option, none, some, List, [], ◌∷◌, Bytes, false, same, arith,
}
use mcpg_plugin_cluster_redi.Common.Int.{ℤ}
use mcpg_plugin_cluster_redi.Script.{ok}
use mcpg_plugin_cluster_redi.Redis.View.{View, held, text, elapse, expire_at}
use mcpg_plugin_cluster_redi.Redis.Commands.{Codec, documented}
use mcpg_plugin_cluster_redi.Redis.Commands.Laws.{get_lem}
use mcpg_plugin_cluster_redi.Redis.Server.{Server}
use mcpg_plugin_cluster_redi.Lease.Scripts.{
  acquire_script, acquire_from, renew_script, release_script,
}
use mcpg_plugin_cluster_redi.Lease.Run.{
  Action, acquire, renew, release, wait, act, run, tokens, granted, view-run, tokens-seen,
}

-- An action of someone else: any attempt to acquire, also by the holder itself, a renewal or a
-- release under another holder name, and time.
abbrev pub Foreign : Bytes → Action → Type 0
Foreign h (acquire holder ttl) = Unit {0}
Foreign h (renew holder ttl) = same h holder ≡ false
Foreign h (release holder) = same h holder ≡ false
Foreign h (wait n) = Unit {0}

abbrev pub AllForeign : Bytes → List Action → Type 0
AllForeign h [] = Unit {0}
AllForeign h (a ∷ rest) = Foreign h a × AllForeign h rest

-- Waiting only, of all actions, moves the clock.
abbrev pub span : List Action → ℕ
span [] = 0
span (acquire holder ttl ∷ rest) = span rest
span (renew holder ttl ∷ rest) = span rest
span (release holder ∷ rest) = span rest
span (wait n ∷ rest) = n + span rest

module _ (codec : Codec) (lease fence : Bytes) where
  abbrev act' : Action → View → Option ℤ × View
  act' = act (documented codec) elapse lease fence

  get_held :
      (h : Bytes) (d : Option ℕ) (v : View)
      → v.at lease ≡ held (text h) d
      → (documented codec).get lease v ≡ (ok (some h), v)
  get_held h d v e = rw (get_lem codec lease v (rw e tt)) (rw e)

  -- On a held lease an attempt to acquire it changes nothing and is granted nothing.
  pub acquire_held :
      (h holder : Bytes) (d : Option ℕ) (ttl : ℕ) (v : View)
      → v.at lease ≡ held (text h) d
      → acquire_script (documented codec) lease fence holder ttl v ≡ (ok none, v)
  unfolding acquire_script acquire_from
  acquire_held h holder d ttl v e = rw (get_held h d v e)

  renew_other :
      (h holder : Bytes) (d : Option ℕ) (ttl : ℕ) (v : View)
      → v.at lease ≡ held (text h) d
      → same h holder ≡ false
      → renew_script (documented codec) lease holder ttl v ≡ (ok 0, v)
  unfolding renew_script
  renew_other h holder d ttl v e n = rw (get_held h d v e) (rw n)

  release_other :
      (h holder : Bytes) (d : Option ℕ) (v : View)
      → v.at lease ≡ held (text h) d
      → same h holder ≡ false
      → release_script (documented codec) lease holder v ≡ (ok 0, v)
  unfolding release_script
  release_other h holder d v e n = rw (get_held h d v e) (rw n)

  same_wait : (n : ℕ) (v : View) → act' (wait n) v ≡ (none, elapse n v)
  unfolding act
  same_wait n v = refl

  same_acquire :
      (h holder : Bytes) (d : Option ℕ) (ttl : ℕ) (v : View)
      → v.at lease ≡ held (text h) d
      → act' (acquire holder ttl) v ≡ (none, v)
  unfolding act
  same_acquire h holder d ttl v e = rw (acquire_held h holder d ttl v e)

  same_renew :
      (h holder : Bytes) (d : Option ℕ) (ttl : ℕ) (v : View)
      → v.at lease ≡ held (text h) d
      → same h holder ≡ false
      → act' (renew holder ttl) v ≡ (none, v)
  unfolding act
  same_renew h holder d ttl v e n = rw (renew_other h holder d ttl v e n)

  same_release :
      (h holder : Bytes) (d : Option ℕ) (v : View)
      → v.at lease ≡ held (text h) d
      → same h holder ≡ false
      → act' (release holder) v ≡ (none, v)
  unfolding act
  same_release h holder d v e n = rw (release_other h holder d v e n)

  abbrev Stays : Bytes → ℕ → List Action → View → Type 0
  Stays h d actions v =
      ((run (documented codec) elapse lease fence actions v).at lease ≡ held (text h) (some d))
      × (tokens (documented codec) elapse lease fence actions v ≡ [])

  -- One action that is granted nothing, and then the others.
  Stays-step :
      (h : Bytes) (d : ℕ) (a : Action) (rest : List Action) (v w : View)
      → act' a v ≡ (none, w)
      → Stays h d rest w
      → Stays h d (a ∷ rest) v
  unfolding run tokens
  Stays-step h d a rest v w e (kept, nothing) = (
    ap (λ (x : Option ℤ × View). (run (documented codec) elapse lease fence rest x.1).at lease) e
        ∙ kept,
    ap
          (λ (x : Option ℤ × View).
            granted x.0 (tokens (documented codec) elapse lease fence rest x.1))
          e
        ∙ nothing,
  )

  elapse_held :
      (h : Bytes) (d n : ℕ) (v : View)
      → v.at lease ≡ held (text h) (some d)
      → v.clock + n ≤ d
      → (elapse n v).at lease ≡ held (text h) (some d)
  unfolding elapse expire_at
  elapse_held h d n v e t = rw e (ground arith)

  elapse_clock : (n : ℕ) (v : View) → (elapse n v).clock ≡ v.clock + n
  unfolding elapse
  elapse_clock n v = refl

  stays :
      (h : Bytes) (d : ℕ) (actions : List Action) (v : View)
      → v.at lease ≡ held (text h) (some d)
      → AllForeign h actions
      → v.clock + span actions ≤ d
      → Stays h d actions v
  unfolding run tokens
  stays h d [] v e f t = (e, refl)
  stays h d (acquire holder ttl ∷ rest) v e (g, f) t =
      Stays-step h d _ rest v v (same_acquire h holder (some d) ttl v e) (stays h d rest v e f t)
  stays h d (renew holder ttl ∷ rest) v e (g, f) t =
      Stays-step h d _ rest v v (same_renew h holder (some d) ttl v e g) (stays h d rest v e f t)
  stays h d (release holder ∷ rest) v e (g, f) t =
      Stays-step h d _ rest v v (same_release h holder (some d) v e g) (stays h d rest v e f t)
  stays h d (wait n ∷ rest) v e (g, f) t = Stays-step h d _ rest v (elapse n v) (same_wait n v) (
      stays h d rest (elapse n v) (elapse_held h d n v e (omega arith)) f
        (omega (arith, elapse_clock n v)))

-- On a server that behaves as documented: while a lease is held with a deadline, no sequence of
-- attempts to acquire it, renewals and releases by others, and waits that do not pass the deadline
-- takes it from its holder, moves the deadline or is granted a fence token.
pub lease_is_exclusive :
    (r : Server) (lease fence h : Bytes) (d : ℕ) (actions : List Action) (s : r.Store)
    → (r.view s).at lease ≡ held (text h) (some d)
    → AllForeign h actions
    → (r.view s).clock + span actions ≤ d
    → ((r.view (run r.commands r.wait lease fence actions s)).at lease ≡ held (text h) (some d))
      × (tokens r.commands r.wait lease fence actions s ≡ [])
lease_is_exclusive r lease fence h d actions s e f t =
    let (kept, nothing) = stays r.codec lease fence h d actions (r.view s) e f t in
    (
      ap (λ (v : View). v.at lease) (view-run r lease fence actions s) ∙ kept,
      tokens-seen r lease fence actions s ∙ nothing,
    )
