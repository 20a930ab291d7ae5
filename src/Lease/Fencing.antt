-- ===== src/Lease/Fencing.antt =====
-- src/lease.rs: the fence tokens of a lease.
use mcpg_plugin_cluster_redi.Common.{
  ℕ, suc, ltb, ◌+◌, ◌<◌, ◌≤◌, ◌^◌, ◌≡◌, length, inl, inr, refl, ap, ◌∙◌, Option, none, some, List,
  [], ◌∷◌, Bytes, false, true, same, same_refl, arith, Bool-cases, subst,
}
use mcpg_plugin_cluster_redi.Common.Int.{ℤ, pos, fits_i64, ◌+ℤ◌}
use mcpg_plugin_cluster_redi.Redis.View.{
  View, Entry, missing, held, text, sorted, IsText, put, deadline, elapse, expire_at,
}
use mcpg_plugin_cluster_redi.Redis.Commands.{Codec, documented, valid_ttl}
use mcpg_plugin_cluster_redi.Redis.Commands.Laws.{
  get_lem, text_of, incrby_lem, incrby_fails, return_integer_lem, number_of, pexpire_lem,
  pexpire_refused, del_lem,
}
use mcpg_plugin_cluster_redi.Redis.Commands.Laws.Strings.{set_px_lem, set_px_refused}
use mcpg_plugin_cluster_redi.Redis.Server.{Server}
use mcpg_plugin_cluster_redi.Lease.Scripts.{
  acquire_script, acquire_from, renew_script, release_script, is_holder,
}
use mcpg_plugin_cluster_redi.Lease.Handle.{next_token-exact}
use mcpg_plugin_cluster_redi.Lease.Run.{
  Action, acquire, renew, release, wait, act, tokens, granted, tokens-seen,
}

-- The tokens are numbers above `n`, each above the one before.
abbrev pub Ascending : ℕ → List ℤ → Type 0
Ascending n [] = Unit {0}
Ascending n (t ∷ ts) = (m : ℕ) × (t ≡ pos m) × (n < m) × Ascending m ts

-- The lease's counter stands at `n` for good, and its key holds no sorted set.
pub record Counted (codec : Codec) (lease fence : Bytes) (n : ℕ) (v : View) : Type 0 where
  pub number : number_of codec (v.at fence) ≡ some (pos n)
  pub lasting : deadline (v.at fence) ≡ none
  pub lease_text : IsText (v.at lease)

expire_lasting : (now : ℕ) (e : Entry) → deadline e ≡ none → expire_at now e ≡ e
unfolding expire_at
expire_lasting now missing h = refl
expire_lasting now (held x none) h = refl
expire_lasting now (held x (some d)) h = cc

expire-IsText : (now : ℕ) (e : Entry) → IsText e → IsText (expire_at now e)
unfolding expire_at
expire-IsText now missing h = tt
expire-IsText now (held (text b) none) h = tt
expire-IsText now (held (text b) (some d)) h = elim (Bool-cases (ltb d now)) [
  | inl p ↦ rw p tt
  | inr p ↦ rw p tt
]
expire-IsText now (held (sorted z) d) h = absurd h

one_more : (n : ℕ) → pos n +ℤ pos 1 ≡ pos (suc n)
unfolding ◌+ℤ◌
one_more n = ground arith

module _ (codec : Codec) (lease fence : Bytes) (apart : same lease fence ≡ false)
    (apart' : same fence lease ≡ false) where
  abbrev Counts : ℕ → View → Type 0
  Counts = Counted codec lease fence

  -- What an action leaves: the counter where it was and no token, or one further with its token.
  abbrev Advance : ℕ → Option ℤ × View → Type 0
  Advance n (none, v) = Counts n v
  Advance n (some t, v) = (t ≡ pos (suc n)) × Counts (suc n) v

  put_lease : (n : ℕ) (e : Entry) (v : View) → IsText e → Counts n v → Counts n (put lease e v)
  put_lease n e v t h = record {
    number = rw apart h.number;
    lasting = rw apart h.lasting;
    lease_text = rw (same_refl lease) t;
  }

  elapse-Counts : (n k : ℕ) (v : View) → Counts n v → Counts n (elapse k v)
  unfolding elapse
  elapse-Counts n k v h =
      let same_fence : expire_at (v.clock + k) (v.at fence) ≡ v.at fence =
        expire_lasting (v.clock + k) (v.at fence) h.lasting in
      record {
        number = rw same_fence h.number;
        lasting = rw same_fence h.lasting;
        lease_text = expire-IsText (v.clock + k) (v.at lease) h.lease_text;
      }

  -- The counter after INCR.
  count_once :
      (n : ℕ) (v : View)
      → Counts n v
      → fits_i64 (pos n +ℤ pos 1) ≡ true
      → Counts
          (suc n)
          (put fence (held (text (codec.of_int (pos n +ℤ pos 1))) (deadline (v.at fence))) v)
  count_once n v h f = record {
    number = rw (same_refl fence) (codec.as_int-of_int (pos n +ℤ pos 1) f ∙ ap some (one_more n));
    lasting = rw (same_refl fence) h.lasting;
    lease_text = rw apart' h.lease_text;
  }

  acquire_free :
      (n : ℕ) (holder : Bytes) (ttl : ℕ) (v : View)
      → suc n ≤ 2 ^ 53
      → Counts n v
      → v.at lease ≡ missing
      → Advance n (act (documented codec) elapse lease fence (acquire holder ttl) v)
  unfolding act acquire_script acquire_from
  acquire_free n holder ttl v small h e = elim (Bool-cases (valid_ttl v.clock ttl)) [
    | inr p ↦
        rw (get_lem codec lease v h.lease_text)
          (rw e (rw (set_px_refused codec lease holder ttl v p) h))
    | inl p ↦
        let w : View = put lease (held (text holder) (some (v.clock + ttl))) v in
        let hw : Counts n w = put_lease n _ v tt h in
        rw (get_lem codec lease v h.lease_text) (
          rw e (
            rw (set_px_lem codec lease holder ttl v p)
              (elim (Bool-cases (fits_i64 (pos n +ℤ pos 1))) [
                | inl f ↦ rw (incrby_lem codec fence (pos 1) (pos n) w hw.number f) (
                    rw (return_integer_lem codec (pos n +ℤ pos 1) _)
                      (next_token-exact codec n small, count_once n w hw f))
                | inr f ↦ rw (incrby_fails codec fence (pos 1) w (overflows w hw.number f)) hw
              ])))
  ]
    where
      overflows :
          (w : View)
          → number_of codec (w.at fence) ≡ some (pos n)
          → fits_i64 (pos n +ℤ pos 1) ≡ false
          → (m : ℤ) → number_of codec (w.at fence) ≡ some m
          → fits_i64 (m +ℤ pos 1) ≡ false
      overflows w hw f m q =
          let same_number : pos n ≡ m = cc (hw, q) in
          subst (λ i. fits_i64 (i +ℤ pos 1) ≡ false) same_number f

  acquire_taken :
      (n : ℕ) (holder x : Bytes) (d : Option ℕ) (ttl : ℕ) (v : View)
      → Counts n v
      → v.at lease ≡ held (text x) d
      → Advance n (act (documented codec) elapse lease fence (acquire holder ttl) v)
  unfolding act acquire_script acquire_from
  acquire_taken n holder x d ttl v h e = rw (get_lem codec lease v h.lease_text) (rw e h)

  renew-Counts :
      (n : ℕ) (holder : Bytes) (ttl : ℕ) (v : View) (e : Entry)
      → Counts n v
      → v.at lease ≡ e
      → Counts n (renew_script (documented codec) lease holder ttl v).1
  unfolding renew_script
  renew-Counts n holder ttl v missing h e = rw (get_lem codec lease v h.lease_text) (rw e h)
  renew-Counts n holder ttl v (held (sorted z) d) h e = absurd (subst IsText e h.lease_text)
  renew-Counts n holder ttl v (held (text x) d) h e = elim (Bool-cases (same x holder)) [
    | inr p ↦ rw (get_lem codec lease v h.lease_text) (rw e (rw p h))
    | inl p ↦ rw (get_lem codec lease v h.lease_text) (
        rw e (
          rw p (elim (Bool-cases (valid_ttl v.clock ttl)) [
            | inl q ↦ rw (pexpire_lem codec lease ttl v e q) (put_lease n _ v tt h)
            | inr q ↦ rw (pexpire_refused codec lease ttl v e q) h
          ])))
  ]

  release-Counts :
      (n : ℕ) (holder : Bytes) (v : View)
      → Counts n v
      → Counts n (release_script (documented codec) lease holder v).1
  unfolding release_script
  release-Counts n holder v h = elim (Bool-cases (is_holder holder (text_of (v.at lease)))) [
    | inr p ↦ rw (get_lem codec lease v h.lease_text) (rw p h)
    | inl p ↦
        rw (get_lem codec lease v h.lease_text)
          (rw p (rw (del_lem codec lease v) (put_lease n missing v tt h)))
  ]

  act-Counts :
      (n : ℕ) (a : Action) (v : View)
      → suc n ≤ 2 ^ 53
      → Counts n v
      → Advance n (act (documented codec) elapse lease fence a v)
  act-Counts n (acquire holder ttl) v small h = acquire_cases (v.at lease) refl
    where
      acquire_cases :
          (e : Entry)
          → v.at lease ≡ e
          → Advance n (act (documented codec) elapse lease fence (acquire holder ttl) v)
      acquire_cases missing e = acquire_free n holder ttl v small h e
      acquire_cases (held (text x) d) e = acquire_taken n holder x d ttl v h e
      acquire_cases (held (sorted z) d) e = absurd (subst IsText e h.lease_text)
  act-Counts n (renew holder ttl) v small h =
      unfold act in renew-Counts n holder ttl v (v.at lease) h refl
  act-Counts n (release holder) v small h = unfold act in release-Counts n holder v h
  act-Counts n (wait k) v small h = unfold act in elapse-Counts n k v h

  Ascending-step :
      (n : ℕ) (x : Option ℤ × View) (rest : View → List ℤ)
      → ((m : ℕ) (w : View) → m ≤ suc n → Counts m w → Ascending m (rest w))
      → Advance n x
      → Ascending n (granted x.0 (rest x.1))
  Ascending-step n (none, v) rest later k = later n v (omega arith) k
  Ascending-step n (some t, v) rest later (e, k) =
      (suc n, e, omega arith, later (suc n) v (omega arith) k)

  ascending :
      (n : ℕ) (actions : List Action) (v : View)
      → n + length actions ≤ 2 ^ 53
      → Counts n v
      → Ascending n (tokens (documented codec) elapse lease fence actions v)
  unfolding tokens
  ascending n [] v small h = tt
  ascending n (a ∷ rest) v small h =
      Ascending-step n (act (documented codec) elapse lease fence a v)
        (λ w. tokens (documented codec) elapse lease fence rest w)
        (λ m w le k. ascending m rest w (omega (arith, small, le)) k)
        (act-Counts n a v (omega (arith, small)) h)

-- On a server that behaves as documented: from a lease whose counter stands at `n` without a
-- deadline, under a key that is not the lease key, which holds no sorted set, whatever the
-- replicas send in whatever order and however time passes, the fence tokens that are granted are
-- numbers above `n`, each above all that were granted before; as long as the counter and the
-- number of actions together stay at most 2^53, where Lua has the counter exactly.
pub tokens_ascend :
    (r : Server) (lease fence : Bytes) (n : ℕ) (actions : List Action) (s : r.Store)
    → same lease fence ≡ false
    → same fence lease ≡ false
    → n + length actions ≤ 2 ^ 53
    → Counted r.codec lease fence n (r.view s)
    → Ascending n (tokens r.commands r.wait lease fence actions s)
tokens_ascend r lease fence n actions s p q small h =
    rw (tokens-seen r lease fence actions s)
      (ascending r.codec lease fence p q n actions (r.view s) small h)
