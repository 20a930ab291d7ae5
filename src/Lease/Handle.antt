-- ===== src/Lease/Handle.antt =====
-- src/lease.rs: a handle of a lease, on a server that behaves as documented, when nothing else happens.
use mcpg_plugin_cluster_redi.Common.{
  ℕ, suc, ◌+◌, ◌/◌, ◌<◌, ◌≤◌, ◌^◌, ◌≡◌, refl, ap, ◌∙◌, Bool, true, false, some, Bytes, same,
  same_refl, arith, is_blank,
}
use mcpg_plugin_cluster_redi.Common.Int.{pos, fits_i64, ◌+ℤ◌}
use mcpg_plugin_cluster_redi.Script.{ok}
use mcpg_plugin_cluster_redi.Client.{World, done, fail, lease_expired, quiet, pipeline-quiet}
use mcpg_plugin_cluster_redi.Redis.View.{View, missing, held, text, put, IsText, deadline}
use mcpg_plugin_cluster_redi.Redis.Commands.{Codec, documented, valid_ttl}
use mcpg_plugin_cluster_redi.Redis.Commands.Laws.{
  get_lem, text_of, incrby_lem, return_integer_lem, number_of, pexpire_lem,
}
use mcpg_plugin_cluster_redi.Redis.Commands.Laws.Strings.{set_px_lem}
use mcpg_plugin_cluster_redi.Redis.Server.{Server, reply_of}
use mcpg_plugin_cluster_redi.Lease.{
  LeaseState, lease_ttl, as_u64, calendar_end, rfc3339_after, try_acquire_async, acquired,
  renew_state, renewed,
}
use mcpg_plugin_cluster_redi.Lease.Scripts.{acquire_script, acquire_from, renew_script, is_holder}
use mcpg_plugin_cluster_redi.Lease.Run.{Simulates-acquire_script, Simulates-renew_script}

-- The lease is held by this holder until the deadline.
abbrev pub HeldBy : Bytes → Bytes → ℕ → View → Type 0
HeldBy lease holder d v = v.at lease ≡ held (text holder) (some d)

next_token : (n : ℕ) → pos n +ℤ pos 1 ≡ pos (suc n)
unfolding ◌+ℤ◌
next_token n = ground arith

next_token-fits : (n : ℕ) → suc n ≤ 2 ^ 53 → fits_i64 (pos n +ℤ pos 1) ≡ true
next_token-fits n h = rw (next_token n) (ground arith)

pub next_token-exact :
    (codec : Codec) (n : ℕ) → suc n ≤ 2 ^ 53 → codec.through_lua (pos n +ℤ pos 1) ≡ pos (suc n)
next_token-exact codec n h =
    ap codec.through_lua (next_token n) ∙ codec.through_lua_exact (pos (suc n)) (omega (arith, h))

-- `chrono` has a date for the end of the lease.
pub rfc3339_after-dated :
    (now ttl : ℕ) → now + ttl < calendar_end → rfc3339_after now ttl ≡ some ((now + ttl) / 1000)
unfolding rfc3339_after
rfc3339_after-dated now ttl h = ground arith

module _ (codec : Codec) (lease fence holder : Bytes) (v : View) where
  pub acquire_script_free :
      (ttl n : ℕ)
      → same lease fence ≡ false
      → v.at lease ≡ missing
      → number_of codec (v.at fence) ≡ some (pos n)
      → suc n ≤ 2 ^ 53
      → valid_ttl v.clock ttl ≡ true
      → acquire_script (documented codec) lease fence holder ttl v ≡ (
        ok (some (pos (suc n))),
        put fence
            (held (text (codec.of_int (pos (suc n)))) (deadline (v.at fence)))
            (put lease (held (text holder) (some (v.clock + ttl))) v),
      )
  unfolding acquire_script acquire_from
  acquire_script_free ttl n apart free number small valid =
      let w : View = put lease (held (text holder) (some (v.clock + ttl))) v in
      rw (get_lem codec lease v (rw free tt)) (
        rw free (
          rw (set_px_lem codec lease holder ttl v valid) (
            rw
              (incrby_lem codec fence (pos 1) (pos n) w (rw apart number) (next_token-fits n small))
              (rw (return_integer_lem codec (pos n +ℤ pos 1) _)
                (rw (next_token-exact codec n small) (rw (apart, next_token n) refl))))))

  pub renew_script_own :
      (ttl d : ℕ)
      → HeldBy lease holder d v
      → same holder holder ≡ true
      → valid_ttl v.clock ttl ≡ true
      → renew_script (documented codec) lease holder ttl v
        ≡ (ok 1, put lease (held (text holder) (some (v.clock + ttl))) v)
  unfolding renew_script
  renew_script_own ttl d own self valid =
      rw (get_lem codec lease v (rw own tt))
        (rw own (rw self (rw (pexpire_lem codec lease ttl v own valid))))

  renew_script_lost :
      (ttl : ℕ)
      → IsText (v.at lease)
      → is_holder holder (text_of (v.at lease)) ≡ false
      → renew_script (documented codec) lease holder ttl v ≡ (ok 0, v)
  unfolding renew_script
  renew_script_lost ttl is_text lost = rw (get_lem codec lease v is_text) (rw lost)

pub positive_ttl :
    (now ttl : ℕ) → now + lease_ttl ttl < 2 ^ 63 → valid_ttl now (lease_ttl ttl) ≡ true
unfolding lease_ttl
positive_ttl now ttl h = ground arith

-- On a server that behaves as documented, when nothing else happens: an attempt to acquire a lease
-- that is free, under a name that is not blank, gets a handle with the next fence token of the
-- counter, and the holder then has the lease for the TTL; if the lease key is not the fence key,
-- the
-- next token is at most 2^53, the new deadline fits 63 bits and `chrono` has a date for it.
pub try_acquire_async-free :
    (r : Server) (name lease fence holder : Bytes) (ttl n now : ℕ) (b : Bool) (s : r.Store)
    → is_blank name ≡ false
    → same lease fence ≡ false
    → same fence lease ≡ false
    → (r.view s).at lease ≡ missing
    → number_of r.codec ((r.view s).at fence) ≡ some (pos n)
    → suc n ≤ 2 ^ 53
    → (r.view s).clock + lease_ttl ttl < 2 ^ 63
    → now + lease_ttl ttl < calendar_end
    → ((try_acquire_async r.commands name lease fence holder ttl (quiet s now b)).0
        ≡ done (
            some (record {
              lease_key = lease;
              holder = holder;
              fence_token = suc n;
              ttl_ms = lease_ttl ttl;
              expires_at = (now + lease_ttl ttl) / 1000;
              released = false;
              renewing = true;
            })))
      × HeldBy lease holder ((r.view s).clock + lease_ttl ttl) (
          r.view (try_acquire_async r.commands name lease fence holder ttl (quiet s now b)).1.store)
unfolding try_acquire_async acquired as_u64
try_acquire_async-free r name lease fence holder ttl n now b s blank apart apart' free number small
      early dated =
    let (replied, after) =
      reply_of s (Simulates-acquire_script r lease fence holder (lease_ttl ttl)) (
        acquire_script_free r.codec lease fence holder (r.view s) (lease_ttl ttl) n apart free
          number small (positive_ttl (r.view s).clock ttl early)) in
    (
      rw blank (
          rw pipeline-quiet (rw replied (rw (rfc3339_after-dated now (lease_ttl ttl) dated) refl))),
      rw blank (
          rw pipeline-quiet (
            rw replied (
              rw (rfc3339_after-dated now (lease_ttl ttl) dated)
                (ap (λ (v : View). v.at lease) after ∙ rw (apart', same_refl lease))))),
    )

-- What a handle's renewal comes to: the lease is the holder's, or not.
abbrev pub is_own : LeaseState → View → Bool
is_own st v = is_holder st.holder (text_of (v.at st.lease_key))

-- On a server that behaves as documented, when nothing else happens: the renewal by a handle that
-- is not released of a lease that is free or has another holder, and whose key holds no sorted
-- set, answers that the lease expired, marks the handle released and leaves the keys and the clock
-- of the server as they are; and any renewal by the released handle, in any world, answers the
-- same and sends nothing.
pub renew_state-lost :
    (r : Server) (st : LeaseState) (now : ℕ) (b : Bool) (s : r.Store) (w : World r.Store)
    → st.released ≡ false
    → IsText ((r.view s).at st.lease_key)
    → is_own st (r.view s) ≡ false
    → ((renew_state r.commands st (quiet s now b)).0
        ≡ done (fail lease_expired, record st { released = true }))
      × (r.view (renew_state r.commands st (quiet s now b)).1.store ≡ r.view s)
      × (renew_state r.commands (record st { released = true }) w
          ≡ (done (fail lease_expired, record st { released = true }), w))
unfolding renew_state renewed
renew_state-lost r st now b s w live is_text lost =
    let (replied, after) =
      reply_of s (Simulates-renew_script r st.lease_key st.lease_key st.holder st.ttl_ms) (
        renew_script_lost r.codec st.lease_key st.lease_key st.holder (r.view s) st.ttl_ms is_text
          lost) in
    (
      rw live (rw pipeline-quiet (rw replied refl)),
      rw live (rw pipeline-quiet (rw replied after)),
      refl,
    )

-- On a server that behaves as documented, when nothing else happens: the renewal by a handle that
-- is not released of a lease that is the holder's gives it the handle's TTL from now, if Redis
-- takes that TTL and `chrono` has a date for its end, and the handle its new time.
pub renew_state-own :
    (r : Server) (st : LeaseState) (d now : ℕ) (b : Bool) (s : r.Store)
    → st.released ≡ false
    → HeldBy st.lease_key st.holder d (r.view s)
    → valid_ttl (r.view s).clock st.ttl_ms ≡ true
    → now + st.ttl_ms < calendar_end
    → ((renew_state r.commands st (quiet s now b)).0
        ≡ done (done tt, record st { expires_at = (now + st.ttl_ms) / 1000 }))
      × HeldBy st.lease_key st.holder
          ((r.view s).clock + st.ttl_ms)
          (r.view (renew_state r.commands st (quiet s now b)).1.store)
unfolding renew_state renewed
renew_state-own r st d now b s live own valid dated =
    let (replied, after) =
      reply_of s (Simulates-renew_script r st.lease_key st.lease_key st.holder st.ttl_ms) (
        renew_script_own r.codec st.lease_key st.lease_key st.holder (r.view s) st.ttl_ms d own
          (same_refl st.holder) valid) in
    let date = rfc3339_after-dated now st.ttl_ms dated in
    (
      rw live (rw pipeline-quiet (rw replied (rw date refl))),
      rw live (
          rw pipeline-quiet (
            rw replied (
              rw date (ap (λ (v : View). v.at st.lease_key) after ∙ rw (same_refl st.lease_key))))),
    )
