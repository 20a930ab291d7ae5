-- ===== src/Lease/Scripts.antt =====
-- src/lease.rs: the Lua scripts of a lease. The holder's name is the value of the lease key.
use mcpg_plugin_cluster_redi.Common.{ℕ, Bool, Option, none, some, Bytes, same, if◌then◌else◌, false}
use mcpg_plugin_cluster_redi.Common.Int.{ℤ, pos}
use mcpg_plugin_cluster_redi.Script.{Script, pure, ◌>>=◌, ◌>>◌}
use mcpg_plugin_cluster_redi.Redis.Commands.{Commands}

-- `GET` == ARGV[1]
abbrev pub is_holder : Bytes → Option Bytes → Bool
is_holder holder none = false
is_holder holder (some value) = same value holder

module _ {S : Type 0} (c : Commands S) where
  open c use {get, set_px, del, pexpire, incrby, return_integer}

  unfoldable pub acquire_from : Bytes → Bytes → Bytes → ℕ → Option Bytes → Script S (Option ℤ)
  acquire_from lease fence holder ttl none = do
    set_px lease holder ttl
    n ← incrby fence (pos 1)
    token ← return_integer n
    pure (some token)
  acquire_from lease fence holder ttl (some value) = pure none

  unfoldable pub acquire_script : Bytes → Bytes → Bytes → ℕ → Script S (Option ℤ)
  acquire_script lease fence holder ttl = do
    value ← get lease
    acquire_from lease fence holder ttl value

  unfoldable pub renew_script : Bytes → Bytes → ℕ → Script S ℕ
  renew_script lease holder ttl = do
    value ← get lease
    if is_holder holder value then pexpire lease ttl else pure 0

  unfoldable pub release_script : Bytes → Bytes → Script S ℕ
  release_script lease holder = do
    value ← get lease
    if is_holder holder value then del lease else pure 0
