-- ===== src/Script.antt =====
-- What a Lua script of the coordinator is to Redis: it runs on the server's state, and an error
-- that `redis.call` raises ends it. Redis does not roll back, so what was written stays written.

-- Errors of the `redis` crate, by what the callers tell apart: an error reply whose text holds the
-- counter sentinel, any other error reply, and a connection that failed.
pub data RedisError : Type 0 where
  sentinel refused unreachable : RedisError

pub data Reply (A : Type 0) : Type 0 where
  ok : A → Reply A
  err : RedisError → Reply A

abbrev pub Script : Type 0 → Type 0 → Type 0
Script S A = S → Reply A × S

module _ {S : Type 0} where
  module _ {A : Type 0} where
    abbrev pub pure : A → Script S A
    pure a s = (ok a, s)

    abbrev pub raise : RedisError → Script S A
    raise e s = (err e, s)

    -- Lua's `pcall`, as the scripts use it: an error reply is answered with the sentinel.
    abbrev pub on_error : Reply A × S → RedisError → Reply A × S
    on_error (ok a, s) e = (ok a, s)
    on_error (err d, s) e = (err e, s)

    abbrev pub or_raise : Script S A → RedisError → Script S A
    or_raise m e s = on_error (m s) e

  module _ {A B : Type 0} where
    abbrev pub continue : Reply A × S → (A → Script S B) → Reply B × S
    continue (ok a, s) f = f a s
    continue (err e, s) f = (err e, s)

    infixl 10 ◌>>=◌ ◌>>◌
    abbrev pub ◌>>=◌ : Script S A → (A → Script S B) → Script S B
    ◌>>=◌ m f s = continue (m s) f

    abbrev pub ◌>>◌ : Script S A → Script S B → Script S B
    m >> n = m >>= λ _. n
