-- ===== src/Tests/Memory.antt =====
-- A server that keeps its promises: its state is the view itself. It shows that the promises can be
-- kept, and the examples run on it.
use mcpg_plugin_cluster_redi.Common.{
  ℕ, ◌≡◌, ◌≤◌, ◌^◌, ◌-◌, ◌%◌, leb, refl, Option, none, some, Bytes, [], ◌∷◌, ◌==◌, if◌then◌else◌,
  codes, true, arith,
}
use mcpg_plugin_cluster_redi.Common.Int.{ℤ, pos, negsuc, fits_i64, abs}
use mcpg_plugin_cluster_redi.Redis.View.{View, missing, elapse}
use mcpg_plugin_cluster_redi.Redis.Commands.{Codec, documented}
use mcpg_plugin_cluster_redi.Redis.Server.{Server, Documented}
use mcpg_plugin_cluster_redi.Kv.Store.Indexed.{Indexed}

abbrev pub int_bytes : ℤ → Bytes
int_bytes (pos n) = 0 ∷ n ∷ []
int_bytes (negsuc n) = 1 ∷ n ∷ []

abbrev pub bytes_int : Bytes → Option ℤ
bytes_int (t ∷ n ∷ []) = if t == 0 then some (pos n) else some (negsuc n)
bytes_int _ = none

pub int_bytes_int : (n : ℤ) → fits_i64 n ≡ true → bytes_int (int_bytes n) ≡ some n
int_bytes_int (pos n) h = refl
int_bytes_int (negsuc n) h = refl

-- Doubles between 2^53 and 2^54 are even.
abbrev even : ℕ → ℕ
even n = if leb n (2 ^ 53) then n else n - n % 2

abbrev pub to_even : ℤ → ℤ
to_even (pos n) = pos (even n)
to_even (negsuc n) = if leb n (2 ^ 53) then negsuc n else negsuc (n - n % 2)

pub to_even-small : (n : ℤ) → abs n ≤ 2 ^ 53 → to_even n ≡ n
to_even-small (pos n) h = ground arith
to_even-small (negsuc n) h = ground arith

abbrev pub plain_codec : Codec
plain_codec = record {
  as_int = bytes_int;
  of_int = int_bytes;
  to_number = bytes_int;
  round = λ n. n;
  round_exact = λ n h. refl;
  through_lua = to_even;
  through_lua_exact = to_even-small;
  as_int-of_int = int_bytes_int;
  exact_number = λ b n h _. h;
  rounded_number = λ b n h big. (n, h, big);
}

pub plain_laws : Documented plain_codec (λ v. v) (documented plain_codec)
plain_laws = record {
  get_law = λ _. record { run = λ s. refl };
  set_law = λ _ _. record { run = λ s. refl };
  set_px_law = λ _ _ _. record { run = λ s. refl };
  set_nx_law = λ _ _. record { run = λ s. refl };
  set_nx_px_law = λ _ _ _. record { run = λ s. refl };
  del_law = λ _. record { run = λ s. refl };
  exists_law = λ _. record { run = λ s. refl };
  pttl_law = λ _. record { run = λ s. refl };
  pexpire_law = λ _ _. record { run = λ s. refl };
  persist_law = λ _. record { run = λ s. refl };
  incrby_law = λ _ _. record { run = λ s. refl };
  return_integer_law = λ _. record { run = λ s. refl };
  zadd_law = λ _ _ _. record { run = λ s. refl };
  zrem_law = λ _ _. record { run = λ s. refl };
  zrangebylex_law = λ _ _ _ _. record { run = λ s. refl };
  zrangebyscore_upto_law = λ _ _ _. record { run = λ s. refl };
  zrangebyscore_beyond_law = λ _ _. record { run = λ s. refl };
  zremrangebyscore_upto_law = λ _ _. record { run = λ s. refl };
  mget_law = λ _. record { run = λ s. refl };
}

abbrev pub memory : Server
memory = record {
  Store = View;
  commands = documented plain_codec;
  codec = plain_codec;
  view = λ v. v;
  wait = elapse;
  wait_law = λ n s. refl;
  laws = plain_laws;
}

abbrev pub empty : View
empty = record { clock = 1000; at = λ k. missing }

-- The prefix "m:".
pub empty-Indexed : Indexed memory b'm' (codes ":") empty
empty-Indexed = record {
  early = omega arith;
  index_sorted = tt;
  expiry_sorted = tt;
  data_text = λ k d. tt;
  complete = λ k d h. absurd (omega arith);
  sweepable = λ k d h p. cc;
}
