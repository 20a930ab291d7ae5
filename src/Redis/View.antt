-- ===== src/Redis/View.antt =====
-- What a client can learn of the keyspace of a Redis server at one instant.
use mcpg_plugin_cluster_redi.Common.{
  ℕ, ◌+◌, ◌≡◌, refl, Option, none, some, [], ◌∷◌, Bytes, same, ltb, if◌then◌else◌, fun_ext,
  same_iff, Bool-cases, inl, inr, ◌⊎◌, sym, arith,
}
use mcpg_plugin_cluster_redi.Redis.Zset.{Zset}

pub data Value : Type 0 where
  text : Bytes → Value
  sorted : Zset → Value

-- A key holds nothing, or a value that may have a deadline (PEXPIRETIME, Unix ms).
pub data Entry : Type 0 where
  missing : Entry
  held : Value → Option ℕ → Entry

-- The server's clock (Unix ms), and what each key holds. An expired key is missing.
pub record View : Type 0 where
  pub clock : ℕ
  pub at : Bytes → Entry

abbrev pub put : Bytes → Entry → View → View
put k e v = record v { at = λ j. if same k j then e else v.at j }

-- A key is alive up to its deadline and gone after it.
unfoldable pub expire_at : ℕ → Entry → Entry
expire_at now missing = missing
expire_at now (held x none) = held x none
expire_at now (held x (some d)) = if ltb d now then missing else held x (some d)

-- `n` milliseconds pass on the server.
unfoldable pub elapse : ℕ → View → View
elapse n v = record { clock = v.clock + n; at = λ k. expire_at (v.clock + n) (v.at k) }

-- An empty sorted set is no key.
abbrev pub pack : Zset → Option ℕ → Entry
pack [] d = missing
pack (m ∷ z) d = held (sorted (m ∷ z)) d

abbrev pub members : Entry → Zset
members missing = []
members (held (text b) d) = []
members (held (sorted z) d) = z

abbrev pub deadline : Entry → Option ℕ
deadline missing = none
deadline (held x d) = d

-- Whether a key can be used as a sorted set, and as a string.
abbrev pub IsSorted : Entry → Type 0
IsSorted missing = Unit {0}
IsSorted (held (text b) d) = ⊥
IsSorted (held (sorted z) d) = Unit {0}

abbrev pub IsText : Entry → Type 0
IsText missing = Unit {0}
IsText (held (text b) d) = Unit {0}
IsText (held (sorted z) d) = ⊥

same_at :
    (k : Bytes) {e : Entry} (v : View)
    → v.at k ≡ e
    → (j : Bytes) → (if same k j then e else v.at j) ≡ v.at j
same_at k {e} v h j = elim (Bool-cases (same k j)) [
  | inl p ↦ rw p (rw (← (same_iff k j).0 p) (sym h))
  | inr p ↦ rw p
]

last_at :
    (k : Bytes) (e e' : Entry) (v : View) (j : Bytes)
    → (put k e (put k e' v)).at j ≡ (put k e v).at j
last_at k e e' v j = ground arith

pub members-pack : (z : Zset) (d : Option ℕ) → members (pack z d) ≡ z
members-pack [] d = refl
members-pack (m ∷ z) d = refl

pub pack-IsSorted : (z : Zset) (d : Option ℕ) → IsSorted (pack z d)
pack-IsSorted [] d = tt
pack-IsSorted (m ∷ z) d = tt

pub Entry-cases : (e : Entry) → (e ≡ missing) ⊎ ((x : Value) × (d : Option ℕ) × (e ≡ held x d))
Entry-cases missing = inl refl
Entry-cases (held x d) = inr (x, d, refl)

-- To write what a key holds already changes nothing.
pub put_same : (k : Bytes) {e : Entry} (v : View) → v.at k ≡ e → put k e v ≡ v
put_same k {e} v h = λ i. record { clock = v.clock; at = fun_ext (same_at k v h) i }

-- Of two writes to a key the second stands.
pub put-put : (k : Bytes) (e e' : Entry) (v : View) → put k e (put k e' v) ≡ put k e v
put-put k e e' v = λ i. record { clock = v.clock; at = fun_ext (last_at k e e' v) i }
