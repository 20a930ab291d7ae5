-- ===== src/Redis/Commands/Laws.antt =====
-- The documented commands on keys of the right type, as equations.
pub mod Ranges
pub mod Strings
use mcpg_plugin_cluster_redi.Common.{
  ℕ, ◌+◌, ◌-◌, ◌<◌, ◌^◌, ◌≡◌, refl, true, false, Option, none, some, Bytes, arith, take, inl, inr,
  Option-cases,
}
use mcpg_plugin_cluster_redi.Common.Int.{ℤ, pos, negsuc, fits_i64, ◌+ℤ◌}
use mcpg_plugin_cluster_redi.Script.{ok, err, refused}
use mcpg_plugin_cluster_redi.Redis.Zset.{
  Zset, insert, remove, Bound, lex_range, by_score, names, upto,
}
use mcpg_plugin_cluster_redi.Redis.View.{
  View, Value, Entry, missing, held, text, sorted, put, pack, members, deadline, IsSorted, IsText,
  Entry-cases, put_same,
}
use mcpg_plugin_cluster_redi.Redis.Commands.{
  Codec, documented, on_zset, read_zset, valid_ttl, set_nx_entry, pexpire_entry, persist_entry,
  incrby_entry, get_entry, pttl_entry,
}

abbrev pub with_member : Bytes → ℕ → Entry → Entry
with_member m n e = pack (insert m n (members e)) (deadline e)

abbrev pub without_member : Bytes → Entry → Entry
without_member m e = pack (remove m (members e)) (deadline e)

abbrev pub give_ttl : Option ℕ → Entry → Entry
give_ttl d missing = missing
give_ttl d (held x _) = held x d

abbrev pub count : Entry → ℕ
count missing = 0
count (held x d) = 1

-- The number that INCRBY reads: 0 for a missing key.
abbrev pub number_of : Codec → Entry → Option ℤ
number_of c missing = some (pos 0)
number_of c (held (text b) d) = c.as_int b
number_of c (held (sorted z) d) = none

abbrev pub text_of : Entry → Option Bytes
text_of missing = none
text_of (held (text b) d) = some b
text_of (held (sorted z) d) = none

-- PTTL: -2 for a missing key, -1 for one with no deadline.
abbrev pub pttl_of : ℕ → Entry → ℤ
pttl_of now missing = negsuc 1
pttl_of now (held x none) = negsuc 0
pttl_of now (held x (some d)) = pos (d - now)

module _ (c : Codec) where
  pttl_entry_lem : (now : ℕ) (e : Entry) → pttl_entry c now e ≡ pttl_of now e
  unfolding pttl_entry
  pttl_entry_lem now missing = refl
  pttl_entry_lem now (held x none) = refl
  pttl_entry_lem now (held x (some d)) = refl

  get_entry_lem : (e : Entry) → IsText e → get_entry c e ≡ ok (text_of e)
  unfolding get_entry
  get_entry_lem missing h = refl
  get_entry_lem (held (text b) d) h = refl
  get_entry_lem (held (sorted z) d) h = absurd h

  pub get_lem :
      (k : Bytes) (v : View) → IsText (v.at k) → (documented c).get k v ≡ (ok (text_of (v.at k)), v)
  unfolding documented
  get_lem k v h = rw (get_entry_lem (v.at k) h)

  on_zset_lem :
      {A : Type 0} (k : Bytes) (f : Zset → Zset) (g : Zset → A) (e : Entry) (v : View)
      → IsSorted e
      → on_zset c k f g e v ≡ (ok (g (members e)), put k (pack (f (members e)) (deadline e)) v)
  unfolding on_zset
  on_zset_lem k f g missing v h = refl
  on_zset_lem k f g (held (text b) d) v h = absurd h
  on_zset_lem k f g (held (sorted z) d) v h = refl

  read_zset_lem :
      {A : Type 0} (g : Zset → A) (e : Entry) (v : View)
      → IsSorted e
      → read_zset c g e v ≡ (ok (g (members e)), v)
  unfolding read_zset
  read_zset_lem g missing v h = refl
  read_zset_lem g (held (text b) d) v h = absurd h
  read_zset_lem g (held (sorted z) d) v h = refl

  pub zadd_lem :
      (k : Bytes) (n : ℕ) (m : Bytes) (v : View)
      → IsSorted (v.at k)
      → (documented c).zadd k n m v ≡ (ok tt, put k (with_member m n (v.at k)) v)
  unfolding documented
  zadd_lem k n m v h = on_zset_lem k (insert m n) (λ z. tt) (v.at k) v h

  pub zrem_lem :
      (k m : Bytes) (v : View)
      → IsSorted (v.at k)
      → (documented c).zrem k m v ≡ (ok tt, put k (without_member m (v.at k)) v)
  unfolding documented
  zrem_lem k m v h = on_zset_lem k (remove m) (λ z. tt) (v.at k) v h

  pub zrangebylex_lem :
      (k : Bytes) (lo : Bound) (hi : Bytes) (n : ℕ) (v : View)
      → IsSorted (v.at k)
      → (documented c).zrangebylex k lo hi n v
        ≡ (ok (take n (lex_range lo hi (members (v.at k)))), v)
  unfolding documented
  zrangebylex_lem k lo hi n v h = read_zset_lem (λ z. take n (lex_range lo hi z)) (v.at k) v h

  pub zrangebyscore_upto_lem :
      (k : Bytes) (top n : ℕ) (v : View)
      → IsSorted (v.at k)
      → (documented c).zrangebyscore_upto k top n v
        ≡ (ok (take n (names (by_score (upto top (members (v.at k)))))), v)
  unfolding documented
  zrangebyscore_upto_lem k top n v h =
      read_zset_lem (λ z. take n (names (by_score (upto top z)))) (v.at k) v h

  pub valid-small : (now ttl : ℕ) → 0 < ttl → now + ttl < 2 ^ 53 → valid_ttl now ttl ≡ true
  valid-small now ttl h k = ground arith

  pexpire_held :
      (k : Bytes) (ttl : ℕ) (e : Entry) (x : _) (d : _) (v : View)
      → e ≡ held x d
      → valid_ttl v.clock ttl ≡ true
      → pexpire_entry c k ttl e v ≡ (ok 1, put k (held x (some (v.clock + ttl))) v)
  unfolding pexpire_entry
  pexpire_held k ttl e x d v h w = rw h (rw w)

  pub pexpire_refused :
      (k : Bytes) (ttl : ℕ) {x : Value} {d : Option ℕ} (v : View)
      → v.at k ≡ held x d
      → valid_ttl v.clock ttl ≡ false
      → (documented c).pexpire k ttl v ≡ (err refused, v)
  unfolding documented
  pexpire_refused k ttl v h w = rw (h, pexpire_entry) (rw w)

  pub pexpire_lem :
      (k : Bytes) (ttl : ℕ) {x : _} {d : _} (v : View)
      → v.at k ≡ held x d
      → valid_ttl v.clock ttl ≡ true
      → (documented c).pexpire k ttl v ≡ (ok 1, put k (held x (some (v.clock + ttl))) v)
  unfolding documented
  pexpire_lem k ttl {x} {d} v h w = pexpire_held k ttl (v.at k) x d v h w

  pub del_lem :
      (k : Bytes) (v : View) → (documented c).del k v ≡ (ok (count (v.at k)), put k missing v)
  unfolding documented
  del_lem k v = elim (Entry-cases (v.at k)) [
    | inl e ↦ rw e (rw (put_same k v e))
    | inr (x, d, e) ↦ rw e
  ]

  pub exists_lem : (k : Bytes) (v : View) → (documented c).exists k v ≡ (ok (count (v.at k)), v)
  unfolding documented
  exists_lem k v = elim (Entry-cases (v.at k)) [ inl e ↦ rw e | inr (x, d, e) ↦ rw e ]

  persist_held :
      (k : Bytes) (x : Value) (d : Option ℕ) (v : View)
      → v.at k ≡ held x d
      → (n : ℕ) × (persist_entry c k (held x d) v ≡ (ok n, put k (held x none) v))
  unfolding persist_entry
  persist_held k x none v h = (0, rw (put_same k v h))
  persist_held k x (some d) v h = (1, refl)

  pub persist_lem :
      (k : Bytes) (x : Value) (d : Option ℕ) (v : View)
      → v.at k ≡ held x d
      → (n : ℕ) × ((documented c).persist k v ≡ (ok n, put k (held x none) v))
  unfolding documented
  persist_lem k x d v h = rw h (persist_held k x d v h)

  -- INCRBY on a key that is missing (0) or holds an integer, and whose sum fits.
  incrby_entry_lem :
      (k : Bytes) (delta : ℤ) (e : Entry) (n : ℤ) (v : View)
      → number_of c e ≡ some n
      → fits_i64 (n +ℤ delta) ≡ true
      → incrby_entry c k delta e v
        ≡ (ok (n +ℤ delta), put k (held (text (c.of_int (n +ℤ delta))) (deadline e)) v)
  unfolding incrby_entry
  incrby_entry_lem k delta missing n v h f = ground arith
  incrby_entry_lem k delta (held (text b) d) n v h f = rw h (rw f)
  incrby_entry_lem k delta (held (sorted z) d) n v h f = ground arith

  pub incrby_lem :
      (k : Bytes) (delta n : ℤ) (v : View)
      → number_of c (v.at k) ≡ some n
      → fits_i64 (n +ℤ delta) ≡ true
      → (documented c).incrby k delta v
        ≡ (ok (n +ℤ delta), put k (held (text (c.of_int (n +ℤ delta))) (deadline (v.at k))) v)
  unfolding documented
  incrby_lem k delta n v h f = incrby_entry_lem k delta (v.at k) n v h f

  incrby_entry_fails :
      (k : Bytes) (delta : ℤ) (e : Entry) (v : View)
      → ((n : ℤ) → number_of c e ≡ some n → fits_i64 (n +ℤ delta) ≡ false)
      → incrby_entry c k delta e v ≡ (err refused, v)
  unfolding incrby_entry
  incrby_entry_fails k delta missing v h = rw (h (pos 0) refl)
  incrby_entry_fails k delta (held (text b) d) v h = elim (Option-cases (c.as_int b)) [
    | inl e ↦ rw e
    | inr (n, e) ↦ rw e (rw (h n e))
  ]
  incrby_entry_fails k delta (held (sorted z) d) v h = refl

  -- INCRBY on anything else, or past the range of an i64, changes nothing.
  pub incrby_fails :
      (k : Bytes) (delta : ℤ) (v : View)
      → ((n : ℤ) → number_of c (v.at k) ≡ some n → fits_i64 (n +ℤ delta) ≡ false)
      → (documented c).incrby k delta v ≡ (err refused, v)
  unfolding documented
  incrby_fails k delta v h = incrby_entry_fails k delta (v.at k) v h

  pub pttl_lem :
      (k : Bytes) (v : View) → (documented c).pttl k v ≡ (ok (pttl_of v.clock (v.at k)), v)
  unfolding documented
  pttl_lem k v = rw (pttl_entry_lem v.clock (v.at k))

  pub return_integer_lem :
      (n : ℤ) (v : View) → (documented c).return_integer n v ≡ (ok (c.through_lua n), v)
  unfolding documented
  return_integer_lem n v = refl
