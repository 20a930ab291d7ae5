-- ===== src/Kv/Spec.antt =====
-- What the key/value store promises, with no Redis in it: a map from keys to values, each of which
-- may have a deadline, on a clock. src/state/kv.rs implements it.
pub mod Refines
pub mod Steps
pub mod Run
pub mod Refinement
use mcpg_plugin_cluster_redi.Common.{
  ℕ, ◌+◌, ◌-◌, Bool, true, false, Option, none, some, List, [], ◌∷◌, Bytes, same, ltb,
  if◌then◌else◌,
}
use mcpg_plugin_cluster_redi.Common.Int.{ℤ, pos, ◌+ℤ◌, fits_i64}
use mcpg_plugin_cluster_redi.Client.{ClusterError, precondition, Result, done, fail}
use mcpg_plugin_cluster_redi.Redis.Commands.{Codec}
use mcpg_plugin_cluster_redi.Kv.Store.{KvEntry, ttl_ms}

pub record Item : Type 0 where
  pub value : Bytes
  pub deadline : Option ℕ

-- The map at one instant: the clock of the deadlines, the clock of the replica, and the items.
pub record Map : Type 0 where
  pub clock : ℕ
  pub now : ℕ
  pub at : Bytes → Option Item

pub data Command : Type 0 where
  get delete : (key : Bytes) → Command
  put put_if_absent : (key value : Bytes) (ttl : Option ℕ) → Command
  expire : (key : Bytes) (ttl : Option ℕ) → Command
  incr : (key : Bytes) (delta : ℤ) (ttl : Option ℕ) → Command
  wait : ℕ → Command

pub data Answer : Type 0 where
  entry : Option KvEntry → Answer
  stored waited : Answer
  flag : Bool → Answer
  number : ℤ → Answer
  failed : ClusterError → Answer

abbrev pub write : Bytes → Option Item → Map → Map
write k i m = record m { at = λ j. if same k j then i else m.at j }

abbrev pub from_now : ℕ → ℕ → Option ℕ
from_now clock ttl = if ltb 0 ttl then some (clock + ttl) else none

-- A counter keeps its deadline where no TTL is given.
abbrev pub kept : ℕ → ℕ → Option ℕ → Option ℕ
kept clock ttl d = if ltb 0 ttl then some (clock + ttl) else d

-- A deadline as the replica's clock tells it.
abbrev pub shown : ℕ → ℕ → Option ℕ → Option ℕ
shown now clock none = none
shown now clock (some d) = some (now + (d - clock))

abbrev pub seen : ℕ → ℕ → Option Item → Option KvEntry
seen now clock none = none
seen now clock (some i) = some (record { bytes = i.value; expires_at = shown now clock i.deadline })

abbrev pub is_there : Option Item → Bool
is_there none = false
is_there (some i) = true

abbrev pub until : ℕ → Item → Option ℕ → Option Item
until clock i none = some i
until clock i (some d) = if ltb d clock then none else some i

abbrev pub alive : ℕ → Option Item → Option Item
alive clock none = none
alive clock (some i) = until clock i i.deadline

abbrev pub integer : Codec → Option Item → Option ℤ
integer codec none = some (pos 0)
integer codec (some i) = codec.as_int i.value

abbrev pub deadline_of : Option Item → Option ℕ
deadline_of none = none
deadline_of (some i) = i.deadline

abbrev if_absent : Bytes → Item → Option Item → Map → Answer × Map
if_absent k i none m = (flag true, write k (some i) m)
if_absent k i (some old) m = (flag false, m)

abbrev if_there : Bytes → Option ℕ → Option Item → Map → Answer × Map
if_there k d none m = (flag false, m)
if_there k d (some i) m = (flag true, write k (some (record i { deadline = d })) m)

-- The answer goes through Lua, which has numbers up to 2^53 exactly; the map has the sum itself.
abbrev count_up : Codec → Bytes → ℤ → ℕ → Option ℤ → Map → Answer × Map
count_up codec k delta ttl none m = (failed precondition, m)
count_up codec k delta ttl (some n) m =
    if fits_i64 (n +ℤ delta)
    then (
      number (codec.through_lua (n +ℤ delta)),
      write k
          (some (record {
            value = codec.of_int (n +ℤ delta);
            deadline = kept m.clock ttl (deadline_of (m.at k));
          }))
          m,
    )
    else (failed precondition, m)

-- What each operation answers, and the map after it.
unfoldable pub step : Codec → Command → Map → Answer × Map
step codec (get k) m = (entry (seen m.now m.clock (m.at k)), m)
step codec (delete k) m = (flag (is_there (m.at k)), write k none m)
step codec (put k x ttl) m =
    (stored, write k (some (record { value = x; deadline = from_now m.clock (ttl_ms ttl) })) m)
step codec (put_if_absent k x ttl) m =
    if_absent k (record { value = x; deadline = from_now m.clock (ttl_ms ttl) }) (m.at k) m
step codec (expire k ttl) m = if_there k (from_now m.clock (ttl_ms ttl)) (m.at k) m
step codec (incr k delta ttl) m = count_up codec k delta (ttl_ms ttl) (integer codec (m.at k)) m
step codec (wait n) m = (
  waited,
  record { clock = m.clock + n; now = m.now + n; at = λ k. alive (m.clock + n) (m.at k) },
)

unfoldable pub answers : Codec → List Command → Map → List Answer
answers codec [] m = []
answers codec (c ∷ cs) m = let (a, m') = step codec c m in a ∷ answers codec cs m'
