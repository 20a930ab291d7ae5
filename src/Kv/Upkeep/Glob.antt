-- ===== src/Kv/Upkeep/Glob.antt =====
-- `glob_escape` of src/state/kv.rs against Redis's glob patterns, as SCAN MATCH reads them.
use mcpg_plugin_cluster_redi.Common.{ℕ, ◌≡◌, Bool, true, false, [], ◌∷◌, Bytes, ◌==◌, if◌then◌else◌}
use mcpg_plugin_cluster_redi.Kv.Upkeep.{is_special}

-- What Redis documents of a glob pattern: an escaped character, and one that is not special, match
-- themselves, a final '*' matches any rest, and an empty pattern matches nothing more.
pub record Glob : Type 0 where
  pub matches : Bytes → Bytes → Bool
  pub empty : matches [] [] ≡ true
  pub empty_over : (d : ℕ) (s : Bytes) → matches [] (d ∷ s) ≡ false
  pub star : (s : Bytes) → matches (b'*' ∷ []) s ≡ true
  pub plain :
      (c : ℕ) (p : Bytes) (d : ℕ) (s : Bytes)
      → is_special c ≡ false
      → matches (c ∷ p) (d ∷ s) ≡ (if c == d then matches p s else false)
  pub plain_over : (c : ℕ) (p : Bytes) → is_special c ≡ false → matches (c ∷ p) [] ≡ false
  pub escaped :
      (c : ℕ) (p : Bytes) (d : ℕ) (s : Bytes)
      → matches (b'\\' ∷ c ∷ p) (d ∷ s) ≡ (if c == d then matches p s else false)
  pub escaped_over : (c : ℕ) (p : Bytes) → matches (b'\\' ∷ c ∷ p) [] ≡ false
