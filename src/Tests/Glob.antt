-- ===== src/Tests/Glob.antt =====
-- A matcher with the laws of glob patterns, of those with no '*' but at the end.
use mcpg_plugin_cluster_redi.Common.{
  ℕ, ◌≡◌, refl, Bool, true, false, [], ◌∷◌, Bytes, ◌==◌, if◌then◌else◌, arith,
}
use mcpg_plugin_cluster_redi.Kv.Upkeep.{is_special}
use mcpg_plugin_cluster_redi.Kv.Upkeep.Glob.{Glob}

-- Whether the character before was a backslash.
abbrev glob_matches : Bool → Bytes → Bytes → Bool
glob_matches true [] s = false
glob_matches false [] [] = true
glob_matches false [] (d ∷ s) = false
glob_matches true (c ∷ p) [] = false
glob_matches true (c ∷ p) (d ∷ s) =
    let rest = glob_matches false p s in if c == d then rest else false
glob_matches false (c ∷ p) [] =
    let escaped = glob_matches true p [] in
    if c == b'*' then true else if c == b'\\' then escaped else false
glob_matches false (c ∷ p) (d ∷ s) =
    let escaped = glob_matches true p (d ∷ s) in
    let rest = glob_matches false p s in
    if c == b'*' then true else if c == b'\\' then escaped else if c == d then rest else false

star_matches : (s : Bytes) → glob_matches false (b'*' ∷ []) s ≡ true
star_matches [] = refl
star_matches (d ∷ s) = refl

plain_matches :
    (c : ℕ) (p : Bytes) (d : ℕ) (s : Bytes)
    → is_special c ≡ false
    → glob_matches false (c ∷ p) (d ∷ s) ≡ (if c == d then glob_matches false p s else false)
plain_matches c p d s h = ground arith

plain_over_matches :
    (c : ℕ) (p : Bytes) → is_special c ≡ false → glob_matches false (c ∷ p) [] ≡ false
plain_over_matches c p h = ground arith

abbrev glob : Glob
glob = record {
  matches = glob_matches false;
  empty = refl;
  empty_over = λ d s. refl;
  star = star_matches;
  plain = plain_matches;
  plain_over = plain_over_matches;
  escaped = λ c p d s. refl;
  escaped_over = λ c p. refl;
}
