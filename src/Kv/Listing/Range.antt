-- ===== src/Kv/Listing/Range.antt =====
-- src/state/kv.rs: the range that a page asks of the key index.
use mcpg_plugin_cluster_redi.Common.{
  ◌<◌, ◌≡◌, refl, Bool, true, false, ◌&&◌, Option, none, some, List, [], ◌∷◌, Bytes, if◌then◌else◌,
  arith, ◌==◌,
}
use mcpg_plugin_cluster_redi.Redis.Zset.{Zset, from, after, above, lex_lt, lex_range, names}
use mcpg_plugin_cluster_redi.Kv.Listing.{page_start, page_end}

-- UTF-8 never holds the byte 0xFF.
abbrev pub IsText : Bytes → Type 0
IsText [] = Unit {0}
IsText (b ∷ s) = (b < 0xFF) × IsText s

abbrev pub AllText : Zset → Type 0
AllText [] = Unit {0}
AllText ((m, n) ∷ z) = IsText m × AllText z

unfoldable pub begins : Bytes → Bytes → Bool
begins [] k = true
begins (x ∷ p) [] = false
begins (x ∷ p) (y ∷ k) = (x == y) && begins p k

-- The keys of an index that a page may list: those with the prefix, and behind the cursor.
abbrev pub behind : Option Bytes → Bytes → Bool
behind none k = true
behind (some full) k = lex_lt full k

abbrev pub listed : Bytes → Option Bytes → List Bytes → List Bytes
listed p cursor [] = []
listed p cursor (k ∷ ks) =
    let rest = listed p cursor ks in if begins p k && behind cursor k then k ∷ rest else rest

abbrev pub CursorOf : Bytes → Option Bytes → Type 0
CursorOf p none = Unit {0}
CursorOf p (some full) = begins p full ≡ true

below_end : (p k : Bytes) → IsText k → begins p k ≡ true → lex_lt k (page_end p) ≡ true
unfolding begins lex_lt
below_end [] [] h b = refl
below_end [] (y ∷ k) (small, h) b = ground arith
below_end (x ∷ p) [] h b = cc
below_end (x ∷ p) (y ∷ k) (small, h) b = ground (arith, below_end p k h)

from_prefix : (p k : Bytes) → IsText k → (above (from p) k && lex_lt k (page_end p)) ≡ begins p k
unfolding begins lex_lt
from_prefix [] [] h = refl
from_prefix [] (y ∷ k) (small, h) = ground arith
from_prefix (x ∷ p) [] h = refl
from_prefix (x ∷ p) (y ∷ k) (small, h) = ground (arith, from_prefix p k h)

after_cursor :
    (p full k : Bytes)
    → IsText k
    → begins p full ≡ true
    → (above (after full) k && lex_lt k (page_end p)) ≡ (begins p k && lex_lt full k)
unfolding begins lex_lt
after_cursor [] [] [] h b = refl
after_cursor [] (a ∷ full) [] h b = refl
after_cursor [] [] (y ∷ k) (small, h) b = ground arith
after_cursor [] (a ∷ full) (y ∷ k) (small, h) b = ground arith
after_cursor (x ∷ p) [] k h b = cc
after_cursor (x ∷ p) (a ∷ full) [] h b = refl
after_cursor (x ∷ p) (a ∷ full) (y ∷ k) (small, h) b = ground (arith, after_cursor p full k h)

in_page :
    (p : Bytes) (cursor : Option Bytes) (k : Bytes)
    → IsText k
    → CursorOf p cursor
    → (above (page_start p cursor) k && lex_lt k (page_end p)) ≡ (begins p k && behind cursor k)
in_page p none k h c = ground (arith, from_prefix p k h)
in_page p (some full) k h c = after_cursor p full k h c

-- In an index of texts without the byte 0xFF, the range of a page holds the keys that begin with the
-- page's prefix and, if there is a cursor, which begins with it too, come after the cursor: all of
-- them, in the order of the index, and no others.
pub lex_range-page :
    (p : Bytes) (cursor : Option Bytes) (z : Zset)
    → AllText z
    → CursorOf p cursor
    → lex_range (page_start p cursor) (page_end p) z ≡ listed p cursor (names z)
unfolding lex_range names
lex_range-page p cursor [] h c = refl
lex_range-page p cursor ((m, n) ∷ z) (t, h) c =
    rw (in_page p cursor m t c) (rw (lex_range-page p cursor z h c))
