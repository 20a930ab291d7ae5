-- ===== src/Redis/Zset.antt =====
-- A sorted set as Redis documents it: members with scores, kept in the byte order of the members.
use mcpg_plugin_cluster_redi.Common.{
  ℕ, ◌≡◌, refl, Bool, true, false, Option, none, some, List, [], ◌∷◌, Bytes, same, same_iff, arith,
  ltb, leb, ◌==◌, if◌then◌else◌, ◌&&◌,
}

-- The byte order, `memcmp` and then the length.
unfoldable pub lex_lt : Bytes → Bytes → Bool
lex_lt [] [] = false
lex_lt [] (y ∷ ys) = true
lex_lt (x ∷ xs) [] = false
lex_lt (x ∷ xs) (y ∷ ys) = let rest = lex_lt xs ys in if ltb x y then true else (x == y) && rest

abbrev pub Zset : Type 0
Zset = List (Bytes × ℕ)

-- ZSCORE
unfoldable pub score : Bytes → Zset → Option ℕ
score m [] = none
score m ((k, n) ∷ z) = if same k m then some n else score m z

unfoldable pub insert : Bytes → ℕ → Zset → Zset
insert m n [] = (m, n) ∷ []
insert m n ((k, x) ∷ z) =
    let rest = insert m n z in
    if same k m then (m, n) ∷ z else if lex_lt m k then (m, n) ∷ (k, x) ∷ z else (k, x) ∷ rest

unfoldable pub remove : Bytes → Zset → Zset
remove m [] = []
remove m ((k, x) ∷ z) = let rest = remove m z in if same k m then rest else (k, x) ∷ rest

pub score-insert :
    (m j : Bytes) (n : ℕ) (z : Zset)
    → score j (insert m n z) ≡ (if same m j then some n else score j z)
unfolding score insert
score-insert m j n [] = refl
score-insert m j n ((k, x) ∷ z) =
    ground (arith, same_iff k m, same_iff k j, same_iff m j, score-insert m j n z)

pub score-remove :
    (m j : Bytes) (z : Zset) → score j (remove m z) ≡ (if same m j then none else score j z)
unfolding score remove
score-remove m j [] = ground arith
score-remove m j ((k, x) ∷ z) =
    ground (arith, same_iff k m, same_iff k j, same_iff m j, score-remove m j z)

-- The lower end of a lexicographic range: `[min` or `(min`.
pub data Bound : Type 0 where
  from after : Bytes → Bound

abbrev pub above : Bound → Bytes → Bool
above (from min) m = elim (lex_lt m min) [ true ↦ false | false ↦ true ]
above (after min) m = lex_lt min m

-- The members from `lo` up to `hi`, the upper end not included.
unfoldable pub lex_range : Bound → Bytes → Zset → List Bytes
lex_range lo hi [] = []
lex_range lo hi ((m, n) ∷ z) =
    let rest = lex_range lo hi z in if above lo m && lex_lt m hi then m ∷ rest else rest

-- Score order, members of one score in byte order: an insertion sort that keeps that order.
unfoldable pub by_score_insert : Bytes → ℕ → Zset → Zset
by_score_insert m n [] = (m, n) ∷ []
by_score_insert m n ((k, x) ∷ z) =
    let rest = by_score_insert m n z in if leb n x then (m, n) ∷ (k, x) ∷ z else (k, x) ∷ rest

unfoldable pub by_score : Zset → Zset
by_score [] = []
by_score ((m, n) ∷ z) = by_score_insert m n (by_score z)

unfoldable pub names : Zset → List Bytes
names [] = []
names ((m, n) ∷ z) = m ∷ names z

-- The part of a set with scores at most `top`, and the part above it.
unfoldable pub upto : ℕ → Zset → Zset
upto top [] = []
upto top ((m, n) ∷ z) = let rest = upto top z in if leb n top then (m, n) ∷ rest else rest

unfoldable pub beyond : ℕ → Zset → Zset
beyond top [] = []
beyond top ((m, n) ∷ z) = let rest = beyond top z in if ltb top n then (m, n) ∷ rest else rest
