-- ===== src/Common/Text.antt =====
-- Byte strings: Rust's `&[u8]` and the bytes of `&str`, which Redis keys are compared by.
use Prim.Native.Nat.{ℕ}
use Prim.Native.Char.{code}
use Prim.Native.String.{String}
use mathlib.Core.Path.{◌≡◌, refl}
use mathlib.Core.Logic.{◌↔◌, ◌≢◌}
use mathlib.Core.Bool.{Bool, true, false, ◌&&◌, ◌||◌, false≢true}
use mathlib.Core.Option.{Option, none, some}
use mathlib.Core.List.{List, [], ◌∷◌, ◌++◌}
use native.Mathlib.Omega.{arith}
use mcpg_plugin_cluster_redi.Common.Tests.{◌==◌, leb}

abbrev pub Bytes : Type 0
Bytes = List ℕ

-- The bytes of an ASCII literal.
abbrev pub codes : String → Bytes
codes String.[] = []
codes (String.◌∷◌ c s) = code c ∷ codes s

unfoldable pub same : Bytes → Bytes → Bool
same [] [] = true
same [] (y ∷ ys) = false
same (x ∷ xs) [] = false
same (x ∷ xs) (y ∷ ys) = (x == y) && same xs ys

same→eq : (xs ys : Bytes) → same xs ys ≡ true → xs ≡ ys
unfolding same
same→eq [] [] h = refl
same→eq [] (y ∷ ys) h = absurd (false≢true h)
same→eq (x ∷ xs) [] h = absurd (false≢true h)
same→eq (x ∷ xs) (y ∷ ys) h = ground (arith, same→eq xs ys)

pub same_refl : (xs : Bytes) → same xs xs ≡ true
unfolding same
same_refl [] = refl
same_refl (x ∷ xs) = ground (arith, same_refl xs)

pub same_iff : (xs ys : Bytes) → (same xs ys ≡ true) ↔ (xs ≡ ys)
same_iff xs ys = (same→eq xs ys, λ e. rw e (same_refl ys))

pub ne→same : (xs ys : Bytes) → xs ≢ ys → same xs ys ≡ false
ne→same xs ys h = ground (arith, same_iff xs ys)

-- `str::strip_prefix`
unfoldable pub strip_prefix : Bytes → Bytes → Option Bytes
strip_prefix [] s = some s
strip_prefix (p ∷ ps) [] = none
strip_prefix (p ∷ ps) (c ∷ s) = elim (p == c) [ true ↦ strip_prefix ps s | false ↦ none ]

pub strip_prefix-append : (p s : Bytes) → strip_prefix p (p ++ s) ≡ some s
unfolding strip_prefix
strip_prefix-append [] s = refl
strip_prefix-append (p ∷ ps) s = ground (arith, strip_prefix-append ps s)

pub append_cancel : (p s t : Bytes) → p ++ s ≡ p ++ t → s ≡ t
append_cancel [] s t h = h
append_cancel (x ∷ p) s t h = append_cancel p s t (ground arith)

-- What follows a shared prefix tells two keys apart.
pub append-ne : (p : Bytes) {s t : Bytes} → s ≢ t → p ++ s ≢ p ++ t
append-ne p {s} {t} h e = h (append_cancel p s t e)

pub same-append : (p s t : Bytes) → same (p ++ s) (p ++ t) ≡ same s t
unfolding same
same-append [] s t = refl
same-append (c ∷ p) s t = ground (arith, same-append p s t)

-- The characters that `str::trim` drops, of a name given by its code points.
unfoldable pub is_whitespace : ℕ → Bool
is_whitespace c =
    (leb 9 c && leb c 13)
    || (c == 0x20)
    || (c == 0x85)
    || (c == 0xA0)
    || (c == 0x1680)
    || (leb 0x2000 c && leb c 0x200A)
    || (c == 0x2028)
    || (c == 0x2029)
    || (c == 0x202F)
    || (c == 0x205F)
    || (c == 0x3000)

-- `trim().is_empty()`
unfoldable pub is_blank : Bytes → Bool
unfolding is_whitespace
is_blank [] = true
is_blank (c ∷ s) = is_whitespace c && is_blank s
