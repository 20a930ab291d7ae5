-- ===== src/Envelope/Utf8.antt =====
-- `std::str::from_utf8` as src/envelope.rs uses it: whether a byte string is well-formed UTF-8.
use mcpg_plugin_cluster_redi.Common.{
  ℕ, zero, suc, Bool, true, false, ◌&&◌, Option, none, some, Bytes, [], ◌∷◌, ltb, leb, ◌==◌,
  if◌then◌else◌,
}

-- Between two characters, or inside one: the range of the next byte, and how many follow it.
pub data Utf8 : Type 0 where
  start : Utf8
  expect : ℕ → ℕ → ℕ → Utf8

unfoldable pub lead : ℕ → Option Utf8
lead b =
    if ltb b 0x80
    then some start
    else if leb 0xC2 b && leb b 0xDF
    then some (expect 0x80 0xBF 0)
    else if b == 0xE0
    then some (expect 0xA0 0xBF 1)
    else if b == 0xED
    then some (expect 0x80 0x9F 1)
    else if leb 0xE1 b && leb b 0xEF
    then some (expect 0x80 0xBF 1)
    else if b == 0xF0
    then some (expect 0x90 0xBF 2)
    else if leb 0xF1 b && leb b 0xF3
    then some (expect 0x80 0xBF 2)
    else if b == 0xF4
    then some (expect 0x80 0x8F 2)
    else none

unfoldable pub next : Utf8 → ℕ → Option Utf8
unfolding lead
next start b = lead b
next (expect lo hi zero) b = if leb lo b && leb b hi then some start else none
next (expect lo hi (suc n)) b = if leb lo b && leb b hi then some (expect 0x80 0xBF n) else none

unfoldable pub utf8_from : Option Utf8 → Bytes → Bool
unfolding next
utf8_from none bytes = false
utf8_from (some start) [] = true
utf8_from (some (expect lo hi n)) [] = false
utf8_from (some s) (b ∷ bytes) = utf8_from (next s b) bytes

unfoldable pub is_utf8 : Bytes → Bool
unfolding utf8_from
is_utf8 bytes = utf8_from (some start) bytes
