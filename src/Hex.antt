-- ===== src/Hex.antt =====
-- lib/server/Utils.cpp: conversion between binary values and strings of hex digits. A buffer is
-- a list of bytes; what is read past its end is the NUL that ends every string here. A function
-- that ends in a failed `assert` has the outcome `fault assertion`.
pub mod RegText
pub mod Digit
pub mod Register
pub mod Value
pub mod Text
use embdebug.Base.{
  ℕ, zero, suc, ◌+◌, ◌-◌, ◌*◌, ◌/◌, ◌%◌, ◌^◌, bit_and, bit_or, Bool, true, false, ◌&&◌, ◌||◌, List,
  [], ◌∷◌, ◌++◌, reverse, Bytes, codes, leb, ltb, ◌==◌, if◌then◌else◌, get_or, length,
}
use embdebug.Base.Outcome.{Outcome, ok, fault, assertion, assert, ◌>>=◌, ◌>>◌}

abbrev within : ℕ → ℕ → ℕ → Bool
within lo hi c = leb lo c && leb c hi

-- `isxdigit` of the C library, in the C locale.
unfoldable pub is_xdigit : ℕ → Bool
is_xdigit c = within b'0' b'9' c || within b'A' b'F' c || within b'a' b'f' c

-- The loop of `isHexStr` over the characters left.
all_xdigits : Bytes → ℕ → Bool
unfolding is_xdigit
all_xdigits buf zero = true
all_xdigits [] (suc len) = is_xdigit 0
all_xdigits (c ∷ buf) (suc len) = is_xdigit c && all_xdigits buf len

unfoldable pub is_hex_str : Bytes → ℕ → Bool
unfolding all_xdigits
is_hex_str buf len = if ltb len 1 then false else all_xdigits buf len

-- The conditional of `char2Hex`; the `-1` of its last case is the byte 255.
unfoldable pub hex_value : ℕ → ℕ
hex_value c =
    if within b'a' b'f' c
    then c - b'a' + 10
    else if within b'0' b'9' c
    then c - b'0'
    else if within b'A' b'F' c
    then c - b'A' + 10
    else 255

unfoldable pub char2hex : ℕ → Outcome ℕ
unfolding is_hex_str hex_value
char2hex c = do assert (is_hex_str (c ∷ []) 1); ok (hex_value c)

-- The static array `map`.
abbrev pub hex_map : Bytes
hex_map = codes "0123456789abcdef"

unfoldable pub hex2char : ℕ → Outcome ℕ
hex2char d = do assert (leb d 0xf); ok (get_or hex_map d 0)

-- The two characters of one byte of a register.
pub byte_chars : ℕ → Outcome (ℕ × ℕ)
unfolding hex2char
byte_chars byte = do
  hi ← hex2char (bit_and (byte / 2 ^ 4) 0xf)
  lo ← hex2char (bit_and byte 0xf)
  ok (hi, lo)

-- The loop that counts up: the characters from position `n` on.
pub reg_little : ℕ → ℕ → Outcome Bytes
unfolding byte_chars
reg_little zero val = ok []
reg_little (suc rounds) val = do
  (hi, lo) ← byte_chars (bit_and val 0xff)
  rest ← reg_little rounds (val / 256)
  ok (hi ∷ lo ∷ rest)

-- The loop that counts down: `done` is what stands behind the characters written next.
pub reg_big : ℕ → ℕ → Bytes → Outcome Bytes
unfolding byte_chars
reg_big zero val done = ok done
reg_big (suc n) val done = do
  (hi, lo) ← byte_chars (bit_and val 0xff)
  reg_big n (val / 256) (hi ∷ lo ∷ done)

-- The buffer up to its final NUL.
pub reg_val2hex : ℕ → ℕ → Bool → Outcome Bytes
unfolding reg_little reg_big
reg_val2hex val num_bytes is_little_endian = do
  assert (leb num_bytes 8)
  if is_little_endian then reg_little num_bytes val else reg_big num_bytes val []

-- `val = (val << 4) | char2Hex(c)` on 64 bits.
pub shift_in : ℕ → ℕ → Outcome ℕ
unfolding char2hex
shift_in val c = do d ← char2hex c; ok (bit_or (val * 2 ^ 4 % 2 ^ 64) d)

-- The body of both loops of `hex2RegVal`, at byte `n`.
pub shift_in_byte : Bytes → ℕ → ℕ → Outcome ℕ
unfolding shift_in
shift_in_byte buf n val = do
  val ← shift_in val (get_or buf (n * 2) 0)
  shift_in val (get_or buf (n * 2 + 1) 0)

-- From byte `n - 1` down to byte 0.
pub val_little : Bytes → ℕ → ℕ → Outcome ℕ
unfolding shift_in_byte
val_little buf zero val = ok val
val_little buf (suc n) val = do val ← shift_in_byte buf n val; val_little buf n val

-- From byte `n` up, over the rounds left.
pub val_big : Bytes → ℕ → ℕ → ℕ → Outcome ℕ
unfolding shift_in_byte
val_big buf zero n val = ok val
val_big buf (suc rounds) n val = do val ← shift_in_byte buf n val; val_big buf rounds (n + 1) val

pub hex2reg_val : Bytes → ℕ → Bool → Outcome ℕ
unfolding val_little val_big is_hex_str
hex2reg_val buf num_bytes is_little_endian = do
  assert (leb num_bytes 8)
  assert (is_hex_str buf num_bytes)
  if is_little_endian then val_little buf num_bytes 0 else val_big buf num_bytes 0 0

-- The do loop of `val2Hex`: the digits, lowest first. A 64-bit value has 16 digits at most, so
-- 16 rounds are enough.
pub val_digits : ℕ → ℕ → Outcome Bytes
unfolding hex2char
val_digits zero val = ok []
val_digits (suc rounds) val =
    let rest = val_digits rounds (val / 2 ^ 4) in
    do c ← hex2char (bit_and val 0xf); cs ← (if val / 2 ^ 4 == 0 then ok [] else rest); ok (c ∷ cs)

-- The string; the C function returns its length. The swap loop is the reversal.
pub val2hex : ℕ → Outcome Bytes
unfolding val_digits
val2hex val = do digits ← val_digits 16 val; ok (reverse digits)

pub val_loop : Bytes → ℕ → ℕ → Outcome ℕ
unfolding shift_in
val_loop buf zero val = ok val
val_loop [] (suc len) val = do val ← shift_in val 0; val_loop [] len val
val_loop (c ∷ buf) (suc len) val = do val ← shift_in val c; val_loop buf len val

unfoldable pub hex2val : Bytes → ℕ → Outcome ℕ
unfolding val_loop is_hex_str
hex2val buf len = do assert (leb len 8); assert (is_hex_str buf len); val_loop buf len 0

-- On the characters of the source up to its NUL; a negative `char` keeps its low eight bits
-- under the mask.
pub ascii2hex : Bytes → Outcome Bytes
unfolding hex2char
ascii2hex [] = ok []
ascii2hex (ch ∷ src) = do
  hi ← hex2char (bit_and (ch / 2 ^ 4) 0xf)
  lo ← hex2char (bit_and ch 0xf)
  rest ← ascii2hex src
  ok (hi ∷ lo ∷ rest)

-- A last single digit is dropped.
unfoldable pub hex2ascii : Bytes → Outcome Bytes
unfolding char2hex is_hex_str
hex2ascii [] = ok []
hex2ascii (a ∷ []) = ok []
hex2ascii (a ∷ b ∷ src) = do
  assert (is_hex_str (a ∷ b ∷ src) 2)
  hi ← char2hex a
  lo ← char2hex b
  rest ← hex2ascii src
  ok (bit_or (bit_and hi 0xf * 2 ^ 4) (bit_and lo 0xf) ∷ rest)
