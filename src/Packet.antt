-- ===== src/Packet.antt =====
-- lib/server/RspPacket.cpp and RspPacket.h: packets and their builder. A packet is the list of its
-- first `len` characters, which are bytes; `size` is the static `bufSize`. A `char` is signed. The
-- source writes behind the end of a builder's buffer where a sum of lengths wraps around: there the
-- contents are longer than `size`.
pub mod Builder
pub mod Rcmd
pub mod Memory
use embdebug.Base.{
  ℕ, zero, suc, ◌+◌, ◌-◌, ◌*◌, ◌/◌, ◌%◌, ◌^◌, bit_and, Bool, true, false, List, [], ◌∷◌, ◌++◌,
  Bytes, codes, leb, ltb, ◌==◌, if◌then◌else◌, length, take,
}
use embdebug.Base.Outcome.{Outcome, ok, fault, undefined}

-- The first value of `bufSize`.
abbrev pub buf_size : ℕ
buf_size = 10000

module _ (size : ℕ) where
  -- `operator+=` of the builder, for a character.
  unfoldable pub add_char : Bytes → ℕ → Bytes
  add_char buf c = if length buf == size then buf else buf ++ c ∷ []

  -- `addData`: the first `len` characters of `str`. The sum of the lengths is a `size_t`.
  unfoldable pub add_data : Bytes → Bytes → ℕ → Bytes
  add_data buf str len = if ltb size ((length buf + len) % 2 ^ 64) then buf else buf ++ take len str

  -- `operator+=` and `addData` for a C string, here without its NUL.
  unfoldable pub add_string : Bytes → Bytes → Bytes
  unfolding add_data
  add_string buf str = add_data buf str (length str)

  abbrev pub erase : Bytes
  erase = []

  -- `getRemaining`, a `size_t`.
  unfoldable pub get_remaining : Bytes → ℕ
  get_remaining buf = (size + 2 ^ 64 - length buf) % 2 ^ 64

-- `str[i] >> 4` of a signed character, as an `uint8_t`.
abbrev pub high_nibble : ℕ → ℕ
high_nibble c = if ltb c 128 then c / 16 else 240 + c / 16

-- `(nybble > 9 ? 'a' - 10 : '0') + nybble`, as a character.
abbrev pub nibble_char : ℕ → ℕ
nibble_char nibble = (if ltb 9 nibble then nibble + (b'a' - 10) else nibble + b'0') % 256

unfoldable pub rcmd_loop : Bytes → Bytes
rcmd_loop [] = []
rcmd_loop (c ∷ str) = nibble_char (high_nibble c) ∷ nibble_char (bit_and c 0x0f) ∷ rcmd_loop str

-- The same with `int` nibbles, the upper one of which may be negative: `-16 + c / 16`.
abbrev pub high_int_char : ℕ → ℕ
high_int_char c = if ltb c 128 then nibble_char (c / 16) else b'0' + c / 16 - 16

unfoldable pub hex_loop : Bytes → Bytes
hex_loop [] = []
hex_loop (c ∷ str) = high_int_char c ∷ nibble_char (bit_and c 0x0f) ∷ hex_loop str

-- `bufSize / 2 - 1`, and the number of characters that are kept.
abbrev pub limit : ℕ → ℕ
limit size = (size / 2 + 2 ^ 64 - 1) % 2 ^ 64

abbrev pub kept : ℕ → Bytes → Bytes
kept size str = if leb (limit size) (length str) then take (limit size) str else str

-- The text is stored in the buffer with a NUL behind it, which must fit. It always does if the size
-- is not below 2, where the limit wraps around.
abbrev pub stored : ℕ → Bytes → Outcome Bytes
stored size text = if ltb (length text) size then ok text else fault undefined

unfoldable pub create_rcmd_str : ℕ → Bytes → Bool → Outcome Bytes
unfolding rcmd_loop
create_rcmd_str size str to_stdout =
    stored size ((if to_stdout then codes "O" else []) ++ rcmd_loop (kept size str))

unfoldable pub create_hex_str : ℕ → Bytes → Outcome Bytes
unfolding hex_loop
create_hex_str size str = stored size (codes "O" ++ hex_loop (kept size str))
