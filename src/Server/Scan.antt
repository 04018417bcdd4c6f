-- ===== src/Server/Scan.antt =====
-- lib/server/GdbServer.cpp: what its calls of `sscanf` and `memchr` do. A conversion `%lx` skips
-- white space, takes a sign and a prefix `0x`, needs a digit, and saturates.
use embdebug.Base.{
  ℕ, zero, suc, ◌-◌, ◌^◌, ◌%◌, Bool, true, false, ◌&&◌, ◌||◌, [], ◌∷◌, Option, none, some, Bytes,
  ltb, ◌==◌, if◌then◌else◌, get_or, drop, length,
}
use embdebug.Hex.{is_xdigit}
use embdebug.SyscallReply.{is_space, skip_space, read_digits}

-- The characters in front of the first NUL, which are all that a C string has.
unfoldable pub c_string : Bytes → Bytes
c_string [] = []
c_string (c ∷ s) = let rest = c_string s in if c == 0 then [] else c ∷ rest

-- A character of the format that is no white space.
unfoldable pub scan_char : ℕ → Bytes → Option Bytes
scan_char ch [] = none
scan_char ch (c ∷ s) = if c == ch then some s else none

abbrev pub is_prefixed : Bytes → Bool
is_prefixed s = get_or s 0 0 == b'0' && (get_or s 1 0 == b'x' || get_or s 1 0 == b'X')

abbrev pub saturate_word : ℕ × Bytes → ℕ × Bytes
saturate_word (n, rest) = (if ltb n (2 ^ 64) then n else 2 ^ 64 - 1, rest)

-- A minus sign negates what was read, unless it was too large.
abbrev pub negate_word : ℕ × Bytes → ℕ × Bytes
negate_word (n, rest) = (if ltb n (2 ^ 64) then (2 ^ 64 - n) % 2 ^ 64 else 2 ^ 64 - 1, rest)

unfoldable pub scan_digits : Bool → Bytes → Option (ℕ × Bytes)
unfolding read_digits
scan_digits minus s =
    let digits = if is_prefixed s then drop 2 s else s in
    if is_xdigit (get_or digits 0 0)
    then some
        (if minus then negate_word (read_digits digits 0) else saturate_word (read_digits digits 0))
    else none

unfoldable pub scan_hex : Bytes → Option (ℕ × Bytes)
unfolding skip_space scan_digits
scan_hex s =
    let text = skip_space s in
    if get_or text 0 0 == b'-'
    then scan_digits true (drop 1 text)
    else scan_digits false (if get_or text 0 0 == b'+' then drop 1 text else text)

-- `memchr`: the text behind the first such character.
unfoldable pub find_char : ℕ → Bytes → Option Bytes
find_char ch [] = none
find_char ch (c ∷ s) = let rest = find_char ch s in if c == ch then some s else rest

infixl 5 ◌>>=◌
abbrev ◌>>=◌ : {A B : Type 0} → Option A → (A → Option B) → Option B
none >>= f = none
some a >>= f = f a

-- The two numbers of `<letter><addr>,<length>`. What stands behind them does not matter.
unfoldable pub scan_range : ℕ → Bytes → Option (ℕ × ℕ)
unfolding scan_hex scan_char
scan_range letter text = do
  behind ← scan_char letter text
  (addr, comma) ← scan_hex behind
  number ← scan_char b',' comma
  (len, rest) ← scan_hex number
  some (addr, len)

-- The number of `<letter><number>`.
unfoldable pub scan_number : ℕ → Bytes → Option ℕ
unfolding scan_hex scan_char
scan_number letter text = do behind ← scan_char letter text; (n, rest) ← scan_hex behind; some n

-- The conversion `%16s`: behind white space, characters up to the next white space, 16 at most.
unfoldable pub scan_word : ℕ → Bytes → Bytes
scan_word zero s = []
scan_word (suc room) [] = []
scan_word (suc room) (c ∷ s) = let rest = scan_word room s in if is_space c then [] else c ∷ rest

-- `P<number>=<text>`; the text has a character at least.
unfoldable pub scan_assignment : Bytes → Option (ℕ × Bytes)
unfolding scan_hex scan_char scan_word skip_space
scan_assignment text = do
  behind ← scan_char b'P' text
  (n, equals) ← scan_hex behind
  value ← scan_char b'=' equals
  word ← some (scan_word 16 (skip_space value))
  (if length word == 0 then none else some (n, word))
