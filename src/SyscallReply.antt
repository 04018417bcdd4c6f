-- ===== src/SyscallReply.antt =====
-- lib/server/SyscallReplyPacket.h: the reply to a system call, `F<return code>,<error>,C`. The
-- packet is the list of its characters in front of the NUL; what is read behind them is NUL.
pub mod Number
pub mod RoundTrip
use embdebug.Base.{
  ℕ, zero, suc, ◌+◌, ◌-◌, ◌*◌, ◌^◌, Bool, true, false, not, ◌&&◌, ◌||◌, List, [], ◌∷◌, Option, none,
  some, Bytes, leb, ltb, ◌==◌, if◌then◌else◌, get_or, drop,
}
use embdebug.Base.Int.{ℤ, pos, negsuc, eq_ℤ, to_int32}
use embdebug.Hex.{is_xdigit, hex_value}

-- `isspace` of the C library, in the C locale.
abbrev pub is_space : ℕ → Bool
is_space c = c == 32 || leb 9 c && leb c 13

unfoldable pub skip_space : Bytes → Bytes
skip_space [] = []
skip_space (c ∷ s) = let rest = skip_space s in if is_space c then rest else c ∷ s

-- The number that the leading hex digits write, and the text behind them.
unfoldable pub read_digits : Bytes → ℕ → ℕ × Bytes
unfolding is_xdigit hex_value
read_digits [] acc = (acc, [])
read_digits (c ∷ s) acc =
    let rest = read_digits s (acc * 16 + hex_value c) in if is_xdigit c then rest else (acc, c ∷ s)

-- A prefix `0x` counts only in front of a digit.
abbrev pub has_prefix : Bytes → Bool
has_prefix s =
    get_or s 0 0 == b'0'
    && (get_or s 1 0 == b'x' || get_or s 1 0 == b'X')
    && is_xdigit (get_or s 2 0)

unfoldable pub read_magnitude : Bytes → Option (ℕ × Bytes)
unfolding read_digits
read_magnitude s =
    let digits = if has_prefix s then drop 2 s else s in
    if is_xdigit (get_or digits 0 0) then some (read_digits digits 0) else none

-- A magnitude as a `long`, which saturates.
abbrev pub saturate : Bool → ℕ → ℤ
saturate false n = if ltb n (2 ^ 63) then pos n else pos (2 ^ 63 - 1)
saturate true zero = pos 0
saturate true (suc n) = if ltb n (2 ^ 63) then negsuc n else negsuc (2 ^ 63 - 1)

abbrev pub signed : Bool → Option (ℕ × Bytes) → Option (ℤ × Bytes)
signed minus none = none
signed minus (some (n, rest)) = some (saturate minus n, rest)

-- `strtol(s, &end, 16)`: the value and the text at `end`; none if no digits are there.
unfoldable pub strtol : Bytes → Option (ℤ × Bytes)
unfolding skip_space read_magnitude
strtol s =
    let text = skip_space s in
    if get_or text 0 0 == b'-'
    then signed true (read_magnitude (drop 1 text))
    else signed false (read_magnitude (if get_or text 0 0 == b'+' then drop 1 text else text))

-- The conversion `(int)val` of a `long`.
abbrev pub long_to_int : ℤ → ℤ
long_to_int (pos n) = to_int32 n
long_to_int (negsuc n) = to_int32 (2 ^ 64 - 1 - n)

abbrev pub ends_value : Option (ℤ × Bytes) → Option (ℤ × Bytes)
ends_value none = none
ends_value (some (val, end)) =
    if not (get_or end 0 0 == 0) && not (get_or end 0 0 == b',')
    then none
    else some (long_to_int val, end)

-- The value, and the text that is left.
unfoldable pub parse_value : Bytes → Option (ℤ × Bytes)
unfolding strtol
parse_value s = ends_value (strtol s)

-- An object of the class.
pub record SyscallReply : Type 0 where
  pub valid : Bool
  pub retcode : ℤ
  pub has_ctrl_c : Bool

abbrev pub accepted : ℤ → Bool → SyscallReply
accepted code ctrl_c = record { valid = true; retcode = code; has_ctrl_c = ctrl_c }

-- What `parse` does behind the error code.
unfoldable pub parse_marker : Bytes → ℤ → SyscallReply → SyscallReply
parse_marker s code r =
    if get_or s 0 0 == 0
    then accepted code false
    else if not (get_or s 0 0 == b',')
    then r
    else if not (get_or s 1 0 == b'C')
    then r
    else accepted code true

unfoldable pub check_error : ℤ → ℤ → Bytes → SyscallReply → SyscallReply
unfolding parse_marker
check_error (negsuc n) code s r = r
check_error (pos zero) code s r = parse_marker s code r
check_error (pos (suc n)) code s r =
    if not (eq_ℤ code (negsuc 0)) then r else parse_marker s (negsuc n) r

unfoldable pub parse_error : Bytes → ℤ → SyscallReply → SyscallReply
unfolding check_error parse_value
parse_error s code r = elim (parse_value s) [
  | none ↦ r
  | some (error, rest) ↦ check_error error code rest r
]

unfoldable pub after_code : ℤ → Bytes → SyscallReply → SyscallReply
unfolding parse_error
after_code code s r =
    if get_or s 0 0 == 0
    then accepted code false
    else if not (get_or s 0 0 == b',')
    then r
    else parse_error (drop 1 s) code r

unfoldable pub parse : Bytes → SyscallReply → SyscallReply
unfolding after_code parse_value
parse s old =
    let r : SyscallReply = record {
      valid = false;
      retcode = old.retcode;
      has_ctrl_c = old.has_ctrl_c;
    } in
    if not (get_or s 0 0 == b'F')
    then r
    else elim (parse_value (drop 1 s)) [ none ↦ r | some (code, rest) ↦ after_code code rest r ]
