-- ===== src/Hex/Digit.antt =====
-- lib/server/Utils.cpp: one hex digit, and one byte of two digits.
use embdebug.Base.{
  ℕ, ◌+◌, ◌*◌, ◌/◌, ◌%◌, ◌<◌, ◌^◌, ◌≡◌, refl, Bool, true, false, arith, ◌==◌, ==_iff, get_or,
  le→leb,
}
use embdebug.Base.Outcome.{Outcome, ok, fault}
use embdebug.Bits.{and_nibble, or_nibble, holds_below, holds_at}
use embdebug.Hex.{is_xdigit, char2hex, hex_value, hex_map, hex2char, byte_chars, shift_in}

-- The character of a nibble.
unfoldable pub hex_digit : ℕ → ℕ
hex_digit d = get_or hex_map d 0

digits_are_hex : holds_below (λ d. is_xdigit (hex_digit d)) 16 ≡ true
unfolding holds_below hex_digit is_xdigit
digits_are_hex = refl

pub hex_digit-is_xdigit : (d : ℕ) → d < 16 → is_xdigit (hex_digit d) ≡ true
hex_digit-is_xdigit d h = holds_at _ 16 d digits_are_hex h

abbrev is_ok : Outcome ℕ → ℕ → Bool
is_ok (ok v) d = v == d
is_ok (fault e) d = false

is_ok-eq : (o : Outcome ℕ) (d : ℕ) → is_ok o d ≡ true → o ≡ ok d
is_ok-eq (ok v) d h = ground arith
is_ok-eq (fault e) d h = cc

digits_read_back : holds_below (λ d. is_ok (char2hex (hex_digit d)) d) 16 ≡ true
unfolding holds_below hex_digit char2hex
digits_read_back = refl

pub char2hex-hex_digit : (d : ℕ) → d < 16 → char2hex (hex_digit d) ≡ ok d
char2hex-hex_digit d h = is_ok-eq _ d (holds_at _ 16 d digits_read_back h)

pub hex2char_nibble : (d : ℕ) → d < 16 → hex2char d ≡ ok (hex_digit d)
unfolding hex2char hex_digit
hex2char_nibble d h = rw (le→leb d 15 (omega arith))

values_read_back : holds_below (λ d. hex_value (hex_digit d) == d) 16 ≡ true
unfolding holds_below hex_digit hex_value
values_read_back = refl

pub hex_value-hex_digit : (d : ℕ) → d < 16 → hex_value (hex_digit d) ≡ d
hex_value-hex_digit d h = (==_iff _ d).0 (holds_at _ 16 d values_read_back h)

-- The high and the low digit of a byte.
pub byte_chars_lem : (b : ℕ) → b < 256 → byte_chars b ≡ ok (hex_digit (b / 16), hex_digit (b % 16))
unfolding byte_chars
byte_chars_lem b h =
    rw
      (
        and_nibble (b / 16),
        and_nibble b,
        hex2char_nibble (b / 16 % 16) (omega arith),
        hex2char_nibble (b % 16) (omega arith),
      )
      (let e : b / 16 % 16 ≡ b / 16 = omega arith in rw e)

-- `val = (val << 4) | char2Hex(c)` at the character of a nibble, while nothing is shifted out.
pub shift_in_digit :
    (val d : ℕ) → val * 16 < 2 ^ 64 → d < 16 → shift_in val (hex_digit d) ≡ ok (val * 16 + d)
unfolding shift_in
shift_in_digit val d fits h =
    let e : val * 16 % 2 ^ 64 ≡ val * 16 = omega arith in
    rw (char2hex-hex_digit d h) (rw (e, or_nibble val d h))

pub hex_value-lt : (c : ℕ) → is_xdigit c ≡ true → hex_value c < 16
unfolding hex_value is_xdigit
hex_value-lt c h = ground arith

pub char2hex_xdigit : (c : ℕ) → is_xdigit c ≡ true → char2hex c ≡ ok (hex_value c)
unfolding char2hex
char2hex_xdigit c h = ground arith
