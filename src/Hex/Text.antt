-- ===== src/Hex/Text.antt =====
-- lib/server/Utils.cpp: `ascii2Hex` against `hex2Ascii`.
use embdebug.Base.{◌+◌, ◌*◌, ◌/◌, ◌%◌, ◌<◌, ◌≡◌, refl, arith, length, Bytes, [], ◌∷◌, All}
use embdebug.Base.Outcome.{ok, ◌>>=◌}
use embdebug.Bits.{and_nibble, or_nibble}
use embdebug.Hex.Digit.{hex_digit, hex_digit-is_xdigit, hex2char_nibble, hex_value-hex_digit}
use embdebug.Hex.{ascii2hex, hex2ascii}

abbrev pub AllBytes : Bytes → Type 0
AllBytes = All (λ c. c < 256)

-- Two digits for each character.
unfoldable pub hex_text : Bytes → Bytes
hex_text [] = []
hex_text (c ∷ cs) = hex_digit (c / 16) ∷ hex_digit (c % 16) ∷ hex_text cs

pub length-hex_text : (s : Bytes) → length (hex_text s) ≡ 2 * length s
unfolding hex_text
length-hex_text [] = omega arith
length-hex_text (c ∷ cs) = omega (arith, length-hex_text cs)

pub ascii2hex_lem : (s : Bytes) → AllBytes s → ascii2hex s ≡ ok (hex_text s)
unfolding ascii2hex hex_text
ascii2hex_lem [] h = refl
ascii2hex_lem (c ∷ cs) h =
    let e : c / 16 % 16 ≡ c / 16 = omega (arith, h.0) in
    rw (
      and_nibble (c / 16),
      and_nibble c,
      e,
      hex2char_nibble (c / 16) (omega (arith, h.0)),
      hex2char_nibble (c % 16) (omega arith),
      ascii2hex_lem cs h.1,
    )

pub hex2ascii-hex_text : (s : Bytes) → AllBytes s → hex2ascii (hex_text s) ≡ ok s
unfolding hex2ascii hex_text
hex2ascii-hex_text [] h = refl
hex2ascii-hex_text (c ∷ cs) h =
    let hi : c / 16 < 16 = omega (arith, h.0) in
    let lo : c % 16 < 16 = omega arith in
    let e : c / 16 % 16 ≡ c / 16 = omega arith in
    let f : c % 16 % 16 ≡ c % 16 = omega arith in
    let g : c / 16 * 16 + c % 16 ≡ c = omega arith in
    rw
      (
        hex_digit-is_xdigit (c / 16) hi,
        hex_digit-is_xdigit (c % 16) lo,
        hex_value-hex_digit (c / 16) hi,
        hex_value-hex_digit (c % 16) lo,
        hex2ascii-hex_text cs h.1,
      )
      (rw (and_nibble (c / 16), and_nibble (c % 16), e, f, or_nibble (c / 16) (c % 16) lo, g))

-- `ascii2Hex` succeeds on every string of bytes, and `hex2Ascii` gives the string back.
pub hex2ascii-ascii2hex : (s : Bytes) → AllBytes s → (do text ← ascii2hex s; hex2ascii text) ≡ ok s
hex2ascii-ascii2hex s h = rw (ascii2hex_lem s h) (hex2ascii-hex_text s h)
