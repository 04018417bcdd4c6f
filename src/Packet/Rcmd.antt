-- ===== src/Packet/Rcmd.antt =====
-- lib/server/RspPacket.cpp, `CreateRcmdStr` and `CreateHexStr`, against lib/server/Utils.cpp.
use embdebug.Base.{
  ℕ, suc, ◌*◌, ◌/◌, ◌%◌, ◌≤◌, ◌<◌, ◌≡◌, refl, ap, ◌∙◌, sym, Bool, true, false, [], ◌∷◌, ◌++◌, Bytes,
  codes, arith, ltb, leb, lt→ltb, ◌==◌, if◌then◌else◌, length, drop, All, bit_and,
}
use embdebug.Base.Outcome.{ok, fault, assertion, ◌>>=◌}
use embdebug.Bits.{and_nibble, holds_below, holds_at}
use embdebug.Hex.{hex2ascii, is_hex_str, is_xdigit}
use embdebug.Hex.Digit.{hex_digit}
use embdebug.Hex.Text.{hex_text, hex2ascii-hex_text, AllBytes}
use embdebug.Packet.{
  high_nibble, nibble_char, rcmd_loop, hex_loop, limit, kept, stored, create_rcmd_str,
  create_hex_str,
}

-- Characters of seven bits.
abbrev pub AllAscii : Bytes → Type 0
AllAscii = All (λ c. c < 128)

AllAscii-AllBytes : (s : Bytes) → AllAscii s → AllBytes s
AllAscii-AllBytes [] h = tt
AllAscii-AllBytes (c ∷ s) h = (omega (arith, h.0), AllAscii-AllBytes s h.1)

nibbles_agree : holds_below (λ d. nibble_char d == hex_digit d) 16 ≡ true
unfolding holds_below hex_digit
nibbles_agree = refl

nibble_char_lem : (d : ℕ) → d < 16 → nibble_char d ≡ hex_digit d
nibble_char_lem d h =
    let e = holds_at (λ d. nibble_char d == hex_digit d) 16 d nibbles_agree h in ground arith

rcmd_loop_lem : (s : Bytes) → AllAscii s → rcmd_loop s ≡ hex_text s
unfolding rcmd_loop hex_text
rcmd_loop_lem [] h = refl
rcmd_loop_lem (c ∷ s) h =
    rw
      (
        lt→ltb c 128 h.0,
        and_nibble c,
        nibble_char_lem (c / 16) (omega (arith, h.0)),
        nibble_char_lem (c % 16) (omega arith),
        rcmd_loop_lem s h.1,
      )
      refl

hex_loop_lem : (s : Bytes) → AllAscii s → hex_loop s ≡ hex_text s
unfolding hex_loop hex_text
hex_loop_lem [] h = refl
hex_loop_lem (c ∷ s) h =
    rw
      (
        lt→ltb c 128 h.0,
        and_nibble c,
        nibble_char_lem (c / 16) (omega (arith, h.0)),
        nibble_char_lem (c % 16) (omega arith),
        hex_loop_lem s h.1,
      )
      refl

kept_all : (size : ℕ) (s : Bytes) → length s < limit size → kept size s ≡ s
kept_all size s h = let e : leb (limit size) (length s) ≡ false = ground arith in rw e refl

length-rcmd_loop : (s : Bytes) → length (rcmd_loop s) ≡ 2 * length s
unfolding rcmd_loop
length-rcmd_loop [] = omega arith
length-rcmd_loop (c ∷ s) = omega (arith, length-rcmd_loop s)

-- A string that is not truncated fits the buffer, with the `O` and the NUL.
rcmd_stored :
    (size : ℕ) (s : Bytes) (to_stdout : Bool)
    → 2 ≤ size
    → length s < limit size
    → create_rcmd_str size s to_stdout ≡ ok ((if to_stdout then codes "O" else []) ++ rcmd_loop s)
unfolding create_rcmd_str
rcmd_stored size s true some_room fits =
    let size_lem = length-rcmd_loop s in
    let room : ltb (suc (length (rcmd_loop s))) size ≡ true =
      lt→ltb (suc (length (rcmd_loop s))) size (omega arith) in
    ap (λ t. stored size (codes "O" ++ rcmd_loop t)) (kept_all size s fits) ∙ rw room refl
rcmd_stored size s false some_room fits =
    let size_lem = length-rcmd_loop s in
    let room : ltb (length (rcmd_loop s)) size ≡ true =
      lt→ltb (length (rcmd_loop s)) size (omega arith) in
    ap (λ t. stored size (rcmd_loop t)) (kept_all size s fits) ∙ rw room refl

-- The packet for the standard output, where the string is not truncated.
pub create_rcmd_str-hex_text :
    (size : ℕ) (s : Bytes)
    → AllAscii s
    → 2 ≤ size
    → length s < limit size
    → create_rcmd_str size s true ≡ ok (b'O' ∷ hex_text s)
create_rcmd_str-hex_text size s h some_room fits =
    rcmd_stored size s true some_room fits ∙ ap (λ t. ok (b'O' ∷ t)) (rcmd_loop_lem s h)

create_hex_str_lem :
    (size : ℕ) (s : Bytes)
    → AllAscii s
    → length s < limit size
    → create_hex_str size s ≡ create_rcmd_str size s true
unfolding create_rcmd_str create_hex_str
create_hex_str_lem size s h fits =
    let whole = kept_all size s fits in
    ap (λ t. stored size (codes "O" ++ t))
      (ap hex_loop whole ∙ hex_loop_lem s h ∙ sym (ap rcmd_loop whole ∙ rcmd_loop_lem s h))

drop_marker :
    (to_stdout : Bool) (s : Bytes)
    → drop (if to_stdout then 1 else 0) ((if to_stdout then codes "O" else []) ++ s) ≡ s
drop_marker true s = refl
drop_marker false s = refl

-- For a string of seven-bit characters that is not truncated, and a buffer of at least two
-- characters, `hex2Ascii` reads the string back from the packet of `CreateRcmdStr`, behind the `O`
-- if there is one, and `CreateHexStr` makes the same packet as `CreateRcmdStr` for the standard
-- output.
pub hex2ascii-create_rcmd_str :
    (size : ℕ) (s : Bytes) (to_stdout : Bool)
    → AllAscii s
    → 2 ≤ size
    → length s < limit size
    → ((do
      packet ← create_rcmd_str size s to_stdout
      hex2ascii (drop (if to_stdout then 1 else 0) packet))
        ≡ ok s)
      × (create_hex_str size s ≡ create_rcmd_str size s true)
hex2ascii-create_rcmd_str size s to_stdout h some_room fits =
    let text : drop (if to_stdout then 1 else 0)
          ((if to_stdout then codes "O" else []) ++ rcmd_loop s)
        ≡ hex_text s =
      drop_marker to_stdout (rcmd_loop s) ∙ rcmd_loop_lem s h in
    (
      rw (rcmd_stored size s to_stdout some_room fits, text)
          (hex2ascii-hex_text s (AllAscii-AllBytes s h)),
      create_hex_str_lem size s h fits,
    )

no_digit :
    (c : ℕ) (s : Bytes) → 128 ≤ c → c < 256 → is_hex_str (nibble_char (high_nibble c) ∷ s) 2 ≡ false
unfolding is_hex_str is_xdigit
no_digit c s h h' = let e : ltb c 128 ≡ false = ground arith in rw e (ground arith)

-- A first character from 128 up is encoded with a character that is no hex digit, so that
-- `hex2Ascii` of the text fails its assertion, for every such string that is not truncated, in a
-- buffer of at least two characters.
pub create_rcmd_str_high :
    (size c : ℕ) (s : Bytes)
    → 128 ≤ c
    → c < 256
    → 2 ≤ size
    → length (c ∷ s) < limit size
    → (do packet ← create_rcmd_str size (c ∷ s) false; hex2ascii packet) ≡ fault assertion
unfolding rcmd_loop hex2ascii
create_rcmd_str_high size c s h h' some_room fits =
    rw
      (
        rcmd_stored size (c ∷ s) false some_room fits,
        no_digit c (nibble_char (bit_and c 0x0f) ∷ rcmd_loop s) h h',
      )
      refl
