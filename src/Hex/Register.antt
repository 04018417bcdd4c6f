-- ===== src/Hex/Register.antt =====
-- lib/server/Utils.cpp: `regVal2Hex` against `hex2RegVal`, in both byte orders.
use embdebug.Base.{
  ℕ, zero, suc, ◌+◌, ◌*◌, ◌/◌, ◌%◌, ◌≤◌, ◌<◌, ◌^◌, ◌≡◌, refl, ap, Bool, true, false, arith,
  if◌then◌else◌, get_or, length, Bytes, [], ◌∷◌, le→leb,
}
use embdebug.Base.Outcome.{ok, ◌>>=◌}
use embdebug.Bits.{and_byte}
use embdebug.Hex.Digit.{hex_digit, byte_chars_lem, shift_in_digit}
use embdebug.Hex.{
  is_hex_str, all_xdigits, shift_in_byte, reg_little, reg_big, reg_val2hex, val_little, val_big,
  hex2reg_val,
}
use embdebug.Hex.RegText.{
  byte_text, byte_text_onto, shr_bytes, byte_at, shr_bytes-le, shr_bytes_step, byte_at-lt, lt-Fits,
  Fits-shr_bytes, byte_text-get, byte_text_onto-get, AllHex, byte_text-AllHex,
  byte_text_onto-AllHex, length-byte_text, length-byte_text_onto,
}

pub reg_little_lem : (n val : ℕ) → reg_little n val ≡ ok (byte_text n val)
unfolding reg_little byte_text
reg_little_lem zero val = refl
reg_little_lem (suc n) val =
    rw (and_byte val, byte_chars_lem (val % 256) (omega arith), reg_little_lem n (val / 256))

pub reg_big_lem : (n val : ℕ) (done : Bytes) → reg_big n val done ≡ ok (byte_text_onto n val done)
unfolding reg_big byte_text_onto
reg_big_lem zero val done = refl
reg_big_lem (suc n) val done =
    rw (and_byte val, byte_chars_lem (val % 256) (omega arith)) (reg_big_lem n (val / 256) _)

shift_in_byte_lem :
    (buf : Bytes) (n acc byte : ℕ)
    → acc * 256 + byte < 2 ^ 64
    → byte < 256
    → get_or buf (n * 2) 0 ≡ hex_digit (byte / 16)
    → get_or buf (n * 2 + 1) 0 ≡ hex_digit (byte % 16)
    → shift_in_byte buf n acc ≡ ok (acc * 256 + byte)
unfolding shift_in_byte
shift_in_byte_lem buf n acc byte fits h hi lo =
    rw
      (
        hi,
        lo,
        shift_in_digit acc (byte / 16) (omega arith) (omega arith),
        shift_in_digit (acc * 16 + byte / 16) (byte % 16) (omega arith) (omega arith),
      )
      (ap ok (omega arith))

val_little-byte_text :
    (k n val : ℕ) → n ≤ k → val < 2 ^ 64 → val_little (byte_text k val) n (shr_bytes n val) ≡ ok val
unfolding val_little
val_little-byte_text k zero val h fits = refl
val_little-byte_text k (suc n) val h fits =
    let at = byte_text-get k n val (omega arith) in
    let step = shr_bytes_step n val in
    let small = shr_bytes-le n val in
    rw
      (
        shift_in_byte_lem (byte_text k val) n (shr_bytes (suc n) val) (byte_at n val) (omega arith)
            (byte_at-lt n val) at.0 at.1,
        step,
      )
      (val_little-byte_text k n val (omega arith) fits)

val_big-byte_text_onto :
    (k rounds n val : ℕ)
    → n + rounds ≡ k
    → val < 2 ^ 64
    → val_big (byte_text_onto k val []) rounds n (shr_bytes rounds val) ≡ ok val
unfolding val_big
val_big-byte_text_onto k zero n val h fits = refl
val_big-byte_text_onto k (suc r) n val h fits =
    let at = byte_text_onto-get k r n val [] (omega arith) in
    let step = shr_bytes_step r val in
    let small = shr_bytes-le r val in
    rw
      (
        shift_in_byte_lem (byte_text_onto k val []) n (shr_bytes (suc r) val) (byte_at r val)
            (omega arith) (byte_at-lt r val) at.0 at.1,
        step,
      )
      (val_big-byte_text_onto k r (n + 1) val (omega arith) fits)

-- The text that `regVal2Hex` leaves in the buffer.
pub reg_text : ℕ → ℕ → Bool → Bytes
reg_text val n little = if little then byte_text n val else byte_text_onto n val []

pub reg_val2hex_lem :
    (val n : ℕ) (little : Bool) → n ≤ 8 → reg_val2hex val n little ≡ ok (reg_text val n little)
unfolding reg_val2hex reg_text
reg_val2hex_lem val n true h = rw (le→leb n 8 h) (reg_little_lem n val)
reg_val2hex_lem val n false h = rw (le→leb n 8 h) (reg_big_lem n val [])

AllHex-all_xdigits : (buf : Bytes) (n : ℕ) → AllHex buf → n ≤ length buf → all_xdigits buf n ≡ true
unfolding all_xdigits
AllHex-all_xdigits buf zero h le = refl
AllHex-all_xdigits [] (suc n) h le = absurd (omega arith)
AllHex-all_xdigits (c ∷ buf) (suc n) h le = rw h.0 (AllHex-all_xdigits buf n h.1 (omega arith))

is_hex_str_of :
    (buf : Bytes) (n : ℕ) → AllHex buf → 0 < n → n ≤ length buf → is_hex_str buf n ≡ true
unfolding is_hex_str
is_hex_str_of buf n h pos le = ground (arith, AllHex-all_xdigits buf n h le)

-- For a width of 1 to 8 bytes and a value that fits the width, in either byte order, `regVal2Hex`
-- succeeds, and `hex2RegVal` of what it wrote gives the value back.
pub hex2reg_val-reg_val2hex :
    (val n : ℕ) (little : Bool)
    → 0 < n
    → n ≤ 8
    → val < 2 ^ 64
    → val < 256 ^ n
    → (do buf ← reg_val2hex val n little; hex2reg_val buf n little) ≡ ok val
unfolding hex2reg_val reg_text
hex2reg_val-reg_val2hex val n true pos le small fits =
    let size = length-byte_text n val in
    rw
      (
        reg_val2hex_lem val n true le,
        le→leb n 8 le,
        is_hex_str_of (byte_text n val) n (byte_text-AllHex n val) pos (omega arith),
      )
      (rw (Fits-shr_bytes n val (lt-Fits n val fits)) at
        (val_little-byte_text n n val (omega arith) small))
hex2reg_val-reg_val2hex val n false pos le small fits =
    let size = length-byte_text_onto n val [] in
    rw
      (
        reg_val2hex_lem val n false le,
        le→leb n 8 le,
        is_hex_str_of (byte_text_onto n val []) n (byte_text_onto-AllHex n val [] tt) pos
            (omega arith),
      )
      (rw (Fits-shr_bytes n val (lt-Fits n val fits)) at
        (val_big-byte_text_onto n n 0 val (omega arith) small))
