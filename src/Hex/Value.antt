-- ===== src/Hex/Value.antt =====
-- lib/server/Utils.cpp: `val2Hex` against `hex2Val`.
use native.Mathlib.Nat.{pow-suc}
use mathlib.Core.List.{reverse-cons}
use embdebug.Base.{
  ℕ, zero, suc, ◌+◌, ◌*◌, ◌/◌, ◌%◌, ◌≤◌, ◌<◌, ◌^◌, ◌≡◌, refl, ◌∙◌, ap, true, ◌&&◌, arith, ◌++◌,
  ◌==◌, if◌then◌else◌, length, length-append, length-reverse, Bytes, [], ◌∷◌, reverse, le→leb,
  Bool-cases, inl, inr, All, All-append,
}
use embdebug.Base.Outcome.{ok, Returns, Outcome-cases, ◌>>=◌}
use embdebug.Bits.{and_nibble}
use embdebug.Hex.Digit.{hex_digit, hex_digit-is_xdigit, hex2char_nibble, shift_in_digit}
use embdebug.Hex.{
  is_xdigit, is_hex_str, all_xdigits, shift_in, val_digits, val2hex, val_loop, hex2val,
}

-- The digits of a value, lowest first.
unfoldable pub digits_of : ℕ → ℕ → Bytes
digits_of zero val = []
digits_of (suc r) val =
    hex_digit (val % 16) ∷ (if val / 16 == 0 then [] else digits_of r (val / 16))

-- The text of a value.
unfoldable pub val_text : ℕ → Bytes
val_text val = reverse (digits_of 16 val)

val_digits_lem : (r val : ℕ) → val_digits r val ≡ ok (digits_of r val)
unfolding val_digits digits_of
val_digits_lem zero val = refl
val_digits_lem (suc r) val =
    rw (and_nibble val, hex2char_nibble (val % 16) (omega arith), val_digits_lem r (val / 16))
      (elim (Bool-cases (val / 16 == 0)) [ inl e ↦ rw e | inr e ↦ rw e ])

pub val2hex_lem : (val : ℕ) → val2hex val ≡ ok (val_text val)
unfolding val2hex val_text
val2hex_lem val = rw (val_digits_lem 16 val)

length-digits_of : (r k val : ℕ) → val < 16 ^ suc k → length (digits_of r val) ≤ suc k
unfolding digits_of
length-digits_of zero k val h = omega arith
length-digits_of (suc r) zero val h =
    let e : val / 16 ≡ 0 = omega (arith, pow-suc 16 0) in rw e (omega arith)
length-digits_of (suc r) (suc k) val h =
    let ih = length-digits_of r k (val / 16) (omega (arith, pow-suc 16 (suc k))) in
    elim (Bool-cases (val / 16 == 0)) [ inl e ↦ rw e (omega arith) | inr e ↦ rw e (omega arith) ]

AllHex-digits_of : (r val : ℕ) → All (λ c. is_xdigit c ≡ true) (digits_of r val)
unfolding digits_of
AllHex-digits_of zero val = tt
AllHex-digits_of (suc r) val = (
  hex_digit-is_xdigit _ (omega arith),
  elim (Bool-cases (val / 16 == 0)) [
    | inl e ↦ rw e tt
    | inr e ↦ rw e (AllHex-digits_of r (val / 16))
  ],
)

val_loop-append :
    (xs ys : Bytes) (acc : ℕ)
    → val_loop (xs ++ ys) (length xs + length ys) acc
      ≡ (val_loop xs (length xs) acc >>= val_loop ys (length ys))
unfolding val_loop
val_loop-append [] ys acc = let e : 0 + length ys ≡ length ys = omega arith in rw e
val_loop-append (x ∷ xs) ys acc =
    let e : suc (length xs) + length ys ≡ suc (length xs + length ys) = omega arith in
    rw e (elim (Outcome-cases (shift_in acc x)) [
      | inl (v, d) ↦ rw d (val_loop-append xs ys v)
      | inr (f, d) ↦ rw d refl
    ])

-- Reading one more digit at the end of a text.
val_loop-last :
    (xs : Bytes) (v d : ℕ)
    → val_loop xs (length xs) 0 ≡ ok v
    → v * 16 < 2 ^ 64
    → d < 16
    → val_loop (xs ++ hex_digit d ∷ []) (length (xs ++ hex_digit d ∷ [])) 0 ≡ ok (v * 16 + d)
val_loop-last xs v d h fits small =
    rw (length-append xs (hex_digit d ∷ []), val_loop-append xs (hex_digit d ∷ []) 0, h)
      (unfold val_loop in rw (shift_in_digit v d fits small))

val_loop-digits_of :
    (r val : ℕ)
    → val < 2 ^ 64
    → val < 16 ^ suc r
    → val_loop (reverse (digits_of (suc r) val)) (length (reverse (digits_of (suc r) val))) 0
      ≡ ok val
unfolding digits_of
val_loop-digits_of zero val fits h =
    let e : val / 16 ≡ 0 = omega (arith, pow-suc 16 0) in
    let f : 0 * 16 + val % 16 ≡ val = omega (arith, pow-suc 16 0) in
    rw e (
      val_loop-last [] 0 (val % 16) (unfold val_loop in refl) (omega arith) (omega arith) ∙ ap ok f)
val_loop-digits_of (suc r) val fits h =
    let f : val / 16 * 16 + val % 16 ≡ val = omega arith in
    elim (Bool-cases (val / 16 == 0)) [
      | inl e ↦
          let z : val / 16 ≡ 0 = ground arith in
          let g : 0 * 16 + val % 16 ≡ val = omega arith in
          rw z (
            val_loop-last [] 0 (val % 16) (unfold val_loop in refl) (omega arith) (omega arith)
            ∙ ap ok g)
      | inr e ↦
          rw (e, reverse-cons (hex_digit (val % 16)) (digits_of (suc r) (val / 16)))
            (val_loop-last (reverse (digits_of (suc r) (val / 16))) (val / 16) (val % 16)
                (val_loop-digits_of r (val / 16) (omega arith) (omega (arith, pow-suc 16 (suc r))))
                (omega arith) (omega arith)
              ∙ ap ok f)
    ]

all_xdigits-append :
    (xs ys : Bytes)
    → all_xdigits (xs ++ ys) (length xs + length ys)
      ≡ all_xdigits xs (length xs) && all_xdigits ys (length ys)
unfolding all_xdigits
all_xdigits-append [] ys = let e : 0 + length ys ≡ length ys = omega arith in rw e
all_xdigits-append (x ∷ xs) ys =
    let e : suc (length xs) + length ys ≡ suc (length xs + length ys) = omega arith in
    rw e (ground (arith, all_xdigits-append xs ys))

all_xdigits-reverse :
    (xs : Bytes)
    → All (λ c. is_xdigit c ≡ true) xs
    → all_xdigits (reverse xs) (length (reverse xs)) ≡ true
all_xdigits-reverse [] h = unfold all_xdigits in refl
all_xdigits-reverse (x ∷ xs) h =
    rw
      (
        reverse-cons x xs,
        length-append (reverse xs) (x ∷ []),
        all_xdigits-append (reverse xs) (x ∷ []),
        all_xdigits-reverse xs h.1,
      )
      (unfold all_xdigits in rw h.0)

pub val_text_bounds :
    (val : ℕ) → val < 2 ^ 32 → (0 < length (val_text val)) × (length (val_text val) ≤ 8)
unfolding val_text digits_of
val_text_bounds val h =
    let e = length-reverse (digits_of 16 val) in
    let f = length-digits_of 16 7 val h in (omega (arith, e), omega (arith, e, f))

pub val_text-is_hex_str :
    (val : ℕ) → val < 2 ^ 32 → is_hex_str (val_text val) (length (val_text val)) ≡ true
unfolding is_hex_str val_text
val_text-is_hex_str val h =
    ground (
      arith,
      val_text_bounds val h,
      all_xdigits-reverse (digits_of 16 val) (AllHex-digits_of 16 val),
    )

All-reverse :
    (xs : Bytes) → All (λ c. is_xdigit c ≡ true) xs → All (λ c. is_xdigit c ≡ true) (reverse xs)
All-reverse [] h = tt
All-reverse (x ∷ xs) h =
    rw (reverse-cons x xs)
      (All-append (λ c. is_xdigit c ≡ true) (reverse xs) (x ∷ []) (All-reverse xs h.1) (h.0, tt))

pub val_text-All : (val : ℕ) → All (λ c. is_xdigit c ≡ true) (val_text val)
unfolding val_text
val_text-All val = All-reverse (digits_of 16 val) (AllHex-digits_of 16 val)

-- Only the characters within the length are read.
all_xdigits-prefix :
    (xs ys : Bytes) → all_xdigits (xs ++ ys) (length xs) ≡ all_xdigits xs (length xs)
unfolding all_xdigits
all_xdigits-prefix [] ys = refl
all_xdigits-prefix (x ∷ xs) ys = rw (all_xdigits-prefix xs ys) refl

val_loop-prefix :
    (xs ys : Bytes) (acc : ℕ) → val_loop (xs ++ ys) (length xs) acc ≡ val_loop xs (length xs) acc
unfolding val_loop
val_loop-prefix [] ys acc = refl
val_loop-prefix (x ∷ xs) ys acc = elim (Outcome-cases (shift_in acc x)) [
  | inl (v, d) ↦ rw d (val_loop-prefix xs ys v)
  | inr (f, d) ↦ rw d refl
]

pub is_hex_str-prefix :
    (xs ys : Bytes) → is_hex_str (xs ++ ys) (length xs) ≡ is_hex_str xs (length xs)
unfolding is_hex_str
is_hex_str-prefix xs ys = rw (all_xdigits-prefix xs ys) refl

pub hex2val-prefix : (xs ys : Bytes) → hex2val (xs ++ ys) (length xs) ≡ hex2val xs (length xs)
unfolding hex2val
hex2val-prefix xs ys = rw (is_hex_str-prefix xs ys, val_loop-prefix xs ys 0) refl

pub hex2val-val_text :
    (val : ℕ) → val < 2 ^ 32 → hex2val (val_text val) (length (val_text val)) ≡ ok val
unfolding hex2val
hex2val-val_text val h =
    rw (le→leb (length (val_text val)) 8 (val_text_bounds val h).1, val_text-is_hex_str val h)
      (unfold val_text in val_loop-digits_of 15 val (omega arith) (omega arith))

-- For every 32-bit value, `val2Hex` succeeds with a text of 1 to 8 characters, and `hex2Val` of
-- that whole text gives the value back.
pub hex2val-val2hex :
    (val : ℕ)
    → val < 2 ^ 32
    → Returns
        (val2hex val)
        λ text. (0 < length text) × (length text ≤ 8) × (hex2val text (length text) ≡ ok val)
hex2val-val2hex val h =
    let b = val_text_bounds val h in rw (val2hex_lem val) (b.0, b.1, hex2val-val_text val h)
