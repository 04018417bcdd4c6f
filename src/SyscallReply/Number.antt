-- ===== src/SyscallReply/Number.antt =====
-- lib/server/SyscallReplyPacket.h, `parseValue`: the number that `val2Hex` writes.
use native.Mathlib.Nat.{pow-suc}
use mathlib.Core.List.{reverse-cons}
use embdebug.Base.{
  ℕ, zero, suc, ◌+◌, ◌*◌, ◌/◌, ◌%◌, ◌<◌, ◌^◌, ◌≡◌, refl, ◌∙◌, ap, true, false, arith, ◌++◌, ◌==◌,
  length, Bytes, [], ◌∷◌, reverse, lt→ltb, Bool-cases, inl, inr, All, some, ◌⊎◌,
}
use embdebug.Base.Int.{pos, to_int32_small}
use embdebug.Hex.{is_xdigit, hex_value}
use embdebug.Hex.Digit.{hex_digit, hex_value-hex_digit}
use embdebug.Hex.Value.{digits_of, val_text, val_text-All, val_text_bounds}
use embdebug.SyscallReply.{
  is_space, skip_space, read_digits, has_prefix, read_magnitude, strtol, ends_value, parse_value,
}

-- The number that a text of digits continues.
unfoldable pub number : ℕ → Bytes → ℕ
number acc [] = acc
number acc (c ∷ xs) = number (acc * 16 + hex_value c) xs

number-append : (acc : ℕ) (xs ys : Bytes) → number acc (xs ++ ys) ≡ number (number acc xs) ys
unfolding number
number-append acc [] ys = refl
number-append acc (x ∷ xs) ys = number-append (acc * 16 + hex_value x) xs ys

number-last :
    (xs : Bytes) (d : ℕ) → d < 16 → number 0 (xs ++ hex_digit d ∷ []) ≡ number 0 xs * 16 + d
unfolding number
number-last xs d h = rw (number-append 0 xs (hex_digit d ∷ []), hex_value-hex_digit d h)

pub number-digits_of : (r val : ℕ) → val < 16 ^ r → number 0 (reverse (digits_of r val)) ≡ val
unfolding digits_of number
number-digits_of zero val h = omega arith
number-digits_of (suc r) val h =
    let f : val / 16 * 16 + val % 16 ≡ val = omega arith in
    let ih = number-digits_of r (val / 16) (omega (arith, pow-suc 16 r)) in
    elim (Bool-cases (val / 16 == 0)) [
      | inl e ↦
          let z : val / 16 ≡ 0 = ground arith in
          let g : 0 * 16 + val % 16 ≡ val = omega arith in
          rw z (number-last [] (val % 16) (omega arith) ∙ g)
      | inr e ↦
          rw
            (
              e,
              reverse-cons (hex_digit (val % 16)) (digits_of r (val / 16)),
              number-last (reverse (digits_of r (val / 16))) (val % 16) (omega arith),
              ih,
            )
            f
    ]

-- A field of the packet ends here.
abbrev pub Separator : Bytes → Type 0
Separator rest = (rest ≡ []) ⊎ ((more : Bytes) × (rest ≡ b',' ∷ more))

pub read_digits_lem :
    (xs rest : Bytes) (acc : ℕ)
    → All (λ c. is_xdigit c ≡ true) xs
    → Separator rest
    → read_digits (xs ++ rest) acc ≡ (number acc xs, rest)
unfolding read_digits number
read_digits_lem [] rest acc h (inl e) = rw e
read_digits_lem [] rest acc h (inr (s, e)) = rw e (unfold is_xdigit in refl)
read_digits_lem (x ∷ xs) rest acc (h, hs) sep =
    rw (h, read_digits_lem xs rest (acc * 16 + hex_value x) hs sep)

pub xdigit_plain :
    (c : ℕ)
    → is_xdigit c ≡ true
    → (is_space c ≡ false)
      × (((c == b'-') ≡ false)
          × (((c == b'+') ≡ false) × (((c == b'x') ≡ false) × ((c == b'X') ≡ false))))
unfolding is_xdigit
xdigit_plain c h = (ground arith, (ground arith, (ground arith, (ground arith, ground arith))))

no_prefix :
    (x : ℕ) (xs rest : Bytes)
    → All (λ c. is_xdigit c ≡ true) (x ∷ xs)
    → Separator rest
    → has_prefix ((x ∷ xs) ++ rest) ≡ false
no_prefix x [] rest h (inl e) = rw e (ground arith)
no_prefix x [] rest h (inr (s, e)) = rw e (ground arith)
no_prefix x (y ∷ ys) rest (h, (k, hs)) sep =
    let p = xdigit_plain y k in rw (p.1.1.1.0, p.1.1.1.1) (ground arith)

magnitude_of_digits :
    (x : ℕ) (xs rest : Bytes)
    → All (λ c. is_xdigit c ≡ true) (x ∷ xs)
    → Separator rest
    → read_magnitude ((x ∷ xs) ++ rest) ≡ some (number 0 (x ∷ xs), rest)
unfolding read_magnitude number
magnitude_of_digits x xs rest h sep =
    rw (no_prefix x xs rest h sep, h.0)
      (ap some (read_digits_lem xs rest (0 * 16 + hex_value x) h.1 sep))

value_of_digits :
    (x : ℕ) (xs rest : Bytes)
    → All (λ c. is_xdigit c ≡ true) (x ∷ xs)
    → Separator rest
    → number 0 (x ∷ xs) < 2 ^ 31
    → parse_value ((x ∷ xs) ++ rest) ≡ some (pos (number 0 (x ∷ xs)), rest)
unfolding parse_value strtol skip_space
value_of_digits x xs rest h sep small =
    let p = xdigit_plain x h.0 in
    let at_end : ends_value (some (pos (number 0 (x ∷ xs)), rest))
        ≡ some (pos (number 0 (x ∷ xs)), rest) =
      elim sep [
        | inl e ↦ rw (e, to_int32_small (number 0 (x ∷ xs)) small)
        | inr (s, e) ↦ rw (e, to_int32_small (number 0 (x ∷ xs)) small)
      ] in
    rw
      (
        p.0,
        p.1.0,
        p.1.1.0,
        magnitude_of_digits x xs rest h sep,
        lt→ltb (number 0 (x ∷ xs)) (2 ^ 63) (omega arith),
      )
      at_end

value_of_text :
    (text rest : Bytes)
    → All (λ c. is_xdigit c ≡ true) text
    → 0 < length text
    → Separator rest
    → number 0 text < 2 ^ 31
    → parse_value (text ++ rest) ≡ some (pos (number 0 text), rest)
value_of_text [] rest h k sep small = ground arith
value_of_text (x ∷ xs) rest h k sep small = value_of_digits x xs rest h sep small

pub parse_value-val_text :
    (val : ℕ) (rest : Bytes)
    → val < 2 ^ 31
    → Separator rest
    → parse_value (val_text val ++ rest) ≡ some (pos val, rest)
unfolding val_text
parse_value-val_text val rest small sep =
    let e = number-digits_of 16 val (omega arith) in
    value_of_text (val_text val) rest (val_text-All val) (val_text_bounds val (omega arith)).0 sep
      (rw e small)
    ∙ ap (λ v. some (pos v, rest)) e
