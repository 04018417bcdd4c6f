-- ===== src/Server/Range.antt =====
-- lib/server/GdbServer.cpp: the request `m<addr>,<length>` as `sscanf` reads it.
use embdebug.Base.{
  ℕ, ◌+◌, ◌*◌, ◌<◌, ◌^◌, ◌≡◌, refl, ◌∙◌, ap, true, false, arith, ◌++◌, ==_refl, length, Bytes, [],
  ◌∷◌, lt→ltb, inl, inr, All, some,
}
use embdebug.Hex.{is_xdigit, hex_value}
use embdebug.Hex.Value.{val_text, val_text-All, val_text_bounds}
use embdebug.SyscallReply.{skip_space}
use embdebug.SyscallReply.Number.{
  number, number-digits_of, Separator, read_digits_lem, xdigit_plain,
}
use embdebug.Server.Scan.{scan_char, is_prefixed, saturate_word, scan_digits, scan_hex, scan_range}

not_prefixed :
    (x : ℕ) (xs rest : Bytes)
    → All (λ c. is_xdigit c ≡ true) (x ∷ xs)
    → Separator rest
    → is_prefixed ((x ∷ xs) ++ rest) ≡ false
not_prefixed x [] rest h (inl e) = rw e (ground arith)
not_prefixed x [] rest h (inr (s, e)) = rw e (ground arith)
not_prefixed x (y ∷ ys) rest (h, (k, hs)) sep =
    let (space, (minus, (plus, (low, high)))) = xdigit_plain y k in rw (low, high) (ground arith)

scan_digits_text :
    (x : ℕ) (xs rest : Bytes)
    → All (λ c. is_xdigit c ≡ true) (x ∷ xs)
    → Separator rest
    → number 0 (x ∷ xs) < 2 ^ 64
    → scan_hex ((x ∷ xs) ++ rest) ≡ some (number 0 (x ∷ xs), rest)
unfolding scan_hex scan_digits skip_space number
scan_digits_text x xs rest h sep small =
    let (space, (minus, (plus, other))) = xdigit_plain x h.0 in
    let v = number (0 * 16 + hex_value x) xs in
    let word : saturate_word (v, rest) ≡ (v, rest) = rw (lt→ltb v (2 ^ 64) small) refl in
    rw (space, minus, plus, not_prefixed x xs rest h sep, h.0)
      (ap (λ r. some (saturate_word r)) (read_digits_lem xs rest (0 * 16 + hex_value x) h.1 sep)
        ∙ ap some word)

scan_text :
    (text rest : Bytes)
    → All (λ c. is_xdigit c ≡ true) text
    → 0 < length text
    → Separator rest
    → number 0 text < 2 ^ 64
    → scan_hex (text ++ rest) ≡ some (number 0 text, rest)
scan_text [] rest h k sep small = ground arith
scan_text (x ∷ xs) rest h k sep small = scan_digits_text x xs rest h sep small

pub scan_hex-val_text :
    (val : ℕ) (rest : Bytes)
    → val < 2 ^ 32
    → Separator rest
    → scan_hex (val_text val ++ rest) ≡ some (val, rest)
unfolding val_text
scan_hex-val_text val rest small sep =
    let e = number-digits_of 16 val (omega arith) in
    scan_text (val_text val) rest (val_text-All val) (val_text_bounds val small).0 sep
      (rw e (omega arith))
    ∙ ap (λ v. some (v, rest)) e

-- The text of a request, in front of what follows the length.
abbrev pub range_text : ℕ → ℕ → ℕ → Bytes → Bytes
range_text letter addr len rest = letter ∷ (val_text addr ++ (b',' ∷ (val_text len ++ rest)))

pub scan_range-range_text :
    (letter addr len : ℕ)
    → addr < 2 ^ 32
    → len < 2 ^ 32
    → scan_range letter (range_text letter addr len []) ≡ some (addr, len)
unfolding scan_range scan_char
scan_range-range_text letter addr len h k =
    rw
      (
        ==_refl letter,
        scan_hex-val_text addr (b',' ∷ (val_text len ++ [])) h (inr (val_text len ++ [], refl)),
        scan_hex-val_text len [] k (inl refl),
      )
      refl
