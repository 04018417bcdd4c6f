-- ===== src/Trace/Number.antt =====
-- lib/server/TraceFlags.cpp and tools/driver/Driver.cpp: `std::stoi` of the text of a number.
use native.Mathlib.Nat.{pow-suc}
use mathlib.Core.List.{reverse-cons}
use embdebug.Base.{
  ℕ, zero, suc, ◌+◌, ◌-◌, ◌*◌, ◌/◌, ◌%◌, ◌^◌, ◌≤◌, ◌<◌, ◌≡◌, ◌≢◌, refl, ◌∙◌, ap, true, false, ◌&&◌,
  [], ◌∷◌, ◌++◌, some, Bytes, arith, leb, ◌==◌, get_or, reverse, length, length-reverse, lt→ltb,
  All, All-append, Bool-cases, inl, inr,
}
use embdebug.Base.Decimal.{decimal_digits, decimal_text}
use embdebug.Base.Int.{pos}
use embdebug.Trace.{decimal, stoi, int_range}
use embdebug.SyscallReply.{skip_space}

abbrev IsDigit : ℕ → Type 0
IsDigit c = (48 ≤ c) × (c ≤ 57)

-- The number that digits write, behind a number.
number : ℕ → Bytes → ℕ
number acc [] = acc
number acc (c ∷ s) = number (acc * 10 + (c - 48)) s

number-append : (acc : ℕ) (s t : Bytes) → number acc (s ++ t) ≡ number (number acc s) t
unfolding number
number-append acc [] t = refl
number-append acc (c ∷ s) t = number-append (acc * 10 + (c - 48)) s t

decimal-some : (acc : ℕ) (s : Bytes) → All IsDigit s → decimal (some acc) s ≡ some (number acc s)
unfolding decimal number
decimal-some acc [] h = refl
decimal-some acc (c ∷ s) h =
    let test : (leb 48 c && leb c 57) ≡ true = ground (arith, h.0.0, h.0.1) in
    rw test (decimal-some (acc * 10 + (c - 48)) s h.1)

digits-All : (r n : ℕ) → All IsDigit (decimal_digits r n)
unfolding decimal_digits
digits-All zero n = tt
digits-All (suc r) n = (
  (omega arith, omega arith),
  elim (Bool-cases (n / 10 == 0)) [ inl e ↦ rw e tt | inr e ↦ rw e (digits-All r (n / 10)) ],
)

reverse-All : (s : Bytes) → All IsDigit s → All IsDigit (reverse s)
reverse-All [] h = tt
reverse-All (c ∷ s) h =
    rw (reverse-cons c s) (All-append IsDigit (reverse s) (c ∷ []) (reverse-All s h.1) (h.0, tt))

number-digits : (r n : ℕ) → n < 10 ^ suc r → number 0 (reverse (decimal_digits (suc r) n)) ≡ n
unfolding decimal_digits number
number-digits zero n h =
    let e : n / 10 ≡ 0 = omega (arith, pow-suc 10 0) in rw e (omega (arith, pow-suc 10 0))
number-digits (suc r) n h = elim (Bool-cases (n / 10 == 0)) [
  | inl e ↦ let z : n / 10 ≡ 0 = ground arith in rw z (omega arith)
  | inr e ↦
      let ih = number-digits r (n / 10) (omega (arith, pow-suc 10 (suc r))) in
      let d = 48 + n % 10 in
      rw
        (
          e,
          reverse-cons d (decimal_digits (suc r) (n / 10)),
          number-append 0 (reverse (decimal_digits (suc r) (n / 10))) (d ∷ []),
        )
        (omega (arith, ih))
]

-- A text that begins with a digit is read to its end.
stoi_digits :
    (c : ℕ) (s : Bytes)
    → All IsDigit (c ∷ s)
    → stoi (c ∷ s) ≡ int_range false (some (number 0 (c ∷ s)))
unfolding stoi skip_space number decimal
stoi_digits c s h =
    let space : ((c == 32) ≡ false) × ((leb 9 c && leb c 13) ≡ false) =
      (ground (arith, h.0.0, h.0.1), ground (arith, h.0.0, h.0.1)) in
    let minus : (c == b'-') ≡ false = ground (arith, h.0.0) in
    let plus : (c == b'+') ≡ false = ground (arith, h.0.0) in
    let test : (leb 48 c && leb c 57) ≡ true = ground (arith, h.0.0, h.0.1) in
    rw (space.0, space.1, minus, plus, test, decimal-some (0 * 10 + (c - 48)) s h.1) refl

stoi_text :
    (s : Bytes) (n : ℕ)
    → All IsDigit s
    → number 0 s ≡ n
    → s ≢ []
    → n < 2 ^ 31
    → stoi s ≡ some (pos n)
stoi_text [] n h e k small = absurd (k refl)
stoi_text (c ∷ s) n h e k small = stoi_digits c s h ∙ rw (e, lt→ltb n (2 ^ 31) small) refl

decimal_text-ne-nil : (n : ℕ) → decimal_text n ≢ []
unfolding decimal_text decimal_digits
decimal_text-ne-nil n h = absurd (omega (arith, length-reverse (decimal_digits 20 n), ap length h))

pub stoi-decimal_text : (n : ℕ) → n < 2 ^ 31 → stoi (decimal_text n) ≡ some (pos n)
unfolding decimal_text
stoi-decimal_text n h =
    stoi_text (decimal_text n) n (reverse-All (decimal_digits 20 n) (digits-All 20 n))
      (number-digits 19 n (omega arith)) (decimal_text-ne-nil n) h

not_colon : (s : Bytes) → All IsDigit s → (get_or s 0 0 == b':') ≡ false
not_colon [] h = refl
not_colon (c ∷ s) h = ground (arith, h.0.1)

pub decimal_text-no_colon : (n : ℕ) → (get_or (decimal_text n) 0 0 == b':') ≡ false
unfolding decimal_text
decimal_text-no_colon n =
    not_colon (decimal_text n) (reverse-All (decimal_digits 20 n) (digits-All 20 n))
