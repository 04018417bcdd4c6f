-- ===== src/Bits.antt =====
-- The bit operations of lib/server/Utils.cpp, at variables: masks of a nibble and of a byte, the
-- join of two nibbles, and the toggle `^ 0x20` of an escaped character.
use Prim.Native.Nat.{digits, min, max, bit_and-bitwise, bit_or-bitwise}
use embdebug.Base.{
  ℕ, zero, suc, ◌+◌, ◌*◌, ◌/◌, ◌%◌, ◌≤◌, ◌<◌, bit_and, bit_or, bit_xor, ◌≡◌, refl, Bool, true, ◌&&◌,
  arith, ◌==◌, ==_iff, ltb, ltb→lt,
}

-- The count of digits to go does not matter, once it covers the first number.
module _ (z : ℕ → ℕ) (f : ℕ → ℕ → ℕ) where
  digits_enough : (n m a b : ℕ) → a ≤ n → a ≤ m → digits z f n a b ≡ digits z f m a b
  digits_enough zero zero a b p q = refl
  digits_enough (suc n) zero zero b p q = refl
  digits_enough zero (suc m) zero b p q = refl
  digits_enough (suc n) (suc m) zero b p q = refl
  digits_enough zero m (suc a) b p q = absurd (omega arith)
  digits_enough (suc n) zero (suc a) b p q = absurd (omega arith)
  digits_enough (suc n) (suc m) (suc a) b p q =
      omega (arith, digits_enough n m (suc a / 2) (b / 2) (omega arith) (omega arith))

-- The law of the lowest digit, of `&` and of `|`.
and_digit : (a b : ℕ) → bit_and a b ≡ min (a % 2) (b % 2) + 2 * bit_and (a / 2) (b / 2)
and_digit zero b = omega (arith, bit_and-bitwise 0 b, bit_and-bitwise 0 (b / 2))
and_digit (suc a) b =
    let next : ℕ = suc a / 2 in
    omega (
      arith,
      bit_and-bitwise (suc a) b,
      bit_and-bitwise next (b / 2),
      digits_enough (λ b. zero) min a next next (b / 2) (omega arith) (omega arith),
    )

or_digit : (a b : ℕ) → bit_or a b ≡ max (a % 2) (b % 2) + 2 * bit_or (a / 2) (b / 2)
or_digit zero b = omega (arith, bit_or-bitwise 0 b, bit_or-bitwise 0 (b / 2))
or_digit (suc a) b =
    let next : ℕ = suc a / 2 in
    omega (
      arith,
      bit_or-bitwise (suc a) b,
      bit_or-bitwise next (b / 2),
      digits_enough (λ b. b) max a next next (b / 2) (omega arith) (omega arith),
    )

and_nothing : (bound a : ℕ) → a ≤ bound → bit_and a 0 ≡ 0
and_nothing bound zero h = refl
and_nothing zero (suc a) h = absurd (omega arith)
and_nothing (suc bound) (suc a) h =
    omega (arith, and_digit (suc a) 0, and_nothing bound (suc a / 2) (omega arith))

or_nothing : (bound a : ℕ) → a ≤ bound → bit_or a 0 ≡ a
or_nothing bound zero h = refl
or_nothing zero (suc a) h = absurd (omega arith)
or_nothing (suc bound) (suc a) h =
    omega (arith, or_digit (suc a) 0, or_nothing bound (suc a / 2) (omega arith))

and_two_digits : (a : ℕ) → bit_and a 0b11 ≡ a % 4
and_two_digits a =
    let rest : ℕ = a / 2 / 2 in
    omega (arith, and_digit a 3, and_digit (a / 2) 1, and_nothing rest rest (omega arith))

-- `a & 0xf`.
pub and_nibble : (a : ℕ) → bit_and a 0xf ≡ a % 16
and_nibble a = omega (arith, and_digit a 15, and_digit (a / 2) 7, and_two_digits (a / 2 / 2))

and_six_digits : (a : ℕ) → bit_and a 0b11_1111 ≡ a % 64
and_six_digits a = omega (arith, and_digit a 63, and_digit (a / 2) 31, and_nibble (a / 2 / 2))

-- `a & 0xff`.
pub and_byte : (a : ℕ) → bit_and a 0xff ≡ a % 256
and_byte a = omega (arith, and_digit a 255, and_digit (a / 2) 127, and_six_digits (a / 2 / 2))

or_above_two : (a d : ℕ) → d < 4 → bit_or (a * 4) d ≡ a * 4 + d
or_above_two a d h =
    let low : d / 2 / 2 ≡ 0 = omega arith in
    let high : a * 4 / 2 / 2 ≡ a = omega arith in
    let rest : bit_or (a * 4 / 2 / 2) (d / 2 / 2) ≡ a =
      rw (low, high) (or_nothing a a (omega arith)) in
    omega (arith, or_digit (a * 4) d, or_digit (a * 4 / 2) (d / 2), rest)

-- `(a << 4) | d` at a nibble `d`.
pub or_nibble : (a d : ℕ) → d < 16 → bit_or (a * 16) d ≡ a * 16 + d
or_nibble a d h =
    let high : a * 16 / 2 / 2 ≡ a * 4 = omega arith in
    let rest : bit_or (a * 16 / 2 / 2) (d / 2 / 2) ≡ a * 4 + d / 2 / 2 =
      rw high (or_above_two a (d / 2 / 2) (omega arith)) in
    omega (arith, or_digit (a * 16) d, or_digit (a * 16 / 2) (d / 2), rest)

-- A test that holds of every number below a bound, by evaluation.
unfoldable pub holds_below : (ℕ → Bool) → ℕ → Bool
holds_below test zero = true
holds_below test (suc bound) = holds_below test bound && test bound

pub holds_at :
    (test : ℕ → Bool) (bound x : ℕ) → holds_below test bound ≡ true → x < bound → test x ≡ true
unfolding holds_below
holds_at test zero x all h = absurd (omega arith)
holds_at test (suc bound) x all h = ground (arith, holds_at test bound x)

toggles_back : holds_below (λ c. bit_xor (bit_xor c 0x20) 0x20 == c) 256 ≡ true
unfolding holds_below
toggles_back = refl

-- `c ^ 0x20` undoes itself.
pub toggle-toggle : (c : ℕ) → c < 256 → bit_xor (bit_xor c 0x20) 0x20 ≡ c
toggle-toggle c h = (==_iff _ c).0 (holds_at _ 256 c toggles_back h)

toggles_in_range : holds_below (λ c. ltb (bit_xor c 0x20) 256) 256 ≡ true
unfolding holds_below
toggles_in_range = refl

pub toggle-lt : (c : ℕ) → c < 256 → bit_xor c 0x20 < 256
toggle-lt c h = ltb→lt _ 256 (holds_at _ 256 c toggles_in_range h)
