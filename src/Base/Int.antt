-- ===== src/Base/Int.antt =====
-- The signed integers that a C `int` holds, over the native numbers.
use Prim.Native.Nat.{ℕ, ◌-◌, ◌^◌, ◌%◌, ◌<◌}
use mathlib.Core.Bool.{Bool, true, false}
use mathlib.Core.Logic.{◌↔◌, inl, inr}
use mathlib.Core.Path.{◌≡◌}
use native.Mathlib.Omega.{arith}
use embdebug.Base.Tests.{◌==◌, ltb, if◌then◌else◌, Bool-cases, ltb→lt}

-- `negsuc n` is -(n + 1).
pub data ℤ : Type 0 where
  pos : ℕ → ℤ
  negsuc : ℕ → ℤ

abbrev pub eq_ℤ : ℤ → ℤ → Bool
eq_ℤ (pos a) (pos b) = a == b
eq_ℤ (negsuc a) (negsuc b) = a == b
eq_ℤ _ _ = false

pub eq_ℤ_iff : (a b : ℤ) → (eq_ℤ a b ≡ true) ↔ (a ≡ b)
eq_ℤ_iff (pos a) (pos b) = ground arith
eq_ℤ_iff _ _ = ground arith

abbrev pub is_positive : ℤ → Bool
is_positive (pos n) = ltb 0 n
is_positive (negsuc n) = false

-- The `int` with the low 32 bits of `w`: the conversion `(int)w`.
abbrev pub to_int32 : ℕ → ℤ
to_int32 w = let v = w % 2 ^ 32 in if ltb v (2 ^ 31) then pos v else negsuc (2 ^ 32 - v - 1)

-- The `unsigned int` of an `int` in range: the conversion `(unsigned int)i`.
abbrev pub to_uint32 : ℤ → ℕ
to_uint32 (pos n) = n % 2 ^ 32
to_uint32 (negsuc n) = 2 ^ 32 - 1 - n % 2 ^ 32

pub to_int32_small : (w : ℕ) → w < 2 ^ 31 → to_int32 w ≡ pos w
to_int32_small w h = let e : w % 2 ^ 32 ≡ w = omega arith in rw e (ground arith)

-- The value fits an `int`.
abbrev pub IsInt32 : ℤ → Type 0
IsInt32 (pos n) = n < 2 ^ 31
IsInt32 (negsuc n) = n < 2 ^ 31

pub to_int32-IsInt32 : (w : ℕ) → IsInt32 (to_int32 w)
to_int32-IsInt32 w = elim (Bool-cases (ltb (w % 2 ^ 32) (2 ^ 31))) [
  | inl e ↦ rw e (ltb→lt _ _ e)
  | inr e ↦ rw e (ground arith)
]

-- The conversion to `unsigned int` loses nothing.
pub to_uint32-eq-zero : (i : ℤ) → IsInt32 i → eq_ℤ i (pos 0) ≡ false → (to_uint32 i == 0) ≡ false
to_uint32-eq-zero (pos n) h e = let f : n % 2 ^ 32 ≡ n = omega arith in rw f (ground arith)
to_uint32-eq-zero (negsuc n) h e = ground arith
