-- ===== src/Base/Decimal.antt =====
-- The decimal texts that an output stream writes for the integers.
use Prim.Native.Nat.{ℕ, zero, suc, ◌+◌, ◌/◌, ◌%◌}
use mathlib.Core.List.{[], ◌∷◌, reverse}
use embdebug.Base.Int.{ℤ, pos, negsuc}
use embdebug.Base.Lists.{Bytes}
use embdebug.Base.Tests.{◌==◌, if◌then◌else◌}

-- The digits, lowest first. A 64-bit number has 20 at most.
unfoldable pub decimal_digits : ℕ → ℕ → Bytes
decimal_digits zero n = []
decimal_digits (suc rounds) n =
    let rest = decimal_digits rounds (n / 10) in (48 + n % 10) ∷ (if n / 10 == 0 then [] else rest)

unfoldable pub decimal_text : ℕ → Bytes
unfolding decimal_digits
decimal_text n = reverse (decimal_digits 20 n)

unfoldable pub decimal_int : ℤ → Bytes
unfolding decimal_text
decimal_int (pos n) = decimal_text n
decimal_int (negsuc n) = b'-' ∷ decimal_text (n + 1)
