-- ===== src/Hex/RegText.antt =====
-- lib/server/Utils.cpp: the characters of the bytes of a register, as `regVal2Hex` writes them, in
-- both byte orders.
use native.Mathlib.Nat.{pow-suc}
use embdebug.Base.{
  ℕ, zero, suc, ◌+◌, ◌*◌, ◌/◌, ◌%◌, ◌≤◌, ◌<◌, ◌^◌, ◌≡◌, refl, true, arith, get_or, length, Bytes,
  [], ◌∷◌, All,
}
use embdebug.Hex.Digit.{hex_digit, hex_digit-is_xdigit}
use embdebug.Hex.{is_xdigit}

-- The characters of the bytes of a value, lowest byte first.
unfoldable pub byte_text : ℕ → ℕ → Bytes
byte_text zero val = []
byte_text (suc n) val =
    hex_digit (val % 256 / 16) ∷ hex_digit (val % 256 % 16) ∷ byte_text n (val / 256)

-- The same, highest byte first, with `done` behind them.
unfoldable pub byte_text_onto : ℕ → ℕ → Bytes → Bytes
byte_text_onto zero val done = done
byte_text_onto (suc n) val done =
    byte_text_onto n (val / 256) (hex_digit (val % 256 / 16) ∷ hex_digit (val % 256 % 16) ∷ done)

-- `val` without its lowest `n` bytes.
abbrev pub shr_bytes : ℕ → ℕ → ℕ
shr_bytes zero val = val
shr_bytes (suc n) val = shr_bytes n (val / 256)

abbrev pub byte_at : ℕ → ℕ → ℕ
byte_at zero val = val % 256
byte_at (suc n) val = byte_at n (val / 256)

pub shr_bytes-le : (n val : ℕ) → shr_bytes n val ≤ val
shr_bytes-le zero val = omega arith
shr_bytes-le (suc n) val = omega (arith, shr_bytes-le n (val / 256))

pub shr_bytes_step : (n val : ℕ) → shr_bytes (suc n) val * 256 + byte_at n val ≡ shr_bytes n val
shr_bytes_step zero val = omega arith
shr_bytes_step (suc n) val = shr_bytes_step n (val / 256)

pub byte_at-lt : (n val : ℕ) → byte_at n val < 256
byte_at-lt zero val = omega arith
byte_at-lt (suc n) val = byte_at-lt n (val / 256)

-- `val` fits `n` bytes.
abbrev Fits : ℕ → ℕ → Type 0
Fits zero val = val ≡ 0
Fits (suc n) val = Fits n (val / 256)

pub lt-Fits : (n val : ℕ) → val < 256 ^ n → Fits n val
lt-Fits zero val h = omega arith
lt-Fits (suc n) val h = lt-Fits n (val / 256) (omega (arith, pow-suc 256 n))

pub Fits-shr_bytes : (n val : ℕ) → Fits n val → shr_bytes n val ≡ 0
Fits-shr_bytes zero val h = h
Fits-shr_bytes (suc n) val h = Fits-shr_bytes n (val / 256) h

-- Both characters of byte `n` stand at their places.
pub byte_text-get :
    (k n val : ℕ)
    → n < k
    → (get_or (byte_text k val) (n * 2) 0 ≡ hex_digit (byte_at n val / 16))
      × (get_or (byte_text k val) (n * 2 + 1) 0 ≡ hex_digit (byte_at n val % 16))
unfolding byte_text
byte_text-get zero n val h = absurd (omega arith)
byte_text-get (suc k) zero val h = (refl, refl)
byte_text-get (suc k) (suc n) val h =
    let e : suc n * 2 ≡ suc (suc (n * 2)) = omega arith in
    let f : suc (suc (n * 2)) + 1 ≡ suc (suc (n * 2 + 1)) = omega arith in
    rw (e, f) (byte_text-get k n (val / 256) (omega arith))

-- Highest byte first, byte `j` is the `j`-th from the end.
byte_text_onto-skip :
    (k i val : ℕ) (done : Bytes)
    → get_or (byte_text_onto k val done) (k * 2 + i) 0 ≡ get_or done i 0
unfolding byte_text_onto
byte_text_onto-skip zero i val done = let e : 0 * 2 + i ≡ i = omega arith in rw e
byte_text_onto-skip (suc k) i val done =
    let e : suc k * 2 + i ≡ k * 2 + suc (suc i) = omega arith in
    rw e (byte_text_onto-skip k (suc (suc i)) (val / 256) _)

pub byte_text_onto-get :
    (k j n val : ℕ) (done : Bytes)
    → n + j + 1 ≡ k
    → (get_or (byte_text_onto k val done) (n * 2) 0 ≡ hex_digit (byte_at j val / 16))
      × (get_or (byte_text_onto k val done) (n * 2 + 1) 0 ≡ hex_digit (byte_at j val % 16))
unfolding byte_text_onto
byte_text_onto-get zero j n val done h = absurd (omega arith)
byte_text_onto-get (suc k) zero n val done h =
    let e : n * 2 ≡ k * 2 + 0 = omega arith in
    let f : n * 2 + 1 ≡ k * 2 + 1 = omega arith in
    (rw e (byte_text_onto-skip k 0 (val / 256) _), rw f (byte_text_onto-skip k 1 (val / 256) _))
byte_text_onto-get (suc k) (suc j) n val done h =
    byte_text_onto-get k j n (val / 256) _ (omega arith)

-- What is written is hex digits, two for each byte.
abbrev pub AllHex : Bytes → Type 0
AllHex = All (λ c. is_xdigit c ≡ true)

pub byte_text-AllHex : (n val : ℕ) → AllHex (byte_text n val)
unfolding byte_text
byte_text-AllHex zero val = tt
byte_text-AllHex (suc n) val = (
  hex_digit-is_xdigit _ (omega arith),
  (hex_digit-is_xdigit _ (omega arith), byte_text-AllHex n (val / 256)),
)

pub byte_text_onto-AllHex :
    (n val : ℕ) (done : Bytes) → AllHex done → AllHex (byte_text_onto n val done)
unfolding byte_text_onto
byte_text_onto-AllHex zero val done h = h
byte_text_onto-AllHex (suc n) val done h =
    byte_text_onto-AllHex n (val / 256) _
      (hex_digit-is_xdigit _ (omega arith), (hex_digit-is_xdigit _ (omega arith), h))

pub length-byte_text : (n val : ℕ) → length (byte_text n val) ≡ n * 2
unfolding byte_text
length-byte_text zero val = omega arith
length-byte_text (suc n) val = omega (arith, length-byte_text n (val / 256))

pub length-byte_text_onto :
    (n val : ℕ) (done : Bytes) → length (byte_text_onto n val done) ≡ n * 2 + length done
unfolding byte_text_onto
length-byte_text_onto zero val done = omega arith
length-byte_text_onto (suc n) val done = omega (
  arith,
  length-byte_text_onto n (val / 256)
      (hex_digit (val % 256 / 16) ∷ hex_digit (val % 256 % 16) ∷ done),
)
