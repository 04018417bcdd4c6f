-- ===== src/Packet/Builder.antt =====
-- lib/server/RspPacket.cpp, `RspPacketBuilder`: sequences of operations on a builder.
use embdebug.Base.{
  ℕ, zero, suc, ◌+◌, ◌%◌, ◌^◌, ◌≤◌, ◌<◌, ◌≡◌, All, List, [], ◌∷◌, Bytes, arith, ltb, ◌==◌, length,
  length-append, take, Bool-cases, inl, inr,
}
use embdebug.Packet.{add_char, add_data, add_string, erase}

-- The calls on a builder.
pub data Call : Type 0 where
  char : ℕ → Call
  string : Bytes → Call
  bytes : Bytes → ℕ → Call
  clear : Call

abbrev pub perform : ℕ → Bytes → Call → Bytes
perform size buf (char c) = add_char size buf c
perform size buf (string str) = add_string size buf str
perform size buf (bytes str len) = add_data size buf str len
perform size buf clear = erase size

abbrev pub build : ℕ → Bytes → List Call → Bytes
build size buf [] = buf
build size buf (c ∷ calls) = build size (perform size buf c) calls

-- The length that a call adds does not wrap around with a full buffer of this size.
abbrev pub NoWrap : ℕ → Call → Type 0
NoWrap size (string str) = size + length str < 2 ^ 64
NoWrap size (bytes str len) = size + len < 2 ^ 64
NoWrap size _ = Unit

length-take : (n : ℕ) (xs : Bytes) → length (take n xs) ≤ n
length-take zero xs = omega arith
length-take (suc n) [] = omega arith
length-take (suc n) (x ∷ xs) = omega (arith, length-take n xs)

add_data-fits :
    (size : ℕ) (buf str : Bytes) (len : ℕ)
    → length buf ≤ size
    → size + len < 2 ^ 64
    → length (add_data size buf str len) ≤ size
unfolding add_data
add_data-fits size buf str len h small =
    let whole : (length buf + len) % 2 ^ 64 ≡ length buf + len = omega arith in
    elim (Bool-cases (ltb size (length buf + len))) [
      | inl e ↦ rw (whole, e) h
      | inr e ↦
          rw (whole, e, length-append buf (take len str)) (ground (arith, length-take len str))
    ]

add_char-fits :
    (size : ℕ) (buf : Bytes) (c : ℕ) → length buf ≤ size → length (add_char size buf c) ≤ size
unfolding add_char
add_char-fits size buf c h = elim (Bool-cases (length buf == size)) [
  | inl e ↦ rw e h
  | inr e ↦ rw (e, length-append buf (c ∷ [])) (ground arith)
]

perform-fits :
    (size : ℕ) (buf : Bytes) (c : Call)
    → length buf ≤ size
    → NoWrap size c
    → length (perform size buf c) ≤ size
unfolding add_string
perform-fits size buf (char c) h small = add_char-fits size buf c h
perform-fits size buf (string str) h small = add_data-fits size buf str (length str) h small
perform-fits size buf (bytes str len) h small = add_data-fits size buf str len h small
perform-fits size buf clear h small = omega arith

-- Whatever is appended to a builder whose contents fit the buffer, and in whatever order, the
-- contents fit the buffer after all of the calls, if no length that is added wraps around with the
-- size of the buffer as a `size_t`.
pub build-fits :
    (size : ℕ) (buf : Bytes) (calls : List Call)
    → length buf ≤ size
    → All (NoWrap size) calls
    → length (build size buf calls) ≤ size
build-fits size buf [] h small = h
build-fits size buf (c ∷ calls) h small =
    build-fits size (perform size buf c) calls (perform-fits size buf c h small.0) small.1
