-- ===== src/Server/Chunks.antt =====
-- lib/server/GdbServer.cpp, `rspQuery`: what a client reads of a file by `qXfer:features:read`.
use embdebug.Base.{
  ℕ, zero, suc, ◌+◌, ◌≤◌, ◌≡◌, refl, ap, [], ◌∷◌, ◌++◌, Bytes, arith, leb, ◌==◌, length, take,
  if◌then◌else◌,
}
use embdebug.Server.Query.{chunk}

-- A reply, in front of what the client reads afterwards: nothing comes behind the last chunk.
abbrev with_rest : Bytes → Bytes → Bytes
with_rest [] rest = []
with_rest (mark ∷ part) rest = if mark == b'l' then part else part ++ rest

-- A client asks for `len` characters from `start` on until a chunk is the last one.
unfoldable pub fetch : ℕ → Bytes → ℕ → ℕ → ℕ → Bytes
fetch size file len zero start = []
fetch size file len (suc fuel) start =
    with_rest (chunk size file start len) (fetch size file len fuel (start + len))

pub take_all : (n : ℕ) (xs : Bytes) → length xs ≤ n → take n xs ≡ xs
take_all zero [] h = refl
take_all zero (x ∷ xs) h = ground arith
take_all (suc n) [] h = refl
take_all (suc n) (x ∷ xs) h = ap (λ s. x ∷ s) (take_all n xs (omega arith))

abbrev mark_of : Bytes → ℕ → ℕ
mark_of view len = if leb (length view) len then b'l' else b'm'
