-- ===== src/Connection/Overrun.antt =====
-- lib/server/AbstractConnection.cpp, `getPkt`: a body as long as the buffer.
use embdebug.Base.{
  ℕ, zero, suc, ◌+◌, ◌-◌, ◌%◌, ◌≤◌, ◌<◌, ◌≡◌, refl, ◌∙◌, ap, true, false, [], ◌∷◌, ◌++◌, append-nil,
  append_assoc, Option, some, Bytes, arith, ◌==◌, length, length-append, All,
}
use embdebug.Base.Outcome.{Outcome, ok}
use embdebug.Connection.Monad.{Conn}
use embdebug.Connection.Reads.{chars, count_of, get_rsp_char-cons, length-chars-le}
use embdebug.Connection.Get.{IsNoise, IsBody, await_start_lem}
use embdebug.Connection.Bounds.{Ends, Ends-bind, await_start-Ends}
use embdebug.Connection.{await_start, overran, read_body, get_pkt_loop, get_pkt, fuel_of}

-- The end of a call that delivers no packet: a failure of the connection, or of an `assert`.
abbrev pub DeliversNothing : Outcome (Option Bytes × Conn) → Type 0
DeliversNothing = Ends (λ pkt d. ⊥)

read_body_full :
    (fuel size : ℕ) (buf : Bytes) (checksum : ℕ) (c : Conn)
    → 0 < fuel
    → length buf ≡ size
    → read_body fuel size buf checksum c ≡ ok (some (overran buf), c)
unfolding read_body
read_body_full zero size buf checksum c pos full = absurd (omega arith)
read_body_full (suc fuel) size buf checksum c pos full =
    let e : (size - length buf == 0) ≡ true = ground arith in rw e refl

-- Once the builder is full, the outer loop goes round until the connection fails.
get_pkt_loop_full :
    (fuel size : ℕ) (buf : Bytes) (c : Conn)
    → count_of c < fuel
    → length buf ≡ size
    → DeliversNothing (get_pkt_loop fuel size buf c)
unfolding get_pkt_loop
get_pkt_loop_full zero size buf c h full = absurd (omega arith)
get_pkt_loop_full (suc fuel) size buf c h full =
    Ends-bind _ (λ pkt _. ⊥) (await_start (suc fuel) c) _
      (await_start-Ends (suc fuel) (count_of c) c h (omega arith))
      λ _ d less.
        rw (read_body_full (suc fuel) size buf 0 d (omega arith) full)
          (get_pkt_loop_full fuel size buf d (omega arith) full)

read_body_overran :
    (body : Bytes) (fuel size : ℕ) (buf : Bytes) (checksum : ℕ) (c : Conn) (rest : Bytes)
    → length body < fuel
    → length buf + length body ≡ size
    → All IsBody body
    → chars c ≡ body ++ rest
    → (d : Conn) × (read_body fuel size buf checksum c ≡ ok (some (overran (buf ++ body)), d))
      × (count_of d ≤ count_of c)
unfolding read_body
read_body_overran [] fuel size buf checksum c rest h full clean e = (
  c,
  read_body_full fuel size buf checksum c (omega arith) (omega arith) ∙ rw append-nil refl,
  omega arith,
)
read_body_overran (x ∷ body) zero size buf checksum c rest h full clean e = absurd (omega arith)
read_body_overran (x ∷ body) (suc fuel) size buf checksum c rest h full clean e =
    let (d, read, left, same, less) = get_rsp_char-cons c x _ e in
    let space : (size - length buf == 0) ≡ false = ground arith in
    let longer = length-append buf (x ∷ []) in
    let (d', more, le) =
      read_body_overran body fuel size (buf ++ x ∷ []) ((checksum + x) % 256) d rest (omega arith)
        (omega arith) clean.1 left in
    (d', rw (space, read, clean.0.0, clean.0.1) (more ∙ rw append_assoc refl), omega arith)

-- If a frame has a body of as many characters as the buffer holds, or more (`rest` may go on with
-- any characters), this call of `getPkt` delivers no packet, whatever follows: it ends only when
-- the connection fails or an `assert` does.
pub get_pkt_overrun :
    (size : ℕ) (c : Conn) (noise body rest : Bytes)
    → length body ≡ size
    → All IsNoise noise
    → All IsBody body
    → chars c ≡ noise ++ (b'$' ∷ (body ++ rest))
    → DeliversNothing (get_pkt size c)
unfolding get_pkt get_pkt_loop
get_pkt_overrun size c noise body rest full quiet clean e =
    let long = length-chars-le c in
    let len = ap length e in
    let len' = length-append noise (b'$' ∷ (body ++ rest)) in
    let len'' = length-append body rest in
    let (d, found, left, same, less) =
      await_start_lem noise (fuel_of c) c _ (omega arith) quiet e in
    let (d', over, le) =
      read_body_overran body (fuel_of c) size [] 0 d rest (omega arith) (omega arith) clean left in
    rw (found, over) (get_pkt_loop_full (count_of c) size body d' (omega arith) full)
