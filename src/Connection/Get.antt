-- ===== src/Connection/Get.antt =====
-- lib/server/AbstractConnection.cpp, `getPkt`: what is made of the characters of one frame.
use embdebug.Base.{
  ℕ, zero, suc, ◌+◌, ◌-◌, ◌*◌, ◌%◌, ◌^◌, ◌≤◌, ◌<◌, ◌≡◌, refl, ◌∙◌, true, false, [], ◌∷◌, ◌++◌, none,
  some, Bytes, arith, ◌==◌, length, length-append, append_assoc, append-nil, All, ==_refl,
}
use embdebug.Base.Outcome.{ok}
use embdebug.Hex.Digit.{hex_value-lt, char2hex_xdigit}
use embdebug.Hex.{is_xdigit, is_hex_str, hex_value}
use embdebug.Connection.Monad.{Conn, if_true_run, if_false_run, and_then}
use embdebug.Connection.Reads.{chars, count_of, SameOutput, SameOutput-trans, get_rsp_char-cons}
use embdebug.Connection.Writes.{wrote, put_rsp_char_lem, sum_from}
use embdebug.Connection.{
  await_start, hash, read_body, read_checksum, acknowledge, deliver, get_pkt_loop,
}

-- A character that starts no frame; one that can stand in the body of a frame.
abbrev pub IsNoise : ℕ → Type 0
IsNoise ch = (ch == b'$') ≡ false

abbrev pub IsBody : ℕ → Type 0
IsBody ch = ((ch == b'$') ≡ false) × ((ch == b'#') ≡ false)

pub await_start_lem :
    (noise : Bytes) (fuel : ℕ) (c : Conn) (rest : Bytes)
    → length noise < fuel
    → All IsNoise noise
    → chars c ≡ noise ++ (b'$' ∷ rest)
    → (d : Conn) × (await_start fuel c ≡ ok (some tt, d))
      × (chars d ≡ rest)
      × SameOutput c d
      × (count_of d < count_of c)
unfolding await_start
await_start_lem noise zero c rest h clean e = absurd (omega arith)
await_start_lem [] (suc fuel) c rest h clean e =
    let (d, read, left, same, less) = get_rsp_char-cons c b'$' rest e in
    (d, rw read refl, left, same, less)
await_start_lem (x ∷ noise) (suc fuel) c rest h clean e =
    let (d, read, left, same, less) = get_rsp_char-cons c x _ e in
    let (d', more, left', same', less') =
      await_start_lem noise fuel d rest (omega arith) clean.1 left in
    (d', rw (read, clean.0) more, left', SameOutput-trans same same', omega arith)

pub read_body_lem :
    (body : Bytes) (fuel size : ℕ) (buf : Bytes) (checksum : ℕ) (c : Conn) (rest : Bytes)
    → length body < fuel
    → length buf + length body < size
    → All IsBody body
    → chars c ≡ body ++ (b'#' ∷ rest)
    → (d : Conn) × (read_body fuel size buf checksum c
        ≡ ok (some (hash (buf ++ body) (sum_from checksum body)), d))
      × (chars d ≡ rest)
      × SameOutput c d
unfolding read_body sum_from
read_body_lem body zero size buf checksum c rest h fits clean e = absurd (omega arith)
read_body_lem [] (suc fuel) size buf checksum c rest h fits clean e =
    let (d, read, left, same, less) = get_rsp_char-cons c b'#' rest e in
    let space : (size - length buf == 0) ≡ false = ground arith in
    (d, rw (space, read, append-nil) refl, left, same)
read_body_lem (x ∷ body) (suc fuel) size buf checksum c rest h fits clean e =
    let (d, read, left, same, less) = get_rsp_char-cons c x _ e in
    let space : (size - length buf == 0) ≡ false = ground arith in
    let longer = length-append buf (x ∷ []) in
    let (d', more, left', same') =
      read_body_lem body fuel size (buf ++ x ∷ []) ((checksum + x) % 256) d rest (omega arith)
        (omega arith) clean.1 left in
    (
      d',
      rw (space, read, clean.0.0, clean.0.1) (more ∙ rw append_assoc),
      left',
      SameOutput-trans same same',
    )

-- The checksum that two hex digits stand for.
abbrev pub checksum_of : ℕ → ℕ → ℕ
checksum_of a b = hex_value a * 16 + hex_value b

pub read_checksum_lem :
    (c : Conn) (a b : ℕ) (rest : Bytes)
    → is_xdigit a ≡ true
    → is_xdigit b ≡ true
    → chars c ≡ a ∷ b ∷ rest
    → (d : Conn) × (read_checksum c ≡ ok (some (checksum_of a b), d))
      × (chars d ≡ rest)
      × SameOutput c d
unfolding read_checksum is_hex_str
read_checksum_lem c a b rest ha hb e =
    let (d, read, left, same, less) = get_rsp_char-cons c a _ e in
    let (d', read', left', same', less') = get_rsp_char-cons d b _ left in
    let la = hex_value-lt a ha in
    let lb = hex_value-lt b hb in
    let v : (hex_value a * 2 ^ 4 % 256 + hex_value b) % 256 ≡ checksum_of a b = omega arith in
    (
      d',
      rw (read, ha, char2hex_xdigit a ha, read', hb, char2hex_xdigit b hb, v) refl,
      left',
      SameOutput-trans same same',
    )

-- The outer loop, up to the acknowledgement of the first frame.
pub get_pkt_loop_frame :
    (noise body : Bytes) (fuel size : ℕ) (buf : Bytes) (c : Conn) (rest : Bytes)
    → length noise ≤ fuel
    → length body ≤ fuel
    → length buf + length body < size
    → All IsNoise noise
    → All IsBody body
    → chars c ≡ noise ++ (b'$' ∷ (body ++ (b'#' ∷ rest)))
    → (d : Conn) × (chars d ≡ rest)
      × SameOutput c d
      × (get_pkt_loop (suc fuel) size buf c ≡ (
          let r = acknowledge (buf ++ body) (sum_from 0 body) d in
          and_then (deliver (get_pkt_loop fuel size) (buf ++ body)) r))
unfolding get_pkt_loop
get_pkt_loop_frame noise body fuel size buf c rest h₁ h₂ fits quiet clean e =
    let (d, found, left, same, less) = await_start_lem noise (suc fuel) c _ (omega arith) quiet e in
    let (d', read, left', same') =
      read_body_lem body (suc fuel) size buf 0 d rest (omega arith) fits clean left in
    (d', left', SameOutput-trans same same', rw (found, read) refl)

module _ (buf : Bytes) (a b : ℕ) (c : Conn) (rest : Bytes) (ha : is_xdigit a ≡ true)
    (hb : is_xdigit b ≡ true) (room : 0 < c.room) (e : chars c ≡ a ∷ b ∷ rest) where
  pub acknowledge_silent :
      c.no_ack_mode ≡ true
      → (checksum : ℕ)
      → (d : Conn) × (acknowledge buf checksum c ≡ ok (some (some buf), d))
        × (chars d ≡ rest)
        × SameOutput c d
  unfolding acknowledge
  acknowledge_silent mode checksum =
      let (d, read, left, same) = read_checksum_lem c a b rest ha hb e in
      (d, rw read (if_true_run _ _ _ d (same.mode_eq ∙ mode)), left, same)

  pub acknowledge_good :
      c.no_ack_mode ≡ false
      → (d : Conn) × (acknowledge buf (checksum_of a b) c
          ≡ ok (some (some buf), wrote (b'+' ∷ []) d))
        × (chars d ≡ rest)
        × SameOutput c d
  unfolding acknowledge
  acknowledge_good mode =
      let (d, read, left, same) = read_checksum_lem c a b rest ha hb e in
      (
        d,
        rw read (
            if_false_run _ _ _ d (same.mode_eq ∙ mode)
            ∙ rw (==_refl (checksum_of a b), put_rsp_char_lem b'+' d (omega (arith, same.room_eq)))
                refl),
        left,
        same,
      )

  pub acknowledge_bad :
      c.no_ack_mode ≡ false
      → (checksum : ℕ) → (checksum == checksum_of a b) ≡ false
      → (d : Conn) × (acknowledge buf checksum c ≡ ok (some none, wrote (b'-' ∷ []) d))
        × (chars d ≡ rest)
        × SameOutput c d
  unfolding acknowledge
  acknowledge_bad mode checksum bad =
      let (d, read, left, same) = read_checksum_lem c a b rest ha hb e in
      (
        d,
        rw read (
            if_false_run _ _ _ d (same.mode_eq ∙ mode)
            ∙ rw (bad, put_rsp_char_lem b'-' d (omega (arith, same.room_eq))) refl),
        left,
        same,
      )
