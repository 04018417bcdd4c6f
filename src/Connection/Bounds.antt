-- ===== src/Connection/Bounds.antt =====
-- lib/server/AbstractConnection.cpp, `getPkt`: its loops, and the length of what it delivers.
use embdebug.Base.{
  ℕ, zero, suc, ◌+◌, ◌-◌, ◌*◌, ◌%◌, ◌^◌, ◌≤◌, ◌<◌, ◌≡◌, ◌⊎◌, refl, Bool, true, false, not, [], ◌∷◌,
  ◌++◌, Option, none, some, Bytes, arith, ltb, ◌==◌, if◌then◌else◌, length, length-append,
  Bool-cases, inl, inr,
}
use embdebug.Base.Outcome.{Outcome, ok, fault, no_fuel, assertion}
use embdebug.Connection.Monad.{Conn, Io, ret, and_then, ◌>>◌}
use embdebug.Connection.Reads.{count_of, get_rsp_char_cases}
use embdebug.Connection.{
  get_rsp_char, put_rsp_char, read_digit, await_start, BodyEnd, hash, overran, read_body,
  read_checksum, acknowledge, deliver, after_body, get_pkt_loop, get_pkt, fuel_of,
}
use embdebug.Hex.{char2hex, is_xdigit}

-- What a routine ends with: never for want of fuel, and on success a property of the value and
-- of the state.
abbrev pub Ends : {A : Type 0} → (A → Conn → Type 0) → Outcome (Option A × Conn) → Type 0
Ends P (ok (some a, d)) = P a d
Ends P (ok (none, d)) = Unit
Ends P (fault no_fuel) = ⊥
Ends P (fault _) = Unit

-- The rule for a sequence.
pub Ends-bind :
    {A B : Type 0} (P : A → Conn → Type 0) (Q : B → Conn → Type 0) (r : Outcome (Option A × Conn))
    (f : A → Io B)
    → Ends P r
    → ((a : A) (d : Conn) → P a d → Ends Q (f a d))
    → Ends Q (and_then f r)
Ends-bind P Q (ok (some a, d)) f h k = k a d h
Ends-bind P Q (ok (none, d)) f h k = tt
Ends-bind P Q (fault no_fuel) f h k = h
Ends-bind P Q (fault assertion) f h k = tt
Ends-bind P Q (fault _) f h k = tt

pub Ends-if :
    {A : Type 0} (P : A → Conn → Type 0) (b : Bool) (m k : Io A) (c : Conn)
    → Ends P (m c)
    → Ends P (k c)
    → Ends P ((if b then m else k) c)
Ends-if P true m k c h h' = h
Ends-if P false m k c h h' = h'

-- A read takes a character.
get_rsp_char-Ends : (c : Conn) → Ends (λ ch d. count_of d < count_of c) (get_rsp_char c)
get_rsp_char-Ends c = elim (get_rsp_char_cases c) [
  | inl (ch, d, e, less) ↦ rw e less
  | inr (d, e) ↦ rw e tt
]

pub await_start-Ends :
    (fuel n : ℕ) (c : Conn)
    → count_of c < fuel
    → count_of c ≤ n
    → Ends (λ _ d. count_of d < n) (await_start fuel c)
unfolding await_start
await_start-Ends zero n c h le = absurd (omega arith)
await_start-Ends (suc fuel) n c h le =
    Ends-bind _ _ (get_rsp_char c) _ (get_rsp_char-Ends c) λ ch d less.
      elim (Bool-cases (ch == b'$')) [
        | inl e ↦ rw e (omega arith)
        | inr e ↦ rw e (await_start-Ends fuel n d (omega arith) (omega arith))
      ]

abbrev BodyFits : ℕ → BodyEnd → Type 0
BodyFits size (hash buf checksum) = length buf < size
BodyFits size (overran buf) = length buf ≤ size

read_body-Ends :
    (fuel n size : ℕ) (buf : Bytes) (checksum : ℕ) (c : Conn)
    → count_of c < fuel
    → count_of c ≤ n
    → length buf ≤ size
    → Ends (λ end d. BodyFits size end × (count_of d ≤ n)) (read_body fuel size buf checksum c)
unfolding read_body
read_body-Ends zero n size buf checksum c h le fits = absurd (omega arith)
read_body-Ends (suc fuel) n size buf checksum c h le fits =
    elim (Bool-cases (size - length buf == 0)) [
      | inl full ↦ rw full (fits, le)
      | inr space ↦ rw space (
          Ends-bind _ _ (get_rsp_char c) _ (get_rsp_char-Ends c) λ ch d less.
            elim (Bool-cases (ch == b'$')) [
              | inl e ↦
                  rw e (read_body-Ends fuel n size [] 0 d (omega arith) (omega arith) (omega arith))
              | inr e ↦ elim (Bool-cases (ch == b'#')) [
                | inl f ↦ rw (e, f) (ground arith, omega arith)
                | inr f ↦
                    let longer = length-append buf (ch ∷ []) in
                    rw (e, f)
                      (read_body-Ends fuel n size (buf ++ ch ∷ []) _ d (omega arith) (omega arith)
                        (ground (arith, longer)))
              ]
            ])
    ]

read_digit-Ends : (n : ℕ) (c : Conn) → count_of c ≤ n → Ends (λ _ d. count_of d ≤ n) (read_digit c)
unfolding read_digit char2hex
read_digit-Ends n c h = elim (get_rsp_char_cases c) [
  | inl (ch, d, e, less) ↦
      rw e (elim (Bool-cases (is_xdigit ch)) [ inl x ↦ rw x (omega arith) | inr x ↦ rw x tt ])
  | inr (d, e) ↦ rw e tt
]

read_checksum-Ends :
    (n : ℕ) (c : Conn) → count_of c ≤ n → Ends (λ _ d. count_of d ≤ n) (read_checksum c)
unfolding read_checksum
read_checksum-Ends n c h = Ends-bind _ _ (read_digit c) _ (read_digit-Ends n c h) λ hi d le.
    Ends-bind {B = ℕ} _ (λ _ d. count_of d ≤ n) (read_digit d)
      (λ lo. ret ((hi * 2 ^ 4 % 256 + lo) % 256)) (read_digit-Ends n d le) λ lo d le. le

put_rsp_char-Ends :
    (n ch : ℕ) (c : Conn) → count_of c ≤ n → Ends (λ _ d. count_of d ≤ n) (put_rsp_char ch c)
unfolding put_rsp_char
put_rsp_char-Ends n ch c h = elim (Bool-cases (ltb 0 c.room)) [ inl e ↦ rw e h | inr e ↦ rw e tt ]

-- What `acknowledge` may return, with the characters that are left.
abbrev Verdict : ℕ → Bytes → Option Bytes → Conn → Type 0
Verdict n buf r d = (count_of d ≤ n) × ((r ≡ none) ⊎ (r ≡ some buf))

abbrev answer : ℕ → Option Bytes → Io (Option Bytes)
answer ch r = put_rsp_char ch >> ret r

answer-Ends :
    (n : ℕ) (buf : Bytes) (ch : ℕ) (r : Option Bytes) (c : Conn)
    → count_of c ≤ n
    → (r ≡ none) ⊎ (r ≡ some buf)
    → Ends (Verdict n buf) (answer ch r c)
answer-Ends n buf ch r c h is =
    Ends-bind _ (Verdict n buf) (put_rsp_char ch c) (λ _. ret r) (put_rsp_char-Ends n ch c h)
      λ _ d le. (le, is)

acknowledge-Ends :
    (n : ℕ) (buf : Bytes) (checksum : ℕ) (c : Conn)
    → count_of c ≤ n
    → Ends (Verdict n buf) (acknowledge buf checksum c)
unfolding acknowledge
acknowledge-Ends n buf checksum c h =
    Ends-bind _ _ (read_checksum c) _ (read_checksum-Ends n c h) λ sum d le.
      Ends-if (Verdict n buf) d.no_ack_mode (ret (some buf)) _ d (le, inr refl)
        (Ends-if (Verdict n buf) (not (checksum == sum)) (answer b'-' none) (answer b'+' (some buf))
          d (answer-Ends n buf b'-' none d le (inl refl))
          (answer-Ends n buf b'+' (some buf) d le (inr refl)))

-- A round, given what the loop does with a buffer that fits and with fewer characters to come.
after_body-Ends :
    (fuel size : ℕ) (end : BodyEnd) (c : Conn) (again : Bytes → Io Bytes)
    → ((buf : Bytes) (d : Conn)
        → count_of d < fuel
        → length buf ≤ size
        → Ends (λ pkt _. length pkt < size) (again buf d))
    → BodyFits size end × (count_of c < fuel)
    → Ends (λ pkt _. length pkt < size) (after_body again end c)
after_body-Ends fuel size (overran buf) c again more h = more buf c h.1 h.0
after_body-Ends fuel size (hash buf checksum) c again more h =
    Ends-bind _ (λ pkt _. length pkt < size) (acknowledge buf checksum c) (deliver again buf)
      (acknowledge-Ends (count_of c) buf checksum c (omega arith)) λ r d v. delivered r d v
  where
    delivered :
        (r : Option Bytes) (d : Conn)
        → Verdict (count_of c) buf r d
        → Ends (λ pkt _. length pkt < size) (deliver again buf r d)
    delivered none d v = more buf d (omega (arith, h.1, v.0)) (omega (arith, h.0))
    delivered (some p) d (le, inl e) = cc
    delivered (some p) d (le, inr e) = let same : p ≡ buf = cc in rw same h.0

-- The outer loop: it has fuel for every character that can come.
get_pkt_loop-Ends :
    (fuel size : ℕ) (buf : Bytes) (c : Conn)
    → count_of c < fuel
    → length buf ≤ size
    → Ends (λ pkt _. length pkt < size) (get_pkt_loop fuel size buf c)
unfolding get_pkt_loop
get_pkt_loop-Ends zero size buf c h fits = absurd (omega arith)
get_pkt_loop-Ends (suc fuel) size buf c h fits =
    Ends-bind _ (λ pkt _. length pkt < size) (await_start (suc fuel) c) _
      (await_start-Ends (suc fuel) (count_of c) c h (omega arith))
      λ _ d less.
        Ends-bind _ (λ pkt _. length pkt < size) (read_body (suc fuel) size buf 0 d) _
          (read_body-Ends (suc fuel) (count_of d) size buf 0 d (omega arith) (omega arith) fits)
          λ end e ends.
            after_body-Ends fuel size end e _ (λ b f. get_pkt_loop-Ends fuel size b f)
              (ends.0, omega (arith, ends.1))

-- The loops of `getPkt` end on every script, without running out of the model's fuel, and a packet
-- that it delivers is shorter than the buffer.
pub get_pkt-Ends : (size : ℕ) (c : Conn) → Ends (λ pkt _. length pkt < size) (get_pkt size c)
unfolding get_pkt
get_pkt-Ends size c = get_pkt_loop-Ends (fuel_of c) size [] c (omega arith) (omega arith)
