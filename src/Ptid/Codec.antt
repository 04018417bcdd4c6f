-- ===== src/Ptid/Codec.antt =====
-- lib/server/Ptid.cpp: `encode` against `decode`.
use embdebug.Base.{
  ℕ, zero, suc, ◌+◌, ◌-◌, ◌^◌, ◌<◌, ◌≡◌, refl, ◌∙◌, ap, true, false, ◌&&◌, ◌||◌, [], ◌∷◌, ◌++◌,
  append-nil, some, Bytes, arith, ◌==◌, if◌then◌else◌, length, drop, codes, All, Bool-cases, inl,
  inr,
}
use embdebug.Base.Int.{ℤ, pos, negsuc, eq_ℤ, to_int32, to_int32_small}
use embdebug.Base.Outcome.{ok, fault, Returns, assertion, ◌>>=◌}
use embdebug.Hex.Digit.{hex_digit}
use embdebug.Hex.Value.{
  val_text, digits_of, val2hex_lem, val_text_bounds, val_text-All, val_text-is_hex_str,
  hex2val-val_text, is_hex_str-prefix, hex2val-prefix,
}
use embdebug.Hex.{is_xdigit, is_hex_str, hex2val}
use embdebug.Ptid.{
  Ptid, ptid_inv, ptid_all, ptid_any, decode_field, decode_both, decode, strchr, encode_field,
  encode,
}

-- A field that GDB can be told of: all, any, or a positive number that fits an `int`.
abbrev pub IsField : ℤ → Type 0
IsField (pos n) = n < 2 ^ 31
IsField (negsuc n) = n ≡ 0

-- The text of a field.
field_text : ℤ → Bytes
field_text (negsuc n) = codes "-1"
field_text (pos zero) = codes "0"
field_text (pos (suc n)) = val_text (suc n)

encode_field_lem : (i : ℤ) → IsField i → encode_field i ≡ ok (field_text i)
unfolding encode_field field_text
encode_field_lem (pos zero) h = refl
encode_field_lem (pos (suc n)) h = val2hex_lem (suc n)
encode_field_lem (negsuc zero) h = refl
encode_field_lem (negsuc (suc n)) h = absurd (omega arith)

not_minus : (x : ℕ) → is_xdigit x ≡ true → (x == b'-') ≡ false
unfolding is_xdigit
not_minus x h = ground arith

not_dot : (x : ℕ) → is_xdigit x ≡ true → (x == b'.') ≡ false
unfolding is_xdigit
not_dot x h = ground arith

-- The literal "0" does not stand for a positive number.
not_zero : (x v : ℕ) → hex2val (x ∷ []) 1 ≡ ok (suc v) → (x == b'0') ≡ false
not_zero x v h = elim (Bool-cases (x == b'0')) [
  | inl e ↦
      let is : x ≡ b'0' = ground arith in
      let zero_val : hex2val (b'0' ∷ []) 1 ≡ ok 0 = unfold hex2val in refl in
      let h' : hex2val (b'0' ∷ []) 1 ≡ ok (suc v) = rw is at h in cc
  | inr e ↦ e
]

-- The last branch: hex digits of a positive number.
decode_field_hex :
    (t rest : Bytes) (v : ℕ)
    → is_hex_str t (length t) ≡ true
    → hex2val t (length t) ≡ ok v
    → v < 2 ^ 31
    → (if is_hex_str (t ++ rest) (length t)
        then (do v ← hex2val (t ++ rest) (length t); ok (to_int32 v))
        else ok ptid_inv)
      ≡ ok (pos v)
decode_field_hex t rest v hex val small =
    rw (is_hex_str-prefix t rest, hex, hex2val-prefix t rest, val) (ap ok (to_int32_small v small))

-- A text of hex digits that stands for a positive number is neither of the two literals.
decode_field_digits :
    (t rest : Bytes) (v : ℕ)
    → All (λ c. is_xdigit c ≡ true) t
    → is_hex_str t (length t) ≡ true
    → hex2val t (length t) ≡ ok (suc v)
    → suc v < 2 ^ 31
    → decode_field (t ++ rest) (length t) ≡ ok (pos (suc v))
unfolding decode_field
decode_field_digits [] rest v all hex val small =
    let empty : hex2val [] 0 ≡ fault assertion = unfold hex2val in refl in cc
decode_field_digits (x ∷ []) rest v all hex val small =
    rw (not_zero x v val) (decode_field_hex (x ∷ []) rest (suc v) hex val small)
decode_field_digits (x ∷ y ∷ t) rest v all hex val small =
    let long : (suc (suc (length t)) == 1) ≡ false = ground arith in
    rw (long, not_minus x all.0)
      (ground (arith, decode_field_hex (x ∷ y ∷ t) rest (suc v) hex val small))

decode_field_lem :
    (i : ℤ) (rest : Bytes)
    → IsField i
    → decode_field (field_text i ++ rest) (length (field_text i)) ≡ ok i
unfolding field_text
decode_field_lem (pos zero) rest h = unfold decode_field in refl
decode_field_lem (pos (suc n)) rest h =
    decode_field_digits (val_text (suc n)) rest n (val_text-All (suc n))
      (val_text-is_hex_str (suc n) (omega arith)) (hex2val-val_text (suc n) (omega arith)) h
decode_field_lem (negsuc zero) rest h = unfold decode_field in refl
decode_field_lem (negsuc (suc n)) rest h = absurd (omega arith)

field_text-ne-nil : (i : ℤ) → IsField i → 0 < length (field_text i)
unfolding field_text
field_text-ne-nil (pos zero) h = omega arith
field_text-ne-nil (pos (suc n)) h = (val_text_bounds (suc n) (omega arith)).0
field_text-ne-nil (negsuc n) h = omega arith

abbrev NoDot : Bytes → Type 0
NoDot = All (λ c. (c == b'.') ≡ false)

xdigits-NoDot : (t : Bytes) → All (λ c. is_xdigit c ≡ true) t → NoDot t
xdigits-NoDot [] h = tt
xdigits-NoDot (x ∷ t) h = (not_dot x h.0, xdigits-NoDot t h.1)

field_text-NoDot : (i : ℤ) → NoDot (field_text i)
unfolding field_text
field_text-NoDot (pos zero) = (refl, tt)
field_text-NoDot (pos (suc n)) = xdigits-NoDot (val_text (suc n)) (val_text-All (suc n))
field_text-NoDot (negsuc n) = (refl, (refl, tt))

strchr_dot : (t u : Bytes) → NoDot t → strchr (t ++ (b'.' ∷ u)) b'.' ≡ some (length t)
unfolding strchr
strchr_dot [] u h = refl
strchr_dot (x ∷ t) u h = rw (h.0, strchr_dot t u h.1) refl

drop-append : (t u : Bytes) → drop (length t + 1) (t ++ (b'.' ∷ u)) ≡ u
drop-append [] u = refl
drop-append (x ∷ t) u =
    let e : suc (length t) + 1 ≡ suc (length t + 1) = omega arith in rw e (drop-append t u)

-- What GDB can be told of, less the two combinations that `decode` rules out.
pub record IsPtid (p : Ptid) : Type 0 where
  pub pid_field : IsField p.pid
  pub tid_field : IsField p.tid
  pub allowed : (eq_ℤ p.pid ptid_all && (eq_ℤ p.tid ptid_all || eq_ℤ p.tid ptid_any)) ≡ false

pub ptid_text : Ptid → Bytes
ptid_text p = b'p' ∷ (field_text p.pid ++ (b'.' ∷ field_text p.tid))

pub encode_lem : (p : Ptid) → IsPtid p → encode p ≡ ok (true, ptid_text p)
unfolding encode ptid_text
encode_lem p h =
    let a : (length (field_text p.pid) == 0) ≡ false =
      ground (arith, field_text-ne-nil p.pid h.pid_field) in
    let b : (length (field_text p.tid) == 0) ≡ false =
      ground (arith, field_text-ne-nil p.tid h.tid_field) in
    rw (encode_field_lem p.pid h.pid_field, a, encode_field_lem p.tid h.tid_field, b) refl

-- The text of the only thread of a process.
pub encode_process :
    (n : ℕ)
    → suc n < 2 ^ 31
    → encode (record { pid = pos (suc n); tid = pos 1 })
      ≡ ok (true, b'p' ∷ (val_text (suc n) ++ codes ".1"))
unfolding ptid_text field_text hex_digit val_text digits_of
encode_process n h =
    let one : val_text 1 ≡ codes "1" = refl in
    encode_lem (record { pid = pos (suc n); tid = pos 1 })
      (record { pid_field = h; tid_field = omega arith; allowed = refl })
    ∙ rw one refl

IsField-ne_inv : (i : ℤ) → IsField i → eq_ℤ i ptid_inv ≡ false
IsField-ne_inv (pos n) h = refl
IsField-ne_inv (negsuc n) h = ground arith

decode_both-ptid_text :
    (p q : Ptid)
    → IsPtid p
    → decode_both (ptid_text p) (suc (length (field_text p.pid))) q ≡ ok (true, p)
unfolding decode_both ptid_text
decode_both-ptid_text p q h =
    let t = field_text p.pid in
    let u = field_text p.tid in
    let a : suc (length t) - 1 ≡ length t = omega arith in
    let b : suc (length t) + 1 ≡ suc (length t + 1) = omega arith in
    let last : decode_field u (length u) ≡ ok p.tid =
      (rw append-nil at (decode_field_lem p.tid [] h.tid_field)) in
    rw (a, decode_field_lem p.pid (b'.' ∷ u) h.pid_field, b, drop-append t u, last)
      (rw (IsField-ne_inv p.pid h.pid_field, IsField-ne_inv p.tid h.tid_field, h.allowed) refl)

-- For a process and a thread that are each `ALL`, `ANY` or a positive `int`, but not all processes
-- with all or any threads, `encode` succeeds, and `decode` of the text that it writes succeeds and
-- gives the identifier back, whatever the identifier was before.
pub decode-encode :
    (p q : Ptid) → IsPtid p → Returns (encode p) λ r. (r.0 ≡ true) × (decode r.1 q ≡ ok (true, p))
unfolding decode
decode-encode p q h = rw (encode_lem p h) (
  refl,
  unfold ptid_text in
      rw (strchr_dot (field_text p.pid) (field_text p.tid) (field_text-NoDot p.pid))
        (decode_both-ptid_text p q h),
)
