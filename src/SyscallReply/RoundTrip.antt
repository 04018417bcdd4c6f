-- ===== src/SyscallReply/RoundTrip.antt =====
-- lib/server/SyscallReplyPacket.h, `parse`, on the replies of the protocol's File-I/O extension.
use embdebug.Base.{
  ℕ, suc, ◌<◌, ◌^◌, ◌≡◌, refl, sym, append-nil, ◌∙◌, ap, Bool, true, false, ◌++◌, Bytes, [], ◌∷◌,
  codes, none, some, inl, inr,
}
use embdebug.Base.Int.{ℤ, pos, negsuc}
use embdebug.Hex.{is_xdigit}
use embdebug.Hex.Value.{val_text}
use embdebug.SyscallReply.{
  SyscallReply, accepted, parse_marker, check_error, parse_error, after_code, parse_value, parse,
  strtol, read_magnitude, read_digits, skip_space,
}
use embdebug.SyscallReply.Number.{parse_value-val_text}

-- What a debugger answers: the value that the call returned, or the number of the error, one less.
pub data Answer : Type 0 where
  returned : ℕ → Answer
  failed : ℕ → Answer

-- The packet of an answer, and whether the user interrupted the call.
abbrev pub reply_text : Answer → Bool → Bytes
reply_text (returned v) false = b'F' ∷ val_text v
reply_text (returned v) true = b'F' ∷ (val_text v ++ codes ",0,C")
reply_text (failed n) false = codes "F-1," ++ val_text (suc n)
reply_text (failed n) true = codes "F-1," ++ (val_text (suc n) ++ codes ",C")

abbrev pub Fits : Answer → Type 0
Fits (returned v) = v < 2 ^ 31
Fits (failed n) = suc n < 2 ^ 31

-- What the program hands to the target.
abbrev pub result : Answer → ℤ
result (returned v) = pos v
result (failed n) = negsuc n

whole : (v : ℕ) → v < 2 ^ 31 → parse_value (val_text v) ≡ some (pos v, [])
whole v h =
    let e : parse_value (val_text v ++ []) ≡ some (pos v, []) =
      parse_value-val_text v [] h (inl refl) in
    ap parse_value (sym (append-nil (val_text v))) ∙ e

parse_code :
    (s rest : Bytes) (code : ℤ) (r : SyscallReply)
    → parse_value s ≡ some (code, rest)
    → parse (b'F' ∷ s) r
      ≡ after_code code rest
          (record { valid = false; retcode = r.retcode; has_ctrl_c = r.has_ctrl_c })
unfolding parse
parse_code s rest code r e = rw e refl

parse_error_value :
    (s rest : Bytes) (code error : ℤ) (r : SyscallReply)
    → parse_value s ≡ some (error, rest)
    → parse_error s code r ≡ check_error error code rest r
unfolding parse_error
parse_error_value s rest code error r e =
    ap (λ x. elim x [ none ↦ r | some (i, t) ↦ check_error i code t r ]) e

behind_code :
    (s rest : Bytes) (code error : ℤ) (r : SyscallReply)
    → parse_value s ≡ some (error, rest)
    → after_code code (b',' ∷ s) r ≡ check_error error code rest r
unfolding after_code
behind_code = parse_error_value

minus_one : (xs : Bytes) → parse_value (codes "-1," ++ xs) ≡ some (negsuc 0, b',' ∷ xs)
unfolding parse_value strtol skip_space read_magnitude read_digits is_xdigit
minus_one xs = refl

no_error : parse_value (codes "0,C") ≡ some (pos 0, codes ",C")
unfolding parse_value strtol skip_space read_magnitude read_digits is_xdigit
no_error = refl

-- The conditions: the value, or the number of the error, is a non-negative `int` (the error not 0).
-- Whatever the object held, `parse` of the packet of an answer makes it valid, with the returned
-- value or the negated error as its return code, and with the interrupt flag of the packet.
pub parse-reply_text :
    (a : Answer) (ctrl_c : Bool) (r : SyscallReply)
    → Fits a
    → parse (reply_text a ctrl_c) r ≡ accepted (result a) ctrl_c
unfolding after_code check_error parse_marker
parse-reply_text (returned v) false r h = parse_code (val_text v) [] (pos v) r (whole v h)
parse-reply_text (returned v) true r h =
    parse_code (val_text v ++ codes ",0,C") (codes ",0,C") (pos v) r
      (parse_value-val_text v (codes ",0,C") h (inr (codes "0,C", refl)))
    ∙ behind_code (codes "0,C") (codes ",C") (pos v) (pos 0)
        (record { valid = false; retcode = r.retcode; has_ctrl_c = r.has_ctrl_c }) no_error
parse-reply_text (failed n) false r h =
    parse_code (codes "-1," ++ val_text (suc n)) (b',' ∷ val_text (suc n)) (negsuc 0) r
      (minus_one (val_text (suc n)))
    ∙ behind_code (val_text (suc n)) [] (negsuc 0) (pos (suc n))
        (record { valid = false; retcode = r.retcode; has_ctrl_c = r.has_ctrl_c }) (whole (suc n) h)
parse-reply_text (failed n) true r h =
    let text = val_text (suc n) ++ codes ",C" in
    parse_code (codes "-1," ++ text) (b',' ∷ text) (negsuc 0) r (minus_one text)
    ∙ behind_code text (codes ",C") (negsuc 0) (pos (suc n))
        (record { valid = false; retcode = r.retcode; has_ctrl_c = r.has_ctrl_c })
        (parse_value-val_text (suc n) (codes ",C") h (inr (codes "C", refl)))
