-- ===== src/Ptid/Range.antt =====
-- lib/server/Ptid.cpp, `decode`: the range of the process that it stores.
use embdebug.Base.{
  ℕ, ◌+◌, ◌-◌, Bool, true, false, not, ◌&&◌, ◌||◌, Bytes, Option, none, some, ◌==◌, if◌then◌else◌,
  length, drop, get_or, arith,
}
use embdebug.Base.Int.{ℤ, IsInt32, to_int32-IsInt32, to_int32, eq_ℤ}
use embdebug.Base.Outcome.{Outcome, ok, fault, ◌>>=◌}
use embdebug.Hex.{is_hex_str, hex2val}
use embdebug.Ptid.{
  Ptid, ptid_inv, ptid_all, ptid_any, accept, decode_field, decode_tid, decode_pid, decode_both,
  decode, strchr,
}

-- What a run may end with.
abbrev pub Field : Outcome ℤ → Type 0
Field (ok i) = IsInt32 i
Field (fault e) = Unit

abbrev pub Fine : Outcome (Bool × Ptid) → Type 0
Fine (ok (b, q)) = IsInt32 q.pid
Fine (fault e) = Unit

Field-if : (b : Bool) (m k : Outcome ℤ) → Field m → Field k → Field (if b then m else k)
Field-if true m k h h' = h
Field-if false m k h h' = h'

converted : (r : Outcome ℕ) → Field (do v ← r; ok (to_int32 v))
converted (ok v) = to_int32-IsInt32 v
converted (fault e) = tt

decode_field-Field : (buf : Bytes) (len : ℕ) → Field (decode_field buf len)
unfolding decode_field
decode_field-Field buf len =
    Field-if (len == 1 && get_or buf 0 0 == 48) (ok ptid_any)
      (if len == 2 && get_or buf 0 0 == 45 && get_or buf 1 0 == 49
        then ok ptid_all
        else if is_hex_str buf len
        then (do v ← hex2val buf len; ok (to_int32 v))
        else ok ptid_inv)
      (omega arith)
      (Field-if (len == 2 && get_or buf 0 0 == 45 && get_or buf 1 0 == 49) (ok ptid_all)
        (if is_hex_str buf len then (do v ← hex2val buf len; ok (to_int32 v)) else ok ptid_inv)
        (omega arith)
        (Field-if (is_hex_str buf len) (do v ← hex2val buf len; ok (to_int32 v)) (ok ptid_inv)
          (converted (hex2val buf len)) (omega arith)))

reject-Fine :
    (b : Bool) (p : Ptid) (r : Bool × Ptid)
    → IsInt32 p.pid
    → Fine (ok r)
    → Fine (ok (if b then (false, p) else r))
reject-Fine true p r h k = h
reject-Fine false p r h k = k

accept-Fine : (p : Ptid) (pid tid : ℤ) → IsInt32 p.pid → IsInt32 pid → Fine (ok (accept p pid tid))
accept-Fine p pid tid h k =
    reject-Fine (eq_ℤ pid ptid_all && (eq_ℤ tid ptid_all || eq_ℤ tid ptid_any)) p
      (true, record { pid = pid; tid = tid }) h k

sequence :
    (r : Outcome ℤ) (f : ℤ → Outcome (Bool × Ptid))
    → Field r
    → ((i : ℤ) → IsInt32 i → Fine (f i))
    → Fine (do i ← r; f i)
sequence (ok i) f h k = k i h
sequence (fault e) f h k = tt

decode_tid-Fine : (buf : Bytes) (p : Ptid) → IsInt32 p.pid → Fine (decode_tid buf p)
unfolding decode_tid
decode_tid-Fine buf p h =
    sequence (decode_field buf (length buf))
      (λ tid. ok (if eq_ℤ tid ptid_inv then (false, p) else accept p p.pid tid))
      (decode_field-Field buf (length buf))
      (λ i k. reject-Fine (eq_ℤ i ptid_inv) p (accept p p.pid i) h (accept-Fine p p.pid i h h))

decode_pid-Fine : (buf : Bytes) (p : Ptid) → IsInt32 p.pid → Fine (decode_pid buf p)
unfolding decode_pid
decode_pid-Fine buf p h =
    sequence (decode_field (drop 1 buf) (length (drop 1 buf)))
      (λ pid. ok (if eq_ℤ pid ptid_inv then (false, p) else accept p pid ptid_all))
      (decode_field-Field (drop 1 buf) (length (drop 1 buf)))
      (λ i k.
        reject-Fine (eq_ℤ i ptid_inv) p (accept p i ptid_all) h (accept-Fine p i ptid_all h k))

decode_both-Fine : (buf : Bytes) (dot : ℕ) (p : Ptid) → IsInt32 p.pid → Fine (decode_both buf dot p)
unfolding decode_both
decode_both-Fine buf dot p h =
    sequence (decode_field (drop 1 buf) (dot - 1))
      (λ pid. do
        tid ← decode_field (drop (dot + 1) buf) (length (drop (dot + 1) buf))
        ok (if eq_ℤ pid ptid_inv || eq_ℤ tid ptid_inv then (false, p) else accept p pid tid))
      (decode_field-Field (drop 1 buf) (dot - 1))
      (λ i k.
        sequence (decode_field (drop (dot + 1) buf) (length (drop (dot + 1) buf)))
          (λ tid. ok (if eq_ℤ i ptid_inv || eq_ℤ tid ptid_inv then (false, p) else accept p i tid))
          (decode_field-Field (drop (dot + 1) buf) (length (drop (dot + 1) buf)))
          (λ j _.
            reject-Fine (eq_ℤ i ptid_inv || eq_ℤ j ptid_inv) p (accept p i j) h
              (accept-Fine p i j h k)))

split-Fine :
    (r : Option ℕ) (buf : Bytes) (p : Ptid)
    → IsInt32 p.pid
    → Fine (elim r [ none ↦ decode_pid buf p | some dot ↦ decode_both buf dot p ])
split-Fine none buf p h = decode_pid-Fine buf p h
split-Fine (some dot) buf p h = decode_both-Fine buf dot p h

either-Fine : (b : Bool) (m k : Outcome (Bool × Ptid)) → Fine m → Fine k → Fine (if b then m else k)
either-Fine true m k h h' = h
either-Fine false m k h h' = h'

pub decode-Fine : (buf : Bytes) (p : Ptid) → IsInt32 p.pid → Fine (decode buf p)
unfolding decode
decode-Fine buf p h =
    either-Fine (not (get_or buf 0 0 == b'p')) (decode_tid buf p)
      (elim (strchr buf b'.') [ none ↦ decode_pid buf p | some dot ↦ decode_both buf dot p ])
      (decode_tid-Fine buf p h) (split-Fine (strchr buf b'.') buf p h)
