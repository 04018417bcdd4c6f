-- ===== src/Ptid.antt =====
-- lib/server/Ptid.cpp and Ptid.h: process and thread identifiers. An `int` is an integer; the
-- warnings on stderr are left out. A C string is the list of its characters in front of the NUL.
pub mod Codec
pub mod Crystal
pub mod Range
use embdebug.Base.{
  ℕ, zero, suc, ◌+◌, ◌-◌, Bool, true, false, not, ◌&&◌, ◌||◌, List, [], ◌∷◌, ◌++◌, Option, none,
  some, Bytes, ltb, ◌==◌, if◌then◌else◌, length, get_or, take, drop, codes,
}
use embdebug.Base.Decimal.{decimal_int}
use embdebug.Base.Int.{ℤ, pos, negsuc, eq_ℤ, is_positive, to_int32}
use embdebug.Base.Outcome.{Outcome, ok, fault, ◌>>=◌}
use embdebug.Hex.{is_hex_str, hex2val, val2hex}

-- `PTID_INV`, `PTID_ALL` and `PTID_ANY`.
abbrev pub ptid_inv : ℤ
ptid_inv = negsuc 1

abbrev pub ptid_all : ℤ
ptid_all = negsuc 0

abbrev pub ptid_any : ℤ
ptid_any = pos 0

pub record Ptid : Type 0 where
  pub pid : ℤ
  pub tid : ℤ

abbrev is_known : ℤ → Bool
is_known i = is_positive i || eq_ℤ i ptid_any || eq_ℤ i ptid_all || eq_ℤ i ptid_inv

unfoldable pub validate : Ptid → Bool
validate p = if not (is_known p.pid) then false else if not (is_known p.tid) then false else true

-- One of the two `switch` statements of `crystalize`.
abbrev crystal_field : ℤ → ℤ → Option ℤ
crystal_field i default =
    if eq_ℤ i ptid_inv || eq_ℤ i ptid_all
    then none
    else some (if eq_ℤ i ptid_any then default else i)

-- The identifier afterwards, and whether it is now specific.
abbrev settle : Ptid → Option ℤ → Option ℤ → Bool × Ptid
settle p (some pid) (some tid) = (true, record { pid = pid; tid = tid })
settle p _ _ = (false, p)

unfoldable pub crystalize : ℤ → ℤ → Ptid → Bool × Ptid
unfolding validate
crystalize default_pid default_tid p =
    if not (validate p)
    then (false, p)
    else settle p (crystal_field p.pid default_pid) (crystal_field p.tid default_tid)

unfoldable pub decode_field : Bytes → ℕ → Outcome ℤ
decode_field buf len =
    if len == 1 && get_or buf 0 0 == b'0'
    then ok ptid_any
    else if len == 2 && get_or buf 0 0 == b'-' && get_or buf 1 0 == b'1'
    then ok ptid_all
    else if is_hex_str buf len
    then (do v ← hex2val buf len; ok (to_int32 v))
    else ok ptid_inv

-- `strchr(buf, c)`: the offset of the first such character.
unfoldable pub strchr : Bytes → ℕ → Option ℕ
strchr [] c = none
strchr (x ∷ s) c =
    let rest = strchr s c in
    if x == c then some 0 else elim rest [ some n ↦ some (suc n) | none ↦ none ]

-- What stands behind the three formats: the invalid combinations, and the assignment.
abbrev accept : Ptid → ℤ → ℤ → Bool × Ptid
accept p pid tid =
    if eq_ℤ pid ptid_all && (eq_ℤ tid ptid_all || eq_ℤ tid ptid_any)
    then (false, p)
    else (true, record { pid = pid; tid = tid })

-- `<tid>`, `p<pid>` and `p<pid>.<tid>`.
unfoldable pub decode_tid : Bytes → Ptid → Outcome (Bool × Ptid)
decode_tid buf p = do
  tid ← decode_field buf (length buf)
  ok (if eq_ℤ tid ptid_inv then (false, p) else accept p p.pid tid)

unfoldable pub decode_pid : Bytes → Ptid → Outcome (Bool × Ptid)
decode_pid buf p = do
  pid ← decode_field (drop 1 buf) (length (drop 1 buf))
  ok (if eq_ℤ pid ptid_inv then (false, p) else accept p pid ptid_all)

unfoldable pub decode_both : Bytes → ℕ → Ptid → Outcome (Bool × Ptid)
decode_both buf dot p = do
  pid ← decode_field (drop 1 buf) (dot - 1)
  tid ← decode_field (drop (dot + 1) buf) (length (drop (dot + 1) buf))
  ok (if eq_ℤ pid ptid_inv || eq_ℤ tid ptid_inv then (false, p) else accept p pid tid)

unfoldable pub decode : Bytes → Ptid → Outcome (Bool × Ptid)
unfolding decode_field decode_tid decode_pid decode_both strchr
decode buf p =
    if not (get_or buf 0 0 == b'p')
    then decode_tid buf p
    else elim (strchr buf b'.') [ none ↦ decode_pid buf p | some dot ↦ decode_both buf dot p ]

-- The characters written; none means failure.
unfoldable pub encode_field : ℤ → Outcome Bytes
encode_field (negsuc zero) = ok (codes "-1")
encode_field (negsuc (suc n)) = ok []
encode_field (pos zero) = ok (codes "0")
encode_field (pos (suc n)) = val2hex (suc n)

encode_tid : Bytes → ℤ → Outcome (Bool × Bytes)
unfolding encode_field
encode_tid front i = do
  tid ← encode_field i
  ok (not (length tid == 0), front ++ (codes "." ++ tid))

-- The characters written, and whether the encoding succeeded.
unfoldable pub encode : Ptid → Outcome (Bool × Bytes)
unfolding encode_field encode_tid
encode p = do
  pid ← encode_field p.pid
  if length pid == 0 then ok (false, codes "p") else encode_tid (codes "p" ++ pid) p.tid

-- The output operator.
abbrev pub print_ptid : Ptid → Bytes
print_ptid p = codes "{" ++ (decimal_int p.pid ++ (codes "," ++ (decimal_int p.tid ++ codes "}")))
