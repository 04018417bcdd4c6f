-- ===== src/Trace.antt =====
-- lib/server/TraceFlags.cpp: the trace flags and their command-line argument. A `std::map` is the
-- list of its entries in the order of the keys; the static map is the state of each operation.
pub mod Flag
pub mod Dump
pub mod Number
use embdebug.Base.{
  ℕ, zero, suc, ◌+◌, ◌-◌, ◌*◌, ◌/◌, ◌%◌, ◌^◌, Bool, true, false, not, ◌&&◌, ◌||◌, List, [], ◌∷◌,
  ◌++◌, Option, none, some, Bytes, codes, leb, ltb, ◌==◌, if◌then◌else◌, get_or, drop, take,
}
use embdebug.Base.Int.{ℤ, pos, negsuc}
use embdebug.Base.Outcome.{Outcome, ok, fault, exited, ◌>>=◌}
use embdebug.Strings.{find}
use embdebug.SyscallReply.{skip_space}

-- `FlagInfo`; no value is the null pointer.
pub record FlagInfo : Type 0 where
  pub state : Bool
  pub val : Option Bytes
  pub numeric_val : ℤ

abbrev pub Flags : Type 0
Flags = List (Bytes × FlagInfo)

-- Comparison of two strings, byte by byte.
unfoldable pub same : Bytes → Bytes → Bool
same [] [] = true
same (x ∷ xs) (y ∷ ys) = x == y && same xs ys
same _ _ = false

unfoldable pub before : Bytes → Bytes → Bool
before [] [] = false
before [] (y ∷ ys) = true
before (x ∷ xs) [] = false
before (x ∷ xs) (y ∷ ys) = ltb x y || x == y && before xs ys

unfoldable pub lookup : Bytes → Flags → Option FlagInfo
unfolding same
lookup name [] = none
lookup name ((key, info) ∷ flags) = if same name key then some info else lookup name flags

-- Assignment to the entry of a key, which is made if it is not there.
unfoldable pub assign : Bytes → FlagInfo → Flags → Flags
unfolding same before
assign name info [] = (name, info) ∷ []
assign name info ((key, old) ∷ flags) =
    if same name key
    then (key, info) ∷ flags
    else if before name key
    then (name, info) ∷ (key, old) ∷ flags
    else (key, old) ∷ assign name info flags

abbrev reset_flag : ℤ → FlagInfo
reset_flag n = record { state = false; val = none; numeric_val = n }

-- The constructor.
unfoldable pub trace_flags : Flags
unfolding assign
trace_flags =
    let plain = λ (name : Bytes) (flags : Flags). assign name (reset_flag (pos 0)) flags in
    let first =
      plain (codes "vcd") (plain (codes "break") (plain (codes "conn") (plain (codes "rsp") []))) in
    let second =
      plain (codes "dflush")
        (plain (codes "qdisas") (plain (codes "disas") (plain (codes "silent") first))) in
    let third = plain (codes "verbosity") (plain (codes "exec") (plain (codes "mem") second)) in
    assign (codes "ipg") (reset_flag (pos 50)) third

unfoldable pub is_flag : Flags → Bytes → Bool
unfolding lookup
is_flag flags name = elim (lookup name flags) [ none ↦ false | some info ↦ true ]

unfoldable pub is_numeric_flag : Bytes → Bool
unfolding same
is_numeric_flag name = same name (codes "verbosity") || same name (codes "ipg")

-- The value that the leading decimal digits write, none without a digit.
unfoldable pub decimal : Option ℕ → Bytes → Option ℕ
decimal acc [] = acc
decimal acc (c ∷ s) =
    let so_far : ℕ = elim acc [ none ↦ 0 | some n ↦ n ] in
    let rest = decimal (some (so_far * 10 + (c - b'0'))) s in
    if leb b'0' c && leb c b'9' then rest else acc

abbrev int_range : Bool → Option ℕ → Option ℤ
int_range minus none = none
int_range false (some n) = if ltb n (2 ^ 31) then some (pos n) else none
int_range true (some zero) = some (pos 0)
int_range true (some (suc n)) = if ltb n (2 ^ 31) then some (negsuc n) else none

-- `std::stoi`; none is one of its two exceptions.
unfoldable pub stoi : Bytes → Option ℤ
unfolding skip_space decimal
stoi s =
    let text = skip_space s in
    if get_or text 0 0 == b'-'
    then int_range true (decimal none (drop 1 text))
    else int_range false (decimal none (if get_or text 0 0 == b'+' then drop 1 text else text))

-- The conversion in `flag`: `exit` when it fails.
abbrev pub numeric_value : Bytes → Bool → Outcome ℤ
numeric_value val false = ok (pos 0)
numeric_value val true = elim (stoi val) [ none ↦ fault exited | some n ↦ ok n ]

unfoldable pub flag : Flags → Bytes → Bool → Bytes → Bool → Outcome Flags
unfolding is_flag stoi assign
flag flags name state val numeric =
    if is_flag flags name
    then (do
      n ← numeric_value val numeric
      ok (assign name (record { state = state; val = some val; numeric_val = n }) flags))
    else fault exited

unfoldable pub set_flag_state : Flags → Bytes → Bool → Outcome Flags
unfolding lookup assign
set_flag_state flags name state = elim (lookup name flags) [
  | none ↦ fault exited
  | some info ↦
      ok (
        assign name (record { state = state; val = info.val; numeric_val = info.numeric_val })
          flags)
]

unfoldable pub flag_state : Flags → Bytes → Outcome Bool
unfolding lookup
flag_state flags name = elim (lookup name flags) [ none ↦ fault exited | some info ↦ ok info.state ]

unfoldable pub set_flag_val : Flags → Bytes → Bytes → Outcome Flags
unfolding lookup assign
set_flag_val flags name val = elim (lookup name flags) [
  | none ↦ fault exited
  | some info ↦ ok (
      assign name (record { state = info.state; val = some val; numeric_val = info.numeric_val })
        flags)
]

abbrev text_of : Option Bytes → Bytes
text_of none = []
text_of (some val) = val

unfoldable pub flag_val : Flags → Bytes → Outcome Bytes
unfolding lookup
flag_val flags name = elim (lookup name flags) [
  | none ↦ fault exited
  | some info ↦ ok (text_of info.val)
]

unfoldable pub flag_numeric_val : Flags → Bytes → Outcome ℤ
unfolding lookup
flag_numeric_val flags name = elim (lookup name flags) [
  | none ↦ fault exited
  | some info ↦ ok info.numeric_val
]

-- The accessors `traceRsp` to `traceIPG`.
trace_rsp : Flags → Outcome Bool
trace_rsp flags = flag_state flags (codes "rsp")

trace_conn : Flags → Outcome Bool
trace_conn flags = flag_state flags (codes "conn")

trace_break : Flags → Outcome Bool
trace_break flags = flag_state flags (codes "break")

trace_vcd : Flags → Outcome Bool
trace_vcd flags = flag_state flags (codes "vcd")

trace_silent : Flags → Outcome Bool
trace_silent flags = flag_state flags (codes "silent")

trace_disas : Flags → Outcome Bool
trace_disas flags = flag_state flags (codes "disas")

trace_qdisas : Flags → Outcome Bool
trace_qdisas flags = flag_state flags (codes "qdisas")

trace_dflush : Flags → Outcome Bool
trace_dflush flags = flag_state flags (codes "dflush")

trace_mem : Flags → Outcome Bool
trace_mem flags = flag_state flags (codes "mem")

trace_exec : Flags → Outcome Bool
trace_exec flags = flag_state flags (codes "exec")

trace_verbosity : Flags → Outcome ℤ
trace_verbosity flags = flag_numeric_val flags (codes "verbosity")

trace_ipg : Flags → Outcome ℤ
trace_ipg flags = flag_numeric_val flags (codes "ipg")

-- Whether the argument was parsed, and the flags afterwards.
unfoldable pub parse_arg : Flags → Bytes → Outcome (Bool × Flags)
unfolding flag is_numeric_flag
parse_arg flags arg = elim (find arg b'=') [
  | none ↦
      if is_flag flags arg
      then (do after ← flag flags arg true [] false; ok (true, after))
      else ok (false, flags)
  | some idx ↦
      let key = take idx arg in
      let value = drop (idx + 1) arg in
      if is_flag flags key
      then (do after ← flag flags key true value (is_numeric_flag key); ok (true, after))
      else ok (false, flags)
]
