-- ===== src/Trace/Dump.antt =====
-- lib/server/TraceFlags.cpp, `dump`: the flags and their states as a text.
use embdebug.Base.{Bool, [], ◌∷◌, ◌++◌, Option, none, some, Bytes, codes, if◌then◌else◌}
use embdebug.Base.Decimal.{decimal_int}
use embdebug.Base.Int.{ℤ}
use embdebug.Trace.{Flags}

abbrev pub on_off : Bool → Bytes
on_off state = if state then codes "ON" else codes "OFF"

abbrev associated : Option Bytes → ℤ → Bytes
associated none numeric_val = []
associated (some val) numeric_val =
    codes " (associated val = "
    ++ (b'"' ∷ val)
    ++ (b'"' ∷ codes " / ")
    ++ decimal_int numeric_val
    ++ codes ")"

unfoldable pub dump : Flags → Bytes
unfolding decimal_int
dump [] = []
dump ((name, info) ∷ flags) =
    name
    ++ codes ": "
    ++ on_off info.state
    ++ associated info.val info.numeric_val
    ++ (10 ∷ dump flags)
