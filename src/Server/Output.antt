-- ===== src/Server/Output.antt =====
-- lib/server/GdbServer.cpp: the texts that monitor commands are compared with and that they show.
use embdebug.Base.{
  ℕ, ◌+◌, Bool, true, false, ◌&&◌, ◌||◌, List, [], ◌∷◌, ◌++◌, Option, none, some, Bytes, codes, leb,
  ◌==◌, if◌then◌else◌,
}
use embdebug.Server.Scan.{scan_hex, scan_char}

-- `mess`, in the order in which it is sent.
abbrev pub help_lines : List Bytes
help_lines =
    codes "The following generic monitor commands are supported:\n"
    ∷ codes "  help\n"
    ∷ codes "    Produce this message\n"
    ∷ codes "  reset [cold | warm]\n"
    ∷ codes "    Reset the simulator (default warm)\n"
    ∷ codes "  exit\n"
    ∷ codes "    Exit the GDB server\n"
    ∷ codes "  timeout <interval>\n"
    ∷ codes "    Maximum time in seconds taken by continue packet\n"
    ∷ codes "  real-timestamp\n"
    ∷ codes "    Report the wallclock time in the target\n"
    ∷ codes "  timestamp\n"
    ∷ codes "    Report the current execution time in the target\n"
    ∷ codes "  cyclecount\n"
    ∷ codes "    Report cycles executed since last report and since reset\n"
    ∷ codes "  instrcount\n"
    ∷ codes "    Report instructions executed since last report and since reset\n"
    ∷ codes "  set debug <flag> [on|off|0|1] [<value>]\n"
    ∷ codes "    Set debug flag in target and optional associated value\n"
    ∷ codes "  show debug [<flag>]\n"
    ∷ codes "    Show debug for one flag or all flags in target\n"
    ∷ codes "  echo <message>\n"
    ∷ codes "    Echo <message> on stdout of the gdbserver\n"
    ∷ []

abbrev pub target_help : Bytes
target_help = codes "The following target specific monitor commands are supported:\n"

abbrev pub no_target_help : Bytes
no_target_help = codes "There are no target specific monitor commands\n"

-- The lines that `getline` takes from a text, each with a newline behind it; `line` is what the
-- current one has so far.
unfoldable pub lines_from : Bytes → Bytes → List Bytes
lines_from [] [] = []
lines_from (c ∷ line) [] = ((c ∷ line) ++ (10 ∷ [])) ∷ []
lines_from line (c ∷ text) =
    let here = lines_from [] text in
    let longer = lines_from (line ++ (c ∷ [])) text in
    if c == 10 then (line ++ (10 ∷ [])) ∷ here else longer

-- `sscanf` with a word, white space and a number in hex.
unfoldable pub scan_word_chars : Bytes → Bytes → Option Bytes
unfolding scan_char
scan_word_chars [] text = some text
scan_word_chars (c ∷ word) text = elim (scan_char c text) [
  | none ↦ none
  | some rest ↦ scan_word_chars word rest
]

unfoldable pub scan_command : Bytes → Bytes → Option ℕ
unfolding scan_word_chars scan_hex
scan_command word text = elim (scan_word_chars word text) [
  | none ↦ none
  | some rest ↦ elim (scan_hex rest) [ none ↦ none | some (n, behind) ↦ some n ]
]

-- `strcasecmp`, in the C locale.
abbrev pub to_lower : ℕ → ℕ
to_lower c = if leb b'A' c && leb c b'Z' then c + 32 else c

unfoldable pub strcasecmp_eq : Bytes → Bytes → Bool
strcasecmp_eq [] [] = true
strcasecmp_eq (x ∷ xs) (y ∷ ys) = to_lower x == to_lower y && strcasecmp_eq xs ys
strcasecmp_eq _ _ = false

-- The state that a token names.
unfoldable pub flag_word : Bytes → Option Bool
unfolding strcasecmp_eq
flag_word token =
    if strcasecmp_eq token (codes "0")
      || strcasecmp_eq token (codes "off")
      || strcasecmp_eq token (codes "false")
    then some false
    else if strcasecmp_eq token (codes "1")
        || strcasecmp_eq token (codes "on")
        || strcasecmp_eq token (codes "true")
    then some true
    else none
