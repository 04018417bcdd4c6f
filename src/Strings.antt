-- ===== src/Strings.antt =====
-- include/embdebug/ByteView.h, and the two `split` functions of lib/server/Utils.cpp. A view is
-- the list of its characters.
pub mod Split
pub mod Words
use embdebug.Base.{
  ℕ, zero, suc, ◌+◌, ◌-◌, ◌*◌, ◌%◌, ◌^◌, Bool, true, false, not, ◌&&◌, ◌||◌, List, [], ◌∷◌, ◌++◌,
  Option, none, some, Bytes, leb, ltb, ◌==◌, if◌then◌else◌, length, take, drop, eq_bytes,
}

unfoldable pub starts_with : Bytes → Bytes → Bool
starts_with view prefix =
    leb (length prefix) (length view) && eq_bytes (take (length prefix) view) prefix

unfoldable pub first : ℕ → Bytes → Bytes
first offset view = if ltb (length view) offset then view else take offset view

unfoldable pub lstrip : ℕ → Bytes → Bytes
lstrip offset view = if ltb (length view) offset then [] else drop offset view

-- `none` is `n_pos`.
unfoldable pub find : Bytes → ℕ → Option ℕ
find [] c = none
find (x ∷ view) c =
    let rest = find view c in
    if x == c then some 0 else elim rest [ some n ↦ some (suc n) | none ↦ none ]

abbrev within : ℕ → ℕ → ℕ → Bool
within lo hi c = leb lo c && leb c hi

-- The value of a digit; `none` where `fromHex` gives up.
abbrev nibble : ℕ → Option ℕ
nibble c =
    if within b'0' b'9' c
    then some (c - b'0')
    else if within b'a' b'f' c
    then some (10 + (c - b'a'))
    else if within b'A' b'F' c
    then some (10 + (c - b'A'))
    else none

unfoldable pub from_hex_onto : ℕ → Bytes → Option ℕ
from_hex_onto value [] = some value
from_hex_onto value (c ∷ view) = elim (nibble c) [
  | none ↦ none
  | some d ↦ from_hex_onto ((value * 16 % 2 ^ 64 + d) % 2 ^ 64) view
]

unfoldable pub from_hex : Bytes → Option ℕ
from_hex view = from_hex_onto 0 view

-- `split` of a view by a character. Each round takes a character at least.
unfoldable pub split_view_loop : ℕ → Bytes → ℕ → List Bytes
unfolding find first lstrip
split_view_loop zero view delim = []
split_view_loop (suc fuel) [] delim = []
split_view_loop (suc fuel) (c ∷ view) delim =
    let rest = split_view_loop fuel in
    elim (find (c ∷ view) delim) [
      | none ↦ (c ∷ view) ∷ []
      | some offset ↦ first offset (c ∷ view) ∷ rest (lstrip (offset + 1) (c ∷ view)) delim
    ]

unfoldable pub split_view : Bytes → ℕ → List Bytes
unfolding split_view_loop
split_view view delim = split_view_loop (length view) view delim

unfoldable pub is_in : Bytes → ℕ → Bool
is_in [] c = false
is_in (d ∷ delim) c = d == c || is_in delim c

-- From the first character that is no delimiter; up to the first that is one; from there on.
unfoldable pub skip_delims : Bytes → Bytes → Bytes
skip_delims delim [] = []
skip_delims delim (c ∷ s) = let more = skip_delims delim s in if is_in delim c then more else c ∷ s

unfoldable pub token : Bytes → Bytes → Bytes
token delim [] = []
token delim (c ∷ s) = let more = token delim s in if is_in delim c then [] else c ∷ more

unfoldable pub behind_token : Bytes → Bytes → Bytes
behind_token delim [] = []
behind_token delim (c ∷ s) =
    let more = behind_token delim s in if is_in delim c then c ∷ s else more

-- One round, from the first character that is no delimiter; `more` goes on behind the token.
abbrev pub split_from : (Bytes → List Bytes) → Bytes → Bytes → List Bytes
split_from more delim [] = []
split_from more delim (c ∷ s) = token delim (c ∷ s) ∷ more (behind_token delim (c ∷ s))

-- `split` of a string by the characters of another.
unfoldable pub split_loop : ℕ → Bytes → Bytes → List Bytes
unfolding skip_delims token behind_token is_in
split_loop zero delim s = []
split_loop (suc fuel) delim s = split_from (split_loop fuel delim) delim (skip_delims delim s)

unfoldable pub split : Bytes → Bytes → List Bytes
unfolding split_loop
split s delim = split_loop (suc (length s)) delim s
