-- ===== src/Server/Shown.antt =====
-- lib/server/GdbServer.cpp, `rspShowCommand`: the line that shows a flag.
use embdebug.Base.{
  suc, ◌≤◌, ◌<◌, ◌≡◌, refl, ◌∙◌, ap, Bool, true, false, ◌&&◌, [], ◌∷◌, ◌++◌, Bytes, codes, All,
  All-append, arith, ltb, ◌==◌, if◌then◌else◌, length,
}
use embdebug.Hex.Text.{hex_text}
use embdebug.Packet.{limit}
use embdebug.Packet.Rcmd.{AllAscii, create_rcmd_str-hex_text}
use embdebug.Server.Scan.{c_string}
use embdebug.Server.Settings.{flag_text, put_output}
use embdebug.Server.State.{Env, ◌>>=◌, lift, Server, ◌>>◌, put}
use embdebug.Strings.Words.{IsWord}

-- Characters that a C string can hold, of seven bits.
abbrev pub IsPlain : Bytes → Type 0
IsPlain = All (λ c. (0 < c) × (c < 128))

-- What a client is to be shown: `<name>: ON (associated val = "<val>")` or with `OFF`, and a
-- newline.
abbrev pub shown : Bytes → Bool → Bytes → Bytes
shown name on val =
    name
    ++ (codes ": "
        ++ ((if on then codes "ON" else codes "OFF")
            ++ ((codes " (associated val = " ++ ((b'"' ∷ val) ++ (b'"' ∷ codes ")")))
                ++ (10 ∷ []))))

flag_text-shown :
    (name : Bytes) (on : Bool) (val : Bytes)
    → IsWord (codes " ") val
    → flag_text name on val ≡ shown name on val
unfolding flag_text
flag_text-shown name on [] h = elim h [ ]
flag_text-shown name on (c ∷ val) h =
    let some_left : (suc (length val) == 0) ≡ false = ground arith in rw some_left refl

c_string-plain : (s : Bytes) → IsPlain s → c_string s ≡ s
unfolding c_string
c_string-plain [] h = refl
c_string-plain (c ∷ s) h =
    let e : (c == 0) ≡ false = ground (arith, h.0.0) in rw (e, c_string-plain s h.1) refl

IsPlain-AllAscii : (s : Bytes) → IsPlain s → AllAscii s
IsPlain-AllAscii [] h = tt
IsPlain-AllAscii (c ∷ s) h = (h.0.1, IsPlain-AllAscii s h.1)

-- A text whose characters are tested one by one.
abbrev all_plain : Bytes → Bool
all_plain [] = true
all_plain (c ∷ s) = (ltb 0 c && ltb c 128) && all_plain s

all_plain-IsPlain : (s : Bytes) → all_plain s ≡ true → IsPlain s
all_plain-IsPlain [] h = tt
all_plain-IsPlain (c ∷ s) h = ((ground arith, ground arith), all_plain-IsPlain s (ground arith))

shown-IsPlain :
    (name : Bytes) (on : Bool) (val : Bytes)
    → IsPlain name
    → IsPlain val
    → IsPlain (shown name on val)
shown-IsPlain name on val a b =
    let closed : IsPlain ((val ++ (b'"' ∷ codes ")")) ++ (10 ∷ [])) =
      All-append _ (val ++ (b'"' ∷ codes ")")) (10 ∷ [])
        (All-append _ val (b'"' ∷ codes ")") b (all_plain-IsPlain (b'"' ∷ codes ")") refl))
        (all_plain-IsPlain (10 ∷ []) refl) in
    let opened : IsPlain (codes " (associated val = " ++ (b'"' ∷ [])) =
      all_plain-IsPlain (codes " (associated val = " ++ (b'"' ∷ [])) refl in
    let word : IsPlain (if on then codes "ON" else codes "OFF") = word_plain on in
    All-append _ name _ a (
      All-append _ (codes ": ") _ (all_plain-IsPlain (codes ": ") refl) (
        All-append _ (if on then codes "ON" else codes "OFF") _ word
          (All-append _ (codes " (associated val = " ++ (b'"' ∷ [])) _ opened closed)))
  where
    word_plain : (on : Bool) → IsPlain (if on then codes "ON" else codes "OFF")
    word_plain true = all_plain-IsPlain (codes "ON") refl
    word_plain false = all_plain-IsPlain (codes "OFF") refl

module _ {e : Env} where
  pub put_output-shown :
      (s : Server e) (name val : Bytes) (on : Bool)
      → IsWord (codes " ") val
      → IsPlain name
      → IsPlain val
      → 2 ≤ e.size
      → length (shown name on val) < limit e.size
      → put_output (c_string (flag_text name on val)) s
        ≡ (put (b'O' ∷ hex_text (shown name on val)) >> put (codes "OK")) s
  unfolding put_output ◌>>=◌ lift
  put_output-shown s name val on word a b some_room fits =
      let plain = shown-IsPlain name on val a b in
      let text : c_string (flag_text name on val) ≡ shown name on val =
        ap c_string (flag_text-shown name on val word) ∙ c_string-plain (shown name on val) plain in
      let packet =
        create_rcmd_str-hex_text e.size (shown name on val)
          (IsPlain-AllAscii (shown name on val) plain) some_room fits in
      rw (text, packet) refl
