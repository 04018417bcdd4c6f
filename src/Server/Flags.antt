-- ===== src/Server/Flags.antt =====
-- lib/server/GdbServer.cpp, `rspSetCommand` and `rspShowCommand`: a flag that is set and shown.
use embdebug.Base.{
  ◌≤◌, ◌<◌, ◌≡◌, refl, ◌∙◌, ap, Bool, true, false, [], ◌∷◌, ◌++◌, Option, none, some, Bytes, codes,
  length,
}
use embdebug.Base.Outcome.{Outcome, ok, fault, exited, Returns}
use embdebug.Hex.Text.{hex_text}
use embdebug.Packet.{limit}
use embdebug.Server.Output.{flag_word}
use embdebug.Server.Scan.{c_string}
use embdebug.Server.Settings.{
  assign_flag, flag_text, state_word, set_debug, set_tokens, rsp_set_command, show_flag,
  show_tokens, rsp_show_command, put_output,
}
use embdebug.Server.Shown.{IsPlain, shown, put_output-shown}
use embdebug.Server.State.{put_lem, Env, Server, ◌>>=◌, ◌>>◌, ret, lift, get, modify, put}
use embdebug.Strings.Words.{IsWord, words_text, split-words_text}
use embdebug.Trace.{Flags, FlagInfo, is_flag, is_numeric_flag, flag, flag_state, flag_val, lookup}
use embdebug.Trace.Flag.{IsSetTo, flag-IsSetTo}

-- What the monitor commands say.
abbrev pub set_text : Bytes → Bytes → Bytes → Bytes
set_text name word val = words_text 32 (codes "debug") (name ∷ word ∷ val ∷ [])

abbrev pub show_text : Bytes → Bytes
show_text name = words_text 32 (codes "debug") (name ∷ [])

known_of_state :
    (flags : Flags) (name : Bytes) (on : Bool)
    → flag_state flags name ≡ ok on
    → is_flag flags name ≡ true
unfolding flag_state is_flag
known_of_state flags name on h = by_entry (lookup name flags) h
  where
    by_entry :
        (r : Option FlagInfo)
        → (elim r as (λ r. Outcome Bool) [ none ↦ fault exited | some info ↦ ok info.state ])
          ≡ ok on
        → (elim r as (λ r. Bool) [ none ↦ false | some info ↦ true ]) ≡ true
    by_entry none h = cc
    by_entry (some info) h = refl

-- A flag that can be assigned, with the flags afterwards.
assigned :
    (flags : Flags) (name val : Bytes) (on : Bool)
    → is_flag flags name ≡ true
    → is_numeric_flag name ≡ false
    → (after : Flags) × (assign_flag flags name on (some val) ≡ ok after)
      × IsSetTo flags name on val after
unfolding assign_flag
assigned flags name val on known plain =
    by_result (flag flags name on val false) (flag-IsSetTo flags name on val known)
      (ap (flag flags name on val) plain)
  where
    by_result :
        (r : Outcome Flags)
        → Returns r (IsSetTo flags name on val)
        → flag flags name on val (is_numeric_flag name) ≡ r
        → (after : Flags) × (flag flags name on val (is_numeric_flag name) ≡ ok after)
          × IsSetTo flags name on val after
    by_result (ok after) h e = (after, e, h)
    by_result (fault x) h e = elim h [ ]

module _ {e : Env} where
  set_debug_lem :
      (s : Server e) (name word val : Bytes) (on : Bool) (after : Flags)
      → is_flag s.flags name ≡ true
      → flag_word word ≡ some on
      → assign_flag s.flags name on (some val) ≡ ok after
      → set_debug name (some word) (some val) s ≡ put (codes "OK") (record s { flags = after })
  unfolding set_debug state_word ◌>>=◌ ◌>>◌ get ret lift modify
  set_debug_lem s name word val on after known reads done = rw (known, reads, done) refl

  set_command_lem :
      (s : Server e) (name word val : Bytes)
      → IsWord (codes " ") name
      → IsWord (codes " ") word
      → IsWord (codes " ") val
      → rsp_set_command (set_text name word val) s ≡ set_debug name (some word) (some val) s
  unfolding rsp_set_command set_tokens
  set_command_lem s name word val a b c =
      ap (λ tokens. set_tokens (set_text name word val) tokens s)
        (split-words_text (codes " ") (codes "debug") 32 (name ∷ word ∷ val ∷ []) refl
          (refl, (refl, (refl, (refl, (refl, tt))))) (a, (b, (c, tt))))

  show_command_lem :
      (s : Server e) (name val : Bytes) (on : Bool)
      → IsWord (codes " ") name
      → flag_state s.flags name ≡ ok on
      → flag_val s.flags name ≡ ok val
      → rsp_show_command (show_text name) s ≡ put_output (c_string (flag_text name on val)) s
  unfolding rsp_show_command show_tokens show_flag ◌>>=◌ get lift
  show_command_lem s name val on a state value =
      ap (λ tokens. show_tokens (show_text name) tokens s)
        (split-words_text (codes " ") (codes "debug") 32 (name ∷ []) refl
          (refl, (refl, (refl, (refl, (refl, tt))))) (a, tt))
      ∙ rw (known_of_state s.flags name on state, state, value) refl

  -- The name, the word and the value are not empty and free of spaces, the name is that of a known
  -- flag that is not numeric, the word stands for a state, and the answer can be put. Then
  -- `rspSetCommand` of `debug <name> <word> <value>` puts `OK`, gives the flag that state and that
  -- value, and leaves the other flags. If the characters of the name and of the value have seven
  -- bits and are no NUL, and the line `<name>: ON (associated val = "<value>")`, or with `OFF`, is
  -- not truncated in a buffer of at least two characters, then `rspShowCommand` of `debug <name>`
  -- puts the hex text of that line with its newline behind an `O`, and then `OK`.
  pub rsp_show_command-rsp_set_command :
      (s : Server e) (name word val : Bytes) (on : Bool) (x : Option (Unit {0})) (link : e.R)
      → IsWord (codes " ") name
      → IsWord (codes " ") word
      → IsWord (codes " ") val
      → is_flag s.flags name ≡ true
      → is_numeric_flag name ≡ false
      → flag_word word ≡ some on
      → e.rsp.put_pkt (codes "OK") s.link ≡ ok (x, link)
      → IsPlain name
      → IsPlain val
      → 2 ≤ e.size
      → length (shown name on val) < limit e.size
      → (t : Server e) × (rsp_set_command (set_text name word val) s ≡ ok (tt, t))
        × (t.replies ≡ s.replies ++ (codes "OK" ∷ []))
        × IsSetTo s.flags name on val t.flags
        × (rsp_show_command (show_text name) t
            ≡ (put (b'O' ∷ hex_text (shown name on val)) >> put (codes "OK")) t)
  rsp_show_command-rsp_set_command s name word val on x link a b c known plain reads sent p q
        some_room fits =
      let (after, done, set) = assigned s.flags name val on known plain in
      let s₁ = record s { flags = after } in
      let t = record s₁ { link = link; replies = s.replies ++ (codes "OK" ∷ []) } in
      (
        t,
        set_command_lem s name word val a b c
            ∙ set_debug_lem s name word val on after known reads done
            ∙ put_lem s₁ (codes "OK") x link sent,
        refl,
        set,
        show_command_lem t name val on a set.0 set.1.0
            ∙ put_output-shown t name val on c p q some_room fits,
      )
