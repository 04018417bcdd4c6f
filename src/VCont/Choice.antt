-- ===== src/VCont/Choice.antt =====
-- lib/server/VContActions.cpp: what the two loops over the actions give for the actions of a
-- packet that was parsed.
use embdebug.Base.{
  ℕ, ◌+◌, ◌≡◌, refl, Bool, true, false, not, ◌||◌, ◌&&◌, List, [], ◌∷◌, ◌++◌, Option, none, some,
  Bytes, ◌==◌, if◌then◌else◌, drop, get_or, arith, All, All-append, filter, subst, Bool-cases, inl,
  inr, codes,
}
use embdebug.Base.Int.{pos, to_uint32, eq_ℤ, IsInt32, to_uint32-eq-zero}
use embdebug.Base.Outcome.{Outcome, ok, fault, ◌>>=◌}
use embdebug.Ptid.{Ptid, decode}
use embdebug.Ptid.Range.{Fine, decode-Fine}
use embdebug.Strings.{split, find}
use embdebug.VCont.{
  Action, VContActions, everything, parse_token, parse_tokens, parse, all_pids, effects_loop,
  effects_multiple_cores, core_action_loop, get_core_action,
}

-- The process of an action is an `int`, and not `ANY`.
abbrev pub NamesProcess : Action → Type 0
NamesProcess a = IsInt32 a.ptid.pid × (eq_ℤ a.ptid.pid (pos 0) ≡ false)

abbrev Token : Outcome (Option Action) → Type 0
Token (ok (some a)) = NamesProcess a
Token (ok none) = Unit
Token (fault e) = Unit

checked :
    (tok : Bytes) (decoded b : Bool) (ptid : Ptid)
    → IsInt32 ptid.pid
    → eq_ℤ ptid.pid (pos 0) ≡ b
    → Token (
        ok (
          if not decoded
          then none
          else if b
          then none
          else some (record { text = tok; ptid = ptid })))
checked tok false b ptid h e = tt
checked tok true true ptid h e = tt
checked tok true false ptid h e = (h, e)

after_decode :
    (tok : Bytes) (r : Outcome (Bool × Ptid))
    → Fine r
    → Token (do
      (decoded, ptid) ← r
      ok (
          if not decoded
          then none
          else if eq_ℤ ptid.pid (pos 0)
          then none
          else some (record { text = tok; ptid = ptid })))
after_decode tok (ok (decoded, ptid)) h = checked tok decoded (eq_ℤ ptid.pid (pos 0)) ptid h refl
after_decode tok (fault e) h = tt

behind_colon :
    (tok : Bytes) (r : Option ℕ)
    → Token (elim r [
      | none ↦ ok (some (record { text = tok; ptid = everything }))
      | some at ↦ (do
        (decoded, ptid) ← decode (drop (at + 1) tok) everything
        ok (
            if not decoded
            then none
            else if eq_ℤ ptid.pid (pos 0)
            then none
            else some (record { text = tok; ptid = ptid })))
    ])
behind_colon tok none = (omega arith, refl)
behind_colon tok (some at) =
    after_decode tok (decode (drop (at + 1) tok) everything)
      (decode-Fine (drop (at + 1) tok) everything (omega arith))

parse_token-Token : (tok : Bytes) → Token (parse_token tok)
unfolding parse_token
parse_token-Token tok = behind_colon tok (find tok b':')

abbrev Parsed : Outcome VContActions → Type 0
Parsed (ok v) = All NamesProcess v.actions
Parsed (fault e) = Unit

one_more :
    (actions : List Action) (toks : List Bytes) (r : Outcome (Option Action))
    → Token r
    → All NamesProcess actions
    → ((a : Action) → NamesProcess a → Parsed (parse_tokens (actions ++ (a ∷ [])) toks))
    → Parsed (do
      s ← r
      elim s [
        | none ↦ ok (record { valid = false; actions = actions })
        | some a ↦ parse_tokens (actions ++ (a ∷ [])) toks
      ])
one_more actions toks (ok none) h g k = g
one_more actions toks (ok (some a)) h g k = k a h
one_more actions toks (fault e) h g k = tt

parse_tokens-Parsed :
    (actions : List Action) (toks : List Bytes)
    → All NamesProcess actions
    → Parsed (parse_tokens actions toks)
unfolding parse_tokens
parse_tokens-Parsed actions [] h = h
parse_tokens-Parsed actions (tok ∷ toks) h =
    let more = λ (a : Action) (k : NamesProcess a).
      parse_tokens-Parsed (actions ++ (a ∷ [])) toks
        (All-append NamesProcess actions (a ∷ []) h (k, tt)) in
    one_more actions toks (parse_token tok) (parse_token-Token tok) h more

parse-Parsed : (str : Bytes) → Parsed (parse str)
unfolding parse
parse-Parsed str = parse_tokens-Parsed [] (split (drop 6 str) (codes ";")) tt

pub parse-NamesProcess :
    (str : Bytes) (v : VContActions) → parse str ≡ ok v → All NamesProcess v.actions
parse-NamesProcess str v e = let h : Parsed (parse str) = parse-Parsed str in subst Parsed e h

-- The process of an action, as the unsigned number of a core.
abbrev pub core_of : Action → ℕ
core_of a = to_uint32 a.ptid.pid

-- The actions that a core takes part in.
abbrev pub applies : ℕ → Action → Bool
applies num a = core_of a == all_pids || core_of a == num

-- The letter of the first of them.
abbrev pub letter_of : List Action → ℕ
letter_of [] = 0
letter_of (a ∷ actions) = get_or a.text 0 0

core_action :
    (num : ℕ) (actions : List Action)
    → All NamesProcess actions
    → core_action_loop num actions ≡ ok (letter_of (filter (applies num) actions))
unfolding core_action_loop
core_action num [] h = refl
core_action num (a ∷ actions) ((i, n), h) =
    let more = core_action num actions h in
    let e = to_uint32-eq-zero a.ptid.pid i n in
    elim (Bool-cases (applies num a)) [ inl f ↦ rw (e, f) | inr f ↦ rw (e, f, more) ]

-- `getCoreAction`, on an object made from any packet by the constructor: no assertion fails, and
-- the letter is the one of the first action that names all processes or the given core; without
-- such an action it is NUL.
pub get_core_action-first :
    (str : Bytes) (v : VContActions) (num : ℕ)
    → parse str ≡ ok v
    → get_core_action num v ≡ ok (letter_of (filter (applies num) v.actions))
unfolding get_core_action
get_core_action-first str v num e = core_action num v.actions (parse-NamesProcess str v e)

-- All actions name the core `num`, and none names all processes.
abbrev pub only_core : ℕ → List Action → Bool
only_core num [] = true
only_core num (a ∷ actions) =
    not (core_of a == all_pids) && core_of a == num && only_core num actions

abbrev pub one_core : List Action → Bool
one_core [] = true
one_core (a ∷ actions) = only_core (core_of a) (a ∷ actions)

same_core :
    (num : ℕ) (actions : List Action)
    → (num == 0) ≡ false
    → All NamesProcess actions
    → effects_loop num actions ≡ ok (not (only_core num actions))
unfolding effects_loop
same_core num [] z h = refl
same_core num (a ∷ actions) z ((i, n), h) =
    let more = same_core num actions z h in
    let e = to_uint32-eq-zero a.ptid.pid i n in
    elim (Bool-cases (core_of a == all_pids)) [
      | inl f ↦ rw (e, f)
      | inr f ↦ elim (Bool-cases (core_of a == num)) [
        | inl g ↦ rw (e, f, z, g, more)
        | inr g ↦ rw (e, f, z, g)
      ]
    ]

first_core :
    (actions : List Action)
    → All NamesProcess actions
    → effects_loop 0 actions ≡ ok (not (one_core actions))
unfolding effects_loop
first_core [] h = refl
first_core (a ∷ actions) ((i, n), h) =
    let e = to_uint32-eq-zero a.ptid.pid i n in
    let more = same_core (core_of a) actions e h in
    elim (Bool-cases (core_of a == all_pids)) [
      | inl f ↦ rw (e, f)
      | inr f ↦ rw (e, f, more) (ground arith)
    ]

-- `effectsMultipleCores`, on a valid object made from any packet by the constructor: no assertion
-- fails, and the result is false exactly when all actions name one and the same core.
pub effects_multiple_cores-one_core :
    (str : Bytes) (v : VContActions)
    → parse str ≡ ok v
    → v.valid ≡ true
    → effects_multiple_cores v ≡ ok (not (one_core v.actions))
unfolding effects_multiple_cores
effects_multiple_cores-one_core str v e valid =
    let h = first_core v.actions (parse-NamesProcess str v e) in rw (valid, h)
