-- ===== src/VCont.antt =====
-- lib/server/VContActions.cpp and .h: the actions of a vCont packet.
pub mod Choice
use embdebug.Base.{
  ℕ, suc, ◌+◌, Bool, true, false, not, ◌||◌, List, [], ◌∷◌, ◌++◌, Option, none, some, Bytes, codes,
  ◌==◌, if◌then◌else◌, length, drop, get_or, ◌^◌, ◌-◌,
}
use embdebug.Base.Int.{ℤ, pos, negsuc, to_uint32, eq_ℤ}
use embdebug.Base.Outcome.{Outcome, ok, fault, assert, ◌>>=◌, ◌>>◌}
use embdebug.Ptid.{Ptid, ptid_all, decode}
use embdebug.Strings.{split, find}

pub record Action : Type 0 where
  pub text : Bytes
  pub ptid : Ptid

-- An object of the class: whether it is valid, and its actions.
pub record VContActions : Type 0 where
  pub valid : Bool
  pub actions : List Action

abbrev everything : Ptid
everything = record { pid = ptid_all; tid = ptid_all }

-- The body of the loop of `parse`, for one token; `none` makes `parse` return false.
unfoldable pub parse_token : Bytes → Outcome (Option Action)
parse_token tok = elim (find tok b':') [
  | none ↦ ok (some (record { text = tok; ptid = everything }))
  | some at ↦ (do
    (decoded, ptid) ← decode (drop (at + 1) tok) everything
    ok (
        if not decoded
        then none
        else if eq_ℤ ptid.pid (pos 0)
        then none
        else some (record { text = tok; ptid = ptid })))
]

-- The actions stored by the time the loop ends, and whether it ends by itself.
unfoldable pub parse_tokens : List Action → List Bytes → Outcome VContActions
unfolding parse_token
parse_tokens actions [] = ok (record { valid = true; actions = actions })
parse_tokens actions (tok ∷ toks) =
    let more = λ (a : Action). parse_tokens (actions ++ (a ∷ [])) toks in
    do
      r ← parse_token tok
      elim r [ none ↦ ok (record { valid = false; actions = actions }) | some a ↦ more a ]

-- The constructor, on the packet as a C string: six characters are skipped unseen.
unfoldable pub parse : Bytes → Outcome VContActions
unfolding parse_tokens
parse str = parse_tokens [] (split (drop 6 str) (codes ";"))

abbrev pub all_pids : ℕ
all_pids = 2 ^ 32 - 1

unfoldable pub effects_loop : ℕ → List Action → Outcome Bool
effects_loop num [] = ok false
effects_loop num (a ∷ actions) =
    let pid = to_uint32 a.ptid.pid in
    let first = effects_loop pid actions in
    let same = effects_loop num actions in
    do
      assert (not (pid == 0))
      if pid == all_pids
          then ok true
          else if num == 0
          then first
          else if not (pid == num)
          then ok true
          else same

unfoldable pub effects_multiple_cores : VContActions → Outcome Bool
unfolding effects_loop
effects_multiple_cores v = do assert v.valid; effects_loop 0 v.actions

-- The first character of the first action that applies, or NUL.
unfoldable pub core_action_loop : ℕ → List Action → Outcome ℕ
core_action_loop num [] = ok 0
core_action_loop num (a ∷ actions) =
    let pid = to_uint32 a.ptid.pid in
    let more = core_action_loop num actions in
    do
      assert (not (pid == 0))
      if pid == all_pids || pid == num then ok (get_or a.text 0 0) else more

unfoldable pub get_core_action : ℕ → VContActions → Outcome ℕ
unfolding core_action_loop
get_core_action num v = core_action_loop num v.actions
