-- ===== src/Server/Assign.antt =====
-- lib/server/GdbServer.cpp, `rspVCont`: what each core is told to do, on the list of the cores.
pub mod Vcont
use embdebug.Base.{
  Bool, true, false, Bool-cases, inl, inr, not, if◌then◌else◌, ap₂, codes, ℕ, zero, suc, ◌+◌, ◌<◌,
  ◌≤◌, ◌≡◌, refl, sym, ◌∙◌, ap, subst, Bool, true, false, not, List, [], ◌∷◌, ◌++◌, map,
  append_assoc, append-nil, Option, none, some, Bytes, arith, ==_refl, ◌==◌, ltb, lt→ltb, length,
  length-append, get_elem?, set, if◌then◌else◌,
}
use embdebug.Base.Outcome.{Outcome, ok, fault, undefined}
use embdebug.Cores.{
  CoreState, CoreManager, set_resume_type, core_num2pid, core_at, update, update_core,
}
use embdebug.Server.Answers.{IsSized}
use embdebug.Server.Resume.{
  core_actions, assign_core, run_actions, rsp_vcont, action_type, live_type,
}
use embdebug.Server.Run.{do_core_actions}
use embdebug.Server.Scan.{c_string}
use embdebug.Server.State.{
  Env, Server, Act, and_then, put, ◌>>=◌, ◌>>◌, get, lift, ret, modify, on_target,
}
use embdebug.Target.Enums.{ResumeType}
use embdebug.VCont.{VContActions, get_core_action}
use embdebug.VCont

pub get_elem-append :
    (pre suf : List CoreState) (c : CoreState) → get_elem? (pre ++ (c ∷ suf)) (length pre) ≡ some c
get_elem-append [] suf c = refl
get_elem-append (x ∷ pre) suf c = get_elem-append pre suf c

set-append :
    (pre suf : List CoreState) (c d : CoreState)
    → set (pre ++ (c ∷ suf)) (length pre) d ≡ pre ++ (d ∷ suf)
set-append [] suf c d = refl
set-append (x ∷ pre) suf c d = ap (λ s. x ∷ s) (set-append pre suf c d)

pub update-append :
    (pre suf : List CoreState) (c : CoreState) (f : CoreState → CoreState)
    → update (length pre) f (pre ++ (c ∷ suf)) ≡ pre ++ (f c ∷ suf)
unfolding update
update-append pre suf c f =
    ap
      (λ o. elim o as (λ o. List CoreState) [
        | none ↦ pre ++ (c ∷ suf)
        | some d ↦ set (pre ++ (c ∷ suf)) (length pre) (f d)
      ])
      (get_elem-append pre suf c)
    ∙ set-append pre suf c (f c)

-- A core that is alive does what is asked, a dead one nothing.
abbrev pub told : ResumeType → CoreState → CoreState
told asked c = record c { resume_type = if c.is_live then asked else ResumeType.none }

-- Core `i` and the ones behind it are told what is asked of each.
abbrev pub assigned : (ℕ → ResumeType) → ℕ → List CoreState → List CoreState
assigned asked i [] = []
assigned asked i (c ∷ cores) = told (asked i) c ∷ assigned asked (i + 1) cores

pub live_type-told :
    (asked : ResumeType) (c : CoreState) → live_type c asked ≡ (told asked c).resume_type
live_type-told asked c = elim (Bool-cases c.is_live) [ inl h ↦ rw h refl | inr h ↦ rw h refl ]

pub set_resume_type-told :
    (asked : ResumeType) (c : CoreState) → set_resume_type (live_type c asked) c ≡ told asked c
set_resume_type-told asked c = ap (λ type. set_resume_type type c) (live_type-told asked c)

abbrev pub types_of : List CoreState → List ResumeType
types_of = map (λ c. c.resume_type)

pub assigned_states :
    (asked : ℕ → ResumeType) (pre suf : List CoreState) (now : CoreState)
    → length pre + 1 ≡ length (pre ++ (now ∷ []))
    → (pre ++ (now ∷ [])) ++ assigned asked (length (pre ++ (now ∷ []))) suf
      ≡ pre ++ (now ∷ assigned asked (length pre + 1) suf)
assigned_states asked pre suf now behind =
    ap (λ i. (pre ++ (now ∷ [])) ++ assigned asked i suf) (sym behind) ∙ simp append_assoc

pub assigned_types :
    (asked : ℕ → ResumeType) (pre suf : List CoreState) (types : List ResumeType) (now : CoreState)
    → length pre + 1 ≡ length (pre ++ (now ∷ []))
    → (types ++ (now.resume_type ∷ []))
        ++ types_of (assigned asked (length (pre ++ (now ∷ []))) suf)
      ≡ types ++ (now.resume_type ∷ types_of (assigned asked (length pre + 1) suf))
assigned_types asked pre suf types now behind =
    ap (λ i. (types ++ (now.resume_type ∷ [])) ++ types_of (assigned asked i suf)) (sym behind)
    ∙ simp append_assoc

-- The actions of a packet, for the cores below `n`.
abbrev pub Asks : VContActions → ℕ → (ℕ → ResumeType) → Type 0
Asks actions n asked =
    (i : ℕ)
    → i < n
    → (c : ℕ) × ((get_core_action (core_num2pid i) actions ≡ ok c)
        × (action_type c ≡ some (asked i)))

pub core_at-append :
    (pre suf : List CoreState) (c : CoreState) (n live : ℕ)
    → length pre < n
    → core_at
        (length pre)
        (record { num_cores = n; live_cores = live; core_states = pre ++ (c ∷ suf) })
      ≡ ok c
unfolding core_at
core_at-append pre suf c n live below = rw (lt→ltb (length pre) n below) (
    ap (λ o. elim o as (λ o. Outcome CoreState) [ none ↦ fault undefined | some c ↦ ok c ])
      (get_elem-append pre suf c))

pub length-assigned :
    (asked : ℕ → ResumeType) (i : ℕ) (cores : List CoreState)
    → length (types_of (assigned asked i cores)) ≡ length cores
length-assigned asked i [] = refl
length-assigned asked i (c ∷ cores) = ap suc (length-assigned asked (i + 1) cores)
