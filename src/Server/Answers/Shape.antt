-- ===== src/Server/Answers/Shape.antt =====
-- lib/server/GdbServer.h and .cpp, class `CoreManager`: the operations keep an element for each
-- core.
use embdebug.Base.{
  ℕ, ◌≡◌, refl, ◌∙◌, ap, List, [], ◌∷◌, Option, set, none, some, ltb, if◌then◌else◌, length,
  get_elem?, length-replicate, length-set, Bool-cases, inl, inr, suc, ◌&&◌,
}
use embdebug.Base.Outcome.{Outcome, ok, fault}
use embdebug.Cores.{
  CoreState, CoreManager, kill_core, update, update_core, set_stop_reason, kill_core_num,
  fresh_core, is_running, has_unreported_stop,
}
use embdebug.Cores
use embdebug.Server.Answers.{IsSized}
use embdebug.Server.Run.{store_results}
use embdebug.Target.Enums.{ResumeRes}

length_changed :
    (n : ℕ) (f : CoreState → CoreState) (states : List CoreState) (found : Option CoreState)
    → length (elim found as (λ o. List CoreState) [ none ↦ states | some c ↦ set states n (f c) ])
      ≡ length states
length_changed n f states none = refl
length_changed n f states (some c) = length-set states n (f c)

length-update :
    (n : ℕ) (f : CoreState → CoreState) (states : List CoreState)
    → length (update n f states) ≡ length states
unfolding update
length-update n f states = length_changed n f states (get_elem? states n)

pub update_core-IsSized :
    (n : ℕ) (f : CoreState → CoreState) (m : CoreManager) → IsSized m → IsSized (update_core n f m)
unfolding update_core
update_core-IsSized n f m h = length-update n f m.core_states ∙ h

pub update_core-num_cores :
    (n : ℕ) (f : CoreState → CoreState) (m : CoreManager)
    → (update_core n f m).num_cores ≡ m.num_cores
unfolding update_core
update_core-num_cores n f m = refl

pub kill_core_num-num_cores :
    (n : ℕ) (m : CoreManager) → (kill_core_num n m).1.num_cores ≡ m.num_cores
unfolding kill_core_num
kill_core_num-num_cores n m = elim (Bool-cases (ltb n m.num_cores)) [ inl e ↦ rw e | inr e ↦ rw e ]

pub kill_core_num-IsSized : (n : ℕ) (m : CoreManager) → IsSized m → IsSized (kill_core_num n m).1
unfolding kill_core_num
kill_core_num-IsSized n m h = elim (Bool-cases (ltb n m.num_cores)) [
  | inl e ↦ rw e (length-update n kill_core m.core_states ∙ h)
  | inr e ↦ rw e h
]

pub reset_IsSized : (m : CoreManager) → IsSized (Cores.reset m)
unfolding Cores.reset
reset_IsSized m = length-replicate m.num_cores fresh_core

pub reset-num_cores : (m : CoreManager) → (Cores.reset m).num_cores ≡ m.num_cores
unfolding Cores.reset
reset-num_cores m = refl

-- The results of `wait` change no number of cores.
abbrev pub KeepsLength : ℕ → Outcome (List CoreState) → Type 0
KeepsLength n (ok states) = length states ≡ n
KeepsLength n (fault x) = Unit

KeepsLength-cons :
    (n : ℕ) (c : CoreState) (o : Outcome (List CoreState))
    → KeepsLength n o
    → KeepsLength
        (suc n)
        (elim o as (λ o. Outcome (List CoreState)) [ ok rest ↦ ok (c ∷ rest) | fault x ↦ fault x ])
KeepsLength-cons n c (ok rest) h = ap suc h
KeepsLength-cons n c (fault x) h = tt

pub store_results-KeepsLength :
    (states : List CoreState) (results : List ResumeRes)
    → KeepsLength (length states) (store_results states results)
unfolding store_results
store_results-KeepsLength [] results = refl
store_results-KeepsLength (c ∷ states) [] = tt
store_results-KeepsLength (c ∷ states) (res ∷ results) =
    elim (Bool-cases (is_running c && has_unreported_stop c)) [
      | inl e ↦ rw e tt
      | inr e ↦ rw e (
          KeepsLength-cons (length states) (if is_running c then set_stop_reason res c else c)
            (store_results states results) (store_results-KeepsLength states results))
    ]
