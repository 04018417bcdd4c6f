-- ===== src/Server/Threads.antt =====
-- lib/server/GdbServer.cpp, `rspWriteNextThreadInfo`: the threads that `qfThreadInfo` and the
-- `qsThreadInfo` behind it report.
pub mod Listing
pub mod Reply
use embdebug.Base.{
  ℕ, zero, suc, ◌+◌, ◌-◌, ◌%◌, ◌^◌, ◌<◌, ◌≤◌, ◌≡◌, refl, sym, ◌∙◌, ap, ap₂, subst, Bool, true,
  false, not, ◌&&◌, List, [], ◌∷◌, ◌++◌, ◌⊎◌, append_assoc, length-append, Option, none, some,
  arith, ltb, lt→ltb, length, get_elem?, drop, if◌then◌else◌, Bool-cases, inl, inr,
}
use embdebug.Base.Outcome.{Outcome, ok, fault, no_fuel, undefined, ◌>>=◌}
use embdebug.Cores.{CoreState, CoreManager, pid2core_num, is_core_live}
use embdebug.Server.Assign.{get_elem-append}
use embdebug.Server.Answers.{IsSized}
use embdebug.Server.Query.{next_thread}

-- The cores from `i` on that are alive; all of them where exits do not kill a core.
abbrev pub alive_from : Bool → ℕ → List CoreState → List ℕ
alive_from kill i [] = []
alive_from kill i (c ∷ cores) =
    let rest = alive_from kill (i + 1) cores in if kill && not c.is_live then rest else i ∷ rest

-- What a call of `next_thread` finds from core `length pre` on, the cores `suf` being left.
abbrev pub Found : Bool → List CoreState → List CoreState → List CoreState → ℕ × ℕ → Type 0
Found kill states pre suf (core_num, next) =
    (pre' : List CoreState) × ((c : CoreState) × ((suf' : List CoreState) × ((states
            ≡ pre' ++ (c ∷ suf'))
          × ((alive_from kill (length pre) suf ≡ core_num ∷ alive_from kill (length pre' + 1) suf')
              × ((core_num ≡ length pre')
                  × ((next ≡ length pre' + 2) × (length suf' < length suf)))))))

abbrev pub Finds : Bool → ℕ → List CoreState → List CoreState → List CoreState → ℕ × ℕ → Type 0
Finds kill n states pre suf r =
    ((alive_from kill (length pre) suf ≡ []) × (r.0 ≡ n)) ⊎ Found kill states pre suf r

abbrev this_one : ℕ → ℕ → Outcome (ℕ × ℕ)
this_one core_num next = ok (core_num, next)

module _ (kill : Bool) (n live : ℕ) (states : List CoreState) where
  abbrev pub manager : CoreManager
  manager = record { num_cores = n; live_cores = live; core_states = states }

  live_at :
      (pre suf : List CoreState) (c : CoreState)
      → states ≡ pre ++ (c ∷ suf)
      → is_core_live (length pre) manager ≡ ok c.is_live
  unfolding is_core_live
  live_at pre suf c h =
      ap (λ o. elim o as (λ o. Outcome Bool) [ none ↦ fault undefined | some c ↦ ok c.is_live ])
        (ap (λ states. get_elem? states (length pre)) h ∙ get_elem-append pre suf c)

  core_of_pid : (i : ℕ) → i + 2 < 2 ^ 32 → pid2core_num (i + 1) ≡ i
  core_of_pid i small = omega arith

  next_of_pid : (i : ℕ) → i + 2 < 2 ^ 32 → (i + 1 + 1) % 2 ^ 32 ≡ i + 2
  next_of_pid i small = omega arith

  this_core :
      (i : ℕ)
      → i + 2 < 2 ^ 32
      → ◌≡◌ {A = Outcome (ℕ × ℕ)} (ok (pid2core_num (i + 1), (i + 1 + 1) % 2 ^ 32)) (ok (i, i + 2))
  this_core i small = ap₂ this_one (core_of_pid i small) (next_of_pid i small)

  step_end :
      (left i : ℕ)
      → i + 2 < 2 ^ 32
      → ltb i n ≡ false
      → next_thread kill manager (suc left) (i + 1) ≡ ok (i, i + 2)
  unfolding next_thread
  step_end left i small h =
      let above : ltb (pid2core_num (i + 1)) n ≡ false =
        ap (λ x. ltb x n) (core_of_pid i small) ∙ h in
      rw above (this_core i small)

  step_all :
      (left i : ℕ)
      → i + 2 < 2 ^ 32
      → kill ≡ false
      → next_thread kill manager (suc left) (i + 1) ≡ ok (i, i + 2)
  unfolding next_thread
  step_all left i small h = elim (Bool-cases (ltb (pid2core_num (i + 1)) n)) [
    | inl k ↦ rw (k, h) (this_core i small)
    | inr k ↦ rw k (this_core i small)
  ]

  step_live :
      (left i : ℕ)
      → i + 2 < 2 ^ 32
      → is_core_live i manager ≡ ok true
      → next_thread kill manager (suc left) (i + 1) ≡ ok (i, i + 2)
  unfolding next_thread
  step_live left i small h =
      let live : is_core_live (pid2core_num (i + 1)) manager ≡ ok true =
        ap (λ x. is_core_live x manager) (core_of_pid i small) ∙ h in
      elim (Bool-cases (ltb (pid2core_num (i + 1)) n && kill)) [
        | inl k ↦ rw (k, live) (this_core i small)
        | inr k ↦ rw k (this_core i small)
      ]

  step_dead :
      (left i : ℕ)
      → i + 2 < 2 ^ 32
      → ltb i n ≡ true
      → kill ≡ true
      → is_core_live i manager ≡ ok false
      → next_thread kill manager (suc left) (i + 1) ≡ next_thread kill manager left (i + 2)
  unfolding next_thread
  step_dead left i small below on h =
      let within : (ltb (pid2core_num (i + 1)) n && kill) ≡ true =
        ap₂ (λ x y. ltb x n && y) (core_of_pid i small) on ∙ ap (λ b. b && true) below in
      let dead : is_core_live (pid2core_num (i + 1)) manager ≡ ok false =
        ap (λ x. is_core_live x manager) (core_of_pid i small) ∙ h in
      rw (within, dead) (ap (next_thread kill manager left) (next_of_pid i small))

  alive_here :
      (i : ℕ) (c : CoreState) (suf : List CoreState)
      → (kill && not c.is_live) ≡ false
      → alive_from kill i (c ∷ suf) ≡ i ∷ alive_from kill (i + 1) suf
  alive_here i c suf h = rw h refl

  shown_here :
      (pre suf : List CoreState) (c : CoreState)
      → states ≡ pre ++ (c ∷ suf)
      → (kill && not c.is_live) ≡ false
      → Found kill states pre (c ∷ suf) (length pre, length pre + 2)
  shown_here pre suf c h shown =
      (pre, (c, (suf, (h, (alive_here (length pre) c suf shown, (refl, (refl, omega arith)))))))

  pass_dead :
      (pre suf : List CoreState) (c : CoreState) (r : ℕ × ℕ)
      → alive_from kill (length pre) (c ∷ suf) ≡ alive_from kill (length (pre ++ (c ∷ []))) suf
      → Finds kill n states (pre ++ (c ∷ [])) suf r
      → Finds kill n states pre (c ∷ suf) r
  pass_dead pre suf c r skipped (inl (nobody, at)) = inl (skipped ∙ nobody, at)
  pass_dead pre suf c r skipped
        (inr (pre', (d, (suf', (split, (alive, (core, (next, shorter)))))))) =
      inr (pre', (d, (suf', (split, (skipped ∙ alive, (core, (next, omega (arith, shorter))))))))

  pub next_thread_lem :
      (left : ℕ) (pre suf : List CoreState)
      → states ≡ pre ++ suf
      → length pre + length suf ≡ n
      → n + 2 < 2 ^ 32
      → length suf < left
      → (r : ℕ × ℕ) × ((next_thread kill manager left (length pre + 1) ≡ ok r)
          × Finds kill n states pre suf r)
  next_thread_lem zero pre suf h size small room = absurd (omega arith)
  next_thread_lem (suc left) pre [] h size small room = (
    (length pre, length pre + 2),
    (step_end left (length pre) (omega arith) (ground arith), inl (refl, omega arith)),
  )
  next_thread_lem (suc left) pre (c ∷ suf) h size small room =
      let i = length pre in
      elim (Bool-cases kill) [
        | inr off ↦ (
          (i, i + 2),
          (
            step_all left i (omega arith) off,
            inr (shown_here pre suf c h (ap (λ b. b && not c.is_live) off)),
          ),
        )
        | inl on ↦ elim (Bool-cases c.is_live) [
          | inl up ↦ (
            (i, i + 2),
            (
              step_live left i (omega arith) (live_at pre suf c h ∙ ap ok up),
              inr (shown_here pre suf c h (ap₂ (λ a b. a && not b) on up)),
            ),
          )
          | inr down ↦
              let one : length (pre ++ (c ∷ [])) ≡ i + 1 = length-append pre (c ∷ []) in
              let skipped : alive_from kill i (c ∷ suf) ≡ alive_from kill (i + 1) suf =
                ap (λ b. if b then alive_from kill (i + 1) suf else i ∷ alive_from kill (i + 1) suf)
                  (ap₂ (λ a b. a && not b) on down) in
              let step =
                step_dead left i (omega arith) (lt→ltb i n (omega arith)) on
                  (live_at pre suf c h ∙ ap ok down) in
              let more : states ≡ (pre ++ (c ∷ [])) ++ suf = h ∙ simp append_assoc in
              let (r, (found, finds)) =
                next_thread_lem left (pre ++ (c ∷ [])) suf more (omega (arith, one, size)) small
                  (omega arith) in
              let same : i + 2 ≡ length (pre ++ (c ∷ [])) + 1 = omega (arith, one) in
              (
                r,
                (
                  step ∙ ap (next_thread kill manager left) same ∙ found,
                  pass_dead pre suf c r (skipped ∙ ap (λ i. alive_from kill i suf) (sym one)) finds,
                ),
              )
        ]
      ]
