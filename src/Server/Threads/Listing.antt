-- ===== src/Server/Threads/Listing.antt =====
-- lib/server/GdbServer.cpp, `rspQuery`: the replies to `qfThreadInfo` and the `qsThreadInfo` behind
-- it.
use embdebug.Base.{
  ℕ, zero, suc, ◌+◌, ◌^◌, ◌<◌, ◌≤◌, ◌≡◌, refl, sym, ◌∙◌, ap, ap₂, subst, List, [], ◌∷◌, ◌++◌,
  append_assoc, length-append, Option, Bytes, codes, arith, lt→ltb, length, inl, inr,
}
use embdebug.Base.Outcome.{Outcome, ok}
use embdebug.Cores.{CoreState}
use embdebug.Server.Answers.{IsSized}
use embdebug.Server.Query.{next_thread, rsp_write_next_thread_info}
use embdebug.Server.State.{Env, Server, Act, and_then, ◌>>=◌, ◌>>◌, ret, put, put_lem}
use embdebug.Server.Threads.{alive_from, next_thread_lem}
use embdebug.Server.Threads.Reply.{
  thread_text, thread_texts, more_threads, all_threads, first_lem, next_lem, no_core, a_core,
  put_thread,
}

-- The connection takes these packets, one behind the other.
abbrev pub Sends : (e : Env) → List Bytes → e.R → e.R → Type 0
Sends e [] r r' = r ≡ r'
Sends e (p ∷ ps) r r' =
    (x : Option (Unit {0})) × (r₁ : e.R) × (e.rsp.put_pkt p r ≡ ok (x, r₁)) × Sends e ps r₁ r'

module _ {e : Env} where
  -- What has been put, with the connection afterwards; the target and the cores are as before.
  abbrev pub Told : Server e → List Bytes → e.R → Outcome (Unit {0} × Server e) → Type 0
  Told s replies link o =
      (t : Server e) × (o ≡ ok (tt, t))
      × (t.replies ≡ s.replies ++ replies)
      × (t.link ≡ link)
      × (t.target ≡ s.target)
      × (t.cores ≡ s.cores)

  last_request-Told :
      (command : Act e (Unit {0})) (s : Server e) (cores : List ℕ) (link : e.R) (r : ℕ × ℕ)
      → cores ≡ []
      → rsp_write_next_thread_info s ≡ put (codes "l") (record s { next_process = r.1 })
      → Sends e (thread_texts cores) s.link link
      → Told s
          (thread_texts cores)
          link
          ((rsp_write_next_thread_info >> more_threads command (length cores)) s)
  unfolding ◌>>◌ ◌>>=◌ ret
  last_request-Told command s [] link r nobody done (x, link₁, taken, same) = (
    record s { next_process = r.1; link = link₁; replies = s.replies ++ (codes "l" ∷ []) },
    ap (and_then (λ a. ret tt))
        (done ∙ put_lem (record s { next_process = r.1 }) (codes "l") x link₁ taken),
    refl,
    same,
    refl,
    refl,
  )
  last_request-Told command s (c ∷ cores) link r nobody done sends = cc

  next_request-Told :
      (command : Act e (Unit {0})) (s : Server e) (c : ℕ) (cores : List ℕ) (link : e.R) (r : ℕ × ℕ)
      → rsp_write_next_thread_info s ≡ put (thread_text c) (record s { next_process = r.1 })
      → Sends e (thread_texts (c ∷ cores)) s.link link
      → ((t : Server e)
          → t.next_process ≡ r.1
          → t.cores ≡ s.cores
          → t.kill_core_on_exit ≡ s.kill_core_on_exit
          → Sends e (thread_texts cores) t.link link
          → Told t
              (thread_texts cores)
              link
              ((rsp_write_next_thread_info >> more_threads command (length cores)) t))
      → Told s
          (thread_texts (c ∷ cores))
          link
          ((rsp_write_next_thread_info >> more_threads command (suc (length cores))) s)
  unfolding ◌>>◌ ◌>>=◌
  next_request-Told command s c cores link r shown (x, link₁, taken, rest) behind =
      let s₁ = record s {
        next_process = r.1;
        link = link₁;
        replies = s.replies ++ (thread_text c ∷ []);
      } in
      let (t, run, replies, at, target, same) =
        behind (record s₁ { pkt = codes "qsThreadInfo" }) refl refl refl rest in
      (
        t,
        ap (and_then (λ a. more_threads command (suc (length cores))))
              (shown ∙ put_lem (record s { next_process = r.1 }) (thread_text c) x link₁ taken)
            ∙ ap (and_then (λ a. more_threads command (length cores))) (next_lem command s₁)
            ∙ run,
        replies ∙ simp append_assoc,
        at,
        target,
        same,
      )

  abbrev Telling : Act e (Unit {0}) → e.R → Server e → List ℕ → Type 0
  Telling command link s cores =
      Sends e (thread_texts cores) s.link link
      → Told s (thread_texts cores) link
          ((rsp_write_next_thread_info >> more_threads command (length cores)) s)

  -- The client goes on asking, `pre` being the cores behind it.
  requests-Told :
      (command : Act e (Unit {0})) (link : e.R) (fuel : ℕ) (pre suf : List CoreState) (s : Server e)
      → s.cores.core_states ≡ pre ++ suf
      → length pre + length suf ≡ s.cores.num_cores
      → s.next_process ≡ length pre + 1
      → s.cores.num_cores < 2 ^ 31
      → 12 ≤ e.size
      → length suf < fuel
      → Telling command link s (alive_from s.kill_core_on_exit (length pre) suf)
  requests-Told command link zero pre suf s h size at small room rounds = absurd (omega arith)
  requests-Told command link (suc fuel) pre suf s h size at small room rounds =
      let kill = s.kill_core_on_exit in
      let n = s.cores.num_cores in
      let (r, (found', finds)) =
        next_thread_lem kill n s.cores.live_cores s.cores.core_states (suc n) pre suf h size
          (omega arith) (omega arith) in
      let found : next_thread kill s.cores (suc n) s.next_process ≡ ok r =
        ap (next_thread kill s.cores (suc n)) at ∙ found' in
      elim finds [
        | inl (nobody, end) ↦
            last_request-Told command s (alive_from kill (length pre) suf) link r nobody
              (no_core s r found (ground arith))
        | inr (pre', (c, (suf', (split, (alive, (core, (next, shorter))))))) ↦
            let one : length (pre' ++ (c ∷ [])) ≡ length pre' + 1 = length-append pre' (c ∷ []) in
            let whole : length pre' + suc (length suf') ≡ n =
              sym (length-append pre' (c ∷ suf'))
              ∙ ap length (sym split ∙ h)
              ∙ length-append pre suf
              ∙ size in
            let shown =
              a_core s r found (lt→ltb r.0 n (omega (arith, core, whole)))
              ∙ put_thread (record s { next_process = r.1 }) r.0 (omega (arith, core, whole))
                  room in
            subst (Telling command link s) (sym alive) (λ sends.
              next_request-Told command s r.0 (alive_from kill (length pre' + 1) suf') link r shown
                sends
                (λ t next' cores' kill' sends'.
                  let cores : t.cores.num_cores ≡ n = ap (λ m. m.num_cores) cores' in
                  let behind =
                    requests-Told command link fuel (pre' ++ (c ∷ [])) suf' t
                      (ap (λ m. m.core_states) cores' ∙ split ∙ simp append_assoc)
                      (omega (arith, one, whole, cores)) (omega (arith, next', next, one))
                      (omega (arith, cores)) room (omega (arith, shorter)) in
                  subst (Telling command link t) (ap₂ (λ k i. alive_from k i suf') kill' one) behind
                    sends'))
      ]

  -- There is an element for each core, fewer than 2 ^ 31 of them, and packets may have twelve
  -- characters; the connection takes the replies. Then a client that asks with `qfThreadInfo`,
  -- wherever it was before, and then with `qsThreadInfo` as often as there are threads, gets one
  -- reply for each thread, and `l` for the last request. The replies are `m` and the text of the
  -- identifier, `p<number>.1` with the core's number and one in hex, for the cores in their order:
  -- for those that are alive if exits kill cores, for all if not. The target and the cores stay as
  -- they are.
  pub all_threads-alive :
      (command : Act e (Unit {0})) (s : Server e) (link : e.R)
      → IsSized s.cores
      → s.cores.num_cores < 2 ^ 31
      → 12 ≤ e.size
      → Sends e (thread_texts (alive_from s.kill_core_on_exit 0 s.cores.core_states)) s.link link
      → Told s
          (thread_texts (alive_from s.kill_core_on_exit 0 s.cores.core_states))
          link
          (all_threads command (length (alive_from s.kill_core_on_exit 0 s.cores.core_states)) s)
  unfolding ◌>>◌ ◌>>=◌
  all_threads-alive command s link size small room sends =
      let cores = alive_from s.kill_core_on_exit 0 s.cores.core_states in
      let s₁ = record s { pkt = codes "qfThreadInfo"; next_process = 1 } in
      let (t, run, replies, at, target, same) =
        requests-Told command link (suc s.cores.num_cores) [] s.cores.core_states s₁ refl
          (omega (arith, size)) refl small room (omega (arith, size)) sends in
      (
        t,
        ap (and_then (λ a. more_threads command (length cores))) (first_lem command s) ∙ run,
        replies,
        at,
        target,
        same,
      )
