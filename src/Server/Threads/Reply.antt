-- ===== src/Server/Threads/Reply.antt =====
-- lib/server/GdbServer.cpp, `rspQuery`: single requests for threads.
use embdebug.Base.{
  ℕ, zero, suc, ◌+◌, ◌%◌, ◌^◌, ◌<◌, ◌≤◌, ◌≡◌, refl, ◌∙◌, ap, true, false, List, [], ◌∷◌, ◌++◌,
  length-append, Bytes, codes, arith, ltb, length,
}
use embdebug.Base.Int.{pos, to_int32, to_int32_small}
use embdebug.Base.Outcome.{ok}
use embdebug.Cores.{core_num2pid}
use embdebug.Hex.Value.{val_text, val_text_bounds}
use embdebug.Packet.{add_data, add_string}
use embdebug.Ptid.{Ptid}
use embdebug.Ptid
use embdebug.Ptid.Codec.{encode_process}
use embdebug.Server.Chunks.{take_all}
use embdebug.Server.Query.{
  next_thread, put_ptid, rsp_write_next_thread_info, rsp_query, tid_default,
}
use embdebug.Server.State.{Env, Server, Act, ◌>>=◌, ◌>>◌, ret, lift, get, modify, put}

-- The reply that names the thread of core `i`, and those for several cores, with the end of the
-- list.
abbrev pub thread_text : ℕ → Bytes
thread_text i = b'm' ∷ (b'p' ∷ (val_text (suc i) ++ codes ".1"))

abbrev pub thread_texts : List ℕ → List Bytes
thread_texts [] = codes "l" ∷ []
thread_texts (i ∷ cores) = thread_text i ∷ thread_texts cores

marked :
    (size : ℕ) (text : Bytes)
    → length text < size
    → add_string size (add_string size [] (codes "m")) text ≡ b'm' ∷ text
unfolding add_string add_data
marked size text room =
    let one : ltb size 1 ≡ false = ground arith in
    let fits : ltb size ((1 + length text) % 2 ^ 64) ≡ false = ground arith in
    rw (one, fits) (ap (λ s. b'm' ∷ s) (take_all (length text) text (omega arith)))

module _ {e : Env} where
  -- A request, and `qfThreadInfo` with `n` times `qsThreadInfo` behind it.
  abbrev pub request : Act e (Unit {0}) → Bytes → Act e (Unit {0})
  request command text s = rsp_query command (record s { pkt = text })

  abbrev pub more_threads : Act e (Unit {0}) → ℕ → Act e (Unit {0})
  more_threads command zero = ret tt
  more_threads command (suc n) = request command (codes "qsThreadInfo") >> more_threads command n

  abbrev pub all_threads : Act e (Unit {0}) → ℕ → Act e (Unit {0})
  all_threads command n = request command (codes "qfThreadInfo") >> more_threads command n

  pub first_lem :
      (command : Act e (Unit {0})) (s : Server e)
      → request command (codes "qfThreadInfo") s
        ≡ rsp_write_next_thread_info (record s { pkt = codes "qfThreadInfo"; next_process = 1 })
  unfolding rsp_query ◌>>=◌ ◌>>◌ get modify
  first_lem command s = refl

  pub next_lem :
      (command : Act e (Unit {0})) (s : Server e)
      → request command (codes "qsThreadInfo") s
        ≡ rsp_write_next_thread_info (record s { pkt = codes "qsThreadInfo" })
  unfolding rsp_query ◌>>=◌ ◌>>◌ get modify
  next_lem command s = refl

  -- The replies of `rspWriteNextThreadInfo`, by the core that it finds.
  pub no_core :
      (s : Server e) (r : ℕ × ℕ)
      → next_thread s.kill_core_on_exit s.cores (suc s.cores.num_cores) s.next_process ≡ ok r
      → ltb r.0 s.cores.num_cores ≡ false
      → rsp_write_next_thread_info s ≡ put (codes "l") (record s { next_process = r.1 })
  unfolding rsp_write_next_thread_info ◌>>=◌ ◌>>◌ get lift modify
  no_core s r found h = rw (found, h) refl

  pub a_core :
      (s : Server e) (r : ℕ × ℕ)
      → next_thread s.kill_core_on_exit s.cores (suc s.cores.num_cores) s.next_process ≡ ok r
      → ltb r.0 s.cores.num_cores ≡ true
      → rsp_write_next_thread_info s
        ≡ put_ptid
            (codes "m")
            (record { pid = to_int32 (core_num2pid r.0); tid = tid_default })
            (record s { next_process = r.1 })
  unfolding rsp_write_next_thread_info ◌>>=◌ ◌>>◌ get lift modify
  a_core s r found h = rw (found, h) refl

  pub put_thread :
      (s : Server e) (i : ℕ)
      → i + 1 < 2 ^ 31
      → 12 ≤ e.size
      → put_ptid (codes "m") (record { pid = to_int32 (core_num2pid i); tid = tid_default }) s
        ≡ put (thread_text i) s
  unfolding put_ptid ◌>>=◌ lift
  put_thread s i small room =
      let text = b'p' ∷ (val_text (suc i) ++ codes ".1") in
      let process : to_int32 (core_num2pid i) ≡ pos (suc i) =
        ap to_int32 (omega arith) ∙ to_int32_small (suc i) (omega arith) in
      let written : Ptid.encode (record { pid = to_int32 (core_num2pid i); tid = tid_default })
          ≡ ok (true, text) =
        ap (λ p. Ptid.encode (record { pid = p; tid = tid_default })) process
        ∙ encode_process i (omega arith) in
      let bounds = val_text_bounds (suc i) (omega arith) in
      let short : length text < e.size =
        omega (arith, length-append (val_text (suc i)) (codes ".1"), bounds.1) in
      rw (written, marked e.size text short) refl
