-- ===== src/Server/Query.antt =====
-- lib/server/GdbServer.cpp: the `q` requests, but `qRcmd`, with the list of the threads and the
-- file with the target's description.
use embdebug.Base.{
  ℕ, zero, suc, ◌+◌, ◌%◌, ◌^◌, Bool, false, ◌&&◌, ◌||◌, List, [], ◌∷◌, ◌++◌, Option, none, some,
  Bytes, codes, eq_bytes, ltb, leb, if◌then◌else◌, length, drop,
}
use embdebug.Base.Int.{ℤ, pos, to_int32}
use embdebug.Base.Outcome.{Outcome, ok, fault, no_fuel}
use embdebug.Cores.{CoreManager, pid2core_num, core_num2pid, is_core_live}
use embdebug.Hex.{val2hex}
use embdebug.Packet.{add_char, add_data, add_string}
use embdebug.Ptid.{Ptid}
use embdebug.Ptid
use embdebug.Server.Scan.{c_string}
use embdebug.Server.State.{Env, Act, ◌>>=◌, ◌>>◌, ret, lift, get, modify, put}
use embdebug.Strings.{starts_with, split, split_view, from_hex, lstrip, first}

-- `TID_DEFAULT`.
abbrev pub tid_default : ℤ
tid_default = pos 1

-- The loop of `rspWriteNextThreadInfo`: the core it ends with, and `mNextProcess` then. `left`
-- bounds the rounds.
unfoldable pub next_thread : Bool → CoreManager → ℕ → ℕ → Outcome (ℕ × ℕ)
next_thread kill_core_on_exit m zero next_process = fault no_fuel
next_thread kill_core_on_exit m (suc left) next_process =
    let core_num = pid2core_num next_process in
    let next = (next_process + 1) % 2 ^ 32 in
    let more = next_thread kill_core_on_exit m left next in
    if ltb core_num m.num_cores && kill_core_on_exit
    then elim (is_core_live core_num m) [
      | ok live ↦ if live then ok (core_num, next) else more
      | fault x ↦ fault x
    ]
    else ok (core_num, next)

-- A chunk of a file with `l` in front if it is the last one, and `m` if not.
unfoldable pub chunk : ℕ → Bytes → ℕ → ℕ → Bytes
unfolding lstrip first add_char add_data
chunk size file start len =
    let view = lstrip start file in
    let part = first len view in
    add_data size (add_char size [] (if leb (length view) len then b'l' else b'm')) part
      (length part)

-- The file name, the start and the length in `qXfer:features:read:<file>:<start>,<length>`.
unfoldable pub xfer_offsets : Bytes → List Bytes → Option (Bytes × (ℕ × ℕ))
unfolding from_hex
xfer_offsets file (start ∷ len ∷ []) = elim (from_hex start) [
  | none ↦ none
  | some start ↦ elim (from_hex len) [ none ↦ none | some len ↦ some (file, (start, len)) ]
]
xfer_offsets file _ = none

unfoldable pub xfer_operands : List Bytes → Option (Bytes × (ℕ × ℕ))
unfolding xfer_offsets split_view
xfer_operands (request ∷ object ∷ operation ∷ file ∷ offsets ∷ []) =
    xfer_offsets file (split_view offsets b',')
xfer_operands _ = none

-- The features of the client have this one.
unfoldable pub has_multiprocess : List Bytes → Bool
has_multiprocess [] = false
has_multiprocess (token ∷ tokens) =
    eq_bytes token (codes "multiprocess+") || has_multiprocess tokens

unfoldable pub features : ℕ → Bool → Bool → Outcome Bytes
features size xml multi_proc = elim (val2hex size) [
  | fault x ↦ fault x
  | ok digits ↦ ok (
      codes "PacketSize="
      ++ (digits
          ++ (codes ";QNonStop+;VContSupported+;QStartNoAckMode+"
              ++ ((if xml then codes ";qXfer:features:read+" else [])
                  ++ (if multi_proc then codes ";multiprocess+" else [])))))
]

module _ {e : Env} where
  -- A text and a thread identifier behind it; `E01` if it cannot be written.
  unfoldable pub put_ptid : Bytes → Ptid → Act e (Unit {0})
  unfolding put add_string
  put_ptid front ptid = do
    (encoded, text) ← lift (Ptid.encode ptid)
    put (if encoded then add_string e.size (add_string e.size [] front) text else codes "E01")

  unfoldable pub rsp_write_next_thread_info : Act e (Unit {0})
  unfolding next_thread put_ptid put
  rsp_write_next_thread_info = do
    s ← get
    (core_num, next_process) ←
        lift (next_thread s.kill_core_on_exit s.cores (suc s.cores.num_cores) s.next_process)
    modify (λ s. record s { next_process = next_process })
    if ltb core_num s.cores.num_cores
        then put_ptid (codes "m")
            (record { pid = to_int32 (core_num2pid core_num); tid = tid_default })
        else put (codes "l")

  unfoldable pub rsp_supported : Act e (Unit {0})
  unfolding has_multiprocess features split put c_string
  rsp_supported = do
    s ← get
    multi_proc ← ret (has_multiprocess (split (c_string (drop 11 s.pkt)) (codes ";")))
    modify (λ s. record s { have_multi_proc = multi_proc })
    text ← lift (features e.size (e.cpu.supports_target_xml s.target) multi_proc)
    put text

  unfoldable pub rsp_xfer : Act e (Unit {0})
  unfolding xfer_operands split_view chunk put
  rsp_xfer = do
    s ← get
    elim (xfer_operands (split_view s.pkt b':')) [
      | none ↦ put (codes "E00")
      | some (name, (start, len)) ↦ elim (e.cpu.target_xml name s.target) [
        | none ↦ put (codes "E00")
        | some file ↦ put (chunk e.size file start len)
      ]
    ]

  -- `rspQuery`; the handler of `qRcmd` is an argument.
  unfoldable pub rsp_query : Act e (Unit {0}) → Act e (Unit {0})
  unfolding rsp_write_next_thread_info rsp_supported rsp_xfer put_ptid put starts_with
  rsp_query rsp_command = do
    s ← get
    if eq_bytes s.pkt (codes "qC")
        then put_ptid (codes "QC") s.ptid
        else if eq_bytes s.pkt (codes "qfThreadInfo")
        then modify (λ s. record s { next_process = 1 }) >> rsp_write_next_thread_info
        else if eq_bytes s.pkt (codes "qsThreadInfo")
        then rsp_write_next_thread_info
        else if starts_with s.pkt (codes "qL")
        then put (codes "qM001")
        else if starts_with s.pkt (codes "qRcmd,")
        then rsp_command
        else if starts_with s.pkt (codes "qSupported")
        then rsp_supported
        else if starts_with s.pkt (codes "qSymbol:")
        then put (codes "OK")
        else if starts_with s.pkt (codes "qThreadExtraInfo,")
        then put (codes "52756e6e61626c65")
        else if starts_with s.pkt (codes "qXfer:features:read:")
        then rsp_xfer
        else put []
