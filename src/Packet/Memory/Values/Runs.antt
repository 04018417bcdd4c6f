-- ===== src/Packet/Memory/Values/Runs.antt =====
-- lib/server/RspPacket.cpp: sequences of calls on packets.
use embdebug.Base.{ℕ, subst, List, [], ◌∷◌, refl}
use embdebug.Base.Outcome.{Outcome, ok, fault, ◌>>=◌}
use embdebug.Packet.Memory.{Memory}
use embdebug.Packet.Memory.Owned.{IsOwned}
use embdebug.Packet.Memory.Values.{
  Call, create_from, build_from, copy_of, move_of, destroy_of, move_to, perform, run, Values,
  perform_value, run_values,
}
use embdebug.Packet.Memory.Values.Refines.{
  view, Refines, create-Refines, from_builder-Refines, copy-Refines, move-Refines,
}
use embdebug.Packet.Memory.Values.Deleted.{destroy-Refines, assign-Refines}

perform-Refines :
    (size : ℕ) (c : Call) (m : Memory)
    → IsOwned m
    → Refines (perform size c m) (perform_value size c (view m))
perform-Refines size (create_from text) m v = create-Refines size text m v
perform-Refines size (build_from text) m v = from_builder-Refines size text m v
perform-Refines size (copy_of i) m v = copy-Refines size i m v
perform-Refines size (move_of i) m v = move-Refines size i m v
perform-Refines size (destroy_of i) m v = destroy-Refines size i m v
perform-Refines size (move_to i j) m v = assign-Refines size i j m v

then-Refines :
    (size : ℕ) (calls : List Call) (x : Outcome Memory) (y : Outcome Values)
    → ((m : Memory) → IsOwned m → Refines (run size calls m) (run_values size calls (view m)))
    → Refines x y
    → Refines (x >>= run size calls) (y >>= run_values size calls)
then-Refines size calls (ok m) (ok l) more h =
    subst (λ l. Refines (run size calls m) (run_values size calls l)) h.1 (more m h.0)
then-Refines size calls (ok m) (fault y) more h = elim h [ ]
then-Refines size calls (fault x) (ok l) more h = elim h [ ]
then-Refines size calls (fault x) (fault y) more h = h

-- In a memory where each allocated block belongs to exactly one object, any sequence of
-- constructions, copies, moves, assignments and destructions ends as the same sequence does on
-- plain values that share nothing: it is undefined where that is, so that nothing is deleted twice
-- or read after its deletion; or it ends with the same texts, and again each block that is still
-- allocated belongs to exactly one object, so that none is shared and none is lost.
pub run-Refines :
    (size : ℕ) (calls : List Call) (m : Memory)
    → IsOwned m
    → Refines (run size calls m) (run_values size calls (view m))
run-Refines size [] m v = (v, refl)
run-Refines size (c ∷ calls) m v =
    then-Refines size calls (perform size c m) (perform_value size c (view m))
      (run-Refines size calls) (perform-Refines size c m v)
