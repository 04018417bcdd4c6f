-- ===== src/Packet/Memory/Values.antt =====
-- lib/server/RspPacket.cpp: packets as plain values, without a heap, and the calls on both.
pub mod Refines
pub mod Deleted
pub mod Runs
use embdebug.Base.{
  ℕ, List, [], ◌∷◌, ◌++◌, Option, none, some, Bytes, ltb, if◌then◌else◌, length, set,
}
use embdebug.Base.Outcome.{Outcome, ok, fault, undefined, ◌>>=◌}
use embdebug.Packet.Memory.{Memory, object, create, from_builder, copy, move, assign, destroy}

-- The calls on objects, which are named by their numbers.
pub data Call : Type 0 where
  create_from build_from : Bytes → Call
  copy_of move_of destroy_of : ℕ → Call
  move_to : ℕ → ℕ → Call

abbrev pub perform : ℕ → Call → Memory → Outcome Memory
perform size (create_from text) m = create size text m
perform size (build_from text) m = from_builder text m
perform size (copy_of i) m = copy i m
perform size (move_of i) m = move i m
perform size (destroy_of i) m = destroy i m
perform size (move_to i j) m = assign i j m

abbrev pub run : ℕ → List Call → Memory → Outcome Memory
run size [] m = ok m
run size (c ∷ calls) m = perform size c m >>= run size calls

-- A value is a text, or nothing once it was moved or destroyed.
abbrev pub Values : Type 0
Values = List (Option Bytes)

abbrev pub copied : Values → Option Bytes → Outcome Values
copied l none = fault undefined
copied l (some text) = ok (l ++ (some text ∷ []))

abbrev pub perform_value : ℕ → Call → Values → Outcome Values
perform_value size (create_from text) l =
    if ltb size (length text) then fault undefined else ok (l ++ (some text ∷ []))
perform_value size (build_from text) l = ok (l ++ (some text ∷ []))
perform_value size (copy_of i) l = object i l >>= copied l
perform_value size (move_of i) l = object i l >>= λ v. ok (set l i none ++ (v ∷ []))
perform_value size (destroy_of i) l = object i l >>= λ v. ok (set l i none)
perform_value size (move_to i j) l =
    object i l >>= λ this. (object j l >>= λ other. ok (set (set l i other) j none))

abbrev pub run_values : ℕ → List Call → Values → Outcome Values
run_values size [] l = ok l
run_values size (c ∷ calls) l = perform_value size c l >>= run_values size calls
