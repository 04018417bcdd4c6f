-- ===== src/Packet/Memory.antt =====
-- lib/server/RspPacket.cpp and RspPacket.h: the buffers of packets. Each packet has a buffer of its
-- own from the heap; constructors, `operator=` and the destructor allocate, hand over and delete
-- it.
pub mod Owned
pub mod Values
use embdebug.Base.{
  ℕ, ◌+◌, Bool, true, false, List, [], ◌∷◌, ◌++◌, Option, none, some, Bytes, ltb, ◌==◌,
  if◌then◌else◌, length, take, get_elem?, set,
}
use embdebug.Base.Outcome.{Outcome, ok, fault, undefined, ◌>>=◌}

-- An object: the pointer, none where it is null, and `len`.
pub record Packet : Type 0 where
  pub block : Option ℕ
  pub len : ℕ

-- The contents of each block that is allocated, the address of the next one, and the objects in the
-- order in which they were constructed. `objects` has those that are destroyed, too.
pub record Memory : Type 0 where
  pub contents : ℕ → Option Bytes
  pub next : ℕ
  pub objects : List Packet

abbrev pub null : Packet
null = record { block = none; len = 0 }

abbrev pub update : (ℕ → Option Bytes) → ℕ → Option Bytes → ℕ → Option Bytes
update h a c b = if b == a then c else h b

-- `new`, with what is written to the buffer.
abbrev pub construct : Bytes → ℕ → Memory → Memory
construct text len m = record m {
  contents = update m.contents m.next (some text);
  next = m.next + 1;
  objects = m.objects ++ (record { block = some m.next; len = len } ∷ []);
}

-- `delete []` of what is not allocated is undefined; of the null pointer it is not called.
abbrev pub delete : Option ℕ → Memory → Outcome Memory
delete none m = ok m
delete (some a) m = elim (m.contents a) [
  | none ↦ fault undefined
  | some text ↦ ok (record m { contents = update m.contents a none })
]

-- An object that is there.
abbrev pub object : {A : Type 0} → ℕ → List A → Outcome A
object i objects = elim (get_elem? objects i) [ none ↦ fault undefined | some p ↦ ok p ]

-- What the pointer points to.
abbrev pub read_block : Option ℕ → Memory → Outcome Bytes
read_block none m = fault undefined
read_block (some a) m = elim (m.contents a) [ none ↦ fault undefined | some text ↦ ok text ]

module _ (size : ℕ) where
  -- The constructors from a string and from characters; what does not fit is written behind the
  -- end.
  unfoldable pub create : Bytes → Memory → Outcome Memory
  create text m =
      if ltb size (length text) then fault undefined else ok (construct text (length text) m)

-- The constructor from a builder, the contents of which fit.
unfoldable pub from_builder : Bytes → Memory → Outcome Memory
from_builder text m = ok (construct text (length text) m)

-- The copy constructor, which copies from a null pointer too.
unfoldable pub copy : ℕ → Memory → Outcome Memory
copy i m = do
  other ← object i m.objects
  text ← read_block other.block m
  ok (construct text other.len m)

-- The move constructor.
unfoldable pub move : ℕ → Memory → Outcome Memory
move i m = do
  other ← object i m.objects
  ok (record m { objects = set m.objects i null ++ (other ∷ []) })

-- The move assignment from object `j` to object `i`.
unfoldable pub assign : ℕ → ℕ → Memory → Outcome Memory
assign i j m = do
  this ← object i m.objects
  other ← object j m.objects
  m' ← delete this.block m
  ok (record m' { objects = set (set m'.objects i other) j null })

-- The destructor.
unfoldable pub destroy : ℕ → Memory → Outcome Memory
destroy i m = do
  this ← object i m.objects
  m' ← delete this.block m
  ok (record m' { objects = set m'.objects i (record { block = none; len = this.len }) })
