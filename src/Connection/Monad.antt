-- ===== src/Connection/Monad.antt =====
-- lib/server/AbstractConnection.h: the state of a connection, and routines that may fail.
use embdebug.Base.{ℕ, Bool, true, false, List, Option, none, some, Bytes, ◌≡◌, refl, if◌then◌else◌}
use embdebug.Base.Outcome.{Outcome, ok, fault, Fault}

-- What a read meets: a character, or a moment where none is there yet.
pub data Event : Type 0 where
  char : ℕ → Event
  quiet : Event

-- The first three fields are the other side: what arrives, how many more characters it takes, and
-- what was sent to it. The rest are the members of the class.
pub record Conn : Type 0 where
  pub arriving : List Event
  pub room : ℕ
  pub sent : Bytes
  pub have_pending_break : Bool
  pub no_ack_mode : Bool
  pub get_char_buf : ℕ
  pub num_get_buf_chars : ℕ

-- `none` is a communications failure.
abbrev pub Io : Type 0 → Type 0
Io A = Conn → Outcome (Option A × Conn)

abbrev pub ret : {A : Type 0} → A → Io A
ret a c = ok (some a, c)

abbrev pub fail : {A : Type 0} → Io A
fail c = ok (none, c)

abbrev pub give_up : {A : Type 0} → Fault → Io A
give_up f c = fault f

abbrev pub lift : {A : Type 0} → Outcome A → Io A
lift (ok a) c = ok (some a, c)
lift (fault f) c = fault f

infixl 5 ◌>>=◌ ◌>>◌
abbrev pub and_then :
    {A B : Type 0} → (A → Io B) → Outcome (Option A × Conn) → Outcome (Option B × Conn)
and_then f (ok (some a, c)) = f a c
and_then f (ok (none, c)) = ok (none, c)
and_then f (fault e) = fault e

abbrev pub ◌>>=◌ : {A B : Type 0} → Io A → (A → Io B) → Io B
◌>>=◌ m f c = and_then f (m c)

abbrev pub ◌>>◌ : {B : Type 0} → Io (Unit {0}) → Io B → Io B
m >> k = m >>= λ _. k

-- A branch taken, with the state left whole.
pub if_true_run :
    {A : Type 0} (b : Bool) (m k : Conn → A) (c : Conn) → b ≡ true → (if b then m else k) c ≡ m c
if_true_run b m k c e = rw e refl

pub if_false_run :
    {A : Type 0} (b : Bool) (m k : Conn → A) (c : Conn) → b ≡ false → (if b then m else k) c ≡ k c
if_false_run b m k c e = rw e refl
