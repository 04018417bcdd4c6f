-- ===== src/Stream.antt =====
-- lib/server/StreamConnection.cpp: single characters on the standard streams. The calls of the
-- operating system are parameters, on a state `O` of it.
use embdebug.Base.{
  ℕ, zero, suc, ◌%◌, ◌<◌, ◌≡◌, sym, ap, subst, ◌∙◌, Bool, true, false, ◌==◌, bit_and, if◌then◌else◌,
  arith, Option, none, some,
}
use embdebug.Base.Outcome.{Outcome, ok, fault, no_fuel}
use embdebug.Bits.{and_byte}

-- What `write` gives: -1 with `errno` EAGAIN or EINTR, -1 otherwise, or a count.
pub data Written : Type 0 where
  try_again write_failed : Written
  wrote : ℕ → Written

-- What `select` gives: -1 with `errno` EINTR, -1 otherwise, 0, or a number of streams.
pub data Selected : Type 0 where
  interrupted select_failed quiet ready : Selected

-- `read` of one character: the character, or nothing after -1 and 0. `select` takes no timeout
-- where it blocks.
pub record Os (O : Type 0) : Type 0 where
  pub write : ℕ → O → Written × O
  pub select : Bool → O → Selected × O
  pub read : O → Option ℕ × O

-- An object of the class, besides what `AbstractConnection` has.
pub record Stream (O : Type 0) : Type 0 where
  pub connected : Bool
  pub os : O

module _ {O : Type 0} where
  abbrev pub is_connected : Stream O → Bool
  is_connected s = s.connected

  -- There is no way to connect.
  abbrev pub rsp_connect : Stream O → Bool
  rsp_connect s = false

  abbrev pub rsp_close : Stream O → Stream O
  rsp_close s = record s { connected = false }

  -- The constructor.
  abbrev pub new_stream : O → Stream O
  new_stream os = record { connected = true; os = os }

module _ {O : Type 0} (os : Os O) where
  -- The switch of `putRspCharRaw`, in front of the next round.
  abbrev pub after_write : (O → Outcome (Bool × O)) → Written × O → Outcome (Bool × O)
  after_write again (try_again, o) = again o
  after_write again (write_failed, o) = ok (false, o)
  after_write again (wrote n, o) = if n == 0 then again o else ok (true, o)

  unfoldable pub put_rsp_char_raw : ℕ → ℕ → O → Outcome (Bool × O)
  put_rsp_char_raw zero c o = fault no_fuel
  put_rsp_char_raw (suc fuel) c o = after_write (put_rsp_char_raw fuel c) (os.write c o)

  -- The switch of `getRspCharRaw`; none is -1.
  abbrev pub read_char : Option ℕ × O → Outcome (Option ℕ × O)
  read_char (none, o) = ok (none, o)
  read_char (some c, o) = ok (some (bit_and c 0xff), o)

  abbrev pub after_select : (O → Outcome (Option ℕ × O)) → Selected × O → Outcome (Option ℕ × O)
  after_select again (interrupted, o) = again o
  after_select again (select_failed, o) = ok (none, o)
  after_select again (quiet, o) = ok (none, o)
  after_select again (ready, o) = read_char (os.read o)

  unfoldable pub get_rsp_char_raw : ℕ → Bool → O → Outcome (Option ℕ × O)
  get_rsp_char_raw zero blocking o = fault no_fuel
  get_rsp_char_raw (suc fuel) blocking o =
      after_select (get_rsp_char_raw fuel blocking) (os.select blocking o)

  -- `n` calls of `select` in a row are interrupted, and leave the operating system in `o'`.
  abbrev pub Interrupted : ℕ → Bool → O → O → Type 0
  Interrupted zero blocking o o' = o ≡ o'
  Interrupted (suc n) blocking o o' =
      ((os.select blocking o).0 ≡ interrupted) × Interrupted n blocking (os.select blocking o).1 o'

  -- What a call of `select` that is not interrupted leads to: the low eight bits of the character
  -- that `read` gives, or nothing if it gives none, if `select` fails, or if it finds no stream.
  pub data Gives (blocking : Bool) (o : O) : Option ℕ × O → Type 0 where
    character :
        (c : ℕ) (o' : O)
        → (os.select blocking o).0 ≡ ready
        → os.read (os.select blocking o).1 ≡ (some c, o')
        → Gives blocking o (some (c % 256), o')
    end_of_input :
        (o' : O)
        → (os.select blocking o).0 ≡ ready
        → os.read (os.select blocking o).1 ≡ (none, o')
        → Gives blocking o (none, o')
    nothing_there :
        (os.select blocking o).0 ≡ quiet → Gives blocking o (none, (os.select blocking o).1)
    failure :
        (os.select blocking o).0 ≡ select_failed → Gives blocking o (none, (os.select blocking o).1)

  last_select :
      (fuel : ℕ) (blocking : Bool) (o : O) (r : Option ℕ × O)
      → Gives blocking o r
      → get_rsp_char_raw (suc fuel) blocking o ≡ ok r
  unfolding get_rsp_char_raw
  last_select fuel blocking o _ (character c o' h read) =
      ap (λ k. after_select (get_rsp_char_raw fuel blocking) (k, (os.select blocking o).1)) h
      ∙ ap read_char read
      ∙ ap (λ k. ok (some k, o')) (and_byte c)
  last_select fuel blocking o _ (end_of_input o' h read) =
      ap (λ k. after_select (get_rsp_char_raw fuel blocking) (k, (os.select blocking o).1)) h
      ∙ ap read_char read
  last_select fuel blocking o _ (nothing_there h) =
      ap (λ k. after_select (get_rsp_char_raw fuel blocking) (k, (os.select blocking o).1)) h
  last_select fuel blocking o _ (failure h) =
      ap (λ k. after_select (get_rsp_char_raw fuel blocking) (k, (os.select blocking o).1)) h

  -- However many calls of `select` are interrupted, fewer than the rounds of the loop,
  -- `getRspCharRaw` ends and gives what the first call that is not interrupted leads to: the low
  -- eight bits of the character that is read, or no character after the end of the input, a
  -- failure, or where nothing is there yet.
  pub get_rsp_char_raw-Gives :
      (n fuel : ℕ) (blocking : Bool) (o o' : O) (r : Option ℕ × O)
      → Interrupted n blocking o o'
      → Gives blocking o' r
      → n < fuel
      → get_rsp_char_raw fuel blocking o ≡ ok r
  unfolding get_rsp_char_raw
  get_rsp_char_raw-Gives n zero blocking o o' r again gives below = absurd (omega arith)
  get_rsp_char_raw-Gives zero (suc fuel) blocking o o' r again gives below =
      last_select fuel blocking o r (subst (λ o. Gives blocking o r) (sym again) gives)
  get_rsp_char_raw-Gives (suc n) (suc fuel) blocking o o' r (h, again) gives below =
      ap (λ k. after_select (get_rsp_char_raw fuel blocking) (k, (os.select blocking o).1)) h
      ∙ get_rsp_char_raw-Gives n fuel blocking (os.select blocking o).1 o' r again gives
          (omega arith)
