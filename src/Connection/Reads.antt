-- ===== src/Connection/Reads.antt =====
-- What the routines for single characters do, seen through the characters still to be read.
use embdebug.Base.{
  ◌⊎◌, ℕ, ◌+◌, ◌≤◌, ◌<◌, ◌≡◌, refl, ◌∙◌, true, List, [], ◌∷◌, none, some, Bytes, arith, ltb,
  if◌then◌else◌, length, Bool-cases, inl, inr,
}
use embdebug.Base.Outcome.{ok}
use embdebug.Connection.Monad.{Event, char, quiet, Conn}
use embdebug.Connection.{next_char, get_rsp_char}

-- The characters that reads which block will deliver.
abbrev pub chars_of : List Event → Bytes
chars_of [] = []
chars_of (char c ∷ events) = c ∷ chars_of events
chars_of (quiet ∷ events) = chars_of events

unfoldable pub chars : Conn → Bytes
chars c =
    if ltb 0 c.num_get_buf_chars then c.get_char_buf ∷ chars_of c.arriving else chars_of c.arriving

-- Everything but the input is as before.
pub record SameOutput (c d : Conn) : Type 0 where
  pub room_eq : d.room ≡ c.room
  pub sent_eq : d.sent ≡ c.sent
  pub break_eq : d.have_pending_break ≡ c.have_pending_break
  pub mode_eq : d.no_ack_mode ≡ c.no_ack_mode

pub SameOutput-trans : {c d e : Conn} → SameOutput c d → SameOutput d e → SameOutput c e
SameOutput-trans s t = record {
  room_eq = t.room_eq ∙ s.room_eq;
  sent_eq = t.sent_eq ∙ s.sent_eq;
  break_eq = t.break_eq ∙ s.break_eq;
  mode_eq = t.mode_eq ∙ s.mode_eq;
}

abbrev pub count_of : Conn → ℕ
count_of c = length c.arriving + c.num_get_buf_chars

-- A read that blocks, of the script.
next_char-cons :
    (events : List Event) (ch : ℕ) (rest : Bytes)
    → chars_of events ≡ ch ∷ rest
    → (events' : List Event) × (next_char true events ≡ (some ch, events'))
      × (chars_of events' ≡ rest)
      × (length events' < length events)
unfolding next_char
next_char-cons [] ch rest h = absurd (cc)
next_char-cons (char c ∷ events) ch rest h = (events, ground arith, ground arith, omega arith)
next_char-cons (quiet ∷ events) ch rest h =
    let (events', e, f, g) = next_char-cons events ch rest h in (events', e, f, omega arith)

next_char_cases :
    (events : List Event)
    → ((ch : ℕ) × (events' : List Event) × (next_char true events ≡ (some ch, events'))
        × (length events' < length events))
      ⊎ ((events' : List Event) × (next_char true events ≡ (none, events')))
unfolding next_char
next_char_cases [] = inr ([], refl)
next_char_cases (char c ∷ events) = inl (c, events, refl, omega arith)
next_char_cases (quiet ∷ events) = elim (next_char_cases events) [
  | inl (ch, events', e, less) ↦ inl (ch, events', e, omega arith)
  | inr (events', e) ↦ inr (events', e)
]

-- The next character is read, and nothing else changes.
pub get_rsp_char-cons :
    (c : Conn) (ch : ℕ) (rest : Bytes)
    → chars c ≡ ch ∷ rest
    → (d : Conn) × (get_rsp_char c ≡ ok (some ch, d))
      × (chars d ≡ rest)
      × SameOutput c d
      × (count_of d < count_of c)
unfolding get_rsp_char chars
get_rsp_char-cons c ch rest h = elim (Bool-cases (ltb 0 c.num_get_buf_chars)) [
  | inl held ↦ (record c { num_get_buf_chars = 0 }, ground arith, ground arith, same, ground arith)
  | inr empty ↦
      let (events, read, left, less) = next_char-cons c.arriving ch rest (ground arith) in
      (record c { arriving = events }, ground arith, ground arith, same, ground arith)
]
  where
    same :
        {a : List Event} {n : ℕ} → SameOutput c (record c { arriving = a; num_get_buf_chars = n })
    same = record { room_eq = refl; sent_eq = refl; break_eq = refl; mode_eq = refl }

-- A read delivers a character and leaves fewer, or fails.
pub get_rsp_char_cases :
    (c : Conn)
    → ((ch : ℕ) × (d : Conn) × (get_rsp_char c ≡ ok (some ch, d)) × (count_of d < count_of c))
      ⊎ ((d : Conn) × (get_rsp_char c ≡ ok (none, d)))
unfolding get_rsp_char
get_rsp_char_cases c = elim (Bool-cases (ltb 0 c.num_get_buf_chars)) [
  | inl held ↦ inl (c.get_char_buf, record c { num_get_buf_chars = 0 }, ground arith, ground arith)
  | inr empty ↦ elim (next_char_cases c.arriving) [
    | inl (ch, events, read, less) ↦
        inl (ch, record c { arriving = events }, ground arith, ground arith)
    | inr (events, failed) ↦ inr (record c { arriving = events }, ground arith)
  ]
]

length-chars_of-le : (events : List Event) → length (chars_of events) ≤ length events
length-chars_of-le [] = omega arith
length-chars_of-le (char c ∷ events) = omega (arith, length-chars_of-le events)
length-chars_of-le (quiet ∷ events) = omega (arith, length-chars_of-le events)

pub length-chars-le : (c : Conn) → length (chars c) ≤ count_of c
unfolding chars
length-chars-le c = ground (arith, length-chars_of-le c.arriving)
