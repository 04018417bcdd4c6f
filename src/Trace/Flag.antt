-- ===== src/Trace/Flag.antt =====
-- lib/server/TraceFlags.cpp: setting a flag, and what the accessors give afterwards.
use embdebug.Base.{
  suc, ◌+◌, ◌≡◌, refl, sym, ◌∙◌, ap, Bool, true, false, [], ◌∷◌, ◌++◌, some, Bytes, ◌==◌, ==_iff,
  ==_refl, drop, take, arith, Bool-cases, inl, inr, length, All,
}
use embdebug.Base.Int.{ℤ, pos}
use embdebug.Base.Outcome.{ok, Returns}
use embdebug.Strings.{find}
use embdebug.Trace.{
  FlagInfo, Flags, same, before, lookup, assign, is_flag, is_numeric_flag, flag, flag_state,
  flag_val, parse_arg,
}

same_refl : (xs : Bytes) → same xs xs ≡ true
unfolding same
same_refl [] = refl
same_refl (x ∷ xs) = rw (==_refl x, same_refl xs)

same-eq : (xs ys : Bytes) → same xs ys ≡ true → xs ≡ ys
unfolding same
same-eq [] [] h = refl
same-eq [] (y ∷ ys) h = cc
same-eq (x ∷ xs) [] h = cc
same-eq (x ∷ xs) (y ∷ ys) h = elim (Bool-cases (x == y)) [
  | inl e ↦ elim (Bool-cases (same xs ys)) [
    | inl f ↦ let p = (==_iff x y).0 e in let q = same-eq xs ys f in cc
    | inr f ↦ let g : false ≡ true = rw (e, f) at h in cc
  ]
  | inr e ↦ let g : false ≡ true = rw e at h in cc
]

lookup-assign :
    (name : Bytes) (info : FlagInfo) (flags : Flags)
    → lookup name (assign name info flags) ≡ some info
unfolding lookup assign
lookup-assign name info [] = rw (same_refl name)
lookup-assign name info ((key, old) ∷ flags) = elim (Bool-cases (same name key)) [
  | inl e ↦ rw (e, e)
  | inr e ↦ elim (Bool-cases (before name key)) [
    | inl f ↦ rw (e, f, same_refl name)
    | inr f ↦ rw (e, f, e, lookup-assign name info flags)
  ]
]

lookup-assign_other :
    (other name : Bytes) (info : FlagInfo) (flags : Flags)
    → same other name ≡ false
    → lookup other (assign name info flags) ≡ lookup other flags
unfolding lookup assign
lookup-assign_other other name info [] h = rw h
lookup-assign_other other name info ((key, old) ∷ flags) h = elim (Bool-cases (same name key)) [
  | inl e ↦
      let k = same-eq name key e in
      let g : same other key ≡ false = sym (ap (same other) k) ∙ h in rw (e, g)
  | inr e ↦ elim (Bool-cases (before name key)) [
    | inl f ↦ rw (e, f, h)
    | inr f ↦ rw (e, f, lookup-assign_other other name info flags h)
  ]
]

-- What the accessors give for a flag, and that the other flags are as they were.
abbrev pub IsSetTo : Flags → Bytes → Bool → Bytes → Flags → Type 0
IsSetTo old name state val after =
    (flag_state after name ≡ ok state)
    × ((flag_val after name ≡ ok val)
        × ((other : Bytes) → same other name ≡ false → lookup other after ≡ lookup other old))

assign-IsSetTo :
    (flags : Flags) (name : Bytes) (state : Bool) (val : Bytes) (n : ℤ)
    → IsSetTo flags name state val
        (assign name (record { state = state; val = some val; numeric_val = n }) flags)
unfolding flag_state flag_val
assign-IsSetTo flags name state val n =
    let info : FlagInfo = record { state = state; val = some val; numeric_val = n } in
    (
      rw (flag_state, lookup-assign name info flags) refl,
      (
        rw (flag_val, lookup-assign name info flags) refl,
        (λ other h. lookup-assign_other other name info flags h),
      ),
    )

-- For a known flag and a value that is not to be read as a number, `flag` succeeds; the state and
-- the value of the flag are then the given ones, and every other flag is as it was.
pub flag-IsSetTo :
    (flags : Flags) (name : Bytes) (state : Bool) (val : Bytes)
    → is_flag flags name ≡ true
    → Returns (flag flags name state val false) (IsSetTo flags name state val)
unfolding flag
flag-IsSetTo flags name state val h = rw h (assign-IsSetTo flags name state val (pos 0))

-- The argument `<key>=<value>`.
abbrev pub assignment : Bytes → Bytes → Bytes
assignment key value = key ++ (b'=' ∷ value)

find-assignment :
    (key value : Bytes)
    → All (λ c. (c == b'=') ≡ false) key
    → find (assignment key value) b'=' ≡ some (length key)
unfolding find
find-assignment [] value h = refl
find-assignment (c ∷ key) value h = rw (h.0, find-assignment key value h.1) refl

take-assignment : (key value : Bytes) → take (length key) (assignment key value) ≡ key
take-assignment [] value = refl
take-assignment (c ∷ key) value = ap (λ xs. c ∷ xs) (take-assignment key value)

drop-assignment : (key value : Bytes) → drop (length key + 1) (assignment key value) ≡ value
drop-assignment [] value = refl
drop-assignment (c ∷ key) value =
    let e : suc (length key) + 1 ≡ suc (length key + 1) = omega arith in
    rw e (drop-assignment key value)

-- What a parsed argument leaves behind: success, and the flag is on with the value.
abbrev pub TurnedOn : Flags → Bytes → Bytes → Bool × Flags → Type 0
TurnedOn flags key value (parsed, after) = (parsed ≡ true) × IsSetTo flags key true value after

-- The conditions: the key has no `=`, names a known flag, and this is not one of the two numeric
-- flags. Then `parseArg` of `<key>=<value>` succeeds and turns on just that flag, with that value,
-- whatever characters the value has.
pub parse_arg-TurnedOn :
    (flags : Flags) (key value : Bytes)
    → All (λ c. (c == b'=') ≡ false) key
    → is_flag flags key ≡ true
    → is_numeric_flag key ≡ false
    → Returns (parse_arg flags (assignment key value)) (TurnedOn flags key value)
unfolding parse_arg flag
parse_arg-TurnedOn flags key value clean known plain =
    rw
      (
        parse_arg,
        find-assignment key value clean,
        take-assignment key value,
        drop-assignment key value,
        known,
        plain,
      )
      (refl, assign-IsSetTo flags key true value (pos 0))
