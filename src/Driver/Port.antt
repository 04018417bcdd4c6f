-- ===== src/Driver/Port.antt =====
-- tools/driver/Driver.cpp, `main`: a port and a buffer size on the command line.
use embdebug.Base.{
  ℕ, ◌%◌, ◌<◌, ◌^◌, ◌≡◌, refl, ◌∙◌, ap, Bool, true, false, ◌∷◌, some, Bytes, codes, arith, ltb,
  if◌then◌else◌, Bool-cases, inl, inr,
}
use embdebug.Base.Decimal.{decimal_text}
use embdebug.Base.Int.{pos}
use embdebug.Base.Outcome.{Outcome, ok, ◌>>=◌}
use embdebug.Driver.{
  Options, Settings, Verdict, finished, go_on, read_size, read_port, read_trace, read_values,
  read_options, check_port, check_size,
}
use embdebug.Driver.Load.{Platform, Loader, load_target, library_name, start, main}
use embdebug.Init.{Parts, init}
use embdebug.Trace.{Flags, trace_flags, set_flag_state}
use embdebug.Trace.Number.{stoi-decimal_text, decimal_text-no_colon}

-- A port as GDB users write it.
abbrev pub port_text : Bool → ℕ → Bytes
port_text true port = b':' ∷ decimal_text port
port_text false port = decimal_text port

read_size_lem : (size : ℕ) → size < 2 ^ 31 → read_size (some (decimal_text size)) ≡ some size
unfolding read_size
read_size_lem size h =
    ap check_size (stoi-decimal_text size h)
    ∙ ap some (let e : size % 2 ^ 64 ≡ size = omega arith in e)

read_port_lem :
    (colon : Bool) (port : ℕ)
    → port < 2 ^ 31
    → read_port (some (port_text colon port)) ≡ check_port (some (pos port))
unfolding read_port
read_port_lem true port h = ap check_port (stoi-decimal_text port h)
read_port_lem false port h =
    rw (decimal_text-no_colon port) (ap check_port (stoi-decimal_text port h))

-- The flags, with `silent` if it is asked for.
abbrev pub quiet_flags : Options → Flags → Outcome Flags
quiet_flags o flags = if o.silent then set_flag_state flags (codes "silent") true else ok flags

-- The options that are there, with `soname` and the values as they are read.
read_options_lem :
    (o : Options) (soname : Bytes) (flags : Flags)
    → o.help ≡ false
    → o.version ≡ false
    → o.soname ≡ some soname
    → quiet_flags o trace_flags ≡ ok flags
    → read_options o trace_flags
      ≡ read_values o soname flags (read_size o.bufsize) (read_port o.rsp_port)
unfolding read_options
read_options_lem o soname flags help version name quiet = rw (help, quiet, version, name) refl

-- What is read of a port that is too large, and of one that is not.
abbrev read_as : Bool → Settings → Verdict
read_as true st = go_on st
read_as false st = finished false

read_values_lem :
    (o : Options) (soname : Bytes) (flags after : Flags) (port size : ℕ)
    → read_trace flags o.trace ≡ ok (some after)
    → read_values o soname flags (some size) (check_port (some (pos port)))
      ≡ ok (
          read_as (ltb port (2 ^ 16)) (record {
            flags = after;
            soname = soname;
            from_stdin = o.from_stdin;
            port = port;
            size = size;
          }))
unfolding read_values
read_values_lem o soname flags after port size traced = elim (Bool-cases (ltb port (2 ^ 16))) [
  | inl e ↦ let f : ltb 65535 port ≡ false = ground arith in rw (e, f, traced) refl
  | inr e ↦ let f : ltb 65535 port ≡ true = ground arith in rw (e, f) refl
]

module _ {H : Type 0} (p : Parts) (loader : Loader H p.T) (platform : Platform) where
  -- What `main` does for a target, flags, a port and a size.
  abbrev pub Starts : Bool → Bytes → Flags → ℕ → ℕ → Outcome Bool
  Starts from_stdin soname flags port size = do
    target ← load_target platform loader (library_name platform soname) flags
    init p target flags from_stdin (pos port) size false

  -- The options ask neither for help nor for the version, a library is named, and the trace options
  -- are all parsed. The buffer size and the port stand there in decimal and are below 2 ^ 31, the
  -- port with or without a colon in front. Then `main` loads the library of that name and starts
  -- the server with the flags, the size and the port if the port is below 2 ^ 16; if it is not,
  -- `main` fails, without a target.
  pub main-Starts :
      (o : Options) (soname : Bytes) (flags after : Flags) (colon : Bool) (port size : ℕ)
      → o.help ≡ false
      → o.version ≡ false
      → o.soname ≡ some soname
      → o.bufsize ≡ some (decimal_text size)
      → o.rsp_port ≡ some (port_text colon port)
      → quiet_flags o trace_flags ≡ ok flags
      → read_trace flags o.trace ≡ ok (some after)
      → port < 2 ^ 31
      → size < 2 ^ 31
      → main p loader platform (some o)
        ≡ (if ltb port (2 ^ 16) then Starts o.from_stdin soname after port size else ok false)
  unfolding main start
  main-Starts o soname flags after colon port size help version name sized ported quiet traced h k =
      let values =
        ap (λ r. read_values o soname flags r (read_port o.rsp_port))
          (ap read_size sized ∙ read_size_lem size k)
        ∙ ap (read_values o soname flags (some size))
            (ap read_port ported ∙ read_port_lem colon port h)
        ∙ read_values_lem o soname flags after port size traced in
      rw (read_options_lem o soname flags help version name quiet ∙ values)
        (elim (Bool-cases (ltb port (2 ^ 16))) [ inl e ↦ rw e refl | inr e ↦ rw e refl ])
