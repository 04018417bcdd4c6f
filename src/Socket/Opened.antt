-- ===== src/Socket/Opened.antt =====
-- lib/server/RspConnectionUnix.cpp, `rspConnect`: the descriptors that it leaves open.
use embdebug.Base.{
  ℕ, ◌≡◌, refl, ◌∙◌, ap, ◌==◌, ==_refl, List, [], ◌∷◌, Bool, true, false, not, ◌||◌, if◌then◌else◌,
  Option, none, some, arith,
}
use embdebug.Base.Int.{ℤ, pos}
use embdebug.Socket.{
  Sockets, Socket, SocketOption, accepted, assigned, announced, listening, bound, opened,
  rsp_connect, is_connected, with_os,
}

abbrev pub remove : ℕ → List ℕ → List ℕ
remove fd [] = []
remove fd (x ∷ fds) = if x == fd then fds else x ∷ remove fd fds

abbrev pub with_new : Option ℕ → List ℕ → List ℕ
with_new none fds = fds
with_new (some fd) fds = fd ∷ fds

-- `fds` has the open descriptors, the newest first: `socket` and `accept` open one where they
-- succeed, `close` closes one, and the other calls leave them. A new one is not the one in use.
pub record Descriptors {O : Type 0} (sys : Sockets O) (settle : O → O) (fds : O → List ℕ)
    : Type 0 where
  pub of_socket : (o : O) → fds (sys.socket o).1 ≡ with_new (sys.socket o).0 (fds o)
  pub of_accept : (fd : ℕ) (o : O) → fds (sys.accept fd o).1 ≡ with_new (sys.accept fd o).0 (fds o)
  pub fresh : (fd c : ℕ) (o : O) → (sys.accept fd o).0 ≡ some c → (c == fd) ≡ false
  pub of_close : (fd : ℕ) (o : O) → fds (sys.close fd o) ≡ remove fd (fds o)
  pub of_option : (fd : ℕ) (x : SocketOption) (o : O) → fds (sys.set_option fd x o) ≡ fds o
  pub of_bind : (fd port : ℕ) (o : O) → fds (sys.bind fd port o).1 ≡ fds o
  pub of_listen : (fd : ℕ) (o : O) → fds (sys.listen fd o).1 ≡ fds o
  pub of_bound_port : (fd : ℕ) (o : O) → fds (sys.bound_port fd o).1 ≡ fds o
  pub of_write_port : (port : ℤ) (o : O) → fds (sys.write_port port o) ≡ fds o
  pub of_settle : (o : O) → fds (settle o) ≡ fds o

-- What an attempt leaves open, by what `socket` gave and by the client.
abbrev pub left_open : Option ℕ → Option ℕ → List ℕ → List ℕ
left_open none client fds = fds
left_open (some tmp) none fds = tmp ∷ fds
left_open (some tmp) (some fd) fds = fd ∷ fds

-- The members of the base class after an attempt; only a client resets one of them.
abbrev pub Keeps : {O : Type 0} → Socket O → Bool × Socket O → Type 0
Keeps s (b, s') =
    ((not (is_connected s') || b) ≡ true)
    × (s'.no_ack_mode ≡ (if is_connected s' then false else s.no_ack_mode))
    × (s'.have_pending_break ≡ s.have_pending_break)
    × (s'.get_char_buf ≡ s.get_char_buf)
    × (s'.num_get_buf_chars ≡ s.num_get_buf_chars)

module _ {O : Type 0} {sys : Sockets O} {settle : O → O} {fds : O → List ℕ}
    (laws : Descriptors sys settle fds) (tmp : ℕ) (open_before : List ℕ) where
  -- What stands open, once the listening socket does.
  abbrev LeftOpen : Bool × Socket O → Type 0
  LeftOpen (b, s') = fds s'.os ≡ left_open (some tmp) s'.client open_before

  accepted-LeftOpen :
      (s : Socket O) (r : Option ℕ × O)
      → ((c : ℕ) → r.0 ≡ some c → (c == tmp) ≡ false)
      → fds r.1 ≡ with_new r.0 (tmp ∷ open_before)
      → LeftOpen (accepted sys settle tmp s r)
  unfolding accepted
  accepted-LeftOpen s (none, o) fresh h = h
  accepted-LeftOpen s (some fd, o) fresh h =
      let alive = sys.set_option fd SocketOption.keep_alive o in
      let quick = sys.set_option fd SocketOption.no_delay alive in
      laws.of_settle (sys.close tmp quick)
      ∙ laws.of_close tmp quick
      ∙ ap (remove tmp) (
          laws.of_option fd SocketOption.no_delay alive
          ∙ laws.of_option fd SocketOption.keep_alive o
          ∙ h)
      ∙ rw (fresh fd refl, ==_refl tmp) refl

  ready-fds : (s : Socket O) → fds (announced sys (assigned sys tmp s)).os ≡ fds s.os
  unfolding announced assigned
  ready-fds s = ground (
    arith,
    laws.of_bound_port tmp s.os,
    laws.of_write_port s.port_num s.os,
    laws.of_write_port (pos (sys.bound_port tmp s.os).0) (sys.bound_port tmp s.os).1,
  )

  listening-LeftOpen :
      (s : Socket O) (r : Bool × O)
      → s.client ≡ none
      → fds r.1 ≡ tmp ∷ open_before
      → LeftOpen (listening sys settle tmp s r)
  unfolding listening
  listening-LeftOpen s (false, o) h e = rw h e
  listening-LeftOpen s (true, o) h e =
      let ready = announced sys (assigned sys tmp (with_os s o)) in
      accepted-LeftOpen ready (sys.accept tmp ready.os) (λ c. laws.fresh tmp c ready.os)
        (laws.of_accept tmp ready.os
          ∙ ap (with_new (sys.accept tmp ready.os).0) (ready-fds (with_os s o) ∙ e))

  bound-LeftOpen :
      (s : Socket O) (r : Bool × O)
      → s.client ≡ none
      → fds r.1 ≡ tmp ∷ open_before
      → LeftOpen (bound sys settle tmp s r)
  unfolding bound
  bound-LeftOpen s (false, o) h e = rw h e
  bound-LeftOpen s (true, o) h e =
      listening-LeftOpen s (sys.listen tmp o) h (laws.of_listen tmp o ∙ e)

opened-fds :
    {O : Type 0} {sys : Sockets O} {settle : O → O} {fds : O → List ℕ}
    (laws : Descriptors sys settle fds) (s : Socket O) (r : Option ℕ × O) (open_before : List ℕ)
    → s.client ≡ none
    → fds r.1 ≡ with_new r.0 open_before
    → fds (opened sys settle s r).1.os ≡ left_open r.0 (opened sys settle s r).1.client open_before
unfolding opened
opened-fds laws s (none, o) open_before h e = e
opened-fds {sys = sys} laws s (some tmp, o) open_before h e =
    bound-LeftOpen laws tmp open_before s _ h (
      laws.of_bind tmp _ (sys.set_option tmp SocketOption.reuse_addr o)
      ∙ laws.of_option tmp SocketOption.reuse_addr o
      ∙ e)

failed-Keeps : {O : Type 0} (s : Socket O) (o : O) → s.client ≡ none → Keeps s (false, with_os s o)
failed-Keeps s o h = rw h (refl, refl, refl, refl, refl)

module _ {O : Type 0} (sys : Sockets O) where
  -- What stands in front of `accept` leaves the members.
  ready-Keeps :
      (tmp : ℕ) (s : Socket O) (r : Bool × Socket O)
      → Keeps (announced sys (assigned sys tmp s)) r
      → Keeps s r
  unfolding announced assigned
  ready-Keeps tmp s r h = ground arith

module _ {O : Type 0} (sys : Sockets O) (settle : O → O) where
  accepted-Keeps :
      (tmp : ℕ) (s : Socket O) (r : Option ℕ × O) → Keeps s (accepted sys settle tmp s r)
  unfolding accepted
  accepted-Keeps tmp s (none, o) = (refl, refl, refl, refl, refl)
  accepted-Keeps tmp s (some fd, o) = (refl, refl, refl, refl, refl)

  listening-Keeps :
      (tmp : ℕ) (s : Socket O) (r : Bool × O)
      → s.client ≡ none
      → Keeps s (listening sys settle tmp s r)
  unfolding listening
  listening-Keeps tmp s (false, o) h = failed-Keeps s o h
  listening-Keeps tmp s (true, o) h =
      let ready = announced sys (assigned sys tmp (with_os s o)) in
      ready-Keeps sys tmp (with_os s o) (accepted sys settle tmp ready (sys.accept tmp ready.os))
        (accepted-Keeps tmp ready (sys.accept tmp ready.os))

  bound-Keeps :
      (tmp : ℕ) (s : Socket O) (r : Bool × O) → s.client ≡ none → Keeps s (bound sys settle tmp s r)
  unfolding bound
  bound-Keeps tmp s (false, o) h = failed-Keeps s o h
  bound-Keeps tmp s (true, o) h = listening-Keeps tmp s (sys.listen tmp o) h

  opened-Keeps :
      (s : Socket O) (r : Option ℕ × O) → s.client ≡ none → Keeps s (opened sys settle s r)
  unfolding opened
  opened-Keeps s (none, o) h = failed-Keeps s o h
  opened-Keeps s (some tmp, o) h = bound-Keeps tmp s _ h

-- Where there is no client yet, `rspConnect` opens no descriptor if `socket` fails. Otherwise one
-- more is open afterwards: that of the client if one came, and the listening socket if none came,
-- whatever failed. It returns true if there is a client then, with acknowledgements on; without a
-- client the mode stays. A pending break and a character that is held stay in each case.
pub rsp_connect-Keeps :
    {O : Type 0} (sys : Sockets O) (settle : O → O) (fds : O → List ℕ) (s : Socket O)
    → Descriptors sys settle fds
    → s.client ≡ none
    → (fds (rsp_connect sys settle s).1.os
        ≡ left_open (sys.socket s.os).0 (rsp_connect sys settle s).1.client (fds s.os))
      × Keeps s (rsp_connect sys settle s)
unfolding rsp_connect
rsp_connect-Keeps sys settle fds s laws h = (
  opened-fds laws s (sys.socket s.os) (fds s.os) h (laws.of_socket s.os),
  opened-Keeps sys settle s (sys.socket s.os) h,
)
