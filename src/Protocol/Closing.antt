-- ===== src/Protocol/Closing.antt =====
-- The invariant of a session, and reading a line: it ends, and closes the session when it raises
-- (src/pa2bridge/protocol.py, lines 258 to 269 and 447 to 502).
use pa2bridge.Base.{
  ℕ, zero, suc, ◌+◌, ◌≤◌, ◌<◌, ◌≡◌, refl, ap, sym, subst, ◌∙◌, ◌⊎◌, inl, inr, Bool, true, false,
  Option, none, some, List, [], ◌∷◌, if◌then◌else◌, arith, ltb, leb, length, length-append, some_of,
}
use pa2bridge.Base.Text.{Text}
use pa2bridge.Controller.Action.{Exn, Stateful, pure, raise, continue, ◌>>=◌}
use pa2bridge.Protocol.Frame.{until}
use pa2bridge.Protocol.Session.{
  SocketResult, Network, Session, max_response_line_bytes, max_reads, monotonic, update, current,
  close, closed, close_result, shut, fail, require_time, receive, received, read_chunk, whole_line,
  read_raw, decoded, read_line, strip_return, is_bad,
}
use pa2bridge.Protocol.Triple.{
  Post, Ensures, ensures-frame, ensures-weaken, ensures-weaken_pre, ensures-pure, ensures-raise,
  ensures-if, ensures-bind,
}

-- A closed session keeps nothing that was received, and no pending echo.
pub record Shut {W : Type 0} (s : Session W) : Type 0 where
  pub not_open : s.is_open ≡ false
  pub nothing_received : s.buffer ≡ []
  pub nothing_pending : s.pending_set_echoes ≡ []
  pub no_peer : s.peer ≡ none

abbrev pub IsOpen : {W : Type 0} → Session W → Type 0
IsOpen s = s.is_open ≡ true

-- The invariant of a session: it is open, or it is closed and keeps nothing.
abbrev pub Valid : {W : Type 0} → Session W → Type 0
Valid s = IsOpen s ⊎ Shut s

-- The mark of a loop that was given too little fuel.
abbrev pub is_exhausted : Exn → Bool
is_exhausted Exn.loop_exhausted = true
is_exhausted _ = false

-- The session is closed, and no loop has run out of fuel.
abbrev pub Raised : {W : Type 0} → Exn → Session W → Type 0
Raised e s = Shut s × (is_exhausted e ≡ false)

module _ {W : Type 0} (n : Network W) where
  close_then :
      {A : Type 0} (Q : A → Session W → Type 0) (E : Exn → Session W → Type 0)
      (r : SocketResult (Unit {0})) (e : Exn) (t : Session W)
      → E e t × E Exn.os_error t
      → Post Q E
          (continue {B = A} (close_result r) (λ _. raise e) t).0
          (continue {B = A} (close_result r) (λ _. raise e) t).1
  unfolding raise
  close_then Q E (SocketResult.done _) e t h = h.0
  close_then Q E SocketResult.timed_out e t h = h.1
  close_then Q E SocketResult.failed e t h = h.1

  -- `self.close(); raise e` raises that exception, or the one of the closing of the socket.
  pub ensures-fail_by :
      {A : Type 0} {P : Session W → Type 0} {Q : A → Session W → Type 0}
      {E : Exn → Session W → Type 0} (e : Exn)
      → ((s : Session W) (w : W) → P s → E e (closed n w s) × E Exn.os_error (closed n w s))
      → Ensures P (fail n e) Q E
  unfolding close ◌>>=◌
  ensures-fail_by {Q = Q} {E = E} e h = record {
    at =
        λ s p. close_then Q E (shut n s.is_open s.world).0 e _ (h s (shut n s.is_open s.world).1 p);
  }

  Shut-closed : (w : W) (s : Session W) → Shut (closed n w s)
  Shut-closed w s = record {
    not_open = refl;
    nothing_received = refl;
    nothing_pending = refl;
    no_peer = refl;
  }

  pub ensures-fail :
      {A : Type 0} {P : Session W → Type 0} {Q : A → Session W → Type 0} (e : Exn)
      → is_exhausted e ≡ false
      → Ensures P (fail n e) Q Raised
  ensures-fail e x = ensures-fail_by e (λ s w p. ((Shut-closed w s, x), (Shut-closed w s, refl)))

  -- Reading the clock changes the world only.
  abbrev pub Worldly : (Session W → Type 0) → Type 0
  Worldly P = (s : Session W) (w : W) → P s → P (record s { world = w })

  pub ensures-monotonic :
      {P : Session W → Type 0} {E : Exn → Session W → Type 0}
      → Worldly P
      → Ensures P (monotonic n) (λ t s. P s) E
  unfolding monotonic
  ensures-monotonic h = record { at = λ s p. h s _ p }

  pub ensures-require_time :
      {P : Session W → Type 0} (e : Exn) (d : ℕ)
      → is_exhausted e ≡ false
      → Worldly P
      → Ensures P (require_time n e d) (λ _ s. P s) Raised
  unfolding require_time
  ensures-require_time e d x h =
      ensures-bind (ensures-monotonic h)
        (λ t. ensures-if (leb d t) (λ _. ensures-fail e x) (λ _. ensures-pure tt (λ s p. p)))

  pub ensures-current :
      {P : Session W → Type 0} {E : Exn → Session W → Type 0}
      → Ensures P (current n) (λ t s. P s × (t ≡ s)) E
  unfolding current
  ensures-current = record { at = λ s p. (p, refl) }

  pub ensures-update :
      {P : Session W → Type 0} {Q : Unit {0} → Session W → Type 0} {E : Exn → Session W → Type 0}
      (f : Session W → Session W)
      → ((s : Session W) → P s → Q tt (f s))
      → Ensures P (update n f) Q E
  unfolding update
  ensures-update f h = record { at = h }

  -- `if b: self.close(); raise e`
  pub ensures-guard :
      {P : Session W → Type 0} (b : Bool) (e : Exn)
      → is_exhausted e ≡ false
      → Ensures P (if b then fail n e else pure tt) (λ _ s. P s × (b ≡ false)) Raised
  ensures-guard true e x = ensures-fail e x
  ensures-guard false e x = ensures-pure tt (λ s p. (p, refl))

  Shut-of : (t s : Session W) → Valid s → t ≡ s → t.is_open ≡ false → Shut s
  Shut-of t s (inl o) q c = cc
  Shut-of t s (inr h) q c = h

  guard-IsOpen_by :
      {P : Session W → Type 0} (t : Session W) (e : Exn) (b : Bool)
      → t.is_open ≡ b
      → is_exhausted e ≡ false
      → ((s : Session W) → P s → Valid s)
      → Ensures (λ s. P s × (t ≡ s)) (if b then pure tt else raise e) (λ _ s. P s × IsOpen s) Raised
  guard-IsOpen_by t e true o x h = ensures-pure tt (λ s p. (p.0, ap (λ u. u.is_open) (sym p.1) ∙ o))
  guard-IsOpen_by t e false o x h = ensures-raise e (λ s p. (Shut-of t s (h s p.0) p.1 o, x))

  -- `if self._socket is None: raise e`
  pub ensures-guard-IsOpen :
      {P : Session W → Type 0} (t : Session W) (e : Exn)
      → is_exhausted e ≡ false
      → ((s : Session W) → P s → Valid s)
      → Ensures
          (λ s. P s × (t ≡ s))
          (if t.is_open then pure tt else raise e)
          (λ _ s. P s × IsOpen s)
          Raised
  ensures-guard-IsOpen t e x h = guard-IsOpen_by t e t.is_open refl x h

  -- An open session whose buffer has this many bytes, or more.
  abbrev Filled : ℕ → Session W → Type 0
  Filled l s = IsOpen s × (l ≤ length s.buffer)

  ensures-receive :
      {P : Session W → Type 0} {E : Exn → Session W → Type 0} (t : ℕ)
      → Worldly P
      → Ensures P (receive n t) (λ r s. P s) E
  unfolding receive
  ensures-receive t h = record { at = λ s p. h s _ p }

  ensures-received :
      (l d : ℕ) (r : SocketResult (List ℕ))
      → Ensures (Filled l) (received n d r) (λ _ s. Filled (suc l) s) Raised
  ensures-received l d SocketResult.timed_out = ensures-fail _ refl
  ensures-received l d SocketResult.failed = ensures-fail _ refl
  ensures-received l d (SocketResult.done []) =
      ensures-bind (ensures-require_time _ d refl (λ s w p. p)) (λ _. ensures-fail _ refl)
  ensures-received l d (SocketResult.done (b ∷ bs)) =
      ensures-bind (ensures-require_time _ d refl (λ s w p. p))
        (λ _. ensures-update _ (λ s p. (p.0, omega (arith, length-append s.buffer (b ∷ bs), p.1))))

  room :
      {l : ℕ} (t s : Session W)
      → ((Valid s × (length s.buffer ≡ l)) × (t ≡ s))
        × (ltb max_response_line_bytes (length t.buffer) ≡ false)
      → (Valid s × (l ≤ length s.buffer) × (l ≤ max_response_line_bytes)) × (t ≡ s)
  room t s (((v, e), q), h) =
      let same = ap (λ u. length u.buffer) q in
      ((v, omega (arith, e), ground (arith, same, e, h)), q)

  ensures-room :
      (l : ℕ) (t : Session W)
      → Ensures
          (λ s.
            ((Valid s × (length s.buffer ≡ l)) × (t ≡ s))
            × (ltb max_response_line_bytes (length t.buffer) ≡ false))
          (if t.is_open then pure tt else raise Exn.protocol_error)
          (λ _ s. Filled l s × (l ≤ max_response_line_bytes))
          Raised
  ensures-room l t =
      ensures-weaken
        (ensures-weaken_pre
          (ensures-guard-IsOpen
            {P = λ s. Valid s × (l ≤ length s.buffer) × (l ≤ max_response_line_bytes)} t _ refl
            (λ s p. p.0))
          (room t))
        (λ a s p. ((p.1, p.0.1), p.0.2)) (λ e s p. p)

  ensures-read_chunk :
      (l d : ℕ)
      → Ensures
          (λ s. Valid s × (length s.buffer ≡ l))
          (read_chunk n d)
          (λ _ s. Filled (suc l) s × (l ≤ max_response_line_bytes))
          Raised
  unfolding read_chunk
  ensures-read_chunk l d =
      ensures-bind (ensures-current {P = λ s. Valid s × (length s.buffer ≡ l)}) (λ t.
        ensures-bind (ensures-guard (ltb max_response_line_bytes (length t.buffer)) _ refl) (λ _.
          ensures-bind (ensures-room l t) (λ _.
            ensures-bind (ensures-monotonic (λ s w p. p)) (λ now.
              ensures-bind (ensures-guard (leb d now) _ refl) (λ _.
                ensures-bind (ensures-receive _ (λ s w p. p)) (λ r.
                  ensures-weaken_pre (ensures-frame (ensures-received l d r)) (λ s p. p.0)))))))

  pub Valid-world : (s : Session W) (w : W) → Valid s → Valid (record s { world = w })
  Valid-world s w (inl o) = inl o
  Valid-world s w (inr h) = inr (record {
    not_open = h.not_open;
    nothing_received = h.nothing_received;
    nothing_pending = h.nothing_pending;
    no_peer = h.no_peer;
  })

  -- A closed session has no line in its buffer.
  has_line :
      (t s : Session W) {line : List ℕ × List ℕ}
      → Valid s
      → t ≡ s
      → until 10 t.buffer ≡ some line
      → IsOpen s
  unfolding until
  has_line t s (inl o) q h = o
  has_line t s (inr c) q h =
      elim (no_line (sym h ∙ ap (λ b. until 10 b) (ap (λ u. u.buffer) q ∙ c.nothing_received))) [ ]
    where
      no_line : {line : List ℕ × List ℕ} → some line ≡ none → ⊥
      no_line h = cc

  ensures-whole_line :
      {P : Session W → Type 0} (t : Session W) (o : Option (List ℕ × List ℕ))
      {next : Stateful (Session W) (List ℕ)}
      → until 10 t.buffer ≡ o
      → ((s : Session W) → P s → Valid s × (t ≡ s))
      → Ensures P next (λ _ s. IsOpen s) Raised
      → Ensures P (whole_line n o next) (λ _ s. IsOpen s) Raised
  ensures-whole_line t none q v h = h
  ensures-whole_line t (some (raw, rest)) q v h =
      ensures-if (ltb max_response_line_bytes (length raw))
        (λ _. ensures-fail Exn.malformed_frame refl)
        (λ _. ensures-pure raw (λ s p. has_line t s (v s p).0 (v s p).1 q))

  -- There is fuel for every call of `recv` before the buffer is too long.
  abbrev Fuelled : ℕ → Session W → Type 0
  Fuelled fuel s = Valid s × (0 < fuel) × (max_reads ≤ fuel + length s.buffer)

  as_long : (t s : Session W) → t ≡ s → length s.buffer ≡ length t.buffer
  as_long t s q = ap (λ u. length u.buffer) (sym q)

  no_fuel : 0 < 0 → ⊥
  no_fuel h = omega (arith, h)

  ensures-read_raw :
      (fuel d : ℕ) → Ensures (Fuelled fuel) (read_raw n fuel d) (λ _ s. IsOpen s) Raised
  unfolding read_raw
  ensures-read_raw zero d = ensures-raise _ (λ s p. elim (no_fuel p.1) [ ])
  ensures-read_raw (suc fuel) d =
      ensures-bind (ensures-require_time _ d refl (λ s w p. (Valid-world s w p.0, p.1, p.2))) (λ _.
        ensures-bind ensures-current (λ t.
          ensures-whole_line t (until 10 t.buffer) refl (λ s p. (p.0.0, p.1))
            (ensures-weaken_pre
              (ensures-bind
                (ensures-frame {C = max_reads ≤ suc fuel + length t.buffer}
                  (ensures-read_chunk (length t.buffer) d))
                (λ _.
                  ensures-weaken_pre (ensures-read_raw fuel d)
                    (λ s p. (inl p.0.0.0, omega (arith, p.0.1, p.1), omega (arith, p.0.0.1, p.1)))))
              (λ s p. (
                (p.0.0, as_long t s p.1),
                subst (λ l. max_reads ≤ suc fuel + l) (as_long t s p.1) p.0.2,
              )))))

  ensures-decoded :
      (allow_tab : Bool) (o : Option Text)
      → Ensures IsOpen (decoded n allow_tab o) (λ _ s. IsOpen s) Raised
  ensures-decoded allow_tab none = ensures-fail _ refl
  ensures-decoded allow_tab (some line) =
      ensures-if (some_of (is_bad n allow_tab) line) (λ _. ensures-fail Exn.malformed_frame refl)
        (λ _. ensures-pure line (λ s v. v))

  -- Reading a line ends, whatever the network does: it returns with the session open, or it raises
  -- and the session is closed.
  pub ensures-read_line :
      (allow_tab : Bool) (d : ℕ) → Ensures Valid (read_line n allow_tab d) (λ _ s. IsOpen s) Raised
  unfolding read_line
  ensures-read_line allow_tab d =
      ensures-bind
        (ensures-weaken_pre (ensures-read_raw max_reads d) (λ s v. (v, omega arith, omega arith)))
        (λ raw. ensures-bind (ensures-require_time _ d refl (λ s w p. p)) (λ _.
          ensures-bind (ensures-update _ (λ s p. p))
            (λ _. ensures-decoded allow_tab (n.decode (strip_return n raw)))))
