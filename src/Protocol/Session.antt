-- ===== src/Protocol/Session.antt =====
-- The session of a `HiQnetClient` and its lowest operations (src/pa2bridge/protocol.py, lines 112 to
-- 157, 258 to 269 and 401 to 521): its state, the deadlines, sending and reading a line.
--
-- The socket, the clock and the UTF-8 codec are operations of a network on a world of its own.
-- Times are whole milliseconds. Only the `OSError`s that the code catches are told apart.
use pa2bridge.Base.{
  ℕ, zero, suc, ◌-◌, ◌+◌, Bool, true, false, not, ◌&&◌, ◌||◌, Option, none, some, List, [], ◌∷◌,
  ◌++◌, ltb, leb, ◌==◌, if◌then◌else◌, length, some_of, min,
}
use pa2bridge.Base.Text.{Text}
use pa2bridge.Controller.Action.{ok, Exn, Stateful, pure, raise, ◌>>=◌, ◌>>◌, Res, err}
use pa2bridge.Protocol.Frame.{until, error_message}

-- The outcome of a socket call: `TimeoutError`, or another `OSError`.
pub data SocketResult (A : Type 0) : Type 0 where
  done : A → SocketResult A
  timed_out : SocketResult A
  failed : SocketResult A

pub record Network (W : Type 0) : Type 0 where
  pub monotonic : W → ℕ × W
  pub create_connection : ℕ → W → SocketResult (Unit {0}) × W
  pub peer_address : W → Option Text × W
  pub sendall : List ℕ → W → SocketResult (Unit {0}) × W
  pub recv : ℕ → W → SocketResult (List ℕ) × W
  pub shutdown : W → W
  pub close : W → SocketResult (Unit {0}) × W
  pub encode : Text → Option (List ℕ)
  pub decode : List ℕ → Option Text

-- The attributes of a `HiQnetClient` that change, and the commands that were handed to `sendall`,
-- newest first. Its lock is held for the whole of every operation.
pub record Session (W : Type 0) : Type 0 where
  pub world : W
  pub is_open : Bool
  pub buffer : List ℕ
  pub pending_set_echoes : List Text
  pub credentials : Option (Text × Text)
  pub connection_generation : ℕ
  pub peer : Option Text
  pub sent : List Text

-- `_MAX_RESPONSE_LINE_BYTES`
abbrev pub max_response_line_bytes : ℕ
max_response_line_bytes = 65536

-- The most calls of `recv` that one line can take, with one more for the test that ends the loop.
abbrev pub max_reads : ℕ
max_reads = 65538

-- `connected`
abbrev pub connected : {W : Type 0} → Session W → Bool
connected s = s.is_open

-- `peer_ipv4`
unfoldable pub peer_ipv4 : {W : Type 0} → Session W → Option Text
peer_ipv4 s = elim s.credentials [ none ↦ none | some _ ↦ s.peer ]

-- The end of the socket, if there is one. An exception of `shutdown` is ignored, one of `close` is not.
abbrev pub shut : {W : Type 0} → Network W → Bool → W → SocketResult (Unit {0}) × W
shut n true w = n.close (n.shutdown w)
shut n false w = (SocketResult.done tt, w)

abbrev pub close_result : SocketResult (Unit {0}) → Res (Unit {0})
close_result (SocketResult.done _) = ok tt
close_result SocketResult.timed_out = err Exn.os_error
close_result SocketResult.failed = err Exn.os_error

module _ {W : Type 0} (n : Network W) where
  unfoldable pub monotonic : Stateful (Session W) ℕ
  monotonic s = let (t, w) = n.monotonic s.world in (ok t, record s { world = w })

  unfoldable pub update : (Session W → Session W) → Stateful (Session W) (Unit {0})
  update f s = (ok tt, f s)

  unfoldable pub current : Stateful (Session W) (Session W)
  current s = (ok s, s)

  abbrev pub closed : W → Session W → Session W
  closed w s = record s {
    world = w;
    is_open = false;
    peer = none;
    buffer = [];
    pending_set_echoes = [];
  }

  -- `close`
  unfoldable pub close : Stateful (Session W) (Unit {0})
  close s = let (r, w) = shut n s.is_open s.world in (close_result r, closed w s)

  -- `self.close()` before a `raise`.
  abbrev pub fail : {A : Type 0} → Exn → Stateful (Session W) A
  fail e = close >> raise e

  -- `_require_before_deadline` and `_require_start_before_deadline`
  unfoldable pub require_time : Exn → ℕ → Stateful (Session W) (Unit {0})
  require_time e deadline = do t ← monotonic; if leb deadline t then fail e else pure tt

  abbrev pub require_before_deadline : ℕ → Stateful (Session W) (Unit {0})
  require_before_deadline = require_time Exn.protocol_timeout

  -- The test before a command: of the start deadline, if there is one.
  unfoldable pub require_admitted : Option ℕ → ℕ → Stateful (Session W) (Unit {0})
  require_admitted none deadline = require_time Exn.protocol_timeout deadline
  require_admitted (some start) deadline =
      require_time Exn.start_deadline_expired (min start deadline)

  -- `_bounded_deadline`
  unfoldable pub bounded_deadline : ℕ → Option ℕ → Stateful (Session W) ℕ
  bounded_deadline timeout none = do t ← monotonic; pure (t + timeout)
  bounded_deadline timeout (some deadline) = do t ← monotonic; pure (min (t + timeout) deadline)

  abbrev pub sent_all : SocketResult (Unit {0}) → Stateful (Session W) (Unit {0})
  sent_all (SocketResult.done _) = pure tt
  sent_all SocketResult.timed_out = fail Exn.protocol_error
  sent_all SocketResult.failed = fail Exn.protocol_error

  -- `self._socket.sendall`, recorded.
  unfoldable pub hand_over : Text → List ℕ → Stateful (Session W) (SocketResult (Unit {0}))
  hand_over command bytes s =
      let (r, w) = n.sendall bytes s.world in
      (ok r, record s { world = w; sent = command ∷ s.sent })

  abbrev pub transmit_bytes : Text → Option (List ℕ) → Stateful (Session W) (Unit {0})
  transmit_bytes command none = raise Exn.value_error
  transmit_bytes command (some bytes) = do r ← hand_over command bytes; sent_all r

  unfoldable pub transmit : Text → Stateful (Session W) (Unit {0})
  transmit command = transmit_bytes command (n.encode (command ++ 10 ∷ []))

  -- `_send`, which every caller gives a deadline.
  unfoldable pub send : Text → ℕ → Option ℕ → Stateful (Session W) (Unit {0})
  send command deadline start = do
    require_admitted start deadline
    session ← current
    if session.is_open then pure tt else raise Exn.protocol_error
    require_admitted start deadline
    transmit command
    require_before_deadline deadline

  unfoldable pub receive : ℕ → Stateful (Session W) (SocketResult (List ℕ))
  receive timeout s = let (r, w) = n.recv timeout s.world in (ok r, record s { world = w })

  -- What `recv` came back with; an empty chunk is the end of the stream.
  abbrev pub received : ℕ → SocketResult (List ℕ) → Stateful (Session W) (Unit {0})
  received deadline SocketResult.timed_out = fail Exn.protocol_timeout
  received deadline SocketResult.failed = fail Exn.protocol_error
  received deadline (SocketResult.done []) = do
    require_before_deadline deadline
    fail Exn.protocol_error
  received deadline (SocketResult.done (b ∷ bs)) = do
    require_before_deadline deadline
    update (λ s. record s { buffer = s.buffer ++ b ∷ bs })

  -- The body of the loop of `_read_line` when there is no whole line yet.
  unfoldable pub read_chunk : ℕ → Stateful (Session W) (Unit {0})
  read_chunk deadline = do
    session ← current
    if ltb max_response_line_bytes (length session.buffer)
        then fail Exn.malformed_frame
        else pure tt
    if session.is_open then pure tt else raise Exn.protocol_error
    t ← monotonic
    if leb deadline t then fail Exn.protocol_timeout else pure tt
    r ← receive (deadline - t)
    received deadline r

  abbrev pub whole_line :
      Option (List ℕ × List ℕ) → Stateful (Session W) (List ℕ) → Stateful (Session W) (List ℕ)
  whole_line none next = next
  whole_line (some (raw, rest)) next =
      if ltb max_response_line_bytes (length raw) then fail Exn.malformed_frame else pure raw

  -- The loop of `_read_line`, to the bytes before the newline.
  unfoldable pub read_raw : ℕ → ℕ → Stateful (Session W) (List ℕ)
  read_raw zero deadline = raise Exn.loop_exhausted
  read_raw (suc fuel) deadline = do
    require_before_deadline deadline
    session ← current
    whole_line (until 10 session.buffer) (read_chunk deadline >> read_raw fuel deadline)

  -- `raw[:-1]` if it ends with a carriage return.
  abbrev pub strip_return : List ℕ → List ℕ
  strip_return [] = []
  strip_return (b ∷ []) = if b == 13 then [] else b ∷ []
  strip_return (b ∷ b' ∷ bs) = b ∷ strip_return (b' ∷ bs)

  abbrev pub is_bad : Bool → ℕ → Bool
  is_bad allow_tab c = (ltb c 32 && (not (c == 9) || not allow_tab)) || (c == 127)

  abbrev pub decoded : Bool → Option Text → Stateful (Session W) Text
  decoded allow_tab none = fail Exn.malformed_frame
  decoded allow_tab (some line) =
      if some_of (is_bad allow_tab) line then fail Exn.malformed_frame else pure line

  abbrev pub after_newline : Option (List ℕ × List ℕ) → List ℕ
  after_newline none = []
  after_newline (some (raw, rest)) = rest

  -- `_read_line`
  unfoldable pub read_line : Bool → ℕ → Stateful (Session W) Text
  read_line allow_tab deadline = do
    raw ← read_raw max_reads deadline
    require_before_deadline deadline
    update (λ s. record s { buffer = after_newline (until 10 s.buffer) })
    decoded allow_tab (n.decode (strip_return raw))

  abbrev pub raise_on : Option Text → Stateful (Session W) (Unit {0})
  raise_on none = pure tt
  raise_on (some message) = fail Exn.protocol_error

  -- `_raise_if_error`
  unfoldable pub raise_if_error : Text → Stateful (Session W) (Unit {0})
  raise_if_error line = raise_on (error_message line)
