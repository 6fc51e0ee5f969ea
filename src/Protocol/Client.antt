-- ===== src/Protocol/Client.antt =====
-- The operations of a `HiQnetClient` (src/pa2bridge/protocol.py, lines 159 to 414): connect,
-- reconnect, get, set and ls.
use pa2bridge.Base.{
  ℕ, zero, suc, ◌-◌, ◌+◌, Bool, true, false, not, ◌&&◌, ◌||◌, Option, none, some, List, [], ◌∷◌,
  ◌++◌, leb, ◌==◌, if◌then◌else◌, some_of, min, drop,
}
use pa2bridge.Base.Text.{Text, codes, text_eq, text_in, strip_prefix}
use pa2bridge.Base.Decimal.{is_empty}
use pa2bridge.Controller.Action.{
  Res, ok, err, Exn, ParamPath, Entries, Stateful, pure, raise, lift, attempt, ◌>>=◌, ◌>>◌,
}
use pa2bridge.Controller.Resolve.{strip}
use pa2bridge.Protocol.Frame.{
  ValueResponse, validate_atom, validate_username, validate_password, encode_path,
  parse_value_response,
}
use pa2bridge.Protocol.Session.{
  SocketResult, Network, Session, monotonic, update, current, close, fail, require_before_deadline,
  bounded_deadline, send, read_line, raise_if_error,
}

-- `path == expected_path`
unfoldable pub path_eq : ParamPath → ParamPath → Bool
path_eq [] [] = true
path_eq [] (y ∷ ys) = false
path_eq (x ∷ xs) [] = false
path_eq (x ∷ xs) (y ∷ ys) = text_eq x y && path_eq xs ys

-- The frames.
abbrev pub quoted : Text → Text
quoted t = codes "\"" ++ t ++ codes "\""

abbrev pub arguments : Text → Text → Text
arguments encoded value = quoted encoded ++ (codes " " ++ quoted value)

abbrev pub get_frame : Text → Text
get_frame encoded = codes "get " ++ quoted encoded

abbrev pub set_frame : Text → Text → Text
set_frame encoded value = codes "set " ++ arguments encoded value

abbrev pub ls_frame : Text → Text
ls_frame encoded = codes "ls " ++ quoted encoded

abbrev pub connect_frame : Text → Text → Text
connect_frame username password = codes "connect " ++ username ++ codes " " ++ quoted password

-- `line.split(" : ", 1)`
abbrev pub onto_key : ℕ → Option (Text × Text) → Option (Text × Text)
onto_key c none = none
onto_key c (some (k, v)) = some (c ∷ k, v)

unfoldable pub split_entry : Text → Option (Text × Text)
split_entry [] = none
split_entry (c ∷ cs) =
    let rest = split_entry cs in
    elim (strip_prefix (codes " : ") (c ∷ cs)) [ none ↦ onto_key c rest | some v ↦ some ([], v) ]

-- The end of an ls reply, an entry, an entry that is skipped (`..` and `*`), or a malformed line.
pub data Line : Type 0 where
  ends skipped malformed : Line
  entry_line : Text → Text → Line

-- One leading tab is removed; no other is accepted.
abbrev pub without_tab : Text → Text
without_tab [] = []
without_tab (c ∷ cs) = if c == 9 then cs else c ∷ cs

abbrev pub line_of : Option (Text × Text) → Line
line_of none = Line.malformed
line_of (some (key, value)) =
    if is_empty key || (not (text_eq key (strip key)) || not (text_eq value (strip value)))
    then Line.malformed
    else if text_eq key (codes "..") || text_eq key (codes "*")
    then Line.skipped
    else Line.entry_line key value

unfoldable pub classify : Text → Line
classify line =
    if text_eq line (codes "endls")
    then Line.ends
    else if some_of (λ c. c == 9) (without_tab line)
    then Line.malformed
    else line_of (split_entry (without_tab line))

abbrev pub keys : Entries → List Text
keys [] = []
keys ((k, v) ∷ rest) = k ∷ keys rest

module _ {W : Type 0} (n : Network W) where
  unfoldable pub connect_socket : ℕ → Stateful (Session W) (SocketResult (Unit {0}))
  connect_socket timeout s =
      let (r, w) = n.create_connection timeout s.world in (ok r, record s { world = w })

  -- The new session's state: `getpeername`, and nothing received or pending.
  unfoldable pub adopt_socket : Stateful (Session W) (Unit {0})
  adopt_socket s =
      let (address, w) = n.peer_address s.world in
      (
        ok tt,
        record s {
          world = w;
          is_open = true;
          peer = address;
          buffer = [];
          pending_set_echoes = [];
        },
      )

  abbrev pub connecting : SocketResult (Unit {0}) → Stateful (Session W) (Unit {0})
  connecting (SocketResult.done _) = adopt_socket
  connecting SocketResult.timed_out = raise Exn.protocol_timeout
  connecting SocketResult.failed = raise Exn.protocol_error

  -- The greeting of the console may come before the answer.
  unfoldable pub skip_greeting : ℕ → Text → Stateful (Session W) Text
  skip_greeting deadline line =
      if text_eq line (codes "HiQnet Console") then read_line n false deadline else pure line

  unfoldable pub authenticate : Text → ℕ → Stateful (Session W) (Unit {0})
  authenticate username deadline = do
    first ← read_line n false deadline
    line ← skip_greeting deadline first
    if text_eq line (codes "connect logged in as " ++ username)
        then pure tt
        else raise Exn.authentication_error

  abbrev pub authenticated : Text → Text → Res (Unit {0}) → Stateful (Session W) (Unit {0})
  authenticated username password (ok _) = update n (λ s. record s {
    credentials = some (username, password);
    connection_generation = s.connection_generation + 1;
  })
  authenticated username password (err Exn.malformed_frame) = fail n Exn.authentication_error
  authenticated username password (err e) = fail n e

  -- `_connect`
  unfoldable pub connect_by : ℕ → Text → Text → ℕ → Stateful (Session W) (Unit {0})
  connect_by timeout username password deadline = do
    lift (validate_username username)
    lift (validate_password password)
    update n (λ s. record s { credentials = none })
    close n
    require_before_deadline n deadline
    t ← monotonic n
    if leb deadline t then raise Exn.protocol_timeout else pure tt
    result ← connect_socket (min timeout (deadline - t))
    connecting result
    send n (connect_frame username password) deadline none
    answer ← attempt (authenticate username deadline)
    authenticated username password answer

  abbrev pub reconnected_as : Text × Text → Res (Unit {0}) → Stateful (Session W) (Unit {0})
  reconnected_as saved (ok _) = pure tt
  reconnected_as saved (err Exn.authentication_error) = do
    update n (λ s. record s { credentials = none })
    raise Exn.authentication_error
  reconnected_as saved (err e) = do update n (λ s. record s { credentials = some saved }); raise e

  unfoldable pub reconnect_as : ℕ → ℕ → Option (Text × Text) → Stateful (Session W) (Unit {0})
  reconnect_as timeout deadline none = raise Exn.protocol_error
  reconnect_as timeout deadline (some (username, password)) = do
    result ← attempt (connect_by timeout username password deadline)
    reconnected_as (username, password) result

  -- `_reconnect`
  unfoldable pub reconnect_by : ℕ → ℕ → Stateful (Session W) (Unit {0})
  reconnect_by timeout deadline = do
    session ← current n
    reconnect_as timeout deadline session.credentials

  -- An echo is dropped, and the next line is read.
  abbrev pub next_echo :
      ℕ → List Text → (Text → Stateful (Session W) Text) → Stateful (Session W) Text
  next_echo deadline ps continue = do
    update n (λ s. record s { pending_set_echoes = ps })
    line ← read_line n false deadline
    continue line

  -- No echo: those that were pending are given up.
  abbrev pub no_more_echoes : Text → Stateful (Session W) Text
  no_more_echoes line = do update n (λ s. record s { pending_set_echoes = [] }); pure line

  -- The loop of `_read_response_line`, over the echoes that are still pending.
  unfoldable pub skip_echoes : ℕ → List Text → Text → Stateful (Session W) Text
  skip_echoes deadline [] line = pure line
  skip_echoes deadline (p ∷ ps) line =
      if text_eq line p || text_eq line (codes "setr" ++ drop 3 p)
      then next_echo deadline ps (skip_echoes deadline ps)
      else no_more_echoes line

  -- `_read_response_line`
  unfoldable pub read_response_line : ℕ → Stateful (Session W) Text
  read_response_line deadline = do
    line ← read_line n false deadline
    session ← current n
    skip_echoes deadline session.pending_set_echoes line

  abbrev pub answered : ParamPath → Res ValueResponse → Stateful (Session W) Text
  answered path (err e) = fail n e
  answered path (ok r) =
      if text_eq r.kind (codes "get") && path_eq r.path path
      then pure r.value
      else fail n Exn.protocol_error

  -- `_get`
  unfoldable pub get_by : ParamPath → ℕ → Stateful (Session W) Text
  get_by path deadline = do
    encoded ← lift (encode_path path)
    send n (get_frame encoded) deadline none
    line ← read_response_line deadline
    raise_if_error n line
    answered path (parse_value_response line)

  -- `_set`
  unfoldable pub set_by : ParamPath → Text → ℕ → Option ℕ → Stateful (Session W) (Unit {0})
  set_by path value deadline start = do
    lift (validate_atom true value)
    encoded ← lift (encode_path path)
    send n (set_frame encoded value) deadline start
    update n (λ s. record s {
      pending_set_echoes = s.pending_set_echoes ++ set_frame encoded value ∷ [];
    })

  abbrev pub next_entries :
      Line → Entries → (Entries → Stateful (Session W) Entries) → Stateful (Session W) Entries
  next_entries Line.ends entries next = pure entries
  next_entries Line.skipped entries next = next entries
  next_entries Line.malformed entries next = fail n Exn.protocol_error
  next_entries (Line.entry_line key value) entries next =
      if text_in key (keys entries)
      then fail n Exn.protocol_error
      else next (entries ++ (key, value) ∷ [])

  -- The second loop of `_ls`.
  unfoldable pub read_entries : ℕ → ℕ → Entries → Stateful (Session W) Entries
  read_entries zero deadline entries = raise Exn.loop_exhausted
  read_entries (suc fuel) deadline entries = do
    line ← read_line n true deadline
    raise_if_error n line
    next_entries (classify line) entries (read_entries fuel deadline)

  -- `_ls`
  unfoldable pub ls_by : ℕ → ParamPath → ℕ → Stateful (Session W) Entries
  ls_by fuel path deadline = do
    encoded ← lift (encode_path path)
    send n (ls_frame encoded) deadline none
    line ← read_response_line deadline
    raise_if_error n line
    if text_eq line (ls_frame encoded) then pure tt else fail n Exn.protocol_error
    read_entries fuel deadline []

  -- The public methods: `connect`, `reconnect`, `get`, `set` and `ls` without a deadline of the
  -- caller, the methods with the suffix `_before` with one.
  unfoldable pub connect : ℕ → Text → Text → Option ℕ → Stateful (Session W) (Unit {0})
  connect timeout username password before = do
    deadline ← bounded_deadline n timeout before
    connect_by timeout username password deadline

  unfoldable pub reconnect : ℕ → Option ℕ → Stateful (Session W) (Unit {0})
  reconnect timeout before = do
    deadline ← bounded_deadline n timeout before
    reconnect_by timeout deadline

  unfoldable pub get : ℕ → ParamPath → Option ℕ → Stateful (Session W) Text
  get timeout path before = do deadline ← bounded_deadline n timeout before; get_by path deadline

  unfoldable pub set : ℕ → ParamPath → Text → Option ℕ → Stateful (Session W) (Unit {0})
  set timeout path value before = do
    deadline ← bounded_deadline n timeout before
    set_by path value deadline none

  unfoldable pub set_starting_before :
      ℕ → ParamPath → Text → ℕ → ℕ → Stateful (Session W) (Unit {0})
  set_starting_before timeout path value start_deadline before = do
    deadline ← bounded_deadline n timeout (some before)
    start ← bounded_deadline n timeout (some start_deadline)
    set_by path value deadline (some start)

  unfoldable pub ls : ℕ → ℕ → ParamPath → Option ℕ → Stateful (Session W) Entries
  ls fuel timeout path before = do
    deadline ← bounded_deadline n timeout before
    ls_by fuel path deadline
