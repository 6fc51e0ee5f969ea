-- ===== src/Protocol/Keeps.antt =====
-- What no reading and no closing changes: the credentials, the generation and the commands sent.
use pa2bridge.Base.{
  ℕ, zero, suc, ◌-◌, Bool, false, ◌&&◌, ◌||◌, Option, none, some, List, [], ◌∷◌, ◌++◌,
  if◌then◌else◌, ltb, leb, length, some_of, min, drop,
}
use pa2bridge.Base.Text.{Text, codes, text_eq}
use pa2bridge.Controller.Action.{Res, ok, err, Exn, ParamPath, Stateful, pure, raise}
use pa2bridge.Protocol.Frame.{ValueResponse, until, error_message}
use pa2bridge.Protocol.Session.{
  SocketResult, Network, Session, max_response_line_bytes, max_reads, monotonic, update, current,
  close, close_result, shut, fail, require_time, require_admitted, bounded_deadline, receive,
  received, read_chunk, whole_line, read_raw, decoded, read_line, strip_return, is_bad, raise_on,
  raise_if_error,
}
use pa2bridge.Protocol.Client.{skip_echoes, read_response_line, answered, path_eq}
use pa2bridge.Protocol.Triple.{Post, Ensures, ensures-pure, ensures-raise, ensures-if, ensures-bind}

module _ {W : Type 0} (n : Network W) (C : Option (Text × Text) → ℕ → List Text → Type 0) where
  -- A fact about what is kept.
  abbrev pub Core : Session W → Type 0
  Core s = C s.credentials s.connection_generation s.sent

  abbrev pub Keeps : {A : Type 0} → Stateful (Session W) A → Type 0
  Keeps m = Ensures Core m (λ _ s. Core s) (λ _ s. Core s)

  Keeps-pure : {A : Type 0} (a : A) → Keeps (pure a)
  Keeps-pure a = ensures-pure a (λ s p. p)

  pub Keeps-raise : {A : Type 0} (e : Exn) → Keeps {A = A} (raise e)
  Keeps-raise e = ensures-raise e (λ s p. p)

  pub Keeps-update :
      (f : Session W → Session W) → ((s : Session W) → Core s → Core (f s)) → Keeps (update n f)
  unfolding update
  Keeps-update f h = record { at = h }

  pub Keeps-monotonic : Keeps (monotonic n)
  unfolding monotonic
  Keeps-monotonic = record { at = λ s p. p }

  pub Keeps-current : Keeps (current n)
  unfolding current
  Keeps-current = record { at = λ s p. p }

  Keeps-receive : (t : ℕ) → Keeps (receive n t)
  unfolding receive
  Keeps-receive t = record { at = λ s p. p }

  closed_either_way :
      (r : SocketResult (Unit {0})) (t : Session W)
      → Core t
      → Post (λ _ s. Core s) (λ _ s. Core s) (close_result r) t
  closed_either_way (SocketResult.done _) t h = h
  closed_either_way SocketResult.timed_out t h = h
  closed_either_way SocketResult.failed t h = h

  pub Keeps-close : Keeps (close n)
  unfolding close
  Keeps-close = record { at = λ s p. closed_either_way (shut n s.is_open s.world).0 _ p }

  -- Failing never returns, so anything holds where it does.
  pub failing :
      {A : Type 0} {Q : A → Session W → Type 0} (e : Exn)
      → Ensures Core (fail n e) Q (λ _ s. Core s)
  failing e = ensures-bind Keeps-close (λ _. ensures-raise e (λ s p. p))

  pub Keeps-fail : {A : Type 0} (e : Exn) → Keeps {A = A} (fail n e)
  Keeps-fail e = failing e

  pub Keeps-guard : (b : Bool) (e : Exn) → Keeps (if b then fail n e else pure tt)
  Keeps-guard b e = ensures-if b (λ _. Keeps-fail e) (λ _. Keeps-pure tt)

  pub Keeps-check : (b : Bool) (e : Exn) → Keeps (if b then pure tt else raise e)
  Keeps-check b e = ensures-if b (λ _. Keeps-pure tt) (λ _. Keeps-raise e)

  pub Keeps-unless : (b : Bool) (e : Exn) → Keeps (if b then raise e else pure tt)
  Keeps-unless b e = ensures-if b (λ _. Keeps-raise e) (λ _. Keeps-pure tt)

  pub Keeps-require_time : (e : Exn) (d : ℕ) → Keeps (require_time n e d)
  unfolding require_time
  Keeps-require_time e d = ensures-bind Keeps-monotonic (λ t. Keeps-guard (leb d t) e)

  pub Keeps-require_admitted : (start : Option ℕ) (d : ℕ) → Keeps (require_admitted n start d)
  unfolding require_admitted
  Keeps-require_admitted none d = Keeps-require_time _ d
  Keeps-require_admitted (some start) d = Keeps-require_time _ (min start d)

  -- Computing a deadline never raises.
  monotonic_returns : {E : Exn → Session W → Type 0} → Ensures Core (monotonic n) (λ _ s. Core s) E
  unfolding monotonic
  monotonic_returns = record { at = λ s p. p }

  pub deadline_returns :
      {E : Exn → Session W → Type 0} (timeout : ℕ) (before : Option ℕ)
      → Ensures Core (bounded_deadline n timeout before) (λ _ s. Core s) E
  unfolding bounded_deadline
  deadline_returns timeout none = ensures-bind monotonic_returns (λ t. ensures-pure _ (λ s p. p))
  deadline_returns timeout (some d) =
      ensures-bind monotonic_returns (λ t. ensures-pure _ (λ s p. p))

  pub Keeps-bounded_deadline :
      (timeout : ℕ) (before : Option ℕ) → Keeps (bounded_deadline n timeout before)
  Keeps-bounded_deadline = deadline_returns

  Keeps-received : (d : ℕ) (r : SocketResult (List ℕ)) → Keeps (received n d r)
  Keeps-received d SocketResult.timed_out = Keeps-fail _
  Keeps-received d SocketResult.failed = Keeps-fail _
  Keeps-received d (SocketResult.done []) =
      ensures-bind (Keeps-require_time _ d) (λ _. Keeps-fail _)
  Keeps-received d (SocketResult.done (b ∷ bs)) =
      ensures-bind (Keeps-require_time _ d) (λ _. Keeps-update _ (λ s p. p))

  Keeps-read_chunk : (d : ℕ) → Keeps (read_chunk n d)
  unfolding read_chunk
  Keeps-read_chunk d = ensures-bind Keeps-current (λ t.
      ensures-bind (Keeps-guard (ltb max_response_line_bytes (length t.buffer)) _) (λ _.
        ensures-bind (Keeps-check t.is_open _) (λ _. ensures-bind Keeps-monotonic (λ now.
          ensures-bind (Keeps-guard (leb d now) _)
            (λ _. ensures-bind (Keeps-receive (d - now)) (λ r. Keeps-received d r))))))

  Keeps-whole_line :
      (o : Option (List ℕ × List ℕ)) {next : Stateful (Session W) (List ℕ)}
      → Keeps next
      → Keeps (whole_line n o next)
  Keeps-whole_line none h = h
  Keeps-whole_line (some (raw, rest)) h =
      ensures-if (ltb max_response_line_bytes (length raw)) (λ _. Keeps-fail Exn.malformed_frame)
        (λ _. Keeps-pure raw)

  Keeps-read_raw : (fuel d : ℕ) → Keeps (read_raw n fuel d)
  unfolding read_raw
  Keeps-read_raw zero d = Keeps-raise _
  Keeps-read_raw (suc fuel) d = ensures-bind (Keeps-require_time _ d) (λ _.
      ensures-bind Keeps-current (λ t.
        Keeps-whole_line (until 10 t.buffer)
          (ensures-bind (Keeps-read_chunk d) (λ _. Keeps-read_raw fuel d))))

  Keeps-decoded : (allow_tab : Bool) (o : Option Text) → Keeps (decoded n allow_tab o)
  Keeps-decoded allow_tab none = Keeps-fail _
  Keeps-decoded allow_tab (some line) =
      ensures-if (some_of (is_bad n allow_tab) line) (λ _. Keeps-fail Exn.malformed_frame)
        (λ _. Keeps-pure line)

  pub Keeps-read_line : (allow_tab : Bool) (d : ℕ) → Keeps (read_line n allow_tab d)
  unfolding read_line
  Keeps-read_line allow_tab d = ensures-bind (Keeps-read_raw max_reads d) (λ raw.
      ensures-bind (Keeps-require_time _ d) (λ _.
        ensures-bind (Keeps-update _ (λ s p. p))
          (λ _. Keeps-decoded allow_tab (n.decode (strip_return n raw)))))

  Keeps-raise_on : (o : Option Text) → Keeps (raise_on n o)
  Keeps-raise_on none = Keeps-pure tt
  Keeps-raise_on (some message) = Keeps-fail _

  pub Keeps-raise_if_error : (line : Text) → Keeps (raise_if_error n line)
  unfolding raise_if_error
  Keeps-raise_if_error line = Keeps-raise_on (error_message line)

  Keeps-skip_echoes : (d : ℕ) (ps : List Text) (line : Text) → Keeps (skip_echoes n d ps line)
  unfolding skip_echoes
  Keeps-skip_echoes d [] line = Keeps-pure line
  Keeps-skip_echoes d (p ∷ ps) line =
      ensures-if (text_eq line p || text_eq line (codes "setr" ++ drop 3 p))
        (λ _.
          ensures-bind (Keeps-update _ (λ s p. p))
            (λ _. ensures-bind (Keeps-read_line false d) (λ next. Keeps-skip_echoes d ps next)))
        (λ _. ensures-bind (Keeps-update _ (λ s p. p)) (λ _. Keeps-pure line))

  pub Keeps-read_response_line : (d : ℕ) → Keeps (read_response_line n d)
  unfolding read_response_line
  Keeps-read_response_line d =
      ensures-bind (Keeps-read_line false d)
        (λ line. ensures-bind Keeps-current (λ t. Keeps-skip_echoes d t.pending_set_echoes line))

  pub Keeps-answered : (path : ParamPath) (r : Res ValueResponse) → Keeps (answered n path r)
  Keeps-answered path (err e) = Keeps-fail e
  Keeps-answered path (ok r) =
      ensures-if (text_eq r.kind (codes "get") && path_eq r.path path) (λ _. Keeps-pure r.value)
        (λ _. Keeps-fail Exn.protocol_error)
