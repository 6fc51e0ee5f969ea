-- ===== src/Protocol/Failure.antt =====
-- What a failed command leaves (src/pa2bridge/protocol.py, lines 271 to 445).
use pa2bridge.Base.{
  ap, if◌then◌else◌, some_of, ℕ, ◌≡◌, refl, ◌⊎◌, inl, inr, Bool, true, false, ◌&&◌, ◌||◌, Option,
  none, some, List, [], ◌∷◌, ◌++◌, arith, min, drop,
}
use pa2bridge.Base.Text.{Text, codes, text_eq, strip_prefix, is_control}
use pa2bridge.Controller.Action.{Res, ok, err, Exn, ParamPath, Stateful, lift}
use pa2bridge.Protocol.Frame.{
  ValueResponse, validate_atom, validate_parts, encode_path, encode_valid, parse_value_response,
  error_message, with_path, decode_parts, decode_path, response_of, response_after, path_and_value,
  match_kind, kinds, quote, backslash, until,
}
use pa2bridge.Protocol.Session.{
  SocketResult, Network, Session, require_admitted, bounded_deadline, hand_over, transmit, sent_all,
  transmit_bytes, send, raise_on, raise_if_error, read_line,
}
use pa2bridge.Protocol.Client.{
  path_eq, get_frame, set_frame, skip_echoes, read_response_line, answered, get_by, set_by, get,
  set, set_starting_before,
}
use pa2bridge.Protocol.Triple.{
  Post, Ensures, ensures-weaken, ensures-weaken_pre, ensures-pure, ensures-raise, ensures-if,
  ensures-lift, ensures-bind,
}
use pa2bridge.Protocol.Closing.{
  IsOpen, Valid, Raised, is_exhausted, Valid-world, ensures-fail, ensures-monotonic,
  ensures-require_time, ensures-current, ensures-update, ensures-guard-IsOpen, ensures-read_line,
  Worldly,
}

-- A command that raises has closed the session, but for a ValueError on its arguments.
abbrev pub Refused : {W : Type 0} → Exn → Session W → Type 0
Refused e s = Raised e s ⊎ ((e ≡ Exn.value_error) × Valid s)

pub validate_atom-err :
    (b : Bool) (t : Text) {e : Exn} → validate_atom b t ≡ err e → e ≡ Exn.value_error
unfolding validate_atom
validate_atom-err b [] h = cc
validate_atom-err b (c ∷ cs) h = ground arith

part-err :
    (r : Res Text) (next : Res (Unit {0})) {e : Exn}
    → elim r [ ok _ ↦ next | err x ↦ err x ] ≡ err e
    → ((x : Exn) → r ≡ err x → x ≡ Exn.value_error)
    → (next ≡ err e → e ≡ Exn.value_error)
    → e ≡ Exn.value_error
part-err (ok _) next h f g = g h
part-err (err x) next h f g = ground (arith, f x refl, h)

validate_parts-err : (ps : List Text) {e : Exn} → validate_parts ps ≡ err e → e ≡ Exn.value_error
unfolding validate_parts
validate_parts-err [] h = cc
validate_parts-err (p ∷ ps) h =
    part-err (validate_atom false p) (validate_parts ps) h (λ x q. validate_atom-err false p q)
      (validate_parts-err ps)

encode_path-err : (path : ParamPath) {e : Exn} → encode_path path ≡ err e → e ≡ Exn.value_error
unfolding encode_path
encode_path-err [] h = cc
encode_path-err (p ∷ ps) {e = e} h = go (validate_parts (p ∷ ps)) refl h
  where
    go :
        (r : Res (Unit {0}))
        → validate_parts (p ∷ ps) ≡ r
        → encode_valid (p ∷ ps) r ≡ err e
        → e ≡ Exn.value_error
    go (ok _) q h = cc
    go (err x) q h = validate_parts-err (p ∷ ps) (ground (arith, q, h))

decode_parts-err : (o : Option Text) {e : Exn} → decode_parts o ≡ err e → e ≡ Exn.protocol_error
decode_parts-err none h = ground (arith, h)
decode_parts-err (some t) h = ground (arith, h)

decoded_response :
    (kind value : Text) (r : Res ParamPath) {e : Exn}
    → with_path kind value r ≡ err e
    → ((x : Exn) → r ≡ err x → x ≡ Exn.protocol_error)
    → e ≡ Exn.protocol_error
decoded_response kind value (err x) h f = ground (arith, f x refl, h)
decoded_response kind value (ok parts) h f = cc

response_of-err :
    (kind : Text) (o : Option (Text × Text)) {e : Exn}
    → response_of kind o ≡ err e
    → e ≡ Exn.protocol_error
unfolding decode_path
response_of-err kind none h = ground (arith, h)
response_of-err kind (some (path, value)) h =
    decoded_response kind value (decode_path path) h
      (λ x q. decode_parts-err (strip_prefix (backslash ∷ backslash ∷ []) path) q)

response_after-err :
    (o : Option (Text × Text)) {e : Exn} → response_after o ≡ err e → e ≡ Exn.protocol_error
response_after-err none h = ground (arith, h)
response_after-err (some (kind, rest)) h =
    response_of-err kind (path_and_value (until quote rest)) h

parse_value_response-err :
    (line : Text) {e : Exn} → parse_value_response line ≡ err e → e ≡ Exn.protocol_error
unfolding parse_value_response
parse_value_response-err line h =
    go (some_of is_control line) (response_after (match_kind kinds line)) h
      (response_after-err (match_kind kinds line))
  where
    go :
        (b : Bool) (r : Res ValueResponse) {e : Exn}
        → (if b then err Exn.protocol_error else r) ≡ err e
        → (r ≡ err e → e ≡ Exn.protocol_error)
        → e ≡ Exn.protocol_error
    go true r h f = ground (arith, h)
    go false r h f = f h

module _ {W : Type 0} (n : Network W) where
  ensures-require_admitted :
      {P : Session W → Type 0} (start : Option ℕ) (d : ℕ)
      → Worldly n P
      → Ensures P (require_admitted n start d) (λ _ s. P s) Raised
  unfolding require_admitted
  ensures-require_admitted none d h = ensures-require_time n _ d refl h
  ensures-require_admitted (some start) d h = ensures-require_time n _ (min start d) refl h

  widen :
      {A : Type 0} {P : Session W → Type 0} {Q : A → Session W → Type 0}
      {m : Stateful (Session W) A}
      → Ensures P m Q Raised
      → Ensures P m Q Refused
  widen h = ensures-weaken h (λ a s q. q) (λ e s q. inl q)

  ensures-hand_over :
      {E : Exn → Session W → Type 0} (command : Text) (bytes : List ℕ)
      → Ensures IsOpen (hand_over n command bytes) (λ r s. IsOpen s) E
  unfolding hand_over
  ensures-hand_over command bytes = record { at = λ s p. p }

  ensures-sent_all :
      (r : SocketResult (Unit {0})) → Ensures IsOpen (sent_all n r) (λ _ s. IsOpen s) Raised
  ensures-sent_all (SocketResult.done _) = ensures-pure tt (λ s p. p)
  ensures-sent_all SocketResult.timed_out = ensures-fail n _ refl
  ensures-sent_all SocketResult.failed = ensures-fail n _ refl

  ensures-transmit_bytes :
      (command : Text) (o : Option (List ℕ))
      → Ensures IsOpen (transmit_bytes n command o) (λ _ s. IsOpen s) Refused
  ensures-transmit_bytes command none = ensures-raise Exn.value_error (λ s p. inr (refl, inl p))
  ensures-transmit_bytes command (some bytes) =
      ensures-bind (ensures-hand_over command bytes) (λ r. widen (ensures-sent_all r))

  ensures-transmit :
      (command : Text) → Ensures IsOpen (transmit n command) (λ _ s. IsOpen s) Refused
  unfolding transmit
  ensures-transmit command = ensures-transmit_bytes command (n.encode (command ++ 10 ∷ []))

  ensures-send :
      (command : Text) (d : ℕ) (start : Option ℕ)
      → Ensures Valid (send n command d start) (λ _ s. IsOpen s) Refused
  unfolding send
  ensures-send command d start =
      ensures-bind (widen (ensures-require_admitted start d (Valid-world n))) (λ _.
        ensures-bind (ensures-current n) (λ t.
          ensures-bind (widen (ensures-guard-IsOpen n t _ refl (λ s p. p))) (λ _.
            ensures-bind
              (widen (
                ensures-weaken_pre (ensures-require_admitted {P = IsOpen} start d (λ s w p. p))
                  (λ s p. p.1)))
              (λ _.
                ensures-bind (ensures-transmit command)
                  (λ _. widen (ensures-require_time n _ d refl (λ s w p. p)))))))

  ensures-raise_on : (o : Option Text) → Ensures IsOpen (raise_on n o) (λ _ s. IsOpen s) Raised
  ensures-raise_on none = ensures-pure tt (λ s p. p)
  ensures-raise_on (some message) = ensures-fail n _ refl

  ensures-raise_if_error :
      (line : Text) → Ensures IsOpen (raise_if_error n line) (λ _ s. IsOpen s) Raised
  unfolding raise_if_error
  ensures-raise_if_error line = ensures-raise_on (error_message line)

  -- Reading from a session that is open.
  ensures-read-IsOpen :
      (allow_tab : Bool) (d : ℕ) → Ensures IsOpen (read_line n allow_tab d) (λ _ s. IsOpen s) Raised
  ensures-read-IsOpen allow_tab d =
      ensures-weaken_pre (ensures-read_line n allow_tab d) (λ s p. inl p)

  ensures-skip_echoes :
      (d : ℕ) (ps : List Text) (line : Text)
      → Ensures IsOpen (skip_echoes n d ps line) (λ _ s. IsOpen s) Raised
  unfolding skip_echoes
  ensures-skip_echoes d [] line = ensures-pure line (λ s p. p)
  ensures-skip_echoes d (p ∷ ps) line =
      ensures-if (text_eq line p || text_eq line (codes "setr" ++ drop 3 p))
        (λ _.
          ensures-bind (ensures-update n _ (λ s p. p)) (λ _.
            ensures-bind (ensures-read-IsOpen false d) (λ next. ensures-skip_echoes d ps next)))
        (λ _. ensures-bind (ensures-update n _ (λ s p. p)) (λ _. ensures-pure line (λ s p. p)))

  ensures-read_response_line :
      (d : ℕ) → Ensures IsOpen (read_response_line n d) (λ _ s. IsOpen s) Raised
  unfolding read_response_line
  ensures-read_response_line d = ensures-bind (ensures-read-IsOpen false d) (λ line.
      ensures-bind (ensures-current n)
        (λ t. ensures-weaken_pre (ensures-skip_echoes d t.pending_set_echoes line) (λ s p. p.0)))

  ensures-answered :
      (path : ParamPath) (r : Res ValueResponse)
      → ((e : Exn) → r ≡ err e → is_exhausted e ≡ false)
      → Ensures IsOpen (answered n path r) (λ _ s. IsOpen s) Raised
  ensures-answered path (err e) h = ensures-fail n e (h e refl)
  ensures-answered path (ok r) h =
      ensures-if (text_eq r.kind (codes "get") && path_eq r.path path)
        (λ _. ensures-pure r.value (λ s p. p)) (λ _. ensures-fail n Exn.protocol_error refl)

  ensures-encode :
      (path : ParamPath)
      → Ensures (Valid {W = W}) (lift (encode_path path)) (λ _ s. Valid s) (Refused {W = W})
  ensures-encode path =
      ensures-weaken (ensures-lift (encode_path path) (λ e s q v. inr (encode_path-err path q, v)))
        (λ a s p. p.0) (λ e s p. p)

  ensures-get_by :
      (path : ParamPath) (d : ℕ) → Ensures Valid (get_by n path d) (λ _ s. IsOpen s) Refused
  unfolding get_by
  ensures-get_by path d = ensures-bind (ensures-encode path) (λ encoded.
      ensures-bind (ensures-send (get_frame encoded) d none) (λ _. widen (
        ensures-bind (ensures-read_response_line d) (λ line.
          ensures-bind (ensures-raise_if_error line) (λ _.
            ensures-answered path (parse_value_response line)
              (λ e q. ap is_exhausted (parse_value_response-err line q)))))))

  ensures-set_by :
      (path : ParamPath) (value : Text) (d : ℕ) (start : Option ℕ)
      → Ensures Valid (set_by n path value d start) (λ _ s. IsOpen s) Refused
  unfolding set_by
  ensures-set_by path value d start =
      ensures-bind
        (ensures-weaken
          (ensures-lift (validate_atom true value)
            (λ e s q v. inr (validate_atom-err true value q, v)))
          (λ a s p. p.0) (λ e s p. p))
        (λ _. ensures-bind (ensures-encode path) (λ encoded.
          ensures-bind (ensures-send (set_frame encoded value) d start)
            (λ _. ensures-update n _ (λ s p. p))))

  ensures-bounded_deadline :
      {E : Exn → Session W → Type 0} (timeout : ℕ) (before : Option ℕ)
      → Ensures Valid (bounded_deadline n timeout before) (λ _ s. Valid s) E
  unfolding bounded_deadline
  ensures-bounded_deadline timeout none =
      ensures-bind (ensures-monotonic n (Valid-world n)) (λ t. ensures-pure _ (λ s p. p))
  ensures-bounded_deadline timeout (some d) =
      ensures-bind (ensures-monotonic n (Valid-world n)) (λ t. ensures-pure _ (λ s p. p))

  -- A `get`, a `set` or a `set_starting_before` on a session that is open, or closed with nothing
  -- kept, ends, whatever the network does. If it returns, the session is open. If it raises, either
  -- the session is closed, with nothing received, no echo pending and no peer, and the exception is
  -- not the mark of a read loop without fuel; or the exception is a ValueError.
  pub commands-closed_on_failure :
      (timeout : ℕ) (path : ParamPath) (value : Text) (before : Option ℕ) (start d : ℕ)
      (s : Session W)
      → Valid s
      → Post
          (λ _ t. IsOpen t)
          Refused
          (get n timeout path before s).0
          (get n timeout path before s).1
        × Post
            (λ _ t. IsOpen t)
            Refused
            (set n timeout path value before s).0
            (set n timeout path value before s).1
        × Post
            (λ _ t. IsOpen t)
            Refused
            (set_starting_before n timeout path value start d s).0
            (set_starting_before n timeout path value start d s).1
  unfolding get set set_starting_before
  commands-closed_on_failure timeout path value before start d s v = (
    (ensures-bind (ensures-bounded_deadline timeout before) (λ t. ensures-get_by path t)).at s v,
    (ensures-bind (ensures-bounded_deadline timeout before)
          (λ t. ensures-set_by path value t none)).at
        s v,
    (ensures-bind (ensures-bounded_deadline timeout (some d)) (λ t.
          ensures-bind (ensures-bounded_deadline timeout (some start))
            (λ u. ensures-set_by path value t (some u)))).at
        s v,
  )
