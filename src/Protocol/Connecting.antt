-- ===== src/Protocol/Connecting.antt =====
-- The credentials and the generation of a session (src/pa2bridge/protocol.py, lines 159 to 256).
use pa2bridge.Base.{
  ℕ, ◌+◌, ◌-◌, ◌≡◌, refl, ap, ◌⊎◌, inl, inr, true, false, Option, none, some, List, [], ◌∷◌, ◌++◌,
  leb, arith, min,
}
use pa2bridge.Base.Text.{Text, codes, text_eq}
use pa2bridge.Controller.Action.{Res, ok, err, Exn, Stateful, lift}
use pa2bridge.Protocol.Frame.{validate_atom, validate_username, validate_password, without_space}
use pa2bridge.Protocol.Session.{
  SocketResult, Network, Session, update, fail, hand_over, sent_all, transmit_bytes, transmit, send,
}
use pa2bridge.Protocol.Client.{
  connect_frame, connect_socket, adopt_socket, connecting, skip_greeting, authenticate,
  authenticated, connect_by, connect,
}
use pa2bridge.Protocol.Triple.{
  Post, Ensures, ensures-weaken, ensures-pure, ensures-if, ensures-lift, ensures-bind,
  ensures-attempt,
}
use pa2bridge.Protocol.Keeps.{
  Keeps, Keeps-raise, failing, Keeps-unless, Keeps-fail, Keeps-close, Keeps-monotonic,
  Keeps-current, Keeps-check, Keeps-require_time, Keeps-require_admitted, deadline_returns,
  Keeps-read_line,
}
use pa2bridge.Protocol.Failure.{validate_atom-err}

abbrev pub Generation : {W : Type 0} → ℕ → Session W → Type 0
Generation g s = s.connection_generation ≡ g

-- A new generation of the session, with these credentials.
abbrev pub LoggedIn : {W : Type 0} → Text × Text → ℕ → Session W → Type 0
LoggedIn login g s = (s.credentials ≡ some login) × Generation (g + 1) s

-- No login: the generation is the old one, and no credentials are kept, unless an argument was
-- refused with a ValueError.
abbrev pub NotLoggedIn : {W : Type 0} → ℕ → Exn → Session W → Type 0
NotLoggedIn g e s = Generation g s × ((s.credentials ≡ none) ⊎ (e ≡ Exn.value_error))

username_space :
    (r : Res Text) {e : Exn}
    → without_space r ≡ err e
    → ((x : Exn) → r ≡ err x → x ≡ Exn.value_error)
    → e ≡ Exn.value_error
username_space (err x) h f = ground (arith, f x refl, h)
username_space (ok t) h f = ground (arith, h)

validate_username-err : (t : Text) {e : Exn} → validate_username t ≡ err e → e ≡ Exn.value_error
unfolding validate_username
validate_username-err t h =
    username_space (validate_atom true t) h (λ x q. validate_atom-err true t q)

validate_password-err : (t : Text) {e : Exn} → validate_password t ≡ err e → e ≡ Exn.value_error
unfolding validate_password
validate_password-err t h = validate_atom-err true t h

module _ {W : Type 0} (n : Network W) (g : ℕ) where
  abbrev Cleared : Option (Text × Text) → ℕ → List Text → Type 0
  Cleared c k sent = (c ≡ none) × (k ≡ g)

  abbrev IsCleared : Session W → Type 0
  IsCleared s = (s.credentials ≡ none) × Generation g s

  cleared :
      {A : Type 0} {m : Stateful (Session W) A}
      → Keeps n Cleared m
      → Ensures IsCleared m (λ _ s. IsCleared s) (NotLoggedIn g)
  cleared h = ensures-weaken h (λ a s p. p) (λ e s p. (p.1, inl p.0))

  validated :
      (r : Res Text)
      → ((e : Exn) → r ≡ err e → e ≡ Exn.value_error)
      → Ensures (Generation g) (lift r) (λ _ (s : Session W). Generation g s) (NotLoggedIn g)
  validated r h =
      ensures-weaken (ensures-lift {E = NotLoggedIn g} r (λ e s q p. (p, inr (h e q))))
        (λ a s p. p.0) (λ e s p. p)

  Keeps-connect_socket : (t : ℕ) → Keeps n Cleared (connect_socket n t)
  unfolding connect_socket
  Keeps-connect_socket t = record { at = λ s p. p }

  Keeps-adopt : Keeps n Cleared (adopt_socket n)
  unfolding adopt_socket
  Keeps-adopt = record { at = λ s p. p }

  Keeps-connecting : (r : SocketResult (Unit {0})) → Keeps n Cleared (connecting n r)
  Keeps-connecting (SocketResult.done _) = Keeps-adopt
  Keeps-connecting SocketResult.timed_out = Keeps-raise n Cleared _
  Keeps-connecting SocketResult.failed = Keeps-raise n Cleared _

  Keeps-hand_over : (command : Text) (bytes : List ℕ) → Keeps n Cleared (hand_over n command bytes)
  unfolding hand_over
  Keeps-hand_over command bytes = record { at = λ s p. p }

  Keeps-sent_all : (r : SocketResult (Unit {0})) → Keeps n Cleared (sent_all n r)
  Keeps-sent_all (SocketResult.done _) = ensures-pure tt (λ s p. p)
  Keeps-sent_all SocketResult.timed_out = Keeps-fail n Cleared _
  Keeps-sent_all SocketResult.failed = Keeps-fail n Cleared _

  Keeps-bytes :
      (command : Text) (o : Option (List ℕ)) → Keeps n Cleared (transmit_bytes n command o)
  Keeps-bytes command none = Keeps-raise n Cleared _
  Keeps-bytes command (some bytes) =
      ensures-bind (Keeps-hand_over command bytes) (λ r. Keeps-sent_all r)

  Keeps-transmit : (command : Text) → Keeps n Cleared (transmit n command)
  unfolding transmit
  Keeps-transmit command = Keeps-bytes command (n.encode (command ++ 10 ∷ []))

  Keeps-send :
      (command : Text) (d : ℕ) (start : Option ℕ) → Keeps n Cleared (send n command d start)
  unfolding send
  Keeps-send command d start = ensures-bind (Keeps-require_admitted n Cleared start d) (λ _.
      ensures-bind (Keeps-current n Cleared) (λ t.
        ensures-bind (Keeps-check n Cleared t.is_open _) (λ _.
          ensures-bind (Keeps-require_admitted n Cleared start d)
            (λ _. ensures-bind (Keeps-transmit command) (λ _. Keeps-require_time n Cleared _ d)))))

  Keeps-skip_greeting : (d : ℕ) (line : Text) → Keeps n Cleared (skip_greeting n d line)
  unfolding skip_greeting
  Keeps-skip_greeting d line =
      ensures-if (text_eq line (codes "HiQnet Console")) (λ _. Keeps-read_line n Cleared false d)
        (λ _. ensures-pure line (λ s p. p))

  Keeps-authenticate : (username : Text) (d : ℕ) → Keeps n Cleared (authenticate n username d)
  unfolding authenticate
  Keeps-authenticate username d = ensures-bind (Keeps-read_line n Cleared false d) (λ first.
      ensures-bind (Keeps-skip_greeting d first) (λ line.
        Keeps-check n Cleared (text_eq line (codes "connect logged in as " ++ username)) _))

  fails :
      {Q : Unit {0} → Session W → Type 0} (e : Exn) → Ensures IsCleared (fail n e) Q (NotLoggedIn g)
  fails {Q = Q} e =
      ensures-weaken (failing n Cleared {Q = Q} e) (λ a s p. p) (λ e' s p. (p.1, inl p.0))

  -- The end of a login, whatever the answer was.
  answer_given :
      (username password : Text) (r : Res (Unit {0}))
      → Ensures
          (λ s. Post (λ _ t. IsCleared t) (λ _ t. IsCleared t) r s)
          (authenticated n username password r)
          (λ _ s. LoggedIn (username, password) g s)
          (NotLoggedIn g)
  unfolding update
  answer_given username password (ok _) = record { at = λ s p. (refl, ap (λ k. k + 1) p.1) }
  answer_given username password (err Exn.malformed_frame) = fails Exn.authentication_error
  answer_given username password (err e) = fails e

  -- A login of the session with these arguments.
  logs_in :
      (timeout : ℕ) (username password : Text) (d : ℕ)
      → Ensures
          (Generation g)
          (connect_by n timeout username password d)
          (λ _ s. LoggedIn (username, password) g s)
          (NotLoggedIn g)
  unfolding connect_by update
  logs_in timeout username password d =
      ensures-bind (validated (validate_username username) (λ e. validate_username-err username))
        (λ _.
          ensures-bind
            (validated (validate_password password) (λ e. validate_password-err password))
            (λ _.
              ensures-bind {Q = λ _ s. IsCleared s} (record { at = λ s p. (refl, p) })
                (λ _. ensures-bind (cleared (Keeps-close n Cleared)) (λ _.
                  ensures-bind (cleared (Keeps-require_time n Cleared _ d)) (λ _.
                    ensures-bind (cleared (Keeps-monotonic n Cleared)) (λ t.
                      ensures-bind (cleared (Keeps-unless n Cleared (leb d t) _)) (λ _.
                        ensures-bind (cleared (Keeps-connect_socket (min timeout (d - t)))) (λ r.
                          ensures-bind (cleared (Keeps-connecting r)) (λ _.
                            ensures-bind
                              (cleared (Keeps-send (connect_frame username password) d none))
                              (λ _.
                                ensures-bind (ensures-attempt (Keeps-authenticate username d))
                                  (λ r. answer_given username password r)))))))))))

-- `connect`: if it returns, the session has the credentials it was given and the next generation. If
-- it raises, the generation is the old one, and no credentials are kept unless the exception is a
-- ValueError.
pub connect-LoggedIn :
    {W : Type 0} (n : Network W) (timeout : ℕ) (username password : Text) (before : Option ℕ)
    (s : Session W)
    → Post
        (λ _ t. LoggedIn (username, password) s.connection_generation t)
        (NotLoggedIn s.connection_generation)
        (connect n timeout username password before s).0
        (connect n timeout username password before s).1
unfolding connect
connect-LoggedIn n timeout username password before s =
    let g = s.connection_generation in
    Ensures.at
      (ensures-bind (deadline_returns n (λ c k sent. k ≡ g) timeout before)
        (λ d. logs_in n g timeout username password d))
      s refl
