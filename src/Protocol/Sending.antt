-- ===== src/Protocol/Sending.antt =====
-- What the commands send (src/pa2bridge/protocol.py, lines 271 to 358 and 430 to 456).
use pa2bridge.Base.{
  ℕ, ◌≡◌, ◌≢◌, refl, ap, sym, subst, ◌∙◌, ◌⊎◌, inl, inr, true, Option, none, some, List, [], ◌∷◌,
  ◌++◌, leb,
}
use pa2bridge.Base.Text.{Text}
use pa2bridge.Controller.Action.{Res, ok, Exn, ParamPath, Stateful, lift, ◌>>◌}
use pa2bridge.Controller.Success.{ok_injective}
use pa2bridge.Protocol.Frame.{validate_atom, encode_path}
use pa2bridge.Protocol.Session.{
  SocketResult, Network, Session, monotonic, update, fail, require_time, hand_over, sent_all,
  transmit_bytes, transmit, send,
}
use pa2bridge.Protocol.Client.{set_frame, set_by, set_starting_before}
use pa2bridge.Protocol.Triple.{
  Post, Ensures, ensures-weaken, ensures-weaken_pre, ensures-pure, ensures-raise, ensures-if,
  ensures-lift, ensures-bind,
}
use pa2bridge.Protocol.Closing.{ensures-fail_by}
use pa2bridge.Protocol.Keeps.{
  Keeps, Keeps-current, Keeps-check, Keeps-require_admitted, Keeps-bounded_deadline,
}

-- The commands sent are these.
abbrev pub Sent : {W : Type 0} → List Text → Session W → Type 0
Sent l s = s.sent ≡ l

-- What has been sent when a command raises: nothing, or it alone. If the start deadline has expired,
-- it is nothing.
abbrev pub SentOrNot : {W : Type 0} → Text → List Text → Exn → Session W → Type 0
SentOrNot command l e s = Sent l s ⊎ ((e ≢ Exn.start_deadline_expired) × Sent (command ∷ l) s)

module _ {W : Type 0} (n : Network W) (l : List Text) (command : Text) where
  abbrev Before : Option (Text × Text) → ℕ → List Text → Type 0
  Before c g sent = sent ≡ l

  abbrev After : Option (Text × Text) → ℕ → List Text → Type 0
  After c g sent = sent ≡ command ∷ l

  not_yet :
      {A : Type 0} {m : Stateful (Session W) A}
      → Keeps n Before m
      → Ensures (Sent l) m (λ _ s. Sent l s) (SentOrNot command l)
  not_yet h = ensures-weaken h (λ a s p. p) (λ e s p. inl p)

  -- It is sent, and the exception is not the one of the start deadline.
  abbrev Done : Exn → Session W → Type 0
  Done e s = SentOrNot command l e s

  os-ne : Exn.os_error ≢ Exn.start_deadline_expired
  os-ne h = cc

  fail-Sent :
      {A : Type 0} {Q : A → Session W → Type 0} (e : Exn)
      → e ≢ Exn.start_deadline_expired
      → Ensures (Sent (command ∷ l)) (fail n e) Q Done
  fail-Sent e ne = ensures-fail_by n e (λ s w p. (inr (ne, p), inr (os-ne, p)))

  timeout-ne : Exn.protocol_timeout ≢ Exn.start_deadline_expired
  timeout-ne h = cc

  error-ne : Exn.protocol_error ≢ Exn.start_deadline_expired
  error-ne h = cc

  time-Sent :
      (d : ℕ)
      → Ensures
          (Sent (command ∷ l))
          (require_time n Exn.protocol_timeout d)
          (λ _ s. Sent (command ∷ l) s)
          Done
  unfolding require_time monotonic
  time-Sent d =
      ensures-bind {Q = λ t s. Sent (command ∷ l) s} (record { at = λ s p. p })
        (λ t. ensures-if (leb d t) (λ _. fail-Sent _ timeout-ne) (λ _. ensures-pure tt (λ s p. p)))

  all-Sent :
      (r : SocketResult (Unit {0}))
      → Ensures (Sent (command ∷ l)) (sent_all n r) (λ _ s. Sent (command ∷ l) s) Done
  all-Sent (SocketResult.done _) = ensures-pure tt (λ s p. p)
  all-Sent SocketResult.timed_out = fail-Sent _ error-ne
  all-Sent SocketResult.failed = fail-Sent _ error-ne

  handed_over :
      (bytes : List ℕ)
      → Ensures (Sent l) (hand_over n command bytes) (λ r s. Sent (command ∷ l) s) Done
  unfolding hand_over
  handed_over bytes = record { at = λ s p. ap (λ k. command ∷ k) p }

  bytes-Sent :
      (o : Option (List ℕ))
      → Ensures (Sent l) (transmit_bytes n command o) (λ _ s. Sent (command ∷ l) s) Done
  bytes-Sent none = ensures-raise Exn.value_error (λ s p. inl p)
  bytes-Sent (some bytes) = ensures-bind (handed_over bytes) (λ r. all-Sent r)

  transmitted : Ensures (Sent l) (transmit n command) (λ _ s. Sent (command ∷ l) s) Done
  unfolding transmit
  transmitted = bytes-Sent (n.encode (command ++ 10 ∷ []))

  sends :
      (d : ℕ) (start : Option ℕ)
      → Ensures (Sent l) (send n command d start) (λ _ s. Sent (command ∷ l) s) Done
  unfolding send
  sends d start = ensures-bind (not_yet (Keeps-require_admitted n Before start d)) (λ _.
      ensures-bind (not_yet (Keeps-current n Before)) (λ t.
        ensures-bind (not_yet (Keeps-check n Before t.is_open _)) (λ _.
          ensures-bind (not_yet (Keeps-require_admitted n Before start d))
            (λ _. ensures-bind transmitted (λ _. time-Sent d)))))

module _ {W : Type 0} (n : Network W) (l : List Text) where
  -- A check of an argument, of which the result is known.
  checked :
      {A : Type 0} {command : Text} {a : A} (r : Res A)
      → r ≡ ok a
      → Ensures (Sent l) (lift r) (λ b (s : Session W). (b ≡ a) × Sent l s) (SentOrNot command l)
  checked {command = command} r h =
      ensures-weaken (ensures-lift {E = SentOrNot command l} r (λ e s q p. inl p))
        (λ b s p. (ok_injective (sym p.1 ∙ h), p.0)) (λ e s p. p)

  -- A fact of the precondition that is no matter of the state.
  given :
      {A C : Type 0} {P : Session W → Type 0} {Q : A → Session W → Type 0}
      {E : Exn → Session W → Type 0} {m : Stateful (Session W) A}
      → (C → Ensures P m Q E)
      → Ensures (λ s. C × P s) m Q E
  given h = record { at = λ s p. (h p.0).at s p.1 }

  sets_encoded :
      (value : Text) (d : ℕ) (start : Option ℕ) (e encoded : Text)
      → e ≡ encoded
      → Ensures
          (Sent l)
          (send n (set_frame e value) d start
            >> update n (λ s. record s {
              pending_set_echoes = s.pending_set_echoes ++ set_frame e value ∷ [];
            }))
          (λ _ s. Sent (set_frame encoded value ∷ l) s)
          (SentOrNot (set_frame encoded value) l)
  unfolding update
  sets_encoded value d start e encoded q =
      subst
        (λ x.
          Ensures (Sent l)
            (send n (set_frame e value) d start
              >> update n (λ s. record s {
                pending_set_echoes = s.pending_set_echoes ++ set_frame e value ∷ [];
              }))
            (λ _ s. Sent (set_frame x value ∷ l) s) (SentOrNot (set_frame x value) l))
        q (ensures-bind (sends n l (set_frame e value) d start) (λ _. record { at = λ s p. p }))

  sets :
      (path : ParamPath) (value : Text) (d : ℕ) (start : Option ℕ) {encoded accepted : Text}
      → encode_path path ≡ ok encoded
      → validate_atom true value ≡ ok accepted
      → Ensures
          (Sent l)
          (set_by n path value d start)
          (λ _ s. Sent (set_frame encoded value ∷ l) s)
          (SentOrNot (set_frame encoded value) l)
  unfolding set_by
  sets path value d start {encoded = encoded} h k =
      ensures-bind (checked {command = set_frame encoded value} (validate_atom true value) k) (λ v.
        ensures-bind
          (ensures-weaken_pre (checked {command = set_frame encoded value} (encode_path path) h)
            (λ s p. p.1))
          (λ e. given (sets_encoded value d start e encoded)))

-- `set_starting_before` of a path and a value that can be sent: if it returns, it has sent the one
-- frame that sets the value. If it raises, it has sent that frame or nothing; and nothing if the
-- exception is the one of an expired start deadline.
pub set_starting_before-sends :
    {W : Type 0} (n : Network W) (timeout : ℕ) (path : ParamPath) (value : Text)
    (start_deadline deadline : ℕ) (s : Session W) {encoded accepted : Text}
    → encode_path path ≡ ok encoded
    → validate_atom true value ≡ ok accepted
    → Post
        (λ _ t. Sent (set_frame encoded value ∷ s.sent) t)
        (SentOrNot (set_frame encoded value) s.sent)
        (set_starting_before n timeout path value start_deadline deadline s).0
        (set_starting_before n timeout path value start_deadline deadline s).1
unfolding set_starting_before
set_starting_before-sends n timeout path value start deadline s {encoded = encoded} h k =
    let wait = λ (o : Option ℕ).
      not_yet n s.sent (set_frame encoded value)
        (Keeps-bounded_deadline n (λ c g sent. sent ≡ s.sent) timeout o) in
    Ensures.at
      (ensures-bind (wait (some deadline)) (λ d.
        ensures-bind (wait (some start)) (λ first. sets n s.sent path value d (some first) h k)))
      s refl
