-- ===== src/Controller/Action.antt =====
-- The controller's calls: exceptions, the client it drives, the clock, and the record of calls.
--
-- A call runs on a world of an arbitrary type, which the client's operations and the clock change
-- as they like: it stands for the PA2, the network and the passing of time. Times and durations
-- are whole milliseconds. Every call of the client, of the reconnect validator and of `sleep` is
-- put into `log`, newest first, with what it came back with; readings of the clock are not.
use pa2bridge.Base.{ℕ, Bool, true, false, Option, none, some, List, ◌∷◌}
use pa2bridge.Base.Text.{Text}

-- What an `OutputVerificationError` reports.
pub data Reason : Type 0 where
  unknown_state not_confirmed not_muted preset_changed slot_not_allowed : Reason
  rolled_back rollback_failed rollback_exhausted : Reason

-- The exceptions of protocol.py, controller.py and Python that a call can raise. `loop_exhausted`
-- is no exception: it marks a run of a polling loop that was given too little fuel.
pub data Exn : Type 0 where
  protocol_error protocol_timeout start_deadline_expired malformed_frame : Exn
  authentication_error os_error recall_timeout connection_validation rollback_deadline : Exn
  telemetry_error value_error key_error assertion_error loop_exhausted : Exn
  publish_error discovery_state_error identity_unavailable : Exn
  output_verification : Reason → Exn

-- `isinstance(error, ProtocolError)`
abbrev pub is_protocol_error : Exn → Bool
is_protocol_error Exn.protocol_error = true
is_protocol_error Exn.protocol_timeout = true
is_protocol_error Exn.start_deadline_expired = true
is_protocol_error Exn.malformed_frame = true
is_protocol_error Exn.authentication_error = true
is_protocol_error _ = false

-- `isinstance(error, (ProtocolError, OSError))`
abbrev pub is_connection_error : Exn → Bool
is_connection_error Exn.os_error = true
is_connection_error e = is_protocol_error e

-- `isinstance(error, RecallTimeout)`: a `RollbackDeadlineError` is one too.
abbrev pub is_recall_timeout : Exn → Bool
is_recall_timeout Exn.recall_timeout = true
is_recall_timeout Exn.rollback_deadline = true
is_recall_timeout _ = false

pub data Res {ℓ} (A : Type ℓ) : Type ℓ where
  ok : A → Res A
  err : Exn → Res A

abbrev pub ParamPath : Type 0
ParamPath = List Text

abbrev pub Entries : Type 0
Entries = List (Text × Text)

-- `class Client(Protocol)` of controller.py, with the clock and `sleep` that the constructor takes.
pub record Client (W : Type 0) : Type 0 where
  pub get : ParamPath → W → Res Text × W
  pub get_before : ParamPath → ℕ → W → Res Text × W
  pub set : ParamPath → Text → W → Res (Unit {0}) × W
  pub set_before : ParamPath → Text → ℕ → W → Res (Unit {0}) × W
  pub set_starting_before : ParamPath → Text → ℕ → ℕ → W → Res (Unit {0}) × W
  pub ls : ParamPath → W → Res Entries × W
  pub ls_before : ParamPath → ℕ → W → Res Entries × W
  pub reconnect : W → Res (Unit {0}) × W
  pub reconnect_before : ℕ → W → Res (Unit {0}) × W
  pub monotonic : W → ℕ × W
  pub sleep : ℕ → W → W

-- The calls that the controller made. `none` as an outcome means that the call raised.
pub data Event : Type 0 where
  got : ParamPath → Option ℕ → Option Text → Event
  wrote : ParamPath → Text → Option ℕ → Option ℕ → Option (Unit {0}) → Event
  listed : ParamPath → Option ℕ → Option Entries → Event
  reconnected : Option ℕ → Option (Unit {0}) → Event
  validated : Option ℕ → Option (Unit {0}) → Event
  slept : ℕ → Event

pub record Sys (W : Type 0) : Type 0 where
  pub world : W
  pub log : List Event

-- A call of the program: it changes a state, and returns or raises.
abbrev pub Stateful : Type 0 → Type 0 → Type 0
Stateful S A = S → Res A × S

abbrev pub Action : Type 0 → Type 0 → Type 0
Action W A = Stateful (Sys W) A

abbrev pub outcome : {A : Type 0} → Res A → Option A
outcome (ok a) = some a
outcome (err e) = none

-- One call of the client, recorded.
unfoldable pub call : {W A : Type 0} → (W → Res A × W) → (Option A → Event) → Action W A
call f event s =
    let (r, w) = f s.world in (r, record { world = w; log = event (outcome r) ∷ s.log })

module _ {S A : Type 0} where
  unfoldable pub pure : A → Stateful S A
  pure a s = (ok a, s)

  unfoldable pub raise : Exn → Stateful S A
  raise e s = (err e, s)

  unfoldable pub lift : Res A → Stateful S A
  lift r s = (r, s)

  -- `try: ... except`: the outcome as a value.
  abbrev caught : Res A → S → Res (Res A) × S
  caught r s = (ok r, s)

  unfoldable pub attempt : Stateful S A → Stateful S (Res A)
  attempt m s = let (r, s') = m s in caught r s'

module _ {S A B : Type 0} where
  abbrev pub continue : Res A → (A → Stateful S B) → Stateful S B
  continue (ok a) f s = f a s
  continue (err e) f s = (err e, s)

  infixl 10 ◌>>=◌ ◌>>◌
  unfoldable pub ◌>>=◌ : Stateful S A → (A → Stateful S B) → Stateful S B
  ◌>>=◌ m f s = let (r, s') = m s in continue r f s'

  abbrev pub ◌>>◌ : Stateful S A → Stateful S B → Stateful S B
  m >> n = m >>= λ _. n
