-- ===== src/Controller/Outputs.antt =====
-- Muting and unmuting the outputs: the verified writes, the readback of all six mutes, and the
-- rollback to muted (controller.py, lines 668 to 737, 820 to 979 and 996 to 1070).
use pa2bridge.Base.{
  ℕ, zero, suc, Bool, true, false, not, ◌||◌, Option, none, some, List, [], ◌∷◌, if◌then◌else◌,
  every, ◌==◌,
}
use pa2bridge.Base.Text.{Text, codes, text_eq}
use pa2bridge.Controller.Action.{
  Res, ok, err, Exn, Reason, ParamPath, Action, pure, raise, lift, attempt, is_recall_timeout,
  ◌>>=◌, ◌>>◌,
}
use pa2bridge.Controller.Values.{Preset, Mutes, parse_output_mute}
use pa2bridge.Controller.Device.{
  Controller, output_mutes, path_of, client_get, client_set, client_set_starting_before,
  client_reconnect, require_before, require_unmute_before, require_rollback_before,
  pace_output_transition, new_operation_deadline, admission_deadline,
}
use pa2bridge.Controller.Catalog.{verify_current_preset}

-- `"On" if muted else "Off"`
abbrev pub mute_text : Bool → Text
mute_text true = codes "On"
mute_text false = codes "Off"

-- `a == b` and `a != b` on truth values.
abbrev pub same : Bool → Bool → Bool
same true b = b
same false b = not b

-- The exceptions that `except (ProtocolStartDeadlineExpired, ConnectionValidationError): raise`
-- lets through, with the mark of a loop that was cut short.
abbrev pub passes : Exn → Bool
passes Exn.start_deadline_expired = true
passes Exn.connection_validation = true
passes Exn.loop_exhausted = true
passes _ = false

module _ {W : Type 0} (c : Controller W) where
  -- One mute, read and parsed.
  unfoldable pub read_mute : ParamPath → Option ℕ → Action W Bool
  read_mute path deadline = do actual ← client_get c path deadline; lift (parse_output_mute actual)

  -- The loop of `_read_all_output_mutes`, and of the final readback of a rollback: they differ in
  -- the exception of the deadline checks.
  unfoldable pub read_mutes : Exn → Option ℕ → List (Text × ParamPath) → Action W Mutes
  read_mutes e deadline [] = pure []
  read_mutes e deadline ((channel, path) ∷ rest) = do
    require_before c e deadline
    muted ← read_mute path deadline
    require_before c e deadline
    others ← read_mutes e deadline rest
    pure ((channel, muted) ∷ others)

  -- `_read_all_output_mutes`
  abbrev pub read_all_output_mutes : Option ℕ → Action W Mutes
  read_all_output_mutes deadline = read_mutes Exn.recall_timeout deadline output_mutes

  -- The write of one channel in `_write_all_outputs`; only the first has an admission deadline.
  unfoldable pub write_output : Text → Option ℕ → Option ℕ → ParamPath → Action W (Unit {0})
  write_output expected deadline none path = do
    require_unmute_before c deadline
    client_set c path expected deadline
  write_output expected none (some first) path = raise Exn.assertion_error
  write_output expected (some d) (some first) path =
      client_set_starting_before c path expected first d

  unfoldable pub write_and_confirm : Text → Option ℕ → Option ℕ → ParamPath → Action W (Unit {0})
  write_and_confirm expected deadline first path = do
    write_output expected deadline first path
    require_unmute_before c deadline
    actual ← read_mute path deadline
    require_unmute_before c deadline
    if same actual (text_eq expected (codes "On"))
        then pure tt
        else raise (Exn.output_verification Reason.not_confirmed)

  -- The loop of `_write_all_outputs`, which paces between two channels.
  unfoldable pub write_outputs :
      Text → Option ℕ → Option ℕ → List (Text × ParamPath) → Action W (Unit {0})
  write_outputs expected deadline first [] = pure tt
  write_outputs expected deadline first ((channel, path) ∷ []) =
      write_and_confirm expected deadline first path
  write_outputs expected deadline first ((channel, path) ∷ next ∷ rest) = do
    write_and_confirm expected deadline first path
    pace_output_transition c deadline
    write_outputs expected deadline none (next ∷ rest)

  -- `_write_all_outputs`
  unfoldable pub write_all_outputs : Text → Option ℕ → Option ℕ → Action W Mutes
  write_all_outputs expected deadline first = do
    write_outputs expected deadline first output_mutes
    readback ← read_all_output_mutes deadline
    if every (λ m. same m.1 (text_eq expected (codes "On"))) readback
        then pure readback
        else raise (Exn.output_verification Reason.not_confirmed)

  -- `except ConnectionValidationError: raise` and `except Exception: errors.append(...)`
  abbrev pub ignore_failure : Res (Unit {0}) → Action W (Unit {0})
  ignore_failure (ok _) = pure tt
  ignore_failure (err Exn.connection_validation) = raise Exn.connection_validation
  ignore_failure (err _) = pure tt

  unfoldable pub try_reconnect : Option ℕ → Action W (Unit {0})
  try_reconnect deadline = do result ← attempt (client_reconnect c deadline); ignore_failure result

  -- The recovery of one channel after a failed step: reconnect, and report the round as failed.
  unfoldable pub after_failure : Option ℕ → Action W Bool
  after_failure deadline = do
    require_rollback_before c deadline
    try_reconnect deadline
    require_rollback_before c deadline
    pure true

  -- The readback of one channel in a recovery round.
  unfoldable pub read_recovered : ParamPath → Option ℕ → Action W (Unit {0})
  read_recovered path deadline = do
    muted ← read_mute path deadline
    if muted then pure tt else raise (Exn.output_verification Reason.not_muted)

  abbrev pub recovered : Option ℕ → Res (Unit {0}) → Action W Bool
  recovered deadline (err _) = after_failure deadline
  recovered deadline (ok _) = do require_rollback_before c deadline; pure false

  abbrev pub written : ParamPath → Option ℕ → Res (Unit {0}) → Action W Bool
  written path deadline (err _) = after_failure deadline
  written path deadline (ok _) = do
    require_rollback_before c deadline
    result ← attempt (read_recovered path deadline)
    recovered deadline result

  -- One channel of a recovery round; `true` means that the round has failed.
  unfoldable pub recover_output : ParamPath → Option ℕ → Action W Bool
  recover_output path deadline = do
    require_rollback_before c deadline
    result ← attempt (client_set c path (codes "On") deadline)
    written path deadline result

  unfoldable pub recover_outputs : Option ℕ → List (Text × ParamPath) → Action W Bool
  recover_outputs deadline [] = pure false
  recover_outputs deadline ((channel, path) ∷ rest) = do
    failed ← recover_output path deadline
    others ← recover_outputs deadline rest
    pure (failed || others)

  abbrev pub confirmed : Option ℕ → Res Mutes → Action W Bool
  confirmed deadline (err _) = do failed ← after_failure deadline; pure false
  confirmed deadline (ok final) = pure (every (λ m. m.1) final)

  -- The end of a round: `true` if the final readback of all six outputs is muted.
  unfoldable pub confirm_round : Option ℕ → Bool → Action W Bool
  confirm_round deadline true = pure false
  confirm_round deadline false = do
    final ← attempt (read_mutes Exn.rollback_deadline deadline output_mutes)
    confirmed deadline final

  -- The rounds of a rollback.
  unfoldable pub recovery_rounds : ℕ → Option ℕ → Action W (Unit {0})
  recovery_rounds zero deadline = raise (Exn.output_verification Reason.rollback_exhausted)
  recovery_rounds (suc n) deadline = do
    require_rollback_before c deadline
    failed ← recover_outputs deadline output_mutes
    safe ← confirm_round deadline failed
    if safe then pure tt else recovery_rounds n deadline

  unfoldable pub first_reconnect : Bool → Option ℕ → Action W (Unit {0})
  first_reconnect false deadline = pure tt
  first_reconnect true deadline = do
    require_rollback_before c deadline
    try_reconnect deadline
    require_rollback_before c deadline

  -- `_rollback_outputs_to_muted`, called with the channels of `OUTPUT_MUTES`: eight rounds.
  unfoldable pub rollback_outputs : Bool → Option ℕ → Action W (Unit {0})
  rollback_outputs reconnect_first deadline = do
    first_reconnect reconnect_first deadline
    recovery_rounds 8 deadline

  -- The exception after a rollback: `final` if all outputs were confirmed muted.
  abbrev pub after_rollback : {A : Type 0} → Exn → Res (Unit {0}) → Action W A
  after_rollback final (ok _) = raise final
  after_rollback final (err Exn.connection_validation) = raise Exn.connection_validation
  after_rollback final (err Exn.rollback_deadline) = raise Exn.rollback_deadline
  after_rollback final (err _) = raise (Exn.output_verification Reason.rollback_failed)

  -- `except Exception as error: try: rollback ...`
  unfoldable pub fail_closed : {A : Type 0} → Bool → Option ℕ → Exn → Action W A
  fail_closed reconnect_first deadline final = do
    result ← attempt (rollback_outputs reconnect_first deadline)
    after_rollback final result

  abbrev pub guarded : {A : Type 0} → Bool → Option ℕ → (Exn → Exn) → Res A → Action W A
  guarded reconnect_first deadline final (ok a) = pure a
  guarded reconnect_first deadline final (err e) =
      if passes e then raise e else fail_closed reconnect_first deadline (final e)

  -- `expected_preset`: the verified current preset, before an unmute only.
  unfoldable pub preset_before : Bool → Option ℕ → Action W (Option Preset)
  preset_before true deadline = pure none
  preset_before false deadline = do preset ← verify_current_preset c deadline; pure (some preset)

  -- The comparison with the preset after the writes.
  unfoldable pub preset_after : Option Preset → Option ℕ → Action W (Unit {0})
  preset_after none deadline = pure tt
  preset_after (some preset) deadline = do
    final ← verify_current_preset c deadline
    if final.slot == preset.slot
        then pure tt
        else raise (Exn.output_verification Reason.preset_changed)

  abbrev pub either : Option ℕ → ℕ → ℕ
  either none d = d
  either (some first) d = first

  -- What is raised once the outputs are muted again.
  abbrev pub bulk_failure : Bool → Exn → Exn
  bulk_failure muted e =
      if muted || is_recall_timeout e then e else Exn.output_verification Reason.rolled_back

  abbrev pub single_failure : Bool → Exn → Exn
  single_failure muted e = if muted then e else Exn.output_verification Reason.rolled_back

  unfoldable pub write_verified : Bool → Option Preset → ℕ → Option ℕ → Action W Mutes
  write_verified muted preset deadline first = do
    readback ← write_all_outputs (mute_text muted) (some deadline) first
    preset_after preset (some deadline)
    pure readback

  -- `_set_all_outputs_muted`
  unfoldable pub set_all_outputs_muted_by : Bool → ℕ → Option ℕ → Action W Mutes
  set_all_outputs_muted_by muted deadline first = do
    preset ← preset_before muted (some (either first deadline))
    result ← attempt (write_verified muted preset deadline first)
    guarded true (some deadline) (bulk_failure muted) result

  -- `set_all_outputs_muted`
  unfoldable pub set_all_outputs_muted : Bool → Option ℕ → Action W Mutes
  set_all_outputs_muted muted start_deadline = do
    deadline ← new_operation_deadline c
    set_all_outputs_muted_by muted deadline (some (admission_deadline c start_deadline deadline))

  unfoldable pub write_one : ParamPath → Bool → Option Preset → ℕ → ℕ → Action W (Unit {0})
  write_one path muted preset admission deadline = do
    client_set_starting_before c path (mute_text muted) admission deadline
    require_unmute_before c (some deadline)
    actual ← client_get c path (some deadline)
    require_unmute_before c (some deadline)
    observed ← lift (parse_output_mute actual)
    if same observed muted then pure tt else raise (Exn.output_verification Reason.not_confirmed)
    preset_after preset (some deadline)

  -- `set_output_muted` of the channel with this path, or of an unknown channel.
  unfoldable pub set_path_muted : Option ParamPath → Bool → Option ℕ → Action W Bool
  set_path_muted none muted start_deadline = raise Exn.value_error
  set_path_muted (some path) muted start_deadline = do
    deadline ← new_operation_deadline c
    let admission = admission_deadline c start_deadline deadline
    preset ← preset_before muted (some admission)
    result ← attempt (write_one path muted preset admission deadline)
    guarded true (some deadline) (single_failure muted) result
    pure muted

  -- `set_output_muted`
  unfoldable pub set_output_muted : Text → Bool → Option ℕ → Action W Bool
  set_output_muted channel muted start_deadline =
      set_path_muted (path_of channel output_mutes) muted start_deadline
