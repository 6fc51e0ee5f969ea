-- ===== src/Controller/Activate.antt =====
-- Preset activation (controller.py, lines 379 to 639).
pub mod Footprint
pub mod Safety
pub mod Reported
pub mod Gating
use pa2bridge.Base.{
  ℕ, zero, suc, ◌-◌, Bool, true, false, Option, none, some, List, [], ◌∷◌, if◌then◌else◌, leb, ◌==◌,
  every, min,
}
use pa2bridge.Base.Text.{Text}
use pa2bridge.Base.Decimal.{decimal}
use pa2bridge.Controller.Action.{
  Res, ok, err, Exn, Reason, ParamPath, Action, pure, raise, attempt, is_connection_error, ◌>>=◌,
  ◌>>◌,
}
use pa2bridge.Controller.Values.{Preset, Mutes, DeviceIdentity, Pa2State}
use pa2bridge.Controller.Device.{
  Controller, output_mutes, recall_path, now, sleep, client_set, client_reconnect,
  require_unmute_before, new_operation_deadline, admission_deadline,
}
use pa2bridge.Controller.Catalog.{
  read_current, read_identity, preset_catalog, verify_current_preset, current_preset,
}
use pa2bridge.Controller.Resolve.{Target, resolve_preset}
use pa2bridge.Controller.Outputs.{
  read_mute, read_mutes, read_all_output_mutes, set_all_outputs_muted_by, guarded, fail_closed,
}

module _ {W : Type 0} (c : Controller W) where
  unfoldable pub identity_or_read : Option DeviceIdentity → Option ℕ → Action W DeviceIdentity
  identity_or_read none deadline = read_identity c deadline
  identity_or_read (some identity) deadline = pure identity

  -- The comprehension over `OUTPUT_MUTES` in `state`, which has no deadline checks.
  unfoldable pub read_state_mutes : Option ℕ → List (Text × ParamPath) → Action W Mutes
  read_state_mutes deadline [] = pure []
  read_state_mutes deadline ((channel, path) ∷ rest) = do
    muted ← read_mute c path deadline
    others ← read_state_mutes deadline rest
    pure ((channel, muted) ∷ others)

  -- `state`
  unfoldable pub state : Option DeviceIdentity → Option ℕ → Action W Pa2State
  state identity deadline = do
    who ← identity_or_read identity deadline
    preset ← current_preset c deadline
    mutes ← read_state_mutes deadline output_mutes
    pure (record { identity = who; current_preset = preset; output_mutes = mutes })

  abbrev pub ignore_connection_error : Res (Unit {0}) → Action W (Unit {0})
  ignore_connection_error (ok _) = pure tt
  ignore_connection_error (err e) = if is_connection_error e then pure tt else raise e

  -- The wait before the next reading, at most to the deadline.
  unfoldable pub pause : ℕ → Action W (Unit {0})
  pause deadline = do
    t ← now c
    if leb deadline t
        then raise Exn.recall_timeout
        else sleep c (min c.poll_interval (deadline - t))

  -- One reading of the poll loop has come back: `next` is the rest of the loop.
  unfoldable pub after_poll : ℕ → ℕ → Action W (Unit {0}) → Res ℕ → Action W (Unit {0})
  after_poll slot deadline next (err e) =
      if is_connection_error e
      then (do
        require_unmute_before c (some deadline)
        result ← attempt (client_reconnect c (some deadline))
        ignore_connection_error result
        pause deadline
        next)
      else raise e
  after_poll slot deadline next (ok current) =
      if current == slot then require_unmute_before c (some deadline) else (do pause deadline; next)

  -- `while True`: poll `CurrentPreset` until the slot is confirmed. The first argument is fuel.
  unfoldable pub poll_current : ℕ → ℕ → ℕ → Action W (Unit {0})
  poll_current zero slot deadline = raise Exn.loop_exhausted
  poll_current (suc fuel) slot deadline = do
    require_unmute_before c (some deadline)
    result ← attempt (read_current c (some deadline))
    after_poll slot deadline (poll_current fuel slot deadline) result

  -- The recall, if the preset is not active yet.
  unfoldable pub recall : ℕ → Preset → ℕ → Action W (Unit {0})
  recall fuel preset deadline = do
    current ← read_current c (some deadline)
    if current == preset.slot then pure tt else do
      client_set c recall_path (decimal preset.slot) (some deadline)
      require_unmute_before c (some deadline)
      poll_current fuel preset.slot deadline

  -- The readback after a recall: every output must still be muted.
  unfoldable pub require_all_muted : ℕ → Action W (Unit {0})
  require_all_muted deadline = do
    mutes ← read_all_output_mutes c (some deadline)
    if every (λ m. m.1) mutes then pure tt else raise (Exn.output_verification Reason.not_muted)

  -- The pause after a recall, at most to the deadline.
  unfoldable pub settle : ℕ → Action W (Unit {0})
  settle deadline = do
    t ← now c
    if leb deadline t
        then raise Exn.recall_timeout
        else sleep c (min c.post_recall_delay (deadline - t))
    require_unmute_before c (some deadline)

  -- The direct reading of the preset before an unmute.
  unfoldable pub confirm_active : Preset → ℕ → Action W ℕ
  confirm_active preset deadline = do
    final ← read_current c (some deadline)
    require_unmute_before c (some deadline)
    if final == preset.slot then pure tt else raise Exn.recall_timeout
    pure final

  -- The steps between the confirmed recall and the first unmute.
  unfoldable pub verify_before_unmute : Preset → ℕ → Action W (Unit {0})
  verify_before_unmute preset deadline = do
    settle deadline
    final ← confirm_active preset deadline
    preset_catalog c (some final) (some deadline)
    require_unmute_before c (some deadline)
    require_all_muted deadline
    require_unmute_before c (some deadline)

  -- The unmute at the end of an activation, and the last check of the preset.
  unfoldable pub unmute_verified : Preset → DeviceIdentity → ℕ → Action W Pa2State
  unmute_verified preset who deadline = do
    mutes ← set_all_outputs_muted_by c false deadline none
    final ← verify_current_preset c (some deadline)
    if final.slot == preset.slot
        then pure tt
        else raise (Exn.output_verification Reason.preset_changed)
    pure (record { identity = who; current_preset = preset; output_mutes = mutes })

  -- `_activate_resolved_preset`, up to the readback after the recall.
  unfoldable pub recall_muted :
      ℕ → Preset → ℕ → Option DeviceIdentity → Option ℕ → Action W (DeviceIdentity × Mutes)
  recall_muted fuel preset deadline identity first = do
    initial ← set_all_outputs_muted_by c true deadline first
    who ← identity_or_read identity (some deadline)
    recall fuel preset deadline
    require_all_muted deadline
    pure (who, initial)

  abbrev pub finish : Bool → Preset → ℕ → DeviceIdentity × Mutes → Action W Pa2State
  finish false preset deadline (who, initial) =
      pure (record { identity = who; current_preset = preset; output_mutes = initial })
  finish true preset deadline (who, initial) = do
    verify_before_unmute preset deadline
    unmute_verified preset who deadline

  -- `_activate_resolved_preset`
  unfoldable pub activate_resolved_preset :
      ℕ → Preset → Bool → ℕ → Option DeviceIdentity → Option ℕ → Action W Pa2State
  activate_resolved_preset fuel preset unmute_after deadline identity first = do
    progress ← recall_muted fuel preset deadline identity first
    finish unmute_after preset deadline progress

  -- The preset is active already: nothing is written.
  unfoldable pub report_active : Preset → Option DeviceIdentity → ℕ → Action W Pa2State
  report_active preset identity admission = do
    who ← identity_or_read identity (some admission)
    mutes ← read_all_output_mutes c (some admission)
    pure (record { identity = who; current_preset = preset; output_mutes = mutes })

  -- The other branch, with the rollback of its handler.
  unfoldable pub activate_guarded :
      ℕ → Preset → Bool → ℕ → Option DeviceIdentity → Option ℕ → Action W Pa2State
  activate_guarded fuel preset unmute_after deadline identity first = do
    result ← attempt (activate_resolved_preset fuel preset unmute_after deadline identity first)
    guarded c false (some deadline) (λ e. e) result

  -- `activate_preset`
  unfoldable pub activate_preset :
      ℕ → Target → Bool → Option DeviceIdentity → Option ℕ → Action W Pa2State
  activate_preset fuel target unmute_after identity start_deadline = do
    deadline ← new_operation_deadline c
    let admission = admission_deadline c start_deadline deadline
    preset ← resolve_preset c target (some admission)
    current ← read_current c (some admission)
    require_unmute_before c (some admission)
    if current == preset.slot
        then report_active preset identity admission
        else activate_guarded fuel preset unmute_after deadline identity (some admission)
