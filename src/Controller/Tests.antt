-- ===== src/Controller/Tests.antt =====
-- The controller on a small PA2: six outputs that share one mute, two presets, and a clock that
-- every reading moves on by a millisecond. A device that fails answers no reading.
use pa2bridge.Base.{
  List, ℕ, ◌+◌, ◌≡◌, refl, Bool, true, false, Option, none, some, [], ◌∷◌, if◌then◌else◌,
}
use pa2bridge.Base.Text.{Text, codes, text_eq, text_in, strip_prefix, starts_with}
use pa2bridge.Base.Decimal.{is_unsigned_integer, value_from, int_value, decimal_digits, decimal}
use pa2bridge.Controller.Action.{
  Res, ok, err, Exn, Reason, ParamPath, Entries, Client, Sys, pure, raise, lift, call, attempt,
  ◌>>=◌,
}
use pa2bridge.Controller.Values.{
  int_of_digits, parse_unsigned_integer, parse_output_mute, Mutes, DeviceIdentity,
}
use pa2bridge.Controller.Device.{
  Controller, output_mutes, path_of, number_in, now, sleep, require_before, new_operation_deadline,
  client_get, client_set, client_set_starting_before, client_ls, client_reconnect_only,
  validate_reconnected, client_reconnect, pace_output_transition,
}
use native.Mathlib.Omega.{arith}
use pa2bridge.Controller.Numbering.{Numbered, Found, build_catalog-Numbered}
use pa2bridge.Controller.Values.{Preset}
use pa2bridge.Controller.Entries.{
  entry, required, slots_from, max_of, slot_of_key, name_slots, preset_count, expected_keys,
  named_presets, build_catalog, has_unexpected_key, preset_at, allowed_presets, is_allowed,
}
use pa2bridge.Controller.Catalog.{
  read_current, current_slot, preset_catalog, list_preset_views, list_presets, read_identity,
  current_preset, verify_current_preset,
}
use pa2bridge.Controller.Resolve.{Target, drop_spaces, select, resolve_target, resolve_preset}
use pa2bridge.Controller.Outputs.{
  mute_text, read_mute, read_mutes, write_output, write_and_confirm, write_outputs,
  write_all_outputs, try_reconnect, after_failure, read_recovered, recover_output, recover_outputs,
  confirm_round, recovery_rounds, first_reconnect, rollback_outputs, fail_closed, preset_before,
  preset_after, write_verified, set_all_outputs_muted_by, set_all_outputs_muted, write_one,
  set_path_muted, set_output_muted,
}
use pa2bridge.Controller.Activate.{
  identity_or_read, read_state_mutes, state, pause, after_poll, poll_current, recall,
  require_all_muted, settle, confirm_active, verify_before_unmute, unmute_verified, recall_muted,
  activate_resolved_preset, report_active, activate_guarded, activate_preset,
}
use pa2bridge.Controller.Runs.{Extends}
use pa2bridge.Controller.Gate.{NoUnmute}
use pa2bridge.Controller.Readback.{after_reads}
use pa2bridge.Controller.Rollback.{EndsMuted, rollback_outputs-EndsMuted}
use pa2bridge.Controller.Sequence.{Confirms, after_writes, write_all_outputs-sequence}
use pa2bridge.Controller.Bulk.{UnmuteSafe, unmute-gated, mute-silent}
use pa2bridge.Controller.Outcome.{
  Contained, set_all_outputs_muted-Contained, set_output_muted-Contained, activate_preset-Contained,
}
use pa2bridge.Controller.Completion.{Completed, set_all_outputs_muted-Completed}
use pa2bridge.Controller.Activate.Safety.{ReadyToUnmute, verify_before_unmute-Ready}
use pa2bridge.Controller.Activate.Gating.{
  ActivationSafe, activate_preset-gated, activate_preset-silent,
}

record Pa2 : Type 0 where
  muted : Bool
  slot : ℕ
  clock : ℕ
  answers : Bool

abbrev read : ParamPath → Pa2 → Res Text × Pa2
read path w = (
  if w.answers
      then ok (
          if text_in (codes "CurrentPreset") path
          then decimal w.slot
          else if w.muted
          then codes "On"
          else codes "Off")
      else err Exn.os_error,
  w,
)

abbrev write : ParamPath → Text → Pa2 → Res (Unit {0}) × Pa2
write path value w =
    if text_in (codes "Recall") path
    then (ok tt, record w { slot = int_value value; muted = true })
    else (ok tt, record w { muted = text_eq value (codes "On") })

abbrev entries : Pa2 → Res Entries × Pa2
entries w = (
  ok (
      (codes "CurrentPreset", decimal w.slot)
      ∷ (codes "NumPresets", codes "2")
      ∷ (codes "Name_1", codes "A")
      ∷ (codes "Name_2", codes "B")
      ∷ []),
  w,
)

abbrev device : Client Pa2
device = record {
  get = read;
  get_before = λ path d. read path;
  set = write;
  set_before = λ path value d. write path value;
  set_starting_before = λ path value start d. write path value;
  ls = λ path. entries;
  ls_before = λ path d. entries;
  reconnect = λ w. (ok tt, w);
  reconnect_before = λ d w. (ok tt, w);
  monotonic = λ w. (w.clock, record w { clock = w.clock + 1 });
  sleep = λ d w. record w { clock = w.clock + d };
}

abbrev controller : Controller Pa2
controller = record {
  client = device;
  allowed_slots = none;
  recall_timeout = 10000;
  poll_interval = 200;
  post_recall_delay = 1000;
  reconnect_validator = none;
}

abbrev start : Bool → Bool → Sys Pa2
start muted answers = record {
  world = record { muted = muted; slot = 1; clock = 0; answers = answers };
  log = [];
}

abbrev identity : Option DeviceIdentity
identity =
    some (record { class_name = codes "PA2"; instance_name = codes "PA2"; firmware = codes "1" })

abbrev all_on : Mutes
all_on =
    (codes "high_left", true)
    ∷ (codes "high_right", true)
    ∷ (codes "mid_left", true)
    ∷ (codes "mid_right", true)
    ∷ (codes "low_left", true)
    ∷ (codes "low_right", true)
    ∷ []

set_all_outputs_muted-Completed_example :
    Completed 10000 true all_on []
      (set_all_outputs_muted controller true none (start false true)).1.log
unfolding text_eq text_in strip_prefix starts_with is_unsigned_integer value_from int_value
    decimal_digits decimal call pure raise lift attempt ◌>>=◌ int_of_digits parse_unsigned_integer
    parse_output_mute path_of number_in now sleep require_before new_operation_deadline client_get
    client_set client_set_starting_before client_ls client_reconnect_only validate_reconnected
    client_reconnect pace_output_transition entry required slots_from max_of slot_of_key name_slots
    preset_count expected_keys named_presets build_catalog has_unexpected_key preset_at
    allowed_presets is_allowed read_current current_slot preset_catalog list_preset_views
    list_presets read_identity current_preset verify_current_preset read_mute read_mutes
    write_output write_and_confirm write_outputs write_all_outputs try_reconnect after_failure
    read_recovered recover_output recover_outputs confirm_round recovery_rounds first_reconnect
    rollback_outputs fail_closed preset_before preset_after write_verified set_all_outputs_muted_by
    set_all_outputs_muted write_one set_path_muted set_output_muted
set_all_outputs_muted-Completed_example =
    set_all_outputs_muted-Completed controller true none (start false true) refl

write_all_outputs-sequence_example :
    Confirms true all_on
    × ((write_all_outputs controller (mute_text true) (some 9000) none (start false true)).1.log
        ≡ after_reads (some 9000) true output_mutes (after_writes 9000 none true output_mutes []))
unfolding text_eq text_in strip_prefix starts_with is_unsigned_integer value_from int_value
    decimal_digits decimal call pure raise lift attempt ◌>>=◌ int_of_digits parse_unsigned_integer
    parse_output_mute path_of number_in now sleep require_before new_operation_deadline client_get
    client_set client_set_starting_before client_ls client_reconnect_only validate_reconnected
    client_reconnect pace_output_transition entry required slots_from max_of slot_of_key name_slots
    preset_count expected_keys named_presets build_catalog has_unexpected_key preset_at
    allowed_presets is_allowed read_current current_slot preset_catalog list_preset_views
    list_presets read_identity current_preset verify_current_preset read_mute read_mutes
    write_output write_and_confirm write_outputs write_all_outputs try_reconnect after_failure
    read_recovered recover_output recover_outputs confirm_round recovery_rounds first_reconnect
    rollback_outputs fail_closed preset_before preset_after write_verified set_all_outputs_muted_by
    set_all_outputs_muted write_one set_path_muted set_output_muted
write_all_outputs-sequence_example =
    write_all_outputs-sequence controller 9000 true none (start false true) refl

rollback_outputs-EndsMuted_example :
    EndsMuted (some 9000) (rollback_outputs controller true (some 9000) (start false true)).1.log
unfolding text_eq text_in strip_prefix starts_with is_unsigned_integer value_from int_value
    decimal_digits decimal call pure raise lift attempt ◌>>=◌ int_of_digits parse_unsigned_integer
    parse_output_mute path_of number_in now sleep require_before new_operation_deadline client_get
    client_set client_set_starting_before client_ls client_reconnect_only validate_reconnected
    client_reconnect pace_output_transition entry required slots_from max_of slot_of_key name_slots
    preset_count expected_keys named_presets build_catalog has_unexpected_key preset_at
    allowed_presets is_allowed read_current current_slot preset_catalog list_preset_views
    list_presets read_identity current_preset verify_current_preset read_mute read_mutes
    write_output write_and_confirm write_outputs write_all_outputs try_reconnect after_failure
    read_recovered recover_output recover_outputs confirm_round recovery_rounds first_reconnect
    rollback_outputs fail_closed preset_before preset_after write_verified set_all_outputs_muted_by
    set_all_outputs_muted write_one set_path_muted set_output_muted
rollback_outputs-EndsMuted_example =
    rollback_outputs-EndsMuted controller (some 9000) true (start false true) refl

unmute-gated_example :
    UnmuteSafe controller [] (set_all_outputs_muted controller false none (start true true)).1.log
    × UnmuteSafe controller []
        (set_output_muted controller (codes "low_left") false none (start true true)).1.log
unmute-gated_example = unmute-gated controller (codes "low_left") none (start true true)

mute-silent_example :
    Extends NoUnmute [] (set_all_outputs_muted controller true none (start false true)).1.log
    × Extends NoUnmute []
        (set_output_muted controller (codes "low_left") true none (start false true)).1.log
mute-silent_example = mute-silent controller (codes "low_left") none (start false true)

set_all_outputs_muted-Contained_example :
    Contained
      (Exn.output_verification Reason.rollback_failed)
      []
      (set_all_outputs_muted controller true none (start false false)).1.log
unfolding text_eq text_in strip_prefix starts_with is_unsigned_integer value_from int_value
    decimal_digits decimal call pure raise lift attempt ◌>>=◌ int_of_digits parse_unsigned_integer
    parse_output_mute path_of number_in now sleep require_before new_operation_deadline client_get
    client_set client_set_starting_before client_ls client_reconnect_only validate_reconnected
    client_reconnect pace_output_transition entry required slots_from max_of slot_of_key name_slots
    preset_count expected_keys named_presets build_catalog has_unexpected_key preset_at
    allowed_presets is_allowed read_current current_slot preset_catalog list_preset_views
    list_presets read_identity current_preset verify_current_preset read_mute read_mutes
    write_output write_and_confirm write_outputs write_all_outputs try_reconnect after_failure
    read_recovered recover_output recover_outputs confirm_round recovery_rounds first_reconnect
    rollback_outputs fail_closed preset_before preset_after write_verified set_all_outputs_muted_by
    set_all_outputs_muted write_one set_path_muted set_output_muted
set_all_outputs_muted-Contained_example =
    set_all_outputs_muted-Contained controller true none (start false false) refl

set_output_muted-Contained_example :
    Contained
      (Exn.output_verification Reason.rollback_failed)
      []
      (set_output_muted controller (codes "low_left") true none (start false false)).1.log
unfolding text_eq text_in strip_prefix starts_with is_unsigned_integer value_from int_value
    decimal_digits decimal call pure raise lift attempt ◌>>=◌ int_of_digits parse_unsigned_integer
    parse_output_mute path_of number_in now sleep require_before new_operation_deadline client_get
    client_set client_set_starting_before client_ls client_reconnect_only validate_reconnected
    client_reconnect pace_output_transition entry required slots_from max_of slot_of_key name_slots
    preset_count expected_keys named_presets build_catalog has_unexpected_key preset_at
    allowed_presets is_allowed read_current current_slot preset_catalog list_preset_views
    list_presets read_identity current_preset verify_current_preset read_mute read_mutes
    write_output write_and_confirm write_outputs write_all_outputs try_reconnect after_failure
    read_recovered recover_output recover_outputs confirm_round recovery_rounds first_reconnect
    rollback_outputs fail_closed preset_before preset_after write_verified set_all_outputs_muted_by
    set_all_outputs_muted write_one set_path_muted set_output_muted
set_output_muted-Contained_example =
    set_output_muted-Contained controller (codes "low_left") true none (start false false) refl

activate_preset-Contained_example :
    Contained Exn.os_error []
      (activate_preset controller 20
        (Target.number 2)
        false
        identity
        none
        (start false false)).1.log
unfolding text_eq text_in strip_prefix starts_with is_unsigned_integer value_from int_value
    decimal_digits decimal call pure raise lift attempt ◌>>=◌ int_of_digits parse_unsigned_integer
    parse_output_mute path_of number_in now sleep require_before new_operation_deadline client_get
    client_set client_set_starting_before client_ls client_reconnect_only validate_reconnected
    client_reconnect pace_output_transition entry required slots_from max_of slot_of_key name_slots
    preset_count expected_keys named_presets build_catalog has_unexpected_key preset_at
    allowed_presets is_allowed read_current current_slot preset_catalog list_preset_views
    list_presets read_identity current_preset verify_current_preset drop_spaces select
    resolve_target resolve_preset read_mute read_mutes write_output write_and_confirm write_outputs
    write_all_outputs try_reconnect after_failure read_recovered recover_output recover_outputs
    confirm_round recovery_rounds first_reconnect rollback_outputs fail_closed preset_before
    preset_after write_verified set_all_outputs_muted_by set_all_outputs_muted write_one
    set_path_muted set_output_muted identity_or_read read_state_mutes state pause after_poll
    poll_current recall require_all_muted settle confirm_active verify_before_unmute unmute_verified
    recall_muted activate_resolved_preset report_active activate_guarded activate_preset
    mathlib.Core.List.filter_map
activate_preset-Contained_example =
    activate_preset-Contained controller 20 (Target.number 2) false identity none
      (start false false) refl

verify_before_unmute-Ready_example :
    ReadyToUnmute 1 9000 []
      (verify_before_unmute controller
        (record { slot = 1; name = codes "A" })
        9000
        (start true true)).1.log
unfolding text_eq text_in strip_prefix starts_with is_unsigned_integer value_from int_value
    decimal_digits decimal call pure raise lift attempt ◌>>=◌ int_of_digits parse_unsigned_integer
    parse_output_mute path_of number_in now sleep require_before new_operation_deadline client_get
    client_set client_set_starting_before client_ls client_reconnect_only validate_reconnected
    client_reconnect pace_output_transition entry required slots_from max_of slot_of_key name_slots
    preset_count expected_keys named_presets build_catalog has_unexpected_key preset_at
    allowed_presets is_allowed read_current current_slot preset_catalog list_preset_views
    list_presets read_identity current_preset verify_current_preset drop_spaces select
    resolve_target resolve_preset read_mute read_mutes write_output write_and_confirm write_outputs
    write_all_outputs try_reconnect after_failure read_recovered recover_output recover_outputs
    confirm_round recovery_rounds first_reconnect rollback_outputs fail_closed preset_before
    preset_after write_verified set_all_outputs_muted_by set_all_outputs_muted write_one
    set_path_muted set_output_muted identity_or_read read_state_mutes state pause after_poll
    poll_current recall require_all_muted settle confirm_active verify_before_unmute unmute_verified
    recall_muted activate_resolved_preset report_active activate_guarded activate_preset
    mathlib.Core.List.filter_map
verify_before_unmute-Ready_example =
    verify_before_unmute-Ready controller (record { slot = 1; name = codes "A" }) 9000
      (start true true) refl

activate_preset-gated_example :
    ActivationSafe controller
      (Target.number 2)
      []
      (activate_preset controller 20 (Target.number 2) true identity none (start true true)).1.log
activate_preset-gated_example =
    activate_preset-gated controller (Target.number 2) 20 true identity none (start true true)

activate_preset-silent_example :
    Extends NoUnmute []
      (activate_preset controller 20 (Target.number 2) false identity none (start true true)).1.log
activate_preset-silent_example =
    activate_preset-silent controller 20 (Target.number 2) identity none (start true true)

-- A whole activation, with its unmute.
activates :
    (activate_preset controller 20
      (Target.number 2)
      true
      identity
      none
      (start true true)).1.world.slot
    ≡ 2
unfolding text_eq text_in strip_prefix starts_with is_unsigned_integer value_from int_value
    decimal_digits decimal call pure raise lift attempt ◌>>=◌ int_of_digits parse_unsigned_integer
    parse_output_mute path_of number_in now sleep require_before new_operation_deadline client_get
    client_set client_set_starting_before client_ls client_reconnect_only validate_reconnected
    client_reconnect pace_output_transition entry required slots_from max_of slot_of_key name_slots
    preset_count expected_keys named_presets build_catalog has_unexpected_key preset_at
    allowed_presets is_allowed read_current current_slot preset_catalog list_preset_views
    list_presets read_identity current_preset verify_current_preset drop_spaces select
    resolve_target resolve_preset read_mute read_mutes write_output write_and_confirm write_outputs
    write_all_outputs try_reconnect after_failure read_recovered recover_output recover_outputs
    confirm_round recovery_rounds first_reconnect rollback_outputs fail_closed preset_before
    preset_after write_verified set_all_outputs_muted_by set_all_outputs_muted write_one
    set_path_muted set_output_muted identity_or_read read_state_mutes state pause after_poll
    poll_current recall require_all_muted settle confirm_active verify_before_unmute unmute_verified
    recall_muted activate_resolved_preset report_active activate_guarded activate_preset
    mathlib.Core.List.filter_map
activates = refl

abbrev listing : Entries
listing =
    (codes "NumPresets", codes "2") ∷ (codes "Name_1", codes "A") ∷ (codes "Name_2", codes "B") ∷ []

abbrev two_presets : List Preset
two_presets = record { slot = 1; name = codes "A" } ∷ record { slot = 2; name = codes "B" } ∷ []

build_catalog-Numbered_example :
    Numbered listing (1 ∷ 2 ∷ []) two_presets × Found listing 1 two_presets
unfolding build_catalog expected_keys named_presets slots_from entry required text_eq text_in
    decimal decimal_digits mathlib.Core.List.filter_map
build_catalog-Numbered_example = build_catalog-Numbered listing 2 1 none refl (omega arith)
