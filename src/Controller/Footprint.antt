-- ===== src/Controller/Footprint.antt =====
-- What each method of the controller may call: reads only, or reads with writes of one value.
use pa2bridge.Base.{ℕ, zero, suc, Bool, true, false, Option, none, some, List, [], ◌∷◌}
use pa2bridge.Base.Text.{Text, codes}
use pa2bridge.Controller.Action.{Res, ok, err, Exn, Reason, ParamPath, Event}
use pa2bridge.Controller.Values.{Preset, Mutes, DeviceIdentity}
use pa2bridge.Controller.Device.{Controller, output_mutes}
use pa2bridge.Controller.Catalog.{
  read_current, current_slot, preset_catalog, or_raise, current_preset, verify_current_preset,
  read_identity,
}
use pa2bridge.Controller.Resolve.{Target, resolve_preset}
use pa2bridge.Controller.Outputs.{
  mute_text, read_mute, read_mutes, write_output, write_and_confirm, write_outputs,
  write_all_outputs, ignore_failure, try_reconnect, after_failure, read_recovered, recovered,
  written, recover_output, recover_outputs, confirmed, confirm_round, recovery_rounds,
  first_reconnect, rollback_outputs, after_rollback, fail_closed, guarded, preset_before,
  preset_after, write_verified, set_all_outputs_muted_by, write_one, either,
}
use pa2bridge.Controller.Activate.{identity_or_read}
use pa2bridge.Controller.Runs.{
  Runs, CanRead, CanRecover, CanWrite, Runs-bind, Runs-if, Runs-pure, Runs-raise, client_rules,
  Runs-require_before, Runs-pace_output_transition,
}

module _ {W : Type 0} (c : Controller W) {P : Event → Type 0} where
  pub Runs-or_raise : {A : Type 0} (e : Exn) (o : Option A) → Runs P (or_raise c e o)
  Runs-or_raise e none = search client_rules
  Runs-or_raise e (some a) = search client_rules

module _ {W : Type 0} (c : Controller W) {P : Event → Type 0} (deadline : Option ℕ)
    (reads : CanRead P deadline) where
  pub Runs-read_current : Runs P (read_current c deadline)
  unfolding read_current
  Runs-read_current = search (client_rules, reads)

  pub Runs-current_slot : (o : Option Text) → Runs P (current_slot c o deadline)
  unfolding current_slot
  Runs-current_slot none = search (client_rules, Runs-read_current)
  Runs-current_slot (some text) = search client_rules

  pub Runs-preset_catalog : (expected : Option ℕ) → Runs P (preset_catalog c expected deadline)
  unfolding preset_catalog
  Runs-preset_catalog expected = search (client_rules, reads, Runs-current_slot) depth 12

  pub Runs-current_preset : Runs P (current_preset c deadline)
  unfolding current_preset
  Runs-current_preset =
      search (client_rules, Runs-read_current, Runs-preset_catalog, Runs-or_raise c)

  pub Runs-verify_current_preset : Runs P (verify_current_preset c deadline)
  unfolding verify_current_preset
  Runs-verify_current_preset =
      search (client_rules, Runs-read_current, Runs-preset_catalog, Runs-or_raise c) depth 12

  pub Runs-resolve_preset : (target : Target) → Runs P (resolve_preset c target deadline)
  unfolding resolve_preset
  Runs-resolve_preset target = search (client_rules, Runs-preset_catalog)

  pub Runs-read_identity : Runs P (read_identity c deadline)
  unfolding read_identity
  Runs-read_identity = search (client_rules, reads) depth 8

  pub Runs-read_mute : (path : ParamPath) → Runs P (read_mute c path deadline)
  unfolding read_mute
  Runs-read_mute path = search (client_rules, reads)

  pub Runs-read_mutes : (e : Exn) (l : List (Text × ParamPath)) → Runs P (read_mutes c e deadline l)
  unfolding read_mutes
  Runs-read_mutes e [] = Runs-pure []
  Runs-read_mutes e ((channel, path) ∷ rest) =
      Runs-bind _ _ (Runs-require_before c e deadline) (λ _.
        Runs-bind _ _ (Runs-read_mute path) (λ muted.
          Runs-bind _ _ (Runs-require_before c e deadline)
            (λ _. Runs-bind _ _ (Runs-read_mutes e rest) (λ others. Runs-pure _))))

  pub Runs-preset_before : (muted : Bool) → Runs P (preset_before c muted deadline)
  unfolding preset_before
  Runs-preset_before true = search client_rules
  Runs-preset_before false = search (client_rules, Runs-verify_current_preset)

  pub Runs-preset_after : (p : Option Preset) → Runs P (preset_after c p deadline)
  unfolding preset_after
  Runs-preset_after none = search client_rules
  Runs-preset_after (some p) = search (client_rules, Runs-verify_current_preset)

  pub Runs-identity_or_read :
      (identity : Option DeviceIdentity) → Runs P (identity_or_read c identity deadline)
  unfolding identity_or_read
  Runs-identity_or_read none = Runs-read_identity
  Runs-identity_or_read (some who) = Runs-pure who

module _ {W : Type 0} (c : Controller W) {P : Event → Type 0} (deadline : Option ℕ)
    (recovers : CanRecover P deadline) where
  Runs-ignore_failure : (r : Res (Unit {0})) → Runs P (ignore_failure c r)
  Runs-ignore_failure (ok _) = Runs-pure tt
  Runs-ignore_failure (err Exn.connection_validation) = Runs-raise Exn.connection_validation
  Runs-ignore_failure (err _) = Runs-pure tt

  Runs-try_reconnect : Runs P (try_reconnect c deadline)
  unfolding try_reconnect
  Runs-try_reconnect = search (client_rules, recovers, Runs-ignore_failure)

  Runs-after_failure : Runs P (after_failure c deadline)
  unfolding after_failure
  Runs-after_failure = search (client_rules, Runs-try_reconnect) depth 8

  Runs-read_recovered : (path : ParamPath) → Runs P (read_recovered c path deadline)
  unfolding read_recovered
  Runs-read_recovered path = search (client_rules, Runs-read_mute c deadline recovers.reads)

  Runs-recovered : (r : Res (Unit {0})) → Runs P (recovered c deadline r)
  Runs-recovered (ok _) = search client_rules
  Runs-recovered (err _) = Runs-after_failure

  Runs-written : (path : ParamPath) (r : Res (Unit {0})) → Runs P (written c path deadline r)
  Runs-written path (ok _) = search (client_rules, Runs-read_recovered, Runs-recovered) depth 8
  Runs-written path (err _) = Runs-after_failure

  Runs-confirmed : (r : Res Mutes) → Runs P (confirmed c deadline r)
  Runs-confirmed (ok final) = search client_rules
  Runs-confirmed (err _) = search (client_rules, Runs-after_failure)

  Runs-confirm_round : (failed : Bool) → Runs P (confirm_round c deadline failed)
  unfolding confirm_round
  Runs-confirm_round true = search client_rules
  Runs-confirm_round false =
      search (client_rules, Runs-confirmed, Runs-read_mutes c deadline recovers.reads)

  Runs-first_reconnect : (b : Bool) → Runs P (first_reconnect c b deadline)
  unfolding first_reconnect
  Runs-first_reconnect false = search client_rules
  Runs-first_reconnect true = search (client_rules, Runs-try_reconnect) depth 8

  module _ (mutes : CanWrite P (codes "On") deadline) where
    Runs-recover_output : (path : ParamPath) → Runs P (recover_output c path deadline)
    unfolding recover_output
    Runs-recover_output path = search (client_rules, mutes, Runs-written) depth 8

    Runs-recover_outputs : (l : List (Text × ParamPath)) → Runs P (recover_outputs c deadline l)
    unfolding recover_outputs
    Runs-recover_outputs [] = search client_rules
    Runs-recover_outputs ((channel, path) ∷ rest) =
        Runs-bind _ _ (Runs-recover_output path)
          (λ _. search (client_rules, Runs-recover_outputs rest))

    Runs-recovery_rounds : (n : ℕ) → Runs P (recovery_rounds c n deadline)
    unfolding recovery_rounds
    Runs-recovery_rounds zero = search client_rules
    Runs-recovery_rounds (suc n) = Runs-bind _ _ (Runs-require_before c _ deadline) (λ _.
        Runs-bind _ _ (Runs-recover_outputs output_mutes) (λ failed.
          Runs-bind _ _ (Runs-confirm_round failed)
            (λ safe. Runs-if safe _ _ (Runs-pure tt) (Runs-recovery_rounds n))))

    pub Runs-rollback_outputs : (b : Bool) → Runs P (rollback_outputs c b deadline)
    unfolding rollback_outputs
    Runs-rollback_outputs b = search (client_rules, Runs-first_reconnect, Runs-recovery_rounds)

    Runs-after_rollback :
        {A : Type 0} (e : Exn) (r : Res (Unit {0})) → Runs P (after_rollback c {A = A} e r)
    Runs-after_rollback e (ok _) = Runs-raise e
    Runs-after_rollback e (err Exn.connection_validation) = Runs-raise Exn.connection_validation
    Runs-after_rollback e (err Exn.rollback_deadline) = Runs-raise Exn.rollback_deadline
    Runs-after_rollback e (err _) = Runs-raise (Exn.output_verification Reason.rollback_failed)

    pub Runs-fail_closed :
        {A : Type 0} (b : Bool) (e : Exn) → Runs P (fail_closed c {A = A} b deadline e)
    unfolding fail_closed
    Runs-fail_closed b e = search (client_rules, Runs-rollback_outputs, Runs-after_rollback)

    pub Runs-guarded :
        {A : Type 0} (b : Bool) (final : Exn → Exn) (r : Res A)
        → Runs P (guarded c b deadline final r)
    Runs-guarded b final (ok a) = Runs-pure a
    Runs-guarded b final (err e) = search (client_rules, Runs-fail_closed)

module _ {W : Type 0} (c : Controller W) {P : Event → Type 0} (d : ℕ)
    (recovers : CanRecover P (some d)) where
  -- Writing one value to the outputs, and reading it back.
  module _ (value : Text) (writes : CanWrite P value (some d)) where
    Runs-write_output :
        (first : Option ℕ) (path : ParamPath) → Runs P (write_output c value (some d) first path)
    unfolding write_output
    Runs-write_output none path = search (client_rules, writes)
    Runs-write_output (some f) path = search (client_rules, writes)

    Runs-write_and_confirm :
        (first : Option ℕ) (path : ParamPath)
        → Runs P (write_and_confirm c value (some d) first path)
    unfolding write_and_confirm
    Runs-write_and_confirm first path =
        search (client_rules, Runs-write_output, Runs-read_mute c (some d) recovers.reads) depth 8

    Runs-write_outputs :
        (first : Option ℕ) (l : List (Text × ParamPath))
        → Runs P (write_outputs c value (some d) first l)
    unfolding write_outputs
    Runs-write_outputs first [] = Runs-pure tt
    Runs-write_outputs first ((channel, path) ∷ []) = Runs-write_and_confirm first path
    Runs-write_outputs first ((channel, path) ∷ next ∷ rest) =
        Runs-bind _ _ (Runs-write_and_confirm first path) (λ _.
          Runs-bind _ _ (Runs-pace_output_transition c (some d) recovers)
            (λ _. Runs-write_outputs none (next ∷ rest)))

    pub Runs-write_all_outputs :
        (first : Option ℕ) → Runs P (write_all_outputs c value (some d) first)
    unfolding write_all_outputs
    Runs-write_all_outputs first =
        search (client_rules, Runs-write_outputs, Runs-read_mutes c (some d) recovers.reads)

  module _ (mutes : CanWrite P (codes "On") (some d)) where
    -- The bulk write of either value, with its rollback.
    module _ (muted : Bool) (writes : CanWrite P (mute_text muted) (some d)) where
      pub Runs-write_verified :
          (p : Option Preset) (first : Option ℕ) → Runs P (write_verified c muted p d first)
      unfolding write_verified
      Runs-write_verified p first = search (
        client_rules,
        Runs-write_all_outputs (mute_text muted) writes,
        Runs-preset_after c (some d) recovers.reads,
      )

      pub Runs-set_all_outputs_muted_by :
          (first : Option ℕ)
          → CanRead P (some (either c first d))
          → Runs P (set_all_outputs_muted_by c muted d first)
      unfolding set_all_outputs_muted_by
      Runs-set_all_outputs_muted_by first reads = search (
        client_rules,
        Runs-preset_before c (some (either c first d)) reads,
        Runs-write_verified,
        Runs-guarded c (some d) recovers mutes,
      )

      pub Runs-write_one :
          (path : ParamPath) (p : Option Preset) (admission : ℕ)
          → Runs P (write_one c path muted p admission d)
      unfolding write_one
      Runs-write_one path p admission =
          search (client_rules, writes, recovers.reads, Runs-preset_after c (some d) recovers.reads)
            depth 12
