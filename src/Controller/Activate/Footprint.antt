-- ===== src/Controller/Activate/Footprint.antt =====
-- What the parts of an activation may call.
use pa2bridge.Base.{ℕ, zero, suc, Bool, true, false, Option, none, some, ◌==◌}
use pa2bridge.Base.Text.{codes}
use pa2bridge.Base.Decimal.{decimal}
use pa2bridge.Controller.Action.{Res, ok, err, Exn, Event, Action}
use pa2bridge.Controller.Values.{Preset, Mutes, DeviceIdentity}
use pa2bridge.Controller.Device.{Controller, recall_path}
use pa2bridge.Controller.Runs.{
  Runs, CanRead, CanRecover, CanWrite, Runs-bind, Runs-if, Runs-pure, Runs-raise, Runs-attempt,
  client_rules, Runs-sleep, Runs-require_before, Runs-client_set,
}
use pa2bridge.Controller.Outputs.{either}
use pa2bridge.Controller.Footprint.{
  Runs-read_current, Runs-preset_catalog, Runs-verify_current_preset, Runs-identity_or_read,
  Runs-read_mutes, Runs-set_all_outputs_muted_by,
}
use pa2bridge.Controller.Activate.{
  ignore_connection_error, pause, after_poll, poll_current, recall, require_all_muted, settle,
  confirm_active, verify_before_unmute, unmute_verified, recall_muted, finish, report_active,
}

module _ {W : Type 0} (c : Controller W) {P : Event → Type 0} (d : ℕ)
    (recovers : CanRecover P (some d)) where
  Runs-ignore : (r : Res (Unit {0})) → Runs P (ignore_connection_error c r)
  Runs-ignore (ok _) = Runs-pure tt
  Runs-ignore (err e) = search client_rules

  Runs-pause : Runs P (pause c d)
  unfolding pause
  Runs-pause = search (client_rules, Runs-sleep c, recovers.sleeps)

  Runs-after_poll :
      (slot : ℕ) (next : Action W (Unit {0})) (r : Res ℕ)
      → Runs P next
      → Runs P (after_poll c slot d next r)
  unfolding after_poll
  Runs-after_poll slot next (ok current) h = search (client_rules, Runs-pause)
  Runs-after_poll slot next (err e) h =
      search (client_rules, Runs-pause, Runs-ignore, recovers) depth 10

  Runs-poll_current : (fuel slot : ℕ) → Runs P (poll_current c fuel slot d)
  unfolding poll_current
  Runs-poll_current zero slot = Runs-raise Exn.loop_exhausted
  Runs-poll_current (suc fuel) slot = Runs-bind _ _ (Runs-require_before c _ (some d)) (λ _.
      Runs-bind _ _ (Runs-attempt _ (Runs-read_current c (some d) recovers.reads))
        (λ r. Runs-after_poll slot _ r (Runs-poll_current fuel slot)))

  pub Runs-require_all_muted : Runs P (require_all_muted c d)
  unfolding require_all_muted
  Runs-require_all_muted = search (client_rules, Runs-read_mutes c (some d) recovers.reads)

  pub Runs-settle : Runs P (settle c d)
  unfolding settle
  Runs-settle = search (client_rules, Runs-sleep c, recovers.sleeps)

  Runs-confirm_active : (p : Preset) → Runs P (confirm_active c p d)
  unfolding confirm_active
  Runs-confirm_active p = Runs-bind _ _ (Runs-read_current c (some d) recovers.reads) (λ final.
      Runs-bind _ _ (Runs-require_before c _ (some d)) (λ _.
        Runs-bind _ _ (Runs-if (final == p.slot) _ _ (Runs-pure tt) (Runs-raise _))
          (λ _. Runs-pure final)))

  pub Runs-verify_before_unmute : (p : Preset) → Runs P (verify_before_unmute c p d)
  unfolding verify_before_unmute
  Runs-verify_before_unmute p = Runs-bind _ _ Runs-settle (λ _.
      Runs-bind _ _ (Runs-confirm_active p) (λ final.
        Runs-bind _ _ (Runs-preset_catalog c (some d) recovers.reads (some final))
          (λ _. search (client_rules, Runs-require_all_muted))))

  module _ (mutes : CanWrite P (codes "On") (some d)) (p : Preset)
      (recalls : CanWrite P (decimal p.slot) (some d)) where
    Runs-recall : (fuel : ℕ) → Runs P (recall c fuel p d)
    unfolding recall
    Runs-recall fuel = Runs-bind _ _ (Runs-read_current c (some d) recovers.reads) (λ current.
        Runs-if (current == p.slot) _ _ (Runs-pure tt) (
          Runs-bind _ _ (Runs-client_set c recall_path (decimal p.slot) (some d) recalls) (λ _.
            Runs-bind _ _ (Runs-require_before c _ (some d)) (λ _. Runs-poll_current fuel p.slot))))

    pub Runs-recall_muted :
        (fuel : ℕ) (identity : Option DeviceIdentity) (first : Option ℕ)
        → CanRead P (some (either c first d))
        → Runs P (recall_muted c fuel p d identity first)
    unfolding recall_muted
    Runs-recall_muted fuel identity first reads =
        Runs-bind _ _ (Runs-set_all_outputs_muted_by c d recovers mutes true mutes first reads)
          (λ initial.
            Runs-bind _ _ (Runs-identity_or_read c (some d) recovers.reads identity) (λ who.
              Runs-bind _ _ (Runs-recall fuel)
                (λ _. Runs-bind _ _ Runs-require_all_muted (λ _. Runs-pure (who, initial)))))

    -- The whole of an activation, where unmuting is allowed too.
    module _ (unmutes : CanWrite P (codes "Off") (some d)) where
      pub Runs-unmute_verified : (who : DeviceIdentity) → Runs P (unmute_verified c p who d)
      unfolding unmute_verified
      Runs-unmute_verified who =
          Runs-bind _ _
            (Runs-set_all_outputs_muted_by c d recovers mutes false unmutes none recovers.reads)
            (λ ms. Runs-bind _ _ (Runs-verify_current_preset c (some d) recovers.reads) (λ final.
              Runs-bind _ _ (Runs-if (final.slot == p.slot) _ _ (Runs-pure tt) (Runs-raise _))
                (λ _. Runs-pure _)))

      pub Runs-finish :
          (unmute_after : Bool) (q : DeviceIdentity × Mutes) → Runs P (finish c unmute_after p d q)
      Runs-finish false q = Runs-pure _
      Runs-finish true q =
          Runs-bind _ _ (Runs-verify_before_unmute p) (λ _. Runs-unmute_verified q.0)

pub Runs-report_active :
    {W : Type 0} (c : Controller W) {P : Event → Type 0} (d : ℕ)
    → CanRead P (some d)
    → (p : Preset) (identity : Option DeviceIdentity) → Runs P (report_active c p identity d)
unfolding report_active
Runs-report_active c d reads p identity =
    search (client_rules, Runs-identity_or_read c (some d) reads, Runs-read_mutes c (some d) reads)
